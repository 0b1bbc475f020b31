-- ===== src/Row/Compare.antt =====
-- The conversions and comparisons of values in execution/expressions.h. The arithmetic of `double`
-- is an interface on bit patterns.
use granite_db.Prelude.{
  ℕ, ◌+◌, ◌%◌, ◌^◌, Bool, true, false, not, ◌&&◌, ◌||◌, List, [], ◌∷◌, Result, ok, err, ◌>>=◌, ltb,
  ◌==◌, if◌then◌else◌,
}
use granite_db.Row.{
  TypeId, boolean, int32, int64, double, varchar, type_id_eq, RowError, bad_variant,
  cannot_compare_null, incompatible_types, not_numeric, unsupported_type, Value, null, of_bool,
  of_int32, of_int64, of_double, of_string, get_type_id, is_null, as_bool, as_string,
}

-- What the code uses of the machine's `double`: conversions, `<`, the four operations, and the tests
-- of the absolute value against 1e-12.
pub record Doubles : Type 0 where
  pub from_int32 : ℕ → ℕ
  pub from_int64 : ℕ → ℕ
  pub to_int64 : ℕ → ℕ
  pub lt : ℕ → ℕ → Bool
  pub add : ℕ → ℕ → ℕ
  pub sub : ℕ → ℕ → ℕ
  pub mul : ℕ → ℕ → ℕ
  pub div : ℕ → ℕ → ℕ
  pub is_tiny : ℕ → Bool
  pub exceeds_tiny : ℕ → Bool

-- The negative, zero and positive results of a comparison.
pub data Sign : Type 0 where
  below equal above : Sign

unfoldable pub is_equal : Sign → Bool
is_equal equal = true
is_equal _ = false

unfoldable pub sign_of : Bool → Bool → Sign
sign_of lt gt = if lt then below else if gt then above else equal

-- `<` on two's complement bit patterns.
unfoldable pub int_lt : ℕ → ℕ → ℕ → Bool
int_lt half a b = ltb ((a + half) % (half + half)) ((b + half) % (half + half))

unfoldable pub int32_lt : ℕ → ℕ → Bool
unfolding int_lt
int32_lt a b = int_lt (2 ^ 31) a b

unfoldable pub int64_lt : ℕ → ℕ → Bool
unfolding int_lt
int64_lt a b = int_lt (2 ^ 63) a b

-- `<` on `bool` and on std::string, which compares the characters as unsigned.
unfoldable pub bool_lt : Bool → Bool → Bool
bool_lt a b = not a && b

unfoldable pub string_lt : List ℕ → List ℕ → Bool
string_lt s [] = false
string_lt [] (c ∷ t) = true
string_lt (b ∷ s) (c ∷ t) =
    let rest = string_lt s t in if ltb b c then true else if ltb c b then false else rest

unfoldable pub is_numeric_type : TypeId → Bool
is_numeric_type int32 = true
is_numeric_type int64 = true
is_numeric_type double = true
is_numeric_type _ = false

module _ (d : Doubles) where
  unfoldable pub value_to_double : Value → Result RowError ℕ
  value_to_double (of_int32 n) = ok (d.from_int32 n)
  value_to_double (of_int64 n) = ok (d.from_int64 n)
  value_to_double (of_double n) = ok n
  value_to_double (null int32) = err bad_variant
  value_to_double (null int64) = err bad_variant
  value_to_double (null double) = err bad_variant
  value_to_double _ = err not_numeric

  unfoldable pub value_as_bool : Value → Bool
  value_as_bool (null t) = false
  value_as_bool (of_bool b) = b
  value_as_bool (of_int32 n) = not (n == 0)
  value_as_bool (of_int64 n) = not (n == 0)
  value_as_bool (of_double n) = d.exceeds_tiny n
  value_as_bool (of_string []) = false
  value_as_bool (of_string (c ∷ s)) = true

  -- The comparison of two values of one type that is not numeric.
  unfoldable pub compare_same : TypeId → Value → Value → Result RowError Sign
  compare_same boolean a b =
      as_bool a >>= λ x. as_bool b >>= λ y. ok (sign_of (bool_lt x y) (bool_lt y x))
  compare_same varchar a b =
      as_string a >>= λ x. as_string b >>= λ y. ok (sign_of (string_lt x y) (string_lt y x))
  compare_same _ a b = err unsupported_type

  unfoldable pub compare_values : Value → Value → Result RowError Sign
  compare_values a b =
      if is_null a || is_null b
      then err cannot_compare_null
      else if is_numeric_type (get_type_id a) && is_numeric_type (get_type_id b)
      then value_to_double a
        >>= (λ x. value_to_double b >>= λ y. ok (sign_of (d.lt x y) (d.lt y x)))
      else if not (type_id_eq (get_type_id a) (get_type_id b))
      then err incompatible_types
      else compare_same (get_type_id a) a b
