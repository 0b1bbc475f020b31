-- ===== src/Expression.antt =====
-- execution/expressions.h: the expressions and their evaluation. A pointer to a tuple or a schema
-- that may be null is an Option. Clone, which copies, is the identity on these values.
pub mod Typing
use granite_db.Prelude.{
  ℕ, ◌+◌, ◌-◌, ◌*◌, ◌/◌, ◌%◌, ◌^◌, Bool, true, false, not, ◌&&◌, ◌||◌, List, [], ◌∷◌, Option, none,
  some, Result, ok, err, ◌>>=◌, length, ltb, leb, ◌==◌, if◌then◌else◌,
}
use granite_db.Row.{
  TypeId, invalid, boolean, int32, int64, double, varchar, type_id_eq, RowError,
  column_out_of_range, not_numeric, division_by_zero, Value, null, of_bool, of_int32, of_int64,
  of_double, of_string, get_type_id, is_null, Schema,
}
use granite_db.Row.Tuple.{get_value}
use granite_db.Row.Compare.{
  Doubles, Sign, below, equal, above, is_numeric_type, value_to_double, value_as_bool,
  compare_values,
}

pub data TupleSide : Type 0 where
  left right single : TupleSide

pub data ComparisonType : Type 0 where
  eq neq lt lte gt gte : ComparisonType

pub data ArithmeticType : Type 0 where
  add sub mul div : ArithmeticType

pub data Expression : Type 0 where
  constant : Value → Expression
  column : TupleSide → ℕ → Expression
  comparison : ComparisonType → Expression → Expression → Expression
  conjunction disjunction : Expression → Expression → Expression
  arithmetic : ArithmeticType → Expression → Expression → Expression

pub data ExpressionError : Type 0 where
  null_tuple column_index : ExpressionError
  row : RowError → ExpressionError

unfoldable pub lift {ℓ} : {A : Type ℓ} → Result RowError A → Result ExpressionError A
lift (ok a) = ok a
lift (err e) = err (row e)

-- The four arguments of Evaluate.
pub record Inputs : Type 0 where
  pub left_tuple : Option (List Value)
  pub left_schema : Option Schema
  pub right_tuple : Option (List Value)
  pub right_schema : Option Schema

unfoldable pub column_of : Option (List Value) → Option Schema → ℕ → Result ExpressionError Value
column_of none schema index = err null_tuple
column_of (some tuple) none index = err null_tuple
column_of (some tuple) (some schema) index =
    if leb (length schema) index then err column_index else lift (get_value tuple index)

unfoldable pub column_value : Inputs → TupleSide → ℕ → Result ExpressionError Value
unfolding column_of
column_value i right index = column_of i.right_tuple i.right_schema index
column_value i left index = column_of i.left_tuple i.left_schema index
column_value i single index = column_of i.left_tuple i.left_schema index

unfoldable pub compare_by : ComparisonType → Sign → Bool
compare_by eq equal = true
compare_by eq _ = false
compare_by neq equal = false
compare_by neq _ = true
compare_by lt below = true
compare_by lt _ = false
compare_by lte above = false
compare_by lte _ = true
compare_by gt above = true
compare_by gt _ = false
compare_by gte below = false
compare_by gte _ = true

unfoldable pub arithmetic_type : ArithmeticType → TypeId → TypeId → TypeId
arithmetic_type div a b = double
arithmetic_type _ a b = if type_id_eq a double || type_id_eq b double then double else int64

unfoldable pub int64_negate : ℕ → ℕ
int64_negate x = (2 ^ 64 - x) % 2 ^ 64

unfoldable pub int64_abs : ℕ → ℕ
int64_abs x = if ltb x (2 ^ 63) then x else 2 ^ 64 - x

-- The quotient, cut off towards 0.
unfoldable pub int64_quotient : ℕ → ℕ → ℕ
unfolding int64_negate int64_abs
int64_quotient x y =
    let q = int64_abs x / int64_abs y in
    let same = ltb x (2 ^ 63) && ltb y (2 ^ 63) || leb (2 ^ 63) x && leb (2 ^ 63) y in
    if same then q % 2 ^ 64 else int64_negate q

-- Two's complement on 64 bits, also where the signed operation of the source overflows.
unfoldable pub int64_result : ArithmeticType → ℕ → ℕ → Result RowError Value
unfolding int64_quotient
int64_result add x y = ok (of_int64 ((x + y) % 2 ^ 64))
int64_result sub x y = ok (of_int64 ((x + 2 ^ 64 - y) % 2 ^ 64))
int64_result mul x y = ok (of_int64 (x * y % 2 ^ 64))
int64_result div x y = if y == 0 then err division_by_zero else ok (of_int64 (int64_quotient x y))

module _ (d : Doubles) where
  unfoldable pub double_result : ArithmeticType → ℕ → ℕ → Result RowError Value
  double_result add x y = ok (of_double (d.add x y))
  double_result sub x y = ok (of_double (d.sub x y))
  double_result mul x y = ok (of_double (d.mul x y))
  double_result div x y = if d.is_tiny y then err division_by_zero else ok (of_double (d.div x y))

  unfoldable pub make_arithmetic_result : ℕ → ℕ → ArithmeticType → TypeId → Result RowError Value
  unfolding int64_result double_result
  make_arithmetic_result x y op result_type =
      if type_id_eq result_type double
      then double_result op x y
      else int64_result op (d.to_int64 x) (d.to_int64 y)

  -- What the two operand values of a comparison give.
  unfoldable pub compare_operands : ComparisonType → Value → Value → Result RowError Value
  compare_operands cmp_type lv rv =
      if is_null lv || is_null rv
      then ok (of_bool false)
      else compare_values d lv rv >>= λ cmp. ok (of_bool (compare_by cmp_type cmp))

  unfoldable pub arithmetic_operands : ArithmeticType → Value → Value → Result RowError Value
  arithmetic_operands op lv rv =
      if is_null lv || is_null rv
      then ok (null double)
      else if not (is_numeric_type (get_type_id lv)) || not (is_numeric_type (get_type_id rv))
      then err not_numeric
      else value_to_double d lv >>= λ x. value_to_double d rv >>= λ y.
          make_arithmetic_result x y op (arithmetic_type op (get_type_id lv) (get_type_id rv))

  -- Evaluate, of every class.
  unfoldable pub evaluate : Inputs → Expression → Result ExpressionError Value
  evaluate i (constant v) = ok v
  evaluate i (column side index) = column_value i side index
  evaluate i (comparison cmp_type l r) =
      evaluate i l >>= λ lv. evaluate i r >>= λ rv. lift (compare_operands cmp_type lv rv)
  evaluate i (conjunction l r) =
      let second = evaluate i r >>= λ rv. ok (of_bool (value_as_bool d rv)) in
      evaluate i l >>= λ lv. if not (value_as_bool d lv) then ok (of_bool false) else second
  evaluate i (disjunction l r) =
      let second = evaluate i r >>= λ rv. ok (of_bool (value_as_bool d rv)) in
      evaluate i l >>= λ lv. if value_as_bool d lv then ok (of_bool true) else second
  evaluate i (arithmetic op l r) =
      evaluate i l >>= λ lv. evaluate i r >>= λ rv. lift (arithmetic_operands op lv rv)
