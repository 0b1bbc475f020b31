-- ===== src/Expression/Typing/Operands.antt =====
-- The results of the operators of execution/expressions.h on operands of given types.
use granite_db.Prelude.{
  ℕ, ◌≡◌, refl, sym, ap, subst, ◌∙◌, Bool, true, false, ◌&&◌, ◌||◌, ok, arith, ◌⊎◌, inl, inr,
  Bool-cases, ◌==◌,
}
use granite_db.Row.{
  TypeId, boolean, int64, double, varchar, type_id_eq, Value, null, of_bool, of_int32, of_int64,
  of_double, of_string, get_type_id, is_null, as_bool, as_string,
}
use granite_db.Row.Columns.{type_id_eq→eq}
use granite_db.Row.Compare.{
  Doubles, Sign, is_numeric_type, value_to_double, compare_same, compare_values, sign_of, bool_lt,
  string_lt,
}
use granite_db.Expression.{
  ComparisonType, ArithmeticType, add, sub, mul, div, lift, compare_by, arithmetic_type,
  int64_result, double_result, make_arithmetic_result, compare_operands, arithmetic_operands,
}
use granite_db.Expression.Typing.{comparable, HasType, IsTyped}

module _ (d : Doubles) where
  value_to_double-ok :
      (v : Value)
      → is_null v ≡ false
      → is_numeric_type (get_type_id v) ≡ true
      → (x : ℕ) × (value_to_double d v ≡ ok x)
  unfolding is_null is_numeric_type get_type_id value_to_double
  value_to_double-ok (null t) n h = cc
  value_to_double-ok (of_bool b) n h = cc
  value_to_double-ok (of_int32 x) n h = (d.from_int32 x, refl)
  value_to_double-ok (of_int64 x) n h = (d.from_int64 x, refl)
  value_to_double-ok (of_double x) n h = (x, refl)
  value_to_double-ok (of_string s) n h = cc

  compare_same-ok :
      (a b : Value)
      → is_null a ≡ false
      → is_null b ≡ false
      → get_type_id a ≡ get_type_id b
      → (type_id_eq (get_type_id a) boolean || type_id_eq (get_type_id a) varchar) ≡ true
      → (s : Sign) × (compare_same d (get_type_id a) a b ≡ ok s)
  unfolding is_null get_type_id type_id_eq compare_same as_bool as_string
  compare_same-ok (of_bool x) (of_bool y) n m e h = (sign_of (bool_lt x y) (bool_lt y x), refl)
  compare_same-ok (of_string x) (of_string y) n m e h =
      (sign_of (string_lt x y) (string_lt y x), refl)
  compare_same-ok a b n m e h = absurd (ground arith)

  compare_values-ok :
      (a b : Value)
      → is_null a ≡ false
      → is_null b ≡ false
      → comparable (get_type_id a) (get_type_id b) ≡ true
      → (s : Sign) × (compare_values d a b ≡ ok s)
  unfolding comparable compare_values
  compare_values-ok a b n m h =
      elim (Bool-cases (is_numeric_type (get_type_id a) && is_numeric_type (get_type_id b))) [
        | inl numeric ↦
            let (x, ex) = value_to_double-ok a n (ground arith) in
            let (y, ey) = value_to_double-ok b m (ground arith) in
            (sign_of (d.lt x y) (d.lt y x), ground arith)
        | inr other ↦
            let same : get_type_id a ≡ get_type_id b =
              type_id_eq→eq (get_type_id a) (get_type_id b) (ground arith) in
            let (s, e) = compare_same-ok a b n m same (ground arith) in (s, ground arith)
      ]

  compare_operands-ok :
      (c : ComparisonType) (a b : Value)
      → ((is_null a || is_null b) ≡ true) ⊎ (comparable (get_type_id a) (get_type_id b) ≡ true)
      → (x : Bool) × (compare_operands d c a b ≡ ok (of_bool x))
  unfolding compare_operands
  compare_operands-ok c a b k = elim (Bool-cases (is_null a || is_null b)) [
    | inl n ↦ (false, rw n)
    | inr n ↦
        let fits : comparable (get_type_id a) (get_type_id b) ≡ true = elim k [
          | inl e ↦ absurd (ground arith)
          | inr e ↦ e
        ] in
        let (s, e) = compare_values-ok a b (ground arith) (ground arith) fits in
        (compare_by c s, rw (n, e))
  ]

  -- The result of an operation that does not divide by zero.
  double_result-IsTyped :
      (op : ArithmeticType) (x y : ℕ) → IsTyped double (lift (double_result d op x y))
  unfolding double_result IsTyped lift HasType get_type_id
  double_result-IsTyped add x y = inr refl
  double_result-IsTyped sub x y = inr refl
  double_result-IsTyped mul x y = inr refl
  double_result-IsTyped div x y = elim (Bool-cases (d.is_tiny y)) [
    | inl z ↦ rw z refl
    | inr z ↦ rw z (inr refl)
  ]

  int64_result-IsTyped :
      (op : ArithmeticType) (x y : ℕ) → IsTyped int64 (lift (int64_result op x y))
  unfolding int64_result IsTyped lift HasType get_type_id
  int64_result-IsTyped add x y = inr refl
  int64_result-IsTyped sub x y = inr refl
  int64_result-IsTyped mul x y = inr refl
  int64_result-IsTyped div x y = elim (Bool-cases (y == 0)) [
    | inl z ↦ rw z refl
    | inr z ↦ rw z (inr refl)
  ]

  arithmetic_type-cases :
      (op : ArithmeticType) (s t : TypeId)
      → (arithmetic_type op s t ≡ double) ⊎ (arithmetic_type op s t ≡ int64)
  unfolding arithmetic_type
  arithmetic_type-cases div s t = inl refl
  arithmetic_type-cases add s t = elim (Bool-cases (type_id_eq s double || type_id_eq t double)) [
    | inl e ↦ inl (rw e)
    | inr e ↦ inr (rw e)
  ]
  arithmetic_type-cases sub s t = elim (Bool-cases (type_id_eq s double || type_id_eq t double)) [
    | inl e ↦ inl (rw e)
    | inr e ↦ inr (rw e)
  ]
  arithmetic_type-cases mul s t = elim (Bool-cases (type_id_eq s double || type_id_eq t double)) [
    | inl e ↦ inl (rw e)
    | inr e ↦ inr (rw e)
  ]

  make_arithmetic_result-IsTyped :
      (x y : ℕ) (op : ArithmeticType) (s t : TypeId)
      → IsTyped
          (arithmetic_type op s t)
          (lift (make_arithmetic_result d x y op (arithmetic_type op s t)))
  unfolding make_arithmetic_result type_id_eq
  make_arithmetic_result-IsTyped x y op s t = elim (arithmetic_type-cases op s t) [
    | inl e ↦
        subst (λ r. IsTyped r (lift (make_arithmetic_result d x y op r))) (sym e)
          (double_result-IsTyped op x y)
    | inr e ↦
        subst (λ r. IsTyped r (lift (make_arithmetic_result d x y op r))) (sym e)
          (int64_result-IsTyped op (d.to_int64 x) (d.to_int64 y))
  ]

  pub arithmetic_operands-IsTyped :
      (op : ArithmeticType) (s t : TypeId) (a b : Value)
      → HasType s a
      → HasType t b
      → (is_numeric_type s && is_numeric_type t) ≡ true
      → IsTyped (arithmetic_type op s t) (lift (arithmetic_operands d op a b))
  unfolding arithmetic_operands HasType IsTyped is_null lift
  arithmetic_operands-IsTyped op s t a b h k e = elim (Bool-cases (is_null a || is_null b)) [
    | inl n ↦
        let nulls : arithmetic_operands d op a b ≡ ok (null double) = rw n in
        subst (λ r. IsTyped (arithmetic_type op s t) (lift r)) (sym nulls) null_typed
    | inr n ↦
        let ta : get_type_id a ≡ s = elim h [ inl z ↦ absurd (ground arith) | inr z ↦ z ] in
        let tb : get_type_id b ≡ t = elim k [ inl z ↦ absurd (ground arith) | inr z ↦ z ] in
        let (x, ex) = value_to_double-ok a (ground arith) (ap is_numeric_type ta ∙ ground arith) in
        let (y, ey) = value_to_double-ok b (ground arith) (ap is_numeric_type tb ∙ ground arith) in
        let values : arithmetic_operands d op a b
            ≡ make_arithmetic_result d x y op (arithmetic_type op s t) =
          ground (arith, ap is_numeric_type ta, ap is_numeric_type tb) in
        subst (λ r. IsTyped (arithmetic_type op s t) (lift r)) (sym values)
          (make_arithmetic_result-IsTyped x y op s t)
  ]
    where
      null_typed : IsTyped (arithmetic_type op s t) (ok (null double))
      null_typed = inl refl

  pub compare_operands-IsTyped :
      (c : ComparisonType) (s t : TypeId) (a b : Value)
      → HasType s a
      → HasType t b
      → comparable s t ≡ true
      → IsTyped boolean (lift (compare_operands d c a b))
  unfolding IsTyped HasType lift get_type_id
  compare_operands-IsTyped c s t (a) b (inl n) k e =
      let (x, eq) = compare_operands-ok c a b (inl (ground arith)) in
      subst (λ r. IsTyped boolean (lift r)) (sym eq) (inr refl)
  compare_operands-IsTyped c s t a b (inr h) (inl n) e =
      let (x, eq) = compare_operands-ok c a b (inl (ground arith)) in
      subst (λ r. IsTyped boolean (lift r)) (sym eq) (inr refl)
  compare_operands-IsTyped c s t a b (inr h) (inr k) e =
      let (x, eq) = compare_operands-ok c a b (inr (rw (h, k) e)) in
      subst (λ r. IsTyped boolean (lift r)) (sym eq) (inr refl)
