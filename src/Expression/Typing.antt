-- ===== src/Expression/Typing.antt =====
-- Which expressions of execution/expressions.h evaluate without a type error.
pub mod Operands
pub mod Evaluate
use granite_db.Prelude.{
  ℕ, zero, suc, ◌≡◌, refl, sym, ap, subst, ◌∙◌, Bool, true, false, not, ◌&&◌, ◌||◌, List, [], ◌∷◌,
  Option, none, some, Result, ok, err, ◌>>=◌, length, leb, get_elem?, if◌then◌else◌, arith, ◌⊎◌,
  inl, inr, Bool-cases, ◌==◌,
}
use granite_db.Row.{
  TypeId, boolean, int64, double, varchar, type_id_eq, division_by_zero, Value, null, of_bool,
  of_int32, of_int64, of_double, of_string, get_type_id, is_null, as_bool, as_string, Column,
  Schema,
}
use granite_db.Row.Columns.{type_id_eq→eq}
use granite_db.Row.Tuple.{get_value}
use granite_db.Row.Compare.{
  Doubles, Sign, is_numeric_type, value_to_double, value_as_bool, compare_same, compare_values,
  sign_of, bool_lt, string_lt,
}
use granite_db.Expression.{
  TupleSide, left, right, single, ComparisonType, ArithmeticType, add, sub, mul, div, Expression,
  constant, column, comparison, conjunction, disjunction, arithmetic, ExpressionError, row, lift,
  Inputs, column_of, column_value, compare_by, arithmetic_type, int64_result, double_result,
  make_arithmetic_result, compare_operands, arithmetic_operands, evaluate,
}

-- Two types whose values CompareValues compares.
unfoldable pub comparable : TypeId → TypeId → Bool
comparable a b =
    is_numeric_type a && is_numeric_type b
    || (type_id_eq a b && (type_id_eq a boolean || type_id_eq a varchar))

unfoldable pub column_type : Option Schema → ℕ → Option TypeId
column_type none index = none
column_type (some schema) index = elim (get_elem? schema index) [
  | none ↦ none
  | some c ↦ some c.type
]

unfoldable pub side_type : Inputs → TupleSide → ℕ → Option TypeId
unfolding column_type
side_type i right index = column_type i.right_schema index
side_type i left index = column_type i.left_schema index
side_type i single index = column_type i.left_schema index

unfoldable pub both_types :
    Option TypeId → Option TypeId → (TypeId → TypeId → Option TypeId) → Option TypeId
both_types (some a) (some b) f = f a b
both_types _ _ f = none

-- The type of an expression over the schemas of its inputs, if it has one.
unfoldable pub infer_type : Inputs → Expression → Option TypeId
unfolding both_types comparable side_type
infer_type i (constant v) = some (get_type_id v)
infer_type i (column side index) = side_type i side index
infer_type i (comparison c l r) =
    both_types (infer_type i l) (infer_type i r)
      λ a b. if comparable a b then some boolean else none
infer_type i (conjunction l r) = both_types (infer_type i l) (infer_type i r) λ a b. some boolean
infer_type i (disjunction l r) = both_types (infer_type i l) (infer_type i r) λ a b. some boolean
infer_type i (arithmetic op l r) =
    both_types (infer_type i l) (infer_type i r)
      λ a b. if is_numeric_type a && is_numeric_type b then some (arithmetic_type op a b) else none

-- A null has every type.
unfoldable pub HasType : TypeId → Value → Type 0
HasType t v = (is_null v ≡ true) ⊎ (get_type_id v ≡ t)

-- A value of the type, or a division by zero.
unfoldable pub IsTyped : TypeId → Result ExpressionError Value → Type 0
unfolding HasType
IsTyped t (ok v) = HasType t v
IsTyped t (err e) = e ≡ row division_by_zero

-- The tuple has a value of the type of each column.
unfoldable pub RowMatches : Schema → List Value → Type 0
RowMatches [] vs = Unit {0}
RowMatches (c ∷ cs) [] = ⊥
RowMatches (c ∷ cs) (v ∷ vs) = HasType c.type v × RowMatches cs vs

unfoldable pub TupleMatches : Option Schema → Option (List Value) → Type 0
TupleMatches none t = Unit {0}
TupleMatches (some schema) none = ⊥
TupleMatches (some schema) (some vs) = RowMatches schema vs

unfoldable pub InputsMatch : Inputs → Type 0
InputsMatch i = TupleMatches i.left_schema i.left_tuple × TupleMatches i.right_schema i.right_tuple
