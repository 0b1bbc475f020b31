-- ===== src/Expression/Typing/Evaluate.antt =====
-- Evaluation of execution/expressions.h on expressions that have a type.
use granite_db.Prelude.{
  ℕ, zero, suc, ◌≡◌, refl, sym, subst, Bool, true, false, not, ◌&&◌, List, [], ◌∷◌, Option, none,
  some, Result, ok, err, ◌>>=◌, length, leb, get_elem?, if◌then◌else◌, arith, ◌⊎◌, inr,
}
use granite_db.Row.{TypeId, boolean, Value, of_bool, get_type_id, is_null, Column, Schema}
use granite_db.Row.Tuple.{get_value}
use granite_db.Row.Compare.{Doubles, is_numeric_type, value_as_bool}
use granite_db.Expression.{
  left, right, single, Expression, constant, column, comparison, conjunction, disjunction,
  arithmetic, ExpressionError, lift, Inputs, column_of, column_value, arithmetic_type, evaluate,
}
use granite_db.Expression.Typing.{
  comparable, column_type, both_types, infer_type, HasType, IsTyped, RowMatches, TupleMatches,
  InputsMatch,
}
use granite_db.Expression.Typing.Operands.{arithmetic_operands-IsTyped, compare_operands-IsTyped}

get_elem?-RowMatches :
    (cs : Schema) (vs : List Value) (index : ℕ) (c : Column)
    → RowMatches cs vs
    → get_elem? cs index ≡ some c
    → (v : Value) × (get_elem? vs index ≡ some v) × HasType c.type v
unfolding RowMatches HasType
get_elem?-RowMatches [] vs index c h e = cc
get_elem?-RowMatches (d ∷ cs) [] index c h e = absurd h
get_elem?-RowMatches (d ∷ cs) (v ∷ vs) zero c h e =
    (v, refl, subst (λ o. (is_null v ≡ true) ⊎ (get_type_id v ≡ type_or d o)) e h.0)
  where
    type_or : Column → Option Column → TypeId
    type_or c none = c.type
    type_or c (some x) = x.type
get_elem?-RowMatches (d ∷ cs) (v ∷ vs) (suc index) c h e = get_elem?-RowMatches cs vs index c h.1 e

get_elem?-lt :
    (cs : Schema) (index : ℕ) (c : Column)
    → get_elem? cs index ≡ some c
    → leb (length cs) index ≡ false
get_elem?-lt [] index c e = cc
get_elem?-lt (d ∷ cs) zero c e = ground arith
get_elem?-lt (d ∷ cs) (suc index) c e = ground (arith, get_elem?-lt cs index c e)

column_of-IsTyped :
    (schema : Option Schema) (tuple : Option (List Value)) (index : ℕ) (t : TypeId)
    → TupleMatches schema tuple
    → column_type schema index ≡ some t
    → IsTyped t (column_of tuple schema index)
unfolding TupleMatches column_type column_of IsTyped get_value lift
column_of-IsTyped none tuple index t h e = cc
column_of-IsTyped (some schema) none index t h e = absurd h
column_of-IsTyped (some schema) (some vs) index t h e = go (get_elem? schema index) refl
  where
    go :
        (o : Option Column)
        → get_elem? schema index ≡ o
        → IsTyped t (column_of (some vs) (some schema) index)
    go none f = ground arith
    go (some c) f =
        let (v, g, k) = get_elem?-RowMatches schema vs index c h f in
        let same : c.type ≡ t = ground arith in
        let found : column_of (some vs) (some schema) index ≡ ok v =
          ground (arith, get_elem?-lt schema index c f) in
        subst (IsTyped t) (sym found) (subst (λ t. HasType t v) same k)

IsTyped-bind :
    (s t : TypeId) (m : Result ExpressionError Value) (f : Value → Result ExpressionError Value)
    → IsTyped s m
    → ((v : Value) → HasType s v → IsTyped t (f v))
    → IsTyped t (m >>= f)
unfolding IsTyped
IsTyped-bind s t (ok v) f h k = k v h
IsTyped-bind s t (err x) f h k = h

of_bool-IsTyped : (b : Bool) → IsTyped boolean (ok (of_bool b))
unfolding IsTyped HasType get_type_id
of_bool-IsTyped b = inr refl

if_IsTyped :
    (b : Bool) (t : TypeId) (x y : Result ExpressionError Value)
    → IsTyped t x
    → IsTyped t y
    → IsTyped t (if b then x else y)
if_IsTyped true t x y h k = h
if_IsTyped false t x y h k = k

both_types-some :
    (x y : Option TypeId) (f : TypeId → TypeId → Option TypeId) (t : TypeId)
    → both_types x y f ≡ some t
    → (a : TypeId) × (b : TypeId) × (x ≡ some a) × (y ≡ some b) × (f a b ≡ some t)
unfolding both_types
both_types-some (some a) (some b) f t h = (a, b, refl, refl, h)
both_types-some (some a) none f t h = cc
both_types-some none y f t h = cc

module _ (d : Doubles) where
  -- An expression that has a type over the schemas evaluates, on tuples that match them, to a value
  -- of that type or a null, or throws the division by zero and nothing else.
  pub evaluate-IsTyped :
      (i : Inputs) (e : Expression) (t : TypeId)
      → InputsMatch i
      → infer_type i e ≡ some t
      → IsTyped t (evaluate d i e)
  unfolding infer_type evaluate InputsMatch IsTyped HasType column_value
  evaluate-IsTyped i (constant v) t h e = inr (ground arith)
  evaluate-IsTyped i (column right index) t h e =
      column_of-IsTyped i.right_schema i.right_tuple index t h.1 e
  evaluate-IsTyped i (column left index) t h e =
      column_of-IsTyped i.left_schema i.left_tuple index t h.0 e
  evaluate-IsTyped i (column single index) t h e =
      column_of-IsTyped i.left_schema i.left_tuple index t h.0 e
  evaluate-IsTyped i (comparison c l r) t h e =
      let (a, b, el, er, f) = both_types-some (infer_type i l) (infer_type i r) _ t e in
      let fits : comparable a b ≡ true = ground arith in
      let result : boolean ≡ t = ground arith in
      subst (λ t. IsTyped t (evaluate d i (comparison c l r))) result
        (IsTyped-bind a boolean (evaluate d i l) _ (evaluate-IsTyped i l a h el) λ lv hl.
          IsTyped-bind b boolean (evaluate d i r) _ (evaluate-IsTyped i r b h er)
            λ rv hr. compare_operands-IsTyped d c a b lv rv hl hr fits)
  evaluate-IsTyped i (conjunction l r) t h e =
      let (a, b, el, er, f) = both_types-some (infer_type i l) (infer_type i r) _ t e in
      let result : boolean ≡ t = ground arith in
      let second =
        IsTyped-bind b boolean (evaluate d i r) _ (evaluate-IsTyped i r b h er)
          λ rv hr. of_bool-IsTyped (value_as_bool d rv) in
      subst (λ t. IsTyped t (evaluate d i (conjunction l r))) result
        (IsTyped-bind a boolean (evaluate d i l) _ (evaluate-IsTyped i l a h el)
          λ lv hl. if_IsTyped (not (value_as_bool d lv)) boolean _ _ (of_bool-IsTyped false) second)
  evaluate-IsTyped i (disjunction l r) t h e =
      let (a, b, el, er, f) = both_types-some (infer_type i l) (infer_type i r) _ t e in
      let result : boolean ≡ t = ground arith in
      let second =
        IsTyped-bind b boolean (evaluate d i r) _ (evaluate-IsTyped i r b h er)
          λ rv hr. of_bool-IsTyped (value_as_bool d rv) in
      subst (λ t. IsTyped t (evaluate d i (disjunction l r))) result
        (IsTyped-bind a boolean (evaluate d i l) _ (evaluate-IsTyped i l a h el)
          λ lv hl. if_IsTyped (value_as_bool d lv) boolean _ _ (of_bool-IsTyped true) second)
  evaluate-IsTyped i (arithmetic op l r) t h e =
      let (a, b, el, er, f) = both_types-some (infer_type i l) (infer_type i r) _ t e in
      let numeric : (is_numeric_type a && is_numeric_type b) ≡ true = ground arith in
      let result : arithmetic_type op a b ≡ t = ground arith in
      subst (λ t. IsTyped t (evaluate d i (arithmetic op l r))) result
        (IsTyped-bind a (arithmetic_type op a b) (evaluate d i l) _ (evaluate-IsTyped i l a h el)
          λ lv hl.
            IsTyped-bind b (arithmetic_type op a b) (evaluate d i r) _ (evaluate-IsTyped i r b h er)
              λ rv hr. arithmetic_operands-IsTyped d op a b lv rv hl hr numeric)
