-- ===== src/Tests/KeyRanges.antt =====
-- Two locks on ranges of one index that meet in a key.
use granite_db.Prelude.{
  ℕ, inr, ◌+◌, ◌≡◌, refl, sym, subst, true, false, List, [], ◌∷◌, Result, ok, ltb, ◌==◌,
  if◌then◌else◌, arith,
}
use granite_db.Transaction.{exclusive}
use granite_db.Row.{RowError, Value, of_int32, is_null, get_type_id}
use granite_db.Row.Compare.{
  Doubles, Sign, below, equal, above, sign_of, is_equal, compare_values, is_numeric_type,
  value_to_double,
}
use granite_db.Lock.Ranges.{
  compare_keys_loop, KeyRangeLockRequest, can_grant_key_range_request, compare_key_vectors,
  KeyOrder, HasKeys, Inside, can_grant-no_common_key,
}

-- Small integers, which a double has exactly.
abbrev pub integers : Doubles
integers = record {
  from_int32 = λ n. n;
  from_int64 = λ n. n;
  to_int64 = λ n. n;
  lt = ltb;
  add = λ x y. x + y;
  sub = λ x y. x;
  mul = λ x y. x;
  div = λ x y. x;
  is_tiny = λ x. x == 0;
  exceeds_tiny = λ x. ltb 0 x;
}

unfoldable pub OneInt : List Value → Type 0
OneInt (of_int32 n ∷ []) = Unit {0}
OneInt _ = ⊥

unfoldable pub the_int : List Value → ℕ
the_int (of_int32 n ∷ []) = n
the_int _ = 0

OneInt-view : (x : List Value) → OneInt x → (n : ℕ) × (x ≡ of_int32 n ∷ [])
unfolding OneInt
OneInt-view (of_int32 n ∷ []) h = (n, refl)
OneInt-view _ h = absurd h

compare_two :
    (m n : ℕ)
    → compare_key_vectors integers (of_int32 m ∷ []) (of_int32 n ∷ [])
      ≡ ok (sign_of (ltb m n) (ltb n m))
unfolding compare_key_vectors compare_keys_loop compare_values is_null is_numeric_type get_type_id
    value_to_double is_equal
compare_two m n = go (sign_of (ltb m n) (ltb n m))
  where
    go : (c : Sign) → ◌≡◌ {A = Result RowError Sign} (if is_equal c then ok equal else ok c) (ok c)
    go below = refl
    go equal = refl
    go above = refl

pub compare_ints :
    (x y : List Value)
    → OneInt x
    → OneInt y
    → compare_key_vectors integers x y
      ≡ ok (sign_of (ltb (the_int x) (the_int y)) (ltb (the_int y) (the_int x)))
unfolding OneInt the_int compare_key_vectors
compare_ints x y h k =
    let (m, e) = OneInt-view x h in
    let (n, f) = OneInt-view y k in
    subst
      (λ x.
        compare_key_vectors integers x y
        ≡ ok (sign_of (ltb (the_int x) (the_int y)) (ltb (the_int y) (the_int x))))
      (sym e)
      (subst
        (λ y.
          compare_key_vectors integers (of_int32 m ∷ []) y
          ≡ ok (sign_of (ltb m (the_int y)) (ltb (the_int y) m)))
        (sym f) (compare_two m n))

abbrev pub int_keys : KeyOrder integers
int_keys = record { IsKey = OneInt; rank = the_int; compare-rank = compare_ints }

abbrev up_to_three : KeyRangeLockRequest
up_to_three = record {
  txn_id = 1;
  mode = exclusive;
  lower_key = of_int32 1 ∷ [];
  upper_key = of_int32 3 ∷ [];
  lower_unbounded = true;
  upper_unbounded = false;
  lower_inclusive = true;
  upper_inclusive = true;
  granted = true;
}

abbrev above_three : KeyRangeLockRequest
above_three = record {
  txn_id = 2;
  mode = exclusive;
  lower_key = of_int32 3 ∷ [];
  upper_key = of_int32 9 ∷ [];
  lower_unbounded = false;
  upper_unbounded = false;
  lower_inclusive = false;
  upper_inclusive = true;
  granted = false;
}

can_grant-no_common_key_example : ¬ (
    Inside integers int_keys (of_int32 3 ∷ []) up_to_three
    × Inside integers int_keys (of_int32 3 ∷ []) above_three)
unfolding can_grant_key_range_request HasKeys compare_values is_null is_numeric_type get_type_id
    value_to_double sign_of OneInt
can_grant-no_common_key_example =
    can_grant-no_common_key integers int_keys (up_to_three ∷ []) [] above_three up_to_three 0
      (of_int32 3 ∷ []) refl refl (omega arith) refl refl (inr tt, inr tt) (inr tt, inr tt)
