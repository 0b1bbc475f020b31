-- ===== src/Key/Order.antt =====
-- The order of the keys that access/composite_key_codec.cpp encodes, by their values: what
-- CompareEncoded is compared with.
use granite_db.Prelude.{
  ℕ, ◌≡◌, Bool, true, false, ◌&&◌, ◌||◌, List, [], ◌∷◌, Result, ok, err, ◌>>=◌, ltb, if◌then◌else◌,
  arith,
}
use granite_db.Row.{RowError, null_key, Value, is_null}
use granite_db.Row.Compare.{Doubles, Sign, equal, sign_of, is_equal, compare_values}
use granite_db.Key.Composite.{
  NullPolicy, nulls_low, nulls_high, compare_nulls, compare_with_null_policy,
}

-- Where a null stands among the values; the other policies give it no place.
has_null_order : NullPolicy → Bool
has_null_order nulls_low = true
has_null_order nulls_high = true
has_null_order _ = false

null_rank : NullPolicy → Value → ℕ
null_rank nulls_low v = if is_null v then 0 else 1
null_rank nulls_high v = if is_null v then 1 else 0
null_rank _ v = 0

module _ (d : Doubles) where
  unfoldable pub order_values : NullPolicy → Value → Value → Result RowError Sign
  unfolding has_null_order null_rank
  order_values policy v w =
      if is_null v && is_null w
      then ok equal
      else if is_null v || is_null w
      then if has_null_order policy
        then ok (
            sign_of (ltb (null_rank policy v) (null_rank policy w))
              (ltb (null_rank policy w) (null_rank policy v)))
        else err null_key
      else compare_values d v w

  -- The first component in which the keys differ decides.
  unfoldable pub compare_keys : List Value → List Value → NullPolicy → Result RowError Sign
  unfolding order_values
  compare_keys (v ∷ vs) (w ∷ ws) policy =
      let rest = compare_keys vs ws policy in
      order_values policy v w >>= λ cmp. if is_equal cmp then rest else ok cmp
  compare_keys [] ws policy = ok equal
  compare_keys (v ∷ vs) [] policy = ok equal

  pub compare_with_null_policy_lem :
      (v w : Value) (policy : NullPolicy)
      → compare_with_null_policy d v w policy ≡ order_values policy v w
  unfolding compare_with_null_policy order_values compare_nulls null_rank has_null_order sign_of
      is_null
  compare_with_null_policy_lem v w policy = ground arith
