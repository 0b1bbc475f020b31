-- ===== src/Lock/Ranges.antt =====
-- The locks on ranges of keys: KeyRangeLockRequest of concurrency/lock_manager.h, the comparisons of
-- concurrency/lock_manager_helpers.cpp and the grant rule of concurrency/lock_manager_common.cpp.
pub mod Acquire
pub mod Held
pub mod Exclusive
use granite_db.Prelude.{
  ℕ, All-append, All-get_elem?, get_elem?, ◌<◌, ◌≡◌, ◌≢◌, refl, ap, ◌∙◌, Bool, true, false, not,
  ◌&&◌, ◌||◌, List, [], ◌∷◌, ◌++◌, All, Option, none, some, Result, ok, err, ◌>>=◌, length, ltb,
  ◌==◌, ==_iff, if◌then◌else◌, arith, Bool-cases, inl, inr, ◌⊎◌,
}
use granite_db.Transaction.{LockMode}
use granite_db.Lock.Mode.{range_modes_compatible}
use granite_db.Row.{Value, RowError, key_length_mismatch}
use granite_db.Row.Compare.{Doubles, Sign, below, equal, above, sign_of, is_equal, compare_values}

pub record KeyRangeLockRequest : Type 0 where
  pub txn_id : ℕ
  pub mode : LockMode
  pub lower_key : List Value
  pub upper_key : List Value
  pub lower_unbounded : Bool
  pub upper_unbounded : Bool
  pub lower_inclusive : Bool
  pub upper_inclusive : Bool
  pub granted : Bool

pub record KeyRangeLockRequestQueue : Type 0 where
  pub requests : List KeyRangeLockRequest
  pub upgrading_txn : Option ℕ

module _ (d : Doubles) where
  -- The loop of CompareKeyVectors.
  unfoldable pub compare_keys_loop : List Value → List Value → Result RowError Sign
  unfolding is_equal
  compare_keys_loop [] rhs = ok equal
  compare_keys_loop (v ∷ lhs) [] = ok equal
  compare_keys_loop (v ∷ lhs) (w ∷ rhs) =
      let rest = compare_keys_loop lhs rhs in
      compare_values d v w >>= λ cmp. if is_equal cmp then rest else ok cmp

  unfoldable pub compare_key_vectors : List Value → List Value → Result RowError Sign
  unfolding compare_keys_loop
  compare_key_vectors lhs rhs =
      if not (length lhs == length rhs) then err key_length_mismatch else compare_keys_loop lhs rhs

  unfoldable pub same_optional_key :
      Option (List Value) → Option (List Value) → Result RowError Bool
  unfolding compare_key_vectors is_equal
  same_optional_key none none = ok true
  same_optional_key (some lhs) (some rhs) = compare_key_vectors lhs rhs >>= λ cmp. ok (is_equal cmp)
  same_optional_key _ _ = ok false

  unfoldable pub ends_before : Bool → Sign → Bool
  ends_before touching below = true
  ends_before touching above = false
  ends_before touching equal = not touching

  unfoldable pub range_ends_before :
      KeyRangeLockRequest → KeyRangeLockRequest → Result RowError Bool
  unfolding compare_key_vectors ends_before
  range_ends_before a b =
      if a.upper_unbounded || b.lower_unbounded
      then ok false
      else compare_key_vectors a.upper_key b.lower_key >>= λ cmp.
          ok (ends_before (a.upper_inclusive && b.lower_inclusive) cmp)

  unfoldable pub ranges_overlap : KeyRangeLockRequest → KeyRangeLockRequest → Result RowError Bool
  unfolding range_ends_before
  ranges_overlap a b = range_ends_before a b >>= λ first.
      if first then ok false else range_ends_before b a >>= λ second. ok (not second)

  -- The two loops of CanGrantKeyRangeRequest.
  unfoldable pub range_grant_before :
      KeyRangeLockRequest → List KeyRangeLockRequest → Result RowError Bool
  unfolding ranges_overlap range_modes_compatible
  range_grant_before target [] = ok true
  range_grant_before target (r ∷ rs) =
      let rest = range_grant_before target rs in
      if r.txn_id == target.txn_id
      then rest
      else (ranges_overlap r target >>= λ overlap.
          if not overlap
          then rest
          else if not r.granted
          then ok false
          else if not (range_modes_compatible target.mode r.mode)
          then ok false
          else rest)

  unfoldable pub range_grant_after :
      KeyRangeLockRequest → List KeyRangeLockRequest → Result RowError Bool
  unfolding ranges_overlap range_modes_compatible
  range_grant_after target [] = ok true
  range_grant_after target (r ∷ rs) =
      let rest = range_grant_after target rs in
      if r.txn_id == target.txn_id
      then rest
      else if not r.granted
      then rest
      else (ranges_overlap r target >>= λ overlap.
          if not overlap
          then rest
          else if not (range_modes_compatible target.mode r.mode)
          then ok false
          else rest)

  unfoldable pub can_grant_key_range_request :
      List KeyRangeLockRequest
      → KeyRangeLockRequest
      → List KeyRangeLockRequest
      → Result RowError Bool
  unfolding range_grant_before range_grant_after
  can_grant_key_range_request before target after = range_grant_before target before >>= λ free.
      if free then range_grant_after target after else ok false

-- A request that was granted does not conflict with the target.
unfoldable pub Excluded : Doubles → KeyRangeLockRequest → KeyRangeLockRequest → Type 0
Excluded d target r =
    r.txn_id ≢ target.txn_id
    → r.granted ≡ true
    → range_modes_compatible target.mode r.mode ≡ false
    → ranges_overlap d r target ≡ ok false

range_grant_before-Excluded :
    (d : Doubles) (target : KeyRangeLockRequest) (rs : List KeyRangeLockRequest)
    → range_grant_before d target rs ≡ ok true
    → All (Excluded d target) rs
unfolding range_grant_before Excluded
range_grant_before-Excluded d target [] h = tt
range_grant_before-Excluded d target (r ∷ rs) h = (
  λ ne g c. ground (arith, ==_iff r.txn_id target.txn_id),
  range_grant_before-Excluded d target rs (ground arith),
)

range_grant_after-Excluded :
    (d : Doubles) (target : KeyRangeLockRequest) (rs : List KeyRangeLockRequest)
    → range_grant_after d target rs ≡ ok true
    → All (Excluded d target) rs
unfolding range_grant_after Excluded
range_grant_after-Excluded d target [] h = tt
range_grant_after-Excluded d target (r ∷ rs) h = (
  λ ne g c. ground (arith, ==_iff r.txn_id target.txn_id),
  range_grant_after-Excluded d target rs (ground arith),
)

-- Keys that CompareKeyVectors compares as their ranks.
pub record KeyOrder (d : Doubles) : Type 1 where
  pub IsKey : List Value → Type 0
  pub rank : List Value → ℕ
  pub compare-rank :
      (x y : List Value)
      → IsKey x
      → IsKey y
      → compare_key_vectors d x y ≡ ok (sign_of (ltb (rank x) (rank y)) (ltb (rank y) (rank x)))

module _ (d : Doubles) (o : KeyOrder d) where
  -- The bounds that a request has are keys.
  unfoldable pub HasKeys : KeyRangeLockRequest → Type 0
  HasKeys r =
      ((r.lower_unbounded ≡ true) ⊎ o.IsKey r.lower_key)
      × ((r.upper_unbounded ≡ true) ⊎ o.IsKey r.upper_key)

  -- The key is in the range.
  unfoldable pub Inside : List Value → KeyRangeLockRequest → Type 0
  Inside k r =
      ((r.lower_unbounded ≡ true)
        ⊎ ((o.rank r.lower_key < o.rank k)
            ⊎ ((o.rank r.lower_key ≡ o.rank k) × (r.lower_inclusive ≡ true))))
      × ((r.upper_unbounded ≡ true)
          ⊎ ((o.rank k < o.rank r.upper_key)
              ⊎ ((o.rank k ≡ o.rank r.upper_key) × (r.upper_inclusive ≡ true))))

  range_ends_before-apart :
      (a b : KeyRangeLockRequest) (k : List Value)
      → HasKeys a
      → HasKeys b
      → range_ends_before d a b ≡ ok true
      → Inside k a
      → Inside k b
      → ⊥
  unfolding range_ends_before HasKeys Inside ends_before sign_of
  range_ends_before-apart a b k ha hb e ia ib = elim ha.1 [
    | inl open_above ↦ ground arith
    | inr ka ↦ elim hb.0 [
      | inl open_below ↦ ground arith
      | inr kb ↦ ground (arith, o.compare-rank a.upper_key b.lower_key ka kb)
    ]
  ]

  range_ends_before-ok :
      (a b : KeyRangeLockRequest)
      → HasKeys a
      → HasKeys b
      → (x : Bool) × (range_ends_before d a b ≡ ok x)
  unfolding range_ends_before HasKeys
  range_ends_before-ok a b ha hb = elim (Bool-cases (a.upper_unbounded || b.lower_unbounded)) [
    | inl unbounded ↦ (false, rw (range_ends_before, unbounded) refl)
    | inr closed ↦
        let ka = bound a.upper_unbounded (o.IsKey a.upper_key) ha.1 (ground arith) in
        let kb = bound b.lower_unbounded (o.IsKey b.lower_key) hb.0 (ground arith) in
        (
          ends_before d (a.upper_inclusive && b.lower_inclusive) (
              sign_of (ltb (o.rank a.upper_key) (o.rank b.lower_key))
                (ltb (o.rank b.lower_key) (o.rank a.upper_key))),
          rw (range_ends_before, closed, o.compare-rank a.upper_key b.lower_key ka kb) refl,
        )
  ]
    where
      bound : (u : Bool) (K : Type 0) → (u ≡ true) ⊎ K → u ≡ false → K
      bound u K (inr k) closed = k
      bound u K (inl open_end) closed = absurd (ground arith)

  -- No key is in two ranges that do not overlap.
  pub ranges_overlap-apart :
      (a b : KeyRangeLockRequest) (k : List Value)
      → HasKeys a
      → HasKeys b
      → ranges_overlap d a b ≡ ok false
      → Inside k a
      → Inside k b
      → ⊥
  unfolding ranges_overlap
  ranges_overlap-apart a b k ha hb e ia ib =
      let (x, first) = range_ends_before-ok a b ha hb in
      let (y, second) = range_ends_before-ok b a hb ha in
      elim (Bool-cases x) [
        | inl ends ↦ range_ends_before-apart a b k ha hb (first ∙ ap ok ends) ia ib
        | inr stays ↦ range_ends_before-apart b a k hb ha (ground arith) ib ia
      ]

  -- Where the bounds that the requests have are keys: a range lock is granted only if no key of its range is in the range of
  -- a request of another transaction that is granted in a mode that conflicts.
  pub can_grant-no_common_key :
      (before after : List KeyRangeLockRequest) (target r : KeyRangeLockRequest) (n : ℕ)
      (k : List Value)
      → can_grant_key_range_request d before target after ≡ ok true
      → get_elem? (before ++ after) n ≡ some r
      → r.txn_id ≢ target.txn_id
      → r.granted ≡ true
      → range_modes_compatible target.mode r.mode ≡ false
      → HasKeys r
      → HasKeys target
      → ¬ (Inside k r × Inside k target)
  unfolding can_grant_key_range_request Excluded
  can_grant-no_common_key before after target r n k e at ne granted conflict hr ht (ir, it) =
      let first : range_grant_before d target before ≡ ok true = ground arith in
      let second : range_grant_after d target after ≡ ok true = ground arith in
      let all =
        All-append (Excluded d target) before after
          (range_grant_before-Excluded d target before first)
          (range_grant_after-Excluded d target after second) in
      ranges_overlap-apart r target k hr ht
        (All-get_elem? (Excluded d target) (before ++ after) n all at ne granted conflict) ir it
