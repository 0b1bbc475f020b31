-- ===== src/Lock/Ranges/Exclusive.antt =====
-- The key ranges that are locked at one time: every interleaving of LockKeyRange's parts of
-- concurrency/lock_manager_acquire.cpp with deadlock victims and releases, on the queue of one index.
use granite_db.Prelude.{
  ℕ, ◌≡◌, ◌≢◌, refl, subst, Bool, true, false, not, List, [], ◌∷◌, Option, none, some, Result, ok,
  err, ◌>>=◌, if◌then◌else◌, arith, inl, inr,
}
use mathlib.Core.List.{Memᴰ}
use mathlib.Core.List.Memᴰ
use granite_db.Transaction.{Transaction, LockMode, is_abort_pending_or_done}
use granite_db.Lock.Mode.{range_modes_compatible, is_tuple_or_range_lock_mode}
use granite_db.Lock.Ranges.{
  KeyRangeLockRequest, KeyRangeLockRequestQueue, KeyOrder, HasKeys, Inside,
  can_grant_key_range_request,
}
use granite_db.Lock.Ranges.Acquire.{
  KeyRange, RangeCursor, new_range_request, RangeEntry, throws, returns, enters, RangeRound, done,
  waits, withdraw_range, grant_range, enqueue_range, find_key_range_request, lock_key_range_entry,
  range_turn, lock_key_range_round, erase_range_requests, release_ranges, remove_ungranted_ranges,
}
use granite_db.Lock.Ranges.Held.{
  Splits, find-Splits, Apart, IsSafe, fewer-IsSafe, granted-IsSafe, entered-IsSafe,
  withdrawn-IsSafe,
}
use granite_db.Row.{Value, RowError}
use granite_db.Row.Compare.{Doubles}

abbrev pub queue_of : RangeRound → KeyRangeLockRequestQueue
queue_of (done b t q) = q
queue_of (waits t q) = q

-- The queues that calls of any transactions, with bounds that are keys, lead to.
pub data Reach (d : Doubles) (o : KeyOrder d) : KeyRangeLockRequestQueue → Type 0 where
  start : Reach d o (record { requests = []; upgrading_txn = none })
  joins :
      {q : KeyRangeLockRequestQueue}
      → Reach d o q
      → (txn : Transaction) (range : KeyRange) (mode : LockMode) (q' : KeyRangeLockRequestQueue)
      → HasKeys d o (new_range_request txn.txn_id range mode)
      → lock_key_range_entry d txn range mode q ≡ ok (enters q')
      → Reach d o q'
  turns :
      {q : KeyRangeLockRequestQueue}
      → Reach d o q
      → (txn : Transaction) (range : KeyRange) (r : RangeRound)
      → lock_key_range_round d txn range q ≡ ok r
      → Reach d o (queue_of r)
  victimizes :
      {q : KeyRangeLockRequestQueue}
      → Reach d o q
      → (t : ℕ) → Reach d o (remove_ungranted_ranges t q)
  releases : {q : KeyRangeLockRequestQueue} → Reach d o q → (t : ℕ) → Reach d o (release_ranges t q)

Memᴰ-erase :
    (test : KeyRangeLockRequest → Bool) (a : KeyRangeLockRequest) (rs : List KeyRangeLockRequest)
    → Memᴰ a (erase_range_requests test rs)
    → Memᴰ a rs
unfolding erase_range_requests
Memᴰ-erase test a [] m = m
Memᴰ-erase test a (r ∷ rs) m = go (test r) m (Memᴰ-erase test a rs)
  where
    go :
        (b : Bool)
        → Memᴰ a (if b then erase_range_requests test rs else r ∷ erase_range_requests test rs)
        → (Memᴰ a (erase_range_requests test rs) → Memᴰ a rs)
        → Memᴰ a (r ∷ rs)
    go true m ih = Memᴰ.tail (ih m)
    go false m ih = elim (Memᴰ.cases_cons m) [ inl e ↦ Memᴰ.head e | inr m' ↦ Memᴰ.tail (ih m') ]

-- The requests that a part of a call leaves; where it throws, they are as before.
abbrev after_entry :
    KeyRangeLockRequestQueue → Result RowError RangeEntry → List KeyRangeLockRequest
after_entry q (ok (enters q')) = q'.requests
after_entry q _ = q.requests

abbrev after_round :
    KeyRangeLockRequestQueue → Result RowError RangeRound → List KeyRangeLockRequest
after_round q (ok r) = (queue_of r).requests
after_round q (err e) = q.requests

module _ (d : Doubles) (o : KeyOrder d) where
  erased-IsSafe :
      (test : KeyRangeLockRequest → Bool) (rs : List KeyRangeLockRequest)
      → IsSafe d o rs
      → IsSafe d o (erase_range_requests test rs)
  erased-IsSafe test rs s =
      fewer-IsSafe d o rs (erase_range_requests test rs) (λ a m. s.keys a (Memᴰ-erase test a rs m))
        (λ a m g. Memᴰ-erase test a rs m) s

  joined-IsSafe :
      (q q' : KeyRangeLockRequestQueue) (txn : Transaction) (range : KeyRange) (mode : LockMode)
      → lock_key_range_entry d txn range mode q ≡ ok (enters q')
      → HasKeys d o (new_range_request txn.txn_id range mode)
      → IsSafe d o q.requests
      → IsSafe d o q'.requests
  unfolding lock_key_range_entry
  joined-IsSafe q q' txn range mode e own s =
      go (is_tuple_or_range_lock_mode mode) (is_abort_pending_or_done txn)
        (find_key_range_request d range txn.txn_id q.requests) refl e
    where
      go :
          (fits over : Bool) (r : Result RowError (Option RangeCursor))
          → find_key_range_request d range txn.txn_id q.requests ≡ r
          → (if not fits
              then ok throws
              else if over
              then ok (returns false txn)
              else (r >>= λ existing. ok (enqueue_range q txn range mode existing)))
            ≡ ok (enters q')
          → IsSafe d o q'.requests
      go false over r f e = absurd (ground arith)
      go true true r f e = absurd (ground arith)
      go true false (err x) f e = absurd (ground arith)
      go true false (ok c) f e =
          entered-IsSafe d o q q' txn range mode c (find-Splits d range txn.txn_id q.requests c f)
            (ground arith) own s

  turned-IsSafe :
      (q : KeyRangeLockRequestQueue) (txn : Transaction) (range : KeyRange)
      → IsSafe d o q.requests
      → IsSafe d o (after_round q (lock_key_range_round d txn range q))
  unfolding lock_key_range_round range_turn grant_range
  turned-IsSafe q txn range s =
      go (find_key_range_request d range txn.txn_id q.requests) refl (is_abort_pending_or_done txn)
    where
      turn :
          (c : RangeCursor) (free : Result RowError Bool)
          → can_grant_key_range_request d c.before c.it c.after ≡ free
          → Splits q.requests (some c)
          → IsSafe d o (after_round q (range_turn d txn q (some c)))
      turn c (err x) f split = rw f s
      turn c (ok true) f split = rw f (granted-IsSafe d o c f (subst (IsSafe d o) split s))
      turn c (ok false) f split = rw f s

      go :
          (r : Result RowError (Option RangeCursor))
          → find_key_range_request d range txn.txn_id q.requests ≡ r
          → (over : Bool)
          → IsSafe d o (
              after_round q (
                r >>= λ found.
                if over
                then ok (done false txn (withdraw_range q txn.txn_id found))
                else range_turn d txn q found))
      go (err x) f over = s
      go (ok c) f true =
          withdrawn-IsSafe d o q txn.txn_id c (find-Splits d range txn.txn_id q.requests c f) s
      go (ok none) f false = s
      go (ok (some c)) f false =
          turn c (can_grant_key_range_request d c.before c.it c.after) refl
            (find-Splits d range txn.txn_id q.requests (some c) f)

  Reach-IsSafe : {q : KeyRangeLockRequestQueue} → Reach d o q → IsSafe d o q.requests
  unfolding remove_ungranted_ranges release_ranges
  Reach-IsSafe start = record {
    keys = λ a m. absurd (Memᴰ.not-nil m);
    apart = λ a b m n. absurd (Memᴰ.not-nil m);
  }
  Reach-IsSafe (joins {q} r txn range mode q' own e) =
      joined-IsSafe q q' txn range mode e own (Reach-IsSafe r)
  Reach-IsSafe (turns {q} r txn range t e) =
      subst (λ (x : Result RowError RangeRound). IsSafe d o (after_round q x)) e
        (turned-IsSafe q txn range (Reach-IsSafe r))
  Reach-IsSafe (victimizes {q} r t) = erased-IsSafe _ q.requests (Reach-IsSafe r)
  Reach-IsSafe (releases {q} r t) = erased-IsSafe _ q.requests (Reach-IsSafe r)

  -- In every queue that LockKeyRange's parts, deadlock victims and releases lead to, where the bounds
  -- that the calls give are keys: two requests that are granted to different transactions in modes that
  -- conflict have no key in common.
  pub ranges_exclude :
      (q : KeyRangeLockRequestQueue)
      → Reach d o q
      → (a b : KeyRangeLockRequest) → Memᴰ a q.requests
      → Memᴰ b q.requests
      → a.granted ≡ true
      → b.granted ≡ true
      → a.txn_id ≢ b.txn_id
      → range_modes_compatible a.mode b.mode ≡ false
      → (k : List Value) → ¬ (Inside d o k a × Inside d o k b)
  unfolding Apart
  ranges_exclude q r a b m n = (Reach-IsSafe r).apart a b m n
