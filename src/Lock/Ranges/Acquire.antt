-- ===== src/Lock/Ranges/Acquire.antt =====
-- LockKeyRange and LockKey of concurrency/lock_manager_acquire.cpp, and FindKeyRangeRequest of
-- concurrency/lock_manager_common.cpp. As for tables, a call is cut into the part before its wait loop
-- and one round of that loop.
use granite_db.Prelude.{
  ℕ, Bool, true, false, not, ◌&&◌, ◌||◌, List, [], ◌∷◌, ◌++◌, Option, none, some, Result, ok, ◌>>=◌,
  ◌==◌, if◌then◌else◌,
}
use granite_db.Transaction.{
  Transaction, LockMode, mode_eq, is_abort_pending_or_done, set_active_if_not_aborting,
  set_waiting_if_not_aborting, try_mark_aborting,
}
use granite_db.Lock.Mode.{
  is_tuple_or_range_lock_mode, combine_tuple_or_range_modes, tuple_or_range_mode_satisfies,
}
use granite_db.Lock.Queue.{other_txn, reset_upgrading}
use granite_db.Lock.Ranges.{
  KeyRangeLockRequest, KeyRangeLockRequestQueue, same_optional_key, can_grant_key_range_request,
}
use granite_db.Row.{Value, RowError}
use granite_db.Row.Compare.{Doubles}

-- The arguments of LockKeyRange that name the range.
pub record KeyRange : Type 0 where
  pub lower_key : Option (List Value)
  pub upper_key : Option (List Value)
  pub lower_inclusive : Bool
  pub upper_inclusive : Bool

-- LockKey.
unfoldable pub one_key : List Value → KeyRange
one_key key = record {
  lower_key = some key;
  upper_key = some key;
  lower_inclusive = true;
  upper_inclusive = true;
}

abbrev pub is_none {ℓ} : {A : Type ℓ} → Option A → Bool
is_none none = true
is_none (some _) = false

abbrev pub differ : Bool → Bool → Bool
differ true b = not b
differ false b = b

abbrev pub bound_of : Bool → List Value → Option (List Value)
bound_of unbounded key = if unbounded then none else some key

abbrev pub key_or_empty : Option (List Value) → List Value
key_or_empty none = []
key_or_empty (some key) = key

pub record RangeCursor : Type 0 where
  pub before : List KeyRangeLockRequest
  pub it : KeyRangeLockRequest
  pub after : List KeyRangeLockRequest

abbrev pub range_back_up : KeyRangeLockRequest → Option RangeCursor → Option RangeCursor
range_back_up r none = none
range_back_up r (some c) = some (record c { before = r ∷ c.before })

-- The request that LockKeyRange appends.
unfoldable pub new_range_request : ℕ → KeyRange → LockMode → KeyRangeLockRequest
new_range_request txn_id range mode = record {
  txn_id = txn_id;
  mode = mode;
  lower_key = key_or_empty range.lower_key;
  upper_key = key_or_empty range.upper_key;
  lower_unbounded = is_none range.lower_key;
  upper_unbounded = is_none range.upper_key;
  lower_inclusive = range.lower_inclusive;
  upper_inclusive = range.upper_inclusive;
  granted = false;
}

-- What LockKeyRange gives before its wait loop, and what a round of the loop gives.
pub data RangeEntry : Type 0 where
  throws : RangeEntry
  returns : Bool → Transaction → RangeEntry
  enters : KeyRangeLockRequestQueue → RangeEntry

pub data RangeRound : Type 0 where
  done : Bool → Transaction → KeyRangeLockRequestQueue → RangeRound
  waits : Transaction → KeyRangeLockRequestQueue → RangeRound

abbrev pub range_put_back : RangeCursor → LockMode → Bool → List KeyRangeLockRequest
range_put_back c mode granted =
    c.before ++ (record c.it { mode = mode; granted = granted } ∷ c.after)

unfoldable pub withdraw_range :
    KeyRangeLockRequestQueue → ℕ → Option RangeCursor → KeyRangeLockRequestQueue
withdraw_range q txn_id none = q
withdraw_range q txn_id (some c) = record {
  requests = c.before ++ c.after;
  upgrading_txn = reset_upgrading q.upgrading_txn txn_id;
}

unfoldable pub grant_range : KeyRangeLockRequestQueue → ℕ → RangeCursor → KeyRangeLockRequestQueue
grant_range q txn_id c = record {
  requests = range_put_back c c.it.mode true;
  upgrading_txn = reset_upgrading q.upgrading_txn txn_id;
}

-- The part of LockKeyRange between its search and its wait loop.
unfoldable pub enqueue_range :
    KeyRangeLockRequestQueue → Transaction → KeyRange → LockMode → Option RangeCursor → RangeEntry
unfolding new_range_request
enqueue_range q txn range mode none =
    enters (record q { requests = q.requests ++ (new_range_request txn.txn_id range mode ∷ []) })
enqueue_range q txn range mode (some c) =
    let target_mode = combine_tuple_or_range_modes c.it.mode mode in
    if c.it.granted && not (mode_eq c.it.mode target_mode)
    then (if other_txn q.upgrading_txn txn.txn_id
        then returns false (try_mark_aborting txn).0
        else enters (record {
          requests = range_put_back c target_mode false;
          upgrading_txn = some txn.txn_id;
        }))
    else if c.it.granted && tuple_or_range_mode_satisfies c.it.mode mode
    then returns true txn
    else enters (record q { requests = range_put_back c target_mode c.it.granted })

unfoldable pub erase_range_requests :
    (KeyRangeLockRequest → Bool) → List KeyRangeLockRequest → List KeyRangeLockRequest
erase_range_requests test [] = []
erase_range_requests test (r ∷ rs) =
    let rest = erase_range_requests test rs in if test r then rest else r ∷ rest

-- What ReleaseAll does to a queue of key-range requests.
unfoldable pub release_ranges : ℕ → KeyRangeLockRequestQueue → KeyRangeLockRequestQueue
unfolding erase_range_requests
release_ranges txn_id q = record {
  requests = erase_range_requests (λ r. r.txn_id == txn_id) q.requests;
  upgrading_txn = reset_upgrading q.upgrading_txn txn_id;
}

-- What RemoveUngrantedRequestsLocked does to it.
unfoldable pub remove_ungranted_ranges : ℕ → KeyRangeLockRequestQueue → KeyRangeLockRequestQueue
unfolding erase_range_requests
remove_ungranted_ranges txn_id q = record {
  requests = erase_range_requests (λ r. r.txn_id == txn_id && not r.granted) q.requests;
  upgrading_txn = reset_upgrading q.upgrading_txn txn_id;
}

module _ (d : Doubles) where
  -- The tests of FindKeyRangeRequest on a request of the transaction.
  unfoldable pub range_matches : KeyRange → KeyRangeLockRequest → Result RowError Bool
  range_matches range it =
      if differ it.lower_unbounded (is_none range.lower_key)
        || differ it.upper_unbounded (is_none range.upper_key)
      then ok false
      else if differ it.lower_inclusive range.lower_inclusive
          || differ it.upper_inclusive range.upper_inclusive
      then ok false
      else (same_optional_key d (bound_of it.lower_unbounded it.lower_key) range.lower_key
          >>= λ same.
              if same
              then same_optional_key d (bound_of it.upper_unbounded it.upper_key) range.upper_key
              else ok false)

  unfoldable pub find_key_range_request :
      KeyRange → ℕ → List KeyRangeLockRequest → Result RowError (Option RangeCursor)
  unfolding range_matches
  find_key_range_request range txn_id [] = ok none
  find_key_range_request range txn_id (r ∷ rs) =
      let rest = find_key_range_request range txn_id rs >>= λ c. ok (range_back_up r c) in
      if not (r.txn_id == txn_id)
      then rest
      else (range_matches range r >>= λ same.
          if same then ok (some (record { before = []; it = r; after = rs })) else rest)

  unfoldable pub lock_key_range_entry :
      Transaction → KeyRange → LockMode → KeyRangeLockRequestQueue → Result RowError RangeEntry
  unfolding find_key_range_request enqueue_range
  lock_key_range_entry txn range mode q =
      if not (is_tuple_or_range_lock_mode mode)
      then ok throws
      else if is_abort_pending_or_done txn
      then ok (returns false txn)
      else (find_key_range_request range txn.txn_id q.requests >>= λ existing.
          ok (enqueue_range q txn range mode existing))

  unfoldable pub range_turn :
      Transaction → KeyRangeLockRequestQueue → Option RangeCursor → Result RowError RangeRound
  unfolding grant_range
  range_turn txn q none = ok (done false txn q)
  range_turn txn q (some c) = can_grant_key_range_request d c.before c.it c.after >>= λ free.
      if free
      then ok (done true (set_active_if_not_aborting txn) (grant_range q txn.txn_id c))
      else ok (waits (set_waiting_if_not_aborting txn) q)

  unfoldable pub lock_key_range_round :
      Transaction → KeyRange → KeyRangeLockRequestQueue → Result RowError RangeRound
  unfolding find_key_range_request withdraw_range range_turn
  lock_key_range_round txn range q = find_key_range_request range txn.txn_id q.requests >>= λ found.
      if is_abort_pending_or_done txn
      then ok (done false txn (withdraw_range q txn.txn_id found))
      else range_turn txn q found
