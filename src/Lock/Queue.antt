-- ===== src/Lock/Queue.antt =====
-- One request queue of concurrency/lock_manager*.cpp, for a table or for a record: FindRequest,
-- CanGrantRequest, the parts of LockTable and LockRecord before and inside their wait loops, and
-- what ReleaseAll and RemoveUngrantedRequestsLocked do to it. An iterator into the list is a cursor:
-- the requests before it, the one it points to, and those behind. The latch is held from a call's
-- start to its wait, and again from each wake-up to the next wait, so these parts are atomic.
pub mod Shape
pub mod Grant
pub mod Enter
pub mod Hold
pub mod Leave
pub mod System
pub mod Views
pub mod Changes
pub mod Exclusion
pub mod Upgrade
use granite_db.Prelude.{
  ℕ, Bool, true, false, not, ◌&&◌, ◌||◌, List, [], ◌∷◌, ◌++◌, Option, none, some, ◌==◌,
  if◌then◌else◌,
}
use granite_db.Transaction.{
  Transaction, LockMode, RecordLockId, shared, exclusive, mode_eq, is_abort_pending_or_done,
  set_active_if_not_aborting, set_waiting_if_not_aborting, try_mark_aborting, get_table_lock_mode,
  get_record_lock_mode, holds_table_is, holds_table_ix, holds_table_s, holds_table_six,
  holds_table_x, add_table_lock, add_record_lock,
}
use granite_db.Lock.Mode.{
  compatible, combine_table_modes, combine_tuple_or_range_modes, table_mode_satisfies,
  tuple_or_range_mode_satisfies, is_table_lock_mode, is_tuple_or_range_lock_mode,
}

pub record LockRequest : Type 0 where
  pub txn_id : ℕ
  pub mode : LockMode
  pub granted : Bool

pub record LockRequestQueue : Type 0 where
  pub requests : List LockRequest
  pub upgrading_txn : Option ℕ

pub record Cursor : Type 0 where
  pub before : List LockRequest
  pub it : LockRequest
  pub after : List LockRequest

abbrev pub back_up : LockRequest → Option Cursor → Option Cursor
back_up r none = none
back_up r (some c) = some (record c { before = r ∷ c.before })

-- `none` is `end()`.
unfoldable pub find_request : List LockRequest → ℕ → Option Cursor
find_request [] txn_id = none
find_request (r ∷ rs) txn_id =
    let further = back_up r (find_request rs txn_id) in
    if r.txn_id == txn_id then some (record { before = []; it = r; after = rs }) else further

-- The two loops of CanGrantRequest.
unfoldable pub grant_before : Bool → LockRequest → List LockRequest → Bool
grant_before is_table_lock target [] = true
grant_before is_table_lock target (r ∷ rs) =
    let rest = grant_before is_table_lock target rs in
    if r.txn_id == target.txn_id
    then rest
    else if not r.granted
    then false
    else if not (compatible is_table_lock target.mode r.mode)
    then false
    else rest

unfoldable pub grant_after : Bool → LockRequest → List LockRequest → Bool
grant_after is_table_lock target [] = true
grant_after is_table_lock target (r ∷ rs) =
    let rest = grant_after is_table_lock target rs in
    if not r.granted
    then rest
    else if r.txn_id == target.txn_id
    then rest
    else if not (compatible is_table_lock target.mode r.mode)
    then false
    else rest

unfoldable pub can_grant_request : Bool → Cursor → Bool
can_grant_request is_table_lock c =
    grant_before is_table_lock c.it c.before && grant_after is_table_lock c.it c.after

abbrev pub is_txn : Option ℕ → ℕ → Bool
is_txn none txn_id = false
is_txn (some other) txn_id = other == txn_id

abbrev pub other_txn : Option ℕ → ℕ → Bool
other_txn none txn_id = false
other_txn (some other) txn_id = not (other == txn_id)

-- `if (queue.upgrading_txn == txn_id) queue.upgrading_txn.reset();`
abbrev pub reset_upgrading : Option ℕ → ℕ → Option ℕ
reset_upgrading upgrading txn_id = if is_txn upgrading txn_id then none else upgrading

abbrev pub put_back : Cursor → LockRequest → List LockRequest
put_back c r = c.before ++ (r ∷ c.after)

-- The request enters the queue or takes its target mode; `none` where another transaction is
-- upgrading.
unfoldable pub enqueue : LockRequestQueue → ℕ → LockMode → Option LockRequestQueue
enqueue q txn_id target_mode = elim (find_request q.requests txn_id) [
  | none ↦
      let request : LockRequest = record { txn_id = txn_id; mode = target_mode; granted = false } in
      some (record q { requests = q.requests ++ (request ∷ []) })
  | some c ↦
      if c.it.granted && not (mode_eq c.it.mode target_mode)
      then (if other_txn q.upgrading_txn txn_id
          then none
          else some (record {
            requests =
                put_back c (record { txn_id = c.it.txn_id; mode = target_mode; granted = false });
            upgrading_txn = some txn_id;
          }))
      else some (record q {
        requests =
            put_back c
              (record { txn_id = c.it.txn_id; mode = target_mode; granted = c.it.granted });
      })
]

-- The part of a call before its wait loop: it throws, returns, or goes on to the loop.
pub data LockEntry : Type 0 where
  throws : LockEntry
  returns : Bool → Transaction → LockEntry
  enters : LockRequestQueue → LockEntry

-- `txn->TryMarkAborting(); return false;` where the upgrade is refused.
abbrev pub entered : Transaction → Option LockRequestQueue → LockEntry
entered txn none = returns false (try_mark_aborting txn).0
entered txn (some q) = enters q

abbrev pub satisfied : (LockMode → LockMode → Bool) → Option LockMode → LockMode → Bool
satisfied test none mode = false
satisfied test (some held) mode = test held mode

abbrev pub target : (LockMode → LockMode → LockMode) → Option LockMode → LockMode → LockMode
target combine none mode = mode
target combine (some held) mode = combine held mode

unfoldable pub lock_table_entry : Transaction → ℕ → LockMode → LockRequestQueue → LockEntry
lock_table_entry txn relation_id mode q =
    let held = get_table_lock_mode txn relation_id in
    if not (is_table_lock_mode mode)
    then throws
    else if is_abort_pending_or_done txn
    then returns false txn
    else if satisfied table_mode_satisfies held mode
    then returns true txn
    else entered txn (enqueue q txn.txn_id (target combine_table_modes held mode))

-- The two tests on the table lock that a record lock needs.
unfoldable pub table_lock_missing : Transaction → RecordLockId → LockMode → Bool
table_lock_missing txn id mode =
    (mode_eq mode shared
      && not (holds_table_is txn id.relation_id || holds_table_s txn id.relation_id))
    || (mode_eq mode exclusive
        && not (
            holds_table_ix txn id.relation_id
            || (holds_table_six txn id.relation_id || holds_table_x txn id.relation_id)))

unfoldable pub lock_record_entry :
    Transaction → RecordLockId → LockMode → LockRequestQueue → LockEntry
lock_record_entry txn id mode q =
    let held = get_record_lock_mode txn id in
    if not (is_tuple_or_range_lock_mode mode)
    then throws
    else if is_abort_pending_or_done txn
    then returns false txn
    else if table_lock_missing txn id mode
    then throws
    else if satisfied tuple_or_range_mode_satisfies held mode
    then returns true txn
    else entered txn (enqueue q txn.txn_id (target combine_tuple_or_range_modes held mode))

-- One round of the wait loop: the call returns, or waits for the next round.
pub data Round : Type 0 where
  done : Bool → Transaction → LockRequestQueue → Round
  waits : Transaction → LockRequestQueue → Round

abbrev pub withdraw : LockRequestQueue → ℕ → Option Cursor → LockRequestQueue
withdraw q txn_id none = q
withdraw q txn_id (some c) = record {
  requests = c.before ++ c.after;
  upgrading_txn = reset_upgrading q.upgrading_txn txn_id;
}

abbrev pub grant : LockRequestQueue → ℕ → Cursor → LockRequestQueue
grant q txn_id c = record {
  requests = put_back c (record { txn_id = c.it.txn_id; mode = c.it.mode; granted = true });
  upgrading_txn = reset_upgrading q.upgrading_txn txn_id;
}

-- `add` records the lock in the transaction.
unfoldable pub lock_round :
    Bool → (LockMode → Transaction → Transaction) → Transaction → LockRequestQueue → Round
lock_round is_table_lock add txn q =
    let found = find_request q.requests txn.txn_id in
    if is_abort_pending_or_done txn
    then done false txn (withdraw q txn.txn_id found)
    else elim found [
      | none ↦ done false txn q
      | some c ↦
          if can_grant_request is_table_lock c
          then done true (add c.it.mode (set_active_if_not_aborting txn)) (grant q txn.txn_id c)
          else waits (set_waiting_if_not_aborting txn) q
    ]

unfoldable pub lock_table_round : Transaction → ℕ → LockRequestQueue → Round
unfolding lock_round
lock_table_round txn relation_id q = lock_round true (add_table_lock relation_id) txn q

unfoldable pub lock_record_round : Transaction → RecordLockId → LockRequestQueue → Round
unfolding lock_round
lock_record_round txn id q = lock_round false (add_record_lock id) txn q

unfoldable pub erase_requests : (LockRequest → Bool) → List LockRequest → List LockRequest
erase_requests test [] = []
erase_requests test (r ∷ rs) =
    let rest = erase_requests test rs in if test r then rest else r ∷ rest

-- What ReleaseAll does to a queue.
unfoldable pub release : ℕ → LockRequestQueue → LockRequestQueue
release txn_id q = record {
  requests = erase_requests (λ r. r.txn_id == txn_id) q.requests;
  upgrading_txn = reset_upgrading q.upgrading_txn txn_id;
}

-- What RemoveUngrantedRequestsLocked does to a queue.
unfoldable pub remove_ungranted : ℕ → LockRequestQueue → LockRequestQueue
remove_ungranted txn_id q = record {
  requests = erase_requests (λ r. r.txn_id == txn_id && not r.granted) q.requests;
  upgrading_txn = reset_upgrading q.upgrading_txn txn_id;
}
