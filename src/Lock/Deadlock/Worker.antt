-- ===== src/Lock/Deadlock/Worker.antt =====
-- One round of DeadlockWorker: BuildWaitsForGraphLocked, AbortVictimLocked and the loop under the
-- latch of concurrency/lock_manager_deadlock.cpp, RemoveUngrantedRequestsLocked of
-- concurrency/lock_manager_release.cpp, over the maps of concurrency/lock_manager.h.
use granite_db.Prelude.{
  ℕ, zero, suc, Bool, true, false, List, [], ◌∷◌, ◌++◌, none, some, Result, ok, err, ◌>>=◌,
  if◌then◌else◌,
}
use granite_db.Prelude.Dict.{find, assign, nat_eq}
use granite_db.Transaction.{Transaction, RecordLockId, try_mark_aborting}
use granite_db.Lock.Queue.{LockRequestQueue, remove_ungranted}
use granite_db.Lock.Queue.System.{is_over}
use granite_db.Lock.Ranges.{KeyRangeLockRequestQueue}
use granite_db.Lock.Ranges.Acquire.{remove_ungranted_ranges}
use granite_db.Lock.Deadlock.{WaitsFor, process_queue, process_range_queue, detect_cycle_victim}
use granite_db.Row.{RowError}
use granite_db.Row.Compare.{Doubles}

pub record LockTables : Type 0 where
  pub table_lock_table : List (ℕ × LockRequestQueue)
  pub record_lock_table : List (RecordLockId × LockRequestQueue)
  pub key_range_lock_table : List (ℕ × KeyRangeLockRequestQueue)
  pub txn_table : List (ℕ × Transaction)

unfoldable pub process_queues {ℓ} :
    {K : Type ℓ} → Bool → List (K × LockRequestQueue) → WaitsFor → WaitsFor
unfolding process_queue
process_queues is_table_lock [] g = g
process_queues is_table_lock ((k, q) ∷ qs) g =
    process_queues is_table_lock qs (process_queue is_table_lock [] q.requests g)

unfoldable pub process_range_queues :
    Doubles → List (ℕ × KeyRangeLockRequestQueue) → WaitsFor → Result RowError WaitsFor
unfolding process_range_queue
process_range_queues d [] g = ok g
process_range_queues d ((k, q) ∷ qs) g =
    process_range_queue d [] q.requests g >>= λ h. process_range_queues d qs h

unfoldable pub build_waits_for_graph : Doubles → LockTables → Result RowError WaitsFor
unfolding process_queues process_range_queues
build_waits_for_graph d m =
    process_range_queues d m.key_range_lock_table
      (process_queues false m.record_lock_table (process_queues true m.table_lock_table []))

unfoldable pub remove_from_queues {ℓ} :
    {K : Type ℓ} → ℕ → List (K × LockRequestQueue) → List (K × LockRequestQueue)
remove_from_queues txn_id [] = []
remove_from_queues txn_id ((k, q) ∷ qs) =
    (k, remove_ungranted txn_id q) ∷ remove_from_queues txn_id qs

unfoldable pub remove_from_range_queues :
    ℕ → List (ℕ × KeyRangeLockRequestQueue) → List (ℕ × KeyRangeLockRequestQueue)
unfolding remove_ungranted_ranges
remove_from_range_queues txn_id [] = []
remove_from_range_queues txn_id ((k, q) ∷ qs) =
    (k, remove_ungranted_ranges txn_id q) ∷ remove_from_range_queues txn_id qs

unfoldable pub remove_ungranted_requests : ℕ → LockTables → LockTables
unfolding remove_from_queues remove_from_range_queues
remove_ungranted_requests txn_id m = record m {
  table_lock_table = remove_from_queues txn_id m.table_lock_table;
  record_lock_table = remove_from_queues txn_id m.record_lock_table;
  key_range_lock_table = remove_from_range_queues txn_id m.key_range_lock_table;
}

unfoldable pub abort_victim_locked : ℕ → LockTables → LockTables
unfolding remove_ungranted_requests
abort_victim_locked txn_id m = elim (find txn_id m.txn_table) [
  | none ↦ m
  | some victim ↦
      if is_over victim.state
      then m
      else remove_ungranted_requests txn_id
          (record m { txn_table = assign txn_id (try_mark_aborting victim).0 m.txn_table })
]

-- The loop ends with no cycle and the victims whose abort callback runs, or the graph's comparison of
-- keys throws.
pub data Resolution : Type 0 where
  resolved : LockTables → List ℕ → Resolution
  throws : RowError → Resolution
  out_of_fuel : Resolution

abbrev pub push_victim : ℕ → LockTables → List ℕ → List ℕ
push_victim txn_id m victims = elim (find txn_id m.txn_table) [
  | none ↦ victims
  | some _ ↦ victims ++ (txn_id ∷ [])
]

unfoldable pub resolve_deadlocks : Doubles → ℕ → LockTables → List ℕ → Resolution
unfolding build_waits_for_graph abort_victim_locked
resolve_deadlocks d zero m victims = out_of_fuel
resolve_deadlocks d (suc fuel) m victims = elim (build_waits_for_graph d m) [
  | err e ↦ throws e
  | ok graph ↦ elim (detect_cycle_victim graph) [
    | none ↦ out_of_fuel
    | some none ↦ resolved m victims
    | some (some victim) ↦
        resolve_deadlocks d fuel (abort_victim_locked victim m) (push_victim victim m victims)
  ]
]
