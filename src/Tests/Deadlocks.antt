-- ===== src/Tests/Deadlocks.antt =====
-- concurrency/lock_manager_deadlock.cpp on two transactions that hold X on one table each and wait
-- for the other's.
use granite_db.Prelude.{ℕ, ◌<◌, ◌≡◌, refl, true, false, [], ◌∷◌, none, some, inl, inr, ◌⊎◌, arith}
use granite_db.Prelude.Dict.{find, assign}
use granite_db.Transaction.{exclusive, new_transaction, set_state, waiting}
use granite_db.Lock.Queue.{LockRequestQueue}
use granite_db.Lock.Deadlock.{WaitsFor, detect_cycle_victim, color, close_cycle}
use granite_db.Lock.Deadlock.Walk.{Waits, IsCycleVictim}
use granite_db.Lock.Deadlock.Dfs.{detect_cycle_victim-decides}
use granite_db.Lock.Deadlock.Worker.{LockTables, resolve_deadlocks, throws}
use granite_db.Lock.Deadlock.Waiting.{
  queues_waiting_of, ranges_waiting_of, waiting_of, waits_of, waits_all, queues_waiting_all,
  ranges_waiting_all,
}
use granite_db.Lock.Deadlock.Resolve.{Abortable, IsResolved, resolve_deadlocks-IsResolved}
use granite_db.Row.{RowError}
use granite_db.Tests.KeyRanges.{integers}

-- 1 waits for 2, 2 for 3, and 3 for 1 and 2; 4 waits for 1.
abbrev knot : WaitsFor
knot = (4, 1 ∷ []) ∷ (1, 2 ∷ []) ∷ (2, 3 ∷ []) ∷ (3, 2 ∷ 1 ∷ []) ∷ []

knot_victim : detect_cycle_victim knot ≡ some (some 3)
unfolding detect_cycle_victim color find assign close_cycle
knot_victim = refl

detect_cycle_victim-decides_example :
    ((x : ℕ) × (detect_cycle_victim knot ≡ some (some x)) × IsCycleVictim knot x)
    ⊎ ((detect_cycle_victim knot ≡ some none) × ((u : ℕ) → ¬ Waits knot u u))
detect_cycle_victim-decides_example = detect_cycle_victim-decides knot

abbrev held_and_wanted : ℕ → ℕ → LockRequestQueue
held_and_wanted a b = record {
  requests =
      (record { txn_id = a; mode = exclusive; granted = true })
      ∷ (record { txn_id = b; mode = exclusive; granted = false })
      ∷ [];
  upgrading_txn = none;
}

abbrev deadlock : LockTables
deadlock = record {
  table_lock_table = (7, held_and_wanted 1 2) ∷ (8, held_and_wanted 2 1) ∷ [];
  record_lock_table = [];
  key_range_lock_table = [];
  txn_table =
      (1, set_state waiting (new_transaction 1)) ∷ (2, set_state waiting (new_transaction 2)) ∷ [];
}

deadlock-Abortable : Abortable deadlock
unfolding Abortable waits_of queues_waiting_of ranges_waiting_of waiting_of find set_state
    new_transaction
deadlock-Abortable u h = elim (one_or_two u h) [
  | inl e ↦ (set_state waiting (new_transaction 1), ground arith, refl)
  | inr e ↦ (set_state waiting (new_transaction 2), ground arith, refl)
]
  where
    one_or_two : (u : ℕ) → 0 < waits_of u deadlock → (u ≡ 1) ⊎ (u ≡ 2)
    one_or_two u h = ground arith

resolve_deadlocks-IsResolved_example :
    IsResolved integers (resolve_deadlocks integers 3 deadlock [])
    ⊎ ((e : RowError) × (resolve_deadlocks integers 3 deadlock [] ≡ throws e))
unfolding waits_all queues_waiting_all ranges_waiting_all
resolve_deadlocks-IsResolved_example =
    resolve_deadlocks-IsResolved integers 3 deadlock [] deadlock-Abortable (omega arith)
