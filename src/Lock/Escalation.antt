-- ===== src/Lock/Escalation.antt =====
-- MaybeEscalateRecordLocks of concurrency/lock_manager_release.cpp, which LockRecord calls on a lock that
-- it grants, and the table of transactions of concurrency/lock_manager_common.cpp.
use granite_db.Prelude.{ℕ, not, ◌&&◌, Option, none, some, ltb, ◌==◌, if◌then◌else◌}
use granite_db.Prelude.Dict.{assign, erase, nat_eq}
use granite_db.Transaction.{
  Transaction, LockMode, shared, exclusive, mode_eq, count_record_locks_on_relation, holds_table_s,
  holds_table_x,
}
use granite_db.Lock.Deadlock.Worker.{LockTables}

-- The mode of the table lock that it asks LockTable for; a failure of that call is ignored.
unfoldable pub maybe_escalate_record_locks : ℕ → Transaction → ℕ → LockMode → Option LockMode
maybe_escalate_record_locks threshold txn relation_id mode =
    if threshold == 0
    then none
    else if ltb (count_record_locks_on_relation txn relation_id) threshold
    then none
    else if mode_eq mode shared && not (holds_table_s txn relation_id)
    then some shared
    else if mode_eq mode exclusive && not (holds_table_x txn relation_id)
    then some exclusive
    else none

unfoldable pub register_transaction : Transaction → LockTables → LockTables
register_transaction txn m = record m { txn_table = assign txn.txn_id txn m.txn_table }

unfoldable pub unregister_transaction : ℕ → LockTables → LockTables
unregister_transaction txn_id m = record m { txn_table = erase txn_id m.txn_table }
