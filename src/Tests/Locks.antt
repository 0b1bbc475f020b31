-- ===== src/Tests/Locks.antt =====
-- concurrency/lock_manager*.cpp on two transactions and one table.
use granite_db.Prelude.{◌≡◌, refl, true, false, not, ◌||◌, ◌&&◌, [], ◌∷◌, none, some, arith}
use granite_db.Prelude.Dict.{find, assign}
use granite_db.Transaction.{
  Transaction, aborting, intent_shared, intent_exclusive, shared, exclusive, new_transaction,
  is_abort_pending_or_done, get_table_lock_mode, add_table_lock, set_active_if_not_aborting,
}
use granite_db.Lock.Mode.{
  compatible, every_mode, combine_table_modes, table_mode_satisfies, is_table_lock_mode,
  combine_table_modes_exact, table_mode_satisfies-compatible,
}
use granite_db.Lock.Queue.{
  enqueue, find_request, grant_before, grant_after, can_grant_request, lock_table_entry,
  lock_table_round, enters, done,
}
use granite_db.Lock.Queue.System.{Resource, Reach, start, later, joins, finishes}
use granite_db.Lock.Queue.Exclusion.{mutual_exclusion}
use granite_db.Lock.Queue.Upgrade.{one_request, no_request, aborted_upgrade_unlocks}

-- Transaction 1 takes IS on table 7, then transaction 2 takes IX on it.
shared_table : record { state : Resource; reach : Reach 7 state }
unfolding lock_table_entry lock_table_round enqueue find_request can_grant_request grant_before
    grant_after is_table_lock_mode is_abort_pending_or_done get_table_lock_mode add_table_lock
    set_active_if_not_aborting find assign new_transaction compatible
shared_table = record {
  state = _;
  reach =
      later
        (later (later (later start (joins 1 intent_shared _ refl)) (finishes 1 true _ _ refl))
          (joins 2 intent_exclusive _ refl))
        (finishes 2 true _ _ refl);
}

mutual_exclusion_example : compatible true intent_shared intent_exclusive ≡ true
unfolding shared_table
mutual_exclusion_example =
    mutual_exclusion 7 shared_table.reach 1 2 intent_shared intent_exclusive
      (λ e. absurd (omega arith)) refl refl refl refl

-- Transaction 1 held S on table 7, waits for X and is aborting.
abbrev upgrading : Transaction
upgrading = record {
  txn_id = 1;
  state = aborting;
  last_lsn = 0;
  table_locks = (7, shared) ∷ [];
  record_locks = [];
}

aborted_upgrade_unlocks_example :
    (lock_table_round upgrading 7 (one_request 1 exclusive false (some 1))
      ≡ done false upgrading no_request)
    × (lock_table_entry (new_transaction 2) 7 exclusive no_request
        ≡ enters (one_request 2 exclusive false none))
    × (lock_table_round (new_transaction 2) 7 (one_request 2 exclusive false none)
        ≡ done true
            (add_table_lock 7 exclusive (set_active_if_not_aborting (new_transaction 2)))
            (one_request 2 exclusive true none))
unfolding new_transaction is_abort_pending_or_done get_table_lock_mode find
aborted_upgrade_unlocks_example =
    aborted_upgrade_unlocks 7 upgrading (new_transaction 2) shared exclusive refl refl refl refl

combine_table_modes_exact_example :
    compatible true intent_shared (combine_table_modes shared intent_exclusive)
    ≡ (compatible true intent_shared shared && compatible true intent_shared intent_exclusive)
combine_table_modes_exact_example = combine_table_modes_exact intent_shared shared intent_exclusive

table_mode_satisfies-compatible_example :
    table_mode_satisfies shared intent_exclusive
    ≡ every_mode
        (λ other. not (compatible true other shared) || compatible true other intent_exclusive)
table_mode_satisfies-compatible_example = table_mode_satisfies-compatible shared intent_exclusive
