-- ===== src/Lock/Queue/Upgrade.antt =====
-- An upgrade whose transaction is aborted: LockTable of concurrency/lock_manager_acquire.cpp erases
-- the one request that stood for the lock it already had.
use granite_db.Prelude.{ℕ, ◌≡◌, Bool, true, false, [], ◌∷◌, Option, none, some, ==_refl, arith}
use granite_db.Transaction.{
  Transaction, LockMode, exclusive, is_abort_pending_or_done, get_table_lock_mode, add_table_lock,
  set_active_if_not_aborting,
}
use granite_db.Lock.Mode.{is_table_lock_mode}
use granite_db.Lock.Queue.{
  LockRequestQueue, enters, lock_table_entry, enqueue, done, lock_table_round, find_request,
  grant_before, grant_after, can_grant_request,
}

abbrev pub one_request : ℕ → LockMode → Bool → Option ℕ → LockRequestQueue
one_request txn_id mode granted upgrading = record {
  requests = record { txn_id = txn_id; mode = mode; granted = granted } ∷ [];
  upgrading_txn = upgrading;
}

abbrev pub no_request : LockRequestQueue
no_request = record { requests = []; upgrading_txn = none }

-- A transaction that waits to upgrade its lock `held` and is told to abort leaves an empty queue
-- behind, with `held` still among its locks and nothing rolled back. Another transaction that holds
-- nothing here and is not aborting then gets the table exclusively at once.
pub aborted_upgrade_unlocks :
    (rel : ℕ) (txn other : Transaction) (held wanted : LockMode)
    → is_abort_pending_or_done txn ≡ true
    → get_table_lock_mode txn rel ≡ some held
    → is_abort_pending_or_done other ≡ false
    → get_table_lock_mode other rel ≡ none
    → (lock_table_round txn rel (one_request txn.txn_id wanted false (some txn.txn_id))
        ≡ done false txn no_request)
      × (lock_table_entry other rel exclusive no_request
          ≡ enters (one_request other.txn_id exclusive false none))
      × (lock_table_round other rel (one_request other.txn_id exclusive false none)
          ≡ done true
              (add_table_lock rel exclusive (set_active_if_not_aborting other))
              (one_request other.txn_id exclusive true none))
unfolding lock_table_round lock_table_entry enqueue find_request can_grant_request grant_before
    grant_after is_table_lock_mode
aborted_upgrade_unlocks rel txn other held wanted dead has alive free = (
  rw (dead, ==_refl txn.txn_id) (ground arith),
  ground (arith, alive, free),
  rw (alive, ==_refl other.txn_id) (ground arith),
)
