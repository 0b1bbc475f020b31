-- ===== src/Lock/Queue/System.antt =====
-- One table and all transactions: every interleaving of the atomic parts of the calls in
-- concurrency/lock_manager*.cpp and concurrency/transaction_manager.cpp that touch the table's queue
-- or a transaction's state. Locks on other tables do not matter to it.
use granite_db.Prelude.{ℕ, ◌≡◌, Bool, true, false, not, Option, none, [], ◌==◌, if◌then◌else◌}
use granite_db.Transaction.{
  Transaction, TransactionState, aborting, committed, aborted, LockMode, new_transaction,
  is_abort_pending_or_done, try_mark_aborting, set_state, clear_all_locks, get_table_lock_mode,
}
use granite_db.Lock.Queue.{
  LockRequestQueue, returns, enters, lock_table_entry, done, waits, lock_table_round, release,
  remove_ungranted,
}

pub record Resource : Type 0 where
  pub queue : LockRequestQueue
  pub txns : ℕ → Transaction

abbrev pub update : (ℕ → Transaction) → ℕ → Transaction → ℕ → Transaction
update txns t txn u = if u == t then txn else txns u

-- AbortVictimLocked: which states it leaves alone.
abbrev pub is_over : TransactionState → Bool
is_over committed = true
is_over aborted = true
is_over aborting = true
is_over _ = false

unfoldable pub abort_victim : ℕ → Resource → Resource
abort_victim t w = if is_over (w.txns t).state then w else record {
  queue = remove_ungranted t w.queue;
  txns = update w.txns t (try_mark_aborting (w.txns t)).0;
}

module _ (relation_id : ℕ) where
  pub data Step (w : Resource) : Resource → Type 0 where
    -- LockTable, up to its wait loop.
    joins :
        (t : ℕ) (mode : LockMode) (q : LockRequestQueue)
        → lock_table_entry (w.txns t) relation_id mode w.queue ≡ enters q
        → Step w (record w { queue = q })
    answers :
        (t : ℕ) (mode : LockMode) (b : Bool) (txn : Transaction)
        → lock_table_entry (w.txns t) relation_id mode w.queue ≡ returns b txn
        → Step w (record w { txns = update w.txns t txn })
    -- A round of the wait loop.
    finishes :
        (t : ℕ) (b : Bool) (txn : Transaction) (q : LockRequestQueue)
        → lock_table_round (w.txns t) relation_id w.queue ≡ done b txn q
        → Step w (record { queue = q; txns = update w.txns t txn })
    sleeps :
        (t : ℕ) (txn : Transaction) (q : LockRequestQueue)
        → lock_table_round (w.txns t) relation_id w.queue ≡ waits txn q
        → Step w (record { queue = q; txns = update w.txns t txn })
    -- The deadlock detector.
    victimizes : (t : ℕ) → Step w (abort_victim t w)
    -- TransactionManager::Abort starts, and both ends of a transaction.
    marks : (t : ℕ) → Step w (record w { txns = update w.txns t (try_mark_aborting (w.txns t)).0 })
    commits :
        (t : ℕ)
        → is_abort_pending_or_done (w.txns t) ≡ false
        → Step w (record w { txns = update w.txns t (set_state committed (w.txns t)) })
    aborts :
        (t : ℕ)
        → is_abort_pending_or_done (w.txns t) ≡ true
        → Step w (record w { txns = update w.txns t (set_state aborted (w.txns t)) })
    releases :
        (t : ℕ)
        → Step w (record {
          queue = release t w.queue;
          txns = update w.txns t (clear_all_locks (w.txns t));
        })

  pub data Reach : Resource → Type 0 where
    start :
        Reach (record {
          queue = record { requests = []; upgrading_txn = none };
          txns = new_transaction;
        })
    later : {w w' : Resource} → Reach w → Step w w' → Reach w'

  -- Whether a transaction is not aborting, and what it then holds on the table.
  abbrev pub live_in : Resource → ℕ → Bool
  live_in w u = not (is_abort_pending_or_done (w.txns u))

  abbrev pub held_in : Resource → ℕ → Option LockMode
  held_in w u =
      if is_abort_pending_or_done (w.txns u)
      then none
      else get_table_lock_mode (w.txns u) relation_id
