-- ===== src/Tests/Transactions.antt =====
-- concurrency/transaction_manager.cpp and recovery/checkpoint_manager.cpp over a log in memory.
use granite_db.Prelude.{
  ℕ, suc, ◌+◌, ◌<◌, ◌≡◌, ◌≢◌, refl, List, [], ◌∷◌, ◌++◌, All, none, some, true, arith, inl,
}
use granite_db.Prelude.Dict.{find, nat_eq}
use granite_db.Transaction.{Transaction, active, committed}
use granite_db.Wal.{LogRecord, blank_record, begin, commit}
use granite_db.Recovery.{TxnTableEntry, analyze, no_tables, is_loser_state}
use granite_db.Recovery.Storage.{Storage}
use granite_db.Recovery.Undo.Ends.{IsBackward}
use granite_db.Manager.{Engine, TransactionManager, log_for, end_txn, create_checkpoint, abort_txn}
use granite_db.Manager.Rollback.{abort_txn-ne-none}
use granite_db.Manager.Checkpoint.{LogLaws, checkpoint_loses_commit}
use granite_db.Manager.Snapshot.{Has}

pub record LogInMemory : Type 0 where
  pub recs : List LogRecord
  pub master_lsn : ℕ

sum_lsns : List LogRecord → ℕ
sum_lsns [] = 0
sum_lsns (r ∷ rs) = r.lsn + sum_lsns rs

sum_lsns-above : (rs : List LogRecord) (k : ℕ) → sum_lsns rs < k → All (λ r. r.lsn < k) rs
unfolding sum_lsns
sum_lsns-above [] k h = tt
sum_lsns-above (r ∷ rs) k h = (omega arith, sum_lsns-above rs k (omega arith))

abbrev append_to : LogRecord → LogInMemory → LogInMemory
append_to r s = record s { recs = s.recs ++ (record r { lsn = suc (sum_lsns s.recs) } ∷ []) }

abbrev in_memory : Storage LogInMemory
in_memory = record {
  fetch_page = λ p s. (s, none);
  store_page = λ p bytes s. s;
  unpin_page = λ p dirty s. s;
  flush_all_pages = λ s. s;
  append_record = λ r s. (append_to r s, suc (sum_lsns s.recs));
  flush_up_to = λ lsn s. s;
  master_checkpoint_lsn = λ s. s.master_lsn;
  read_all_records_from = λ lsn s. s.recs;
}

abbrev engine : Engine LogInMemory
engine = record {
  storage = in_memory;
  set_master_checkpoint_lsn = λ lsn s. record s { master_lsn = lsn };
  get_dirty_page_table_snapshot = λ s. [];
  register_transaction = λ id s. s;
  release_all = λ id s. s;
  unregister_transaction = λ id s. s;
}

abbrev engine_laws : LogLaws engine
engine_laws = record {
  records = λ s. s.recs;
  master = λ s. s.master_lsn;
  records-append = λ r s. refl;
  lsn_above = λ r s. sum_lsns-above s.recs (suc (sum_lsns s.recs)) (omega arith);
  lsn_pos = λ r s. omega arith;
  records-flush = λ lsn s. refl;
  records-set_master = λ lsn s. refl;
  records-release = λ id s. refl;
  records-unregister = λ id s. refl;
  master-flush = λ lsn s. refl;
  master-release = λ id s. refl;
  master-unregister = λ id s. refl;
  master-set_master = λ lsn s. refl;
}

abbrev reader : Transaction
reader = record { txn_id = 5; state = active; last_lsn = 8; table_locks = []; record_locks = [] }

abbrev one_reader : TransactionManager LogInMemory
one_reader = record {
  next_txn_id = 6;
  txns = (5, reader) ∷ [];
  active_txns = 5 ∷ [];
  engine = record {
    recs = record blank_record { type = begin; lsn = 8; txn_id = 5 } ∷ [];
    master_lsn = 0;
  };
}

abort_txn-ne-none_example : abort_txn engine 5 reader one_reader ≢ none
unfolding IsBackward
abort_txn-ne-none_example =
    abort_txn-ne-none engine 5 reader one_reader ((omega arith, omega arith), tt)

checkpoint_loses_commit_example :
    let logged = log_for engine commit 5 reader one_reader in
    let finished = end_txn engine committed 5 reader logged.1 (create_checkpoint engine logged.0) in
    (find 5 finished.txns ≡ some (record reader { state = committed; last_lsn = logged.1 }))
    × ((entry : TxnTableEntry) × (find 5
            (analyze finished.engine.master_lsn finished.engine.recs no_tables).txn_table
          ≡ some entry)
        × (is_loser_state entry.state ≡ true)
        × (entry.last_lsn ≡ logged.1))
unfolding Has
checkpoint_loses_commit_example =
    checkpoint_loses_commit engine engine_laws one_reader 5 reader refl (inl refl)
