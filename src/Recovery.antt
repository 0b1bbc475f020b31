-- ===== src/Recovery.antt =====
-- recovery/recovery_manager.cpp: crash recovery by analysis, redo and undo. The buffer pool and the
-- log manager are reached through the interface `Storage`. The calls of FaultInjector are left out.
pub mod Analysis
pub mod Storage
pub mod Redo
pub mod Undo
use granite_db.Prelude.{
  ℕ, Bool, true, false, not, ◌&&◌, List, [], ◌∷◌, ◌==◌, ltb, if◌then◌else◌, min, max, Option, none,
  some,
}
use granite_db.Prelude.Dict.{find, assign, nat_eq}
use granite_db.Types.{PageId, page_id_key}
use granite_db.Transaction.{TransactionState, active, waiting, aborting, committed, aborted}
use granite_db.Wal.{
  LogRecord, LogRecordType, begin, commit, abort, heap_insert, heap_delete, heap_update,
  btree_insert, btree_delete, btree_page_split, btree_rebalance, btree_merge, btree_meta_update,
  begin_checkpoint, end_checkpoint, clr, CheckpointTxnEntry, DirtyPageEntry,
}

pub record TxnTableEntry : Type 0 where
  pub state : TransactionState
  pub last_lsn : ℕ

-- The two tables that Analysis fills.
pub record Tables : Type 0 where
  pub txn_table : List (ℕ × TxnTableEntry)
  pub dirty_page_table : List (PageId × ℕ)

abbrev pub no_tables : Tables
no_tables = record { txn_table = []; dirty_page_table = [] }

unfoldable pub is_txn_end_state : TransactionState → Bool
is_txn_end_state committed = true
is_txn_end_state aborted = true
is_txn_end_state _ = false

unfoldable pub is_loser_state : TransactionState → Bool
is_loser_state active = true
is_loser_state waiting = true
is_loser_state aborting = true
is_loser_state _ = false

-- `txn_table_[id]`, which makes an entry where there is none.
unfoldable pub txn_entry : ℕ → List (ℕ × TxnTableEntry) → TxnTableEntry
txn_entry id table = elim (find id table) [
  | none ↦ record { state = active; last_lsn = 0 }
  | some entry ↦ entry
]

unfoldable pub note_end : TransactionState → LogRecord → Tables → Tables
note_end state rec t = record t {
  txn_table = assign rec.txn_id (record { state = state; last_lsn = rec.lsn }) t.txn_table;
}

-- A page enters the dirty page table with the lowest LSN it is seen with.
unfoldable pub note_dirty : PageId → ℕ → List (PageId × ℕ) → List (PageId × ℕ)
note_dirty page_id lsn table =
    assign page_id (elim (find page_id table) [ none ↦ lsn | some rec_lsn ↦ min rec_lsn lsn ]) table

-- What an unfinished transaction's entry becomes; a finished one keeps its state.
unfoldable pub touched : TransactionState → ℕ → TxnTableEntry → TxnTableEntry
unfolding is_txn_end_state
touched state lsn entry = record {
  state = if is_txn_end_state entry.state then entry.state else state;
  last_lsn = max entry.last_lsn lsn;
}

unfoldable pub note_txn :
    ℕ → TransactionState → ℕ → List (ℕ × TxnTableEntry) → List (ℕ × TxnTableEntry)
unfolding touched txn_entry
note_txn id state lsn table = assign id (touched state lsn (txn_entry id table)) table

unfoldable pub note_update : LogRecord → Tables → Tables
unfolding note_dirty note_txn
note_update rec t = record {
  txn_table = note_txn rec.txn_id active rec.lsn t.txn_table;
  dirty_page_table =
      if rec.has_page
      then note_dirty rec.page_id rec.lsn t.dirty_page_table
      else t.dirty_page_table;
}

unfoldable pub note_active_txns :
    List CheckpointTxnEntry → List (ℕ × TxnTableEntry) → List (ℕ × TxnTableEntry)
note_active_txns [] table = table
note_active_txns (tx ∷ txs) table =
    note_active_txns txs (note_txn tx.txn_id tx.state tx.last_lsn table)

unfoldable pub note_dirty_pages : List DirtyPageEntry → List (PageId × ℕ) → List (PageId × ℕ)
note_dirty_pages [] table = table
note_dirty_pages (dp ∷ dps) table = note_dirty_pages dps (note_dirty dp.page_id dp.rec_lsn table)

-- The switch of Analysis.
unfoldable pub analyze_type : LogRecordType → LogRecord → Tables → Tables
analyze_type begin rec t = note_end active rec t
analyze_type commit rec t = note_end committed rec t
analyze_type abort rec t = note_end aborted rec t
analyze_type heap_insert rec t = note_update rec t
analyze_type heap_delete rec t = note_update rec t
analyze_type heap_update rec t = note_update rec t
analyze_type btree_insert rec t = note_update rec t
analyze_type btree_delete rec t = note_update rec t
analyze_type btree_page_split rec t = note_update rec t
analyze_type btree_rebalance rec t = note_update rec t
analyze_type btree_merge rec t = note_update rec t
analyze_type btree_meta_update rec t = note_update rec t
analyze_type clr rec t = note_update rec t
analyze_type end_checkpoint rec t = record {
  txn_table = note_active_txns rec.active_txns t.txn_table;
  dirty_page_table = note_dirty_pages rec.dirty_pages t.dirty_page_table;
}
analyze_type _ rec t = t

-- A record in front of the checkpoint is skipped.
unfoldable pub skipped : ℕ → ℕ → Bool
skipped checkpoint_lsn lsn = not (checkpoint_lsn == 0) && ltb lsn checkpoint_lsn

unfoldable pub analyze_record : ℕ → LogRecord → Tables → Tables
unfolding analyze_type skipped
analyze_record checkpoint_lsn rec t =
    if skipped checkpoint_lsn rec.lsn then t else analyze_type rec.type rec t

-- The loop of Analysis, from the tables it has filled so far.
unfoldable pub analyze : ℕ → List LogRecord → Tables → Tables
analyze checkpoint_lsn [] t = t
analyze checkpoint_lsn (rec ∷ recs) t =
    analyze checkpoint_lsn recs (analyze_record checkpoint_lsn rec t)
