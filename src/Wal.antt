-- ===== src/Wal.antt =====
-- recovery/wal_records.h: the records of the write-ahead log and the makers of records. A `char` of
-- an image is a number below 256.
pub mod Bytes
pub mod Codec
pub mod Log
use granite_db.Prelude.{ℕ, Bool, true, false, ◌||◌, List, []}
use granite_db.Types.{PageId, no_page}
use granite_db.Transaction.{TransactionState}

-- The enum has an underlying type, uint8_t: `unlisted` is a byte that no enumerator names.
pub data LogRecordType : Type 0 where
  invalid begin commit abort : LogRecordType
  heap_insert heap_delete heap_update : LogRecordType
  btree_insert btree_delete btree_page_split btree_rebalance : LogRecordType
  btree_merge btree_meta_update : LogRecordType
  begin_checkpoint end_checkpoint clr : LogRecordType
  unlisted : ℕ → LogRecordType

pub record CheckpointTxnEntry : Type 0 where
  pub txn_id : ℕ
  pub state : TransactionState
  pub last_lsn : ℕ

pub record DirtyPageEntry : Type 0 where
  pub page_id : PageId
  pub rec_lsn : ℕ

pub record LogRecord : Type 0 where
  pub type : LogRecordType
  pub lsn : ℕ
  pub txn_id : ℕ
  pub prev_lsn : ℕ
  pub undo_next_lsn : ℕ
  pub has_page : Bool
  pub page_id : PageId
  pub before_image : List ℕ
  pub after_image : List ℕ
  pub active_txns : List CheckpointTxnEntry
  pub dirty_pages : List DirtyPageEntry

-- `LogRecord{}`: the member initialisers.
abbrev pub blank_record : LogRecord
blank_record = record {
  type = invalid;
  lsn = 0;
  txn_id = 0;
  prev_lsn = 0;
  undo_next_lsn = 0;
  has_page = false;
  page_id = no_page;
  before_image = [];
  after_image = [];
  active_txns = [];
  dirty_pages = [];
}

unfoldable pub make_page_image_log_record :
    LogRecordType → ℕ → ℕ → PageId → List ℕ → List ℕ → LogRecord
make_page_image_log_record type txn_id prev_lsn page_id before_image after_image =
    record blank_record {
      type = type;
      txn_id = txn_id;
      prev_lsn = prev_lsn;
      has_page = true;
      page_id = page_id;
      before_image = before_image;
      after_image = after_image;
    }

unfoldable pub make_clr_page_undo_record : ℕ → ℕ → ℕ → PageId → List ℕ → LogRecord
make_clr_page_undo_record txn_id prev_lsn undo_next_lsn page_id redo_image = record blank_record {
  type = clr;
  txn_id = txn_id;
  prev_lsn = prev_lsn;
  undo_next_lsn = undo_next_lsn;
  has_page = true;
  page_id = page_id;
  after_image = redo_image;
}

unfoldable pub is_index_structural_record : LogRecordType → Bool
is_index_structural_record btree_page_split = true
is_index_structural_record btree_rebalance = true
is_index_structural_record btree_merge = true
is_index_structural_record btree_meta_update = true
is_index_structural_record _ = false

unfoldable pub is_undoable_page_record : LogRecordType → Bool
is_undoable_page_record heap_insert = true
is_undoable_page_record heap_delete = true
is_undoable_page_record heap_update = true
is_undoable_page_record btree_insert = true
is_undoable_page_record btree_delete = true
is_undoable_page_record btree_page_split = true
is_undoable_page_record btree_rebalance = true
is_undoable_page_record btree_merge = true
is_undoable_page_record btree_meta_update = true
is_undoable_page_record _ = false

unfoldable pub is_clr : LogRecordType → Bool
is_clr clr = true
is_clr _ = false

unfoldable pub is_page_update_record : LogRecordType → Bool
unfolding is_undoable_page_record is_clr
is_page_update_record t = is_undoable_page_record t || is_clr t
