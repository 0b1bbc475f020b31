-- ===== src/Wal/Codec.antt =====
-- recovery/wal_records.h: SerializeLogRecordPayload and DeserializeLogRecordPayload. Each function
-- that reads takes the bytes from the reader's position on and returns those that are left.
pub mod RoundTrip
use granite_db.Prelude.{
  ℕ, zero, suc, ◌%◌, Bool, true, false, List, [], ◌∷◌, ◌++◌, Result, ok, err, ◌>>=◌, length, ◌==◌,
  if◌then◌else◌,
}
use granite_db.Types.{PageId, no_page}
use granite_db.Transaction.{TransactionState, active, waiting, aborting, committed, aborted, other}
use granite_db.Wal.{
  LogRecordType, invalid, begin, commit, abort, heap_insert, heap_delete, heap_update, btree_insert,
  btree_delete, btree_page_split, btree_rebalance, btree_merge, btree_meta_update, begin_checkpoint,
  end_checkpoint, clr, unlisted, CheckpointTxnEntry, DirtyPageEntry, LogRecord,
}
use granite_db.Wal.Bytes.{
  WalError, u32_mod, write_pod, read_pod, write_vector, read_vector, bool_byte, byte_bool,
}

-- The enumerators' values.
unfoldable pub type_byte : LogRecordType → ℕ
type_byte invalid = 0
type_byte begin = 1
type_byte commit = 2
type_byte abort = 3
type_byte heap_insert = 4
type_byte heap_delete = 5
type_byte heap_update = 6
type_byte btree_insert = 7
type_byte btree_delete = 8
type_byte btree_page_split = 9
type_byte btree_rebalance = 10
type_byte btree_merge = 11
type_byte btree_meta_update = 12
type_byte begin_checkpoint = 13
type_byte end_checkpoint = 14
type_byte clr = 15
type_byte (unlisted n) = n

unfoldable pub byte_type : ℕ → LogRecordType
byte_type b =
    if b == 0
    then invalid
    else if b == 1
    then begin
    else if b == 2
    then commit
    else if b == 3
    then abort
    else if b == 4
    then heap_insert
    else if b == 5
    then heap_delete
    else if b == 6
    then heap_update
    else if b == 7
    then btree_insert
    else if b == 8
    then btree_delete
    else if b == 9
    then btree_page_split
    else if b == 10
    then btree_rebalance
    else if b == 11
    then btree_merge
    else if b == 12
    then btree_meta_update
    else if b == 13
    then begin_checkpoint
    else if b == 14
    then end_checkpoint
    else if b == 15
    then clr
    else unlisted b

-- `static_cast<uint8_t>` of a TransactionState, and back.
unfoldable pub state_byte : TransactionState → ℕ
state_byte active = 0
state_byte waiting = 1
state_byte aborting = 2
state_byte committed = 3
state_byte aborted = 4
state_byte (other n) = n % 256

unfoldable pub byte_state : ℕ → TransactionState
byte_state b =
    if b == 0
    then active
    else if b == 1
    then waiting
    else if b == 2
    then aborting
    else if b == 3
    then committed
    else if b == 4
    then aborted
    else other b

unfoldable pub write_page_id : Bool → PageId → List ℕ
write_page_id true p = write_pod 4 p.relation_id ++ write_pod 4 p.page_no
write_page_id false p = []

unfoldable pub write_txn : CheckpointTxnEntry → List ℕ
write_txn entry =
    write_pod 8 entry.txn_id ++ (write_pod 1 (state_byte entry.state) ++ write_pod 8 entry.last_lsn)

unfoldable pub write_txns : List CheckpointTxnEntry → List ℕ
write_txns [] = []
write_txns (entry ∷ rest) = write_txn entry ++ write_txns rest

unfoldable pub write_dirty_page : DirtyPageEntry → List ℕ
write_dirty_page entry =
    write_pod 4 entry.page_id.relation_id
    ++ (write_pod 4 entry.page_id.page_no ++ write_pod 8 entry.rec_lsn)

unfoldable pub write_dirty_pages : List DirtyPageEntry → List ℕ
write_dirty_pages [] = []
write_dirty_pages (entry ∷ rest) = write_dirty_page entry ++ write_dirty_pages rest

unfoldable pub serialize_log_record_payload : LogRecord → List ℕ
serialize_log_record_payload rec =
    write_pod 1 (type_byte rec.type)
    ++ (write_pod 8 rec.lsn
        ++ (write_pod 8 rec.txn_id
            ++ (write_pod 8 rec.prev_lsn
                ++ (write_pod 8 rec.undo_next_lsn
                    ++ (write_pod 1 (bool_byte rec.has_page)
                        ++ (write_page_id rec.has_page rec.page_id
                            ++ (write_vector rec.before_image
                                ++ (write_vector rec.after_image
                                    ++ (write_pod 4 (length rec.active_txns % u32_mod)
                                        ++ (write_txns rec.active_txns
                                            ++ (write_pod 4 (length rec.dirty_pages % u32_mod)
                                                ++ write_dirty_pages rec.dirty_pages)))))))))))

-- `page_id` keeps its initial value when the record has no page.
unfoldable pub read_page_id : Bool → List ℕ → Result WalError (PageId × List ℕ)
read_page_id true bytes = do
  (relation_id, r) ← read_pod 4 bytes
  (page_no, r') ← read_pod 4 r
  ok (record { relation_id = relation_id; page_no = page_no }, r')
read_page_id false bytes = ok (no_page, bytes)

unfoldable pub read_txn : List ℕ → Result WalError (CheckpointTxnEntry × List ℕ)
read_txn bytes = do
  (txn_id, r1) ← read_pod 8 bytes
  (state, r2) ← read_pod 1 r1
  (last_lsn, r3) ← read_pod 8 r2
  ok (record { txn_id = txn_id; state = byte_state state; last_lsn = last_lsn }, r3)

-- The loop over `txn_cnt` entries.
unfoldable pub read_txns : ℕ → List ℕ → Result WalError (List CheckpointTxnEntry × List ℕ)
read_txns zero bytes = ok ([], bytes)
read_txns (suc cnt) bytes = do
  (entry, r) ← read_txn bytes
  (rest, r') ← read_txns cnt r
  ok (entry ∷ rest, r')

unfoldable pub read_dirty_page : List ℕ → Result WalError (DirtyPageEntry × List ℕ)
read_dirty_page bytes = do
  (relation_id, r1) ← read_pod 4 bytes
  (page_no, r2) ← read_pod 4 r1
  (rec_lsn, r3) ← read_pod 8 r2
  ok (
    record { page_id = record { relation_id = relation_id; page_no = page_no }; rec_lsn = rec_lsn },
    r3,
  )

unfoldable pub read_dirty_pages : ℕ → List ℕ → Result WalError (List DirtyPageEntry × List ℕ)
read_dirty_pages zero bytes = ok ([], bytes)
read_dirty_pages (suc cnt) bytes = do
  (entry, r) ← read_dirty_page bytes
  (rest, r') ← read_dirty_pages cnt r
  ok (entry ∷ rest, r')

-- The record and the bytes behind it, which the source ignores.
unfoldable pub deserialize_log_record_payload : List ℕ → Result WalError (LogRecord × List ℕ)
deserialize_log_record_payload bytes = do
  (type, r1) ← read_pod 1 bytes
  (lsn, r2) ← read_pod 8 r1
  (txn_id, r3) ← read_pod 8 r2
  (prev_lsn, r4) ← read_pod 8 r3
  (undo_next_lsn, r5) ← read_pod 8 r4
  (has_page, r6) ← read_pod 1 r5
  (page_id, r7) ← read_page_id (byte_bool has_page) r6
  (before_image, r8) ← read_vector r7
  (after_image, r9) ← read_vector r8
  (txn_cnt, r10) ← read_pod 4 r9
  (active_txns, r11) ← read_txns txn_cnt r10
  (dpt_cnt, r12) ← read_pod 4 r11
  (dirty_pages, r13) ← read_dirty_pages dpt_cnt r12
  ok (
    record {
      type = byte_type type;
      lsn = lsn;
      txn_id = txn_id;
      prev_lsn = prev_lsn;
      undo_next_lsn = undo_next_lsn;
      has_page = byte_bool has_page;
      page_id = page_id;
      before_image = before_image;
      after_image = after_image;
      active_txns = active_txns;
      dirty_pages = dirty_pages;
    },
    r13,
  )
