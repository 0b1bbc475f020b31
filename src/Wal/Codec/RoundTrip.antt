-- ===== src/Wal/Codec/RoundTrip.antt =====
-- What SerializeLogRecordPayload of recovery/wal_records.h writes, read back.
use granite_db.Prelude.{
  ℕ, ◌^◌, ◌%◌, ◌<◌, ◌≡◌, refl, Bool, true, false, List, [], ◌∷◌, ◌++◌, arith, ok, length,
  append_assoc, All,
}
use granite_db.Types.{PageId, no_page}
use granite_db.Transaction.{TransactionState, active, other}
use granite_db.Wal.{LogRecordType, invalid, unlisted, CheckpointTxnEntry, DirtyPageEntry, LogRecord}
use granite_db.Wal.Bytes.{
  u32_mod, write_pod, read_pod, bool_byte, read_pod-write_pod, read_vector-write_vector,
  byte_bool-bool_byte, bool_byte-lt,
}
use granite_db.Wal.Codec.{
  type_byte, byte_type, state_byte, byte_state, write_page_id, write_txn, write_txns,
  write_dirty_page, write_dirty_pages, serialize_log_record_payload, read_page_id, read_txn,
  read_txns, read_dirty_page, read_dirty_pages, deserialize_log_record_payload,
}
use native.Mathlib.Nat.{mod-eq_of_lt}

-- A byte that no enumerator names is out of the enumerators' range.
abbrev pub IsTypeByte : LogRecordType → Type 0
IsTypeByte (unlisted n) = (15 < n) × (n < 256)
IsTypeByte _ = Unit

abbrev pub IsStateByte : TransactionState → Type 0
IsStateByte (other n) = (4 < n) × (n < 256)
IsStateByte _ = Unit

abbrev pub IsU32 : ℕ → Type 0
IsU32 n = n < 256 ^ 4

abbrev pub IsU64 : ℕ → Type 0
IsU64 n = n < 256 ^ 8

abbrev pub PageFits : Bool → PageId → Type 0
PageFits true p = IsU32 p.relation_id × IsU32 p.page_no
PageFits false p = p ≡ no_page

pub record TxnFits (entry : CheckpointTxnEntry) : Type 0 where
  pub txn_id : IsU64 entry.txn_id
  pub state : IsStateByte entry.state
  pub last_lsn : IsU64 entry.last_lsn

pub record DirtyPageFits (entry : DirtyPageEntry) : Type 0 where
  pub relation_id : IsU32 entry.page_id.relation_id
  pub page_no : IsU32 entry.page_id.page_no
  pub rec_lsn : IsU64 entry.rec_lsn

-- Each member fits the C++ type that it has, each list has less than 2^32 elements, and a record
-- without a page has the initial page id.
pub record IsStorable (rec : LogRecord) : Type 0 where
  pub type : IsTypeByte rec.type
  pub lsn : IsU64 rec.lsn
  pub txn_id : IsU64 rec.txn_id
  pub prev_lsn : IsU64 rec.prev_lsn
  pub undo_next_lsn : IsU64 rec.undo_next_lsn
  pub page : PageFits rec.has_page rec.page_id
  pub before_image : length rec.before_image < u32_mod
  pub after_image : length rec.after_image < u32_mod
  pub txn_count : length rec.active_txns < u32_mod
  pub txns : All TxnFits rec.active_txns
  pub page_count : length rec.dirty_pages < u32_mod
  pub pages : All DirtyPageFits rec.dirty_pages

byte_type-type_byte : (t : LogRecordType) → IsTypeByte t → byte_type (type_byte t) ≡ t
unfolding byte_type type_byte
byte_type-type_byte invalid h = refl
byte_type-type_byte (unlisted n) h = ground arith
byte_type-type_byte _ h = refl

type_byte-lt : (t : LogRecordType) → IsTypeByte t → type_byte t < 256 ^ 1
unfolding type_byte
type_byte-lt invalid h = omega arith
type_byte-lt (unlisted n) h = omega arith
type_byte-lt _ h = omega arith

byte_state-state_byte : (s : TransactionState) → IsStateByte s → byte_state (state_byte s) ≡ s
unfolding byte_state state_byte
byte_state-state_byte active h = refl
byte_state-state_byte (other n) h = rw (mod-eq_of_lt h.1) (ground arith)
byte_state-state_byte _ h = refl

state_byte-lt : (s : TransactionState) → state_byte s < 256 ^ 1
unfolding state_byte
state_byte-lt active = omega arith
state_byte-lt (other n) = omega arith
state_byte-lt _ = omega arith

page_id-read :
    (b : Bool) (p : PageId) (rest : List ℕ)
    → PageFits b p
    → read_page_id b (write_page_id b p ++ rest) ≡ ok (p, rest)
unfolding read_page_id write_page_id
page_id-read true p rest h = simp (
  append_assoc,
  read_pod-write_pod 4 p.relation_id (write_pod 4 p.page_no ++ rest) h.0,
  read_pod-write_pod 4 p.page_no rest h.1,
)
page_id-read false p rest h = rw h

txn-read :
    (entry : CheckpointTxnEntry) (rest : List ℕ)
    → TxnFits entry
    → read_txn (write_txn entry ++ rest) ≡ ok (entry, rest)
unfolding read_txn write_txn
txn-read entry rest h =
    let tail = write_pod 8 entry.last_lsn ++ rest in
    simp (
      append_assoc,
      read_pod-write_pod 8 entry.txn_id (write_pod 1 (state_byte entry.state) ++ tail) h.txn_id,
      read_pod-write_pod 1 (state_byte entry.state) tail (state_byte-lt entry.state),
      read_pod-write_pod 8 entry.last_lsn rest h.last_lsn,
      byte_state-state_byte entry.state h.state,
    )

txns-read :
    (entries : List CheckpointTxnEntry) (rest : List ℕ)
    → All TxnFits entries
    → read_txns (length entries) (write_txns entries ++ rest) ≡ ok (entries, rest)
unfolding read_txns write_txns
txns-read [] rest h = refl
txns-read (entry ∷ more) rest h = rw (
  append_assoc (write_txn entry) (write_txns more) rest,
  txn-read entry (write_txns more ++ rest) h.0,
  txns-read more rest h.1,
)

dirty_page-read :
    (entry : DirtyPageEntry) (rest : List ℕ)
    → DirtyPageFits entry
    → read_dirty_page (write_dirty_page entry ++ rest) ≡ ok (entry, rest)
unfolding read_dirty_page write_dirty_page
dirty_page-read entry rest h =
    let tail = write_pod 8 entry.rec_lsn ++ rest in
    simp (
      append_assoc,
      read_pod-write_pod 4 entry.page_id.relation_id (write_pod 4 entry.page_id.page_no ++ tail)
          h.relation_id,
      read_pod-write_pod 4 entry.page_id.page_no tail h.page_no,
      read_pod-write_pod 8 entry.rec_lsn rest h.rec_lsn,
    )

dirty_pages-read :
    (entries : List DirtyPageEntry) (rest : List ℕ)
    → All DirtyPageFits entries
    → read_dirty_pages (length entries) (write_dirty_pages entries ++ rest) ≡ ok (entries, rest)
unfolding read_dirty_pages write_dirty_pages
dirty_pages-read [] rest h = refl
dirty_pages-read (entry ∷ more) rest h = rw (
  append_assoc (write_dirty_page entry) (write_dirty_pages more) rest,
  dirty_page-read entry (write_dirty_pages more ++ rest) h.0,
  dirty_pages-read more rest h.1,
)

-- A list's count, cut to 32 bits, is the count.
count-read :
    (n : ℕ) (rest : List ℕ)
    → n < u32_mod
    → read_pod 4 (write_pod 4 (n % u32_mod) ++ rest) ≡ ok (n, rest)
count-read n rest h = rw (mod-eq_of_lt h, read_pod-write_pod 4 n rest h)

-- Deserializing what was serialized, with any bytes behind it, gives the record back and leaves
-- those bytes, for every record whose members fit their types.
pub deserialize-serialize :
    (rec : LogRecord) (rest : List ℕ)
    → IsStorable rec
    → deserialize_log_record_payload (serialize_log_record_payload rec ++ rest) ≡ ok (rec, rest)
unfolding deserialize_log_record_payload serialize_log_record_payload
deserialize-serialize rec rest h = simp (
  append_assoc,
  pod 1 (type_byte rec.type) (type_byte-lt rec.type h.type),
  pod 8 rec.lsn h.lsn,
  pod 8 rec.txn_id h.txn_id,
  pod 8 rec.prev_lsn h.prev_lsn,
  pod 8 rec.undo_next_lsn h.undo_next_lsn,
  pod 1 (bool_byte rec.has_page) (bool_byte-lt rec.has_page),
  byte_bool-bool_byte,
  λ (tail : List ℕ). page_id-read rec.has_page rec.page_id tail h.page,
  λ (tail : List ℕ). read_vector-write_vector rec.before_image tail h.before_image,
  λ (tail : List ℕ). read_vector-write_vector rec.after_image tail h.after_image,
  λ (tail : List ℕ). count-read (length rec.active_txns) tail h.txn_count,
  λ (tail : List ℕ). txns-read rec.active_txns tail h.txns,
  λ (tail : List ℕ). count-read (length rec.dirty_pages) tail h.page_count,
  λ (tail : List ℕ). dirty_pages-read rec.dirty_pages tail h.pages,
  byte_type-type_byte rec.type h.type,
)
  where
    pod :
        (size v : ℕ)
        → v < 256 ^ size
        → (tail : List ℕ) → read_pod size (write_pod size v ++ tail) ≡ ok (v, tail)
    pod size v fits tail = read_pod-write_pod size v tail fits
