-- ===== src/Wal/Log.antt =====
-- recovery/log_manager.cpp: the log file as a list of bytes, with the master record (the LSN of the
-- last checkpoint) in the first 8 of them. An LSN is the offset of a record's frame in the file.
-- Reads and writes of the stream succeed and offsets do not wrap; the calls of FaultInjector, which
-- end the process, are left out. `bytes` is the log as `file_` has it: the first `written` of them
-- are in the file, where another stream reads them, the rest are in the buffer of `file_`, and the
-- first `synced` have been made durable by DurableSyncPath.
pub mod Frame
pub mod Append
pub mod Read
pub mod Buffered
pub mod ScanLoop
pub mod Scan
pub mod Flush
pub mod Place
pub mod Durable
use granite_db.Prelude.{
  ℕ, zero, suc, ◌+◌, ◌-◌, ◌%◌, ◌≤◌, min, max, Bool, true, false, not, ◌&&◌, ◌||◌, List, [], ◌∷◌,
  ◌++◌, Result, ok, err, Option, none, some, length, take, drop, ltb, leb, ◌==◌, if◌then◌else◌,
}
use granite_db.Prelude.Dict.{find, assign, nat_eq}
use granite_db.Types.{lsn_size}
use granite_db.Wal.{LogRecordType, begin_checkpoint, LogRecord}
use granite_db.Wal.Bytes.{WalError, corrupt_record_size, u32_mod, write_pod, pod_value}
use granite_db.Wal.Codec.{serialize_log_record_payload, deserialize_log_record_payload}

pub record LogManager : Type 0 where
  pub bytes : List ℕ
  pub written : ℕ
  pub next_lsn : ℕ
  pub persistent_lsn : ℕ
  pub synced : ℕ

-- `seekg(pos)` and `read(n)`: what was read, whose length is `gcount()`.
unfoldable pub stream_read : List ℕ → ℕ → ℕ → List ℕ
stream_read bytes pos n = take n (drop pos bytes)

-- The file, as a stream that is opened now finds it.
pub file_bytes : LogManager → List ℕ
file_bytes m = take m.written m.bytes

-- The stream may write out any part of its buffer at any time, here all in front of `n`.
pub write_out : ℕ → LogManager → LogManager
write_out n m = record m { written = max m.written (min n (length m.bytes)) }

-- What AppendRecord writes: the record with its LSN, behind its total size in 32 bits.
unfoldable pub frame : ℕ → LogRecord → List ℕ
frame lsn rec =
    let payload = serialize_log_record_payload (record rec { lsn = lsn }) in
    write_pod 4 ((4 + length payload) % u32_mod) ++ payload

-- `seekp` writes out what the buffer holds; the frame is left in the buffer.
unfoldable pub append_record : LogManager → LogRecord → LogManager × ℕ
append_record m rec =
    let lsn = length m.bytes in
    let payload = serialize_log_record_payload (record rec { lsn = lsn }) in
    (
      record m {
        bytes = m.bytes ++ frame lsn rec;
        written = length m.bytes;
        next_lsn = lsn + (4 + length payload) % u32_mod;
      },
      lsn,
    )

unfoldable pub flush_up_to : LogManager → ℕ → LogManager
flush_up_to m lsn = if leb lsn m.persistent_lsn then m else record m {
  written = length m.bytes;
  persistent_lsn = min lsn m.next_lsn;
  synced = length m.bytes;
}

-- One round of the loop of ReadAllRecordsFrom below its first test.
pub data ReadStep : Type 0 where
  stop : ReadStep
  throws : WalError → ReadStep
  next : ℕ → LogRecord → ReadStep

read_payload : List ℕ → ℕ → ℕ → ReadStep
read_payload bytes pos total =
    let payload = stream_read bytes (pos + 4) (total - 4) in
    if length payload == total - 4
    then elim (deserialize_log_record_payload payload) [
      | ok (rec, _) ↦ next (pos + total) (record rec { lsn = pos })
      | err e ↦ throws e
    ]
    else stop

unfoldable pub read_step : List ℕ → ℕ → ReadStep
unfolding read_payload
read_step bytes pos =
    let size = stream_read bytes pos 4 in
    let total = pod_value size in
    if not (length size == 4)
    then stop
    else if ltb total 4
    then throws corrupt_record_size
    else if ltb (length bytes) (pos + total)
    then stop
    else read_payload bytes pos total

-- The loop, which pushes the records in the order of the file; `none` means that the fuel ran out.
unfoldable pub read_loop :
    ℕ → List ℕ → ℕ → List LogRecord → Option (Result WalError (List LogRecord))
read_loop zero bytes pos records = none
read_loop (suc fuel) bytes pos records =
    let more = elim (read_step bytes pos) as (λ _. Option (Result WalError (List LogRecord))) [
      | stop ↦ some (ok records)
      | throws e ↦ some (err e)
      | next pos' rec ↦ read_loop fuel bytes pos' (records ++ (rec ∷ []))
    ] in
    if leb (length bytes) pos then some (ok records) else more

-- Each round passes 4 bytes at least, so the file's length is enough fuel.
unfoldable pub read_all_records_from : LogManager → ℕ → Option (Result WalError (List LogRecord))
unfolding file_bytes
read_all_records_from m start_lsn =
    let file = file_bytes m in
    let start = if ltb start_lsn lsn_size then lsn_size else start_lsn in
    if leb (length file) start then some (ok []) else read_loop (suc (length file)) file start []

unfoldable pub get_master_checkpoint_lsn : LogManager → ℕ
unfolding file_bytes
get_master_checkpoint_lsn m = pod_value (stream_read (file_bytes m) 0 lsn_size)

abbrev pub write_master : List ℕ → ℕ → List ℕ
write_master bytes lsn = write_pod 8 lsn ++ drop 8 bytes

unfoldable pub set_master_checkpoint_lsn : LogManager → ℕ → LogManager
set_master_checkpoint_lsn m lsn = record m {
  bytes = write_master m.bytes lsn;
  written = length (write_master m.bytes lsn);
  synced = length (write_master m.bytes lsn);
}

pub record WalScanResult : Type 0 where
  pub valid_end : ℕ
  pub record_types : List (ℕ × LogRecordType)
  pub repaired_tail : Bool

scan_payload : List ℕ → ℕ → ℕ → Option (ℕ × LogRecordType)
scan_payload bytes offset total =
    let payload = stream_read bytes (offset + 4) (total - 4) in
    if length payload == total - 4
    then elim (deserialize_log_record_payload payload) [
      | ok (rec, _) ↦ some (offset + total, rec.type)
      | err e ↦ none
    ]
    else none

-- One round of the loop of ScanWalFile: the next offset and the record's type, or `none` where the
-- file is torn.
unfoldable pub scan_step : List ℕ → ℕ → Option (ℕ × LogRecordType)
unfolding scan_payload
scan_step bytes offset =
    let size = stream_read bytes offset 4 in
    let total = pod_value size in
    if not (length size == 4)
    then none
    else if ltb total 4
    then none
    else if ltb (length bytes) (offset + total)
    then none
    else scan_payload bytes offset total

unfoldable pub scan_loop : ℕ → List ℕ → ℕ → List (ℕ × LogRecordType) → Option WalScanResult
scan_loop zero bytes offset types = none
scan_loop (suc fuel) bytes offset types =
    let more = elim (scan_step bytes offset) as (λ _. Option WalScanResult) [
      | none ↦ some (record { valid_end = offset; record_types = types; repaired_tail = true })
      | some (offset', type) ↦ scan_loop fuel bytes offset' (assign offset type types)
    ] in
    if ltb offset (length bytes)
    then more
    else some (record { valid_end = length bytes; record_types = types; repaired_tail = false })

-- The file is longer than its master record here, so that record is read whole.
unfoldable pub scan_wal_file : List ℕ → Option WalScanResult
scan_wal_file bytes =
    if leb (length bytes) lsn_size
    then some (record { valid_end = lsn_size; record_types = []; repaired_tail = false })
    else scan_loop (suc (length bytes)) bytes lsn_size []

abbrev pub is_begin_checkpoint : Option LogRecordType → Bool
is_begin_checkpoint (some begin_checkpoint) = true
is_begin_checkpoint _ = false

-- Whether the master record names no record that begins a checkpoint.
unfoldable pub master_invalid : ℕ → WalScanResult → Bool
master_invalid master scan =
    not (master == 0)
    && (ltb master lsn_size
        || (leb scan.valid_end master || not (is_begin_checkpoint (find master scan.record_types))))

abbrev pub trimmed : List ℕ → WalScanResult → List ℕ
trimmed bytes scan = if ltb scan.valid_end (length bytes) then take scan.valid_end bytes else bytes

abbrev pub repaired : List ℕ → WalScanResult → List ℕ
repaired bytes scan =
    if master_invalid (pod_value (stream_read bytes 0 8)) scan then write_master bytes 0 else bytes

-- What the file holds after it, of a file that may be absent (`none`).
unfoldable pub ensure_wal_initialized_and_trimmed : Option (List ℕ) → Option (List ℕ)
ensure_wal_initialized_and_trimmed none = some (write_pod 8 0)
ensure_wal_initialized_and_trimmed (some bytes) =
    if ltb (length bytes) lsn_size then some (write_pod 8 0) else elim (scan_wal_file bytes) [
      | none ↦ none
      | some scan ↦ some (repaired (trimmed bytes scan) scan)
    ]

-- LogManager's constructor.
unfoldable pub open_log : Option (List ℕ) → Option LogManager
open_log file = elim (ensure_wal_initialized_and_trimmed file) [
  | none ↦ none
  | some bytes ↦ some (record {
    bytes = bytes;
    written = length bytes;
    next_lsn = length bytes;
    persistent_lsn = length bytes;
    synced = length bytes;
  })
]
