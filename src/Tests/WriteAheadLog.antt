-- ===== src/Tests/WriteAheadLog.antt =====
-- recovery/wal_records.h and recovery/log_manager.cpp on small logs.
use granite_db.Prelude.{
  ℕ, ◌+◌, ◌≤◌, ◌<◌, leb, if◌then◌else◌, ◌≡◌, ◌≢◌, refl, true, List, [], ◌∷◌, ◌++◌, none, some,
  arith, inr, ok, length, take, drop, length-drop, ap, subst, sym, length-append,
}
use granite_db.Transaction.{active}
use granite_db.Wal.{LogRecord, blank_record, begin, heap_insert, end_checkpoint}
use granite_db.Wal.Bytes.{write_pod, pod_value, bool_byte, write_vector}
use granite_db.Wal.Codec.{
  serialize_log_record_payload, deserialize_log_record_payload, type_byte, write_page_id,
  write_txns, write_dirty_pages,
}
use granite_db.Wal.Codec.RoundTrip.{IsStorable, deserialize-serialize}
use granite_db.Wal.Log.{
  LogManager, stream_read, frame, write_out, append_record, flush_up_to, read_all_records_from,
  open_log, ensure_wal_initialized_and_trimmed,
}
use granite_db.Wal.Log.Frame.{FrameFits, IsTorn, length-frame}
use granite_db.Wal.Log.Append.{frames, stamped, AllFit, Tail, append_all}
use granite_db.Wal.Log.Read.{read_all-ne-none}
use granite_db.Wal.Log.Buffered.{read-append_all}
use granite_db.Wal.Log.ScanLoop.{type_at}
use granite_db.Wal.Log.Scan.{log_file, is_checkpointed, reopen-log_file}
use granite_db.Wal.Log.Flush.{
  IsSound, appends, flushes, checkpoints, writes_out, run, run-IsSound, first_append_unsynced,
}
use granite_db.Wal.Log.Durable.{flush-append_durable}

-- A page image, and the end of a checkpoint with both of its tables.
abbrev page_write : LogRecord
page_write = record blank_record {
  type = heap_insert;
  txn_id = 3;
  has_page = true;
  page_id = record { relation_id = 1; page_no = 300 };
  before_image = 1 ∷ 2 ∷ [];
  after_image = 3 ∷ [];
}

abbrev table_dump : LogRecord
table_dump = record blank_record {
  type = end_checkpoint;
  lsn = 70_000;
  active_txns = record { txn_id = 3; state = active; last_lsn = 8 } ∷ [];
  dirty_pages = record { page_id = record { relation_id = 1; page_no = 2 }; rec_lsn = 8 } ∷ [];
}

abbrev begin_3 : LogRecord
begin_3 = record blank_record { type = begin; txn_id = 3 }

-- A new log: the master record alone.
abbrev new_log : LogManager
new_log = record {
  bytes = 0 ∷ 0 ∷ 0 ∷ 0 ∷ 0 ∷ 0 ∷ 0 ∷ 0 ∷ [];
  written = 8;
  next_lsn = 8;
  persistent_lsn = 8;
  synced = 8;
}

page_write-IsStorable : IsStorable page_write
page_write-IsStorable = omega arith

table_dump-IsStorable : IsStorable table_dump
table_dump-IsStorable = ground arith

deserialize-serialize_example :
    deserialize_log_record_payload (serialize_log_record_payload table_dump ++ (9 ∷ []))
    ≡ ok (table_dump, 9 ∷ [])
deserialize-serialize_example = deserialize-serialize table_dump (9 ∷ []) table_dump-IsStorable

-- The sizes of what is written below.
page_write-frame : (lsn : ℕ) → length (frame lsn page_write) ≡ 65
unfolding frame serialize_log_record_payload type_byte write_pod bool_byte write_page_id
    write_vector write_txns write_dirty_pages
page_write-frame lsn = refl

page_write-FrameFits : (lsn : ℕ) → lsn < 1000 → FrameFits lsn page_write
page_write-FrameFits lsn h = record {
  storable = omega arith;
  small = omega (arith, page_write-frame lsn, length-frame lsn page_write);
}

two_writes : List LogRecord
two_writes = page_write ∷ page_write ∷ []

two_writes-AllFit : AllFit 8 two_writes
unfolding two_writes AllFit
two_writes-AllFit = (
  page_write-FrameFits 8 (omega arith),
  (page_write-FrameFits (8 + length (frame 8 page_write)) (omega (arith, page_write-frame 8)), tt),
)

two_writes_end : 8 + length (frames 8 two_writes) ≡ 138
unfolding frames two_writes
two_writes_end =
    let next = 8 + length (frame 8 page_write) in
    omega (
      arith,
      length-append (frame 8 page_write) (frame next page_write ++ []),
      length-append (frame next page_write) [],
      page_write-frame 8,
      page_write-frame next,
    )

-- The first byte of a third frame.
byte-IsTorn : IsTorn 138 (65 ∷ [])
byte-IsTorn = record {
  rec = page_write;
  fits = page_write-FrameFits 138 (omega arith);
  missing = drop 1 (frame 138 page_write);
  cut = λ e.
      absurd
        (omega (arith, ap length e, length-drop 1 (frame 138 page_write), page_write-frame 138));
  whole =
      unfold frame serialize_log_record_payload type_byte write_pod bool_byte write_page_id
        write_vector write_txns write_dirty_pages in
      refl;
}

byte-Tail : Tail (8 + length (frames 8 two_writes)) (65 ∷ [])
byte-Tail = inr (subst (λ n. IsTorn n (65 ∷ [])) (sym two_writes_end) byte-IsTorn)

-- The stream has written out the first byte of the second frame.
read-append_all_example :
    let log = append_all new_log two_writes in
    (read_all_records_from (write_out 74 log) 8
      ≡ some (ok (stamped 8 (if leb (length log.bytes) 74 then two_writes else page_write ∷ []))))
    × (read_all_records_from (flush_up_to log 9) 8 ≡ some (ok (stamped 8 two_writes)))
unfolding two_writes
read-append_all_example =
    read-append_all new_log (page_write ∷ []) page_write 74 9 (omega arith) two_writes-AllFit
      (omega arith)

read_all-ne-none_example : read_all_records_from new_log 8 ≢ none
read_all-ne-none_example = read_all-ne-none new_log 8

-- The master record names the first write, which begins no checkpoint, so it is cleared.
reopen-log_file_example :
    ensure_wal_initialized_and_trimmed
      (some (log_file (8 ∷ 0 ∷ 0 ∷ 0 ∷ 0 ∷ 0 ∷ 0 ∷ 0 ∷ []) two_writes (65 ∷ [])))
    ≡ some (write_pod 8 0 ++ frames 8 two_writes)
unfolding is_checkpointed type_at pod_value write_pod two_writes
reopen-log_file_example =
    reopen-log_file (8 ∷ 0 ∷ 0 ∷ 0 ∷ 0 ∷ 0 ∷ 0 ∷ 0 ∷ []) two_writes (65 ∷ []) refl two_writes-AllFit
      byte-Tail

new_log-IsSound : IsSound new_log
new_log-IsSound = omega arith

run-IsSound_example :
    IsSound (run new_log (appends page_write ∷ writes_out 20 ∷ flushes 8 ∷ checkpoints 8 ∷ []))
run-IsSound_example =
    run-IsSound new_log (appends page_write ∷ writes_out 20 ∷ flushes 8 ∷ checkpoints 8 ∷ [])
      ((page_write-FrameFits 8 (omega arith)).small, tt) new_log-IsSound

-- A checkpoint and a write of a part of the buffer stand between the append and its flush.
flush-append_durable_example :
    let after = run new_log (
      appends page_write ∷ (checkpoints 8 ∷ writes_out 20 ∷ [])
      ++ (flushes 9 ∷ checkpoints 0 ∷ [])) in
    (8 + length (frame 8 page_write) ≤ after.synced)
    × (stream_read (take after.synced after.bytes) 8 (length (frame 8 page_write))
        ≡ frame 8 page_write)
flush-append_durable_example =
    flush-append_durable new_log page_write (checkpoints 8 ∷ writes_out 20 ∷ [])
      (checkpoints 0 ∷ []) 9 new_log-IsSound ((page_write-FrameFits 8 (omega arith)).small, tt)
      (omega arith)

first_append_unsynced_example :
    let (m, lsn) = append_record new_log page_write in
    (flush_up_to m lsn ≡ m) × ((flush_up_to m lsn).synced < length m.bytes)
unfolding open_log ensure_wal_initialized_and_trimmed write_pod
first_append_unsynced_example = first_append_unsynced none new_log page_write refl
