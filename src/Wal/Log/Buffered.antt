-- ===== src/Wal/Log/Buffered.antt =====
-- ReadAllRecordsFrom of recovery/log_manager.cpp after appends, the last of which the log's stream still
-- has in its buffer, in whole or in part.
use granite_db.Wal.Bytes.{write_pod}
use granite_db.Prelude.{
  ℕ, zero, suc, ◌+◌, ◌-◌, ◌≤◌, ◌<◌, ◌≡◌, refl, sym, subst, ap, ◌∙◌, inl, inr, List, [], ◌∷◌, ◌++◌,
  arith, ok, some, length, take, drop, leb, if◌then◌else◌, length-append, append_assoc, append-nil,
  length-drop, Bool-cases,
}
use granite_db.Wal.{LogRecord}
use granite_db.Wal.Log.{
  LogManager, frame, file_bytes, write_out, append_record, flush_up_to, read_all_records_from,
}
use granite_db.Wal.Log.Frame.{FrameFits}
use granite_db.Wal.Log.Append.{
  frames, stamped, AllFit, Tail, append_all, append_all_bytes, frames_end,
}
use granite_db.Wal.Log.Place.{take-append_add}
use granite_db.Wal.Log.Read.{read_all-frames}

append_all-snoc :
    (m : LogManager) (recs : List LogRecord) (last : LogRecord)
    → append_all m (recs ++ (last ∷ [])) ≡ (append_record (append_all m recs) last).0
unfolding append_all
append_all-snoc m [] last = refl
append_all-snoc m (rec ∷ recs) last = append_all-snoc (append_record m rec).0 recs last

append_all_persistent :
    (m : LogManager) (recs : List LogRecord) → (append_all m recs).persistent_lsn ≡ m.persistent_lsn
unfolding append_all append_record
append_all_persistent m [] = refl
append_all_persistent m (rec ∷ recs) = append_all_persistent (append_record m rec).0 recs

AllFit-snoc :
    (pos : ℕ) (recs : List LogRecord) (last : LogRecord)
    → AllFit pos (recs ++ (last ∷ []))
    → AllFit pos recs × FrameFits (pos + length (frames pos recs)) last
unfolding AllFit frames
AllFit-snoc pos [] last h = (tt, subst (λ n. FrameFits n last) (omega arith) h.0)
AllFit-snoc pos (rec ∷ recs) last h =
    let more = AllFit-snoc (pos + length (frame pos rec)) recs last h.1 in
    ((h.0, more.0), subst (λ n. FrameFits n last) (sym (frames_end pos rec recs)) more.1)

take_all : (l : List ℕ) (n : ℕ) → length l ≤ n → take n l ≡ l
take_all [] zero h = refl
take_all [] (suc n) h = refl
take_all (b ∷ l) zero h = absurd (omega arith)
take_all (b ∷ l) (suc n) h = ap (◌∷◌ b) (take_all l n (omega arith))

take-append-drop : (n : ℕ) (l : List ℕ) → take n l ++ drop n l ≡ l
take-append-drop zero l = refl
take-append-drop (suc n) [] = refl
take-append-drop (suc n) (b ∷ l) = ap (◌∷◌ b) (take-append-drop n l)

-- A part of a frame that is shorter than the frame.
frame_part-Tail :
    (pos k : ℕ) (rec : LogRecord)
    → FrameFits pos rec
    → k < length (frame pos rec)
    → Tail pos (take k (frame pos rec))
frame_part-Tail pos k rec fits h = inr (record {
  rec = rec;
  fits = fits;
  missing = drop k (frame pos rec);
  cut = λ e. absurd (omega (arith, ap length e, length-drop k (frame pos rec)));
  whole = take-append-drop k (frame pos rec);
})

module _ (m : LogManager) (recs : List LogRecord) (last : LogRecord) (master : 8 ≤ length m.bytes)
    (fits : AllFit (length m.bytes) (recs ++ (last ∷ []))) where
  abbrev start : ℕ
  start = length m.bytes

  -- The log before the last append, and after it.
  abbrev before : LogManager
  before = append_all m recs

  abbrev log : LogManager
  log = append_all m (recs ++ (last ∷ []))

  abbrev last_frame : List ℕ
  last_frame = frame (length before.bytes) last

  log_bytes : log.bytes ≡ before.bytes ++ last_frame
  unfolding append_record
  log_bytes = ap (λ l. l.bytes) (append_all-snoc m recs last)

  log_written : log.written ≡ length before.bytes
  unfolding append_record
  log_written = ap (λ l. l.written) (append_all-snoc m recs last)

  size : length log.bytes ≡ length before.bytes + length last_frame
  size = omega (arith, ap length log_bytes, length-append before.bytes last_frame)

  before_size : length before.bytes ≡ start + length (frames start recs)
  before_size =
      omega (arith, ap length (append_all_bytes m recs), length-append m.bytes (frames start recs))

  last_fits : FrameFits (length before.bytes) last
  last_fits = subst (λ n. FrameFits n last) (sym before_size) (AllFit-snoc start recs last fits).1

  -- Where the whole log is in the file, all of it is read.
  read_whole :
      (l : LogManager)
      → l.bytes ≡ log.bytes
      → length l.bytes ≤ l.written
      → read_all_records_from l start ≡ some (ok (stamped start (recs ++ (last ∷ []))))
  unfolding file_bytes
  read_whole l e h =
      read_all-frames l (recs ++ (last ∷ [])) m.bytes [] start
        (take_all l.bytes l.written h
          ∙ e
          ∙ append_all_bytes m (recs ++ (last ∷ []))
          ∙ ap (◌++◌ m.bytes) (sym (append-nil (frames start (recs ++ (last ∷ []))))))
        refl master fits (inl refl)

  -- Where a part of the last frame is missing, all records but the last are read.
  read_part :
      (l : LogManager) (k : ℕ)
      → l.bytes ≡ log.bytes
      → l.written ≡ length before.bytes + k
      → k < length last_frame
      → read_all_records_from l start ≡ some (ok (stamped start recs))
  unfolding file_bytes
  read_part l k e f h =
      read_all-frames l recs m.bytes (take k last_frame) start
        (ap (take l.written) (e ∙ log_bytes)
          ∙ take-append_add before.bytes last_frame l.written k f
          ∙ ap (λ b. b ++ take k last_frame) (append_all_bytes m recs)
          ∙ append_assoc m.bytes (frames start recs) (take k last_frame))
        refl master (AllFit-snoc start recs last fits).0
        (subst (λ n. Tail n (take k last_frame)) before_size
          (frame_part-Tail (length before.bytes) k last last_fits h))

  read-write_out :
      (n : ℕ)
      → read_all_records_from (write_out n log) start
        ≡ some (ok (stamped start (if leb (length log.bytes) n then recs ++ (last ∷ []) else recs)))
  unfolding write_out append_all frame write_pod
  read-write_out n = elim (Bool-cases (leb (length log.bytes) n)) [
    | inl all ↦ rw all (read_whole (write_out n log) refl (ground (arith, all)))
    | inr part ↦
        let below : n < length log.bytes = ground (arith, part) in
        rw part (
          read_part (write_out n log) ((write_out n log).written - length before.bytes) refl
            (omega (arith, log_written)) (omega (arith, log_written, size, below)))
  ]

  read-flush_up_to :
      (k : ℕ)
      → m.persistent_lsn < k
      → read_all_records_from (flush_up_to log k) start
        ≡ some (ok (stamped start (recs ++ (last ∷ []))))
  unfolding flush_up_to
  read-flush_up_to k h =
      let same = append_all_persistent m (recs ++ (last ∷ [])) in
      read_whole (flush_up_to log k) (ground (arith, same)) (ground (arith, same))

-- After a run of appends, however far the stream has written out its buffer, ReadAllRecordsFrom gives
-- every record but the last, each with its LSN and in order, and the last too when its frame is in
-- the file to its end; after a FlushUpTo of an LSN above the persistent one it gives them all. The
-- log holds its master record, the records' members fit their types, and their frames' sizes fit
-- 32 bits.
pub read-append_all :
    (m : LogManager) (recs : List LogRecord) (last : LogRecord) (n k : ℕ)
    → 8 ≤ length m.bytes
    → AllFit (length m.bytes) (recs ++ (last ∷ []))
    → m.persistent_lsn < k
    → let log = append_all m (recs ++ (last ∷ [])) in
      (read_all_records_from (write_out n log) (length m.bytes)
        ≡ some (
            ok (
              stamped
                (length m.bytes)
                (if leb (length log.bytes) n then recs ++ (last ∷ []) else recs))))
      × (read_all_records_from (flush_up_to log k) (length m.bytes)
          ≡ some (ok (stamped (length m.bytes) (recs ++ (last ∷ [])))))
read-append_all m recs last n k h fits behind =
    (read-write_out m recs last h fits n, read-flush_up_to m recs last h fits k behind)
