-- ===== src/Wal/Log/Append.antt =====
-- The log file that LogManager::AppendRecord of recovery/log_manager.cpp builds, seen as the list of
-- its records.
use granite_db.Prelude.{
  ℕ, ◌+◌, ◌≤◌, ◌≡◌, sym, ◌∙◌, ◌⊎◌, List, [], ◌∷◌, ◌++◌, arith, length, length-append, append_assoc,
  append-nil,
}
use granite_db.Wal.{LogRecord}
use granite_db.Wal.Log.{LogManager, frame, append_record}
use granite_db.Wal.Log.Frame.{FrameFits, IsTorn, stamp, length-frame}

-- The frames of records that stand one behind the other from `pos` on.
unfoldable pub frames : ℕ → List LogRecord → List ℕ
frames pos [] = []
frames pos (rec ∷ recs) = frame pos rec ++ frames (pos + length (frame pos rec)) recs

-- The records with the LSNs that they have there.
unfoldable pub stamped : ℕ → List LogRecord → List LogRecord
stamped pos [] = []
stamped pos (rec ∷ recs) = stamp pos rec ∷ stamped (pos + length (frame pos rec)) recs

unfoldable pub AllFit : ℕ → List LogRecord → Type 0
AllFit pos [] = Unit
AllFit pos (rec ∷ recs) = FrameFits pos rec × AllFit (pos + length (frame pos rec)) recs

-- What may follow the frames: nothing, or a part of one more frame.
abbrev pub Tail : ℕ → List ℕ → Type 0
Tail pos part = (part ≡ []) ⊎ IsTorn pos part

-- One call of AppendRecord for each record.
unfoldable pub append_all : LogManager → List LogRecord → LogManager
append_all m [] = m
append_all m (rec ∷ recs) = append_all (append_record m rec).0 recs

-- Any run of appends leaves the bytes of the log and adds the frames behind them.
pub append_all_bytes :
    (m : LogManager) (recs : List LogRecord)
    → (append_all m recs).bytes ≡ m.bytes ++ frames (length m.bytes) recs
unfolding append_all frames append_record
append_all_bytes m [] = sym (append-nil m.bytes)
append_all_bytes m (rec ∷ recs) =
    append_all_bytes (append_record m rec).0 recs
    ∙ rw (length-append m.bytes (frame (length m.bytes) rec))
        (append_assoc m.bytes (frame (length m.bytes) rec) _)

pub length-frames : (pos : ℕ) (recs : List LogRecord) → length recs ≤ length (frames pos recs)
unfolding frames
length-frames pos [] = omega arith
length-frames pos (rec ∷ recs) = omega (
  arith,
  length-append (frame pos rec) (frames (pos + length (frame pos rec)) recs),
  length-frame pos rec,
  length-frames (pos + length (frame pos rec)) recs,
)

pub frames_end :
    (pos : ℕ) (rec : LogRecord) (recs : List LogRecord)
    → pos + length (frames pos (rec ∷ recs))
      ≡ pos + length (frame pos rec) + length (frames (pos + length (frame pos rec)) recs)
unfolding frames
frames_end pos rec recs =
    omega (arith, length-append (frame pos rec) (frames (pos + length (frame pos rec)) recs))
