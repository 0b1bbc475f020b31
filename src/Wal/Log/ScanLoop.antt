-- ===== src/Wal/Log/ScanLoop.antt =====
-- What the loop of ScanWalFile finds in the frames of a log: recovery/log_manager.cpp.
use granite_db.Prelude.{
  ℕ, zero, suc, ◌+◌, ◌≤◌, ◌<◌, ◌≡◌, refl, subst, sym, ap, ◌∙◌, inl, inr, List, [], ◌∷◌, ◌++◌, arith,
  Option, some, none, length, ltb, ◌==◌, if◌then◌else◌, length-append, append_assoc, Bool-cases,
  ltb→lt, true, false,
}
use granite_db.Prelude.Dict.{find, assign, find-assign, nat_eq}
use granite_db.Wal.{LogRecord, LogRecordType}
use granite_db.Wal.Log.{frame, scan_step, scan_loop, WalScanResult}
use granite_db.Wal.Log.Frame.{length-frame, scan_step_at, frame_within, scan_step-torn}
use granite_db.Wal.Log.Append.{frames, AllFit, Tail, frames_end}
use native.Mathlib.Nat.{add-zero}

-- The type of the record at an LSN, among records that stand from `pos` on.
unfoldable pub type_at : ℕ → ℕ → List LogRecord → Option LogRecordType
type_at lsn pos [] = none
type_at lsn pos (rec ∷ recs) =
    if pos == lsn then some rec.type else type_at lsn (pos + length (frame pos rec)) recs

pub types_of : List (ℕ × LogRecordType) → ℕ → List LogRecord → List (ℕ × LogRecordType)
types_of acc pos [] = acc
types_of acc pos (rec ∷ recs) =
    types_of (assign pos rec.type acc) (pos + length (frame pos rec)) recs

type_at_above : (lsn pos : ℕ) (recs : List LogRecord) → lsn < pos → type_at lsn pos recs ≡ none
unfolding type_at
type_at_above lsn pos [] h = refl
type_at_above lsn pos (rec ∷ recs) h =
    ground (arith, type_at_above lsn (pos + length (frame pos rec)) recs)

abbrev pub or_else : Option LogRecordType → Option LogRecordType → Option LogRecordType
or_else none o = o
or_else (some t) o = some t

pub find-types_of :
    (lsn pos : ℕ) (acc : List (ℕ × LogRecordType)) (recs : List LogRecord)
    → find lsn (types_of acc pos recs) ≡ or_else (type_at lsn pos recs) (find lsn acc)
unfolding types_of type_at
find-types_of lsn pos acc [] = refl
find-types_of lsn pos acc (rec ∷ recs) =
    let pos' = pos + length (frame pos rec) in
    find-types_of lsn pos' (assign pos rec.type acc) recs
    ∙ rw (find-assign pos lsn rec.type acc)
        (ground (arith, type_at_above lsn pos' recs, length-frame pos rec))

pub type_at_range :
    (lsn pos : ℕ) (recs : List LogRecord) (t : LogRecordType)
    → type_at lsn pos recs ≡ some t
    → (pos ≤ lsn) × (lsn < pos + length (frames pos recs))
unfolding type_at
type_at_range lsn pos [] t e = cc
type_at_range lsn pos (rec ∷ recs) t e = ground (
  arith,
  type_at_range lsn (pos + length (frame pos rec)) recs t,
  frames_end pos rec recs,
  length-frame pos rec,
)

-- What a scan that starts with the types `acc` finds.
pub record Scanned (acc : List (ℕ × LogRecordType)) (pos : ℕ) (recs : List LogRecord)
    (o : Option WalScanResult) : Type 0 where
  pub result : WalScanResult
  pub returned : o ≡ some result
  pub valid_end : result.valid_end ≡ pos + length (frames pos recs)
  pub record_types : result.record_types ≡ types_of acc pos recs

scan_loop-end :
    (pre part : List ℕ) (types : List (ℕ × LogRecordType)) (fuel : ℕ)
    → Tail (length pre) part
    → 0 < fuel
    → Scanned types (length pre) [] (scan_loop fuel (pre ++ part) (length pre) types)
unfolding scan_loop frames types_of
scan_loop-end pre part types zero t h = absurd (omega arith)
scan_loop-end pre part types (suc fuel) tail h =
    elim (Bool-cases (ltb (length pre) (length (pre ++ part)))) [
      | inl more ↦
          rw (more, at_tail tail (omega (arith, ltb→lt _ _ more)))
            (record {
              result = record {
                valid_end = length pre;
                record_types = types;
                repaired_tail = true;
              };
              returned = refl;
              valid_end = sym (add-zero (length pre));
              record_types = refl;
            })
      | inr over ↦ rw over (record {
        result = record {
          valid_end = length (pre ++ part);
          record_types = types;
          repaired_tail = false;
        };
        returned = refl;
        valid_end = ground (arith, over, length-append pre part);
        record_types = refl;
      })
    ]
  where
    at_tail :
        Tail (length pre) part
        → length pre < length (pre ++ part)
        → scan_step (pre ++ part) (length pre) ≡ none
    at_tail (inl e) more = absurd (omega (arith, length-append pre part, ap length e))
    at_tail (inr torn) more = scan_step-torn pre part torn

scan_loop_step :
    (fuel pos pos' : ℕ) (bytes : List ℕ) (types : List (ℕ × LogRecordType)) (t : LogRecordType)
    → pos < length bytes
    → scan_step bytes pos ≡ some (pos', t)
    → scan_loop (suc fuel) bytes pos types ≡ scan_loop fuel bytes pos' (assign pos t types)
unfolding scan_loop
scan_loop_step fuel pos pos' bytes types t h e = rw e (ground arith)

pub scan_loop-frames :
    (recs : List LogRecord) (pre part : List ℕ) (pos : ℕ) (types : List (ℕ × LogRecordType))
    (fuel : ℕ)
    → length pre ≡ pos
    → AllFit pos recs
    → Tail (pos + length (frames pos recs)) part
    → length recs < fuel
    → Scanned types pos recs (scan_loop fuel (pre ++ (frames pos recs ++ part)) pos types)
unfolding frames AllFit types_of
scan_loop-frames [] pre part pos types fuel e fits tail h =
    rw (← e) (scan_loop-end pre part types fuel (rw (add-zero pos, ← e) at tail) (omega arith))
scan_loop-frames (rec ∷ recs) pre part pos types zero e fits tail h = absurd (omega arith)
scan_loop-frames (rec ∷ recs) pre part pos types (suc fuel) e fits tail h =
    let pos' = pos + length (frame pos rec) in
    let more = frames pos' recs ++ part in
    let types' = assign pos rec.type types in
    let rest =
      scan_loop-frames recs (pre ++ frame pos rec) part pos' types' fuel
        (omega (arith, length-append pre (frame pos rec))) fits.1
        (subst (λ n. Tail n part) (frames_end pos rec recs) tail) (omega arith) in
    record {
      result = rest.result;
      returned = rw (append_assoc (frame pos rec) (frames pos' recs) part) (
          scan_loop_step fuel pos pos' (pre ++ (frame pos rec ++ more)) types rec.type
            (frame_within pre rec more pos e) (scan_step_at pre rec more pos e fits.0)
          ∙ rw (sym (append_assoc pre (frame pos rec) more)) rest.returned);
      valid_end = rest.valid_end ∙ sym (frames_end pos rec recs);
      record_types = rest.record_types;
    }

pub Scanned-empty :
    (pos : ℕ) (recs : List LogRecord)
    → length recs ≡ 0
    → Scanned [] pos recs
        (some (record { valid_end = pos; record_types = []; repaired_tail = false }))
unfolding types_of frames
Scanned-empty pos [] h = record {
  result = record { valid_end = pos; record_types = []; repaired_tail = false };
  returned = refl;
  valid_end = sym (add-zero pos);
  record_types = refl;
}
Scanned-empty pos (rec ∷ recs) h = absurd (omega arith)
