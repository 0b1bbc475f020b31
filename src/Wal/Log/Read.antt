-- ===== src/Wal/Log/Read.antt =====
-- ReadAllRecordsFrom of recovery/log_manager.cpp on a file of whole frames, with or without a torn
-- one behind them.
use granite_db.Prelude.{
  ℕ, zero, suc, ◌+◌, ◌≤◌, ◌<◌, ◌≡◌, refl, subst, sym, ap, ◌∙◌, inl, inr, List, [], ◌∷◌, ◌++◌, arith,
  Result, ok, err, some, none, Option, length, leb, ltb, if◌then◌else◌, length-append, append_assoc,
  append-nil, ◌≢◌, Bool-cases,
}
use granite_db.Wal.{LogRecord}
use granite_db.Wal.Bytes.{WalError}
use granite_db.Wal.Log.{
  LogManager, frame, file_bytes, read_step, ReadStep, stop, throws, next, read_loop,
  read_all_records_from,
}
use granite_db.Wal.Log.Frame.{stamp, read_step_at, frame_within, read_step-torn}
use granite_db.Wal.Log.Append.{frames, stamped, AllFit, Tail, length-frames, frames_end}
use native.Mathlib.Nat.{add-zero}

read_loop-end :
    (pre part : List ℕ) (acc : List LogRecord) (fuel : ℕ)
    → Tail (length pre) part
    → 0 < fuel
    → read_loop fuel (pre ++ part) (length pre) acc ≡ some (ok acc)
unfolding read_loop
read_loop-end pre part acc zero t h = absurd (omega arith)
read_loop-end pre part acc (suc fuel) (inl e) h = rw (e, append-nil pre) (ground arith)
read_loop-end pre part acc (suc fuel) (inr torn) h =
    rw (read_step-torn pre part torn) (ground arith)

read_loop_step :
    (fuel pos pos' : ℕ) (bytes : List ℕ) (acc : List LogRecord) (rec : LogRecord)
    → pos < length bytes
    → read_step bytes pos ≡ next pos' rec
    → read_loop (suc fuel) bytes pos acc ≡ read_loop fuel bytes pos' (acc ++ (rec ∷ []))
unfolding read_loop
read_loop_step fuel pos pos' bytes acc rec h e = rw e (ground arith)

read_loop-frames :
    (recs : List LogRecord) (pre part : List ℕ) (pos : ℕ) (acc : List LogRecord) (fuel : ℕ)
    → length pre ≡ pos
    → AllFit pos recs
    → Tail (pos + length (frames pos recs)) part
    → length recs < fuel
    → read_loop fuel (pre ++ (frames pos recs ++ part)) pos acc
      ≡ some (ok (acc ++ stamped pos recs))
unfolding frames stamped AllFit
read_loop-frames [] pre part pos acc fuel e fits tail h =
    rw (append-nil acc, ← e)
      (read_loop-end pre part acc fuel (rw (add-zero pos, ← e) at tail) (omega arith))
read_loop-frames (rec ∷ recs) pre part pos acc zero e fits tail h = absurd (omega arith)
read_loop-frames (rec ∷ recs) pre part pos acc (suc fuel) e fits tail h =
    let pos' = pos + length (frame pos rec) in
    let more = frames pos' recs ++ part in
    rw (append_assoc (frame pos rec) (frames pos' recs) part) (
      read_loop_step fuel pos pos' (pre ++ (frame pos rec ++ more)) acc (stamp pos rec)
        (frame_within pre rec more pos e) (read_step_at pre rec more pos e fits.0)
      ∙ rw (sym (append_assoc pre (frame pos rec) more)) (
          read_loop-frames recs (pre ++ frame pos rec) part pos' (acc ++ (stamp pos rec ∷ [])) fuel
            (omega (arith, length-append pre (frame pos rec))) fits.1
            (subst (λ n. Tail n part) (frames_end pos rec recs) tail) (omega arith)
          ∙ ap (λ l. some (ok l)) (append_assoc acc (stamp pos rec ∷ []) _)))

no_records : (pos : ℕ) (recs : List LogRecord) → length recs ≡ 0 → stamped pos recs ≡ []
unfolding stamped
no_records pos [] h = refl
no_records pos (rec ∷ recs) h = absurd (omega arith)

pub read_all-frames :
    (m : LogManager) (recs : List LogRecord) (pre part : List ℕ) (pos : ℕ)
    → file_bytes m ≡ pre ++ (frames pos recs ++ part)
    → length pre ≡ pos
    → 8 ≤ pos
    → AllFit pos recs
    → Tail (pos + length (frames pos recs)) part
    → read_all_records_from m pos ≡ some (ok (stamped pos recs))
unfolding read_all_records_from
read_all-frames m recs pre part pos e f h fits tail = elim (Bool-cases (leb (length file) pos)) [
  | inl none_left ↦ ground (arith, nothing (ground arith))
  | inr more_left ↦ ground (arith, everything)
]
  where
    file : List ℕ
    file = file_bytes m

    size : length file ≡ pos + length (frames pos recs) + length part
    size = omega (
      arith,
      ap length e,
      length-append pre (frames pos recs ++ part),
      length-append (frames pos recs) part,
    )

    nothing : length file ≤ pos → stamped pos recs ≡ []
    nothing short = no_records pos recs (omega (arith, size, length-frames pos recs))

    everything : read_loop (suc (length file)) file pos [] ≡ some (ok (stamped pos recs))
    everything =
        subst (λ bytes. read_loop (suc (length file)) bytes pos [] ≡ some (ok (stamped pos recs)))
          (sym e)
          (read_loop-frames recs pre part pos [] (suc (length file)) f fits tail
            (omega (arith, size, length-frames pos recs)))

step_advances :
    (bytes : List ℕ) (pos pos' : ℕ) (rec : LogRecord)
    → read_step bytes pos ≡ next pos' rec
    → pos < pos'
unfolding read_step
step_advances bytes pos pos' rec e = ground arith

read_loop-ne-none :
    (fuel : ℕ) (bytes : List ℕ) (pos : ℕ) (acc : List LogRecord)
    → length bytes < pos + fuel
    → 0 < fuel
    → read_loop fuel bytes pos acc ≢ none
unfolding read_loop
read_loop-ne-none zero bytes pos acc h k = absurd (omega arith)
read_loop-ne-none (suc fuel) bytes pos acc h k = elim (Bool-cases (leb (length bytes) pos)) [
  | inl over ↦ rw over (λ e. cc)
  | inr more ↦ rw more (
      go (read_step bytes pos) refl (λ pos' rec p.
        read_loop-ne-none fuel bytes pos' (acc ++ (rec ∷ [])) (omega arith) (ground arith)))
]
  where
    go :
        (r : ReadStep)
        → read_step bytes pos ≡ r
        → ((pos' : ℕ) (rec : LogRecord)
            → pos < pos'
            → read_loop fuel bytes pos' (acc ++ (rec ∷ [])) ≢ none)
        → (elim r as (λ _. Option (Result WalError (List LogRecord))) [
          | stop ↦ some (ok acc)
          | throws e ↦ some (err e)
          | next pos' rec ↦ read_loop fuel bytes pos' (acc ++ (rec ∷ []))
        ])
          ≢ none
    go stop e ih = λ f. cc
    go (throws x) e ih = λ f. cc
    go (next pos' rec) e ih = ih pos' rec (step_advances bytes pos pos' rec e)

-- ReadAllRecordsFrom ends on every file and from every start: its loop never runs out of fuel.
pub read_all-ne-none : (m : LogManager) (start : ℕ) → read_all_records_from m start ≢ none
unfolding read_all_records_from
read_all-ne-none m start =
    let file = file_bytes m in
    let from = if ltb start 8 then 8 else start in
    elim (Bool-cases (leb (length file) from)) [
      | inl over ↦ rw over (λ e. cc)
      | inr more ↦
          rw more (read_loop-ne-none (suc (length file)) file from [] (omega arith) (omega arith))
    ]
