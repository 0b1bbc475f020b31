-- ===== src/Wal/Log/Frame.antt =====
-- Frames of recovery/log_manager.cpp in a file: what the two loops see where a whole frame stands,
-- and where one is cut off.
use granite_db.Prelude.{
  ℕ, ◌+◌, ◌-◌, ◌%◌, ◌≤◌, ◌<◌, ◌≡◌, refl, ap, sym, ◌≢◌, false, List, [], ◌∷◌, ◌++◌, arith, ok, some,
  none, length, take, length-append, take-append, drop-append, length-take, take-append_of_le,
  append_assoc, append-nil, le→ltb, ltb, ==_refl,
}
use granite_db.Wal.{LogRecord}
use granite_db.Wal.Bytes.{u32_mod, write_pod, pod_value, length-write_pod, pod_value-write_pod}
use granite_db.Wal.Codec.{serialize_log_record_payload, deserialize_log_record_payload}
use granite_db.Wal.Codec.RoundTrip.{IsStorable, deserialize-serialize}
use granite_db.Wal.Log.{stream_read, frame, stop, next, read_step, scan_step}
use native.Mathlib.Nat.{mod-eq_of_lt}

abbrev pub stamp : ℕ → LogRecord → LogRecord
stamp lsn rec = record rec { lsn = lsn }

abbrev pub payload_of : ℕ → LogRecord → List ℕ
payload_of lsn rec = serialize_log_record_payload (stamp lsn rec)

-- The record can be stored at this LSN, and its frame's size fits 32 bits.
pub record FrameFits (lsn : ℕ) (rec : LogRecord) : Type 0 where
  pub storable : IsStorable (stamp lsn rec)
  pub small : 4 + length (payload_of lsn rec) < u32_mod

pub length-frame :
    (lsn : ℕ) (rec : LogRecord) → length (frame lsn rec) ≡ 4 + length (payload_of lsn rec)
unfolding frame
length-frame lsn rec =
    let size = (4 + length (payload_of lsn rec)) % u32_mod in
    omega (arith, length-append (write_pod 4 size) (payload_of lsn rec), length-write_pod 4 size)

-- A read that ends where its part of the file ends.
pub stream_read-append :
    (pre part post : List ℕ) (pos n : ℕ)
    → length pre ≡ pos
    → length part ≡ n
    → stream_read (pre ++ (part ++ post)) pos n ≡ part
unfolding stream_read
stream_read-append pre part post pos n e f =
    rw (drop-append pre (part ++ post) pos e) (take-append part post n f)

four_less : (n : ℕ) → 4 + n - 4 ≡ n
four_less n = omega arith

length-pos : (xs : List ℕ) → xs ≢ [] → 0 < length xs
length-pos [] h = absurd (h refl)
length-pos (x ∷ xs) h = omega arith

module _ (pre : List ℕ) (rec : LogRecord) (post : List ℕ) (fits : FrameFits (length pre) rec) where
  file : List ℕ
  file = pre ++ (frame (length pre) rec ++ post)

  payload : List ℕ
  payload = payload_of (length pre) rec

  size_read : stream_read file (length pre) 4 ≡ write_pod 4 (4 + length payload)
  unfolding file frame payload
  size_read =
      rw
        (
          mod-eq_of_lt fits.small,
          append_assoc (write_pod 4 (4 + length (payload_of (length pre) rec)))
              (payload_of (length pre) rec) post,
        )
        (stream_read-append pre (write_pod 4 (4 + length payload)) (payload ++ post) (length pre) 4
          refl (length-write_pod 4 (4 + length payload)))

  total_read : pod_value (stream_read file (length pre) 4) ≡ 4 + length payload
  unfolding payload
  total_read = rw size_read (pod_value-write_pod 4 (4 + length payload) (omega (arith, fits.small)))

  payload_read : stream_read file (length pre + 4) (length payload) ≡ payload
  unfolding file frame payload
  payload_read =
      let size = write_pod 4 ((4 + length payload) % u32_mod) in
      rw (append_assoc size payload post, sym (append_assoc pre size (payload ++ post)))
        (stream_read-append (pre ++ size) payload post (length pre + 4) (length payload)
          (omega
            (arith, length-append pre size, length-write_pod 4 ((4 + length payload) % u32_mod)))
          refl)

  length-file : length file ≡ length pre + (4 + length payload) + length post
  unfolding file payload
  length-file = omega (
    arith,
    length-append pre (frame (length pre) rec ++ post),
    length-append (frame (length pre) rec) post,
    length-frame (length pre) rec,
  )

  fits_file : ltb (length file) (length pre + (4 + length payload)) ≡ false
  fits_file = le→ltb (length file) _ (omega (arith, length-file))

  payload_parsed : deserialize_log_record_payload payload ≡ ok (stamp (length pre) rec, [])
  unfolding payload
  payload_parsed =
      rw append-nil at (deserialize-serialize (stamp (length pre) rec) [] fits.storable)

  -- Both loops read a whole frame, and go on behind it.
  pub read_step-frame :
      read_step (pre ++ (frame (length pre) rec ++ post)) (length pre)
      ≡ next (length pre + length (frame (length pre) rec)) (stamp (length pre) rec)
  unfolding read_step file payload
  read_step-frame = rw (
    size_read,
    length-write_pod 4 (4 + length payload),
    pod_value-write_pod 4 (4 + length payload) (omega (arith, fits.small)),
    le→ltb (4 + length payload) 4 (omega arith),
    fits_file,
    four_less (length payload),
    payload_read,
    ==_refl (length payload),
    payload_parsed,
    total_read,
    length-frame (length pre) rec,
  )

  pub scan_step-frame :
      scan_step (pre ++ (frame (length pre) rec ++ post)) (length pre)
      ≡ some (length pre + length (frame (length pre) rec), rec.type)
  unfolding scan_step file payload
  scan_step-frame = rw (
    size_read,
    length-write_pod 4 (4 + length payload),
    pod_value-write_pod 4 (4 + length payload) (omega (arith, fits.small)),
    le→ltb (4 + length payload) 4 (omega arith),
    fits_file,
    four_less (length payload),
    payload_read,
    ==_refl (length payload),
    payload_parsed,
    total_read,
    length-frame (length pre) rec,
  )

pub read_step_at :
    (pre : List ℕ) (rec : LogRecord) (post : List ℕ) (pos : ℕ)
    → length pre ≡ pos
    → FrameFits pos rec
    → read_step (pre ++ (frame pos rec ++ post)) pos
      ≡ next (pos + length (frame pos rec)) (stamp pos rec)
read_step_at pre rec post pos e fits = rw (← e) (read_step-frame pre rec post (rw (← e) at fits))

pub scan_step_at :
    (pre : List ℕ) (rec : LogRecord) (post : List ℕ) (pos : ℕ)
    → length pre ≡ pos
    → FrameFits pos rec
    → scan_step (pre ++ (frame pos rec ++ post)) pos ≡ some (pos + length (frame pos rec), rec.type)
scan_step_at pre rec post pos e fits = rw (← e) (scan_step-frame pre rec post (rw (← e) at fits))

-- A frame's file goes on behind its start.
pub frame_within :
    (pre : List ℕ) (rec : LogRecord) (post : List ℕ) (pos : ℕ)
    → length pre ≡ pos
    → pos < length (pre ++ (frame pos rec ++ post))
frame_within pre rec post pos e = omega (
  arith,
  length-append pre (frame pos rec ++ post),
  length-append (frame pos rec) post,
  length-frame pos rec,
)

-- What a write of a frame that was cut off leaves: a proper part of the frame, from its start.
pub record IsTorn (lsn : ℕ) (part : List ℕ) : Type 0 where
  pub rec : LogRecord
  pub fits : FrameFits lsn rec
  pub missing : List ℕ
  pub cut : missing ≢ []
  pub whole : part ++ missing ≡ frame lsn rec

module _ (pre part : List ℕ) (torn : IsTorn (length pre) part) where
  open torn use {rec, fits, missing, cut, whole}

  read_part : (n : ℕ) → stream_read (pre ++ part) (length pre) n ≡ take n part
  unfolding stream_read
  read_part n = rw (drop-append pre part (length pre) refl)

  short : length part < 4 + length (payload_of (length pre) rec)
  short = omega (
    arith,
    length-append part missing,
    ap length whole,
    length-frame (length pre) rec,
    length-pos missing cut,
  )

  -- Where four bytes are left they are the frame's size.
  part_size : 4 ≤ length part → pod_value (take 4 part) ≡ 4 + length (payload_of (length pre) rec)
  unfolding frame
  part_size h =
      let size = write_pod 4 ((4 + length (payload_of (length pre) rec)) % u32_mod) in
      rw
        (
          sym (take-append_of_le part missing 4 h),
          whole,
          take-append size (payload_of (length pre) rec) 4 (length-write_pod 4 _),
          mod-eq_of_lt fits.small,
        )
        (pod_value-write_pod 4 (4 + length (payload_of (length pre) rec))
          (omega (arith, fits.small)))

  torn_length : length (pre ++ part) ≡ length pre + length part
  torn_length = length-append pre part

  -- Both loops stop at a torn frame.
  pub read_step-torn : read_step (pre ++ part) (length pre) ≡ stop
  unfolding read_step
  read_step-torn =
      rw (read_part 4, torn_length) (ground (arith, part_size, short, length-take 4 part))

  pub scan_step-torn : scan_step (pre ++ part) (length pre) ≡ none
  unfolding scan_step
  scan_step-torn =
      rw (read_part 4, torn_length) (ground (arith, part_size, short, length-take 4 part))
