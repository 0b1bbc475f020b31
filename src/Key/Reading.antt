-- ===== src/Key/Reading.antt =====
-- ReadValue of access/composite_key_codec.cpp on what EncodeKey wrote: keys shorter than 2^32 bytes,
-- where its positions do not wrap.
use granite_db.Prelude.{
  ℕ, ◌+◌, ◌%◌, ◌^◌, ◌<◌, ◌≡◌, refl, ap, subst, sym, ◌∙◌, false, List, ◌++◌, ok, length, take, drop,
  arith, le→ltb, length-append, take-append, drop-append, append_assoc,
}
use native.Mathlib.Nat.{mod-eq_of_lt}
use granite_db.Wal.Bytes.{
  u32_mod, write_pod, bool_byte, length-write_pod, pod_value-write_pod, byte_bool-bool_byte,
  bool_byte-lt,
}
use granite_db.Row.{
  Value, null, of_bool, of_int32, of_int64, of_double, of_string, get_type_id, is_null, as_bool,
  as_int32, as_int64, as_double, as_string,
}
use granite_db.Row.Bytes.{value_bytes, Fits}
use granite_db.Key.Composite.{read_pod_at, read_string_at, read_value_at}

-- The bytes `part` stand at `pos` of a key that is shorter than 2^32.
pub record Holds (key : List ℕ) (pos : ℕ) (part : List ℕ) : Type 0 where
  pub before : List ℕ
  pub after : List ℕ
  pub whole : key ≡ before ++ (part ++ after)
  pub at : length before ≡ pos
  pub short : length key < u32_mod

module _ {key part : List ℕ} {pos : ℕ} (h : Holds key pos part) where
  pub Holds-end : pos + length part + length h.after ≡ length key
  Holds-end = omega (
    arith,
    ap length h.whole,
    length-append h.before (part ++ h.after),
    length-append part h.after,
    h.at,
  )

  pub Holds-taken : take (length part) (drop pos key) ≡ part
  Holds-taken =
      ap (λ l. take (length part) (drop pos l)) h.whole
      ∙ ap (take (length part)) (drop-append h.before (part ++ h.after) pos h.at)
      ∙ take-append part h.after (length part) refl

pub Holds-left : {key : List ℕ} {pos : ℕ} (l r : List ℕ) → Holds key pos (l ++ r) → Holds key pos l
Holds-left l r h = record {
  before = h.before;
  after = r ++ h.after;
  whole = h.whole ∙ ap (◌++◌ h.before) (append_assoc l r h.after);
  at = h.at;
  short = h.short;
}

pub Holds-right :
    {key : List ℕ} {pos : ℕ} (l r : List ℕ) → Holds key pos (l ++ r) → Holds key (pos + length l) r
Holds-right l r h = record {
  before = h.before ++ l;
  after = h.after;
  whole =
      h.whole
      ∙ ap (◌++◌ h.before) (append_assoc l r h.after)
      ∙ sym (append_assoc h.before l (r ++ h.after));
  at = omega (arith, length-append h.before l, h.at);
  short = h.short;
}

read_pod_at-write_pod :
    {key : List ℕ} {pos : ℕ} (size v : ℕ)
    → Holds key pos (write_pod size v)
    → v < 256 ^ size
    → read_pod_at key (length key) pos size ≡ ok (v, pos + size)
unfolding read_pod_at
read_pod_at-write_pod {key} {pos} size v h fits =
    let n = length-write_pod size v in
    let taken : take size (drop pos key) ≡ write_pod size v =
      subst (λ k. take k (drop pos key) ≡ write_pod size v) n (Holds-taken h) in
    let below : pos + size < u32_mod = omega (arith, Holds-end h, n, h.short) in
    rw (
      le→ltb (length key) (pos + size) (omega (arith, Holds-end h, n)),
      taken,
      pod_value-write_pod size v fits,
      mod-eq_of_lt below,
    )

read_string_at-written :
    {key : List ℕ} {pos : ℕ} (s : List ℕ)
    → Holds key pos (write_pod 4 (length s % u32_mod) ++ s)
    → length s < u32_mod
    → read_string_at key (length key) pos ≡ ok (of_string s, pos + (4 + length s))
unfolding read_string_at
read_string_at-written {key} {pos} s h fits =
    let size = write_pod 4 (length s % u32_mod) in
    let n : length size ≡ 4 = length-write_pod 4 (length s % u32_mod) in
    let chars = subst (λ k. Holds key (pos + k) s) n (Holds-right size s h) in
    let below : pos + 4 + length s < u32_mod = omega (arith, Holds-end chars, chars.short) in
    rw
      (
        read_pod_at-write_pod 4 (length s % u32_mod) (Holds-left size s h) (omega arith),
        mod-eq_of_lt fits,
        mod-eq_of_lt below,
        le→ltb (length key) (pos + 4 + length s) (omega (arith, Holds-end chars)),
        Holds-taken chars,
      )
      (ap (λ k. ok (of_string s, k)) (omega arith))

-- Reading a value at the place where it was written gives it back, and moves behind it.
pub read_value_at-value_bytes :
    {key : List ℕ} {pos : ℕ} (v : Value) (written : List ℕ)
    → Fits v
    → is_null v ≡ false
    → value_bytes (get_type_id v) v ≡ ok written
    → Holds key pos written
    → read_value_at key (length key) pos (get_type_id v) ≡ ok (v, pos + length written)
unfolding read_value_at value_bytes Fits is_null get_type_id as_bool as_int32 as_int64 as_double
    as_string
read_value_at-value_bytes (null t) written f n e h = cc
read_value_at-value_bytes {key} {pos} (of_bool b) written f n e h =
    let same : written ≡ write_pod 1 (bool_byte b) = ground arith in
    let read =
      read_pod_at-write_pod 1 (bool_byte b) (subst (Holds key pos) same h) (bool_byte-lt b) in
    rw (read, byte_bool-bool_byte b, same, length-write_pod 1 (bool_byte b))
read_value_at-value_bytes {key} {pos} (of_int32 x) written f n e h =
    let same : written ≡ write_pod 4 x = ground arith in
    rw (read_pod_at-write_pod 4 x (subst (Holds key pos) same h) f, same, length-write_pod 4 x)
read_value_at-value_bytes {key} {pos} (of_int64 x) written f n e h =
    let same : written ≡ write_pod 8 x = ground arith in
    rw (read_pod_at-write_pod 8 x (subst (Holds key pos) same h) f, same, length-write_pod 8 x)
read_value_at-value_bytes {key} {pos} (of_double x) written f n e h =
    let same : written ≡ write_pod 8 x = ground arith in
    rw (read_pod_at-write_pod 8 x (subst (Holds key pos) same h) f, same, length-write_pod 8 x)
read_value_at-value_bytes {key} {pos} (of_string s) written f n e h =
    let size = write_pod 4 (length s % u32_mod) in
    let same : written ≡ size ++ s = ground arith in
    rw (
      read_string_at-written s (subst (Holds key pos) same h) f,
      same,
      length-append size s,
      length-write_pod 4 (length s % u32_mod),
    )
