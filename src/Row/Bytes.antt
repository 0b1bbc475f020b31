-- ===== src/Row/Bytes.antt =====
-- How common/tuple.h, storage/heap_tuple_codec.h and the key codecs copy a value to bytes and back.
-- A reader is the list of the bytes that are left.
use granite_db.Prelude.{
  ℕ, ◌%◌, ◌^◌, ◌<◌, ◌≡◌, refl, false, List, ◌++◌, Result, ok, err, ◌>>=◌, length, take, drop, ltb,
  if◌then◌else◌, arith, le→ltb, length-append, take-append, drop-append, append_assoc,
}
use native.Mathlib.Nat.{mod-eq_of_lt}
use granite_db.Wal.Bytes.{
  u32_mod, write_pod, pod_value, bool_byte, byte_bool, length-write_pod, pod_value-write_pod,
  byte_bool-bool_byte, bool_byte-lt,
}
use granite_db.Row.{
  TypeId, invalid, boolean, int32, int64, double, varchar, RowError, unsupported_type, Value, null,
  of_bool, of_int32, of_int64, of_double, of_string, get_type_id, is_null, as_bool, as_int32,
  as_int64, as_double, as_string,
}

-- The bytes of a value that is not null, by the column's type.
unfoldable pub value_bytes : TypeId → Value → Result RowError (List ℕ)
value_bytes boolean v = as_bool v >>= λ x. ok (write_pod 1 (bool_byte x))
value_bytes int32 v = as_int32 v >>= λ x. ok (write_pod 4 x)
value_bytes int64 v = as_int64 v >>= λ x. ok (write_pod 8 x)
value_bytes double v = as_double v >>= λ x. ok (write_pod 8 x)
value_bytes varchar v = as_string v >>= λ s. ok (write_pod 4 (length s % u32_mod) ++ s)
value_bytes invalid v = err unsupported_type

module _ (underflow bad_string : RowError) where
  -- `size` bytes, or the exception `underflow` where fewer are left.
  unfoldable pub read_value_pod : ℕ → List ℕ → Result RowError (ℕ × List ℕ)
  read_value_pod size bytes =
      if ltb (length bytes) size
      then err underflow
      else ok (pod_value (take size bytes), drop size bytes)

  unfoldable pub read_string : List ℕ → Result RowError (Value × List ℕ)
  unfolding read_value_pod
  read_string bytes = do
    (slen, rest) ← read_value_pod 4 bytes
    if ltb (length rest) slen
        then err bad_string
        else ok (of_string (take slen rest), drop slen rest)

  unfoldable pub read_value : TypeId → List ℕ → Result RowError (Value × List ℕ)
  read_value boolean bytes =
      read_value_pod 1 bytes >>= λ (x, rest). ok (of_bool (byte_bool x), rest)
  read_value int32 bytes = read_value_pod 4 bytes >>= λ (x, rest). ok (of_int32 x, rest)
  read_value int64 bytes = read_value_pod 8 bytes >>= λ (x, rest). ok (of_int64 x, rest)
  read_value double bytes = read_value_pod 8 bytes >>= λ (x, rest). ok (of_double x, rest)
  read_value varchar bytes = read_string bytes
  read_value invalid bytes = err unsupported_type

-- The value fits its C++ type; a string is shorter than 2^32.
unfoldable pub Fits : Value → Type 0
Fits (of_int32 n) = n < 256 ^ 4
Fits (of_int64 n) = n < 256 ^ 8
Fits (of_double n) = n < 256 ^ 8
Fits (of_string s) = length s < u32_mod
Fits _ = Unit {0}

module _ (underflow bad_string : RowError) where
  pub read_value_pod-write_pod :
      (size v : ℕ) (rest : List ℕ)
      → v < 256 ^ size
      → read_value_pod underflow bad_string size (write_pod size v ++ rest) ≡ ok (v, rest)
  unfolding read_value_pod
  read_value_pod-write_pod size v rest h = rw (
    le→ltb (length (write_pod size v ++ rest)) size
        (omega (arith, length-append (write_pod size v) rest, length-write_pod size v)),
    take-append (write_pod size v) rest size (length-write_pod size v),
    drop-append (write_pod size v) rest size (length-write_pod size v),
    pod_value-write_pod size v h,
  )

  read_string_lem :
      (s rest : List ℕ)
      → length s < u32_mod
      → read_string underflow bad_string ((write_pod 4 (length s % u32_mod) ++ s) ++ rest)
        ≡ ok (of_string s, rest)
  unfolding read_string
  read_string_lem s rest h = rw (
    append_assoc (write_pod 4 (length s % u32_mod)) s rest,
    read_value_pod-write_pod 4 (length s % u32_mod) (s ++ rest) (omega arith),
    mod-eq_of_lt h,
    le→ltb (length (s ++ rest)) (length s) (omega (arith, length-append s rest)),
    take-append s rest (length s) refl,
    drop-append s rest (length s) refl,
  )

  -- Reading a value gives back what was written of it, and leaves what follows.
  pub read_value-value_bytes :
      (v : Value) (rest : List ℕ)
      → Fits v
      → is_null v ≡ false
      → (bytes : List ℕ) × (value_bytes (get_type_id v) v ≡ ok bytes)
        × (read_value underflow bad_string (get_type_id v) (bytes ++ rest) ≡ ok (v, rest))
  unfolding read_value value_bytes Fits is_null get_type_id as_bool as_int32 as_int64 as_double
      as_string
  read_value-value_bytes (null t) rest h n = cc
  read_value-value_bytes (of_bool b) rest h n = (
    write_pod 1 (bool_byte b),
    refl,
    rw (read_value_pod-write_pod 1 (bool_byte b) rest (bool_byte-lt b), byte_bool-bool_byte b),
  )
  read_value-value_bytes (of_int32 x) rest h n =
      (write_pod 4 x, refl, rw (read_value_pod-write_pod 4 x rest h))
  read_value-value_bytes (of_int64 x) rest h n =
      (write_pod 8 x, refl, rw (read_value_pod-write_pod 8 x rest h))
  read_value-value_bytes (of_double x) rest h n =
      (write_pod 8 x, refl, rw (read_value_pod-write_pod 8 x rest h))
  read_value-value_bytes (of_string s) rest h n =
      (write_pod 4 (length s % u32_mod) ++ s, refl, read_string_lem s rest h)
