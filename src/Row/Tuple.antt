-- ===== src/Row/Tuple.antt =====
-- Tuple::Serialize and Tuple::Deserialize of common/tuple.h. A tuple is the list of its values.
use granite_db.Prelude.{
  ℕ, ◌+◌, ◌/◌, ◌%◌, ◌^◌, ◌<◌, ◌≡◌, sym, ap, subst, ◌∙◌, true, not, List, ◌++◌, Result, ok, err,
  ◌>>=◌, length, take, drop, ltb, ==_iff, ◌==◌, if◌then◌else◌, arith, All, append_assoc,
  length-append, take-append, drop-append, le→ltb, none, some, get_elem?,
}
use native.Mathlib.Nat.{mod-eq_of_lt}
use granite_db.Wal.Bytes.{write_pod}
use granite_db.Row.{
  RowError, column_out_of_range, column_count_mismatch, buffer_underflow, bad_string_length, Value,
  Schema, validate_values, validate_against_schema,
}
use granite_db.Row.Bytes.{read_value_pod, read_value_pod-write_pod, Fits}
use granite_db.Row.Bitmap.{
  Marks, mark_nulls, zeros, length-zeros, length-mark_nulls, mark_nulls-Marks,
}
use granite_db.Row.Columns.{write_columns, read_columns, typed_nulls, read_columns-write_columns}

unfoldable pub get_value : List Value → ℕ → Result RowError Value
get_value values index = elim (get_elem? values index) [
  | none ↦ err column_out_of_range
  | some v ↦ ok v
]

-- The bitmap of a row, for the column count as it is stored.
unfoldable pub null_bitmap : ℕ → List Value → List ℕ
unfolding mark_nulls zeros
null_bitmap column_count values = mark_nulls 0 values (zeros ((column_count + 7) / 8))

unfoldable pub serialize : Schema → List Value → Result RowError (List ℕ)
serialize schema values = do
  _ ← validate_against_schema schema values
  let column_count = length values % 2 ^ 16
  payload ← write_columns schema values
  ok (write_pod 2 column_count ++ (null_bitmap column_count values ++ payload))

-- The reading of the bitmap and of the columns, behind the column count.
unfoldable pub deserialize_columns : Schema → List ℕ → Result RowError (List Value)
deserialize_columns schema bytes =
    let bitmap_bytes = (length schema + 7) / 8 in
    if ltb (length bytes) bitmap_bytes
    then err buffer_underflow
    else read_columns buffer_underflow bad_string_length (take bitmap_bytes bytes) 0 schema
        (drop bitmap_bytes bytes)

unfoldable pub deserialize : Schema → List ℕ → Result RowError (List Value)
unfolding deserialize_columns
deserialize schema bytes = do
  (column_count, rest) ← read_value_pod buffer_underflow bad_string_length 2 bytes
  if not (column_count == length schema)
      then err column_count_mismatch
      else deserialize_columns schema rest

pub length-null_bitmap :
    (column_count : ℕ) (vs : List Value)
    → length (null_bitmap column_count vs) ≡ (column_count + 7) / 8
unfolding null_bitmap
length-null_bitmap column_count vs =
    length-mark_nulls 0 vs (zeros ((column_count + 7) / 8)) ∙ length-zeros ((column_count + 7) / 8)

pub null_bitmap-Marks :
    (vs : List Value) (count : ℕ) → count ≡ length vs → Marks (null_bitmap count vs) 0 vs
unfolding null_bitmap
null_bitmap-Marks vs count e =
    subst (λ k. Marks (mark_nulls 0 vs (zeros ((k + 7) / 8))) 0 vs) (sym e) (mark_nulls-Marks vs)

-- What the validation says of the lengths and of the values.
pub validate_against_schema-ok :
    (schema : Schema) (vs : List Value)
    → validate_against_schema schema vs ≡ ok tt
    → (length vs ≡ length schema) × (validate_values schema vs ≡ ok tt)
unfolding validate_against_schema
validate_against_schema-ok schema vs h =
    (ground (arith, ==_iff (length vs) (length schema)), ground arith)

pub deserialize_columns-append :
    (schema : Schema) (bitmap payload : List ℕ)
    → length bitmap ≡ (length schema + 7) / 8
    → deserialize_columns schema (bitmap ++ payload)
      ≡ read_columns buffer_underflow bad_string_length bitmap 0 schema payload
unfolding deserialize_columns
deserialize_columns-append schema bitmap payload e = rw (
  le→ltb (length (bitmap ++ payload)) ((length schema + 7) / 8)
      (omega (arith, length-append bitmap payload)),
  take-append bitmap payload ((length schema + 7) / 8) e,
  drop-append bitmap payload ((length schema + 7) / 8) e,
)

deserialize_parts :
    (schema : Schema) (bitmap payload rest : List ℕ) (count : ℕ)
    → count ≡ length schema
    → length bitmap ≡ (length schema + 7) / 8
    → count < 2 ^ 16
    → deserialize schema ((write_pod 2 count ++ (bitmap ++ payload)) ++ rest)
      ≡ read_columns buffer_underflow bad_string_length bitmap 0 schema (payload ++ rest)
unfolding deserialize
deserialize_parts schema bitmap payload rest count e n small =
    let test : (count == length schema) ≡ true = (==_iff count (length schema)).1 e in
    rw
      (
        append_assoc (write_pod 2 count) (bitmap ++ payload) rest,
        append_assoc bitmap payload rest,
        read_value_pod-write_pod buffer_underflow bad_string_length 2 count
            (bitmap ++ (payload ++ rest)) (omega arith),
        test,
      )
      (deserialize_columns-append schema bitmap (payload ++ rest) n)

-- A valid tuple of a schema with less than 2^16 columns is serialized, and deserializing the bytes,
-- whatever follows them, gives it back, with each null in the type of its column.
pub deserialize-serialize_tuple :
    (schema : Schema) (vs : List Value) (rest : List ℕ)
    → validate_against_schema schema vs ≡ ok tt
    → All Fits vs
    → length schema < 2 ^ 16
    → (bytes : List ℕ) × (serialize schema vs ≡ ok bytes)
      × (deserialize schema (bytes ++ rest) ≡ ok (typed_nulls schema vs))
unfolding serialize deserialize
deserialize-serialize_tuple schema vs rest h f small =
    let (n, valid) = validate_against_schema-ok schema vs h in
    let count : ℕ = length vs % 2 ^ 16 in
    let same : count ≡ length vs = mod-eq_of_lt (omega arith) in
    let bitmap = null_bitmap count vs in
    let (payload, w, r) =
      read_columns-write_columns buffer_underflow bad_string_length schema vs bitmap 0 rest valid n
        f (null_bitmap-Marks vs count same) in
    (
      write_pod 2 count ++ (bitmap ++ payload),
      rw (h, w),
      deserialize_parts schema bitmap payload rest count (same ∙ n)
            (length-null_bitmap count vs ∙ ap (λ (k : ℕ). (k + 7) / 8) (same ∙ n)) (omega arith)
          ∙ r,
    )
