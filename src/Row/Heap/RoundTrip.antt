-- ===== src/Row/Heap/RoundTrip.antt =====
-- Reading back the heap tuples of storage/heap_tuple_codec.h.
use granite_db.Prelude.{
  ℕ, ◌+◌, ◌-◌, ◌/◌, ◌%◌, ◌^◌, ◌≤◌, ◌<◌, ◌≡◌, refl, sym, ap, subst, ◌∙◌, true, false, not, List, [],
  ◌++◌, ok, length, take, drop, ltb, ◌==◌, ==_iff, arith, All, append_assoc, append-nil,
  length-append, take-append, drop-append, le→ltb,
}
use native.Mathlib.Nat.{mod-eq_of_lt}
use granite_db.Wal.Bytes.{write_pod, pod_value, length-write_pod, pod_value-write_pod}
use granite_db.Row.{buffer_underflow, Value, Schema, validate_against_schema}
use granite_db.Row.Bytes.{Fits}
use granite_db.Row.Bitmap.{zeros}
use granite_db.Row.Columns.{
  payload_bytes, read_columns, typed_nulls, payload_bytes-write_columns, read_columns-write_columns,
}
use granite_db.Row.Tuple.{
  null_bitmap, length-null_bitmap, null_bitmap-Marks, validate_against_schema-ok,
}
use granite_db.Row.Heap.{
  HeapTupleHeader, header_size, header_bytes, header_of_bytes, new_header, encode, read_header,
  decode_columns, decode, is_deleted, mark_deleted,
}

-- The members of a header fit their types.
unfoldable pub IsHeader : HeapTupleHeader → Type 0
IsHeader h =
    (h.total_length < 256 ^ 4)
    × (h.null_bitmap_offset < 256 ^ 2)
    × (h.column_count < 256 ^ 2)
    × (h.deleted < 256 ^ 1)
    × (length h.reserved ≡ 3)

pub length-header_bytes : (h : HeapTupleHeader) → IsHeader h → length (header_bytes h) ≡ header_size
unfolding header_bytes IsHeader
length-header_bytes h k = omega (
  arith,
  length-append {0},
  length-write_pod 4 h.total_length,
  length-write_pod 2 h.null_bitmap_offset,
  length-write_pod 2 h.column_count,
  length-write_pod 1 h.deleted,
)

header_of_bytes-header_bytes :
    (h : HeapTupleHeader) (rest : List ℕ)
    → IsHeader h
    → header_of_bytes (header_bytes h ++ rest) ≡ h
unfolding header_of_bytes header_bytes IsHeader write_pod pod_value
header_of_bytes-header_bytes h rest k = ground (
  arith,
  take-append h.reserved rest 3 k.4,
  pod_value-write_pod 4 h.total_length k.0,
  pod_value-write_pod 2 h.null_bitmap_offset k.1,
  pod_value-write_pod 2 h.column_count k.2,
  pod_value-write_pod 1 h.deleted k.3,
)

-- The bitmap and the columns, between a head and what follows the tuple.
module _ (head bitmap payload rest : List ℕ) where
  bitmap_part :
      (n : ℕ)
      → length bitmap ≡ n
      → take n (drop (length head) ((head ++ (bitmap ++ payload)) ++ rest)) ≡ bitmap
  bitmap_part n e =
      rw
        (
          append_assoc head (bitmap ++ payload) rest,
          drop-append head ((bitmap ++ payload) ++ rest) (length head) refl,
          append_assoc bitmap payload rest,
        )
        (take-append bitmap (payload ++ rest) n e)

  payload_part :
      (n total : ℕ)
      → length head + length bitmap ≡ n
      → length head + (length bitmap + length payload) ≡ total
      → drop n (take total ((head ++ (bitmap ++ payload)) ++ rest)) ≡ payload
  payload_part n total e e' =
      rw
        (
          take-append (head ++ (bitmap ++ payload)) rest total
              (omega (arith, length-append head (bitmap ++ payload), length-append bitmap payload)),
          ← append_assoc head bitmap payload,
        )
        (drop-append (head ++ bitmap) payload n (omega (arith, length-append head bitmap)))

-- A header in front of a body that it measures is read back.
pub read_header-header_bytes :
    (h : HeapTupleHeader) (body : List ℕ)
    → IsHeader h
    → header_size ≤ h.total_length
    → read_header (header_bytes h ++ body) ≡ ok h
unfolding read_header
read_header-header_bytes h body k le = rw (
  header_of_bytes-header_bytes h body k,
  le→ltb (length (header_bytes h ++ body)) header_size
      (omega (arith, length-append (header_bytes h) body, length-header_bytes h k)),
  le→ltb h.total_length header_size le,
)

decode_columns_parts :
    (schema : Schema) (h : HeapTupleHeader) (bitmap payload rest : List ℕ)
    → IsHeader h
    → h.null_bitmap_offset ≡ header_size
    → h.total_length ≡ header_size + (length bitmap + length payload)
    → length bitmap ≡ (h.column_count + 7) / 8
    → decode_columns schema h ((header_bytes h ++ (bitmap ++ payload)) ++ rest)
      ≡ read_columns buffer_underflow buffer_underflow bitmap 0 schema payload
unfolding decode_columns
decode_columns_parts schema h bitmap payload rest k off total bm =
    let body = bitmap ++ payload in
    let n : ℕ = (h.column_count + 7) / 8 in
    let fits : ltb h.total_length (h.null_bitmap_offset + n) ≡ false =
      le→ltb h.total_length (h.null_bitmap_offset + n) (omega arith) in
    let bytes = (header_bytes h ++ body) ++ rest in
    let bits : take n (drop h.null_bitmap_offset bytes) ≡ bitmap =
      ap (λ k. take n (drop k bytes)) (off ∙ sym (length-header_bytes h k))
      ∙ bitmap_part (header_bytes h) bitmap payload rest n bm in
    let columns : drop (header_size + n) (take h.total_length bytes) ≡ payload =
      payload_part (header_bytes h) bitmap payload rest (header_size + n) h.total_length
        (omega (arith, length-header_bytes h k)) (omega (arith, length-header_bytes h k)) in
    rw (fits, bits, columns)

decode_parts :
    (schema : Schema) (h : HeapTupleHeader) (bitmap payload rest : List ℕ)
    → IsHeader h
    → h.null_bitmap_offset ≡ header_size
    → h.total_length ≡ header_size + (length bitmap + length payload)
    → length bitmap ≡ (h.column_count + 7) / 8
    → h.column_count ≡ length schema
    → decode schema ((header_bytes h ++ (bitmap ++ payload)) ++ rest)
      ≡ read_columns buffer_underflow buffer_underflow bitmap 0 schema payload
unfolding decode
decode_parts schema h bitmap payload rest k off total bm e =
    let bytes = (header_bytes h ++ (bitmap ++ payload)) ++ rest in
    let head : read_header bytes ≡ ok h =
      rw (append_assoc (header_bytes h) (bitmap ++ payload) rest)
        (read_header-header_bytes h ((bitmap ++ payload) ++ rest) k (omega arith)) in
    let enough : ltb (length bytes) h.total_length ≡ false = le→ltb (length bytes) h.total_length (
      omega (
        arith,
        length-append (header_bytes h ++ (bitmap ++ payload)) rest,
        length-append (header_bytes h) (bitmap ++ payload),
        length-append bitmap payload,
        length-header_bytes h k,
      )) in
    let count : (h.column_count == length schema) ≡ true =
      (==_iff h.column_count (length schema)).1 e in
    rw (head, enough, count) (decode_columns_parts schema h bitmap payload rest k off total bm)

mark_deleted-header :
    (h : HeapTupleHeader) (body rest : List ℕ)
    → IsHeader h
    → header_size ≤ h.total_length
    → mark_deleted ((header_bytes h ++ body) ++ rest)
      ≡ ok ((header_bytes (record h { deleted = 1 }) ++ body) ++ rest)
unfolding mark_deleted
mark_deleted-header h body rest k le =
    rw (append_assoc (header_bytes h) body rest, read_header-header_bytes h (body ++ rest) k le)
      (ap ok (
        ap (λ l. header_bytes (record h { deleted = 1 }) ++ l)
          (drop-append (header_bytes h) (body ++ rest) header_size (length-header_bytes h k))
        ∙ sym (append_assoc (header_bytes (record h { deleted = 1 })) body rest)))

is_deleted-header :
    (h : HeapTupleHeader) (body rest : List ℕ)
    → IsHeader h
    → header_size ≤ h.total_length
    → is_deleted ((header_bytes h ++ body) ++ rest) ≡ ok (not (h.deleted == 0))
unfolding is_deleted
is_deleted-header h body rest k le =
    rw (append_assoc (header_bytes h) body rest, read_header-header_bytes h (body ++ rest) k le)

-- A valid tuple of a schema with less than 2^16 columns, whose encoding is not longer than 2^32 - 1
-- bytes, is encoded, and decoding the bytes, whatever follows them, gives it back, with each null
-- in the type of its column; also after MarkDeleted, which IsDeleted sees.
pub decode-encode :
    (schema : Schema) (vs : List Value) (rest : List ℕ) (size : ℕ)
    → validate_against_schema schema vs ≡ ok tt
    → All Fits vs
    → length schema < 2 ^ 16
    → payload_bytes schema vs ≡ ok size
    → header_size + (length schema + 7) / 8 + size < 2 ^ 32
    → (bytes : List ℕ) × (encode schema vs ≡ ok bytes)
      × (decode schema (bytes ++ rest) ≡ ok (typed_nulls schema vs))
      × ((marked : List ℕ) × (mark_deleted (bytes ++ rest) ≡ ok marked)
          × (is_deleted marked ≡ ok true)
          × (decode schema marked ≡ ok (typed_nulls schema vs)))
unfolding encode new_header IsHeader zeros
decode-encode schema vs rest size h f small p fits =
    let (n, valid) = validate_against_schema-ok schema vs h in
    let count : ℕ = length schema % 2 ^ 16 in
    let same : count ≡ length schema = mod-eq_of_lt small in
    let bitmap = null_bitmap count vs in
    let (payload, w, r) =
      read_columns-write_columns buffer_underflow buffer_underflow schema vs bitmap 0 [] valid n f
        (null_bitmap-Marks vs count (same ∙ sym n)) in
    let sized : size ≡ length payload =
      ground (arith, payload_bytes-write_columns schema vs payload w) in
    let total : ℕ = header_size + (count + 7) / 8 + size in
    let hdr = new_header total count in
    let marked : HeapTupleHeader = record hdr { deleted = 1 } in
    let bm : length bitmap ≡ (count + 7) / 8 = length-null_bitmap count vs in
    let room : total < 2 ^ 32 =
      subst (λ (c : ℕ). header_size + (c + 7) / 8 + size < 2 ^ 32) (sym same) fits in
    let k : IsHeader hdr = (omega arith, omega arith, omega arith, omega arith, refl) in
    let k' : IsHeader marked = (omega arith, omega arith, omega arith, omega arith, refl) in
    let measured : total ≡ header_size + (length bitmap + length payload) = omega arith in
    let body = bitmap ++ payload in
    let read =
      subst
        (λ l.
          read_columns buffer_underflow buffer_underflow bitmap 0 schema l
          ≡ ok (typed_nulls schema vs))
        (append-nil payload) r in
    (
      header_bytes hdr ++ body,
      rw (h, p, le→ltb (2 ^ 32 - 1) total (omega arith), w),
      decode_parts schema hdr bitmap payload rest k refl measured bm same ∙ read,
      (
        (header_bytes marked ++ body) ++ rest,
        mark_deleted-header hdr body rest k (omega arith),
        is_deleted-header marked body rest k' (omega arith),
        decode_parts schema marked bitmap payload rest k' refl measured bm same ∙ read,
      ),
    )
