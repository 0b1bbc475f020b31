-- ===== src/Row/Heap.antt =====
-- HeapTupleCodec of storage/heap_tuple_codec.h. The output buffer, which the source allocates with
-- its final length and fills from front to back, is the concatenation of what is written.
pub mod RoundTrip
use granite_db.Prelude.{
  ℕ, zero, suc, ◌+◌, ◌-◌, ◌/◌, ◌%◌, ◌^◌, ◌<◌, Bool, true, false, not, List, [], ◌∷◌, ◌++◌, Result,
  ok, err, ◌>>=◌, length, take, drop, ltb, ◌==◌, if◌then◌else◌,
}
use granite_db.Wal.Bytes.{write_pod, pod_value}
use granite_db.Row.{
  RowError, tuple_too_large, tuple_too_small, bad_header, length_exceeds, column_count_mismatch,
  bad_null_bitmap, buffer_underflow, Value, Schema, validate_against_schema,
}
use granite_db.Row.Bitmap.{zeros}
use granite_db.Row.Columns.{write_columns, payload_bytes, read_columns}
use granite_db.Row.Tuple.{null_bitmap}

pub record HeapTupleHeader : Type 0 where
  pub total_length : ℕ
  pub null_bitmap_offset : ℕ
  pub column_count : ℕ
  pub deleted : ℕ
  pub reserved : List ℕ

-- sizeof(HeapTupleHeader).
abbrev pub header_size : ℕ
header_size = 12

-- The header in memory: its members in order, without padding.
unfoldable pub header_bytes : HeapTupleHeader → List ℕ
header_bytes h =
    write_pod 4 h.total_length
    ++ (write_pod 2 h.null_bitmap_offset
        ++ (write_pod 2 h.column_count ++ (write_pod 1 h.deleted ++ h.reserved)))

unfoldable pub header_of_bytes : List ℕ → HeapTupleHeader
header_of_bytes bytes = record {
  total_length = pod_value (take 4 bytes);
  null_bitmap_offset = pod_value (take 2 (drop 4 bytes));
  column_count = pod_value (take 2 (drop 6 bytes));
  deleted = pod_value (take 1 (drop 8 bytes));
  reserved = take 3 (drop 9 bytes);
}

unfoldable pub new_header : ℕ → ℕ → HeapTupleHeader
new_header total_length column_count = record {
  total_length = total_length;
  null_bitmap_offset = header_size;
  column_count = column_count;
  deleted = 0;
  reserved = zeros 3;
}

unfoldable pub encode : Schema → List Value → Result RowError (List ℕ)
encode schema values = do
  _ ← validate_against_schema schema values
  size ← payload_bytes schema values
  let column_count = length schema % 2 ^ 16
  let total_len = header_size + (column_count + 7) / 8 + size
  if ltb (2 ^ 32 - 1) total_len then err tuple_too_large else (do
    payload ← write_columns schema values
    ok (
        header_bytes (new_header total_len column_count)
        ++ (null_bitmap column_count values ++ payload)))

unfoldable pub read_header : List ℕ → Result RowError HeapTupleHeader
read_header bytes =
    let hdr = header_of_bytes bytes in
    if ltb (length bytes) header_size
    then err tuple_too_small
    else if ltb hdr.total_length header_size
    then err bad_header
    else ok hdr

-- The columns of a tuple whose header was read: EnsureAvailable looks at `total_length`.
unfoldable pub decode_columns : Schema → HeapTupleHeader → List ℕ → Result RowError (List Value)
decode_columns schema hdr bytes =
    let bitmap_bytes = (hdr.column_count + 7) / 8 in
    if ltb hdr.total_length (hdr.null_bitmap_offset + bitmap_bytes)
    then err bad_null_bitmap
    else read_columns buffer_underflow buffer_underflow
        (take bitmap_bytes (drop hdr.null_bitmap_offset bytes)) 0 schema
        (drop (header_size + bitmap_bytes) (take hdr.total_length bytes))

unfoldable pub decode : Schema → List ℕ → Result RowError (List Value)
decode schema bytes = do
  hdr ← read_header bytes
  if ltb (length bytes) hdr.total_length
      then err length_exceeds
      else if not (hdr.column_count == length schema)
      then err column_count_mismatch
      else decode_columns schema hdr bytes

unfoldable pub get_stored_length : List ℕ → Result RowError ℕ
get_stored_length bytes = read_header bytes >>= λ hdr. ok hdr.total_length

unfoldable pub is_deleted : List ℕ → Result RowError Bool
is_deleted bytes = read_header bytes >>= λ hdr. ok (not (hdr.deleted == 0))

unfoldable pub mark_deleted : List ℕ → Result RowError (List ℕ)
mark_deleted bytes = read_header bytes >>= λ hdr.
    ok (header_bytes (record hdr { deleted = 1 }) ++ drop header_size bytes)
