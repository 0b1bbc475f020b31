-- ===== src/Tests/Rows.antt =====
-- The encodings of common/tuple.h, storage/heap_tuple_codec.h and access/composite_key_codec.cpp, and
-- execution/expressions.h, on small rows.
use granite_db.Row.Bitmap.{zeros}
use granite_db.Wal.Bytes.{write_pod, bool_byte, pod_value}
use granite_db.Prelude.{
  ℕ, ◌+◌, ◌/◌, ◌≡◌, ◌≢◌, refl, true, false, List, [], ◌∷◌, ◌++◌, none, some, ok, err, arith, ltb,
  ◌==◌, ◌>>=◌, inr, inl,
}
use granite_db.Row.{
  boolean, int32, int64, varchar, Value, null, of_bool, of_int32, of_int64, of_string, Schema,
  division_by_zero, validate_against_schema, is_null, as_int32, as_bool, get_type_id, type_id_eq,
  as_int64, as_string,
}
use granite_db.Row.Bytes.{Fits, value_bytes}
use granite_db.Row.Columns.{payload_bytes, typed_nulls, write_columns}
use granite_db.Row.Tuple.{
  serialize, deserialize, deserialize-serialize_tuple, null_bitmap, get_value,
}
use granite_db.Row.Heap.{
  encode, decode, mark_deleted, is_deleted, header_bytes, new_header, read_header, header_of_bytes,
}
use granite_db.Row.Heap.RoundTrip.{decode-encode}
use granite_db.Row.Compare.{Doubles, below, equal, is_numeric_type, value_to_double, is_equal}
use granite_db.Expression.{
  single, lt, div, Expression, constant, column, comparison, conjunction, arithmetic, Inputs, row,
  evaluate, column_value, lift, arithmetic_operands, make_arithmetic_result, arithmetic_type,
}
use granite_db.Expression.Typing.{
  InputsMatch, infer_type, IsTyped, TupleMatches, RowMatches, HasType,
}
use granite_db.Expression.Typing.Evaluate.{evaluate-IsTyped}
use granite_db.Key.{encode_value, compare_encoded}
use granite_db.Key.Composite.{
  nulls_low, IndexKeyColumnDefinition, encode_key, decode_key, compare_encoded_key,
  compare_components, read_component, read_value_at, read_pod_at, read_string_at,
  compare_with_null_policy,
}
use granite_db.Key.Order.{compare_keys}
use granite_db.Key.Component.{typed_key}
use granite_db.Key.RoundTrip.{decode_key-encode_key, compare_encoded_key-encode_key}
use granite_db.Key.Collision.{composite_collision}

-- A key, a name that may be null and a flag.
abbrev people : Schema
people =
    record { name = 105 ∷ []; type = int32; nullable = false; max_length = 0 }
    ∷ record { name = 110 ∷ []; type = varchar; nullable = true; max_length = 5 }
    ∷ record { name = 111 ∷ []; type = boolean; nullable = true; max_length = 0 }
    ∷ []

abbrev ann : List Value
ann = of_int32 258 ∷ of_string (97 ∷ 110 ∷ 110 ∷ []) ∷ of_bool true ∷ []

abbrev nobody : List Value
nobody = of_int32 7 ∷ null varchar ∷ of_bool false ∷ []

serialize-nobody : serialize people nobody ≡ ok (3 ∷ 0 ∷ 2 ∷ 7 ∷ 0 ∷ 0 ∷ 0 ∷ 0 ∷ [])
unfolding serialize validate_against_schema is_null write_columns value_bytes as_int32 as_bool
    write_pod null_bitmap bool_byte
serialize-nobody = refl

encode-ann :
    encode people ann
    ≡ ok (
        25 ∷ 0 ∷ 0 ∷ 0 ∷ 12 ∷ 0 ∷ 3 ∷ 0 ∷ 0 ∷ 0 ∷ 0 ∷ 0 ∷ 0 ∷ 2 ∷ 1 ∷ 0 ∷ 0 ∷ 3 ∷ 0 ∷ 0 ∷ 0 ∷ 97
        ∷ 110 ∷ 110 ∷ 1 ∷ [])
unfolding encode validate_against_schema is_null payload_bytes write_columns value_bytes as_int32
    as_bool header_bytes write_pod new_header zeros null_bitmap bool_byte
encode-ann = refl

decode_deleted : (encode people nobody >>= λ bytes. mark_deleted bytes >>= is_deleted) ≡ ok true
unfolding encode mark_deleted is_deleted validate_against_schema is_null payload_bytes write_columns
    value_bytes as_int32 as_bool read_header header_bytes write_pod new_header zeros null_bitmap
    header_of_bytes pod_value
decode_deleted = refl

deserialize-serialize_tuple_example :
    (bytes : List ℕ) × (serialize people nobody ≡ ok bytes)
    × (deserialize people (bytes ++ (255 ∷ [])) ≡ ok (typed_nulls people nobody))
unfolding validate_against_schema Fits is_null
deserialize-serialize_tuple_example =
    deserialize-serialize_tuple people nobody (255 ∷ []) refl (omega arith, (tt, (tt, tt)))
      (omega arith)

decode-encode_example :
    (bytes : List ℕ) × (encode people ann ≡ ok bytes)
    × (decode people (bytes ++ (255 ∷ [])) ≡ ok (typed_nulls people ann))
    × ((marked : List ℕ) × (mark_deleted (bytes ++ (255 ∷ [])) ≡ ok marked)
        × (is_deleted marked ≡ ok true)
        × (decode people marked ≡ ok (typed_nulls people ann)))
unfolding validate_against_schema Fits payload_bytes is_null
decode-encode_example =
    decode-encode people ann (255 ∷ []) 12 refl (omega arith, (omega arith, (tt, tt))) (omega arith)
      refl (omega arith)

-- Doubles with a step of 2 between the integers.
abbrev coarse : Doubles
coarse = record {
  from_int32 = λ n. n / 2;
  from_int64 = λ n. n / 2;
  to_int64 = λ n. n + n;
  lt = ltb;
  add = λ x y. x + y;
  sub = λ x y. x;
  mul = λ x y. x;
  div = λ x y. x;
  is_tiny = λ x. x == 0;
  exceeds_tiny = λ x. ltb 0 x;
}

abbrev ann_inputs : Inputs
ann_inputs = record {
  left_tuple = some nobody;
  left_schema = some people;
  right_tuple = none;
  right_schema = none;
}

-- `name < name and id / id < 4` on a row whose name is null.
abbrev filter_names : Expression
filter_names =
    conjunction (comparison lt (column single 1) (column single 1))
      (comparison lt (arithmetic div (column single 0) (column single 0)) (constant (of_int64 4)))

evaluate_ids :
    evaluate coarse ann_inputs (arithmetic div (column single 0) (constant (of_int32 1)))
    ≡ err (row division_by_zero)
unfolding evaluate column_value lift get_value arithmetic_operands is_null is_numeric_type
    get_type_id value_to_double make_arithmetic_result type_id_eq arithmetic_type
evaluate_ids = refl

evaluate-IsTyped_example : IsTyped boolean (evaluate coarse ann_inputs filter_names)
unfolding InputsMatch infer_type TupleMatches RowMatches HasType get_type_id is_null is_numeric_type
    type_id_eq arithmetic_type
evaluate-IsTyped_example =
    evaluate-IsTyped coarse ann_inputs filter_names boolean
      ((inr refl, (inl refl, (inr refl, tt))), tt) refl

abbrev by_name : List IndexKeyColumnDefinition
by_name =
    record { column_idx = 1; type = varchar; max_varchar_len = 5; nullable = true }
    ∷ record { column_idx = 0; type = int32; max_varchar_len = 0; nullable = false }
    ∷ []

abbrev null_key_bytes : List ℕ
null_key_bytes = 1 ∷ 0 ∷ 7 ∷ 0 ∷ 0 ∷ 0 ∷ []

abbrev bob_key_bytes : List ℕ
bob_key_bytes = 0 ∷ 1 ∷ 0 ∷ 0 ∷ 0 ∷ 98 ∷ 0 ∷ 9 ∷ 0 ∷ 0 ∷ 0 ∷ []

decode_key-encode_key_example :
    decode_key null_key_bytes by_name ≡ ok (typed_key by_name (null int32 ∷ of_int32 7 ∷ []))
unfolding encode_key Fits is_null type_id_eq get_type_id value_bytes as_int32 write_pod
decode_key-encode_key_example =
    decode_key-encode_key nulls_low by_name (null int32 ∷ of_int32 7 ∷ []) null_key_bytes refl
      (omega arith) (tt, (omega arith, tt))

compare_encoded_key-encode_key_example :
    compare_encoded_key coarse null_key_bytes bob_key_bytes by_name nulls_low
    ≡ compare_keys coarse
        (typed_key by_name (null varchar ∷ of_int32 7 ∷ []))
        (typed_key by_name (of_string (98 ∷ []) ∷ of_int32 9 ∷ []))
        nulls_low
unfolding encode_key Fits is_null type_id_eq get_type_id value_bytes as_int32 write_pod as_string
compare_encoded_key-encode_key_example =
    compare_encoded_key-encode_key coarse nulls_low nulls_low by_name
      (null varchar ∷ of_int32 7 ∷ []) (of_string (98 ∷ []) ∷ of_int32 9 ∷ []) null_key_bytes
      bob_key_bytes refl refl (omega arith) (omega arith) (tt, (omega arith, tt))
      (omega arith, (omega arith, tt))

nulls_first : compare_encoded_key coarse null_key_bytes bob_key_bytes by_name nulls_low ≡ ok below
unfolding compare_encoded_key compare_components read_component read_value_at read_pod_at
    read_string_at pod_value compare_with_null_policy is_null is_equal
nulls_first = refl

abbrev by_id : IndexKeyColumnDefinition
by_id = record { column_idx = 0; type = int64; max_varchar_len = 0; nullable = false }

abbrev small_key : ℕ → List ℕ
small_key n = n ∷ 0 ∷ 0 ∷ 0 ∷ 0 ∷ 0 ∷ 0 ∷ 0 ∷ []

composite_collision_example :
    (compare_encoded_key coarse (0 ∷ small_key 4) (0 ∷ small_key 5) (by_id ∷ []) nulls_low
      ≡ ok equal)
    × (compare_encoded coarse int64 (small_key 4) (small_key 5) ≢ ok equal)
unfolding encode_key encode_value is_null type_id_eq get_type_id value_bytes as_int64 write_pod
composite_collision_example =
    composite_collision coarse nulls_low 4 5 0 by_id nulls_low (0 ∷ small_key 4) (0 ∷ small_key 5)
      (small_key 4) (small_key 5) (omega arith) (omega arith) (omega arith) refl refl refl refl refl
      refl
