-- ===== src/Key/Collision.antt =====
-- INT64 keys under the two comparisons: IndexKeyUtil::CompareEncoded compares integers, and
-- CompositeKeyCodec::CompareEncoded goes through CompareValues, which converts them to double.
use granite_db.Prelude.{
  ℕ, ◌^◌, ◌<◌, ◌≡◌, ◌≢◌, ◌∙◌, false, List, [], ◌∷◌, ok, arith, length, length-append,
}
use granite_db.Wal.Bytes.{u32_mod, write_pod, length-write_pod, pod_value-write_pod}
use granite_db.Row.{int64, of_int64, is_null, get_type_id, type_id_eq, as_int64, as_string}
use granite_db.Row.Bytes.{Fits, value_bytes}
use granite_db.Row.Compare.{
  Doubles, equal, sign_of, int64_lt, is_equal, is_numeric_type, value_to_double, compare_values,
}
use granite_db.Key.{check_length, encode_value, fixed_key, compare_read, compare_encoded}
use granite_db.Key.Composite.{
  NullPolicy, IndexKeyColumnDefinition, check_component, encode_component, encode_components,
  encode_key, compare_encoded_key,
}
use granite_db.Key.Order.{order_values, compare_keys}
use granite_db.Key.Component.{typed_key}
use granite_db.Key.RoundTrip.{compare_encoded_key-encode_key}

fixed_key-write_pod : (x : ℕ) → x < 256 ^ 8 → fixed_key 8 (write_pod 8 x) ≡ ok x
unfolding fixed_key
fixed_key-write_pod x h = rw (length-write_pod 8 x, pod_value-write_pod 8 x h)

sign_of_int64 :
    (x y : ℕ) → x < 2 ^ 64 → y < 2 ^ 64 → x ≢ y → sign_of (int64_lt x y) (int64_lt y x) ≢ equal
unfolding sign_of int64_lt
sign_of_int64 x y h k ne e = ground arith

encoded_int64 :
    (x max : ℕ) (a : List ℕ) → encode_value (of_int64 x) int64 max ≡ ok a → a ≡ write_pod 8 x
unfolding encode_value check_length is_null get_type_id type_id_eq value_bytes as_int64
encoded_int64 x max a e = ground arith

composite_int64-short :
    (x : ℕ) (col : IndexKeyColumnDefinition) (np : NullPolicy) (key : List ℕ)
    → encode_key (of_int64 x ∷ []) (col ∷ []) np ≡ ok key
    → length key < u32_mod
unfolding encode_key encode_components encode_component check_component is_null get_type_id
    type_id_eq value_bytes as_int64 as_string
composite_int64-short x col np key h =
    ground (arith, length-write_pod 8 x, length-append (write_pod 8 x) [])

module _ (d : Doubles) (policy : NullPolicy) where
  compare_keys-same :
      (x y : ℕ)
      → d.from_int64 x ≡ d.from_int64 y
      → d.lt (d.from_int64 y) (d.from_int64 y) ≡ false
      → compare_keys d (of_int64 x ∷ []) (of_int64 y ∷ []) policy ≡ ok equal
  unfolding compare_keys order_values compare_values is_null is_numeric_type get_type_id
      value_to_double sign_of is_equal
  compare_keys-same x y e i = rw (e, i)

  -- Two INT64 keys that convert to one double are equal for a composite key, and different for a
  -- single-column key.
  pub composite_collision :
      (x y max : ℕ) (col : IndexKeyColumnDefinition) (np : NullPolicy) (lhs rhs a b : List ℕ)
      → x < 2 ^ 64
      → y < 2 ^ 64
      → x ≢ y
      → d.from_int64 x ≡ d.from_int64 y
      → d.lt (d.from_int64 y) (d.from_int64 y) ≡ false
      → encode_key (of_int64 x ∷ []) (col ∷ []) np ≡ ok lhs
      → encode_key (of_int64 y ∷ []) (col ∷ []) np ≡ ok rhs
      → encode_value (of_int64 x) int64 max ≡ ok a
      → encode_value (of_int64 y) int64 max ≡ ok b
      → (compare_encoded_key d lhs rhs (col ∷ []) policy ≡ ok equal)
        × (compare_encoded d int64 a b ≢ ok equal)
  unfolding typed_key is_null Fits encode_value compare_encoded compare_read type_id_eq get_type_id
      value_bytes
  composite_collision x y max col np lhs rhs a b hx hy ne same irr el er ea eb = (
    compare_encoded_key-encode_key d policy np (col ∷ []) (of_int64 x ∷ []) (of_int64 y ∷ []) lhs
          rhs el er (composite_int64-short x col np lhs el) (composite_int64-short y col np rhs er)
          (omega arith, tt) (omega arith, tt)
        ∙ compare_keys-same x y same irr,
    λ e.
        let fa : a ≡ write_pod 8 x = encoded_int64 x max a ea in
        let fb : b ≡ write_pod 8 y = encoded_int64 y max b eb in
        let read : compare_encoded d int64 a b ≡ ok (sign_of (int64_lt x y) (int64_lt y x)) =
          rw (fa, fb, fixed_key-write_pod x (omega arith), fixed_key-write_pod y (omega arith)) in
        sign_of_int64 x y hx hy ne (ground arith),
  )
