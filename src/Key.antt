-- ===== src/Key.antt =====
-- The encodings of index keys: access/index_key.h here, access/composite_key_codec.cpp in Composite.
pub mod Composite
pub mod Order
pub mod Reading
pub mod Component
pub mod RoundTrip
pub mod Collision
use granite_db.Prelude.{
  ℕ, ◌+◌, Bool, true, false, not, ◌&&◌, ◌||◌, List, [], ◌∷◌, ◌++◌, Result, ok, err, ◌>>=◌, length,
  take, drop, ltb, ◌==◌, if◌then◌else◌,
}
use granite_db.Wal.Bytes.{pod_value, byte_bool}
use granite_db.Row.{
  TypeId, invalid, boolean, int32, int64, double, varchar, type_id_eq, RowError, unsupported_type,
  null_key, key_type_mismatch, bad_key, varchar_too_long, Value, of_bool, of_int32, of_int64,
  of_double, of_string, get_type_id, is_null, as_string,
}
use granite_db.Row.Bytes.{value_bytes}
use granite_db.Row.Compare.{Doubles, Sign, sign_of, bool_lt, int32_lt, int64_lt, string_lt}

unfoldable pub max_encoded_key_size : TypeId → ℕ → Result RowError ℕ
max_encoded_key_size boolean n = ok 1
max_encoded_key_size int32 n = ok 4
max_encoded_key_size int64 n = ok 8
max_encoded_key_size double n = ok 8
max_encoded_key_size varchar n = ok (4 + n)
max_encoded_key_size invalid n = err unsupported_type

-- The length test of a string, which other types pass.
unfoldable pub check_length : TypeId → ℕ → Value → Result RowError (Unit {0})
check_length varchar max_varchar_len value =
    as_string value >>= λ s. if ltb max_varchar_len (length s) then err varchar_too_long else ok tt
check_length _ max_varchar_len value = ok tt

unfoldable pub encode_value : Value → TypeId → ℕ → Result RowError (List ℕ)
unfolding check_length
encode_value value key_type max_varchar_len =
    if is_null value
    then err null_key
    else if not (type_id_eq (get_type_id value) key_type)
    then err key_type_mismatch
    else check_length key_type max_varchar_len value >>= λ _. value_bytes key_type value

-- The bytes of a key of a fixed size.
unfoldable pub fixed_key : ℕ → List ℕ → Result RowError ℕ
fixed_key size bytes = if not (length bytes == size) then err bad_key else ok (pod_value bytes)

-- The bytes of a string key, behind its length.
unfoldable pub string_key : List ℕ → Result RowError (List ℕ)
string_key bytes =
    let slen = pod_value (take 4 bytes) in
    if ltb (length bytes) 4
    then err bad_key
    else if not (4 + slen == length bytes)
    then err bad_key
    else ok (take slen (drop 4 bytes))

unfoldable pub decode_value : TypeId → List ℕ → Result RowError Value
decode_value boolean bytes = fixed_key 1 bytes >>= λ x. ok (of_bool (byte_bool x))
decode_value int32 bytes = fixed_key 4 bytes >>= λ x. ok (of_int32 x)
decode_value int64 bytes = fixed_key 8 bytes >>= λ x. ok (of_int64 x)
decode_value double bytes = fixed_key 8 bytes >>= λ x. ok (of_double x)
decode_value varchar bytes = string_key bytes >>= λ s. ok (of_string s)
decode_value invalid bytes = err unsupported_type

-- Both keys are read before they are compared.
unfoldable pub compare_read {ℓ} :
    {A : Type ℓ} → (A → A → Bool) → Result RowError A → Result RowError A → Result RowError Sign
compare_read lt a b = a >>= λ x. b >>= λ y. ok (sign_of (lt x y) (lt y x))

module _ (d : Doubles) where
  unfoldable pub compare_encoded : TypeId → List ℕ → List ℕ → Result RowError Sign
  compare_encoded boolean a b =
      compare_read bool_lt (fixed_key 1 a >>= λ x. ok (byte_bool x))
        (fixed_key 1 b >>= λ y. ok (byte_bool y))
  compare_encoded int32 a b = compare_read int32_lt (fixed_key 4 a) (fixed_key 4 b)
  compare_encoded int64 a b = compare_read int64_lt (fixed_key 8 a) (fixed_key 8 b)
  compare_encoded double a b = compare_read d.lt (fixed_key 8 a) (fixed_key 8 b)
  compare_encoded varchar a b = compare_read string_lt (string_key a) (string_key b)
  compare_encoded invalid a b = err unsupported_type
