-- ===== src/Key/Composite.antt =====
-- CompositeKeyCodec of access/composite_key_codec.cpp, with the key definitions of access/index.h.
use granite_db.Prelude.{
  ℕ, ◌+◌, ◌%◌, Bool, true, false, not, ◌&&◌, ◌||◌, List, [], ◌∷◌, ◌++◌, Result, ok, err, ◌>>=◌,
  length, take, drop, ltb, leb, ◌==◌, if◌then◌else◌,
}
use granite_db.Wal.Bytes.{u32_mod, pod_value, byte_bool}
use granite_db.Row.{
  TypeId, invalid, boolean, int32, int64, double, varchar, type_id_eq, RowError, unsupported_type,
  null_key, null_into_not_null, key_length_mismatch, key_type_mismatch, bad_key, varchar_too_long,
  Value, null, of_bool, of_int32, of_int64, of_double, of_string, get_type_id, is_null, as_string,
}
use granite_db.Row.Bytes.{value_bytes}
use granite_db.Row.Compare.{Doubles, Sign, below, equal, above, is_equal, compare_values}

pub data NullPolicy : Type 0 where
  not_supported distinct_nulls nulls_low nulls_high : NullPolicy

pub record IndexKeyColumnDefinition : Type 0 where
  pub column_idx : ℕ
  pub type : TypeId
  pub max_varchar_len : ℕ
  pub nullable : Bool

unfoldable pub max_size_of : TypeId → ℕ → Result RowError ℕ
max_size_of boolean n = ok 2
max_size_of int32 n = ok 5
max_size_of int64 n = ok 9
max_size_of double n = ok 9
max_size_of varchar n = ok ((5 + n) % u32_mod)
max_size_of invalid n = err unsupported_type

unfoldable pub max_encoded_value_size : IndexKeyColumnDefinition → Result RowError ℕ
unfolding max_size_of
max_encoded_value_size col = max_size_of col.type col.max_varchar_len

-- GetMaxEncodedKeySize, from the total so far.
unfoldable pub max_key_size_from : ℕ → List IndexKeyColumnDefinition → Result RowError ℕ
max_key_size_from total [] = ok total
max_key_size_from total (col ∷ cols) =
    max_encoded_value_size col >>= λ size. max_key_size_from ((total + size) % u32_mod) cols

unfoldable pub get_max_encoded_key_size : List IndexKeyColumnDefinition → Result RowError ℕ
get_max_encoded_key_size definition = max_key_size_from 0 definition

unfoldable pub is_not_supported : NullPolicy → Bool
is_not_supported not_supported = true
is_not_supported _ = false

-- The length test of a string component; a declared maximum of 0 is none.
unfoldable pub check_component : IndexKeyColumnDefinition → Value → Result RowError (Unit {0})
check_component col value =
    if not (type_id_eq col.type varchar)
    then ok tt
    else as_string value >>= λ s.
        if ltb 0 col.max_varchar_len && ltb col.max_varchar_len (length s)
        then err varchar_too_long
        else ok tt

-- One round of the loop of EncodeKey: the bytes it appends.
unfoldable pub encode_component :
    NullPolicy → IndexKeyColumnDefinition → Value → Result RowError (List ℕ)
unfolding is_not_supported check_component
encode_component null_policy col value =
    if is_null value
    then if is_not_supported null_policy
      then err null_key
      else if not col.nullable
      then err null_into_not_null
      else ok (1 ∷ [])
    else if not (type_id_eq (get_type_id value) col.type)
    then err key_type_mismatch
    else check_component col value >>= λ _. value_bytes col.type value >>= λ bytes. ok (0 ∷ bytes)

unfoldable pub encode_components :
    NullPolicy → List IndexKeyColumnDefinition → List Value → Result RowError (List ℕ)
unfolding encode_component
encode_components null_policy (col ∷ cols) (v ∷ vs) = do
  bytes ← encode_component null_policy col v
  more ← encode_components null_policy cols vs
  ok (bytes ++ more)
encode_components null_policy [] vs = ok []
encode_components null_policy (col ∷ cols) [] = ok []

unfoldable pub encode_key :
    List Value → List IndexKeyColumnDefinition → NullPolicy → Result RowError (List ℕ)
unfolding encode_components
encode_key values definition null_policy =
    if not (length values == length definition)
    then err key_length_mismatch
    else encode_components null_policy definition values

-- ReadValue reads at a position of 32 bits and compares it with `len`, the size of the key in 32
-- bits. `pos + size` is computed in 64 bits.
unfoldable pub read_pod_at : List ℕ → ℕ → ℕ → ℕ → Result RowError (ℕ × ℕ)
read_pod_at bytes len pos size =
    if ltb len (pos + size)
    then err bad_key
    else ok (pod_value (take size (drop pos bytes)), (pos + size) % u32_mod)

-- `pos + slen` is computed in 32 bits. Where it wraps, the string may lie behind the end of the key,
-- which C++ leaves undefined: here it ends with the key.
unfoldable pub read_string_at : List ℕ → ℕ → ℕ → Result RowError (Value × ℕ)
unfolding read_pod_at
read_string_at bytes len pos = read_pod_at bytes len pos 4 >>= λ (slen, start).
    if ltb len ((start + slen) % u32_mod)
    then err bad_key
    else ok (of_string (take slen (drop start bytes)), (start + slen) % u32_mod)

unfoldable pub read_value_at : List ℕ → ℕ → ℕ → TypeId → Result RowError (Value × ℕ)
read_value_at bytes len pos boolean =
    read_pod_at bytes len pos 1 >>= λ (x, next). ok (of_bool (byte_bool x), next)
read_value_at bytes len pos int32 =
    read_pod_at bytes len pos 4 >>= λ (x, next). ok (of_int32 x, next)
read_value_at bytes len pos int64 =
    read_pod_at bytes len pos 8 >>= λ (x, next). ok (of_int64 x, next)
read_value_at bytes len pos double =
    read_pod_at bytes len pos 8 >>= λ (x, next). ok (of_double x, next)
read_value_at bytes len pos varchar = read_string_at bytes len pos
read_value_at bytes len pos invalid = err unsupported_type

-- ReadValue: the null tag, then the value; with the position behind it.
unfoldable pub read_component :
    List ℕ → ℕ → ℕ → IndexKeyColumnDefinition → Result RowError (Value × ℕ)
unfolding read_value_at
read_component bytes len pos col =
    let next = (pos + 1) % u32_mod in
    if leb len pos
    then err bad_key
    else if not (pod_value (take 1 (drop pos bytes)) == 0)
    then ok (null col.type, next)
    else read_value_at bytes len next col.type

-- The loop of DecodeKey and its last test, which compares with the whole size.
unfoldable pub decode_components :
    List ℕ → ℕ → List IndexKeyColumnDefinition → Result RowError (List Value)
decode_components encoded pos [] =
    if not (pos == length encoded) then err key_length_mismatch else ok []
decode_components encoded pos (col ∷ cols) =
    read_component encoded (length encoded % u32_mod) pos col >>= λ (v, next).
    decode_components encoded next cols >>= λ vs. ok (v ∷ vs)

unfoldable pub decode_key : List ℕ → List IndexKeyColumnDefinition → Result RowError (List Value)
unfolding decode_components
decode_key encoded definition = decode_components encoded 0 definition

unfoldable pub compare_nulls : NullPolicy → Bool → Result RowError Sign
compare_nulls nulls_low lhs_null = ok (if lhs_null then below else above)
compare_nulls nulls_high lhs_null = ok (if lhs_null then above else below)
compare_nulls _ lhs_null = err null_key

module _ (d : Doubles) where
  unfoldable pub compare_with_null_policy : Value → Value → NullPolicy → Result RowError Sign
  unfolding compare_nulls
  compare_with_null_policy lhs rhs policy =
      if not (is_null lhs) && not (is_null rhs)
      then compare_values d lhs rhs
      else if is_null lhs && is_null rhs
      then ok equal
      else compare_nulls policy (is_null lhs)

  -- The loop of CompareEncoded: the components in turn, up to the first that differ.
  unfoldable pub compare_components :
      List ℕ → List ℕ → ℕ → ℕ → List IndexKeyColumnDefinition → NullPolicy → Result RowError Sign
  compare_components lhs rhs lhs_pos rhs_pos [] policy =
      if not (lhs_pos == length lhs % u32_mod) || not (rhs_pos == length rhs % u32_mod)
      then err key_length_mismatch
      else ok equal
  compare_components lhs rhs lhs_pos rhs_pos (col ∷ cols) policy =
      read_component lhs (length lhs % u32_mod) lhs_pos col >>= λ (v, lhs_next).
      read_component rhs (length rhs % u32_mod) rhs_pos col >>= λ (w, rhs_next).
      let rest = compare_components lhs rhs lhs_next rhs_next cols policy in
      compare_with_null_policy v w policy >>= λ cmp. if is_equal cmp then rest else ok cmp

  -- CompareEncoded.
  unfoldable pub compare_encoded_key :
      List ℕ → List ℕ → List IndexKeyColumnDefinition → NullPolicy → Result RowError Sign
  unfolding compare_components
  compare_encoded_key lhs rhs definition policy = compare_components lhs rhs 0 0 definition policy
