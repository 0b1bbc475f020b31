-- ===== src/Row.antt =====
-- common/value.h, common/schema.h and the parts of common/tuple.h that its encodings share: values,
-- columns and rows. An int32_t, int64_t or double is its bit pattern, a `char` of a string a number
-- below 256.
pub mod Bytes
pub mod Bitmap
pub mod Columns
pub mod Tuple
pub mod Heap
pub mod Compare
use granite_db.Prelude.{
  ℕ, zero, suc, ◌<◌, ◌^◌, Bool, true, false, not, ◌&&◌, List, [], ◌∷◌, Result, ok, err, ◌>>=◌,
  length, ltb, leb, ◌==◌, if◌then◌else◌, get_elem?, Option, none, some,
}

-- TypeId of common/types.h.
pub data TypeId : Type 0 where
  invalid boolean int32 int64 double varchar : TypeId

unfoldable pub type_id_eq : TypeId → TypeId → Bool
type_id_eq invalid invalid = true
type_id_eq boolean boolean = true
type_id_eq int32 int32 = true
type_id_eq int64 int64 = true
type_id_eq double double = true
type_id_eq varchar varchar = true
type_id_eq _ _ = false

-- The exceptions of the functions on values and rows; `bad_variant` is what std::get throws.
pub data RowError : Type 0 where
  bad_variant column_out_of_range invalid_column_type column_count_mismatch : RowError
  null_into_not_null type_mismatch varchar_too_long unsupported_type : RowError
  buffer_underflow bad_string_length : RowError
  tuple_too_large tuple_too_small bad_header length_exceeds bad_null_bitmap : RowError
  null_key key_length_mismatch key_type_mismatch bad_key : RowError
  cannot_compare_null incompatible_types not_numeric division_by_zero : RowError

pub data Value : Type 0 where
  null : TypeId → Value
  of_bool : Bool → Value
  of_int32 of_int64 of_double : ℕ → Value
  of_string : List ℕ → Value

unfoldable pub get_type_id : Value → TypeId
get_type_id (null t) = t
get_type_id (of_bool b) = boolean
get_type_id (of_int32 n) = int32
get_type_id (of_int64 n) = int64
get_type_id (of_double n) = double
get_type_id (of_string s) = varchar

unfoldable pub is_null : Value → Bool
is_null (null t) = true
is_null _ = false

unfoldable pub as_bool : Value → Result RowError Bool
as_bool (of_bool b) = ok b
as_bool _ = err bad_variant

unfoldable pub as_int32 : Value → Result RowError ℕ
as_int32 (of_int32 n) = ok n
as_int32 _ = err bad_variant

unfoldable pub as_int64 : Value → Result RowError ℕ
as_int64 (of_int64 n) = ok n
as_int64 _ = err bad_variant

unfoldable pub as_double : Value → Result RowError ℕ
as_double (of_double n) = ok n
as_double _ = err bad_variant

unfoldable pub as_string : Value → Result RowError (List ℕ)
as_string (of_string s) = ok s
as_string _ = err bad_variant

pub record Column : Type 0 where
  pub name : List ℕ
  pub type : TypeId
  pub nullable : Bool
  pub max_length : ℕ

unfoldable pub is_inlined : Column → Bool
is_inlined c = not (type_id_eq c.type varchar)

fixed_length_of : TypeId → Result RowError ℕ
fixed_length_of boolean = ok 1
fixed_length_of int32 = ok 4
fixed_length_of int64 = ok 8
fixed_length_of double = ok 8
fixed_length_of varchar = ok 0
fixed_length_of invalid = err invalid_column_type

unfoldable pub fixed_length : Column → Result RowError ℕ
unfolding fixed_length_of
fixed_length c = fixed_length_of c.type

-- The columns of a schema.
abbrev pub Schema : Type 0
Schema = List Column

unfoldable pub get_column : Schema → ℕ → Result RowError Column
get_column schema index = elim (get_elem? schema index) [
  | none ↦ err column_out_of_range
  | some c ↦ ok c
]

-- The tests that both encodings make of a value that is to stand in a column.
unfoldable pub validate_value : Column → Value → Result RowError (Unit {0})
unfolding type_id_eq get_type_id as_string
validate_value c v =
    if is_null v
    then if not c.nullable then err null_into_not_null else ok tt
    else if not (type_id_eq (get_type_id v) c.type)
    then err type_mismatch
    else if not (type_id_eq c.type varchar)
    then ok tt
    else as_string v >>= λ s.
        if ltb 0 c.max_length && ltb c.max_length (length s) then err varchar_too_long else ok tt

-- The loop over the values, with the column at the same index.
unfoldable pub validate_values : Schema → List Value → Result RowError (Unit {0})
unfolding validate_value
validate_values cs [] = ok tt
validate_values [] (v ∷ vs) = err column_out_of_range
validate_values (c ∷ cs) (v ∷ vs) = validate_value c v >>= λ _. validate_values cs vs

unfoldable pub validate_against_schema : Schema → List Value → Result RowError (Unit {0})
unfolding validate_values
validate_against_schema schema values =
    if not (length values == length schema)
    then err column_count_mismatch
    else validate_values schema values
