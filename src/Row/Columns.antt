-- ===== src/Row/Columns.antt =====
-- The loops over the columns of a row in common/tuple.h and storage/heap_tuple_codec.h.
use granite_db.Prelude.{
  ℕ, suc, ◌+◌, ◌%◌, ◌≡◌, refl, subst, Bool, true, false, List, [], ◌∷◌, ◌++◌, Result, ok, err,
  ◌>>=◌, length, if◌then◌else◌, arith, Bool-cases, inl, inr, All, append_assoc, length-append,
}
use granite_db.Wal.Bytes.{u32_mod, bool_byte, write_pod, length-write_pod}
use granite_db.Row.{
  TypeId, invalid, boolean, int32, int64, double, varchar, type_id_eq, RowError,
  column_out_of_range, unsupported_type, Value, null, get_type_id, is_null, as_bool, as_int32,
  as_int64, as_double, as_string, Column, Schema, validate_value, validate_values,
}
use granite_db.Row.Bytes.{value_bytes, read_value, Fits, read_value-value_bytes}
use granite_db.Row.Bitmap.{null_bit, Marks}

-- The values that are not null, one after the other.
unfoldable pub write_columns : Schema → List Value → Result RowError (List ℕ)
write_columns cs [] = ok []
write_columns [] (v ∷ vs) = err column_out_of_range
write_columns (c ∷ cs) (v ∷ vs) =
    let rest = write_columns cs vs in
    if is_null v
    then rest
    else value_bytes c.type v >>= λ bytes. rest >>= λ more. ok (bytes ++ more)

-- How many bytes that takes, as HeapTupleCodec::Encode counts them beforehand.
unfoldable pub value_size : TypeId → Value → Result RowError ℕ
value_size boolean v = ok 1
value_size int32 v = ok 4
value_size int64 v = ok 8
value_size double v = ok 8
value_size varchar v = as_string v >>= λ s. ok (4 + length s)
value_size invalid v = err unsupported_type

unfoldable pub payload_bytes : Schema → List Value → Result RowError ℕ
unfolding value_size
payload_bytes cs [] = ok 0
payload_bytes [] (v ∷ vs) = err column_out_of_range
payload_bytes (c ∷ cs) (v ∷ vs) =
    let rest = payload_bytes cs vs in
    if is_null v then rest else value_size c.type v >>= λ size. rest >>= λ more. ok (size + more)

module _ (underflow bad_string : RowError) where
  -- The columns from index `i` on.
  unfoldable pub read_columns : List ℕ → ℕ → Schema → List ℕ → Result RowError (List Value)
  read_columns bitmap i [] bytes = ok []
  read_columns bitmap i (c ∷ cs) bytes = elim (null_bit bitmap i) [
    | true ↦ read_columns bitmap (suc i) cs bytes >>= λ vs. ok (null c.type ∷ vs)
    | false ↦ read_value underflow bad_string c.type bytes >>= λ (v, rest).
        read_columns bitmap (suc i) cs rest >>= λ vs. ok (v ∷ vs)
  ]

-- A null comes back with its column's type.
unfoldable pub typed_nulls : Schema → List Value → List Value
typed_nulls cs [] = []
typed_nulls [] (v ∷ vs) = []
typed_nulls (c ∷ cs) (v ∷ vs) = (if is_null v then null c.type else v) ∷ typed_nulls cs vs

pub type_id_eq→eq : (a b : TypeId) → type_id_eq a b ≡ true → a ≡ b
unfolding type_id_eq
type_id_eq→eq a b h = ground arith

validate_value-type :
    (c : Column) (v : Value) (u : Unit {0})
    → validate_value c v ≡ ok u
    → is_null v ≡ false
    → get_type_id v ≡ c.type
unfolding validate_value
validate_value-type c v u h n = type_id_eq→eq (get_type_id v) c.type (ground arith)

pub validate_values-cons :
    (c : Column) (cs : Schema) (v : Value) (vs : List Value)
    → validate_values (c ∷ cs) (v ∷ vs) ≡ ok tt
    → (is_null v ≡ false → get_type_id v ≡ c.type) × (validate_values cs vs ≡ ok tt)
unfolding validate_values
validate_values-cons c cs v vs h = go (validate_value c v) refl
  where
    go :
        (r : Result RowError (Unit {0}))
        → validate_value c v ≡ r
        → (is_null v ≡ false → get_type_id v ≡ c.type) × (validate_values cs vs ≡ ok tt)
    go (ok u) e = (validate_value-type c v u e, ground arith)
    go (err x) e = ground arith

module _ (underflow bad_string : RowError) where
  -- Reading the columns gives back the row that was written, with its nulls typed.
  pub read_columns-write_columns :
      (cs : Schema) (vs : List Value) (bitmap : List ℕ) (i : ℕ) (rest : List ℕ)
      → validate_values cs vs ≡ ok tt
      → length vs ≡ length cs
      → All Fits vs
      → Marks bitmap i vs
      → (bytes : List ℕ) × (write_columns cs vs ≡ ok bytes)
        × (read_columns underflow bad_string bitmap i cs (bytes ++ rest) ≡ ok (typed_nulls cs vs))
  unfolding write_columns read_columns typed_nulls Marks
  read_columns-write_columns [] [] bitmap i rest h n f m = ([], refl, refl)
  read_columns-write_columns [] (v ∷ vs) bitmap i rest h n f m = absurd (omega arith)
  read_columns-write_columns (c ∷ cs) [] bitmap i rest h n f m = absurd (omega arith)
  read_columns-write_columns (c ∷ cs) (v ∷ vs) bitmap i rest h n f m =
      let (typed, h') = validate_values-cons c cs v vs h in
      let (more, w, r) =
        read_columns-write_columns cs vs bitmap (suc i) rest h' (omega arith) f.1 m.1 in
      elim (Bool-cases (is_null v)) [
        | inl e ↦ (more, rw (e, w), ground (arith, m.0))
        | inr e ↦
            let (bytes, w1, r1) =
              read_value-value_bytes underflow bad_string v (more ++ rest) f.0 e in
            let t1 = subst (λ t. value_bytes t v ≡ ok bytes) (typed e) w1 in
            let t2 =
              subst
                (λ t.
                  read_value underflow bad_string t (bytes ++ (more ++ rest))
                  ≡ ok (v, more ++ rest))
                (typed e) r1 in
            (bytes ++ more, rw (e, t1, w), ground (arith, m.0, append_assoc bytes more rest))
      ]

value_size-value_bytes :
    (t : TypeId) (v : Value) (bytes : List ℕ)
    → value_bytes t v ≡ ok bytes
    → value_size t v ≡ ok (length bytes)
unfolding value_size value_bytes
value_size-value_bytes boolean v bytes h = go (as_bool v) refl
  where
    go : (r : Result RowError Bool) → as_bool v ≡ r → value_size boolean v ≡ ok (length bytes)
    go (ok x) e = ground (arith, length-write_pod 1 (bool_byte x))
    go (err x) e = ground arith
value_size-value_bytes int32 v bytes h = go (as_int32 v) refl
  where
    go : (r : Result RowError ℕ) → as_int32 v ≡ r → value_size int32 v ≡ ok (length bytes)
    go (ok x) e = ground (arith, length-write_pod 4 x)
    go (err x) e = ground arith
value_size-value_bytes int64 v bytes h = go (as_int64 v) refl
  where
    go : (r : Result RowError ℕ) → as_int64 v ≡ r → value_size int64 v ≡ ok (length bytes)
    go (ok x) e = ground (arith, length-write_pod 8 x)
    go (err x) e = ground arith
value_size-value_bytes double v bytes h = go (as_double v) refl
  where
    go : (r : Result RowError ℕ) → as_double v ≡ r → value_size double v ≡ ok (length bytes)
    go (ok x) e = ground (arith, length-write_pod 8 x)
    go (err x) e = ground arith
value_size-value_bytes varchar v bytes h = go (as_string v) refl
  where
    go : (r : Result RowError (List ℕ)) → as_string v ≡ r → value_size varchar v ≡ ok (length bytes)
    go (ok s) e =
        let prefix = write_pod 4 (length s % u32_mod) in
        ground (arith, length-append prefix s, length-write_pod 4 (length s % u32_mod))
    go (err x) e = ground arith
value_size-value_bytes invalid v bytes h = ground arith

-- The count of the payload is the length of what is written.
pub payload_bytes-write_columns :
    (cs : Schema) (vs : List Value) (bytes : List ℕ)
    → write_columns cs vs ≡ ok bytes
    → payload_bytes cs vs ≡ ok (length bytes)
unfolding write_columns payload_bytes
payload_bytes-write_columns cs [] bytes h = ground arith
payload_bytes-write_columns [] (v ∷ vs) bytes h = ground arith
payload_bytes-write_columns (c ∷ cs) (v ∷ vs) bytes h =
    go (value_bytes c.type v) refl (write_columns cs vs) refl (payload_bytes-write_columns cs vs)
  where
    go :
        (b : Result RowError (List ℕ))
        → value_bytes c.type v ≡ b
        → (r : Result RowError (List ℕ)) → write_columns cs vs ≡ r
        → ((more : List ℕ) → write_columns cs vs ≡ ok more → payload_bytes cs vs ≡ ok (length more))
        → payload_bytes (c ∷ cs) (v ∷ vs) ≡ ok (length bytes)
    go (ok b) e (ok more) e' ih =
        ground (arith, ih more e', value_size-value_bytes c.type v b e, length-append b more)
    go (err x) e (ok more) e' ih = ground (arith, ih more e')
    go b e (err x) e' ih = ground arith
