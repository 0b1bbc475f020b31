-- ===== src/Key/Component.antt =====
-- One component of the keys of access/composite_key_codec.cpp: what EncodeKey appends for it, and
-- ReadValue at its place.
use granite_db.Prelude.{
  ℕ, ◌+◌, ◌%◌, ◌<◌, ◌≡◌, refl, ap, subst, sym, true, false, List, [], ◌∷◌, ◌++◌, Result, ok, err,
  length, take, drop, leb, if◌then◌else◌, arith, Bool-cases, inl, inr,
}
use native.Mathlib.Nat.{mod-eq_of_lt}
use granite_db.Wal.Bytes.{u32_mod, pod_value}
use granite_db.Row.{RowError, Value, null, get_type_id, is_null}
use granite_db.Row.Bytes.{value_bytes, Fits}
use granite_db.Row.Columns.{type_id_eq→eq}
use granite_db.Key.Composite.{
  NullPolicy, IndexKeyColumnDefinition, check_component, encode_component, encode_components,
  read_value_at, read_component,
}
use granite_db.Key.Reading.{
  Holds, Holds-end, Holds-taken, Holds-left, Holds-right, read_value_at-value_bytes,
}

-- A null comes back with its column's type.
unfoldable pub typed_value : IndexKeyColumnDefinition → Value → Value
typed_value col v = if is_null v then null col.type else v

unfoldable pub typed_key : List IndexKeyColumnDefinition → List Value → List Value
unfolding typed_value
typed_key (col ∷ cols) (v ∷ vs) = typed_value col v ∷ typed_key cols vs
typed_key [] vs = []
typed_key (col ∷ cols) [] = []

encode_component-value :
    (np : NullPolicy) (col : IndexKeyColumnDefinition) (v : Value) (bytes : List ℕ)
    → encode_component np col v ≡ ok bytes
    → is_null v ≡ false
    → (more : List ℕ) × (value_bytes col.type v ≡ ok more)
      × (bytes ≡ 0 ∷ more)
      × (get_type_id v ≡ col.type)
unfolding encode_component
encode_component-value np col v bytes h n =
    go (value_bytes col.type v) refl (check_component col v) refl
  where
    go :
        (r : Result RowError (List ℕ))
        → value_bytes col.type v ≡ r
        → (c : Result RowError (Unit {0})) → check_component col v ≡ c
        → (more : List ℕ) × (value_bytes col.type v ≡ ok more)
          × (bytes ≡ 0 ∷ more)
          × (get_type_id v ≡ col.type)
    go (ok more) e (ok u) f =
        (more, e, ground arith, type_id_eq→eq (get_type_id v) col.type (ground arith))
    go (ok more) e (err x) f = ground arith
    go (err x) e c f = ground arith

encode_component-null :
    (np : NullPolicy) (col : IndexKeyColumnDefinition) (v : Value) (bytes : List ℕ)
    → encode_component np col v ≡ ok bytes
    → is_null v ≡ true
    → bytes ≡ 1 ∷ []
unfolding encode_component
encode_component-null np col v bytes h n = ground arith

tag_read :
    {key : List ℕ} {pos : ℕ} (tag : ℕ) (more : List ℕ)
    → Holds key pos (tag ∷ more)
    → (leb (length key) pos ≡ false)
      × (pod_value (take 1 (drop pos key)) ≡ tag)
      × ((pos + 1) % u32_mod ≡ pos + 1)
unfolding pod_value
tag_read {key} {pos} tag more h =
    let first = Holds-taken (Holds-left (tag ∷ []) more h) in
    let below : pos + 1 < u32_mod = omega (arith, Holds-end h, h.short) in
    (ground (arith, Holds-end h), rw first (omega arith), mod-eq_of_lt below)

-- Reading a component where it was encoded gives it back, and moves behind it.
pub read_component-encode_component :
    (np : NullPolicy) (col : IndexKeyColumnDefinition) (v : Value) (bytes key : List ℕ) (pos : ℕ)
    → encode_component np col v ≡ ok bytes
    → Fits v
    → Holds key pos bytes
    → read_component key (length key) pos col ≡ ok (typed_value col v, pos + length bytes)
unfolding read_component typed_value
read_component-encode_component np col v bytes key pos h f w = elim (Bool-cases (is_null v)) [
  | inl n ↦
      let same = encode_component-null np col v bytes h n in
      let (more, tag, next) = tag_read 1 [] (subst (Holds key pos) same w) in
      rw (same, n, more, tag, next)
  | inr n ↦
      let (value, e, same, t) = encode_component-value np col v bytes h n in
      let here = subst (Holds key pos) same w in
      let (more, tag, next) = tag_read 0 value here in
      let read =
        subst (λ t. read_value_at key (length key) (pos + 1) t ≡ ok (v, pos + 1 + length value)) t
          (read_value_at-value_bytes v value f n (subst (λ t. value_bytes t v ≡ ok value) (sym t) e)
            (Holds-right (0 ∷ []) value here)) in
      rw (same, n, more, tag, next, read) (ap (λ k. ok (v, k)) (omega arith))
]

pub encode_components-cons :
    (np : NullPolicy) (col : IndexKeyColumnDefinition) (cols : List IndexKeyColumnDefinition)
    (v : Value) (vs : List Value) (bytes : List ℕ)
    → encode_components np (col ∷ cols) (v ∷ vs) ≡ ok bytes
    → (b : List ℕ) × (more : List ℕ) × (encode_component np col v ≡ ok b)
      × (encode_components np cols vs ≡ ok more)
      × (bytes ≡ b ++ more)
unfolding encode_components
encode_components-cons np col cols v vs bytes h =
    go (encode_component np col v) refl (encode_components np cols vs) refl
  where
    go :
        (r : Result RowError (List ℕ))
        → encode_component np col v ≡ r
        → (s : Result RowError (List ℕ)) → encode_components np cols vs ≡ s
        → (b : List ℕ) × (more : List ℕ) × (encode_component np col v ≡ ok b)
          × (encode_components np cols vs ≡ ok more)
          × (bytes ≡ b ++ more)
    go (ok b) e (ok more) f = (b, more, e, f, ground arith)
    go (ok b) e (err x) f = ground arith
    go (err x) e s f = ground arith
