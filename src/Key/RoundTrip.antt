-- ===== src/Key/RoundTrip.antt =====
-- Reading back and comparing the keys of access/composite_key_codec.cpp.
use granite_db.Prelude.{
  ℕ, ◌+◌, ◌<◌, ◌≡◌, refl, ap, subst, sym, List, [], ◌∷◌, ok, length, ==_iff, arith, All,
  length-append, append-nil,
}
use native.Mathlib.Nat.{mod-eq_of_lt}
use granite_db.Wal.Bytes.{u32_mod}
use granite_db.Row.{Value}
use granite_db.Row.Bytes.{Fits}
use granite_db.Row.Compare.{Doubles}
use granite_db.Key.Composite.{
  NullPolicy, IndexKeyColumnDefinition, encode_components, encode_key, decode_components,
  decode_key, compare_components, compare_encoded_key,
}
use granite_db.Key.Order.{compare_keys, compare_with_null_policy_lem}
use granite_db.Key.Reading.{Holds, Holds-left, Holds-right}
use granite_db.Key.Component.{
  typed_value, typed_key, read_component-encode_component, encode_components-cons,
}

decode_components-encode_components :
    (np : NullPolicy) (cols : List IndexKeyColumnDefinition) (vs : List Value) (bytes key : List ℕ)
    (pos : ℕ)
    → length vs ≡ length cols
    → encode_components np cols vs ≡ ok bytes
    → All Fits vs
    → pos + length bytes ≡ length key
    → Holds key pos bytes
    → decode_components key pos cols ≡ ok (typed_key cols vs)
unfolding decode_components typed_key encode_components
decode_components-encode_components np [] [] bytes key pos n h f e w =
    let none_left : bytes ≡ [] = ground arith in
    let over : pos ≡ length key = omega (arith, e, ap length none_left) in ground (arith, over)
decode_components-encode_components np [] (v ∷ vs) bytes key pos n h f e w = absurd (omega arith)
decode_components-encode_components np (col ∷ cols) [] bytes key pos n h f e w =
    absurd (omega arith)
decode_components-encode_components np (col ∷ cols) (v ∷ vs) bytes key pos n h f e w =
    let (b, more, i, i', split) = encode_components-cons np col cols v vs bytes h in
    let here = subst (Holds key pos) split w in
    rw (
      mod-eq_of_lt w.short,
      read_component-encode_component np col v b key pos i f.0 (Holds-left b more here),
      decode_components-encode_components np cols vs more key (pos + length b) (omega arith) i' f.1
          (omega (arith, e, ap length split, length-append b more)) (Holds-right b more here),
    )

encode_key-components :
    (np : NullPolicy) (cols : List IndexKeyColumnDefinition) (vs : List Value) (bytes : List ℕ)
    → encode_key vs cols np ≡ ok bytes
    → (length vs ≡ length cols) × (encode_components np cols vs ≡ ok bytes)
unfolding encode_key
encode_key-components np cols vs bytes h =
    (ground (arith, ==_iff (length vs) (length cols)), ground arith)

-- The whole key.
key_Holds : (key : List ℕ) → length key < u32_mod → Holds key 0 key
key_Holds key h = record {
  before = [];
  after = [];
  whole = sym (append-nil key);
  at = refl;
  short = h;
}

-- A key of less than 2^32 bytes that EncodeKey accepts is decoded to its values, with each null in
-- its column's type.
pub decode_key-encode_key :
    (np : NullPolicy) (cols : List IndexKeyColumnDefinition) (vs : List Value) (bytes : List ℕ)
    → encode_key vs cols np ≡ ok bytes
    → length bytes < u32_mod
    → All Fits vs
    → decode_key bytes cols ≡ ok (typed_key cols vs)
unfolding decode_key
decode_key-encode_key np cols vs bytes h short f =
    let (n, e) = encode_key-components np cols vs bytes h in
    decode_components-encode_components np cols vs bytes bytes 0 n e f (omega arith)
      (key_Holds bytes short)

module _ (d : Doubles) (policy : NullPolicy) where
  compare_components-encode_components :
      (np : NullPolicy) (cols : List IndexKeyColumnDefinition) (vs ws : List Value)
      (lhs rhs left right : List ℕ) (lhs_pos rhs_pos : ℕ)
      → length vs ≡ length cols
      → length ws ≡ length cols
      → encode_components np cols vs ≡ ok lhs
      → encode_components np cols ws ≡ ok rhs
      → All Fits vs
      → All Fits ws
      → lhs_pos + length lhs ≡ length left
      → rhs_pos + length rhs ≡ length right
      → Holds left lhs_pos lhs
      → Holds right rhs_pos rhs
      → compare_components d left right lhs_pos rhs_pos cols policy
        ≡ compare_keys d (typed_key cols vs) (typed_key cols ws) policy
  unfolding compare_components compare_keys typed_key encode_components
  compare_components-encode_components np [] [] [] lhs rhs left right p q n m h k f g e i u w =
      let no_lhs : lhs ≡ [] = ground arith in
      let no_rhs : rhs ≡ [] = ground arith in
      rw (mod-eq_of_lt u.short, mod-eq_of_lt w.short)
        (ground (
          arith,
          ==_iff p (length left),
          ==_iff q (length right),
          ap length no_lhs,
          ap length no_rhs,
        ))
  compare_components-encode_components np [] (v ∷ vs) ws lhs rhs left right p q n m h k f g e i u
        w =
      absurd (omega arith)
  compare_components-encode_components np [] [] (x ∷ ws) lhs rhs left right p q n m h k f g e i u
        w =
      absurd (omega arith)
  compare_components-encode_components np (col ∷ cols) [] ws lhs rhs left right p q n m h k f g e i
        u w =
      absurd (omega arith)
  compare_components-encode_components np (col ∷ cols) (v ∷ vs) [] lhs rhs left right p q n m h k f
        g e i u w =
      absurd (omega arith)
  compare_components-encode_components np (col ∷ cols) (v ∷ vs) (x ∷ ws) lhs rhs left right p q n m
        h k f g e i u w =
      let (b, more, j, j', split) = encode_components-cons np col cols v vs lhs h in
      let (c, most, l, l', split') = encode_components-cons np col cols x ws rhs k in
      let here = subst (Holds left p) split u in
      let there = subst (Holds right q) split' w in
      rw (
        mod-eq_of_lt u.short,
        mod-eq_of_lt w.short,
        read_component-encode_component np col v b left p j f.0 (Holds-left b more here),
        read_component-encode_component np col x c right q l g.0 (Holds-left c most there),
        compare_with_null_policy_lem d (typed_value col v) (typed_value col x) policy,
        compare_components-encode_components np cols vs ws more most left right (p + length b)
            (q + length c) (omega arith) (omega arith) j' l' f.1 g.1
            (omega (arith, e, ap length split, length-append b more))
            (omega (arith, i, ap length split', length-append c most)) (Holds-right b more here)
            (Holds-right c most there),
      )

  -- Comparing two encoded keys, each of less than 2^32 bytes, is comparing their values, component
  -- by component.
  pub compare_encoded_key-encode_key :
      (np : NullPolicy) (cols : List IndexKeyColumnDefinition) (vs ws : List Value)
      (lhs rhs : List ℕ)
      → encode_key vs cols np ≡ ok lhs
      → encode_key ws cols np ≡ ok rhs
      → length lhs < u32_mod
      → length rhs < u32_mod
      → All Fits vs
      → All Fits ws
      → compare_encoded_key d lhs rhs cols policy
        ≡ compare_keys d (typed_key cols vs) (typed_key cols ws) policy
  unfolding compare_encoded_key
  compare_encoded_key-encode_key np cols vs ws lhs rhs h k short short' f g =
      let (n, e) = encode_key-components np cols vs lhs h in
      let (m, i) = encode_key-components np cols ws rhs k in
      compare_components-encode_components np cols vs ws lhs rhs lhs rhs 0 0 n m e i f g
        (omega arith) (omega arith) (key_Holds lhs short) (key_Holds rhs short')
