-- ===== src/Row/Bitmap.antt =====
-- The null bitmap of common/tuple.h and storage/heap_tuple_codec.h: bit `i % 8` of byte `i / 8`.
use Prim.Native.Nat.{bit_or}
use granite_db.Prelude.{
  ℕ, zero, suc, ◌+◌, ◌*◌, ◌/◌, ◌%◌, ◌^◌, ◌≤◌, ◌<◌, ◌≡◌, ◌≢◌, refl, sym, ap, subst, ◌∙◌, Bool, true,
  false, not, List, [], ◌∷◌, none, some, get_elem?, set, length, length-set, get_elem?-set_self,
  get_elem?-set_ne, ◌==◌, ==_iff, if◌then◌else◌, arith, Bool-cases, inl, inr,
}
use native.Mathlib.Nat.{zero-div}
use granite_db.Row.{Value, is_null}

unfoldable pub byte_at : List ℕ → ℕ → ℕ
byte_at bitmap i = elim (get_elem? bitmap i) [ none ↦ 0 | some b ↦ b ]

-- `bitmap[i / 8] |= 1u << (i % 8)`.
unfoldable pub set_null_bit : List ℕ → ℕ → List ℕ
unfolding byte_at
set_null_bit bitmap i = set bitmap (i / 8) (bit_or (byte_at bitmap (i / 8)) (2 ^ (i % 8)) % 256)

-- `(bitmap[i / 8] >> (i % 8)) & 1u`.
unfoldable pub null_bit : List ℕ → ℕ → Bool
unfolding byte_at
null_bit bitmap i = not (byte_at bitmap (i / 8) / 2 ^ (i % 8) % 2 == 0)

-- The loop that marks the nulls, from the value at index `i` on.
unfoldable pub mark_nulls : ℕ → List Value → List ℕ → List ℕ
unfolding set_null_bit
mark_nulls i [] bitmap = bitmap
mark_nulls i (v ∷ vs) bitmap =
    mark_nulls (suc i) vs (if is_null v then set_null_bit bitmap i else bitmap)

unfoldable pub zeros : ℕ → List ℕ
zeros zero = []
zeros (suc n) = 0 ∷ zeros n

pub length-zeros : (n : ℕ) → length (zeros n) ≡ n
unfolding zeros
length-zeros zero = refl
length-zeros (suc n) = ap suc (length-zeros n)

bit : ℕ → ℕ → Bool
bit b k = not (b / 2 ^ k % 2 == 0)

same : Bool → Bool → Bool
same a b = if a then b else not b

same-eq : (a b : Bool) → same a b ≡ true → a ≡ b
unfolding same
same-eq a b h = ground arith

-- A test that succeeds on every number before a bound, and what that says of one of them.
passes : (ℕ → Bool) → ℕ → Bool
passes test zero = true
passes test (suc bound) = if test bound then passes test bound else false

passes_at : (test : ℕ → Bool) (bound n : ℕ) → n < bound → passes test bound ≡ true → test n ≡ true
unfolding passes
passes_at test zero n before h = ground arith
passes_at test (suc bound) n before h = elim (Bool-cases (n == bound)) [
  | inl last ↦ subst (λ k. test k ≡ true) (sym ((==_iff n bound).0 last)) (ground arith)
  | inr other ↦
      let ne : n ≢ bound = λ e. ground (arith, ==_iff n bound, e) in
      passes_at test bound n (omega arith) (ground arith)
]

bits_at : ℕ → ℕ → ℕ → Bool
bits_at b k j = same (bit (bit_or b (2 ^ k) % 256) j) (if k == j then true else bit b j)

bits_table : passes (λ b. passes (λ k. passes (λ j. bits_at b k j) 8) 8) 256 ≡ true
unfolding passes bits_at same bit
bits_table = refl

bit-bit_or :
    (b k j : ℕ)
    → b < 256
    → k < 8
    → j < 8
    → bit (bit_or b (2 ^ k) % 256) j ≡ (if k == j then true else bit b j)
unfolding bits_at
bit-bit_or b k j hb hk hj =
    same-eq (bit (bit_or b (2 ^ k) % 256) j) (if k == j then true else bit b j) (
      passes_at (λ j. bits_at b k j) 8 j hj
        (passes_at (λ k. passes (λ j. bits_at b k j) 8) 8 k hk
          (passes_at (λ b. passes (λ k. passes (λ j. bits_at b k j) 8) 8) 256 b hb bits_table)))

-- The bytes are bytes, and there are enough of them for `n` bits.
unfoldable pub IsBitmap : ℕ → List ℕ → Type 0
IsBitmap n bitmap = ((i : ℕ) → byte_at bitmap i < 256) × (n ≤ 8 * length bitmap)

byte_at-set :
    (bitmap : List ℕ) (i j b : ℕ)
    → i < length bitmap
    → byte_at (set bitmap i b) j ≡ (if i == j then b else byte_at bitmap j)
unfolding byte_at
byte_at-set bitmap i j b h = elim (Bool-cases (i == j)) [
  | inl here ↦
      let e : i ≡ j = (==_iff i j).0 here in ground (arith, get_elem?-set_self bitmap i b h, e)
  | inr other ↦
      let ne : i ≢ j = λ e. ground (arith, ==_iff i j, e) in
      ground (arith, get_elem?-set_ne bitmap i j b ne)
]

set_null_bit-IsBitmap :
    (n i : ℕ) (bitmap : List ℕ) → i < n → IsBitmap n bitmap → IsBitmap n (set_null_bit bitmap i)
unfolding set_null_bit IsBitmap
set_null_bit-IsBitmap n i bitmap lt h = (
  λ j.
      let b : ℕ = bit_or (byte_at bitmap (i / 8)) (2 ^ (i % 8)) % 256 in
      ground (arith, h.0 j, byte_at-set bitmap (i / 8) j b (omega (arith, h.1))),
  omega
      (arith, h.1, length-set bitmap (i / 8) (bit_or (byte_at bitmap (i / 8)) (2 ^ (i % 8)) % 256)),
)

null_bit-set_null_bit :
    (n i j : ℕ) (bitmap : List ℕ)
    → i < n
    → IsBitmap n bitmap
    → null_bit (set_null_bit bitmap i) j ≡ (if i == j then true else null_bit bitmap j)
unfolding set_null_bit null_bit IsBitmap bit
null_bit-set_null_bit n i j bitmap lt h =
    let b : ℕ = bit_or (byte_at bitmap (i / 8)) (2 ^ (i % 8)) % 256 in
    let at_byte = byte_at-set bitmap (i / 8) (j / 8) b (omega (arith, h.1)) in
    elim (Bool-cases (i / 8 == j / 8)) [
      | inl here ↦
          let e : i / 8 ≡ j / 8 = (==_iff (i / 8) (j / 8)).0 here in
          let bits =
            bit-bit_or (byte_at bitmap (i / 8)) (i % 8) (j % 8) (h.0 (i / 8)) (omega arith)
              (omega arith) in
          let agree : (i % 8 == j % 8) ≡ (i == j) = ground arith in
          ap (λ v. bit v (j % 8)) (at_byte ∙ ap (λ c. if c then b else byte_at bitmap (j / 8)) here)
          ∙ bits
          ∙ ap (λ c. if c then true else bit (byte_at bitmap (i / 8)) (j % 8)) agree
          ∙ ap (λ v. if i == j then true else bit v (j % 8)) (ap (byte_at bitmap) e)
      | inr other ↦
          let ne : (i == j) ≡ false = ground arith in
          ap (λ v. bit v (j % 8))
            (at_byte ∙ ap (λ c. if c then b else byte_at bitmap (j / 8)) other)
          ∙ sym (ap (λ c. if c then true else bit (byte_at bitmap (j / 8)) (j % 8)) ne)
    ]

-- The bits from `i` on say which of the values are null.
unfoldable pub Marks : List ℕ → ℕ → List Value → Type 0
Marks bitmap i [] = Unit {0}
Marks bitmap i (v ∷ vs) = (null_bit bitmap i ≡ is_null v) × Marks bitmap (suc i) vs

abbrev mark_one : Bool → ℕ → List ℕ → List ℕ
mark_one b i bitmap = if b then set_null_bit bitmap i else bitmap

mark_one-IsBitmap :
    (b : Bool) (n i : ℕ) (bitmap : List ℕ)
    → i < n
    → IsBitmap n bitmap
    → IsBitmap n (mark_one b i bitmap)
mark_one-IsBitmap true n i bitmap lt h = set_null_bit-IsBitmap n i bitmap lt h
mark_one-IsBitmap false n i bitmap lt h = h

null_bit-mark_one :
    (b : Bool) (n i j : ℕ) (bitmap : List ℕ)
    → i < n
    → IsBitmap n bitmap
    → null_bit bitmap i ≡ false
    → null_bit (mark_one b i bitmap) j ≡ (if i == j then b else null_bit bitmap j)
null_bit-mark_one true n i j bitmap lt h c = null_bit-set_null_bit n i j bitmap lt h
null_bit-mark_one false n i j bitmap lt h c = elim (Bool-cases (i == j)) [
  | inl here ↦
      let e : i ≡ j = (==_iff i j).0 here in
      subst (λ k. null_bit bitmap k ≡ false) e c
      ∙ sym (ap (λ c. if c then false else null_bit bitmap j) here)
  | inr other ↦ sym (ap (λ c. if c then false else null_bit bitmap j) other)
]

-- No bit is set from `i` on.
IsClean : ℕ → List ℕ → Type 0
IsClean i bitmap = (k : ℕ) → i ≤ k → null_bit bitmap k ≡ false

mark_one-IsClean :
    (b : Bool) (n i : ℕ) (bitmap : List ℕ)
    → i < n
    → IsBitmap n bitmap
    → IsClean i bitmap
    → IsClean (suc i) (mark_one b i bitmap)
unfolding IsClean
mark_one-IsClean b n i bitmap lt h c k le =
    let ne : (i == k) ≡ false = ground arith in
    null_bit-mark_one b n i k bitmap lt h (c i (omega arith))
    ∙ ap (λ x. if x then b else null_bit bitmap k) ne
    ∙ c k (omega arith)

mark_nulls-IsBitmap :
    (n i : ℕ) (vs : List Value) (bitmap : List ℕ)
    → i + length vs ≤ n
    → IsBitmap n bitmap
    → IsBitmap n (mark_nulls i vs bitmap)
unfolding mark_nulls
mark_nulls-IsBitmap n i [] bitmap le h = h
mark_nulls-IsBitmap n i (v ∷ vs) bitmap le h =
    mark_nulls-IsBitmap n (suc i) vs (mark_one (is_null v) i bitmap) (omega arith)
      (mark_one-IsBitmap (is_null v) n i bitmap (omega arith) h)

pub length-mark_nulls :
    (i : ℕ) (vs : List Value) (bitmap : List ℕ) → length (mark_nulls i vs bitmap) ≡ length bitmap
unfolding mark_nulls set_null_bit
length-mark_nulls i [] bitmap = refl
length-mark_nulls i (v ∷ vs) bitmap =
    length-mark_nulls (suc i) vs (mark_one (is_null v) i bitmap) ∙ one (is_null v)
  where
    one : (b : Bool) → length (mark_one b i bitmap) ≡ length bitmap
    one true = length-set bitmap (i / 8) (bit_or (byte_at bitmap (i / 8)) (2 ^ (i % 8)) % 256)
    one false = refl

mark_nulls-below :
    (n i j : ℕ) (vs : List Value) (bitmap : List ℕ)
    → i + length vs ≤ n
    → j < i
    → IsBitmap n bitmap
    → IsClean i bitmap
    → null_bit (mark_nulls i vs bitmap) j ≡ null_bit bitmap j
unfolding mark_nulls IsClean
mark_nulls-below n i j [] bitmap le lt h c = refl
mark_nulls-below n i j (v ∷ vs) bitmap le lt h c =
    let ne : (i == j) ≡ false = ground arith in
    mark_nulls-below n (suc i) j vs (mark_one (is_null v) i bitmap) (omega arith) (omega arith)
      (mark_one-IsBitmap (is_null v) n i bitmap (omega arith) h)
      (mark_one-IsClean (is_null v) n i bitmap (omega arith) h c)
    ∙ null_bit-mark_one (is_null v) n i j bitmap (omega arith) h (c i (omega arith))
    ∙ ap (λ x. if x then is_null v else null_bit bitmap j) ne

mark_nulls-Marks_from :
    (n i : ℕ) (vs : List Value) (bitmap : List ℕ)
    → i + length vs ≤ n
    → IsBitmap n bitmap
    → IsClean i bitmap
    → Marks (mark_nulls i vs bitmap) i vs
unfolding mark_nulls Marks IsClean
mark_nulls-Marks_from n i [] bitmap le h c = tt
mark_nulls-Marks_from n i (v ∷ vs) bitmap le h c =
    let h' = mark_one-IsBitmap (is_null v) n i bitmap (omega arith) h in
    let c' = mark_one-IsClean (is_null v) n i bitmap (omega arith) h c in
    let here : (i == i) ≡ true = ground arith in
    (
      mark_nulls-below n (suc i) i vs (mark_one (is_null v) i bitmap) (omega arith) (omega arith) h'
            c'
          ∙ null_bit-mark_one (is_null v) n i i bitmap (omega arith) h (c i (omega arith))
          ∙ ap (λ x. if x then is_null v else null_bit bitmap i) here,
      mark_nulls-Marks_from n (suc i) vs (mark_one (is_null v) i bitmap) (omega arith) h' c',
    )

byte_at-zeros : (n i : ℕ) → byte_at (zeros n) i ≡ 0
unfolding byte_at zeros
byte_at-zeros zero i = refl
byte_at-zeros (suc n) zero = refl
byte_at-zeros (suc n) (suc i) = byte_at-zeros n i

zeros-IsClean : (n k : ℕ) → null_bit (zeros n) k ≡ false
unfolding null_bit
zeros-IsClean n k =
    ap (λ b. not (b / 2 ^ (k % 8) % 2 == 0)) (byte_at-zeros n (k / 8))
    ∙ ground (arith, zero-div (2 ^ (k % 8)))

-- Marking the nulls of a row in an empty bitmap of `(count + 7) / 8` bytes marks each of them, and
-- nothing else.
pub mark_nulls-Marks :
    (vs : List Value) → Marks (mark_nulls 0 vs (zeros ((length vs + 7) / 8))) 0 vs
unfolding IsBitmap IsClean
mark_nulls-Marks vs =
    mark_nulls-Marks_from (length vs) 0 vs (zeros ((length vs + 7) / 8)) (omega arith)
      (
        λ i. omega (arith, byte_at-zeros ((length vs + 7) / 8) i),
        omega (arith, length-zeros ((length vs + 7) / 8)),
      )
      (λ k _. zeros-IsClean ((length vs + 7) / 8) k)
