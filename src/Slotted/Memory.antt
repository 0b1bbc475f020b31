-- ===== src/Slotted/Memory.antt =====
-- Parts of a page's bytes: the memcpy from and into a page.
use granite_db.Prelude.{
  ℕ, zero, suc, ◌+◌, ◌-◌, ◌≤◌, ◌≡◌, refl, sym, ap, ◌∙◌, List, [], ◌∷◌, ◌++◌, length, take, drop,
  arith, length-append, length-take, length-drop, take-append, drop-append, append_assoc,
  take-append_of_le,
}

unfoldable pub read_bytes : ℕ → ℕ → List ℕ → List ℕ
read_bytes offset len memory = take len (drop offset memory)

unfoldable pub write_bytes : ℕ → List ℕ → List ℕ → List ℕ
write_bytes offset bytes memory =
    take offset memory ++ (bytes ++ drop (offset + length bytes) memory)

drop_more : (k m n : ℕ) (xs : List ℕ) → k ≡ m + n → drop k xs ≡ drop n (drop m xs)
drop_more k zero n xs e = ap (λ i. drop i xs) (omega arith)
drop_more zero (suc m) n xs e = absurd (omega arith)
drop_more (suc k) (suc m) n (x ∷ xs) e = drop_more k m n xs (omega arith)
drop_more (suc k) (suc m) zero [] e = refl
drop_more (suc k) (suc m) (suc n) [] e = refl

pub length-write_bytes :
    (offset : ℕ) (bytes memory : List ℕ)
    → offset + length bytes ≤ length memory
    → length (write_bytes offset bytes memory) ≡ length memory
unfolding write_bytes
length-write_bytes offset bytes memory h = omega (
  arith,
  length-append (take offset memory) (bytes ++ drop (offset + length bytes) memory),
  length-append bytes (drop (offset + length bytes) memory),
  length-take offset memory,
  length-drop (offset + length bytes) memory,
)

pub length-read_bytes :
    (offset len : ℕ) (memory : List ℕ)
    → offset + len ≤ length memory
    → length (read_bytes offset len memory) ≡ len
unfolding read_bytes
length-read_bytes offset len memory h =
    omega (arith, length-take len (drop offset memory), length-drop offset memory)

-- What was written is read back.
pub read_bytes-write_bytes :
    (offset : ℕ) (bytes memory : List ℕ)
    → offset + length bytes ≤ length memory
    → read_bytes offset (length bytes) (write_bytes offset bytes memory) ≡ bytes
unfolding read_bytes write_bytes
read_bytes-write_bytes offset bytes memory h =
    ap (take (length bytes)) (
      drop-append (take offset memory) (bytes ++ drop (offset + length bytes) memory) offset
        (omega (arith, length-take offset memory)))
    ∙ take-append bytes (drop (offset + length bytes) memory) (length bytes) refl

pub take-drop-append :
    (o l : ℕ) (xs ys : List ℕ) → o + l ≤ length xs → take l (drop o (xs ++ ys)) ≡ take l (drop o xs)
take-drop-append zero l xs ys h = take-append_of_le xs ys l (omega arith)
take-drop-append (suc o) zero [] ys h = absurd (omega arith)
take-drop-append (suc o) (suc l) [] ys h = absurd (omega arith)
take-drop-append (suc o) l (x ∷ xs) ys h = take-drop-append o l xs ys (omega arith)

pub take-drop-take :
    (o l n : ℕ) (xs : List ℕ) → o + l ≤ n → take l (drop o (take n xs)) ≡ take l (drop o xs)
take-drop-take zero zero n xs h = refl
take-drop-take zero (suc l) zero xs h = absurd (omega arith)
take-drop-take zero (suc l) (suc n) [] h = refl
take-drop-take zero (suc l) (suc n) (x ∷ xs) h =
    ap (λ ys. x ∷ ys) (take-drop-take zero l n xs (omega arith))
take-drop-take (suc o) l zero xs h = absurd (omega arith)
take-drop-take (suc o) l (suc n) [] h = refl
take-drop-take (suc o) l (suc n) (x ∷ xs) h = take-drop-take o l n xs (omega arith)

-- What stands in front of the bytes written stays.
pub read_below-write_bytes :
    (offset o l : ℕ) (bytes memory : List ℕ)
    → offset + length bytes ≤ length memory
    → o + l ≤ offset
    → read_bytes o l (write_bytes offset bytes memory) ≡ read_bytes o l memory
unfolding read_bytes write_bytes
read_below-write_bytes offset o l bytes memory h le =
    take-drop-append o l (take offset memory) (bytes ++ drop (offset + length bytes) memory)
      (omega (arith, length-take offset memory))
    ∙ take-drop-take o l offset memory le

-- What stands behind them stays.
pub read_above-write_bytes :
    (offset o l : ℕ) (bytes memory : List ℕ)
    → offset + length bytes ≤ length memory
    → offset + length bytes ≤ o
    → read_bytes o l (write_bytes offset bytes memory) ≡ read_bytes o l memory
unfolding read_bytes write_bytes
read_above-write_bytes offset o l bytes memory h le =
    let n : ℕ = offset + length bytes in
    let split : o ≡ n + (o - n) = omega arith in
    let tail = drop n memory in
    let front : length (take offset memory ++ bytes) ≡ n =
      omega (arith, length-append (take offset memory) bytes, length-take offset memory) in
    let skipped : drop n (take offset memory ++ (bytes ++ tail)) ≡ tail =
      ap (drop n) (sym (append_assoc (take offset memory) bytes tail))
      ∙ drop-append (take offset memory ++ bytes) tail n front in
    ap (take l) (
      drop_more o n (o - n) (take offset memory ++ (bytes ++ tail)) split
      ∙ ap (drop (o - n)) skipped
      ∙ sym (drop_more o n (o - n) memory split))
