-- ===== src/Disk/Files.antt =====
-- Reading and writing a relation's file.
use granite_db.Prelude.{
  ℕ, ◌+◌, ◌-◌, ◌≤◌, ◌≡◌, ◌≢◌, ap, ◌∙◌, subst, List, ◌++◌, length, take, max, arith, length-append,
  length-take, inl, inr, ◌⊎◌,
}
use granite_db.Types.{page_size}
use granite_db.Row.Bitmap.{zeros, length-zeros}
use granite_db.Slotted.Memory.{
  read_bytes, length-write_bytes, read_bytes-write_bytes, read_below-write_bytes,
  read_above-write_bytes, take-drop-append, take-drop-take,
}
use granite_db.Disk.{resize, write_at, file_offset}

pub length-resize : (n : ℕ) (f : List ℕ) → length (resize n f) ≡ n
unfolding resize
length-resize n f = omega (
  arith,
  length-append (take n f) (zeros (n - length f)),
  length-take n f,
  length-zeros (n - length f),
)

pub read_bytes-resize :
    (o l n : ℕ) (f : List ℕ)
    → o + l ≤ n
    → o + l ≤ length f
    → read_bytes o l (resize n f) ≡ read_bytes o l f
unfolding resize read_bytes
read_bytes-resize o l n f h k =
    take-drop-append o l (take n f) (zeros (n - length f)) (omega (arith, length-take n f))
    ∙ take-drop-take o l n f h

-- The file with the gap and the room for the write.
room : (o len : ℕ) (f : List ℕ) → o + len ≤ length (f ++ zeros (o + len - length f))
room o len f =
    omega (arith, length-append f (zeros (o + len - length f)), length-zeros (o + len - length f))

pub length-write_at :
    (o : ℕ) (bytes f : List ℕ) → length (write_at o bytes f) ≡ max (length f) (o + length bytes)
unfolding write_at
length-write_at o bytes f = omega (
  arith,
  length-write_bytes o bytes (f ++ zeros (o + length bytes - length f)) (room o (length bytes) f),
  length-append f (zeros (o + length bytes - length f)),
  length-zeros (o + length bytes - length f),
)

pub read_bytes-write_at :
    (o : ℕ) (bytes f : List ℕ) → read_bytes o (length bytes) (write_at o bytes f) ≡ bytes
unfolding write_at
read_bytes-write_at o bytes f = read_bytes-write_bytes o bytes _ (room o (length bytes) f)

read_other-write_at :
    (o o' l : ℕ) (bytes f : List ℕ)
    → o' + l ≤ length f
    → (o' + l ≤ o) ⊎ (o + length bytes ≤ o')
    → read_bytes o' l (write_at o bytes f) ≡ read_bytes o' l f
unfolding write_at read_bytes
read_other-write_at o o' l bytes f h apart =
    let wide = room o (length bytes) f in
    let kept = appended o' l f (zeros (o + length bytes - length f)) h in
    elim apart [
      | inl front ↦ read_below-write_bytes o o' l bytes _ wide front ∙ kept
      | inr behind ↦ read_above-write_bytes o o' l bytes _ wide behind ∙ kept
    ]
  where
    appended :
        (o l : ℕ) (f g : List ℕ) → o + l ≤ length f → read_bytes o l (f ++ g) ≡ read_bytes o l f
    appended o l f g h = take-drop-append o l f g h

unfoldable pub page_of : ℕ → List ℕ → List ℕ
page_of p f = read_bytes (file_offset p) page_size f

-- A page that is written reads as what was written, and every other page of the file as before.
pub page_of-write_at :
    (p : ℕ) (bytes f : List ℕ)
    → length bytes ≡ page_size
    → page_of p (write_at (file_offset p) bytes f) ≡ bytes
unfolding page_of
page_of-write_at p bytes f e =
    subst (λ (n : ℕ). read_bytes (file_offset p) n (write_at (file_offset p) bytes f) ≡ bytes) e
      (read_bytes-write_at (file_offset p) bytes f)

pub page_of-write_other :
    (p q : ℕ) (bytes f : List ℕ)
    → length bytes ≡ page_size
    → file_offset q + page_size ≤ length f
    → q ≢ p
    → page_of q (write_at (file_offset p) bytes f) ≡ page_of q f
unfolding page_of
page_of-write_other p q bytes f e h ne =
    read_other-write_at (file_offset p) (file_offset q) page_size bytes f h (apart p q ne)
  where
    apart :
        (p q : ℕ)
        → q ≢ p
        → (file_offset q + page_size ≤ file_offset p)
          ⊎ (file_offset p + length bytes ≤ file_offset q)
    apart p q ne = ground arith

pub page_of-resize :
    (q n : ℕ) (f : List ℕ)
    → file_offset q + page_size ≤ n
    → file_offset q + page_size ≤ length f
    → page_of q (resize n f) ≡ page_of q f
unfolding page_of
page_of-resize q n f h k = read_bytes-resize (file_offset q) page_size n f h k

pub page_of-write_same :
    (p q : ℕ) (bytes f : List ℕ)
    → length bytes ≡ page_size
    → q ≡ p
    → page_of q (write_at (file_offset p) bytes f) ≡ bytes
page_of-write_same p q bytes f e same =
    ap (λ (r : ℕ). page_of r (write_at (file_offset p) bytes f)) same ∙ page_of-write_at p bytes f e
