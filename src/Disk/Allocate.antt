-- ===== src/Disk/Allocate.antt =====
-- AllocatePage of storage/disk_manager.cpp never hands out a page in use.
use granite_db.Prelude.{
  ℕ, ◌+◌, ◌%◌, ◌^◌, ◌<◌, ◌≡◌, refl, sym, ap, subst, Bool, false, List, [], ◌∷◌, All, Option, none,
  some, length, ◌==◌, ==_iff, if◌then◌else◌, arith, Bool-cases, inl, inr,
}
use native.Mathlib.Nat.{mod-eq_of_lt}
use granite_db.Types.{page_size}
use granite_db.Row.Bitmap.{zeros, length-zeros}
use granite_db.Disk.{
  RelationHandle, file_offset, write_at, zero_page, persist_allocator_state, take_page, allocate,
}
use granite_db.Disk.Files.{page_of-write_same, page_of-write_other, length-write_at}
use granite_db.Disk.Views.{
  is_free, live, view, Ascending, IsAllocator, is_free-All, view-some, view-none, view-same,
  live-inside,
}

abbrev pub if_same : Bool → Option (List ℕ) → Option (List ℕ) → Option (List ℕ)
if_same b x y = if b then x else y

-- The page `p` is added with zeros.
pub record IsTaken (h : RelationHandle) (p : ℕ) (h' : RelationHandle) : Type 0 where
  pub allocator : IsAllocator h'
  pub unused : view h p ≡ none
  pub views : (q : ℕ) → view h' q ≡ (if q == p then some (zeros page_size) else view h q)

-- The file grows by a page.
appended : RelationHandle → RelationHandle
appended h = record h {
  file = write_at (file_offset h.num_pages) (zeros page_size) h.file;
  num_pages = (h.num_pages + 1) % 2 ^ 32;
}

appended-IsTaken :
    (h : RelationHandle)
    → IsAllocator h
    → h.num_pages + 1 < 2 ^ 32
    → h.free_pages ≡ []
    → IsTaken h h.num_pages (appended h)
unfolding appended live is_free
appended-IsTaken h i room e =
    let size : length (zeros page_size) ≡ page_size = length-zeros page_size in
    let wrap : (h.num_pages + 1) % 2 ^ 32 ≡ h.num_pages + 1 = mod-eq_of_lt room in
    let none_free = λ (q : ℕ). ap (λ (l : List ℕ). is_free l q) e in
    record {
      allocator = record {
        ascending = i.ascending;
        below = subst (All (λ p. p < (h.num_pages + 1) % 2 ^ 32)) (sym e) tt;
        whole = omega (
          arith,
          wrap,
          i.whole,
          size,
          length-write_at (file_offset h.num_pages) (zeros page_size) h.file,
        );
        small = omega (arith, wrap, room);
      };
      unused = view-none h h.num_pages (ground arith);
      views = λ q. elim (Bool-cases (q == h.num_pages)) [
        | inl same ↦ rw same (
            view-some (appended h) q (zeros page_size) (ground (arith, wrap, none_free q))
              (page_of-write_same h.num_pages q (zeros page_size) h.file size (ground arith)))
        | inr other ↦ rw other (
            view-same h (appended h) q (ground (arith, wrap, none_free q)) (λ l.
              page_of-write_other h.num_pages q (zeros page_size) h.file size
                (omega (arith, live-inside h q i l)) (ground arith)))
      ];
    }

reused-IsTaken :
    (h : RelationHandle) (p : ℕ) (rest : List ℕ)
    → IsAllocator h
    → h.free_pages ≡ p ∷ rest
    → IsTaken h p (zero_page p (record h { free_pages = rest }))
unfolding zero_page live is_free
reused-IsTaken h p rest i e =
    let size : length (zeros page_size) ≡ page_size = length-zeros page_size in
    let asc : Ascending (p ∷ rest) = subst Ascending e i.ascending in
    let below : All (λ q. q < h.num_pages) (p ∷ rest) =
      subst (All (λ q. q < h.num_pages)) e i.below in
    let free = λ (q : ℕ). ap (λ (l : List ℕ). is_free l q) e in
    let once : is_free rest p ≡ false = once_only p rest asc.0 in
    let h' = zero_page p (record h { free_pages = rest }) in
    record {
      allocator = record {
        ascending = asc.1;
        below = below.1;
        whole = omega (arith, i.whole, length-write_at (file_offset p) (zeros page_size) h.file);
        small = i.small;
      };
      unused = view-none h p (ground (arith, free p));
      views = λ q. elim (Bool-cases (q == p)) [
        | inl same ↦ rw same (
            view-some h' q (zeros page_size)
              (ground (arith, below.0, once, ap (is_free rest) ((==_iff q p).0 same)))
              (page_of-write_same p q (zeros page_size) h.file size (ground arith)))
        | inr other ↦ rw other (
            view-same h h' q (ground (arith, free q)) (λ l.
              page_of-write_other p q (zeros page_size) h.file size
                (omega (arith, live-inside h q i l)) (ground arith)))
      ];
    }
  where
    once_only : (p : ℕ) (rest : List ℕ) → All (λ y. p < y) rest → is_free rest p ≡ false
    once_only p rest h = elim (Bool-cases (is_free rest p)) [
      | inl yes_free ↦ absurd (omega (arith, is_free-All (λ y. p < y) rest p h yes_free))
      | inr not_free ↦ not_free
    ]

take_page-IsTaken :
    (h : RelationHandle)
    → IsAllocator h
    → h.num_pages + 1 < 2 ^ 32
    → IsTaken h (take_page h).0 (take_page h).1
unfolding take_page appended
take_page-IsTaken h i room = go h.free_pages refl
  where
    Taken : ℕ × RelationHandle → Type 0
    Taken r = IsTaken h r.0 r.1

    taken : List ℕ → ℕ × RelationHandle
    taken fs = elim fs [
      | [] ↦ (h.num_pages, appended h)
      | p ∷ rest ↦ (p, zero_page p (record h { free_pages = rest }))
    ]

    go : (fs : List ℕ) → h.free_pages ≡ fs → Taken (take_page h)
    go [] e = subst Taken (sym (ap taken e)) (appended-IsTaken h i room e)
    go (p ∷ rest) e = subst Taken (sym (ap taken e)) (reused-IsTaken h p rest i e)

-- Where another page number is left: AllocatePage returns a page that was not in use, keeps the
-- allocator's invariant, and the relation then has that page, full of zeros, beside the pages that it
-- had before, with their contents.
pub allocate-IsTaken :
    (h : RelationHandle)
    → IsAllocator h
    → h.num_pages + 1 < 2 ^ 32
    → IsTaken h (allocate h).0 (allocate h).1
unfolding allocate persist_allocator_state view live
allocate-IsTaken h i room =
    let t = take_page-IsTaken h i room in
    record {
      allocator = record {
        ascending = t.allocator.ascending;
        below = t.allocator.below;
        whole = t.allocator.whole;
        small = t.allocator.small;
      };
      unused = t.unused;
      views = t.views;
    }
