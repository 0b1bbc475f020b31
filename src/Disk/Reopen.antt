-- ===== src/Disk/Reopen.antt =====
-- Opening a relation again, after it was closed and after a crash: LoadAllocatorState and OpenRelation
-- of storage/disk_manager.cpp.
use granite_db.Prelude.{
  ℕ, ◌+◌, ◌-◌, ◌*◌, ◌/◌, ◌%◌, ◌^◌, ◌≤◌, ◌<◌, ◌≡◌, refl, sym, ap, ◌∙◌, subst, true, false, List, [],
  ◌∷◌, ◌++◌, map, All, All-map, All-append, append_assoc, append-nil, Option, none, some, length,
  ltb, leb, ◌==◌, ==_refl, arith, Bool-cases, inl, inr, ◌⊎◌, Result, ok, err, ◌>>=◌,
}
use native.Mathlib.Nat.{mod-eq_of_lt}
use granite_db.Types.{page_size}
use granite_db.Disk.{
  RelationHandle, Line, number, DiskError, too_many_pages, serialize_free_list, set_insert,
  load_free_pages, load_allocator_state, open_relation, drop_page,
}
use granite_db.Disk.Views.{Ascending, IsAllocator, view, live, view-some}
use granite_db.Disk.Files.{page_of}
use granite_db.Disk.Deallocate.{drop_page-IsDropped}

set_insert-last : (p : ℕ) (xs : List ℕ) → All (λ x. x < p) xs → set_insert p xs ≡ xs ++ (p ∷ [])
unfolding set_insert
set_insert-last p [] h = refl
set_insert-last p (x ∷ xs) h =
    let later : ltb p x ≡ false = ground (arith, h.0) in
    let other : (p == x) ≡ false = ground (arith, h.0) in
    rw (later, other) (ap (◌∷◌ x) (set_insert-last p xs h.1))

-- The pages of the file are inserted in ascending order behind those in `done`.
load_free_pages-map :
    (n : ℕ) (xs done : List ℕ)
    → n < 2 ^ 32
    → Ascending xs
    → All (λ p. p < n) xs
    → All (λ d. All (λ x. d < x) xs) done
    → load_free_pages (length xs) (map number xs) n done ≡ ok (done ++ xs)
unfolding load_free_pages
load_free_pages-map n [] done small asc below h = ap ok (sym (append-nil done))
load_free_pages-map n (x ∷ xs) done small asc below h =
    let wrap : x % 2 ^ 32 ≡ x = mod-eq_of_lt (omega (arith, below.0)) in
    let inside : leb n x ≡ false = ground (arith, below.0) in
    let digits : ltb x (2 ^ 64) ≡ true = ground (arith, below.0) in
    let last =
      set_insert-last x done (All-map (λ (d : ℕ) (l : All (λ y. d < y) (x ∷ xs)). l.0) done h) in
    rw (digits, wrap, inside, last)
      (load_free_pages-map n xs (done ++ (x ∷ [])) small asc.1 below.1 (
          All-append (λ d. All (λ y. d < y) xs) done (x ∷ [])
            (All-map (λ (d : ℕ) (l : All (λ y. d < y) (x ∷ xs)). l.1) done h) (asc.0, tt))
        ∙ ap ok (append_assoc done (x ∷ []) xs))

length-Ascending :
    (a n : ℕ) (xs : List ℕ)
    → a ≤ n
    → All (λ x. a ≤ x) xs
    → Ascending xs
    → All (λ x. x < n) xs
    → a + length xs ≤ n
length-Ascending a n [] le from asc below = omega arith
length-Ascending a n (x ∷ xs) le from asc below =
    let rest =
      length-Ascending (x + 1) n xs (omega (arith, below.0))
        (All-map (λ (y : ℕ) (l : x < y). omega arith) xs asc.0) asc.1 below.1 in
    omega (arith, rest, from.0)

load-serialize :
    (n : ℕ) (xs : List ℕ)
    → n < 2 ^ 32
    → Ascending xs
    → All (λ p. p < n) xs
    → load_allocator_state (some (serialize_free_list n xs)) n ≡ ok xs
unfolding load_allocator_state serialize_free_list
load-serialize n xs small asc below =
    let wrap : n % 2 ^ 32 ≡ n = mod-eq_of_lt small in
    let fits : ltb n n ≡ false = ground arith in
    let digits : ltb n (2 ^ 64) ≡ true = ground arith in
    let few =
      length-Ascending 0 n xs (omega arith) (All-map (λ (x : ℕ) (l : x < n). omega arith) xs below)
        asc below in
    let count : ltb (length xs) (2 ^ 64) ≡ true = ground (arith, few) in
    rw (digits, count, wrap, fits) (load_free_pages-map n xs [] small asc below tt)

-- Between calls: the file has no more than its pages, and the allocator's file is up to date.
pub record IsSettled (h : RelationHandle) : Type 0 where
  pub allocator : IsAllocator h
  pub exact : length h.file ≡ h.num_pages * page_size
  pub saved : h.allocator_state ≡ some (serialize_free_list h.num_pages h.free_pages)

pages_of_length :
    (f : List ℕ) (n : ℕ)
    → length f ≡ n * page_size
    → n < 2 ^ 32
    → (length f / page_size) % 2 ^ 32 ≡ n
pages_of_length f n e small =
    let whole : length f / page_size ≡ n = omega (arith, e) in
    ap (λ (n : ℕ). n % 2 ^ 32) whole ∙ mod-eq_of_lt small

opened_with :
    List ℕ → Option (List Line) → ℕ → Result DiskError (List ℕ) → Result DiskError RelationHandle
opened_with file state n r = r >>= λ free.
    ok (record { file = file; allocator_state = state; num_pages = n; free_pages = free })

-- A relation opens again as it was, with its pages, its free pages and its contents.
pub open_relation-settled :
    (h : RelationHandle) → IsSettled h → open_relation h.file h.allocator_state ≡ ok h
unfolding open_relation opened_with
open_relation-settled h s =
    let opened = opened_with h.file h.allocator_state in
    let load = λ (n : ℕ). load_allocator_state h.allocator_state n in
    let i = s.allocator in
    let loaded : load h.num_pages ≡ ok h.free_pages =
      ap (λ (o : Option (List Line)). load_allocator_state o h.num_pages) s.saved
      ∙ load-serialize h.num_pages h.free_pages i.small i.ascending i.below in
    ap (λ (n : ℕ). opened n (load n)) (pages_of_length h.file h.num_pages s.exact i.small)
    ∙ ap (opened h.num_pages) loaded

load-too_many :
    (n m : ℕ) (xs : List ℕ)
    → n < m
    → m < 2 ^ 32
    → length xs ≤ m
    → load_allocator_state (some (serialize_free_list m xs)) n ≡ err too_many_pages
unfolding load_allocator_state serialize_free_list
load-too_many n m xs less small few =
    let wrap : m % 2 ^ 32 ≡ m = mod-eq_of_lt small in
    let over : ltb n m ≡ true = ground arith in
    let digits : ltb m (2 ^ 64) ≡ true = ground arith in
    let count : ltb (length xs) (2 ^ 64) ≡ true = ground (arith, few) in
    rw (digits, count, wrap, over) refl

-- A crash in DeallocatePage of the last page, between the truncation of the relation's file and the
-- write of the allocator's file, leaves a relation that cannot be opened again.
pub deallocate_crash :
    (h : RelationHandle) (p : ℕ)
    → IsSettled h
    → p + 1 ≡ h.num_pages
    → (d : RelationHandle) × (drop_page p h ≡ ok d)
      × (open_relation d.file h.allocator_state ≡ err too_many_pages)
unfolding open_relation opened_with
deallocate_crash h p s last =
    let i = s.allocator in
    let (d, e, dropped) = drop_page-IsDropped h p s.allocator (omega arith) in
    let gone : view d p ≡ none = dropped.views p ∙ rw (==_refl p) refl in
    let shorter : d.num_pages < h.num_pages = fewer d p last gone dropped.fewer dropped.ends_live in
    let pages : (length d.file / page_size) % 2 ^ 32 ≡ d.num_pages =
      pages_of_length d.file d.num_pages (dropped.exact s.exact) dropped.allocator.small in
    let opened = opened_with d.file h.allocator_state in
    let load = λ (n : ℕ). load_allocator_state h.allocator_state n in
    let few : length h.free_pages ≤ h.num_pages = omega (
      arith,
      length-Ascending 0 h.num_pages h.free_pages (omega arith)
          (All-map (λ (x : ℕ) (l : x < h.num_pages). omega arith) h.free_pages i.below) i.ascending
          i.below,
    ) in
    let refused : load d.num_pages ≡ err too_many_pages =
      ap (λ (o : Option (List Line)). load_allocator_state o d.num_pages) s.saved
      ∙ load-too_many d.num_pages h.num_pages h.free_pages shorter i.small few in
    (d, e, ap (λ (n : ℕ). opened n (load n)) pages ∙ ap (opened d.num_pages) refused)
  where
    fewer :
        (d : RelationHandle) (p : ℕ)
        → p + 1 ≡ h.num_pages
        → view d p ≡ none
        → d.num_pages ≤ h.num_pages
        → (d.num_pages ≡ 0) ⊎ (live d (d.num_pages - 1) ≡ true)
        → d.num_pages < h.num_pages
    fewer d p last gone le (inl empty) = omega arith
    fewer d p last gone le (inr ends) = elim (Bool-cases (d.num_pages == h.num_pages)) [
      | inr differ ↦ ground arith
      | inl same ↦
          let at : d.num_pages - 1 ≡ p = ground (arith, last) in
          let kept = subst (λ (q : ℕ). live d q ≡ true) at ends in
          absurd (ground (arith, gone, view-some d p (page_of p d.file) kept refl))
    ]
