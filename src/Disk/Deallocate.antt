-- ===== src/Disk/Deallocate.antt =====
-- DeallocatePage of storage/disk_manager.cpp frees one page, and leaves no free page at the end.
use granite_db.Prelude.{
  ℕ, ◌-◌, ◌*◌, ◌≤◌, ◌<◌, ◌≡◌, refl, ◌∙◌, true, false, List, none, length, leb, ◌==◌, if◌then◌else◌,
  arith, Bool-cases, inl, inr, ◌⊎◌, ok,
}
use granite_db.Types.{page_size}
use granite_db.Disk.{
  RelationHandle, resize, set_insert, trim_loop, trim_trailing_free_pages, drop_page, deallocate,
  persist_allocator_state,
}
use granite_db.Disk.Files.{page_of, page_of-resize, length-resize}
use granite_db.Disk.Trim.{Trimmed, trim_loop-Trimmed}
use granite_db.Disk.Views.{
  live, view, IsAllocator, is_free-set_insert, All-set_insert, Ascending-set_insert, view-none,
  view-same,
}

-- The page `p` is gone, and the last page of the file is in use.
pub record IsDropped (h : RelationHandle) (p : ℕ) (h' : RelationHandle) : Type 0 where
  pub allocator : IsAllocator h'
  pub views : (q : ℕ) → view h' q ≡ (if q == p then none else view h q)
  pub ends_live : (h'.num_pages ≡ 0) ⊎ (live h' (h'.num_pages - 1) ≡ true)
  pub fewer : h'.num_pages ≤ h.num_pages
  pub exact : length h.file ≡ h.num_pages * page_size → length h'.file ≡ h'.num_pages * page_size

-- Trimming changes no view.
record IsSame (h h' : RelationHandle) : Type 0 where
  allocator : IsAllocator h'
  views : (q : ℕ) → view h' q ≡ view h q
  ends_live : (h'.num_pages ≡ 0) ⊎ (live h' (h'.num_pages - 1) ≡ true)
  fewer : h'.num_pages ≤ h.num_pages
  exact : length h.file ≡ h.num_pages * page_size → length h'.file ≡ h'.num_pages * page_size

Trimmed-IsSame :
    (h : RelationHandle) (r : List ℕ × ℕ) (file : List ℕ)
    → IsAllocator h
    → Trimmed h.free_pages h.num_pages r
    → r.1 * page_size ≤ length file
    → ((q : ℕ) → q < r.1 → page_of q file ≡ page_of q h.file)
    → (length h.file ≡ h.num_pages * page_size → length file ≡ r.1 * page_size)
    → IsSame h (record h { free_pages = r.0; num_pages = r.1; file = file })
unfolding live
Trimmed-IsSame h r file i t whole pages exact =
    let h' = record h { free_pages = r.0; num_pages = r.1; file = file } in
    record {
      allocator = record {
        ascending = t.ascending;
        below = t.below;
        whole = whole;
        small = omega (arith, i.small, t.fewer);
      };
      views = λ q.
          let same : live h' q ≡ live h q = ground (arith, t.fewer, t.same q, t.gone q) in
          view-same h h' q same (λ l. pages q (ground (arith, same)));
      ends_live = ground (arith, t.ends);
      fewer = t.fewer;
      exact = exact;
    }

trim-IsSame : (h : RelationHandle) → IsAllocator h → IsSame h (trim_trailing_free_pages h)
unfolding trim_trailing_free_pages
trim-IsSame h i =
    let r = trim_loop h.free_pages h.num_pages in
    let t = trim_loop-Trimmed h.free_pages h.num_pages i.small i.ascending i.below in
    elim (Bool-cases (r.1 == h.num_pages)) [
      | inl all ↦ rw all (
          Trimmed-IsSame h r h.file i t (omega (arith, t.fewer, i.whole)) (λ q l. refl)
            (λ e. ground (arith, e)))
      | inr some_gone ↦ rw some_gone (
          Trimmed-IsSame h r (resize (r.1 * page_size) h.file) i t
            (omega (arith, length-resize (r.1 * page_size) h.file))
            (λ q l.
              page_of-resize q (r.1 * page_size) h.file (omega (arith, l))
                (omega (arith, l, t.fewer, i.whole)))
            (λ e. length-resize (r.1 * page_size) h.file))
    ]

inserted-IsAllocator :
    (h : RelationHandle) (p : ℕ)
    → IsAllocator h
    → p < h.num_pages
    → IsAllocator (record h { free_pages = set_insert p h.free_pages })
inserted-IsAllocator h p i l = record {
  ascending = Ascending-set_insert p h.free_pages i.ascending;
  below = All-set_insert (λ q. q < h.num_pages) p h.free_pages l i.below;
  whole = i.whole;
  small = i.small;
}

pub drop_page-IsDropped :
    (h : RelationHandle) (p : ℕ)
    → IsAllocator h
    → p < h.num_pages
    → (h' : RelationHandle) × (drop_page p h ≡ ok h') × IsDropped h p h'
unfolding drop_page live
drop_page-IsDropped h p i l =
    let g = record h { free_pages = set_insert p h.free_pages } in
    let s = trim-IsSame g (inserted-IsAllocator h p i l) in
    let here : leb h.num_pages p ≡ false = ground arith in
    (
      trim_trailing_free_pages g,
      rw here refl,
      record {
        allocator = s.allocator;
        ends_live = s.ends_live;
        fewer = s.fewer;
        exact = s.exact;
        views = λ q. s.views q ∙ elim (Bool-cases (q == p)) [
          | inl same ↦ rw same (view-none g q (ground (arith, is_free-set_insert p h.free_pages q)))
          | inr other ↦
              rw other
                (view-same h g q (ground (arith, is_free-set_insert p h.free_pages q)) (λ _. refl))
        ];
      },
    )

-- DeallocatePage on a page of the file keeps the allocator's invariant and takes exactly that page from
-- the relation: the other pages keep their contents. The file then ends with a page in use, or is
-- empty.
pub deallocate-IsDropped :
    (h : RelationHandle) (p : ℕ)
    → IsAllocator h
    → p < h.num_pages
    → (h' : RelationHandle) × (deallocate p h ≡ ok h') × IsDropped h p h'
unfolding deallocate persist_allocator_state view live
deallocate-IsDropped h p i l =
    let (h', e, dropped) = drop_page-IsDropped h p i l in
    (
      persist_allocator_state h',
      rw e refl,
      record {
        allocator = record {
          ascending = dropped.allocator.ascending;
          below = dropped.allocator.below;
          whole = dropped.allocator.whole;
          small = dropped.allocator.small;
        };
        views = dropped.views;
        ends_live = dropped.ends_live;
        fewer = dropped.fewer;
        exact = dropped.exact;
      },
    )
