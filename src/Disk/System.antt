-- ===== src/Disk/System.antt =====
-- Every relation that the calls of storage/disk_manager.cpp build, and that it opens again as it was.
use granite_db.Prelude.{
  ℕ, ◌+◌, ◌*◌, ◌%◌, ◌^◌, ◌<◌, ◌≡◌, refl, sym, ap, ◌∙◌, subst, List, [], ◌∷◌, All, some, length, leb,
  arith, Bool-cases, inl, inr, Result, ok, err, ◌>>=◌,
}
use native.Mathlib.Nat.{mod-eq_of_lt}
use granite_db.Types.{page_size}
use granite_db.Row.Bitmap.{zeros, length-zeros}
use granite_db.Disk.{
  RelationHandle, DiskError, file_offset, write_at, zero_page, persist_allocator_state, take_page,
  allocate, deallocate, drop_page, write_page_no, create_relation, open_relation,
  load_allocator_state, load_free_pages, serialize_free_list,
}
use granite_db.Disk.Files.{length-write_at}
use granite_db.Disk.Allocate.{allocate-IsTaken}
use granite_db.Disk.Deallocate.{deallocate-IsDropped}
use granite_db.Disk.Reopen.{IsSettled, open_relation-settled}

pub data Reached : RelationHandle → Type 0 where
  creates : (h : RelationHandle) → create_relation ≡ ok h → Reached h
  allocates : (h : RelationHandle) → Reached h → h.num_pages + 1 < 2 ^ 32 → Reached (allocate h).1
  deallocates : (h h' : RelationHandle) (p : ℕ) → Reached h → deallocate p h ≡ ok h' → Reached h'
  writes :
      (h h' : RelationHandle) (p : ℕ) (bytes : List ℕ)
      → Reached h
      → length bytes ≡ page_size
      → write_page_no p bytes h ≡ ok h'
      → Reached h'

ok-same : (a b : RelationHandle) (r : Result DiskError RelationHandle) → r ≡ ok a → r ≡ ok b → a ≡ b
ok-same a b r e e' = ap (λ (s : Result DiskError RelationHandle). value s) (sym e ∙ e')
  where
    value : Result DiskError RelationHandle → RelationHandle
    value (ok x) = x
    value (err _) = a

no_pages : RelationHandle
no_pages = record {
  file = [];
  allocator_state = some (serialize_free_list 0 []);
  num_pages = 0;
  free_pages = [];
}

created-IsSettled : (h : RelationHandle) → create_relation ≡ ok h → IsSettled h
unfolding create_relation open_relation load_allocator_state serialize_free_list load_free_pages
    no_pages
created-IsSettled h e = subst IsSettled (ok-same no_pages h create_relation refl e) (record {
  allocator = record { ascending = tt; below = tt; whole = omega arith; small = omega arith };
  exact = refl;
  saved = refl;
})

-- The file after AllocatePage.
length-take_page :
    (h : RelationHandle)
    → IsSettled h
    → h.num_pages + 1 < 2 ^ 32
    → length (take_page h).1.file ≡ (take_page h).1.num_pages * page_size
unfolding take_page zero_page
length-take_page h s room = go h.free_pages refl
  where
    taken : List ℕ → ℕ × RelationHandle
    taken fs = elim fs [
      | [] ↦ (
        h.num_pages,
        record h {
          file = write_at (file_offset h.num_pages) (zeros page_size) h.file;
          num_pages = (h.num_pages + 1) % 2 ^ 32;
        },
      )
      | p ∷ rest ↦ (p, zero_page p (record h { free_pages = rest }))
    ]

    Exact : ℕ × RelationHandle → Type 0
    Exact r = length r.1.file ≡ r.1.num_pages * page_size

    go : (fs : List ℕ) → h.free_pages ≡ fs → Exact (take_page h)
    go [] e =
        let wrap : (h.num_pages + 1) % 2 ^ 32 ≡ h.num_pages + 1 = mod-eq_of_lt room in
        subst Exact (sym (ap taken e)) (
          omega (
            arith,
            wrap,
            s.exact,
            length-write_at (file_offset h.num_pages) (zeros page_size) h.file,
            length-zeros page_size,
          ))
    go (p ∷ rest) e =
        let below = subst (All (λ q. q < h.num_pages)) e s.allocator.below in
        subst Exact (sym (ap taken e)) (
          omega (
            arith,
            s.exact,
            below.0,
            length-write_at (file_offset p) (zeros page_size) h.file,
            length-zeros page_size,
          ))

allocated-IsSettled :
    (h : RelationHandle) → IsSettled h → h.num_pages + 1 < 2 ^ 32 → IsSettled (allocate h).1
unfolding allocate persist_allocator_state
allocated-IsSettled h s room = record {
  allocator = (allocate-IsTaken h s.allocator room).allocator;
  exact = length-take_page h s room;
  saved = refl;
}

saved-deallocate :
    (h h' : RelationHandle) (p : ℕ)
    → deallocate p h ≡ ok h'
    → h'.allocator_state ≡ some (serialize_free_list h'.num_pages h'.free_pages)
unfolding deallocate persist_allocator_state
saved-deallocate h h' p e = go (drop_page p h) e
  where
    go :
        (r : Result DiskError RelationHandle)
        → (r >>= λ d. ok (persist_allocator_state d)) ≡ ok h'
        → h'.allocator_state ≡ some (serialize_free_list h'.num_pages h'.free_pages)
    go (err x) e = absurd (ground arith)
    go (ok d) e =
        subst
          (λ (k : RelationHandle).
            k.allocator_state ≡ some (serialize_free_list k.num_pages k.free_pages))
          (ok-same (persist_allocator_state d) h' (ok (persist_allocator_state d)) refl e) refl

deallocated-IsSettled :
    (h h' : RelationHandle) (p : ℕ) → IsSettled h → deallocate p h ≡ ok h' → IsSettled h'
unfolding deallocate drop_page persist_allocator_state
deallocated-IsSettled h h' p s e = elim (Bool-cases (leb h.num_pages p)) [
  | inl outside ↦ let e' = rw (deallocate, drop_page, outside) at e in absurd (ground (arith, e'))
  | inr inside ↦
      let (d, at, dropped) = deallocate-IsDropped h p s.allocator (ground arith) in
      let same : d ≡ h' = ok-same d h' (deallocate p h) at e in
      subst IsSettled same (record {
        allocator = dropped.allocator;
        exact = dropped.exact s.exact;
        saved = saved-deallocate h d p at;
      })
]

written-IsSettled :
    (h h' : RelationHandle) (p : ℕ) (bytes : List ℕ)
    → IsSettled h
    → length bytes ≡ page_size
    → write_page_no p bytes h ≡ ok h'
    → IsSettled h'
unfolding write_page_no
written-IsSettled h h' p bytes s size e = elim (Bool-cases (leb h.num_pages p)) [
  | inl outside ↦ let e' = rw (write_page_no, outside) at e in absurd (ground (arith, e'))
  | inr inside ↦
      let i = s.allocator in
      let written = record h { file = write_at (file_offset p) bytes h.file } in
      let size' = length-write_at (file_offset p) bytes h.file in
      subst IsSettled (ok-same written h' (write_page_no p bytes h) (rw inside refl) e) (record {
        allocator = record {
          ascending = i.ascending;
          below = i.below;
          whole = omega (arith, i.whole, size');
          small = i.small;
        };
        exact = ground (arith, s.exact, size', size);
        saved = s.saved;
      })
]

Reached-IsSettled : {h : RelationHandle} → Reached h → IsSettled h
Reached-IsSettled (creates h e) = created-IsSettled h e
Reached-IsSettled (allocates h r room) = allocated-IsSettled h (Reached-IsSettled r) room
Reached-IsSettled (deallocates h h' p r e) = deallocated-IsSettled h h' p (Reached-IsSettled r) e
Reached-IsSettled (writes h h' p bytes r size e) =
    written-IsSettled h h' p bytes (Reached-IsSettled r) size e

-- After any calls of CreateRelation, AllocatePage, DeallocatePage and WritePage with whole pages, while
-- page numbers are left: the relation opens again from its two files as it was, with the same number of
-- pages, the same free pages and the same contents.
pub Reached-reopens :
    (h : RelationHandle) → Reached h → open_relation h.file h.allocator_state ≡ ok h
Reached-reopens h r = open_relation-settled h (Reached-IsSettled r)
