-- ===== src/Disk/Views.antt =====
-- What a relation's file holds: the pages that are live, with their contents, and the invariant of
-- the allocator.
use granite_db.Prelude.{
  ℕ, ◌+◌, ◌*◌, ◌^◌, ◌≤◌, ◌<◌, ◌≡◌, refl, sym, ap, ◌∙◌, subst, Bool, true, false, not, ◌&&◌, ◌||◌,
  List, [], ◌∷◌, All, All-map, Option, none, some, length, ltb, ◌==◌, ==_iff, if◌then◌else◌, arith,
  Bool-cases, inl, inr,
}
use granite_db.Types.{page_size}
use granite_db.Disk.{RelationHandle, set_insert}
use granite_db.Disk.Files.{page_of}

unfoldable pub is_free : List ℕ → ℕ → Bool
is_free [] q = false
is_free (x ∷ xs) q = x == q || is_free xs q

unfoldable pub live : RelationHandle → ℕ → Bool
unfolding is_free
live h p = ltb p h.num_pages && not (is_free h.free_pages p)

-- The abstract state of a relation: its live pages and their contents.
unfoldable pub view : RelationHandle → ℕ → Option (List ℕ)
unfolding live
view h p = if live h p then some (page_of p h.file) else none

abbrev pub Ascending : List ℕ → Type 0
Ascending [] = Unit
Ascending (x ∷ xs) = All (λ y. x < y) xs × Ascending xs

pub record IsAllocator (h : RelationHandle) : Type 0 where
  pub ascending : Ascending h.free_pages
  pub below : All (λ p. p < h.num_pages) h.free_pages
  pub whole : h.num_pages * page_size ≤ length h.file
  pub small : h.num_pages < 2 ^ 32

pub is_free-All : (P : ℕ → Type 0) (xs : List ℕ) (q : ℕ) → All P xs → is_free xs q ≡ true → P q
unfolding is_free
is_free-All P [] q h e = absurd (ground arith)
is_free-All P (x ∷ xs) q h e = elim (Bool-cases (x == q)) [
  | inl here ↦ subst P ((==_iff x q).0 here) h.0
  | inr other ↦ is_free-All P xs q h.1 (ground arith)
]

pub is_free-set_insert :
    (p : ℕ) (xs : List ℕ) (q : ℕ) → is_free (set_insert p xs) q ≡ (p == q || is_free xs q)
unfolding is_free set_insert
is_free-set_insert p [] q = ground arith
is_free-set_insert p (x ∷ xs) q = ground (arith, is_free-set_insert p xs q)

pub All-set_insert :
    (P : ℕ → Type 0) (p : ℕ) (xs : List ℕ) → P p → All P xs → All P (set_insert p xs)
unfolding set_insert
All-set_insert P p [] h k = (h, tt)
All-set_insert P p (x ∷ xs) h k = elim (Bool-cases (ltb p x)) [
  | inl first ↦ rw first (h, (k.0, k.1))
  | inr later ↦ elim (Bool-cases (p == x)) [
    | inl same ↦ rw (later, same) k
    | inr other ↦ rw (later, other) (k.0, All-set_insert P p xs h k.1)
  ]
]

pub Ascending-set_insert : (p : ℕ) (xs : List ℕ) → Ascending xs → Ascending (set_insert p xs)
unfolding set_insert
Ascending-set_insert p [] h = (tt, tt)
Ascending-set_insert p (x ∷ xs) h = elim (Bool-cases (ltb p x)) [
  | inl first ↦
      let less : p < x = ground arith in
      rw first ((less, All-map (λ (y : ℕ) (l : x < y). omega (arith, less)) xs h.0), h)
  | inr later ↦ elim (Bool-cases (p == x)) [
    | inl same ↦ rw (later, same) h
    | inr other ↦
        let more : x < p = ground arith in
        rw (later, other) (All-set_insert (λ y. x < y) p xs more h.0, Ascending-set_insert p xs h.1)
  ]
]

pub view-some :
    (h : RelationHandle) (q : ℕ) (c : List ℕ)
    → live h q ≡ true
    → page_of q h.file ≡ c
    → view h q ≡ some c
unfolding view
view-some h q c e same = rw (view, e) (ap some same)

pub view-none : (h : RelationHandle) (q : ℕ) → live h q ≡ false → view h q ≡ none
unfolding view
view-none h q e = rw (view, e) refl

pub view-same :
    (h h' : RelationHandle) (q : ℕ)
    → live h' q ≡ live h q
    → (live h q ≡ true → page_of q h'.file ≡ page_of q h.file)
    → view h' q ≡ view h q
view-same h h' q e same = elim (Bool-cases (live h q)) [
  | inl is_live ↦
      view-some h' q (page_of q h.file) (e ∙ is_live) (same is_live)
      ∙ sym (view-some h q (page_of q h.file) is_live refl)
  | inr not_live ↦ view-none h' q (e ∙ not_live) ∙ sym (view-none h q not_live)
]

-- A live page lies in the file.
pub live-inside :
    (h : RelationHandle) (q : ℕ)
    → IsAllocator h
    → live h q ≡ true
    → (q + 1) * page_size ≤ length h.file
unfolding live
live-inside h q i e = let less : q < h.num_pages = ground arith in omega (arith, less, i.whole)
