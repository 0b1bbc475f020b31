-- ===== src/FreeSpace/Candidates.antt =====
-- Which pages FreeSpaceMap::GetCandidatePages of storage/free_space_map.cpp finds.
use granite_db.Prelude.{
  ℕ, zero, suc, ◌+◌, ◌-◌, ◌/◌, ◌≤◌, ◌<◌, ◌≡◌, refl, ap, ◌∙◌, subst, Bool, true, false, not, ◌&&◌,
  ◌||◌, List, [], ◌∷◌, ◌++◌, ltb, ◌==◌, ==_iff, ==_refl, Bool-cases, inl, inr, set, length,
  length-append, length-set, get_elem?-set_self, arith, if◌then◌else◌,
}
use native.Mathlib.Nat.{le-div_iff_mul-le, mul-div-le, mul_comm}
use granite_db.FreeSpace.{
  Entry, FreeSpaceMap, remove_page_no, insert_page_no, default_entries, ensure_page_capacity,
  drop_from, add_to, update_page_free_space, bucket_for_free_bytes, entry_at, bucket_at, contains,
  fitting, collect, get_candidate_pages,
}

contains-append :
    (p : ℕ) (xs ys : List ℕ) → contains p (xs ++ ys) ≡ (contains p xs || contains p ys)
unfolding contains
contains-append p [] ys = refl
contains-append p (x ∷ xs) ys = ground (arith, contains-append p xs ys)

contains-fitting :
    (m : FreeSpaceMap) (required_free p : ℕ) (ps : List ℕ)
    → contains p (fitting m required_free ps) ≡ (
        contains p ps
        && ((entry_at m.page_entries p).present
            && not (ltb (entry_at m.page_entries p).exact_free_bytes required_free)))
unfolding contains fitting
contains-fitting m required_free p [] = refl
contains-fitting m required_free p (q ∷ ps) =
    ground (arith, contains-fitting m required_free p ps, ==_iff q p)

contains-collect :
    (m : FreeSpaceMap) (required_free start count p i : ℕ)
    → start ≤ i
    → i < start + count
    → contains p (bucket_at m.buckets i) ≡ true
    → (entry_at m.page_entries p).present ≡ true
    → required_free ≤ (entry_at m.page_entries p).exact_free_bytes
    → contains p (collect m required_free start count) ≡ true
unfolding collect
contains-collect m required_free start zero p i lo hi c e f = absurd (omega arith)
contains-collect m required_free start (suc count) p i lo hi c e f =
    elim (Bool-cases (i == start + count)) [
      | inl same ↦
          let here : contains p (bucket_at m.buckets (start + count)) ≡ true =
            subst (λ k. contains p (bucket_at m.buckets k) ≡ true)
              ((==_iff i (start + count)).0 same) c in
          ground (
            arith,
            contains-append p (fitting m required_free (bucket_at m.buckets (start + count)))
                (collect m required_free start count),
            contains-fitting m required_free p (bucket_at m.buckets (start + count)),
          )
      | inr other ↦
          let below : i < start + count = ground arith in
          ground (
            arith,
            contains-append p (fitting m required_free (bucket_at m.buckets (start + count)))
                (collect m required_free start count),
            contains-collect m required_free start count p i lo below c e f,
          )
    ]

collect-fits :
    (m : FreeSpaceMap) (required_free start count p : ℕ)
    → contains p (collect m required_free start count) ≡ true
    → required_free ≤ (entry_at m.page_entries p).exact_free_bytes
unfolding collect contains
collect-fits m required_free start zero p c = ground arith
collect-fits m required_free start (suc count) p c = ground (
  arith,
  contains-append p (fitting m required_free (bucket_at m.buckets (start + count)))
      (collect m required_free start count),
  contains-fitting m required_free p (bucket_at m.buckets (start + count)),
  collect-fits m required_free start count p,
)

div_mono : (k a b : ℕ) → 0 < k → a ≤ b → a / k ≤ b / k
div_mono k a b h le =
    (le-div_iff_mul-le {k = k} {x = a / k} {y = b} h).1
      (omega (arith, mul-div-le a k, mul_comm (a / k) k))

-- The map has buckets, one list for each.
unfoldable pub IsSized : FreeSpaceMap → Type 0
IsSized m = (0 < m.bucket_size) × (0 < m.num_buckets) × (length m.buckets ≡ m.num_buckets)

bucket_for_free_bytes-le :
    (m : FreeSpaceMap) (a b : ℕ)
    → IsSized m
    → a ≤ b
    → (bucket_for_free_bytes m a ≤ bucket_for_free_bytes m b)
      × (bucket_for_free_bytes m b < m.num_buckets)
unfolding bucket_for_free_bytes IsSized
bucket_for_free_bytes-le m a b s le = ground (arith, div_mono m.bucket_size a b s.0 le)

entry_at-set :
    (entries : List Entry) (p : ℕ) (e : Entry)
    → p < length entries
    → entry_at (set entries p e) p ≡ e
unfolding entry_at
entry_at-set entries p e h = ground (arith, get_elem?-set_self entries p e h)

bucket_at-set :
    (buckets : List (List ℕ)) (i : ℕ) (ps : List ℕ)
    → i < length buckets
    → bucket_at (set buckets i ps) i ≡ ps
unfolding bucket_at
bucket_at-set buckets i ps h = ground (arith, get_elem?-set_self buckets i ps h)

length-default_entries : (n : ℕ) → length (default_entries n) ≡ n
unfolding default_entries
length-default_entries zero = refl
length-default_entries (suc n) = ap suc (length-default_entries n)

length-ensure_page_capacity :
    (p : ℕ) (entries : List Entry) → p < length (ensure_page_capacity p entries)
unfolding ensure_page_capacity
length-ensure_page_capacity p entries = ground (
  arith,
  length-append entries (default_entries (suc p - length entries)),
  length-default_entries (suc p - length entries),
)

contains-insert_page_no : (p : ℕ) (ps : List ℕ) → contains p (insert_page_no p ps) ≡ true
unfolding insert_page_no contains
contains-insert_page_no p ps = ground (arith, ==_refl p)

length-drop_from :
    (i p : ℕ) (buckets : List (List ℕ)) → length (drop_from i p buckets) ≡ length buckets
unfolding drop_from
length-drop_from i p buckets = length-set buckets i (remove_page_no p (bucket_at buckets i))

length-dropped :
    (b : Bool) (i p : ℕ) (buckets : List (List ℕ))
    → length (if b then drop_from i p buckets else buckets) ≡ length buckets
length-dropped true i p buckets = length-drop_from i p buckets
length-dropped false i p buckets = refl

add_to-contains :
    (i p : ℕ) (buckets : List (List ℕ))
    → i < length buckets
    → contains p (bucket_at (add_to i p buckets) i) ≡ true
unfolding add_to
add_to-contains i p buckets h =
    ap (contains p) (bucket_at-set buckets i (insert_page_no p (bucket_at buckets i)) h)
    ∙ contains-insert_page_no p (bucket_at buckets i)

length-add_to : (i p : ℕ) (buckets : List (List ℕ)) → length (add_to i p buckets) ≡ length buckets
unfolding add_to
length-add_to i p buckets = length-set buckets i (insert_page_no p (bucket_at buckets i))

-- A page that is listed in the bucket of its free bytes is a candidate exactly when it has the
-- bytes.
listed-candidate :
    (m : FreeSpaceMap) (p free_bytes required_free : ℕ)
    → IsSized m
    → (entry_at m.page_entries p).present ≡ true
    → (entry_at m.page_entries p).exact_free_bytes ≡ free_bytes
    → contains p (bucket_at m.buckets (bucket_for_free_bytes m free_bytes)) ≡ true
    → contains p (get_candidate_pages m required_free) ≡ not (ltb free_bytes required_free)
unfolding get_candidate_pages
listed-candidate m p free_bytes required_free s e f c =
    let start : ℕ = bucket_for_free_bytes m required_free in
    let count : ℕ = m.num_buckets - start in
    elim (Bool-cases (ltb free_bytes required_free)) [
      | inr enough ↦
          let le : required_free ≤ free_bytes = ground arith in
          let order = bucket_for_free_bytes-le m required_free free_bytes s le in
          let found =
            contains-collect m required_free start count p (bucket_for_free_bytes m free_bytes)
              order.0 (omega (arith, order.0, order.1)) c e (omega (arith, f)) in
          ground (arith, found)
      | inl short ↦ ground (arith, collect-fits m required_free start count p)
    ]

-- A page whose free bytes were just set is among the candidates for a request exactly when it has
-- the bytes.
pub update-candidate :
    (m : FreeSpaceMap) (p free_bytes required_free : ℕ)
    → IsSized m
    → contains p (get_candidate_pages (update_page_free_space p free_bytes m) required_free)
      ≡ not (ltb free_bytes required_free)
unfolding update_page_free_space IsSized bucket_for_free_bytes
update-candidate m p free_bytes required_free s =
    listed-candidate after p free_bytes required_free sized (ap (λ e. e.present) stored)
      (ap (λ e. e.exact_free_bytes) stored)
      (add_to-contains b p old (omega (arith, within, length-old)))
  where
    entries : List Entry
    entries = ensure_page_capacity p m.page_entries

    entry : Entry
    entry = entry_at entries p

    b : ℕ
    b = bucket_for_free_bytes m free_bytes

    fresh : Entry
    fresh = record { present = true; exact_free_bytes = free_bytes; bucket = b }

    old : List (List ℕ)
    old = if entry.present then drop_from entry.bucket p m.buckets else m.buckets

    length-old : length old ≡ m.num_buckets
    length-old = length-dropped entry.present entry.bucket p m.buckets ∙ s.2

    after : FreeSpaceMap
    after = update_page_free_space p free_bytes m

    stored : entry_at after.page_entries p ≡ fresh
    stored = entry_at-set entries p fresh (length-ensure_page_capacity p m.page_entries)

    sized : IsSized after
    sized = (s.0, s.1, length-add_to b p old ∙ length-old)

    within : b < m.num_buckets
    within = (bucket_for_free_bytes-le m free_bytes free_bytes s (omega arith)).1
