-- ===== src/Slotted/Requests.antt =====
-- Any sequence of calls of storage/slotted_page.cpp on one page, against slots that hold records.
use granite_db.Prelude.{
  ℕ, ◌-◌, ◌≤◌, ◌≡◌, ◌≢◌, refl, ap, Bool, true, false, inl, inr, List, [], ◌∷◌, ◌++◌, Option, none,
  some, Result, ok, length, arith, ◌>>=◌,
}
use granite_db.Types.{page_size}
use granite_db.Slotted.{SlottedPage, insert_record, compact_page}
use granite_db.Slotted.Layout.{total, IsSlotted, record_of}
use granite_db.Slotted.Records.{view}
use granite_db.Slotted.Compact.Whole.{compact_page_lem}
use granite_db.Slotted.{
  PageError, PageType, page_header_size, initialize, get_record, delete_record, overwrite_record,
}
use granite_db.Row.Bitmap.{zeros, length-zeros}
use granite_db.Slotted.Layout.{get_record-IsSlotted}
use granite_db.Slotted.Records.{Refuses, delete_record_lem, overwrite_record_lem}
use granite_db.Slotted.Insert.Room.{insert_record-cases}

pub data Request : Type 0 where
  insert : List ℕ → Request
  delete : ℕ → Request
  overwrite : ℕ → List ℕ → Request
  compact : Request

pub data Reply : Type 0 where
  inserted : Option ℕ → Reply
  done : Bool → Reply

unfoldable pub serve : Request → SlottedPage → Result PageError (SlottedPage × Reply)
serve (insert bytes) p = insert_record p bytes >>= λ (q, n). ok (q, inserted n)
serve (delete n) p = let (q, b) = delete_record p n in ok (q, done b)
serve (overwrite n bytes) p = let (q, b) = overwrite_record p n bytes in ok (q, done b)
serve compact p = compact_page p >>= λ q. ok (q, done true)

unfoldable pub serve_all : List Request → SlottedPage → Result PageError (SlottedPage × List Reply)
unfolding serve
serve_all [] p = ok (p, [])
serve_all (r ∷ rs) p = do
  (q, reply) ← serve r p
  (final, replies) ← serve_all rs q
  ok (final, reply ∷ replies)

-- What the slots hold.
abbrev pub Contents : Type 0
Contents = ℕ → Option (List ℕ)

-- One slot changes.
unfoldable pub Updates : Contents → Contents → ℕ → Option (List ℕ) → Type 0
Updates c d n r = (d n ≡ r) × ((m : ℕ) → m ≢ n → d m ≡ c m)

-- The specification of a call: its reply, and the contents before and after it.
unfoldable pub Obeys : Request → Reply → Contents → Contents → Type 0
unfolding Updates Refuses
Obeys (insert bytes) (inserted none) c d = (n : ℕ) → d n ≡ c n
Obeys (insert bytes) (inserted (some n)) c d = (c n ≡ none) × Updates c d n (some bytes)
Obeys (insert bytes) (done b) c d = ⊥
Obeys (delete n) (done true) c d = (c n ≢ none) × Updates c d n none
Obeys (delete n) (done false) c d = (c n ≡ none) × ((m : ℕ) → d m ≡ c m)
Obeys (delete n) (inserted r) c d = ⊥
Obeys (overwrite n bytes) (done true) c d =
    (old : List ℕ) × (c n ≡ some old)
    × (length bytes ≤ length old)
    × Updates c d n (some (bytes ++ zeros (length old - length bytes)))
Obeys (overwrite n bytes) (done false) c d = Refuses (c n) bytes × ((m : ℕ) → d m ≡ c m)
Obeys (overwrite n bytes) (inserted r) c d = ⊥
Obeys compact reply c d = (n : ℕ) → d n ≡ c n

unfoldable pub AllObey : List Request → List Reply → Contents → Contents → Type 0
unfolding Obeys
AllObey [] [] c d = (n : ℕ) → d n ≡ c n
AllObey (r ∷ rs) (x ∷ xs) c e = (d : Contents) × Obeys r x c d × AllObey rs xs d e
AllObey _ _ c d = ⊥

insert-Obeys :
    (p : SlottedPage) (bytes : List ℕ)
    → IsSlotted p
    → (q : SlottedPage) × (reply : Reply) × (serve (insert bytes) p ≡ ok (q, reply))
      × IsSlotted q
      × Obeys (insert bytes) reply (view p) (view q)
unfolding serve Obeys Updates insert_record
insert-Obeys p [] h = (p, inserted none, refl, h, λ n. refl)
insert-Obeys p (b ∷ bytes) h = elim (insert_record-cases p (b ∷ bytes) h (omega arith)) [
  | inl full ↦ (p, inserted none, ap (λ r. r >>= λ (q, n). ok (q, inserted n)) full.1, h, λ n. refl)
  | inr found ↦
      let (q, n, enough, e, free, b) = found in
      (
        q,
        inserted (some n),
        ap (λ r. r >>= λ (q, n). ok (q, inserted n)) e,
        b.sound,
        (free, (b.here, b.others)),
      )
]

delete-Obeys :
    (p : SlottedPage) (n : ℕ)
    → IsSlotted p
    → (q : SlottedPage) × (reply : Reply) × (serve (delete n) p ≡ ok (q, reply))
      × IsSlotted q
      × Obeys (delete n) reply (view p) (view q)
unfolding serve Obeys Updates
delete-Obeys p n h = elim (delete_record_lem p n h) [
  | inl idle ↦ (p, done false, rw idle.1, h, (idle.0, λ m. refl))
  | inr found ↦
      let (q, busy, e, b) = found in (q, done true, rw e, b.sound, (busy, (b.here, b.others)))
]

overwrite-Obeys :
    (p : SlottedPage) (n : ℕ) (bytes : List ℕ)
    → IsSlotted p
    → (q : SlottedPage) × (reply : Reply) × (serve (overwrite n bytes) p ≡ ok (q, reply))
      × IsSlotted q
      × Obeys (overwrite n bytes) reply (view p) (view q)
unfolding serve Obeys Updates
overwrite-Obeys p n bytes h = elim (overwrite_record_lem p n bytes h) [
  | inl refused ↦ (p, done false, rw refused.1, h, (refused.0, λ m. refl))
  | inr found ↦
      let (q, old, seen, fits, e, b) = found in
      (q, done true, rw e, b.sound, (old, seen, fits, (b.here, b.others)))
]

compact-Obeys :
    (p : SlottedPage)
    → IsSlotted p
    → (q : SlottedPage) × (reply : Reply) × (serve compact p ≡ ok (q, reply))
      × IsSlotted q
      × Obeys compact reply (view p) (view q)
unfolding serve Obeys
compact-Obeys p h = let (q, e, c) = compact_page_lem p h in (q, done true, rw e, c.sound, c.same)

-- Every call returns, keeps the layout, and does what the specification says.
pub serve-Obeys :
    (r : Request) (p : SlottedPage)
    → IsSlotted p
    → (q : SlottedPage) × (reply : Reply) × (serve r p ≡ ok (q, reply))
      × IsSlotted q
      × Obeys r reply (view p) (view q)
serve-Obeys (insert bytes) p h = insert-Obeys p bytes h
serve-Obeys (delete n) p h = delete-Obeys p n h
serve-Obeys (overwrite n bytes) p h = overwrite-Obeys p n bytes h
serve-Obeys compact p h = compact-Obeys p h

serve_all-AllObey :
    (rs : List Request) (p : SlottedPage)
    → IsSlotted p
    → (q : SlottedPage) × (replies : List Reply) × (serve_all rs p ≡ ok (q, replies))
      × IsSlotted q
      × AllObey rs replies (view p) (view q)
unfolding serve_all AllObey
serve_all-AllObey [] p h = (p, [], refl, h, λ n. refl)
serve_all-AllObey (r ∷ rs) p h =
    let (q, reply, e, k, o) = serve-Obeys r p h in
    let (final, replies, f, l, os) = serve_all-AllObey rs q k in
    (final, reply ∷ replies, rw (e, f), l, (view q, o, os))

abbrev pub fresh : PageType → ℕ → SlottedPage
fresh page_type special_size = record {
  page_lsn = 0;
  lower = page_header_size;
  upper = page_size - special_size;
  special = page_size - special_size;
  page_type = page_type;
  flags = 0;
  reserved = 0;
  slots = [];
  memory = zeros page_size;
}

pub fresh-IsSlotted :
    (page_type : PageType) (special_size : ℕ)
    → special_size ≤ page_size - page_header_size
    → IsSlotted (fresh page_type special_size)
unfolding total
fresh-IsSlotted page_type special_size le = record {
  directory = refl;
  lower_le = omega arith;
  upper_le = omega arith;
  special_le = omega arith;
  whole = length-zeros page_size;
  placed = record {
    within = λ n s e occ. absurd (ground arith);
    apart = λ m n s t ne e f a b. absurd (ground arith);
  };
  counted = omega arith;
}

-- From an initialized page on, every sequence of insertions, deletions, overwritings and compactions
-- returns, replies as slots that hold records would, and leaves the page showing what they hold.
pub serve_all-Refines :
    (page_type : PageType) (special_size : ℕ) (rs : List Request)
    → special_size ≤ page_size - page_header_size
    → (p : SlottedPage) × (q : SlottedPage) × (replies : List Reply) × (c : Contents) × (initialize
          page_type special_size
        ≡ ok p)
      × (serve_all rs p ≡ ok (q, replies))
      × AllObey rs replies (λ n. none) c
      × ((n : ℕ) → get_record q n ≡ ok (c n))
unfolding initialize view record_of
serve_all-Refines page_type special_size rs le =
    let h = fresh-IsSlotted page_type special_size le in
    let (q, replies, e, k, o) = serve_all-AllObey rs (fresh page_type special_size) h in
    (
      fresh page_type special_size,
      q,
      replies,
      view q,
      ground arith,
      e,
      o,
      (λ n. get_record-IsSlotted q n k),
    )

-- On every page that calls made from an initialized one, the directory stands before the records and
-- these before the special space, all of them within the page, and no record over another.
pub serve_all-IsSlotted :
    (page_type : PageType) (special_size : ℕ) (rs : List Request)
    → special_size ≤ page_size - page_header_size
    → (p : SlottedPage) × (q : SlottedPage) × (replies : List Reply) × (initialize page_type
          special_size
        ≡ ok p)
      × (serve_all rs p ≡ ok (q, replies))
      × IsSlotted q
unfolding initialize
serve_all-IsSlotted page_type special_size rs le =
    let h = fresh-IsSlotted page_type special_size le in
    let (q, replies, e, k, o) = serve_all-AllObey rs (fresh page_type special_size) h in
    (fresh page_type special_size, q, replies, ground arith, e, k)
