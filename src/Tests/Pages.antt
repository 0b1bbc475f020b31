-- ===== src/Tests/Pages.antt =====
-- storage/slotted_page.cpp on small pages.
use granite_db.Prelude.{
  ℕ, zero, suc, ◌+◌, ◌≤◌, ◌<◌, ◌≡◌, ◌≢◌, refl, subst, true, get_elem?, List, [], ◌∷◌, none, some,
  ok, length, arith, ◌⊎◌, ◌>>=◌,
}
use granite_db.Types.{page_size}
use granite_db.Row.Bitmap.{zeros, length-zeros}
use granite_db.Slotted.{
  heap, occupied, SlotEntry, SlottedPage, initialize, get_record, insert_record, compact_page,
  get_max_insertable_bytes_after_compaction, is_occupied, is_deleted_state, delete_record,
  overwrite_record,
}
use granite_db.Slotted.Layout.{IsSlotted, total, live_size, dead_size}
use granite_db.Slotted.Insert.Room.{insert_record_lem}
use granite_db.Slotted.Insert.Lost.{refused_although_fits}
use granite_db.Slotted.Requests.{
  Request, insert, delete, overwrite, compact, Reply, inserted, done, serve_all, Contents, AllObey,
  serve_all-Refines, serve_all-IsSlotted, fresh, fresh-IsSlotted,
}

abbrev calls : List Request
calls =
    insert (1 ∷ 2 ∷ 3 ∷ [])
    ∷ insert (4 ∷ [])
    ∷ overwrite 0 (5 ∷ [])
    ∷ delete 1
    ∷ compact
    ∷ insert (6 ∷ 7 ∷ [])
    ∷ []

calls_replies :
    (serve_all calls (fresh heap 16) >>= λ (p, replies). ok replies)
    ≡ ok (
        inserted (some 0)
        ∷ inserted (some 1)
        ∷ done true
        ∷ done true
        ∷ done true
        ∷ inserted (some 1)
        ∷ [])
unfolding serve_all insert_record delete_record overwrite_record
calls_replies = refl

serve_all-Refines_example :
    (p : SlottedPage) × (q : SlottedPage) × (replies : List Reply) × (c : Contents) × (initialize
        heap 16
      ≡ ok p)
    × (serve_all calls p ≡ ok (q, replies))
    × AllObey calls replies (λ n. none) c
    × ((n : ℕ) → get_record q n ≡ ok (c n))
serve_all-Refines_example = serve_all-Refines heap 16 calls (omega arith)

serve_all-IsSlotted_example :
    (p : SlottedPage) × (q : SlottedPage) × (replies : List Reply) × (initialize heap 16 ≡ ok p)
    × (serve_all calls p ≡ ok (q, replies))
    × IsSlotted q
serve_all-IsSlotted_example = serve_all-IsSlotted heap 16 calls (omega arith)

insert_record_lem_example :
    (max : ℕ) × (get_max_insertable_bytes_after_compaction (fresh heap 0) ≡ ok max)
    × (((max < 2) × (insert_record (fresh heap 0) (6 ∷ 7 ∷ []) ≡ ok (fresh heap 0, none)))
        ⊎ ((q : SlottedPage) × (n : ℕ) × (2 ≤ max)
            × (insert_record (fresh heap 0) (6 ∷ 7 ∷ []) ≡ ok (q, some n))
            × (get_record (fresh heap 0) n ≡ ok none)
            × (get_record q n ≡ ok (some (6 ∷ 7 ∷ [])))
            × ((m : ℕ) → m ≢ n → get_record q m ≡ get_record (fresh heap 0) m)))
insert_record_lem_example =
    insert_record_lem (fresh heap 0) (6 ∷ 7 ∷ []) (fresh-IsSlotted heap 0 (omega arith))
      (omega arith)

abbrev leaked_entry : SlotEntry
leaked_entry = record { offset = 92; size = 100; state = occupied; reserved = 0 }

-- What inserting 8000 bytes, deleting them and inserting 100 bytes leaves: the directory up to 32,
-- one record from 92 on, and 8000 bytes behind it that no slot counts.
abbrev leaked : SlottedPage
leaked = record (fresh heap 0) { lower = 32; upper = 92; slots = leaked_entry ∷ [] }

one_slot :
    (t : SlotEntry) (n : ℕ) (s : SlotEntry) → get_elem? (t ∷ []) n ≡ some s → (n ≡ 0) × (t ≡ s)
one_slot t zero s e = (refl, ground arith)
one_slot t (suc n) s e = absurd (ground arith)

leaked-IsSlotted : IsSlotted leaked
unfolding total live_size is_occupied dead_size is_deleted_state
leaked-IsSlotted = record {
  directory = refl;
  lower_le = omega arith;
  upper_le = omega arith;
  special_le = omega arith;
  whole = length-zeros page_size;
  placed = record {
    within = λ n s e occ.
        subst (λ s. (92 ≤ s.offset) × (s.offset + s.size ≤ 8192)) (one_slot leaked_entry n s e).1
          (omega arith, omega arith);
    apart = λ m n s t ne e f a b.
        absurd
          (ne (omega (arith, (one_slot leaked_entry m s e).0, (one_slot leaked_entry n t f).0)));
  };
  counted = omega arith;
}

leaked_by_calls :
    (serve_all (insert (zeros 8000) ∷ delete 0 ∷ insert (zeros 100) ∷ []) (fresh heap 0)
      >>= λ (p, replies). ok (p.lower ∷ p.upper ∷ length p.slots ∷ []))
    ≡ ok (32 ∷ 92 ∷ 1 ∷ [])
unfolding serve_all zeros insert_record delete_record
leaked_by_calls = refl

refused_although_fits_example :
    (insert_record leaked (zeros 1000) ≡ ok (leaked, none))
    × ((q : SlottedPage) × (r : SlottedPage) × (n : ℕ) × (compact_page leaked ≡ ok q)
        × (insert_record q (zeros 1000) ≡ ok (r, some n)))
unfolding get_max_insertable_bytes_after_compaction zeros total live_size
refused_although_fits_example =
    refused_although_fits leaked (zeros 1000) 52 leaked-IsSlotted (omega (arith, length-zeros 1000))
      refl (omega (arith, length-zeros 1000)) (omega (arith, length-zeros 1000))
