-- ===== src/Slotted/Insert/Room.antt =====
-- When InsertRecord of storage/slotted_page.cpp finds room.
use granite_db.Prelude.{
  ℕ, ◌-◌, ◌≤◌, ◌<◌, ◌≡◌, ◌≢◌, sym, ap, ◌∙◌, false, ◌⊎◌, inl, inr, List, none, some, ok, length,
  ◌==◌, if◌then◌else◌, arith,
}
use granite_db.Slotted.{
  SlottedPage, find_reusable_slot, needs_new_slot, required,
  get_max_insertable_bytes_after_compaction, claim_slot, place_record, insert_record,
}
use granite_db.Slotted.Layout.{IsSlotted}
use granite_db.Slotted.Records.{view, Becomes}
use granite_db.Slotted.{get_record}
use granite_db.Slotted.Layout.{get_record-IsSlotted}
use granite_db.Slotted.Insert.{free_bytes, make_room_lem, get_total_lem}
use granite_db.Slotted.Insert.Place.{insert_with_room}

-- Inserting takes a free slot, or finds no room and changes nothing.
pub insert_record-cases :
    (p : SlottedPage) (bytes : List ℕ)
    → IsSlotted p
    → 0 < length bytes
    → let size = required (length bytes) (needs_new_slot (find_reusable_slot p.slots)) in
      ((free_bytes p < size) × (insert_record p bytes ≡ ok (p, none)))
      ⊎ ((q : SlottedPage) × (n : ℕ) × (size ≤ free_bytes p)
          × (insert_record p bytes ≡ ok (q, some n))
          × (view p n ≡ none)
          × Becomes p q n (some bytes))
unfolding insert_record
insert_record-cases p bytes h pos =
    let reusable = find_reusable_slot p.slots in
    let some_bytes : (length bytes == 0) ≡ false = ground arith in
    elim (make_room_lem p (length bytes) (needs_new_slot reusable) h pos) [
      | inl full ↦ inl (full.0, rw (insert_record, some_bytes, full.1))
      | inr found ↦
          let (q, enough, e, room) = found in
          let (free, b) = insert_with_room p q bytes room in
          let claimed = claim_slot q reusable in
          inr (
            place_record claimed.0 claimed.1 bytes,
            claimed.1,
            enough,
            rw (insert_record, some_bytes, e),
            free,
            b,
          )
    ]

get_max_lem :
    (p : SlottedPage)
    → IsSlotted p
    → get_max_insertable_bytes_after_compaction p
      ≡ ok (free_bytes p - (if needs_new_slot (find_reusable_slot p.slots) then 8 else 0))
unfolding get_max_insertable_bytes_after_compaction free_bytes
get_max_lem p h = rw (get_total_lem p h) (ground (arith, h.counted, h.special_le, h.lower_le))

-- A page takes a record that is not empty exactly if it is not longer than
-- GetMaxInsertableBytesAfterCompaction says; it goes to a slot without a record, and no other
-- record changes.
pub insert_record_lem :
    (p : SlottedPage) (bytes : List ℕ)
    → IsSlotted p
    → 0 < length bytes
    → (max : ℕ) × (get_max_insertable_bytes_after_compaction p ≡ ok max)
      × (((max < length bytes) × (insert_record p bytes ≡ ok (p, none)))
          ⊎ ((q : SlottedPage) × (n : ℕ) × (length bytes ≤ max)
              × (insert_record p bytes ≡ ok (q, some n))
              × (get_record p n ≡ ok none)
              × (get_record q n ≡ ok (some bytes))
              × ((m : ℕ) → m ≢ n → get_record q m ≡ get_record p m)))
unfolding required view
insert_record_lem p bytes h pos = (
  free_bytes p - (if needs_new_slot (find_reusable_slot p.slots) then 8 else 0),
  get_max_lem p h,
  elim (insert_record-cases p bytes h pos) [
    | inl full ↦ inl (ground arith, full.1)
    | inr done ↦
        let (q, n, enough, e, free, b) = done in
        inr (
          q,
          n,
          ground arith,
          e,
          get_record-IsSlotted p n h ∙ ap ok free,
          get_record-IsSlotted q n b.sound ∙ ap ok b.here,
          λ m ne.
              get_record-IsSlotted q m b.sound
              ∙ ap ok (b.others m ne)
              ∙ sym (get_record-IsSlotted p m h),
        )
  ],
)
