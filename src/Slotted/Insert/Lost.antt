-- ===== src/Slotted/Insert/Lost.antt =====
-- Bytes that no slot counts any more: InsertRecord of storage/slotted_page.cpp gives a reused slot the
-- size of its new record, and GetReclaimableSpace adds up the sizes of the deleted slots.
use granite_db.Prelude.{ℕ, ◌+◌, ◌≤◌, ◌<◌, ◌≡◌, inl, inr, List, none, some, ok, length, arith}
use granite_db.Slotted.{
  SlottedPage, required, get_max_insertable_bytes_after_compaction, insert_record, compact_page,
}
use granite_db.Slotted.Layout.{total, live_size, IsSlotted}
use granite_db.Slotted.Compact.Whole.{compact_page_lem}
use granite_db.Slotted.Insert.{free_bytes}
use granite_db.Slotted.Insert.Room.{insert_record-cases, insert_record_lem}

-- A record longer than GetMaxInsertableBytesAfterCompaction says is refused, even where it would fit
-- between the directory and the live records moved together; then CompactPage makes the same call
-- succeed.
pub refused_although_fits :
    (p : SlottedPage) (bytes : List ℕ) (max : ℕ)
    → IsSlotted p
    → 0 < length bytes
    → get_max_insertable_bytes_after_compaction p ≡ ok max
    → max < length bytes
    → p.lower + 8 + length bytes + total live_size p.slots ≤ p.special
    → (insert_record p bytes ≡ ok (p, none))
      × ((q : SlottedPage) × (r : SlottedPage) × (n : ℕ) × (compact_page p ≡ ok q)
          × (insert_record q bytes ≡ ok (r, some n)))
unfolding free_bytes required
refused_although_fits p bytes max h pos e over fits =
    let (q, compacted, c) = compact_page_lem p h in
    let (max', f, cases) = insert_record_lem p bytes h pos in
    let same : max' ≡ max = ground arith in
    (
      elim cases [ inl full ↦ full.1 | inr taken ↦ absurd (ground arith) ],
      elim (insert_record-cases q bytes c.sound pos) [
        | inl full ↦ absurd (ground (arith, c.dense, c.same_lower))
        | inr taken ↦ let (r, n, enough, done, free, rest) = taken in (q, r, n, compacted, done)
      ],
    )
