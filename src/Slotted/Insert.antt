-- ===== src/Slotted/Insert.antt =====
-- The room that InsertRecord of storage/slotted_page.cpp finds.
pub mod Fill
pub mod Place
pub mod Room
pub mod Lost
use granite_db.Prelude.{
  ℕ, zero, suc, ◌+◌, ◌-◌, ◌*◌, ◌%◌, ◌^◌, ◌≤◌, ◌<◌, ◌≡◌, ◌≢◌, refl, sym, ap, subst, ◌∙◌, Bool, true,
  false, not, ◌⊎◌, inl, inr, List, [], ◌∷◌, ◌++◌, Option, none, some, Option-cases, Result, ok, err,
  length, ltb, leb, ◌==◌, ==_iff, if◌then◌else◌, get_elem?, set, arith, Bool-cases, length-set,
  get_elem?-set_self, get_elem?-set_ne, length-append, ltb→lt, le→ltb, ◌>>=◌,
}
use native.Mathlib.Nat.{mod-eq_of_lt}
use granite_db.Types.{page_size}
use granite_db.Slotted.{
  SlotState, empty, occupied, deleted, SlotEntry, SlottedPage, is_occupied, is_deleted_state,
  sub_u16, reclaimable, get_contiguous_free_space, get_reclaimable_space,
  get_total_free_space_after_compaction, find_reusable_slot, needs_new_slot, required,
  has_space_for, get_max_insertable_bytes_after_compaction, make_room, claim_slot, place_record,
  insert_record, compact_page,
}
use granite_db.Slotted.Memory.{
  read_bytes, write_bytes, length-write_bytes, length-read_bytes, read_bytes-write_bytes,
  read_below-write_bytes, read_above-write_bytes,
}
use granite_db.Slotted.Layout.{
  total, live_size, dead_size, total-set, total-append, Apart, IsPlaced, IsSlotted, record_of,
}
use granite_db.Slotted.Records.{lt-get_elem?, view, view-some, view-free, view-absent, Becomes}
use granite_db.Slotted.Compact.Whole.{IsCompacted, compact_page_lem}

reclaimable_lem :
    (slots : List SlotEntry)
    → total dead_size slots < 2 ^ 32
    → reclaimable slots ≡ total dead_size slots
unfolding reclaimable total dead_size
reclaimable_lem [] lt = refl
reclaimable_lem (s ∷ slots) lt = ground (arith, reclaimable_lem slots (ground arith))

-- The bytes that are free, or free after a compaction.
unfoldable pub free_bytes : SlottedPage → ℕ
free_bytes p = p.upper - p.lower + total dead_size p.slots

get_contiguous_lem :
    (p : SlottedPage) → IsSlotted p → get_contiguous_free_space p ≡ ok (p.upper - p.lower)
unfolding get_contiguous_free_space
get_contiguous_lem p h = ground (arith, h.lower_le, h.upper_le, h.special_le)

pub get_total_lem :
    (p : SlottedPage) → IsSlotted p → get_total_free_space_after_compaction p ≡ ok (free_bytes p)
unfolding get_total_free_space_after_compaction get_reclaimable_space free_bytes
get_total_lem p h =
    rw (get_contiguous_lem p h, reclaimable_lem p.slots (omega (arith, h.counted, h.special_le)))
      (ap ok (omega (arith, h.counted, h.special_le, h.lower_le)))

has_space_lem :
    (p : SlottedPage) (len : ℕ) (new : Bool)
    → IsSlotted p
    → has_space_for p len new ≡ ok (leb (required len new) (p.upper - p.lower))
unfolding has_space_for
has_space_lem p len new h = rw (get_contiguous_lem p h)

-- The page that has room: its records are those of `p`, and there is a gap of the size.
pub record HasRoom (p q : SlottedPage) (size : ℕ) : Type 0 where
  pub sound : IsSlotted q
  pub same : (n : ℕ) → view q n ≡ view p n
  pub same_count : length q.slots ≡ length p.slots
  pub gap : q.lower + size ≤ q.upper

pub make_room_lem :
    (p : SlottedPage) (len : ℕ) (new : Bool)
    → IsSlotted p
    → 0 < len
    → ((free_bytes p < required len new) × (make_room p len new ≡ ok (p, false)))
      ⊎ ((q : SlottedPage) × (required len new ≤ free_bytes p)
          × (make_room p len new ≡ ok (q, true))
          × HasRoom p q (required len new))
unfolding make_room free_bytes required
make_room_lem p len new h pos = elim (Bool-cases (leb (required len new) (p.upper - p.lower))) [
  | inl fits ↦ inr (
    p,
    ground arith,
    rw (has_space_lem p len new h, fits),
    record { sound = h; same = λ n. refl; same_count = refl; gap = ground (arith, h.lower_le) },
  )
  | inr tight ↦ elim (Bool-cases (ltb (free_bytes p) (required len new))) [
    | inl full ↦ inl (ground arith, rw (has_space_lem p len new h, tight, get_total_lem p h, full))
    | inr enough ↦
        let (q, e, c) = compact_page_lem p h in
        let room : q.lower + required len new ≤ q.upper =
          ground (arith, c.dense, c.same_lower, h.counted, h.lower_le) in
        let fits : leb (required len new) (q.upper - q.lower) ≡ true = ground arith in
        inr (
          q,
          ground arith,
          rw (
            has_space_lem p len new h,
            tight,
            get_total_lem p h,
            enough,
            e,
            has_space_lem q len new c.sound,
            fits,
          ),
          record { sound = c.sound; same = c.same; same_count = c.same_count; gap = room },
        )
  ]
]
