-- ===== src/Slotted/Compact/Move.antt =====
-- What CompactPage's moves keep: storage/slotted_page.cpp.
use granite_db.Prelude.{
  ℕ, ◌+◌, ◌-◌, ◌%◌, ◌^◌, ◌≤◌, ◌<◌, ◌≡◌, ◌≢◌, refl, sym, ap, subst, ◌∙◌, true, inl, inr, List, [],
  ◌∷◌, none, some, Option-cases, length, ◌==◌, ==_iff, get_elem?, set, arith, Bool-cases,
  length-set, get_elem?-set_self, get_elem?-set_ne,
}
use native.Mathlib.Nat.{mod-eq_of_lt}
use granite_db.Slotted.{
  occupied, SlotEntry, is_occupied, is_deleted_state, sub_u16, LiveRecord, move_slot, place_live,
}
use granite_db.Slotted.Memory.{
  write_bytes, length-write_bytes, read_bytes-write_bytes, read_above-write_bytes,
}
use granite_db.Slotted.Layout.{live_size, dead_size, total-set, Apart}
use granite_db.Slotted.Records.{lt-get_elem?}
use granite_db.Slotted.Compact.{live_at, live_bytes, IsDistinct, IsBacked, Stands, IsMoved}

sub_u16-le : (a b : ℕ) → b ≤ a → a < 2 ^ 16 → sub_u16 a b ≡ a - b
unfolding sub_u16
sub_u16-le a b le lt = omega arith

move_slot-some :
    (slots : List SlotEntry) (n offset size : ℕ) (s : SlotEntry)
    → get_elem? slots n ≡ some s
    → move_slot slots n offset size
      ≡ set slots n (record s { offset = offset; size = size; state = occupied })
unfolding move_slot
move_slot-some slots n offset size s e = rw (move_slot, e)

nothing-IsMoved :
    (high : ℕ) (memory : List ℕ) (slots : List SlotEntry)
    → IsMoved high memory slots [] high memory slots
unfolding live_bytes live_at
nothing-IsMoved high memory slots = record {
  filled = omega arith;
  same_memory = refl;
  same_slots = refl;
  kept = λ n e. refl;
  above = λ o l le. refl;
  moved = λ n bytes e. absurd (ground arith);
  spread = λ m n s t ne a b e f. absurd (a refl);
  live_total = refl;
  dead_total = refl;
}

-- A record that was moved ends below where the loop began.
IsMoved-below :
    (high : ℕ) (memory : List ℕ) (slots : List SlotEntry) (live : List LiveRecord) (low : ℕ)
    (memory' : List ℕ) (slots' : List SlotEntry) (n : ℕ) (s : SlotEntry)
    → IsMoved high memory slots live low memory' slots'
    → live_at live n ≢ none
    → get_elem? slots' n ≡ some s
    → s.offset + s.size ≤ high
unfolding Stands
IsMoved-below high memory slots live low memory' slots' n s h busy e =
    elim (Option-cases (live_at live n)) [
      | inl free ↦ absurd (busy free)
      | inr found ↦
          let (t, f, occ, low_le, high_le, reads) = h.moved n found.0 found.1 in
          let same : t ≡ s = ground arith in subst (λ s. s.offset + s.size ≤ high) same high_le
    ]

module _ (high : ℕ) (memory : List ℕ) (slots : List SlotEntry) (rec : LiveRecord)
    (old : SlotEntry) where
  abbrev size : ℕ
  size = length rec.bytes

  abbrev next_high : ℕ
  next_high = high - size

  abbrev moved_slot : SlotEntry
  moved_slot = record old { offset = next_high; size = size; state = occupied }

  abbrev next_slots : List SlotEntry
  next_slots = set slots rec.slot_no moved_slot

  abbrev next_memory : List ℕ
  next_memory = write_bytes next_high rec.bytes memory

  -- One round, and the others behind it.
  cons-IsMoved :
      (live : List LiveRecord) (low : ℕ) (memory' : List ℕ) (slots' : List SlotEntry)
      → get_elem? slots rec.slot_no ≡ some old
      → is_occupied old.state ≡ true
      → old.size ≡ size
      → size ≤ high
      → high ≤ length memory
      → live_at live rec.slot_no ≡ none
      → IsMoved next_high next_memory next_slots live low memory' slots'
      → IsMoved high memory slots (rec ∷ live) low memory' slots'
  unfolding live_bytes live_at Stands Apart live_size dead_size is_occupied is_deleted_state
  cons-IsMoved live low memory' slots' e occ same le fit fresh h =
      let lt = lt-get_elem? slots rec.slot_no old e in
      let found : get_elem? slots' rec.slot_no ≡ some moved_slot =
        h.kept rec.slot_no fresh ∙ get_elem?-set_self slots rec.slot_no moved_slot lt in
      let inside : next_high + size ≤ length memory = omega arith in
      record {
        filled = omega (arith, h.filled);
        same_memory = h.same_memory ∙ length-write_bytes next_high rec.bytes memory inside;
        same_slots = h.same_slots ∙ length-set slots rec.slot_no moved_slot;
        kept = λ n free. elim (Bool-cases (rec.slot_no == n)) [
          | inl here ↦ absurd (ground arith)
          | inr other ↦
              h.kept n (ground arith)
              ∙ get_elem?-set_ne slots rec.slot_no n moved_slot
                  (λ e. ground (arith, ==_iff rec.slot_no n, e))
        ];
        above = λ o l far.
            h.above o l (omega arith)
            ∙ read_above-write_bytes next_high o l rec.bytes memory inside (omega arith);
        moved = λ n bytes found'. elim (Bool-cases (rec.slot_no == n)) [
          | inl here ↦
              let at_n : rec.slot_no ≡ n = (==_iff rec.slot_no n).0 here in
              let its : rec.bytes ≡ bytes = ground arith in
              (
                moved_slot,
                subst (λ k. get_elem? slots' k ≡ some moved_slot) at_n found,
                refl,
                omega (arith, h.filled),
                omega arith,
                h.above next_high size (omega arith)
                    ∙ read_bytes-write_bytes next_high rec.bytes memory inside
                    ∙ its,
              )
          | inr other ↦
              let (s, f, busy, low_le, high_le, reads) = h.moved n bytes (ground arith) in
              (s, f, busy, low_le, omega arith, reads)
        ];
        spread = λ m n s t ne a b f g. elim (Bool-cases (rec.slot_no == m)) [
          | inl first ↦
              let at_m : rec.slot_no ≡ m = (==_iff rec.slot_no m).0 first in
              let is_s : moved_slot ≡ s = ground arith in
              let ends =
                IsMoved-below next_high next_memory next_slots live low memory' slots' n t h
                  (ground arith) g in
              subst (λ s. Apart s t) is_s (inr ends)
          | inr other ↦ elim (Bool-cases (rec.slot_no == n)) [
            | inl second ↦
                let at_n : rec.slot_no ≡ n = (==_iff rec.slot_no n).0 second in
                let is_t : moved_slot ≡ t = ground arith in
                let ends =
                  IsMoved-below next_high next_memory next_slots live low memory' slots' m s h
                    (ground arith) f in
                subst (λ t. Apart s t) is_t (inl ends)
            | inr others ↦ h.spread m n s t ne (ground arith) (ground arith) f g
          ]
        ];
        live_total =
            h.live_total ∙ ground (arith, total-set live_size slots rec.slot_no old moved_slot e);
        dead_total =
            h.dead_total ∙ ground (arith, total-set dead_size slots rec.slot_no old moved_slot e);
      }

live_at-head :
    (rec : LiveRecord) (live : List LiveRecord) → live_at (rec ∷ live) rec.slot_no ≡ some rec.bytes
unfolding live_at
live_at-head rec live = ground arith

IsBacked-set :
    (slots : List SlotEntry) (rec : LiveRecord) (live : List LiveRecord) (new : SlotEntry)
    → IsBacked slots (rec ∷ live)
    → live_at live rec.slot_no ≡ none
    → IsBacked (set slots rec.slot_no new) live
unfolding IsBacked live_at
IsBacked-set slots rec live new b fresh = λ m bytes f. elim (Bool-cases (rec.slot_no == m)) [
  | inl here ↦ absurd (ground (arith, ap (live_at live) ((==_iff rec.slot_no m).0 here)))
  | inr other ↦
      let (s, g, occ, size) = b m bytes (ground arith) in
      let ne : rec.slot_no ≢ m = λ e. ground (arith, ==_iff rec.slot_no m, e) in
      (s, get_elem?-set_ne slots rec.slot_no m new ne ∙ g, occ, size)
]

-- The second loop, from the slots of the records.
pub place_live-IsMoved :
    (high : ℕ) (memory : List ℕ) (slots : List SlotEntry) (live : List LiveRecord)
    → live_bytes live ≤ high
    → high < 2 ^ 16
    → high ≤ length memory
    → IsDistinct live
    → IsBacked slots live
    → let placed = place_live high memory slots live in
      IsMoved high memory slots live placed.0 placed.1.0 placed.1.1
unfolding place_live live_bytes IsDistinct IsBacked
place_live-IsMoved high memory slots [] le lt fit d b = nothing-IsMoved high memory slots
place_live-IsMoved high memory slots (rec ∷ live) le lt fit d b =
    let (old, e, occ, same) = b rec.slot_no rec.bytes (live_at-head rec live) in
    let n : ℕ = length rec.bytes in
    let upper : sub_u16 high n ≡ high - n = sub_u16-le high n (omega arith) lt in
    let small : n % 2 ^ 16 ≡ n = mod-eq_of_lt (omega arith) in
    let next : List SlotEntry =
      set slots rec.slot_no (record old { offset = high - n; size = n; state = occupied }) in
    let slots_eq : move_slot slots rec.slot_no (sub_u16 high n) (n % 2 ^ 16) ≡ next =
      ap (λ u. move_slot slots rec.slot_no u (n % 2 ^ 16)) upper
      ∙ ap (move_slot slots rec.slot_no (high - n)) small
      ∙ move_slot-some slots rec.slot_no (high - n) n old e in
    let inside : high - n + n ≤ length memory = omega arith in
    let rest =
      place_live-IsMoved (high - n) (write_bytes (high - n) rec.bytes memory) next live
        (omega arith) (omega arith)
        (omega (arith, length-write_bytes (high - n) rec.bytes memory inside)) d.1
        (IsBacked-set slots rec live (record old { offset = high - n; size = n; state = occupied })
          b d.0) in
    subst
      (λ (v : List SlotEntry).
        let placed =
          place_live (sub_u16 high n) (write_bytes (sub_u16 high n) rec.bytes memory) v live in
        IsMoved high memory slots (rec ∷ live) placed.0 placed.1.0 placed.1.1)
      (sym slots_eq)
      (subst
        (λ (u : ℕ).
          let placed = place_live u (write_bytes u rec.bytes memory) next live in
          IsMoved high memory slots (rec ∷ live) placed.0 placed.1.0 placed.1.1)
        (sym upper)
        (cons-IsMoved high memory slots rec old live _ _ _ e occ same (omega arith) fit d.0 rest))
