-- ===== src/Slotted/Compact/Collect.antt =====
-- The first loop of CompactPage of storage/slotted_page.cpp, which copies the records.
use granite_db.Prelude.{
  ℕ, zero, suc, ◌+◌, ◌≤◌, ◌<◌, ◌≡◌, refl, ap, ◌∙◌, true, false, inl, inr, List, [], ◌∷◌, none, some,
  ok, length, ==_iff, get_elem?, arith, Bool-cases, le→ltb,
}
use granite_db.Slotted.{SlotEntry, is_occupied, LiveRecord, collect_live}
use granite_db.Slotted.Memory.{read_bytes, length-read_bytes}
use granite_db.Slotted.Layout.{total, live_size, record_of}
use granite_db.Slotted.Compact.{live_at, live_bytes, IsDistinct}

-- What the first loop gives, from slot `i` on: the records of the slots.
pub record IsCollected (i : ℕ) (memory : List ℕ) (slots : List SlotEntry) (live : List LiveRecord)
    : Type 0 where
  pub records : (n : ℕ) → live_at live (i + n) ≡ record_of memory (get_elem? slots n)
  pub before : (n : ℕ) → n < i → live_at live n ≡ none
  pub distinct : IsDistinct live
  pub all_bytes : live_bytes live ≡ total live_size slots

no_slots-IsCollected : (i : ℕ) (memory : List ℕ) → IsCollected i memory [] []
unfolding live_at record_of IsDistinct live_bytes total
no_slots-IsCollected i memory = record {
  records = λ n. refl;
  before = λ n lt. refl;
  distinct = tt;
  all_bytes = refl;
}

free-IsCollected :
    (i : ℕ) (memory : List ℕ) (slot : SlotEntry) (slots : List SlotEntry) (live : List LiveRecord)
    → is_occupied slot.state ≡ false
    → IsCollected (suc i) memory slots live
    → IsCollected i memory (slot ∷ slots) live
unfolding record_of total live_size
free-IsCollected i memory slot slots live free h = record {
  records = λ n. go n;
  before = λ n lt. h.before n (omega arith);
  distinct = h.distinct;
  all_bytes = ground (arith, h.all_bytes);
}
  where
    go : (n : ℕ) → live_at live (i + n) ≡ record_of memory (get_elem? (slot ∷ slots) n)
    go zero = ground (arith, h.before (i + 0) (omega arith))
    go (suc n) = ap (live_at live) (omega arith) ∙ h.records n

busy-IsCollected :
    (i : ℕ) (memory : List ℕ) (slot : SlotEntry) (slots : List SlotEntry) (live : List LiveRecord)
    → is_occupied slot.state ≡ true
    → slot.offset + slot.size ≤ length memory
    → IsCollected (suc i) memory slots live
    → IsCollected i memory
        (slot ∷ slots)
        (record { slot_no = i; bytes = read_bytes slot.offset slot.size memory } ∷ live)
unfolding record_of total live_size live_at IsDistinct live_bytes
busy-IsCollected i memory slot slots live busy fit h = record {
  records = λ n. go n;
  before = λ n lt. ground (arith, h.before n (omega arith), ==_iff i n);
  distinct = (h.before i (omega arith), h.distinct);
  all_bytes = ground (arith, h.all_bytes, length-read_bytes slot.offset slot.size memory fit);
}
  where
    go :
        (n : ℕ)
        → live_at
            (record { slot_no = i; bytes = read_bytes slot.offset slot.size memory } ∷ live)
            (i + n)
          ≡ record_of memory (get_elem? (slot ∷ slots) n)
    go zero = ground arith
    go (suc n) =
        let shift : live_at live (i + suc n) ≡ live_at live (suc i + n) =
          ap (live_at live) (omega arith) in
        ground (arith, shift ∙ h.records n)

pub collect_live_lem :
    (special i : ℕ) (memory : List ℕ) (slots : List SlotEntry)
    → special ≤ length memory
    → ((n : ℕ) (s : SlotEntry)
        → get_elem? slots n ≡ some s
        → is_occupied s.state ≡ true
        → s.offset + s.size ≤ special)
    → (live : List LiveRecord) × (collect_live special memory i slots ≡ ok live)
      × IsCollected i memory slots live
unfolding collect_live
collect_live_lem special i memory [] le h = ([], refl, no_slots-IsCollected i memory)
collect_live_lem special i memory (slot ∷ slots) le h =
    let (live, e, c) = collect_live_lem special (suc i) memory slots le (λ n. h (suc n)) in
    elim (Bool-cases (is_occupied slot.state)) [
      | inr free ↦ (live, rw (free, e), free-IsCollected i memory slot slots live free c)
      | inl busy ↦
          let fit = h 0 slot refl busy in
          (
            record { slot_no = i; bytes = read_bytes slot.offset slot.size memory } ∷ live,
            rw (busy, le→ltb special (slot.offset + slot.size) fit, e),
            busy-IsCollected i memory slot slots live busy (omega arith) c,
          )
    ]
