-- ===== src/Slotted/Compact/Whole.antt =====
-- CompactPage of storage/slotted_page.cpp keeps every record and leaves no gap between them.
use granite_db.Prelude.{
  ℕ, zero, suc, ◌+◌, ◌-◌, ◌*◌, ◌≤◌, ◌≡◌, ◌≢◌, refl, sym, ap, subst, ◌∙◌, true, false, inl, inr,
  List, [], ◌∷◌, map, Option, none, some, Option-cases, ok, length, get_elem?, arith, Bool-cases,
}
use granite_db.Types.{page_size}
use granite_db.Slotted.{
  SlotEntry, SlottedPage, is_occupied, is_deleted_state, LiveRecord, compact_page, tidy, place_live,
}
use granite_db.Slotted.Memory.{read_bytes, write_bytes, length-write_bytes, length-read_bytes}
use granite_db.Slotted.Layout.{total, live_size, dead_size, IsPlaced, IsSlotted, record_of}
use granite_db.Slotted.Records.{view}
use granite_db.Slotted.Compact.{live_at, IsBacked, Stands, IsMoved}
use granite_db.Slotted.Compact.Move.{place_live-IsMoved}
use granite_db.Slotted.Compact.Collect.{IsCollected, collect_live_lem}
use granite_db.Row.Bitmap.{zeros, length-zeros}

tidied : Option SlotEntry → Option SlotEntry
tidied none = none
tidied (some s) = some (tidy s)

get_elem?-tidy :
    (slots : List SlotEntry) (n : ℕ) → get_elem? (map tidy slots) n ≡ tidied (get_elem? slots n)
unfolding tidied
get_elem?-tidy [] n = refl
get_elem?-tidy (s ∷ slots) zero = refl
get_elem?-tidy (s ∷ slots) (suc n) = get_elem?-tidy slots n

live_total-tidy :
    (slots : List SlotEntry) → total live_size (map tidy slots) ≡ total live_size slots
unfolding total live_size tidy is_occupied
live_total-tidy [] = refl
live_total-tidy (s ∷ slots) = ground (arith, live_total-tidy slots)

dead_total-tidy : (slots : List SlotEntry) → total dead_size (map tidy slots) ≡ 0
unfolding total dead_size tidy is_occupied is_deleted_state
dead_total-tidy [] = refl
dead_total-tidy (s ∷ slots) = ground (arith, dead_total-tidy slots)

length-tidy : (slots : List SlotEntry) → length (map tidy slots) ≡ length slots
length-tidy [] = refl
length-tidy (s ∷ slots) = ap suc (length-tidy slots)

-- What there is to say of a record that the view shows.
record_of-some :
    (memory : List ℕ) (o : Option SlotEntry) (bytes : List ℕ)
    → record_of memory o ≡ some bytes
    → (s : SlotEntry) × (o ≡ some s)
      × (is_occupied s.state ≡ true)
      × (read_bytes s.offset s.size memory ≡ bytes)
unfolding record_of
record_of-some memory none bytes e = absurd (ground arith)
record_of-some memory (some s) bytes e = (s, refl, ground arith, ground arith)

pub record_of-none :
    (memory : List ℕ) (s : SlotEntry)
    → record_of memory (some s) ≡ none
    → is_occupied s.state ≡ false
unfolding record_of
record_of-none memory s e = ground arith

from_start :
    (memory : List ℕ) (slots : List SlotEntry) (live : List LiveRecord) (n : ℕ)
    → IsCollected 0 memory slots live
    → live_at live n ≡ record_of memory (get_elem? slots n)
from_start memory slots live n c = ap (live_at live) (omega arith) ∙ c.records n

IsBacked-tidy :
    (memory : List ℕ) (slots : List SlotEntry) (live : List LiveRecord)
    → ((n : ℕ) (s : SlotEntry)
        → get_elem? slots n ≡ some s
        → is_occupied s.state ≡ true
        → s.offset + s.size ≤ length memory)
    → IsCollected 0 memory slots live
    → IsBacked (map tidy slots) live
unfolding IsBacked tidy tidied
IsBacked-tidy memory slots live fit c = λ n bytes e.
    let (s, f, occ, reads) =
      record_of-some memory (get_elem? slots n) bytes
        (sym (from_start memory slots live n c) ∙ e) in
    let same : tidy s ≡ s = ground arith in
    (
      s,
      get_elem?-tidy slots n ∙ ap tidied f ∙ ap some same,
      occ,
      sym (length-read_bytes s.offset s.size memory (fit n s f occ)) ∙ ap length reads,
    )

-- A slot with a record after the loops is one of those moved.
busy-live :
    (high : ℕ) (memory m : List ℕ) (slots slots' : List SlotEntry) (live : List LiveRecord)
    (low : ℕ) (memory' : List ℕ)
    → IsCollected 0 memory slots live
    → IsMoved high m (map tidy slots) live low memory' slots'
    → (n : ℕ) (s : SlotEntry) → get_elem? slots' n ≡ some s
    → is_occupied s.state ≡ true
    → live_at live n ≢ none
unfolding tidied tidy
busy-live high memory m slots slots' live low memory' c h n s e occ free =
    go (get_elem? slots n) refl
  where
    go : (o : Option SlotEntry) → get_elem? slots n ≡ o → ⊥
    go none f = ground (arith, h.kept n free, get_elem?-tidy slots n)
    go (some t) f =
        let idle =
          record_of-none memory t
            (ap (record_of memory) (sym f) ∙ sym (from_start memory slots live n c) ∙ free) in
        let kept : some (tidy t) ≡ some s =
          ap tidied (sym f) ∙ sym (get_elem?-tidy slots n) ∙ sym (h.kept n free) ∙ e in
        ground arith

-- What CompactPage makes of a page: the same records in the same slots, and no gap between them.
pub record IsCompacted (p q : SlottedPage) : Type 0 where
  pub sound : IsSlotted q
  pub same : (n : ℕ) → view q n ≡ view p n
  pub dense : q.upper + total live_size p.slots ≡ p.special
  pub same_lower : q.lower ≡ p.lower
  pub same_count : length q.slots ≡ length p.slots

compacted_slots :
    (p : SlottedPage) (m : List ℕ) (live : List LiveRecord) (low : ℕ) (memory' : List ℕ)
    (slots' : List SlotEntry)
    → IsCollected 0 p.memory p.slots live
    → IsMoved p.special m (map tidy p.slots) live low memory' slots'
    → IsPlaced low p.special slots'
unfolding Stands
compacted_slots p m live low memory' slots' c h =
    let busy = busy-live p.special p.memory m p.slots slots' live low memory' c h in
    record {
      within = λ n s e occ. elim (Option-cases (live_at live n)) [
        | inl free ↦ absurd (busy n s e occ free)
        | inr found ↦
            let (t, f, occ', low_le, high_le, reads) = h.moved n found.0 found.1 in
            let same : t ≡ s = ground arith in
            subst (λ s. (low ≤ s.offset) × (s.offset + s.size ≤ p.special)) same (low_le, high_le)
      ];
      apart = λ i j s t ne e f occ occ'. h.spread i j s t ne (busy i s e occ) (busy j t f occ') e f;
    }

compacted_view :
    (p : SlottedPage) (m : List ℕ) (live : List LiveRecord) (low : ℕ) (memory' : List ℕ)
    (slots' : List SlotEntry)
    → IsCollected 0 p.memory p.slots live
    → IsMoved p.special m (map tidy p.slots) live low memory' slots'
    → (n : ℕ) → record_of memory' (get_elem? slots' n) ≡ view p n
unfolding Stands view record_of
compacted_view p m live low memory' slots' c h n = elim (Option-cases (live_at live n)) [
  | inr found ↦
      let (t, f, occ, low_le, high_le, reads) = h.moved n found.0 found.1 in
      ap (record_of memory') f ∙ ground arith ∙ sym found.1 ∙ from_start p.memory p.slots live n c
  | inl free ↦ go (get_elem? slots' n) free refl ∙ sym free ∙ from_start p.memory p.slots live n c
]
  where
    go :
        (o : Option SlotEntry)
        → live_at live n ≡ none
        → get_elem? slots' n ≡ o
        → record_of memory' o ≡ none
    go none free e = refl
    go (some s) free e = elim (Bool-cases (is_occupied s.state)) [
      | inr idle ↦ rw idle
      | inl occ ↦
          absurd (busy-live p.special p.memory m p.slots slots' live low memory' c h n s e occ free)
    ]

abbrev with_live : SlottedPage → List LiveRecord → SlottedPage
with_live p live =
    let placed =
      place_live p.special (write_bytes p.lower (zeros (p.special - p.lower)) p.memory)
        (map tidy p.slots) live in
    record p { upper = placed.0; memory = placed.1.0; slots = placed.1.1 }

-- Compacting a page succeeds, keeps every record in its slot, and leaves no gap between them.
pub compact_page_lem :
    (p : SlottedPage) → IsSlotted p → (q : SlottedPage) × (compact_page p ≡ ok q) × IsCompacted p q
unfolding compact_page view
compact_page_lem p h =
    let (live, e, c) =
      collect_live_lem p.special 0 p.memory p.slots (omega (arith, h.special_le, h.whole))
        (λ n s f occ. (h.placed.within n s f occ).1) in
    let blank : List ℕ = zeros (p.special - p.lower) in
    let cleared : List ℕ = write_bytes p.lower blank p.memory in
    let inside : p.lower + length blank ≤ length p.memory =
      omega (
        arith,
        length-zeros (p.special - p.lower),
        h.lower_le,
        h.upper_le,
        h.special_le,
        h.whole,
      ) in
    let whole : length cleared ≡ page_size =
      length-write_bytes p.lower blank p.memory inside ∙ h.whole in
    let moved =
      place_live-IsMoved p.special cleared (map tidy p.slots) live
        (omega (arith, c.all_bytes, h.counted)) (omega (arith, h.special_le))
        (omega (arith, h.special_le, whole)) c.distinct
        (IsBacked-tidy p.memory p.slots live
          (λ n s f occ. omega (arith, (h.placed.within n s f occ).1, h.special_le, h.whole)) c) in
    let count = moved.same_slots ∙ length-tidy p.slots in
    let live_total = moved.live_total ∙ live_total-tidy p.slots in
    let dead_total = moved.dead_total ∙ dead_total-tidy p.slots in
    (
      with_live p live,
      rw e,
      record {
        sound = record {
          directory = h.directory ∙ ap (λ k. 24 + 8 * k) (sym count);
          lower_le = omega (arith, moved.filled, c.all_bytes, h.counted, h.lower_le);
          upper_le = omega (arith, moved.filled);
          special_le = h.special_le;
          whole = moved.same_memory ∙ whole;
          placed = compacted_slots p cleared live _ _ _ c moved;
          counted = omega (arith, moved.filled, c.all_bytes, live_total, dead_total);
        };
        same = compacted_view p cleared live _ _ _ c moved;
        dense = omega (arith, moved.filled, c.all_bytes);
        same_lower = refl;
        same_count = count;
      },
    )
