-- ===== src/Slotted/Layout.antt =====
-- The layout that the operations of storage/slotted_page.cpp keep: where the records stand, and how
-- many bytes they take.
use granite_db.Prelude.{
  ℕ, zero, suc, ◌+◌, ◌*◌, ◌≤◌, ◌<◌, ◌≡◌, ◌≢◌, refl, subst, true, false, not, ◌⊎◌, List, [], ◌∷◌,
  ◌++◌, Option, none, some, ok, err, length, ltb, if◌then◌else◌, get_elem?, set, arith,
  get_elem?-set_self, get_elem?-set_ne,
}
use granite_db.Types.{page_size}
use granite_db.Slotted.Memory.{read_bytes}
use granite_db.Slotted.{
  SlotEntry, SlottedPage, page_header_size, slot_entry_size, is_occupied, is_deleted_state,
  corrupt_slot, get_record,
}

-- The sum of a measure over the directory.
unfoldable pub total : (SlotEntry → ℕ) → List SlotEntry → ℕ
total w [] = 0
total w (slot ∷ slots) = w slot + total w slots

unfoldable pub live_size : SlotEntry → ℕ
live_size slot = if is_occupied slot.state then slot.size else 0

unfoldable pub dead_size : SlotEntry → ℕ
dead_size slot = if is_deleted_state slot.state then slot.size else 0

pub total-set :
    (w : SlotEntry → ℕ) (slots : List SlotEntry) (n : ℕ) (old new : SlotEntry)
    → get_elem? slots n ≡ some old
    → total w (set slots n new) + w old ≡ total w slots + w new
unfolding total
total-set w [] n old new e = absurd (ground arith)
total-set w (slot ∷ slots) zero old new e =
    let same : slot ≡ old = ground arith in
    subst (λ s. w new + total w slots + w s ≡ w slot + total w slots + w new) same (omega arith)
total-set w (slot ∷ slots) (suc n) old new e = omega (arith, total-set w slots n old new e)

pub total-append :
    (w : SlotEntry → ℕ) (slots : List SlotEntry) (new : SlotEntry)
    → total w (slots ++ (new ∷ [])) ≡ total w slots + w new
unfolding total
total-append w [] new = omega arith
total-append w (slot ∷ slots) new = omega (arith, total-append w slots new)

-- Two records that share no byte.
unfoldable pub Apart : SlotEntry → SlotEntry → Type 0
Apart s t = (s.offset + s.size ≤ t.offset) ⊎ (t.offset + t.size ≤ s.offset)

-- The records stand between `upper` and the special space, none over another.
pub record IsPlaced (upper special : ℕ) (slots : List SlotEntry) : Type 0 where
  pub within :
      (n : ℕ) (s : SlotEntry)
      → get_elem? slots n ≡ some s
      → is_occupied s.state ≡ true
      → (upper ≤ s.offset) × (s.offset + s.size ≤ special)
  pub apart :
      (m n : ℕ) (s t : SlotEntry)
      → m ≢ n
      → get_elem? slots m ≡ some s
      → get_elem? slots n ≡ some t
      → is_occupied s.state ≡ true
      → is_occupied t.state ≡ true
      → Apart s t

-- The directory ends at `lower`, and the records and what the deleted slots count fit behind `upper`.
pub record IsSlotted (p : SlottedPage) : Type 0 where
  pub directory : p.lower ≡ page_header_size + slot_entry_size * length p.slots
  pub lower_le : p.lower ≤ p.upper
  pub upper_le : p.upper ≤ p.special
  pub special_le : p.special ≤ page_size
  pub whole : length p.memory ≡ page_size
  pub placed : IsPlaced p.upper p.special p.slots
  pub counted : p.upper + (total live_size p.slots + total dead_size p.slots) ≤ p.special

-- What a slot's entry says the record is.
unfoldable pub record_of : List ℕ → Option SlotEntry → Option (List ℕ)
record_of memory none = none
record_of memory (some s) =
    if is_occupied s.state then some (read_bytes s.offset s.size memory) else none

-- On a page with this layout GetRecord never finds a corrupt slot.
pub get_record-IsSlotted :
    (p : SlottedPage) (n : ℕ)
    → IsSlotted p
    → get_record p n ≡ ok (record_of p.memory (get_elem? p.slots n))
unfolding get_record record_of
get_record-IsSlotted p n h = go (get_elem? p.slots n) refl
  where
    go :
        (o : Option SlotEntry)
        → get_elem? p.slots n ≡ o
        → (elim o [
          | none ↦ ok none
          | some slot ↦
              if not (is_occupied slot.state)
              then ok none
              else if ltb p.special (slot.offset + slot.size)
              then err corrupt_slot
              else ok (some (read_bytes slot.offset slot.size p.memory))
        ])
          ≡ ok (record_of p.memory o)
    go none e = refl
    go (some s) e = ground (arith, h.placed.within n s e)

-- A directory whose records were left where they are, some deleted, is placed too.
pub set-IsPlaced :
    (upper special : ℕ) (slots : List SlotEntry) (n : ℕ) (new : SlotEntry)
    → IsPlaced upper special slots
    → is_occupied new.state ≡ false
    → n < length slots
    → IsPlaced upper special (set slots n new)
set-IsPlaced upper special slots n new h free lt = record {
  within = λ m s e occ.
      h.within m s
        (ground (arith, get_elem?-set_ne slots n m new, get_elem?-set_self slots n new lt)) occ;
  apart = λ m k s t ne e f a b.
      h.apart m k s t ne
        (ground (arith, get_elem?-set_ne slots n m new, get_elem?-set_self slots n new lt))
        (ground (arith, get_elem?-set_ne slots n k new, get_elem?-set_self slots n new lt)) a b;
}
