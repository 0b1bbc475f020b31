-- ===== src/Slotted/Compact.antt =====
-- The second loop of CompactPage of storage/slotted_page.cpp, which moves the records together.
pub mod Collect
pub mod Move
pub mod Whole
use granite_db.Prelude.{
  ℕ, zero, suc, ◌+◌, ◌-◌, ◌*◌, ◌%◌, ◌^◌, ◌≤◌, ◌<◌, ◌≡◌, ◌≢◌, refl, sym, ap, subst, ◌∙◌, Bool, true,
  false, not, ◌⊎◌, inl, inr, List, [], ◌∷◌, ◌++◌, map, Option, none, some, Option-cases, Result, ok,
  err, length, ltb, leb, ◌==◌, ==_iff, if◌then◌else◌, get_elem?, set, arith, Bool-cases, length-set,
  get_elem?-set_self, get_elem?-set_ne, length-append, ltb→lt, le→ltb, ◌>>=◌,
}
use native.Mathlib.Nat.{mod-eq_of_lt}
use granite_db.Types.{page_size}
use granite_db.Slotted.{
  SlotState, empty, occupied, deleted, SlotEntry, SlottedPage, is_occupied, is_deleted_state,
  sub_u16, PageError, corrupt_slot, LiveRecord, collect_live, tidy, move_slot, place_live,
}
use granite_db.Slotted.Memory.{
  read_bytes, write_bytes, length-write_bytes, length-read_bytes, read_bytes-write_bytes,
  read_below-write_bytes, read_above-write_bytes,
}
use granite_db.Slotted.Layout.{
  total, live_size, dead_size, total-set, Apart, IsPlaced, IsSlotted, record_of,
}
use granite_db.Slotted.Records.{lt-get_elem?}

-- The bytes that the records to be placed have for a slot.
unfoldable pub live_at : List LiveRecord → ℕ → Option (List ℕ)
live_at [] n = none
live_at (rec ∷ live) n = if rec.slot_no == n then some rec.bytes else live_at live n

unfoldable pub live_bytes : List LiveRecord → ℕ
live_bytes [] = 0
live_bytes (rec ∷ live) = length rec.bytes + live_bytes live

-- No slot twice.
unfoldable pub IsDistinct : List LiveRecord → Type 0
unfolding live_at
IsDistinct [] = Unit {0}
IsDistinct (rec ∷ live) = (live_at live rec.slot_no ≡ none) × IsDistinct live

-- Each of the records is the one of an occupied slot of its size.
unfoldable pub IsBacked : List SlotEntry → List LiveRecord → Type 0
IsBacked slots live =
    (n : ℕ) (bytes : List ℕ)
    → live_at live n ≡ some bytes
    → (s : SlotEntry) × (get_elem? slots n ≡ some s)
      × (is_occupied s.state ≡ true)
      × (s.size ≡ length bytes)

-- A slot whose record is `bytes`, between the two ends.
unfoldable pub Stands : List SlotEntry → List ℕ → ℕ → ℕ → ℕ → List ℕ → Type 0
Stands slots memory low high n bytes =
    (s : SlotEntry) × (get_elem? slots n ≡ some s)
    × (is_occupied s.state ≡ true)
    × (low ≤ s.offset)
    × (s.offset + s.size ≤ high)
    × (read_bytes s.offset s.size memory ≡ bytes)

-- What the second loop makes of the slots and the memory that it starts from, under `high`.
pub record IsMoved (high : ℕ) (memory : List ℕ) (slots : List SlotEntry) (live : List LiveRecord)
    (low : ℕ) (memory' : List ℕ) (slots' : List SlotEntry) : Type 0 where
  pub filled : low + live_bytes live ≡ high
  pub same_memory : length memory' ≡ length memory
  pub same_slots : length slots' ≡ length slots
  pub kept : (n : ℕ) → live_at live n ≡ none → get_elem? slots' n ≡ get_elem? slots n
  pub above : (o l : ℕ) → high ≤ o → read_bytes o l memory' ≡ read_bytes o l memory
  pub moved :
      (n : ℕ) (bytes : List ℕ)
      → live_at live n ≡ some bytes
      → Stands slots' memory' low high n bytes
  pub spread :
      (m n : ℕ) (s t : SlotEntry)
      → m ≢ n
      → live_at live m ≢ none
      → live_at live n ≢ none
      → get_elem? slots' m ≡ some s
      → get_elem? slots' n ≡ some t
      → Apart s t
  pub live_total : total live_size slots' ≡ total live_size slots
  pub dead_total : total dead_size slots' ≡ total dead_size slots
