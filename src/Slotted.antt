-- ===== src/Slotted.antt =====
-- storage/slotted_page.cpp. The header's members and the slot directory, which stand in the first
-- `lower` bytes of a page, are members of the record; `memory` is the page's bytes, whose first
-- `lower` ones nothing here reads. `slot_count` is the length of the directory.
pub mod Memory
pub mod Layout
pub mod Records
pub mod Compact
pub mod Insert
pub mod Requests
use granite_db.Prelude.{
  ℕ, zero, suc, ◌+◌, ◌-◌, ◌%◌, ◌^◌, Bool, true, false, not, ◌&&◌, ◌||◌, List, [], ◌∷◌, ◌++◌, map,
  Option, none, some, Result, ok, err, ◌>>=◌, length, ltb, leb, ◌==◌, if◌then◌else◌, get_elem?, set,
}
use granite_db.Types.{page_size}
use granite_db.Row.Bitmap.{zeros}
use granite_db.Slotted.Memory.{read_bytes, write_bytes}

pub data PageType : Type 0 where
  invalid heap btree_leaf btree_internal : PageType

pub data SlotState : Type 0 where
  empty occupied deleted : SlotState

pub data PageError : Type 0 where
  special_size_too_large corrupt_page corrupt_slot : PageError

pub record SlotEntry : Type 0 where
  pub offset : ℕ
  pub size : ℕ
  pub state : SlotState
  pub reserved : ℕ

pub record SlottedPage : Type 0 where
  pub page_lsn : ℕ
  pub lower : ℕ
  pub upper : ℕ
  pub special : ℕ
  pub page_type : PageType
  pub flags : ℕ
  pub reserved : ℕ
  pub slots : List SlotEntry
  pub memory : List ℕ

-- sizeof(SlottedPageHeader) and sizeof(SlotEntry).
abbrev pub page_header_size : ℕ
page_header_size = 24

abbrev pub slot_entry_size : ℕ
slot_entry_size = 8

-- `a - b` on uint16_t.
unfoldable pub sub_u16 : ℕ → ℕ → ℕ
sub_u16 a b = (a + (2 ^ 16 - b % 2 ^ 16)) % 2 ^ 16

unfoldable pub is_occupied : SlotState → Bool
is_occupied occupied = true
is_occupied _ = false

unfoldable pub is_deleted_state : SlotState → Bool
is_deleted_state deleted = true
is_deleted_state _ = false

unfoldable pub initialize : PageType → ℕ → Result PageError SlottedPage
unfolding zeros
initialize page_type special_size =
    if ltb (page_size - page_header_size) special_size
    then err special_size_too_large
    else ok record {
      page_lsn = 0;
      lower = page_header_size;
      upper = page_size - special_size;
      special = page_size - special_size;
      page_type = page_type;
      flags = 0;
      reserved = 0;
      slots = [];
      memory = zeros page_size;
    }

unfoldable pub is_invalid : PageType → Bool
is_invalid invalid = true
is_invalid _ = false

unfoldable pub is_initialized : SlottedPage → Bool
unfolding is_invalid
is_initialized p =
    if is_invalid p.page_type
    then false
    else if ltb p.lower page_header_size
    then false
    else if ltb p.upper p.lower || ltb p.special p.upper || ltb page_size p.special
    then false
    else true

unfoldable pub get_contiguous_free_space : SlottedPage → Result PageError ℕ
get_contiguous_free_space p =
    if ltb p.upper p.lower then err corrupt_page else ok ((p.upper - p.lower) % 2 ^ 16)

-- The sum over the deleted slots, on uint32_t.
unfoldable pub reclaimable : List SlotEntry → ℕ
unfolding is_deleted_state
reclaimable [] = 0
reclaimable (slot ∷ slots) =
    let rest = reclaimable slots in
    if is_deleted_state slot.state then (slot.size + rest) % 2 ^ 32 else rest

unfoldable pub get_reclaimable_space : SlottedPage → ℕ
unfolding reclaimable
get_reclaimable_space p = reclaimable p.slots % 2 ^ 16

unfoldable pub get_total_free_space_after_compaction : SlottedPage → Result PageError ℕ
unfolding get_contiguous_free_space get_reclaimable_space
get_total_free_space_after_compaction p =
    get_contiguous_free_space p >>= λ free. ok ((free + get_reclaimable_space p) % 2 ^ 16)

-- The first slot that is empty or deleted.
unfoldable pub find_reusable_slot : List SlotEntry → Option ℕ
unfolding is_occupied
find_reusable_slot [] = none
find_reusable_slot (slot ∷ slots) =
    let rest = find_reusable_slot slots in
    if not (is_occupied slot.state)
    then some 0
    else elim rest [ none ↦ none | some i ↦ some (suc i) ]

unfoldable pub needs_new_slot : Option ℕ → Bool
needs_new_slot none = true
needs_new_slot (some i) = false

unfoldable pub required : ℕ → Bool → ℕ
required len needs_new = len + (if needs_new then slot_entry_size else 0)

unfoldable pub has_space_for : SlottedPage → ℕ → Bool → Result PageError Bool
unfolding get_contiguous_free_space required
has_space_for p len needs_new =
    get_contiguous_free_space p >>= λ free. ok (leb (required len needs_new) free)

unfoldable pub get_max_insertable_bytes_after_compaction : SlottedPage → Result PageError ℕ
unfolding get_total_free_space_after_compaction find_reusable_slot needs_new_slot
get_max_insertable_bytes_after_compaction p = do
  total_free ← get_total_free_space_after_compaction p
  let slot_overhead = if needs_new_slot (find_reusable_slot p.slots) then slot_entry_size else 0
  if leb total_free slot_overhead then ok 0 else ok ((total_free - slot_overhead) % 2 ^ 16)

unfoldable pub get_record : SlottedPage → ℕ → Result PageError (Option (List ℕ))
unfolding is_occupied read_bytes
get_record p slot_no = elim (get_elem? p.slots slot_no) [
  | none ↦ ok none
  | some slot ↦
      if not (is_occupied slot.state)
      then ok none
      else if ltb p.special (slot.offset + slot.size)
      then err corrupt_slot
      else ok (some (read_bytes slot.offset slot.size p.memory))
]

-- The memcpy of the new bytes and the memset of what is left of the old ones.
unfoldable pub overwrite_record : SlottedPage → ℕ → List ℕ → SlottedPage × Bool
unfolding is_occupied write_bytes zeros
overwrite_record p slot_no bytes = elim (get_elem? p.slots slot_no) [
  | none ↦ (p, false)
  | some slot ↦
      if not (is_occupied slot.state)
      then (p, false)
      else if ltb slot.size (length bytes)
      then (p, false)
      else (
        record p {
          memory = write_bytes slot.offset (bytes ++ zeros (slot.size - length bytes)) p.memory;
        },
        true,
      )
]

unfoldable pub delete_record : SlottedPage → ℕ → SlottedPage × Bool
unfolding is_occupied
delete_record p slot_no = elim (get_elem? p.slots slot_no) [
  | none ↦ (p, false)
  | some slot ↦
      if not (is_occupied slot.state)
      then (p, false)
      else (record p { slots = set p.slots slot_no (record slot { state = deleted }) }, true)
]

unfoldable pub is_slot_occupied : SlottedPage → ℕ → Bool
unfolding is_occupied
is_slot_occupied p slot_no = elim (get_elem? p.slots slot_no) [
  | none ↦ false
  | some slot ↦ is_occupied slot.state
]

unfoldable pub is_slot_deleted : SlottedPage → ℕ → Bool
unfolding is_deleted_state
is_slot_deleted p slot_no = elim (get_elem? p.slots slot_no) [
  | none ↦ false
  | some slot ↦ is_deleted_state slot.state
]

unfoldable pub no_occupied : List SlotEntry → Bool
unfolding is_occupied
no_occupied [] = true
no_occupied (slot ∷ slots) = if is_occupied slot.state then false else no_occupied slots

unfoldable pub is_empty : SlottedPage → Bool
unfolding no_occupied
is_empty p = no_occupied p.slots

pub record LiveRecord : Type 0 where
  pub slot_no : ℕ
  pub bytes : List ℕ

-- The first loop of CompactPage: the records it copies, from slot `i` on, and what it makes of
-- each slot.
unfoldable pub collect_live : ℕ → List ℕ → ℕ → List SlotEntry → Result PageError (List LiveRecord)
unfolding is_occupied read_bytes
collect_live special memory i [] = ok []
collect_live special memory i (slot ∷ slots) =
    let rest = collect_live special memory (suc i) slots in
    if is_occupied slot.state
    then if ltb special (slot.offset + slot.size)
      then err corrupt_slot
      else (rest >>= λ live.
          ok (record { slot_no = i; bytes = read_bytes slot.offset slot.size memory } ∷ live))
    else rest

unfoldable pub tidy : SlotEntry → SlotEntry
unfolding is_occupied
tidy slot = if is_occupied slot.state then slot else record slot { offset = 0; size = 0 }

unfoldable pub move_slot : List SlotEntry → ℕ → ℕ → ℕ → List SlotEntry
move_slot slots slot_no offset size = elim (get_elem? slots slot_no) [
  | none ↦ slots
  | some slot ↦ set slots slot_no (record slot { offset = offset; size = size; state = occupied })
]

-- The second loop: the records from the special space down.
unfoldable pub place_live :
    ℕ → List ℕ → List SlotEntry → List LiveRecord → ℕ × (List ℕ × List SlotEntry)
unfolding sub_u16 write_bytes move_slot
place_live new_upper memory slots [] = (new_upper, (memory, slots))
place_live new_upper memory slots (rec ∷ live) =
    let upper = sub_u16 new_upper (length rec.bytes) in
    place_live upper (write_bytes upper rec.bytes memory)
      (move_slot slots rec.slot_no upper (length rec.bytes % 2 ^ 16)) live

unfoldable pub compact_page : SlottedPage → Result PageError SlottedPage
unfolding collect_live tidy place_live
compact_page p = do
  live ← collect_live p.special p.memory 0 p.slots
  let cleared = write_bytes p.lower (zeros (p.special - p.lower)) p.memory
  let placed = place_live p.special cleared (map tidy p.slots) live
  ok (record p { upper = placed.0; memory = placed.1.0; slots = placed.1.1 })

-- The tests of InsertRecord: the page, compacted where that is needed, and whether there is room.
unfoldable pub make_room : SlottedPage → ℕ → Bool → Result PageError (SlottedPage × Bool)
unfolding has_space_for get_total_free_space_after_compaction required compact_page
make_room p len needs_new = do
  fits ← has_space_for p len needs_new
  if fits then ok (p, true) else (do
    total ← get_total_free_space_after_compaction p
    if ltb total (required len needs_new) then ok (p, false) else (do
      compacted ← compact_page p
      fits ← has_space_for compacted len needs_new
      ok (compacted, fits)))

-- The slot of a new record, and the directory and its end with it.
unfoldable pub claim_slot : SlottedPage → Option ℕ → SlottedPage × ℕ
claim_slot p (some slot_no) = (p, slot_no)
claim_slot p none = (
  record p {
    slots = p.slots ++ (record { offset = 0; size = 0; state = empty; reserved = 0 } ∷ []);
    lower = (p.lower + slot_entry_size) % 2 ^ 16;
  },
  length p.slots,
)

unfoldable pub place_record : SlottedPage → ℕ → List ℕ → SlottedPage
unfolding sub_u16 write_bytes
place_record p slot_no bytes =
    let offset = sub_u16 p.upper (length bytes) in
    record p {
      upper = offset;
      memory = write_bytes offset bytes p.memory;
      slots =
          set p.slots slot_no
            (record { offset = offset; size = length bytes; state = occupied; reserved = 0 });
    }

unfoldable pub insert_record : SlottedPage → List ℕ → Result PageError (SlottedPage × Option ℕ)
unfolding find_reusable_slot needs_new_slot make_room claim_slot place_record
insert_record p bytes =
    let reusable = find_reusable_slot p.slots in
    if length bytes == 0
    then ok (p, none)
    else make_room p (length bytes) (needs_new_slot reusable) >>= λ (q, fits).
        let claimed = claim_slot q reusable in
        if fits then ok (place_record claimed.0 claimed.1 bytes, some claimed.1) else ok (q, none)
