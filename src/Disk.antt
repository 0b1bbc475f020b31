-- ===== src/Disk.antt =====
-- storage/disk_manager.cpp: the pages of a relation's file and their allocator. A file is the list of
-- its bytes, a std::set the list of its elements in ascending order. The paths and the calls that
-- synchronise them are left out: a handle has the contents of its two files, and what a crash leaves
-- of them is what was written before it.
pub mod Files
pub mod Views
pub mod Trim
pub mod Allocate
pub mod Deallocate
pub mod Reopen
pub mod System
pub mod Relations
use granite_db.Prelude.{
  ℕ, zero, suc, ◌+◌, ◌-◌, ◌*◌, ◌/◌, ◌%◌, ◌^◌, Bool, true, false, not, List, [], ◌∷◌, ◌++◌, Option,
  none, some, map, length, take, Result, ok, err, ◌>>=◌, ltb, leb, ◌==◌, if◌then◌else◌,
}
use granite_db.Prelude.Dict.{find, assign, nat_eq}
use granite_db.Types.{PageId, page_size}
use granite_db.Row.Bitmap.{zeros}
use granite_db.Slotted.Memory.{read_bytes, write_bytes}

pub data DiskError : Type 0 where
  relation_not_open page_does_not_exist short_read : DiskError
  unsupported_format missing_num_pages missing_free_count too_many_pages : DiskError
  truncated_free_list free_page_out_of_range not_a_number : DiskError

-- A line of the allocator's file: `FREELIST_V1`, the digits of a number, or neither.
pub data Line : Type 0 where
  format_name : Line
  number : ℕ → Line
  other_text : Line

pub record RelationHandle : Type 0 where
  pub file : List ℕ
  pub allocator_state : Option (List Line)
  pub num_pages : ℕ
  pub free_pages : List ℕ

unfoldable pub serialize_free_list : ℕ → List ℕ → List Line
serialize_free_list num_pages free_pages =
    format_name ∷ number num_pages ∷ number (length free_pages) ∷ map number free_pages

abbrev pub file_offset : ℕ → ℕ
file_offset page_no = page_no * page_size

-- std::filesystem::resize_file, for a file that may also be too short.
unfoldable pub resize : ℕ → List ℕ → List ℕ
resize size file = take size file ++ zeros (size - length file)

-- seekp and write: a gap behind the end is filled with zeros.
unfoldable pub write_at : ℕ → List ℕ → List ℕ → List ℕ
unfolding resize
write_at offset bytes file =
    write_bytes offset bytes (file ++ zeros (offset + length bytes - length file))

unfoldable pub zero_page : ℕ → RelationHandle → RelationHandle
unfolding write_at
zero_page page_no h = record h { file = write_at (file_offset page_no) (zeros page_size) h.file }

unfoldable pub persist_allocator_state : RelationHandle → RelationHandle
unfolding serialize_free_list
persist_allocator_state h = record h {
  allocator_state = some (serialize_free_list h.num_pages h.free_pages);
}

-- The loop of TrimTrailingFreePages goes from the set's last element down: the elements behind `x` come
-- before it.
abbrev pub trim_last : ℕ → List ℕ → ℕ → List ℕ × ℕ
trim_last x [] num_pages =
    if (x + 1) % 2 ^ 32 == num_pages then ([], num_pages - 1) else (x ∷ [], num_pages)
trim_last x (y ∷ ys) num_pages = (x ∷ y ∷ ys, num_pages)

unfoldable pub trim_loop : List ℕ → ℕ → List ℕ × ℕ
trim_loop [] num_pages = ([], num_pages)
trim_loop (x ∷ xs) num_pages = let rest = trim_loop xs num_pages in trim_last x rest.0 rest.1

unfoldable pub trim_trailing_free_pages : RelationHandle → RelationHandle
unfolding trim_loop resize
trim_trailing_free_pages h =
    let trimmed = trim_loop h.free_pages h.num_pages in
    if trimmed.1 == h.num_pages
    then record h { free_pages = trimmed.0; num_pages = trimmed.1 }
    else record h {
      free_pages = trimmed.0;
      num_pages = trimmed.1;
      file = resize (trimmed.1 * page_size) h.file;
    }

unfoldable pub set_insert : ℕ → List ℕ → List ℕ
set_insert p [] = p ∷ []
set_insert p (x ∷ xs) =
    let rest = set_insert p xs in
    if ltb p x then p ∷ x ∷ xs else if p == x then x ∷ xs else x ∷ rest

-- std::stoul and std::stoull, which read 64 bits.
abbrev pub number_of : Line → Result DiskError ℕ
number_of (number n) = if ltb n (2 ^ 64) then ok n else err not_a_number
number_of format_name = err not_a_number
number_of other_text = err not_a_number

-- The loop of LoadAllocatorState.
unfoldable pub load_free_pages : ℕ → List Line → ℕ → List ℕ → Result DiskError (List ℕ)
unfolding set_insert
load_free_pages zero lines num_pages free = ok free
load_free_pages (suc i) [] num_pages free = err truncated_free_list
load_free_pages (suc i) (line ∷ lines) num_pages free = number_of line >>= λ n.
    let rest = load_free_pages i lines num_pages (set_insert (n % 2 ^ 32) free) in
    if leb num_pages (n % 2 ^ 32) then err free_page_out_of_range else rest

abbrev pub load_counts : List Line → ℕ → Result DiskError (List ℕ)
load_counts [] num_pages = err missing_num_pages
load_counts (line ∷ []) num_pages = number_of line >>= λ n. err missing_free_count
load_counts (line ∷ count ∷ lines) num_pages = number_of line >>= λ n.
    number_of count >>= λ free_count.
    if ltb num_pages (n % 2 ^ 32)
    then err too_many_pages
    else load_free_pages free_count lines num_pages []

-- The free pages; `none` is a file that does not open.
unfoldable pub load_allocator_state : Option (List Line) → ℕ → Result DiskError (List ℕ)
unfolding load_free_pages
load_allocator_state none num_pages = ok []
load_allocator_state (some []) num_pages = err unsupported_format
load_allocator_state (some (format_name ∷ lines)) num_pages = load_counts lines num_pages
load_allocator_state (some (number n ∷ lines)) num_pages = err unsupported_format
load_allocator_state (some (other_text ∷ lines)) num_pages = err unsupported_format

unfoldable pub open_relation : List ℕ → Option (List Line) → Result DiskError RelationHandle
unfolding load_allocator_state
open_relation file allocator_state =
    let num_pages = (length file / page_size) % 2 ^ 32 in
    load_allocator_state allocator_state num_pages >>= λ free. ok (record {
      file = file;
      allocator_state = allocator_state;
      num_pages = num_pages;
      free_pages = free;
    })

unfoldable pub create_relation : Result DiskError RelationHandle
unfolding open_relation serialize_free_list
create_relation = open_relation [] (some (serialize_free_list 0 []))

-- AllocatePage on a handle, before it writes the allocator's file: the page and the handle.
unfoldable pub take_page : RelationHandle → ℕ × RelationHandle
unfolding zero_page write_at
take_page h = elim h.free_pages [
  | [] ↦ (
    h.num_pages,
    record h {
      file = write_at (file_offset h.num_pages) (zeros page_size) h.file;
      num_pages = (h.num_pages + 1) % 2 ^ 32;
    },
  )
  | reused_page_no ∷ rest ↦
      (reused_page_no, zero_page reused_page_no (record h { free_pages = rest }))
]

unfoldable pub allocate : RelationHandle → ℕ × RelationHandle
unfolding take_page persist_allocator_state
allocate h = let taken = take_page h in (taken.0, persist_allocator_state taken.1)

-- DeallocatePage before it writes the allocator's file.
unfoldable pub drop_page : ℕ → RelationHandle → Result DiskError RelationHandle
unfolding set_insert trim_trailing_free_pages
drop_page page_no h =
    if leb h.num_pages page_no
    then err page_does_not_exist
    else ok (trim_trailing_free_pages (record h { free_pages = set_insert page_no h.free_pages }))

unfoldable pub deallocate : ℕ → RelationHandle → Result DiskError RelationHandle
unfolding drop_page persist_allocator_state
deallocate page_no h = drop_page page_no h >>= λ dropped. ok (persist_allocator_state dropped)

unfoldable pub read_page_no : ℕ → RelationHandle → Result DiskError (List ℕ)
read_page_no page_no h =
    let data_read = read_bytes (file_offset page_no) page_size h.file in
    if leb h.num_pages page_no
    then err page_does_not_exist
    else if length data_read == page_size
    then ok data_read
    else err short_read

unfoldable pub write_page_no : ℕ → List ℕ → RelationHandle → Result DiskError RelationHandle
unfolding write_at
write_page_no page_no bytes h =
    if leb h.num_pages page_no
    then err page_does_not_exist
    else ok (record h { file = write_at (file_offset page_no) bytes h.file })
