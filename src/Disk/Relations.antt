-- ===== src/Disk/Relations.antt =====
-- The public calls of storage/disk_manager.cpp, on the map of the open relations. A relation that is
-- closed leaves its two files as its last handle has them.
use granite_db.Prelude.{ℕ, List, [], Option, none, some, Result, ok, err, ◌>>=◌, map}
use granite_db.Prelude.Dict.{find, assign, erase, nat_eq}
use granite_db.Types.{PageId}
use granite_db.Disk.{
  DiskError, relation_not_open, Line, RelationHandle, persist_allocator_state, create_relation,
  open_relation, allocate, deallocate, read_page_no, write_page_no,
}

-- `relations_`.
abbrev pub DiskManager : Type 0
DiskManager = List (ℕ × RelationHandle)

unfoldable pub get_handle : ℕ → DiskManager → Result DiskError RelationHandle
get_handle relation_id m = elim (find relation_id m) [
  | none ↦ err relation_not_open
  | some h ↦ ok h
]

unfoldable pub allocate_page : ℕ → DiskManager → Result DiskError (PageId × DiskManager)
unfolding get_handle allocate
allocate_page relation_id m = get_handle relation_id m >>= λ h. ok (
  record { relation_id = relation_id; page_no = (allocate h).0 },
  assign relation_id (allocate h).1 m,
)

unfoldable pub deallocate_page : PageId → DiskManager → Result DiskError DiskManager
unfolding get_handle deallocate
deallocate_page id m = get_handle id.relation_id m >>= λ h.
    deallocate id.page_no h >>= λ freed. ok (assign id.relation_id freed m)

unfoldable pub read_page : PageId → DiskManager → Result DiskError (List ℕ)
unfolding get_handle read_page_no
read_page id m = get_handle id.relation_id m >>= λ h. read_page_no id.page_no h

unfoldable pub write_page : PageId → List ℕ → DiskManager → Result DiskError DiskManager
unfolding get_handle write_page_no
write_page id bytes m = get_handle id.relation_id m >>= λ h.
    write_page_no id.page_no bytes h >>= λ written. ok (assign id.relation_id written m)

unfoldable pub get_num_pages : ℕ → DiskManager → Result DiskError ℕ
unfolding get_handle
get_num_pages relation_id m = get_handle relation_id m >>= λ h. ok h.num_pages

-- OpenRelation on the files that it finds.
unfoldable pub open_files :
    ℕ → List ℕ → Option (List Line) → DiskManager → Result DiskError DiskManager
unfolding open_relation
open_files relation_id file allocator_state m =
    open_relation file allocator_state >>= λ h. ok (assign relation_id h m)

unfoldable pub create_files : ℕ → DiskManager → Result DiskError DiskManager
unfolding create_relation
create_files relation_id m = create_relation >>= λ h. ok (assign relation_id h m)

unfoldable pub sync : ℕ → DiskManager → Result DiskError DiskManager
unfolding get_handle persist_allocator_state
sync relation_id m =
    get_handle relation_id m >>= λ h. ok (assign relation_id (persist_allocator_state h) m)

-- The files that are left, and the map.
unfoldable pub close_relation : ℕ → DiskManager → Option RelationHandle × DiskManager
unfolding persist_allocator_state
close_relation relation_id m = elim (find relation_id m) [
  | none ↦ (none, m)
  | some h ↦ (some (persist_allocator_state h), erase relation_id m)
]

unfoldable pub destroy_relation : ℕ → DiskManager → DiskManager
destroy_relation relation_id m = elim (find relation_id m) [
  | none ↦ m
  | some _ ↦ erase relation_id m
]

unfoldable pub shut_down : DiskManager → DiskManager × DiskManager
unfolding persist_allocator_state
shut_down m = (map (λ (e : ℕ × RelationHandle). (e.0, persist_allocator_state e.1)) m, [])
