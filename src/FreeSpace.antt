-- ===== src/FreeSpace.antt =====
-- storage/free_space_map.cpp: the free bytes of every page, and buckets of pages by free bytes. A
-- bucket is a list without repetitions; free_bytes and required_free are 16-bit numbers, which the
-- divisions below keep within 16 bits.
pub mod Candidates
use granite_db.Prelude.{
  ℕ, zero, suc, ◌+◌, ◌-◌, ◌/◌, Bool, true, false, not, ◌&&◌, List, [], ◌∷◌, ◌++◌, Option, none,
  some, get_elem?, set, length, ltb, leb, ◌==◌, if◌then◌else◌,
}
use granite_db.Types.{page_size}

pub record Entry : Type 0 where
  pub present : Bool
  pub exact_free_bytes : ℕ
  pub bucket : ℕ

abbrev pub new_entry : Entry
new_entry = record { present = false; exact_free_bytes = 0; bucket = 0 }

pub record FreeSpaceMap : Type 0 where
  pub bucket_size : ℕ
  pub num_buckets : ℕ
  pub page_entries : List Entry
  pub buckets : List (List ℕ)

unfoldable pub empty_buckets : ℕ → List (List ℕ)
empty_buckets zero = []
empty_buckets (suc n) = [] ∷ empty_buckets n

-- The constructor.
unfoldable pub new_free_space_map : ℕ → FreeSpaceMap
unfolding empty_buckets
new_free_space_map bucket_size =
    let size : ℕ = if bucket_size == 0 then 64 else bucket_size in
    let num : ℕ = page_size / size + 2 in
    record { bucket_size = size; num_buckets = num; page_entries = []; buckets = empty_buckets num }

unfoldable pub clear : FreeSpaceMap → FreeSpaceMap
unfolding empty_buckets
clear m = record m { page_entries = []; buckets = empty_buckets (length m.buckets) }

unfoldable pub bucket_for_free_bytes : FreeSpaceMap → ℕ → ℕ
bucket_for_free_bytes m free_bytes =
    let bucket = free_bytes / m.bucket_size in
    if leb m.num_buckets bucket then m.num_buckets - 1 else bucket

unfoldable pub default_entries : ℕ → List Entry
default_entries zero = []
default_entries (suc n) = new_entry ∷ default_entries n

unfoldable pub ensure_page_capacity : ℕ → List Entry → List Entry
unfolding default_entries
ensure_page_capacity page_no entries =
    if leb (length entries) page_no
    then entries ++ default_entries (suc page_no - length entries)
    else entries

unfoldable pub entry_at : List Entry → ℕ → Entry
entry_at entries page_no = elim (get_elem? entries page_no) [ none ↦ new_entry | some e ↦ e ]

unfoldable pub bucket_at : List (List ℕ) → ℕ → List ℕ
bucket_at buckets i = elim (get_elem? buckets i) [ none ↦ [] | some pages ↦ pages ]

unfoldable pub remove_page_no : ℕ → List ℕ → List ℕ
remove_page_no page_no [] = []
remove_page_no page_no (p ∷ ps) =
    let rest = remove_page_no page_no ps in if p == page_no then rest else p ∷ rest

unfoldable pub contains : ℕ → List ℕ → Bool
contains page_no [] = false
contains page_no (p ∷ ps) = if p == page_no then true else contains page_no ps

unfoldable pub insert_page_no : ℕ → List ℕ → List ℕ
unfolding contains
insert_page_no page_no pages = if contains page_no pages then pages else page_no ∷ pages

unfoldable pub drop_from : ℕ → ℕ → List (List ℕ) → List (List ℕ)
drop_from i page_no buckets = set buckets i (remove_page_no page_no (bucket_at buckets i))

unfoldable pub add_to : ℕ → ℕ → List (List ℕ) → List (List ℕ)
add_to i page_no buckets = set buckets i (insert_page_no page_no (bucket_at buckets i))

unfoldable pub update_page_free_space : ℕ → ℕ → FreeSpaceMap → FreeSpaceMap
update_page_free_space page_no free_bytes m =
    let entries = ensure_page_capacity page_no m.page_entries in
    let entry = entry_at entries page_no in
    let buckets : List (List ℕ) =
      if entry.present then drop_from entry.bucket page_no m.buckets else m.buckets in
    let bucket = bucket_for_free_bytes m free_bytes in
    record m {
      page_entries =
          set entries page_no
            (record { present = true; exact_free_bytes = free_bytes; bucket = bucket });
      buckets = add_to bucket page_no buckets;
    }

unfoldable pub remove_page : ℕ → FreeSpaceMap → FreeSpaceMap
remove_page page_no m =
    let entry = entry_at m.page_entries page_no in
    if leb (length m.page_entries) page_no then m else if not entry.present then m else record m {
      page_entries = set m.page_entries page_no new_entry;
      buckets = drop_from entry.bucket page_no m.buckets;
    }

-- The pages of one bucket that have the bytes.
unfoldable pub fitting : FreeSpaceMap → ℕ → List ℕ → List ℕ
fitting m required_free [] = []
fitting m required_free (p ∷ ps) =
    let entry = entry_at m.page_entries p in
    let rest = fitting m required_free ps in
    if entry.present && not (ltb entry.exact_free_bytes required_free) then p ∷ rest else rest

-- The buckets from `start + count - 1` down to `start`.
unfoldable pub collect : FreeSpaceMap → ℕ → ℕ → ℕ → List ℕ
unfolding fitting
collect m required_free start zero = []
collect m required_free start (suc count) =
    fitting m required_free (bucket_at m.buckets (start + count))
    ++ collect m required_free start count

unfoldable pub get_candidate_pages : FreeSpaceMap → ℕ → List ℕ
unfolding collect
get_candidate_pages m required_free =
    let start = bucket_for_free_bytes m required_free in
    collect m required_free start (m.num_buckets - start)

unfoldable pub find_page_with_at_least : FreeSpaceMap → ℕ → Option ℕ
unfolding get_candidate_pages
find_page_with_at_least m required_free = elim (get_candidate_pages m required_free) [
  | [] ↦ none
  | p ∷ ps ↦ some p
]

unfoldable pub try_get_free_space : FreeSpaceMap → ℕ → Option ℕ
try_get_free_space m page_no =
    let entry = entry_at m.page_entries page_no in
    if leb (length m.page_entries) page_no
    then none
    else if entry.present
    then some entry.exact_free_bytes
    else none

unfoldable pub count_present : List Entry → ℕ
count_present [] = 0
count_present (e ∷ es) = if e.present then suc (count_present es) else count_present es

unfoldable pub get_tracked_page_count : FreeSpaceMap → ℕ
unfolding count_present
get_tracked_page_count m = count_present m.page_entries
