-- ===== src/Tests/FreePages.antt =====
-- A new free space map with one page.
use granite_db.Prelude.{◌≡◌, refl, not, ltb, arith}
use granite_db.FreeSpace.{
  new_free_space_map, empty_buckets, update_page_free_space, get_candidate_pages, contains,
}
use granite_db.FreeSpace.Candidates.{IsSized, update-candidate}

new-IsSized : IsSized (new_free_space_map 64)
unfolding IsSized new_free_space_map empty_buckets
new-IsSized = (omega arith, omega arith, refl)

update-candidate_example :
    contains 3 (get_candidate_pages (update_page_free_space 3 500 (new_free_space_map 64)) 200)
    ≡ not (ltb 500 200)
update-candidate_example = update-candidate (new_free_space_map 64) 3 500 200 new-IsSized
