-- ===== src/Tests/Recovering.antt =====
-- Recovery on a log of three records, over pages kept in a map.
use granite_db.Prelude.{
  ℕ, zero, suc, ◌≡◌, refl, true, List, [], ◌∷◌, ◌++◌, none, length, ap, arith, ◌≢◌, ok, All, ◌<◌,
  ◌^◌,
}
use granite_db.Prelude.Dict.{find, assign, find-assign}
use granite_db.Types.{PageId, page_id_key, page_id_eq, no_page, page_size}
use granite_db.Transaction.{active, committed}
use granite_db.Wal.{
  LogRecord, blank_record, begin, commit, heap_insert, is_page_update_record,
  is_undoable_page_record, is_clr, make_page_image_log_record,
}
use granite_db.Recovery.{skipped, no_tables, analyze, txn_entry}
use granite_db.Recovery.Analysis.{restarts, IsCovered, update-IsCovered, commit-not_loser}
use granite_db.Recovery.Storage.{Storage, StorageLaws}
use granite_db.Recovery.Redo.{redo, redo_applies}
use granite_db.Recovery.Redo.Reached.{HasPages, redo-Reached}
use granite_db.Recovery.Redo.Steps.{Reached}
use granite_db.Recovery.Undo.{undo}
use granite_db.Recovery.Undo.Ends.{IsBackward, undo-ne-none}

-- Storage that keeps the pages in a map and drops the log.
abbrev Pages : Type 0
Pages = List (PageId × List ℕ)

abbrev page_map : Storage Pages
page_map = record {
  fetch_page = λ p s. (s, find p s);
  store_page = λ p bytes s. assign p bytes s;
  unpin_page = λ p dirty s. s;
  flush_all_pages = λ s. s;
  append_record = λ rec s. (s, 300);
  flush_up_to = λ lsn s. s;
  master_checkpoint_lsn = λ s. 0;
  read_all_records_from = λ lsn s. [];
}

abbrev page_map_laws : StorageLaws page_map
page_map_laws = record {
  content = λ p s. find p s;
  fetch_result = λ p s. refl;
  content-fetch = λ p q s. refl;
  content-store = λ p q bytes s. find-assign p q bytes s;
  content-unpin = λ p q dirty s. refl;
  content-flush_all = λ q s. refl;
  content-append = λ q rec s. refl;
  content-flush_up_to = λ q lsn s. refl;
}

abbrev zeros : ℕ → List ℕ
zeros zero = []
zeros (suc n) = 0 ∷ zeros n

length-zeros : (n : ℕ) → length (zeros n) ≡ n
length-zeros zero = refl
length-zeros (suc n) = ap suc (length-zeros n)

abbrev begun : LogRecord
begun = record blank_record { type = begin; lsn = 8; txn_id = 5 }

abbrev inserted : LogRecord
inserted = record (make_page_image_log_record heap_insert 5 8 no_page [] (zeros page_size)) {
  lsn = 100;
}

abbrev ended : LogRecord
ended = record blank_record { type = commit; lsn = 200; txn_id = 5; prev_lsn = 100 }

update-IsCovered_example :
    IsCovered no_page 100 (analyze 0 (begun ∷ inserted ∷ ended ∷ []) no_tables).dirty_page_table
unfolding is_page_update_record make_page_image_log_record skipped
update-IsCovered_example =
    update-IsCovered 0 (begun ∷ []) (ended ∷ []) inserted no_tables refl refl refl

commit-not_loser_example :
    (txn_entry 5 (analyze 0 (begun ∷ ended ∷ inserted ∷ []) no_tables).txn_table).state ≡ committed
unfolding skipped restarts make_page_image_log_record
commit-not_loser_example =
    commit-not_loser 0 (begun ∷ []) (inserted ∷ []) ended no_tables refl refl (refl, tt)

one_page-HasPages : HasPages page_map page_map_laws ((no_page, 100) ∷ []) ((no_page, []) ∷ [])
unfolding HasPages find
one_page-HasPages p lsn e = ([], ground arith)

two_records-whole :
    All
      (λ r. redo_applies ((no_page, 100) ∷ []) r ≡ true → length r.after_image ≡ page_size)
      (begun ∷ inserted ∷ [])
unfolding redo_applies is_page_update_record is_undoable_page_record is_clr
    make_page_image_log_record
two_records-whole = (λ a. ground arith, (λ _. length-zeros page_size, tt))

inserted-applies : redo_applies ((no_page, 100) ∷ []) inserted ≡ true
unfolding redo_applies is_page_update_record is_undoable_page_record make_page_image_log_record find
    page_id_eq
inserted-applies = refl

small_lsns : All (λ r. r.lsn < 2 ^ 64) (begun ∷ inserted ∷ [])
unfolding make_page_image_log_record
small_lsns = (omega arith, (omega arith, tt))

redo-Reached_example :
    (s' : Pages) × (redo page_map
        ((begun ∷ []) ++ inserted ∷ [])
        ((no_page, 100) ∷ [])
        ((no_page, []) ∷ [])
      ≡ ok s')
    × Reached page_map page_map_laws inserted.page_id inserted.lsn s'
redo-Reached_example =
    redo-Reached page_map page_map_laws (begun ∷ []) [] inserted ((no_page, 100) ∷ [])
      ((no_page, []) ∷ []) one_page-HasPages two_records-whole small_lsns inserted-applies

two_records-IsBackward : All IsBackward (begun ∷ inserted ∷ [])
unfolding IsBackward make_page_image_log_record
two_records-IsBackward = ((omega arith, omega arith), ((omega arith, omega arith), tt))

undo-ne-none_example :
    undo page_map (begun ∷ inserted ∷ []) (record {
      txn_table = (5, record { state = active; last_lsn = 100 }) ∷ [];
      dirty_page_table = [];
      storage = (no_page, []) ∷ [];
    })
    ≢ none
undo-ne-none_example =
    undo-ne-none page_map (begun ∷ inserted ∷ [])
      (record {
        txn_table = (5, record { state = active; last_lsn = 100 }) ∷ [];
        dirty_page_table = [];
        storage = (no_page, []) ∷ [];
      })
      two_records-IsBackward
