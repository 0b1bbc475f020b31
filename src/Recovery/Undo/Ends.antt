-- ===== src/Recovery/Undo/Ends.antt =====
-- The end of the loop of Undo in recovery/recovery_manager.cpp.
use granite_db.Prelude.{
  ℕ, zero, suc, ◌+◌, ◌<◌, ◌≡◌, ◌≢◌, refl, List, [], ◌∷◌, All, Option, none, some, Result, ok, err,
  ==_iff, arith,
}
use granite_db.Prelude.Dict.{find, assign, find-assign, nat_eq}
use granite_db.Wal.{LogRecord}
use granite_db.Recovery.Storage.{Storage}
use granite_db.Recovery.Redo.{RecoveryError}
use granite_db.Recovery.Undo.{
  Recovery, HeapItem, index_by_lsn, loser_items, pop_top, push_next, weight, undo_next,
  undo_log_record, undo_item, undo_loop, undo,
}

-- The record's chains lead back in the log.
unfoldable pub IsBackward : LogRecord → Type 0
IsBackward rec = (rec.prev_lsn < rec.lsn) × (rec.undo_next_lsn < rec.lsn)

-- So do those of the records in the index, from the LSN they stand under.
unfoldable pub IndexBackward : List (ℕ × LogRecord) → Type 0
IndexBackward index =
    (lsn : ℕ) (rec : LogRecord)
    → find lsn index ≡ some rec
    → (rec.prev_lsn < lsn) × (rec.undo_next_lsn < lsn)

pub index_by_lsn-Backward :
    (recs : List LogRecord) (index : List (ℕ × LogRecord))
    → All IsBackward recs
    → IndexBackward index
    → IndexBackward (index_by_lsn recs index)
unfolding index_by_lsn IndexBackward IsBackward
index_by_lsn-Backward [] index h k = k
index_by_lsn-Backward (r ∷ rs) index h k =
    index_by_lsn-Backward rs (assign r.lsn r index) h.1 (λ lsn rec e.
      ground (arith, ==_iff r.lsn lsn, find-assign r.lsn lsn r index, k lsn rec, h.0.0, h.0.1))

weight-pop_top :
    (x : HeapItem) (xs : List HeapItem)
    → suc (pop_top x xs).0.lsn + weight (pop_top x xs).1 ≡ weight (x ∷ xs)
unfolding pop_top weight
weight-pop_top x [] = omega arith
weight-pop_top x (y ∷ ys) = ground (arith, weight-pop_top y ys)

module _ {S : Type 0} (d : Storage S) where
  -- What a round pushes has a smaller LSN.
  undo_item-lt :
      (index : List (ℕ × LogRecord)) (item : HeapItem) (r r' : Recovery S) (lsn : ℕ)
      → IndexBackward index
      → undo_item d index item r ≡ ok (r', some lsn)
      → lsn < item.lsn
  unfolding undo_item undo_log_record undo_next IndexBackward
  undo_item-lt index item r r' lsn h e = go (find item.lsn index) refl
    where
      go : (f : Option LogRecord) → find item.lsn index ≡ f → lsn < item.lsn
      go none f = ground arith
      go (some rec) f = ground (arith, h item.lsn rec f)

  undo_loop-ends :
      (fuel : ℕ) (index : List (ℕ × LogRecord)) (pq : List HeapItem) (r : Recovery S)
      → IndexBackward index
      → weight pq < fuel
      → undo_loop d fuel index pq r ≢ none
  unfolding undo_loop weight push_next
  undo_loop-ends zero index pq r h w e = omega arith
  undo_loop-ends (suc fuel) index [] r h w e = ground arith
  undo_loop-ends (suc fuel) index (x ∷ xs) r h w e =
      go (undo_item d index (pop_top x xs).0 r) refl (λ q r' k. undo_loop-ends fuel index q r' h k)
    where
      go :
          (res : Result RecoveryError (Recovery S × Option ℕ))
          → undo_item d index (pop_top x xs).0 r ≡ res
          → ((q : List HeapItem) (r' : Recovery S)
              → weight q < fuel
              → undo_loop d fuel index q r' ≢ none)
          → ⊥
      go (err a) e1 ih = ground arith
      go (ok (r', none)) e1 ih =
          ih (pop_top x xs).1 r' (omega (arith, weight-pop_top x xs)) (ground arith)
      go (ok (r', some lsn)) e1 ih =
          ih (push_next (pop_top x xs).0.txn_id (some lsn) (pop_top x xs).1) r'
            (omega (arith, weight-pop_top x xs, undo_item-lt index (pop_top x xs).0 r r' lsn h e1))
            (ground arith)

  -- Undo ends, with a result or an exception, on every log whose records lead back: their previous
  -- LSN and the LSN where undo goes on are below their own.
  pub undo-ne-none :
      (all_records : List LogRecord) (r : Recovery S)
      → All IsBackward all_records
      → undo d all_records r ≢ none
  unfolding undo IndexBackward find
  undo-ne-none all_records r h e =
      undo_loop-ends (suc (weight (loser_items r.txn_table))) (index_by_lsn all_records [])
        (loser_items r.txn_table) r
        (index_by_lsn-Backward all_records [] h (λ lsn rec f. ground arith)) (omega arith)
        (ground arith)
