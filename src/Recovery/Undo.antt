-- ===== src/Recovery/Undo.antt =====
-- Undo of recovery/recovery_manager.cpp, and Recover. The loop runs on fuel, more than the weight of
-- the queue. Entries of one LSN leave the priority queue in the order they stand in.
pub mod Ends
use granite_db.Prelude.{
  ℕ, zero, suc, ◌+◌, Bool, true, false, not, ◌&&◌, List, [], ◌∷◌, Option, none, some, Result, ok,
  err, ◌>>=◌, ltb, leb, ◌==◌, if◌then◌else◌,
}
use granite_db.Prelude.Dict.{find, assign, nat_eq}
use granite_db.Types.{PageId, lsn_size}
use granite_db.Transaction.{aborted}
use granite_db.Wal.{
  LogRecord, LogRecordType, begin, abort, clr, blank_record, make_clr_page_undo_record,
  is_undoable_page_record, is_clr,
}
use granite_db.Recovery.{TxnTableEntry, Tables, no_tables, is_loser_state, analyze}
use granite_db.Recovery.Storage.{Storage}
use granite_db.Recovery.Redo.{RecoveryError, apply_image, redo}

-- The manager with the storage it works on.
pub record Recovery (S : Type 0) : Type 0 where
  pub txn_table : List (ℕ × TxnTableEntry)
  pub dirty_page_table : List (PageId × ℕ)
  pub storage : S

pub record HeapItem : Type 0 where
  pub lsn : ℕ
  pub txn_id : ℕ

-- `by_lsn[rec.lsn] = rec`, in the order of the log.
unfoldable pub index_by_lsn : List LogRecord → List (ℕ × LogRecord) → List (ℕ × LogRecord)
index_by_lsn [] index = index
index_by_lsn (rec ∷ recs) index = index_by_lsn recs (assign rec.lsn rec index)

unfoldable pub loser_items : List (ℕ × TxnTableEntry) → List HeapItem
loser_items [] = []
loser_items ((id, entry) ∷ table) =
    if is_loser_state entry.state && not (entry.last_lsn == 0)
    then record { lsn = entry.last_lsn; txn_id = id } ∷ loser_items table
    else loser_items table

-- `pq.top()` with `pq.pop()`: an item with the greatest LSN, and the others.
unfoldable pub pop_top : HeapItem → List HeapItem → HeapItem × List HeapItem
pop_top x [] = (x, [])
pop_top x (y ∷ ys) =
    let rest = pop_top y ys in if leb rest.0.lsn x.lsn then (x, y ∷ ys) else (rest.0, x ∷ rest.1)

unfoldable pub is_begin : LogRecordType → Bool
is_begin begin = true
is_begin _ = false

unfoldable pub push_next : ℕ → Option ℕ → List HeapItem → List HeapItem
push_next txn_id none pq = pq
push_next txn_id (some lsn) pq = record { lsn = lsn; txn_id = txn_id } ∷ pq

-- Every round takes an item out and pushes at most one, with a smaller LSN.
unfoldable pub weight : List HeapItem → ℕ
weight [] = 0
weight (item ∷ items) = suc item.lsn + weight items

module _ {S : Type 0} (d : Storage S) where
  unfoldable pub finish_aborting_txn : ℕ → TxnTableEntry → ℕ → Recovery S → Recovery S
  finish_aborting_txn txn_id entry prev_lsn r =
      let abort_record : LogRecord = record blank_record {
        type = abort;
        txn_id = txn_id;
        prev_lsn = prev_lsn;
      } in
      let appended = d.append_record abort_record r.storage in
      record r {
        storage = d.flush_up_to appended.1 appended.0;
        txn_table = assign txn_id (record { state = aborted; last_lsn = appended.1 }) r.txn_table;
      }

  -- The new state, and the LSN of the compensation record, which is the transaction's last.
  unfoldable pub undo_record :
      LogRecord → ℕ → TxnTableEntry → Recovery S → Result RecoveryError (Recovery S × ℕ)
  undo_record rec txn_id entry r =
      let clr_record =
        make_clr_page_undo_record txn_id entry.last_lsn rec.prev_lsn rec.page_id rec.before_image in
      let appended = d.append_record clr_record r.storage in
      elim (apply_image d rec.page_id rec.before_image appended.1 appended.0) [
        | err e ↦ err e
        | ok s ↦ ok (
          record r {
            storage = s;
            txn_table = assign txn_id (record entry { last_lsn = appended.1 }) r.txn_table;
          },
          appended.1,
        )
      ]

  -- What follows a record that is not a CLR: its predecessor is pushed, or the transaction ends.
  unfoldable pub undo_next : LogRecord → ℕ → TxnTableEntry → Recovery S → Recovery S × Option ℕ
  undo_next rec txn_id entry r =
      if not (rec.prev_lsn == 0)
      then (r, some rec.prev_lsn)
      else (finish_aborting_txn txn_id entry entry.last_lsn r, none)

  -- The body of the loop below the two lookups, with the LSN it pushes.
  unfoldable pub undo_log_record :
      LogRecord → ℕ → TxnTableEntry → Recovery S → Result RecoveryError (Recovery S × Option ℕ)
  unfolding is_begin
  undo_log_record rec txn_id entry r =
      if is_clr rec.type
      then if not (rec.undo_next_lsn == 0)
        then ok (r, some rec.undo_next_lsn)
        else ok (finish_aborting_txn txn_id entry rec.lsn r, none)
      else if is_begin rec.type
      then ok (finish_aborting_txn txn_id entry rec.lsn r, none)
      else if is_undoable_page_record rec.type && rec.has_page
      then elim (undo_record rec txn_id entry r) [
        | err e ↦ err e
        | ok (r', lsn) ↦ ok (undo_next rec txn_id (record entry { last_lsn = lsn }) r')
      ]
      else ok (undo_next rec txn_id entry r)

  unfoldable pub undo_item :
      List (ℕ × LogRecord) → HeapItem → Recovery S → Result RecoveryError (Recovery S × Option ℕ)
  undo_item by_lsn item r = elim (find item.txn_id r.txn_table) [
    | none ↦ ok (r, none)
    | some entry ↦ elim (find item.lsn by_lsn) [
      | none ↦ ok (r, none)
      | some rec ↦ undo_log_record rec item.txn_id entry r
    ]
  ]

  unfoldable pub undo_loop :
      ℕ
      → List (ℕ × LogRecord)
      → List HeapItem
      → Recovery S
      → Option (Result RecoveryError (Recovery S))
  undo_loop zero by_lsn pq r = none
  undo_loop (suc fuel) by_lsn [] r = some (ok r)
  undo_loop (suc fuel) by_lsn (item ∷ items) r =
      let top = pop_top item items in
      elim (undo_item by_lsn top.0 r) [
        | err e ↦ some (err e)
        | ok (r', next) ↦ undo_loop fuel by_lsn (push_next top.0.txn_id next top.1) r'
      ]

  unfoldable pub undo : List LogRecord → Recovery S → Option (Result RecoveryError (Recovery S))
  undo all_records r =
      let pq = loser_items r.txn_table in
      elim (undo_loop (suc (weight pq)) (index_by_lsn all_records []) pq r) [
        | none ↦ none
        | some (err e) ↦ some (err e)
        | some (ok r') ↦ some (ok (record r' { storage = d.flush_all_pages r'.storage }))
      ]

  unfoldable pub recover : S → Option (Result RecoveryError (Recovery S))
  recover s =
      let all_records = d.read_all_records_from lsn_size s in
      let tables = analyze (d.master_checkpoint_lsn s) all_records no_tables in
      elim (redo d all_records tables.dirty_page_table s) [
        | err e ↦ some (err e)
        | ok s' ↦ undo all_records (record {
          txn_table = tables.txn_table;
          dirty_page_table = tables.dirty_page_table;
          storage = s';
        })
      ]
