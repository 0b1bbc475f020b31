-- ===== src/Manager.antt =====
-- concurrency/transaction_manager.cpp and recovery/checkpoint_manager.cpp, over an interface for the
-- log, the buffer pool and the lock manager. A transaction object is shared by its clients and the
-- manager: `txns` has every object by its id, `active_txns` the ids in the manager's map. A wait for
-- another thread's abort is not modelled: the call returns at once.
pub mod Rollback
pub mod Snapshot
pub mod Checkpoint
use granite_db.Prelude.{
  ℕ, zero, suc, ◌+◌, Bool, true, false, not, ◌&&◌, List, [], ◌∷◌, map, Option, none, some, Result,
  ok, err, ◌==◌, if◌then◌else◌,
}
use granite_db.Prelude.Dict.{find, assign, nat_eq}
use granite_db.Types.{PageId, lsn_size}
use granite_db.Transaction.{
  TransactionState, active, waiting, aborting, committed, aborted, Transaction, new_transaction,
}
use granite_db.Wal.{
  LogRecord, LogRecordType, begin, commit, abort, begin_checkpoint, end_checkpoint, clr,
  blank_record, make_clr_page_undo_record, is_page_update_record, is_clr, CheckpointTxnEntry,
  DirtyPageEntry,
}
use granite_db.Recovery.Storage.{Storage}
use granite_db.Recovery.Redo.{RecoveryError, apply_image}
use granite_db.Recovery.Undo.{index_by_lsn, is_begin}

-- What both managers call, on a state `S` of all they call.
pub record Engine (S : Type 0) : Type 0 where
  pub storage : Storage S
  pub set_master_checkpoint_lsn : ℕ → S → S
  pub get_dirty_page_table_snapshot : S → List (PageId × ℕ)
  pub register_transaction : ℕ → S → S
  pub release_all : ℕ → S → S
  pub unregister_transaction : ℕ → S → S

pub record TransactionManager (S : Type 0) : Type 0 where
  pub next_txn_id : ℕ
  pub txns : List (ℕ × Transaction)
  pub active_txns : List ℕ
  pub engine : S

unfoldable pub erase_id : ℕ → List ℕ → List ℕ
erase_id id [] = []
erase_id id (x ∷ xs) = let rest = erase_id id xs in if x == id then rest else x ∷ rest

unfoldable pub plain_record : LogRecordType → ℕ → ℕ → LogRecord
plain_record type txn_id prev_lsn = record blank_record {
  type = type;
  txn_id = txn_id;
  prev_lsn = prev_lsn;
}

-- What Commit and Abort do with the state they find.
pub data EndDecision : Type 0 where
  returns : Bool → EndDecision
  proceeds : EndDecision

unfoldable pub commit_entry : TransactionState → EndDecision
commit_entry aborting = returns false
commit_entry aborted = returns false
commit_entry _ = proceeds

-- Also the state after TryMarkAborting.
unfoldable pub abort_entry : TransactionState → EndDecision
abort_entry committed = returns false
abort_entry aborted = returns false
abort_entry _ = proceeds

-- The entries that CreateCheckpoint makes of GetTransactionTableSnapshot.
unfoldable pub snapshot_entries : List (ℕ × Transaction) → List ℕ → List CheckpointTxnEntry
snapshot_entries txns [] = []
snapshot_entries txns (id ∷ ids) =
    let rest = snapshot_entries txns ids in
    elim (find id txns) [
      | none ↦ rest
      | some txn ↦ record { txn_id = id; state = txn.state; last_lsn = txn.last_lsn } ∷ rest
    ]

unfoldable pub dirty_entries : List (PageId × ℕ) → List DirtyPageEntry
dirty_entries [] = []
dirty_entries ((page_id, rec_lsn) ∷ pages) =
    record { page_id = page_id; rec_lsn = rec_lsn } ∷ dirty_entries pages

module _ {S : Type 0} (d : Engine S) where
  -- AppendRecord and SetLastLSN.
  unfoldable pub log_for :
      LogRecordType → ℕ → Transaction → TransactionManager S → TransactionManager S × ℕ
  unfolding plain_record
  log_for type id txn m =
      let appended = d.storage.append_record (plain_record type id txn.last_lsn) m.engine in
      (
        record m {
          engine = appended.0;
          txns = assign id (record txn { last_lsn = appended.1 }) m.txns;
        },
        appended.1,
      )

  unfoldable pub begin_txn : TransactionManager S → TransactionManager S × ℕ
  unfolding plain_record
  begin_txn m =
      let id = m.next_txn_id in
      let appended = d.storage.append_record (plain_record begin id 0) m.engine in
      (
        record m {
          next_txn_id = id + 1;
          engine = d.register_transaction id appended.0;
          txns = assign id (record (new_transaction id) { last_lsn = appended.1 }) m.txns;
          active_txns = id ∷ erase_id id m.active_txns;
        },
        id,
      )

  -- The flush, the new state, the locks, and the manager's map.
  unfoldable pub end_txn :
      TransactionState → ℕ → Transaction → ℕ → TransactionManager S → TransactionManager S
  unfolding erase_id
  end_txn state id txn lsn m =
      let flushed = d.storage.flush_up_to lsn m.engine in
      record m {
        txns = assign id (record txn { state = state; last_lsn = lsn }) m.txns;
        engine = d.unregister_transaction id (d.release_all id flushed);
        active_txns = erase_id id m.active_txns;
      }

  unfoldable pub commit_txn : ℕ → Transaction → TransactionManager S → TransactionManager S × Bool
  unfolding commit_entry log_for end_txn
  commit_txn id txn m = elim (commit_entry txn.state) [
    | returns b ↦ (m, b)
    | proceeds ↦
        let logged = log_for commit id txn m in (end_txn committed id txn logged.1 logged.0, true)
  ]

  -- One round of the loop of RollbackTransaction with the record it finds: the transaction's last
  -- LSN, the next record, and the state.
  unfoldable pub rollback_step : ℕ → LogRecord → ℕ → S → Result RecoveryError (ℕ × (Option ℕ × S))
  unfolding is_begin
  rollback_step id rec last_lsn s =
      if is_begin rec.type
      then ok (last_lsn, (none, s))
      else if is_clr rec.type
      then ok (last_lsn, (some rec.undo_next_lsn, s))
      else if is_page_update_record rec.type && rec.has_page
      then (let record_clr =
            make_clr_page_undo_record id last_lsn rec.prev_lsn rec.page_id rec.before_image in
          let appended = d.storage.append_record record_clr s in
          elim (apply_image d.storage rec.page_id rec.before_image appended.1 appended.0) [
            | err e ↦ err e
            | ok s' ↦ ok (appended.1, (some rec.prev_lsn, s'))
          ])
      else ok (last_lsn, (some rec.prev_lsn, s))

  -- The loop of RollbackTransaction, from the record `current` back.
  unfoldable pub rollback_loop :
      ℕ → List (ℕ × LogRecord) → ℕ → ℕ → ℕ → S → Option (Result RecoveryError (ℕ × S))
  unfolding rollback_step
  rollback_loop zero by_lsn id current last_lsn s = none
  rollback_loop (suc fuel) by_lsn id current last_lsn s = elim (current == 0) [
    | true ↦ some (ok (last_lsn, s))
    | false ↦ elim (find current by_lsn) [
      | none ↦ some (ok (last_lsn, s))
      | some rec ↦ elim (rollback_step id rec last_lsn s) [
        | err e ↦ some (err e)
        | ok (lsn, (none, s')) ↦ some (ok (lsn, s'))
        | ok (lsn, (some next, s')) ↦ rollback_loop fuel by_lsn id next lsn s'
      ]
    ]
  ]

  unfoldable pub flushed_all : Result RecoveryError (ℕ × S) → Result RecoveryError (ℕ × S)
  flushed_all (ok (lsn, s)) = ok (lsn, d.storage.flush_all_pages s)
  flushed_all (err e) = err e

  -- The last LSN of the transaction and the state; the fuel is the LSN the loop starts from, and one.
  unfoldable pub rollback_transaction : ℕ → ℕ → S → Option (Result RecoveryError (ℕ × S))
  unfolding rollback_loop flushed_all
  rollback_transaction id last_lsn s =
      let all_records = d.storage.read_all_records_from lsn_size s in
      elim (rollback_loop (suc last_lsn) (index_by_lsn all_records []) id last_lsn last_lsn s) [
        | none ↦ none
        | some r ↦ some (flushed_all r)
      ]

  unfoldable pub abort_txn :
      ℕ
      → Transaction
      → TransactionManager S
      → Option (Result RecoveryError (TransactionManager S × Bool))
  unfolding abort_entry rollback_transaction log_for end_txn
  abort_txn id txn m = elim (abort_entry txn.state) [
    | returns b ↦ some (ok (m, b))
    | proceeds ↦ elim (rollback_transaction id txn.last_lsn m.engine) [
      | none ↦ none
      | some (err e) ↦ some (err e)
      | some (ok (last_lsn, s)) ↦
          let marked = record txn { state = aborting; last_lsn = last_lsn } in
          let logged = log_for abort id marked (record m { engine = s }) in
          some (ok (end_txn aborted id marked logged.1 logged.0, true))
    ]
  ]

  unfoldable pub create_checkpoint : TransactionManager S → TransactionManager S
  unfolding plain_record snapshot_entries dirty_entries
  create_checkpoint m =
      let begun = d.storage.append_record (plain_record begin_checkpoint 0 0) m.engine in
      let end = record (plain_record end_checkpoint 0 begun.1) {
        active_txns = snapshot_entries m.txns m.active_txns;
        dirty_pages = dirty_entries (d.get_dirty_page_table_snapshot begun.0);
      } in
      let ended = d.storage.append_record end begun.0 in
      record m {
        engine = d.set_master_checkpoint_lsn begun.1 (d.storage.flush_up_to ended.1 ended.0);
      }
