-- ===== src/Manager/Rollback.antt =====
-- The rollback of concurrency/transaction_manager.cpp ends.
use granite_db.Prelude.{
  ℕ, zero, suc, ◌<◌, ◌≡◌, ◌≢◌, refl, List, [], All, Option, none, some, Result, ok, err, ◌==◌,
  arith, Bool-cases, Option-cases, inl, inr,
}
use granite_db.Prelude.Dict.{find, nat_eq}
use granite_db.Types.{lsn_size}
use granite_db.Transaction.{Transaction}
use granite_db.Wal.{LogRecord}
use granite_db.Recovery.Redo.{RecoveryError}
use granite_db.Recovery.Undo.{index_by_lsn}
use granite_db.Recovery.Undo.Ends.{IsBackward, IndexBackward, index_by_lsn-Backward}
use granite_db.Manager.{
  Engine, TransactionManager, rollback_step, rollback_loop, rollback_transaction, abort_txn,
}

module _ {S : Type 0} (d : Engine S) where
  -- A round goes on from a smaller LSN.
  rollback_step-lt :
      (id : ℕ) (rec : LogRecord) (current last_lsn lsn next : ℕ) (s s' : S)
      → rec.prev_lsn < current
      → rec.undo_next_lsn < current
      → rollback_step d id rec last_lsn s ≡ ok (lsn, (some next, s'))
      → next < current
  unfolding rollback_step
  rollback_step-lt id rec current last_lsn lsn next s s' back skip e = ground arith

  rollback_loop-ends :
      (fuel : ℕ) (index : List (ℕ × LogRecord)) (id current last_lsn : ℕ) (s : S)
      → IndexBackward index
      → current < fuel
      → rollback_loop d fuel index id current last_lsn s ≢ none
  unfolding rollback_loop IndexBackward
  rollback_loop-ends zero index id current last_lsn s h lt = λ e. omega arith
  rollback_loop-ends (suc fuel) index id current last_lsn s h lt =
      elim (Bool-cases (current == 0)) [
        | inl end ↦ rw (rollback_loop, end) (λ e. ground arith)
        | inr more ↦ elim (Option-cases (find current index)) [
          | inl lost ↦ rw (rollback_loop, more, lost) (λ e. ground arith)
          | inr found ↦
              let back = h current found.0 found.1 in
              rw (rollback_loop, more, found.1)
                (after (rollback_step d id found.0 last_lsn s)
                  (λ next lsn s' f.
                    rollback_step-lt id found.0 current last_lsn lsn next s s' back.0 back.1 f)
                  (λ next lsn s' lower.
                    rollback_loop-ends fuel index id next lsn s' h (omega arith)))
        ]
      ]
    where
      after :
          (res : Result RecoveryError (ℕ × (Option ℕ × S)))
          → ((next lsn : ℕ) (s' : S) → res ≡ ok (lsn, (some next, s')) → next < current)
          → ((next lsn : ℕ) (s' : S)
              → next < current
              → rollback_loop d fuel index id next lsn s' ≢ none)
          → (elim res as (λ _. Option (Result RecoveryError (ℕ × S))) [
            | err e ↦ some (err e)
            | ok (lsn, (none, s')) ↦ some (ok (lsn, s'))
            | ok (lsn, (some next, s')) ↦ rollback_loop d fuel index id next lsn s'
          ])
            ≢ none
      after (err e) lower again f = ground arith
      after (ok (lsn, (none, s'))) lower again f = ground arith
      after (ok (lsn, (some next, s'))) lower again f = again next lsn s' (lower next lsn s' refl) f

  rollback_transaction-ends :
      (id last_lsn : ℕ) (s : S)
      → All IsBackward (d.storage.read_all_records_from lsn_size s)
      → rollback_transaction d id last_lsn s ≢ none
  unfolding rollback_transaction IndexBackward find
  rollback_transaction-ends id last_lsn s h =
      let index = index_by_lsn (d.storage.read_all_records_from lsn_size s) [] in
      let backward =
        index_by_lsn-Backward (d.storage.read_all_records_from lsn_size s) [] h
          (λ lsn rec f. absurd (ground arith)) in
      let ends =
        rollback_loop-ends (suc last_lsn) index id last_lsn last_lsn s backward (omega arith) in
      elim (Option-cases (rollback_loop d (suc last_lsn) index id last_lsn last_lsn s)) [
        | inl never ↦ absurd (ends never)
        | inr found ↦ rw (rollback_transaction, found.1) (λ e. ground arith)
      ]

  -- Abort returns on every log whose records' chains lead back to smaller LSNs.
  pub abort_txn-ne-none :
      (id : ℕ) (txn : Transaction) (m : TransactionManager S)
      → All IsBackward (d.storage.read_all_records_from lsn_size m.engine)
      → abort_txn d id txn m ≢ none
  unfolding abort_txn
  abort_txn-ne-none id txn m h e =
      let ends = rollback_transaction-ends id txn.last_lsn m.engine h in ground arith
