-- ===== src/Manager/Checkpoint.antt =====
-- A checkpoint of recovery/checkpoint_manager.cpp between the commit record of a transaction and the
-- end of Commit in concurrency/transaction_manager.cpp.
use granite_db.Prelude.{
  ℕ, ◌<◌, ◌≤◌, ◌≡◌, refl, ap, ◌∙◌, subst, List, [], ◌∷◌, ◌++◌, All, append_assoc, true, some,
  ==_refl, arith, inl,
}
use granite_db.Prelude.Dict.{find, find-assign, nat_eq}
use granite_db.Transaction.{TransactionState, active, committed, Transaction}
use granite_db.Wal.{LogRecord, begin_checkpoint, end_checkpoint, commit}
use granite_db.Recovery.{
  TxnTableEntry, Tables, no_tables, is_loser_state, analyze, analyze_record, analyze_type, skipped,
  note_active_txns,
}
use granite_db.Manager.{
  Engine, TransactionManager, plain_record, log_for, end_txn, snapshot_entries, dirty_entries,
  create_checkpoint,
}
use granite_db.Manager.Snapshot.{
  Has, IsIn, IsNew, snapshot-AllActive, snapshot-HasEntry, note_active_txns-enters,
}

-- What the engine promises of its log: records come back in the order they were appended, with LSNs
-- that grow and are not 0, and nothing else changes them.
pub record LogLaws {S : Type 0} (d : Engine S) : Type 0 where
  pub records : S → List LogRecord
  pub master : S → ℕ
  pub records-append :
      (r : LogRecord) (s : S)
      → records (d.storage.append_record r s).0
        ≡ records s ++ (record r { lsn = (d.storage.append_record r s).1 } ∷ [])
  pub lsn_above :
      (r : LogRecord) (s : S) → All (λ old. old.lsn < (d.storage.append_record r s).1) (records s)
  pub lsn_pos : (r : LogRecord) (s : S) → 0 < (d.storage.append_record r s).1
  pub records-flush : (lsn : ℕ) (s : S) → records (d.storage.flush_up_to lsn s) ≡ records s
  pub records-set_master :
      (lsn : ℕ) (s : S) → records (d.set_master_checkpoint_lsn lsn s) ≡ records s
  pub records-release : (id : ℕ) (s : S) → records (d.release_all id s) ≡ records s
  pub records-unregister : (id : ℕ) (s : S) → records (d.unregister_transaction id s) ≡ records s
  pub master-flush : (lsn : ℕ) (s : S) → master (d.storage.flush_up_to lsn s) ≡ master s
  pub master-release : (id : ℕ) (s : S) → master (d.release_all id s) ≡ master s
  pub master-unregister : (id : ℕ) (s : S) → master (d.unregister_transaction id s) ≡ master s
  pub master-set_master : (lsn : ℕ) (s : S) → master (d.set_master_checkpoint_lsn lsn s) ≡ lsn

analyze-skipped :
    (b : ℕ) (old recs : List LogRecord) (t : Tables)
    → 0 < b
    → All (λ r. r.lsn < b) old
    → analyze b (old ++ recs) t ≡ analyze b recs t
unfolding analyze analyze_record skipped
analyze-skipped b [] recs t pos h = refl
analyze-skipped b (r ∷ old) recs t pos h =
    let skip : analyze_record b r t ≡ t = ground (arith, h.0) in
    ap (analyze b (old ++ recs)) skip ∙ analyze-skipped b old recs t pos h.1

-- What analysis makes of the two records of a checkpoint.
analyze_checkpoint :
    (b : ℕ) (r e : LogRecord) (old : List LogRecord)
    → 0 < b
    → All (λ r. r.lsn < b) old
    → b ≤ e.lsn
    → r.type ≡ begin_checkpoint
    → e.type ≡ end_checkpoint
    → (analyze b ((old ++ (r ∷ [])) ++ (e ∷ [])) no_tables).txn_table
      ≡ note_active_txns e.active_txns []
unfolding analyze analyze_record skipped analyze_type
analyze_checkpoint b r e old pos before after is_begin is_end =
    ap (λ recs. (analyze b recs no_tables).txn_table) (append_assoc old (r ∷ []) (e ∷ []))
    ∙ ap (λ (t : Tables). t.txn_table) (analyze-skipped b old (r ∷ e ∷ []) no_tables pos before)
    ∙ ground arith

last_lsn-lt :
    (k : ℕ) (old : List LogRecord) (r : LogRecord)
    → All (λ r. r.lsn < k) (old ++ (r ∷ []))
    → r.lsn < k
last_lsn-lt k [] r h = h.0
last_lsn-lt k (o ∷ old) r h = last_lsn-lt k old r h.1

module _ {S : Type 0} (d : Engine S) (laws : LogLaws d) where
  -- The two appends of a checkpoint, and what the engine then has.
  checkpoint_records :
      (m : TransactionManager S)
      → (b : ℕ) × (r : LogRecord) × (e : LogRecord) × (laws.master (create_checkpoint d m).engine
          ≡ b)
        × (laws.records (create_checkpoint d m).engine
            ≡ (laws.records m.engine ++ (r ∷ [])) ++ (e ∷ []))
        × (0 < b)
        × All (λ r. r.lsn < b) (laws.records m.engine)
        × (b ≤ e.lsn)
        × (r.type ≡ begin_checkpoint)
        × (e.type ≡ end_checkpoint)
        × (e.active_txns ≡ snapshot_entries m.txns m.active_txns)
  unfolding create_checkpoint plain_record
  checkpoint_records m =
      let r = plain_record begin_checkpoint 0 0 in
      let b = d.storage.append_record r m.engine in
      let e = record (plain_record end_checkpoint 0 b.1) {
        active_txns = snapshot_entries m.txns m.active_txns;
        dirty_pages = dirty_entries (d.get_dirty_page_table_snapshot b.0);
      } in
      let end = d.storage.append_record e b.0 in
      let flushed = d.storage.flush_up_to end.1 end.0 in
      let above =
        subst (All (λ r. r.lsn < end.1)) (laws.records-append r m.engine) (laws.lsn_above e b.0) in
      (
        b.1,
        record r { lsn = b.1 },
        record e { lsn = end.1 },
        laws.master-set_master b.1 flushed,
        laws.records-set_master b.1 flushed
            ∙ laws.records-flush end.1 end.0
            ∙ laws.records-append e b.0
            ∙ ap (λ xs. xs ++ (record e { lsn = end.1 } ∷ [])) (laws.records-append r m.engine),
        laws.lsn_pos r m.engine,
        laws.lsn_above r m.engine,
        omega (arith, last_lsn-lt end.1 (laws.records m.engine) (record r { lsn = b.1 }) above),
        refl,
        refl,
        refl,
      )

  checkpoint_table :
      (m : TransactionManager S)
      → (analyze
          (laws.master (create_checkpoint d m).engine)
          (laws.records (create_checkpoint d m).engine)
          no_tables).txn_table
        ≡ note_active_txns (snapshot_entries m.txns m.active_txns) []
  checkpoint_table m =
      let (b, r, e, is_b, recs, pos, before, after, is_begin, is_end, entries) =
        checkpoint_records m in
      ap (λ k. (analyze k (laws.records (create_checkpoint d m).engine) no_tables).txn_table) is_b
      ∙ ap (λ xs. (analyze b xs no_tables).txn_table) recs
      ∙ analyze_checkpoint b r e (laws.records m.engine) pos before after is_begin is_end
      ∙ ap (λ xs. note_active_txns xs []) entries

  -- The end of Commit leaves the log and the master record alone.
  end_txn-analyze :
      (state : TransactionState) (id : ℕ) (txn : Transaction) (lsn : ℕ) (m : TransactionManager S)
      → analyze
          (laws.master (end_txn d state id txn lsn m).engine)
          (laws.records (end_txn d state id txn lsn m).engine)
          no_tables
        ≡ analyze (laws.master m.engine) (laws.records m.engine) no_tables
  unfolding end_txn
  end_txn-analyze state id txn lsn m =
      let s1 = d.storage.flush_up_to lsn m.engine in
      let s2 = d.release_all id s1 in
      let s3 = d.unregister_transaction id s2 in
      let same_master : laws.master s3 ≡ laws.master m.engine =
        laws.master-unregister id s2 ∙ laws.master-release id s1 ∙ laws.master-flush lsn m.engine in
      let same_records : laws.records s3 ≡ laws.records m.engine =
        laws.records-unregister id s2
        ∙ laws.records-release id s1
        ∙ laws.records-flush lsn m.engine in
      ap (λ k. analyze k (laws.records s3) no_tables) same_master
      ∙ ap (λ xs. analyze (laws.master m.engine) xs no_tables) same_records

  -- A transaction of which Commit has written the commit record, but not yet set the state, when a
  -- checkpoint is taken: when Commit has ended the transaction is committed, and the analysis of the
  -- log from that checkpoint on takes it for a loser, to be undone from its commit record back.
  pub checkpoint_loses_commit :
      (m : TransactionManager S) (id : ℕ) (txn : Transaction)
      → txn.state ≡ active
      → Has id m.active_txns
      → let logged = log_for d commit id txn m in
        let finished = end_txn d committed id txn logged.1 (create_checkpoint d logged.0) in
        (find id finished.txns ≡ some (record txn { state = committed; last_lsn = logged.1 }))
        × ((entry : TxnTableEntry) × (find id
                (analyze
                  (laws.master finished.engine)
                  (laws.records finished.engine)
                  no_tables).txn_table
              ≡ some entry)
            × (is_loser_state entry.state ≡ true)
            × (entry.last_lsn ≡ logged.1))
  unfolding end_txn log_for IsIn IsNew find is_loser_state
  checkpoint_loses_commit m id txn is_active has =
      let logged = log_for d commit id txn m in
      let checked = create_checkpoint d logged.0 in
      let marked = record txn { last_lsn = logged.1 } in
      let found : find id logged.0.txns ≡ some marked =
        find-assign id id marked m.txns ∙ rw (==_refl id) refl in
      let entries = snapshot_entries logged.0.txns m.active_txns in
      let stays =
        note_active_txns-enters entries id logged.1 []
          (snapshot-AllActive logged.0.txns m.active_txns id marked found is_active)
          (snapshot-HasEntry logged.0.txns m.active_txns id marked found has) (inl refl) in
      let ended = record txn { state = committed; last_lsn = logged.1 } in
      (
        find-assign id id ended checked.txns ∙ rw (==_refl id) refl,
        (
          record { state = active; last_lsn = logged.1 },
          ap (λ (t : Tables). find id t.txn_table)
                (end_txn-analyze committed id txn logged.1 checked)
              ∙ ap (find id) (checkpoint_table logged.0)
              ∙ stays,
          refl,
          refl,
        ),
      )
