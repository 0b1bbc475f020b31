-- ===== src/Recovery/Analysis.antt =====
-- What the tables hold after the analysis pass of recovery/recovery_manager.cpp.
use granite_db.Prelude.{
  ℕ, ◌≤◌, ◌≡◌, refl, sym, subst, Bool, true, false, ◌&&◌, List, [], ◌∷◌, ◌++◌, All, none, some,
  ◌==◌, ==_iff, arith, min, if◌then◌else◌,
}
use granite_db.Prelude.Dict.{find, find-assign, nat_eq}
use granite_db.Types.{PageId, page_id_eq_iff, page_id_key}
use granite_db.Transaction.{TransactionState, active, committed, aborted}
use granite_db.Wal.{
  LogRecord, LogRecordType, begin, commit, abort, is_page_update_record, is_undoable_page_record,
  is_clr, CheckpointTxnEntry, DirtyPageEntry,
}
use granite_db.Recovery.{
  TxnTableEntry, Tables, is_txn_end_state, txn_entry, note_end, note_dirty, note_txn, note_update,
  note_active_txns, note_dirty_pages, analyze_type, analyze_record, analyze, skipped, touched,
}

-- The page is in the table with an LSN that is not above `lsn`.
unfoldable pub IsCovered : PageId → ℕ → List (PageId × ℕ) → Type 0
IsCovered page_id lsn table = (rec_lsn : ℕ) × (find page_id table ≡ some rec_lsn) × (rec_lsn ≤ lsn)

find-note_dirty :
    (p q : PageId) (lsn : ℕ) (table : List (PageId × ℕ))
    → find q (note_dirty p lsn table) ≡ (
        if page_id_key.beq p q
        then some (elim (find p table) [ none ↦ lsn | some r ↦ min r lsn ])
        else find q table)
unfolding note_dirty
find-note_dirty p q lsn table =
    find-assign p q (elim (find p table) [ none ↦ lsn | some r ↦ min r lsn ]) table

note_dirty-IsCovered_self :
    (p : PageId) (lsn : ℕ) (table : List (PageId × ℕ)) → IsCovered p lsn (note_dirty p lsn table)
unfolding IsCovered
note_dirty-IsCovered_self p lsn table =
    ground (arith, find-note_dirty p p lsn table, page_id_eq_iff p p)

note_dirty-IsCovered :
    (p q : PageId) (l lsn : ℕ) (table : List (PageId × ℕ))
    → IsCovered q lsn table
    → IsCovered q lsn (note_dirty p l table)
unfolding IsCovered
note_dirty-IsCovered p q l lsn table h =
    ground (arith, find-note_dirty p q l table, page_id_eq_iff p q)

note_dirty_pages-IsCovered :
    (dps : List DirtyPageEntry) (q : PageId) (lsn : ℕ) (table : List (PageId × ℕ))
    → IsCovered q lsn table
    → IsCovered q lsn (note_dirty_pages dps table)
unfolding note_dirty_pages
note_dirty_pages-IsCovered [] q lsn table h = h
note_dirty_pages-IsCovered (dp ∷ dps) q lsn table h =
    note_dirty_pages-IsCovered dps q lsn (note_dirty dp.page_id dp.rec_lsn table)
      (note_dirty-IsCovered dp.page_id q dp.rec_lsn lsn table h)

note_update-IsCovered :
    (rec : LogRecord) (q : PageId) (lsn : ℕ) (t : Tables)
    → IsCovered q lsn t.dirty_page_table
    → IsCovered q lsn (note_update rec t).dirty_page_table
unfolding note_update
note_update-IsCovered rec q lsn t h =
    ground (arith, note_dirty-IsCovered rec.page_id q rec.lsn lsn t.dirty_page_table h)

analyze_type-IsCovered :
    (type : LogRecordType) (rec : LogRecord) (q : PageId) (lsn : ℕ) (t : Tables)
    → IsCovered q lsn t.dirty_page_table
    → IsCovered q lsn (analyze_type type rec t).dirty_page_table
unfolding analyze_type note_end
analyze_type-IsCovered type rec q lsn t h = ground (
  arith,
  note_update-IsCovered rec q lsn t h,
  note_dirty_pages-IsCovered rec.dirty_pages q lsn t.dirty_page_table h,
)

analyze-IsCovered :
    (checkpoint_lsn : ℕ) (recs : List LogRecord) (q : PageId) (lsn : ℕ) (t : Tables)
    → IsCovered q lsn t.dirty_page_table
    → IsCovered q lsn (analyze checkpoint_lsn recs t).dirty_page_table
unfolding analyze analyze_record
analyze-IsCovered checkpoint_lsn [] q lsn t h = h
analyze-IsCovered checkpoint_lsn (r ∷ rs) q lsn t h =
    analyze-IsCovered checkpoint_lsn rs q lsn (analyze_record checkpoint_lsn r t) kept
  where
    kept : IsCovered q lsn (analyze_record checkpoint_lsn r t).dirty_page_table
    kept = ground (arith, analyze_type-IsCovered r.type r q lsn t h)

analyze_type-update :
    (type : LogRecordType) (rec : LogRecord) (t : Tables)
    → is_page_update_record type ≡ true
    → analyze_type type rec t ≡ note_update rec t
unfolding analyze_type is_page_update_record is_undoable_page_record is_clr
analyze_type-update type rec t h = ground arith

analyze_record-IsCovered :
    (checkpoint_lsn : ℕ) (rec : LogRecord) (t : Tables)
    → is_page_update_record rec.type ≡ true
    → rec.has_page ≡ true
    → skipped checkpoint_lsn rec.lsn ≡ false
    → IsCovered rec.page_id rec.lsn (analyze_record checkpoint_lsn rec t).dirty_page_table
unfolding analyze_record note_update
analyze_record-IsCovered checkpoint_lsn rec t u h s = ground (
  arith,
  analyze_type-update rec.type rec t u,
  note_dirty-IsCovered_self rec.page_id rec.lsn t.dirty_page_table,
)

pub analyze_append :
    (checkpoint_lsn : ℕ) (pre post : List LogRecord) (t : Tables)
    → analyze checkpoint_lsn (pre ++ post) t
      ≡ analyze checkpoint_lsn post (analyze checkpoint_lsn pre t)
unfolding analyze
analyze_append checkpoint_lsn [] post t = refl
analyze_append checkpoint_lsn (r ∷ rs) post t =
    analyze_append checkpoint_lsn rs post (analyze_record checkpoint_lsn r t)

-- After analysis, the page of every update record that the analysis does not skip is in the dirty
-- page table, with an LSN that is not above the record's: redo starts at or before every such
-- record and does not pass its page over.
pub update-IsCovered :
    (checkpoint_lsn : ℕ) (pre post : List LogRecord) (rec : LogRecord) (t : Tables)
    → is_page_update_record rec.type ≡ true
    → rec.has_page ≡ true
    → skipped checkpoint_lsn rec.lsn ≡ false
    → IsCovered rec.page_id rec.lsn (analyze checkpoint_lsn (pre ++ rec ∷ post) t).dirty_page_table
unfolding analyze
update-IsCovered checkpoint_lsn pre post rec t u h s =
    subst (λ r. IsCovered rec.page_id rec.lsn r.dirty_page_table)
      (sym (analyze_append checkpoint_lsn pre (rec ∷ post) t))
      (analyze-IsCovered checkpoint_lsn post rec.page_id rec.lsn
        (analyze_record checkpoint_lsn rec (analyze checkpoint_lsn pre t))
        (analyze_record-IsCovered checkpoint_lsn rec (analyze checkpoint_lsn pre t) u h s))

-- The record begins or aborts the transaction `id`.
unfoldable pub restarts : ℕ → LogRecord → Bool
restarts id rec = rec.txn_id == id && elim rec.type [ begin ↦ true | abort ↦ true | _ ↦ false ]

note_txn-committed :
    (id j : ℕ) (state : TransactionState) (lsn : ℕ) (table : List (ℕ × TxnTableEntry))
    → (txn_entry id table).state ≡ committed
    → (txn_entry id (note_txn j state lsn table)).state ≡ committed
unfolding note_txn txn_entry is_txn_end_state touched
note_txn-committed id j state lsn table h =
    ground (arith, ==_iff j id, find-assign j id (touched state lsn (txn_entry j table)) table)

note_active_txns-committed :
    (txs : List CheckpointTxnEntry) (id : ℕ) (table : List (ℕ × TxnTableEntry))
    → (txn_entry id table).state ≡ committed
    → (txn_entry id (note_active_txns txs table)).state ≡ committed
unfolding note_active_txns
note_active_txns-committed [] id table h = h
note_active_txns-committed (tx ∷ txs) id table h =
    note_active_txns-committed txs id (note_txn tx.txn_id tx.state tx.last_lsn table)
      (note_txn-committed id tx.txn_id tx.state tx.last_lsn table h)

txn_entry-note_end :
    (state : TransactionState) (rec : LogRecord) (id : ℕ) (t : Tables)
    → (txn_entry id (note_end state rec t).txn_table).state
      ≡ (if rec.txn_id == id then state else (txn_entry id t.txn_table).state)
unfolding note_end txn_entry
txn_entry-note_end state rec id t =
    let entry : TxnTableEntry = record { state = state; last_lsn = rec.lsn } in
    ground (arith, ==_iff rec.txn_id id, find-assign rec.txn_id id entry t.txn_table)

note_update-committed :
    (rec : LogRecord) (id : ℕ) (t : Tables)
    → (txn_entry id t.txn_table).state ≡ committed
    → (txn_entry id (note_update rec t).txn_table).state ≡ committed
unfolding note_update
note_update-committed rec id t h = note_txn-committed id rec.txn_id active rec.lsn t.txn_table h

analyze_type-committed :
    (type : LogRecordType) (rec : LogRecord) (id : ℕ) (t : Tables)
    → (rec.txn_id == id && elim type [ begin ↦ true | abort ↦ true | _ ↦ false ]) ≡ false
    → (txn_entry id t.txn_table).state ≡ committed
    → (txn_entry id (analyze_type type rec t).txn_table).state ≡ committed
unfolding analyze_type
analyze_type-committed type rec id t r h = ground (
  arith,
  txn_entry-note_end active rec id t,
  txn_entry-note_end committed rec id t,
  txn_entry-note_end aborted rec id t,
  note_update-committed rec id t h,
  note_active_txns-committed rec.active_txns id t.txn_table h,
)

analyze-committed :
    (checkpoint_lsn : ℕ) (recs : List LogRecord) (id : ℕ) (t : Tables)
    → All (λ rec. restarts id rec ≡ false) recs
    → (txn_entry id t.txn_table).state ≡ committed
    → (txn_entry id (analyze checkpoint_lsn recs t).txn_table).state ≡ committed
unfolding analyze analyze_record restarts
analyze-committed checkpoint_lsn [] id t r h = h
analyze-committed checkpoint_lsn (rec ∷ recs) id t r h =
    analyze-committed checkpoint_lsn recs id (analyze_record checkpoint_lsn rec t) r.1
      (ground (arith, analyze_type-committed rec.type rec id t r.0 h))

-- A transaction whose commit record the analysis reads, and which no later record begins again or
-- aborts, is committed in the table after the analysis, whatever update and checkpoint records
-- come before and after: undo leaves it alone.
pub commit-not_loser :
    (checkpoint_lsn : ℕ) (pre post : List LogRecord) (rec : LogRecord) (t : Tables)
    → rec.type ≡ commit
    → skipped checkpoint_lsn rec.lsn ≡ false
    → All (λ r. restarts rec.txn_id r ≡ false) post
    → (txn_entry rec.txn_id (analyze checkpoint_lsn (pre ++ rec ∷ post) t).txn_table).state
      ≡ committed
unfolding analyze analyze_record analyze_type
commit-not_loser checkpoint_lsn pre post rec t c s r =
    subst (λ u. (txn_entry rec.txn_id u.txn_table).state ≡ committed)
      (sym (analyze_append checkpoint_lsn pre (rec ∷ post) t))
      (analyze-committed checkpoint_lsn post rec.txn_id (analyze_record checkpoint_lsn rec before) r
        ended)
  where
    before : Tables
    before = analyze checkpoint_lsn pre t

    ended :
        (txn_entry rec.txn_id (analyze_record checkpoint_lsn rec before).txn_table).state
        ≡ committed
    ended =
        ground
          (arith, ==_iff rec.txn_id rec.txn_id, txn_entry-note_end committed rec rec.txn_id before)
