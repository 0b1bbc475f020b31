-- ===== src/Manager/Snapshot.antt =====
-- What the analysis of recovery/recovery_manager.cpp makes of the transactions in a snapshot of
-- concurrency/transaction_manager.cpp.
use granite_db.Prelude.{
  ℕ, ◌≡◌, ◌≢◌, refl, sym, ap, ◌∙◌, subst, List, [], ◌∷◌, All, Option, none, some, ◌==◌, ==_iff,
  ==_refl, ==_ne, arith, Bool-cases, inl, inr, ◌⊎◌,
}
use granite_db.Prelude.Dict.{find, find-assign, nat_eq}
use granite_db.Transaction.{TransactionState, active, Transaction}
use granite_db.Wal.{CheckpointTxnEntry}
use granite_db.Recovery.{
  TxnTableEntry, is_txn_end_state, note_active_txns, note_txn, txn_entry, touched,
}
use granite_db.Manager.{snapshot_entries}

-- The entries of a snapshot for one transaction all say that it is active since `lsn`.
unfoldable pub AllActive : ℕ → ℕ → List CheckpointTxnEntry → Type 0
AllActive id lsn entries =
    All (λ e. e.txn_id ≡ id → (e.state ≡ active) × (e.last_lsn ≡ lsn)) entries

unfoldable pub Has : ℕ → List ℕ → Type 0
Has id [] = ⊥
Has id (x ∷ xs) = (x ≡ id) ⊎ Has id xs

pub snapshot-AllActive :
    (txns : List (ℕ × Transaction)) (ids : List ℕ) (id : ℕ) (txn : Transaction)
    → find id txns ≡ some txn
    → txn.state ≡ active
    → AllActive id txn.last_lsn (snapshot_entries txns ids)
unfolding AllActive snapshot_entries
snapshot-AllActive txns [] id txn e a = tt
snapshot-AllActive txns (x ∷ xs) id txn e a =
    go (find x txns) refl (snapshot-AllActive txns xs id txn e a)
  where
    go :
        (o : Option Transaction)
        → find x txns ≡ o
        → AllActive id txn.last_lsn (snapshot_entries txns xs)
        → AllActive id txn.last_lsn (elim o [
          | none ↦ snapshot_entries txns xs
          | some t ↦
              record { txn_id = x; state = t.state; last_lsn = t.last_lsn }
              ∷ snapshot_entries txns xs
        ])
    go none f rest = rest
    go (some t) f rest = (
      λ same.
          let is_txn : some txn ≡ some t = sym e ∙ ap (λ k. find k txns) (sym same) ∙ f in
          (ground arith, ground arith),
      rest,
    )

-- The transaction stands in the table as active since `lsn`, or it can still come to.
unfoldable pub IsIn : ℕ → ℕ → List (ℕ × TxnTableEntry) → Type 0
IsIn id lsn table = find id table ≡ some (record { state = active; last_lsn = lsn })

unfoldable pub IsNew : ℕ → ℕ → List (ℕ × TxnTableEntry) → Type 0
IsNew id lsn table = (find id table ≡ none) ⊎ IsIn id lsn table

touched_again :
    (lsn : ℕ)
    → touched active lsn (record { state = active; last_lsn = lsn })
      ≡ record { state = active; last_lsn = lsn }
unfolding touched is_txn_end_state
touched_again lsn = ap (λ (k : ℕ). record { state = active; last_lsn = k }) (omega arith)

touched_first :
    (lsn : ℕ)
    → touched active lsn (record { state = active; last_lsn = 0 })
      ≡ record { state = active; last_lsn = lsn }
unfolding touched is_txn_end_state
touched_first lsn = ap (λ (k : ℕ). record { state = active; last_lsn = k }) (omega arith)

txn_entry-none :
    (id : ℕ) (table : List (ℕ × TxnTableEntry))
    → find id table ≡ none
    → txn_entry id table ≡ record { state = active; last_lsn = 0 }
unfolding txn_entry
txn_entry-none id table e = rw (txn_entry, e) refl

txn_entry-some :
    (id : ℕ) (table : List (ℕ × TxnTableEntry)) (entry : TxnTableEntry)
    → find id table ≡ some entry
    → txn_entry id table ≡ entry
unfolding txn_entry
txn_entry-some id table entry e = rw (txn_entry, e) refl

find-note_txn :
    (id : ℕ) (state : TransactionState) (lsn : ℕ) (table : List (ℕ × TxnTableEntry))
    → find id (note_txn id state lsn table) ≡ some (touched state lsn (txn_entry id table))
unfolding note_txn
find-note_txn id state lsn table =
    find-assign id id (touched state lsn (txn_entry id table)) table ∙ rw (==_refl id) refl

note_txn-IsIn :
    (id lsn : ℕ) (table : List (ℕ × TxnTableEntry))
    → IsNew id lsn table
    → IsIn id lsn (note_txn id active lsn table)
unfolding IsNew IsIn
note_txn-IsIn id lsn table (inl e) =
    find-note_txn id active lsn table
    ∙ ap some (ap (touched active lsn) (txn_entry-none id table e) ∙ touched_first lsn)
note_txn-IsIn id lsn table (inr e) =
    find-note_txn id active lsn table
    ∙ ap some (ap (touched active lsn) (txn_entry-some id table _ e) ∙ touched_again lsn)

note_entry-IsIn :
    (id lsn : ℕ) (e : CheckpointTxnEntry) (table : List (ℕ × TxnTableEntry))
    → e.txn_id ≡ id
    → (e.state ≡ active) × (e.last_lsn ≡ lsn)
    → IsNew id lsn table
    → IsIn id lsn (note_txn e.txn_id e.state e.last_lsn table)
note_entry-IsIn id lsn e table same (is_active, is_lsn) new =
    subst (λ x. IsIn id lsn (note_txn x e.state e.last_lsn table)) (sym same)
      (subst (λ st. IsIn id lsn (note_txn id st e.last_lsn table)) (sym is_active)
        (subst (λ l. IsIn id lsn (note_txn id active l table)) (sym is_lsn)
          (note_txn-IsIn id lsn table new)))

note_other :
    (x id : ℕ) (state : TransactionState) (lsn : ℕ) (table : List (ℕ × TxnTableEntry))
    → x ≢ id
    → find id (note_txn x state lsn table) ≡ find id table
unfolding note_txn
note_other x id state lsn table ne =
    find-assign x id (touched state lsn (txn_entry x table)) table ∙ rw (==_ne x id ne) refl

-- After the entries of a snapshot in which the transaction is active, it stays in.
note_active_txns-IsIn :
    (entries : List CheckpointTxnEntry) (id lsn : ℕ) (table : List (ℕ × TxnTableEntry))
    → AllActive id lsn entries
    → IsIn id lsn table
    → IsIn id lsn (note_active_txns entries table)
unfolding note_active_txns AllActive IsNew IsIn
note_active_txns-IsIn [] id lsn table h k = k
note_active_txns-IsIn (e ∷ es) id lsn table h k =
    note_active_txns-IsIn es id lsn (note_txn e.txn_id e.state e.last_lsn table) h.1
      (elim (Bool-cases (e.txn_id == id)) [
        | inl here ↦
            let same : e.txn_id ≡ id = (==_iff e.txn_id id).0 here in
            note_entry-IsIn id lsn e table same (h.0 same) (inr k)
        | inr other ↦
            let ne : e.txn_id ≢ id = λ f. ground (arith, ==_iff e.txn_id id, f) in
            note_other e.txn_id id e.state e.last_lsn table ne ∙ k
      ])

unfoldable pub HasEntry : ℕ → List CheckpointTxnEntry → Type 0
HasEntry id [] = ⊥
HasEntry id (e ∷ es) = (e.txn_id ≡ id) ⊎ HasEntry id es

pub snapshot-HasEntry :
    (txns : List (ℕ × Transaction)) (ids : List ℕ) (id : ℕ) (txn : Transaction)
    → find id txns ≡ some txn
    → Has id ids
    → HasEntry id (snapshot_entries txns ids)
unfolding snapshot_entries HasEntry Has
snapshot-HasEntry txns [] id txn e h = h
snapshot-HasEntry txns (x ∷ xs) id txn e h =
    go (find x txns) refl (λ k. snapshot-HasEntry txns xs id txn e k)
  where
    go :
        (o : Option Transaction)
        → find x txns ≡ o
        → (Has id xs → HasEntry id (snapshot_entries txns xs))
        → HasEntry id (elim o [
          | none ↦ snapshot_entries txns xs
          | some t ↦
              record { txn_id = x; state = t.state; last_lsn = t.last_lsn }
              ∷ snapshot_entries txns xs
        ])
    go none f rest = elim h [
      | inl same ↦
          let found : some txn ≡ none = sym e ∙ ap (λ k. find k txns) (sym same) ∙ f in
          absurd (ground arith)
      | inr k ↦ rest k
    ]
    go (some t) f rest = elim h [ inl same ↦ inl same | inr k ↦ inr (rest k) ]

-- It comes in with its entry.
pub note_active_txns-enters :
    (entries : List CheckpointTxnEntry) (id lsn : ℕ) (table : List (ℕ × TxnTableEntry))
    → AllActive id lsn entries
    → HasEntry id entries
    → IsNew id lsn table
    → IsIn id lsn (note_active_txns entries table)
unfolding note_active_txns AllActive HasEntry IsNew IsIn
note_active_txns-enters [] id lsn table h k n = absurd k
note_active_txns-enters (e ∷ es) id lsn table h k n =
    let next = note_txn e.txn_id e.state e.last_lsn table in
    elim (Bool-cases (e.txn_id == id)) [
      | inl here ↦
          let same : e.txn_id ≡ id = (==_iff e.txn_id id).0 here in
          note_active_txns-IsIn es id lsn next h.1
            (note_entry-IsIn id lsn e table same (h.0 same) n)
      | inr other ↦
          let ne : e.txn_id ≢ id = λ f. ground (arith, ==_iff e.txn_id id, f) in
          let kept = note_other e.txn_id id e.state e.last_lsn table ne in
          elim k [
            | inl same ↦ absurd (ne same)
            | inr rest ↦
                note_active_txns-enters es id lsn next h.1 rest
                  (elim n [ inl a ↦ inl (kept ∙ a) | inr b ↦ inr (kept ∙ b) ])
          ]
    ]
