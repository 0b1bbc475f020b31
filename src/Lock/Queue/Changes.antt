-- ===== src/Lock/Queue/Changes.antt =====
-- What a change of one transaction does to the exclusion of a table's lock queue:
-- concurrency/lock_manager_acquire.cpp.
use granite_db.Prelude.{
  ℕ, ◌≡◌, subst, sym, ap, ◌∙◌, inl, inr, ◌≢◌, Bool, true, false, none, some, ◌==◌, ==_iff, ==_ne,
  ==_refl, arith, not, fun_ext, Bool-cases,
}
use granite_db.Prelude.Dict.{nat_eq}
use granite_db.Transaction.{
  Transaction, is_abort_pending_or_done, try_mark_aborting, get_table_lock_mode, add_table_lock,
  set_active_if_not_aborting,
}
use granite_db.Lock.Queue.{
  LockRequestQueue, done, lock_table_round, find_request, withdraw, grant, can_grant_request,
  Cursor,
}
use granite_db.Lock.Queue.Shape.{find_request-Found}
use granite_db.Lock.Queue.Grant.{IsExclusive}
use granite_db.Lock.Queue.Hold.{grant-IsExclusive}
use granite_db.Lock.Queue.Leave.{abort-IsExclusive, withdraw-IsExclusive}
use granite_db.Lock.Queue.System.{Resource, update, live_in, held_in}
use granite_db.Lock.Queue.Views.{round-done, mark-cases, mark_locks, add_view}

module _ (rel : ℕ) where
  abbrev Exclusive : (ℕ → Transaction) → LockRequestQueue → Type 0
  Exclusive txns q =
      IsExclusive true (live_in rel (record { queue = q; txns = txns }))
        (held_in rel (record { queue = q; txns = txns })) q

  -- Every transaction goes by its own id.
  pub record Inv (w : Resource) : Type 0 where
    pub ids : (u : ℕ) → (w.txns u).txn_id ≡ u
    pub safe : Exclusive w.txns w.queue

  -- A change of one transaction, seen by the others.
  pub live-other :
      (txns : ℕ → Transaction) (q : LockRequestQueue) (t : ℕ) (txn : Transaction) (u : ℕ)
      → u ≢ t
      → not (is_abort_pending_or_done (update txns t txn u))
        ≡ not (is_abort_pending_or_done (txns u))
  live-other txns q t txn u n = rw (==_ne u t n)

  pub held-other :
      (txns : ℕ → Transaction) (q : LockRequestQueue) (t : ℕ) (txn : Transaction) (u : ℕ)
      → u ≢ t
      → held_in rel (record { queue = q; txns = update txns t txn }) u
        ≡ held_in rel (record { queue = q; txns = txns }) u
  held-other txns q t txn u n = rw (==_ne u t n)

  pub ids-update :
      (txns : ℕ → Transaction) (t : ℕ) (txn : Transaction)
      → ((u : ℕ) → (txns u).txn_id ≡ u)
      → txn.txn_id ≡ t
      → (u : ℕ) → (update txns t txn u).txn_id ≡ u
  ids-update txns t txn ids e u = elim (Bool-cases (u == t)) [
    | inl p ↦ rw p (e ∙ sym ((==_iff u t).0 p))
    | inr n ↦ rw n (ids u)
  ]

  -- A change that neither touches the table's lock nor starts to abort.
  pub same_view :
      (txns : ℕ → Transaction) (q : LockRequestQueue) (t : ℕ) (txn : Transaction)
      → is_abort_pending_or_done txn ≡ is_abort_pending_or_done (txns t)
      → get_table_lock_mode txn rel ≡ get_table_lock_mode (txns t) rel
      → Exclusive txns q
      → Exclusive (update txns t txn) q
  same_view txns q t txn e f inv =
      subst (λ l. IsExclusive true l (held_in rel w') q) (fun_ext (λ u. sym (live_same u)))
        (subst (λ h. IsExclusive true (live_in rel w) h q) (fun_ext (λ u. sym (held_same u))) inv)
    where
      w : Resource
      w = record { queue = q; txns = txns }

      w' : Resource
      w' = record { queue = q; txns = update txns t txn }

      live_same : (u : ℕ) → live_in rel w' u ≡ live_in rel w u
      live_same u = elim (Bool-cases (u == t)) [
        | inl p ↦ rw (p, (==_iff u t).0 p, e)
        | inr n ↦ rw n
      ]

      held_same : (u : ℕ) → held_in rel w' u ≡ held_in rel w u
      held_same u = elim (Bool-cases (u == t)) [
        | inl p ↦ rw (p, (==_iff u t).0 p, e, f)
        | inr n ↦ rw n
      ]

  -- A transaction that is aborting holds nothing that counts, whatever its locks say.
  pub dead_view :
      (txns : ℕ → Transaction) (q : LockRequestQueue) (t : ℕ) (txn : Transaction)
      → is_abort_pending_or_done txn ≡ true
      → (not (is_abort_pending_or_done (update txns t txn t)) ≡ false)
        × (held_in rel (record { queue = q; txns = update txns t txn }) t ≡ none)
  dead_view txns q t txn e = (rw (==_refl t, e), rw (==_refl t, e))

  pub nothing_held :
      (txns : ℕ → Transaction) (q : LockRequestQueue) (t : ℕ) (txn : Transaction)
      → get_table_lock_mode txn rel ≡ none
      → held_in rel (record { queue = q; txns = update txns t txn }) t ≡ none
  nothing_held txns q t txn e = rw (==_refl t, e) (ground arith)

  pub mark-Exclusive :
      (txns : ℕ → Transaction) (q : LockRequestQueue) (t : ℕ)
      → Exclusive txns q
      → Exclusive (update txns t (try_mark_aborting (txns t)).0) q
  mark-Exclusive txns q t inv =
      let txn = (try_mark_aborting (txns t)).0 in
      elim (mark-cases (txns t)) [
        | inl dead ↦
            abort-IsExclusive true _ _ _ _ t q inv (dead_view txns q t txn dead).1
              (held-other txns q t txn) (live-other txns q t txn) (dead_view txns q t txn dead).0
        | inr same ↦ same_view txns q t txn same (mark_locks (txns t) rel) inv
      ]

  grant-Exclusive :
      (txns : ℕ → Transaction) (q : LockRequestQueue) (t : ℕ) (c : Cursor)
      → (txns t).txn_id ≡ t
      → is_abort_pending_or_done (txns t) ≡ false
      → find_request q.requests t ≡ some c
      → can_grant_request true c ≡ true
      → Exclusive txns q
      → Exclusive
          (update txns t (add_table_lock rel c.it.mode (set_active_if_not_aborting (txns t))))
          (grant q t c)
  grant-Exclusive txns q t c id alive e can inv =
      subst (λ l. IsExclusive true l (held_in rel w') (grant q t c))
        (fun_ext (λ u. sym (live_same u)))
        (grant-IsExclusive true (live_in rel w) (held_in rel w) (held_in rel w') q t c inv
          (find_request-Found q.requests t c e) can (rw alive)
          (rw (==_refl t, view.0, alive, view.1)) (held-other txns q t txn))
    where
      txn : Transaction
      txn = add_table_lock rel c.it.mode (set_active_if_not_aborting (txns t))

      w : Resource
      w = record { queue = q; txns = txns }

      w' : Resource
      w' = record { queue = grant q t c; txns = update txns t txn }

      view :
          (is_abort_pending_or_done txn ≡ is_abort_pending_or_done (txns t))
          × (get_table_lock_mode txn rel ≡ some c.it.mode)
          × (txn.txn_id ≡ (txns t).txn_id)
      view = add_view (txns t) rel c.it.mode

      live_same : (u : ℕ) → live_in rel w' u ≡ live_in rel w u
      live_same u = elim (Bool-cases (u == t)) [
        | inl p ↦ rw (p, (==_iff u t).0 p, view.0)
        | inr n ↦ rw n
      ]

  pub finishes-Exclusive :
      (txns : ℕ → Transaction) (q q' : LockRequestQueue) (t : ℕ) (b : Bool) (txn : Transaction)
      → (txns t).txn_id ≡ t
      → lock_table_round (txns t) rel q ≡ done b txn q'
      → Exclusive txns q
      → Exclusive (update txns t txn) q' × (txn.txn_id ≡ t)
  finishes-Exclusive txns q q' t b txn id e inv = elim (round-done (txns t) rel q b txn q' e) [
    | inl (dead, same, q_is) ↦
        let gone = ap is_abort_pending_or_done same ∙ dead in
        let view = dead_view txns q t txn gone in
        (
          subst (Exclusive (update txns t txn))
              (sym (q_is ∙ at_id (λ k. withdraw q k (find_request q.requests k)) id))
              (withdraw-IsExclusive true _ _ _ _ t q inv view.1 (held-other txns q t txn)
                (live-other txns q t txn) view.0),
          rw same id,
        )
    | inr (inl (same, q_is)) ↦ (
      rw q_is (
          same_view txns q t txn (ap is_abort_pending_or_done same)
            (ap (λ x. get_table_lock_mode x rel) same) inv),
      rw same id,
    )
    | inr (inr (c, alive, found, can, txn_is, q_is)) ↦ (
      rw (q_is, txn_is)
          (subst
            (Exclusive
              (update txns t (add_table_lock rel c.it.mode (set_active_if_not_aborting (txns t)))))
            (sym (at_id (λ k. grant q k c) id))
            (grant-Exclusive txns q t c id alive (sym (at_id (find_request q.requests) id) ∙ found)
              can inv)),
      rw txn_is ((add_view (txns t) rel c.it.mode).2 ∙ id),
    )
  ]
    where
      at_id : {A : Type 0} (f : ℕ → A) → (txns t).txn_id ≡ t → f (txns t).txn_id ≡ f t
      at_id f e = ap f e
