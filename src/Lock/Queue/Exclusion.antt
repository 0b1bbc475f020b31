-- ===== src/Lock/Queue/Exclusion.antt =====
-- Mutual exclusion on one table, in every interleaving of the calls of concurrency/lock_manager*.cpp.
use granite_db.Prelude.{
  ℕ, ◌≡◌, refl, ap, ◌∙◌, inl, inr, ◌≢◌, true, false, [], none, some, Bool-cases,
}
use granite_db.Prelude.Dict.{nat_eq, find}
use granite_db.Transaction.{
  Transaction, LockMode, is_abort_pending_or_done, try_mark_aborting, set_state, clear_all_locks,
  get_table_lock_mode, committed, aborted, set_waiting_if_not_aborting, new_transaction,
}
use granite_db.Lock.Mode.{compatible}
use granite_db.Lock.Queue.Enter.{enqueue-IsExclusive}
use granite_db.Lock.Queue.Leave.{release-IsExclusive, remove_ungranted-IsExclusive}
use granite_db.Lock.Queue.System.{
  Resource, update, is_over, abort_victim, Step, joins, answers, finishes, sleeps, victimizes,
  marks, commits, aborts, releases, Reach, start, later,
}
use granite_db.Lock.Queue.Views.{
  try_mark_id, entry-enters, entry-returns, round-waits, waiting_view, committed_view, aborted_view,
  clear_id, clear_locks, mark_dead,
}
use granite_db.Lock.Queue.Changes.{
  Inv, live-other, held-other, ids-update, same_view, dead_view, nothing_held, mark-Exclusive,
  finishes-Exclusive,
}

module _ (rel : ℕ) where
  victim-Inv : (w : Resource) (t : ℕ) → Inv rel w → Inv rel (abort_victim t w)
  unfolding abort_victim
  victim-Inv w t inv = elim (Bool-cases (is_over (w.txns t).state)) [
    | inl over ↦ rw over inv
    | inr still ↦
        let txn = (try_mark_aborting (w.txns t)).0 in
        let view = dead_view rel w.txns w.queue t txn (mark_dead (w.txns t) still) in
        rw still (record {
          ids = ids-update rel w.txns t txn inv.ids (try_mark_id (w.txns t) ∙ inv.ids t);
          safe =
              remove_ungranted-IsExclusive true _ _ _ _ t w.queue inv.safe view.1
                (held-other rel w.txns w.queue t txn) (live-other rel w.txns w.queue t txn) view.0;
        })
  ]

  -- A change of one transaction that keeps its id and the table's view of it.
  quiet-Inv :
      (w : Resource) (t : ℕ) (txn : Transaction)
      → txn.txn_id ≡ (w.txns t).txn_id
      → is_abort_pending_or_done txn ≡ is_abort_pending_or_done (w.txns t)
      → get_table_lock_mode txn rel ≡ get_table_lock_mode (w.txns t) rel
      → Inv rel w
      → Inv rel (record w { txns = update w.txns t txn })
  quiet-Inv w t txn e f g inv = record {
    ids = ids-update rel w.txns t txn inv.ids (e ∙ inv.ids t);
    safe = same_view rel w.txns w.queue t txn f g inv.safe;
  }

  mark-Inv :
      (w : Resource) (t : ℕ)
      → Inv rel w
      → Inv rel (record w { txns = update w.txns t (try_mark_aborting (w.txns t)).0 })
  mark-Inv w t inv = record {
    ids = ids-update rel w.txns t _ inv.ids (try_mark_id (w.txns t) ∙ inv.ids t);
    safe = mark-Exclusive rel w.txns w.queue t inv.safe;
  }

  -- Every step keeps the invariant.
  Step-Inv : {w w' : Resource} → Step rel w w' → Inv rel w → Inv rel w'
  Step-Inv {w} (joins t mode q e) inv =
      let (m, p) = entry-enters (w.txns t) rel mode w.queue q e in
      record {
        ids = inv.ids;
        safe = enqueue-IsExclusive true _ _ w.queue inv.safe (w.txns t).txn_id m q p;
      }
  Step-Inv {w} (answers t mode b txn e) inv =
      elim (entry-returns (w.txns t) rel mode w.queue b txn e) [
        | inl same ↦
            quiet-Inv w t txn (ap (λ x. x.txn_id) same) (ap is_abort_pending_or_done same)
              (ap (λ x. get_table_lock_mode x rel) same) inv
        | inr marked ↦ rw marked (mark-Inv w t inv)
      ]
  Step-Inv {w} (finishes t b txn q e) inv =
      let r = finishes-Exclusive rel w.txns w.queue q t b txn (inv.ids t) e inv.safe in
      record { ids = ids-update rel w.txns t txn inv.ids r.1; safe = r.0 }
  Step-Inv {w} (sleeps t txn q e) inv =
      let (same, q_is) = round-waits (w.txns t) rel w.queue txn q e in
      let view = waiting_view (w.txns t) rel in
      rw (same, q_is)
        (quiet-Inv w t (set_waiting_if_not_aborting (w.txns t)) view.2 view.0 view.1 inv)
  Step-Inv {w} (victimizes t) inv = victim-Inv w t inv
  Step-Inv {w} (marks t) inv = mark-Inv w t inv
  Step-Inv {w} (commits t alive) inv =
      let view = committed_view (w.txns t) rel alive in
      quiet-Inv w t (set_state committed (w.txns t)) view.2 view.0 view.1 inv
  Step-Inv {w} (aborts t dead) inv =
      let view = aborted_view (w.txns t) rel dead in
      quiet-Inv w t (set_state aborted (w.txns t)) view.2 view.0 view.1 inv
  Step-Inv {w} (releases t) inv =
      let txn = clear_all_locks (w.txns t) in
      record {
        ids = ids-update rel w.txns t txn inv.ids (clear_id (w.txns t) ∙ inv.ids t);
        safe =
            release-IsExclusive true _ _ _ _ t w.queue inv.safe
              (nothing_held rel w.txns w.queue t txn (clear_locks (w.txns t) rel))
              (held-other rel w.txns w.queue t txn) (live-other rel w.txns w.queue t txn);
      }

  start-Inv :
      Inv rel
        (record { queue = record { requests = []; upgrading_txn = none }; txns = new_transaction })
  unfolding new_transaction is_abort_pending_or_done get_table_lock_mode find
  start-Inv = record {
    ids = λ u. refl;
    safe = record {
      distinct = tt;
      settled = tt;
      pending = tt;
      ordered = tt;
      alive = λ u a h. refl;
      present = λ u a h. cc;
      exclusive = λ t u a b n h k. cc;
    };
  }

  Reach-Inv : {w : Resource} → Reach rel w → Inv rel w
  Reach-Inv start = start-Inv
  Reach-Inv (later r st) = Step-Inv st (Reach-Inv r)

  -- In every reachable state two transactions that are not aborting hold compatible modes on the
  -- table, whatever calls, upgrades, aborts, deadlock victims and releases led there.
  pub mutual_exclusion :
      {w : Resource}
      → Reach rel w
      → (t u : ℕ) (a b : LockMode) → t ≢ u
      → is_abort_pending_or_done (w.txns t) ≡ false
      → is_abort_pending_or_done (w.txns u) ≡ false
      → get_table_lock_mode (w.txns t) rel ≡ some a
      → get_table_lock_mode (w.txns u) rel ≡ some b
      → compatible true a b ≡ true
  mutual_exclusion r t u a b n alive alive' h k =
      (Reach-Inv r).safe.exclusive t u a b n (rw (alive, h)) (rw (alive', k))
