-- ===== src/Lock/Deadlock/Resolve.antt =====
-- The deadlock worker's loop ends, and leaves no cycle: concurrency/lock_manager_deadlock.cpp.
use granite_db.Prelude.{
  ℕ, zero, suc, ◌<◌, ◌≡◌, refl, sym, ap, ◌∙◌, subst, Bool, false, List, [], ◌∷◌, ◌++◌, Option, none,
  some, Result, ok, err, ◌==◌, ==_iff, if◌then◌else◌, arith, Bool-cases, inl, inr, ◌⊎◌,
}
use granite_db.Prelude.Dict.{find, assign, find-assign, nat_eq}
use mathlib.Core.List.{Memᴰ}
use mathlib.Core.List.Memᴰ
use granite_db.Transaction.{Transaction, try_mark_aborting}
use granite_db.Lock.Queue.System.{is_over}
use granite_db.Lock.Deadlock.{WaitsFor, detect_cycle_victim}
use granite_db.Lock.Deadlock.Walk.{Edge, Waits, Chain, IsCycleVictim, edges-key}
use granite_db.Lock.Deadlock.Dfs.{detect_cycle_victim-decides}
use granite_db.Lock.Deadlock.Worker.{
  LockTables, build_waits_for_graph, remove_ungranted_requests, abort_victim_locked, Resolution,
  resolved, throws, push_victim, resolve_deadlocks,
}
use granite_db.Lock.Deadlock.Waiting.{waits_of, waits_all, remove_ungranted-Removes}
use granite_db.Lock.Deadlock.Nodes.{build-Nodes}
use granite_db.Row.{RowError}
use granite_db.Row.Compare.{Doubles}

-- A transaction that waits is known to the lock manager and not over.
unfoldable pub Abortable : LockTables → Type 0
Abortable m =
    (u : ℕ)
    → 0 < waits_of u m
    → (t : Transaction) × (find u m.txn_table ≡ some t) × (is_over t.state ≡ false)

-- Every transaction of a closed walk has an edge.
closed-Edge :
    (g : WaitsFor) (x y : ℕ) (xs : List ℕ)
    → Memᴰ x xs
    → Chain g (xs ++ (y ∷ []))
    → (z : ℕ) × Edge g x z
closed-Edge g x y [] m c = absurd (Memᴰ.not-nil m)
closed-Edge g x y (w ∷ []) m c =
    (y, subst (λ (u : ℕ). Edge g u y) (sym (Memᴰ.eq_of_singleton m)) c.0)
closed-Edge g x y (w ∷ v ∷ xs) m c = elim (Memᴰ.cases_cons m) [
  | inl e ↦ (v, subst (λ (u : ℕ). Edge g u v) (sym e) c.0)
  | inr m' ↦ closed-Edge g x y (v ∷ xs) m' c.1
]

victim-waits :
    (d : Doubles) (m : LockTables) (g : WaitsFor) (x : ℕ)
    → build_waits_for_graph d m ≡ ok g
    → IsCycleVictim g x
    → 0 < waits_of x m
victim-waits d m g x e v =
    let (z, edge) = closed-Edge g x v.first (v.first ∷ v.rest) v.member v.closed in
    edges-key (λ (u : ℕ). 0 < waits_of u m) g x z
      (build-Nodes (λ (u : ℕ). 0 < waits_of u m) d m g (λ u n. n) e) edge

abort-live :
    (x : ℕ) (m : LockTables) (t : Transaction)
    → find x m.txn_table ≡ some t
    → is_over t.state ≡ false
    → abort_victim_locked x m
      ≡ remove_ungranted_requests x
          (record m { txn_table = assign x (try_mark_aborting t).0 m.txn_table })
unfolding abort_victim_locked
abort-live x m t e live =
    let aborted = λ (v : Transaction).
      remove_ungranted_requests x
        (record m { txn_table = assign x (try_mark_aborting v).0 m.txn_table }) in
    ap
      (λ (o : Option Transaction). elim o as (λ _. LockTables) [
        | none ↦ m
        | some v ↦ if is_over v.state then m else aborted v
      ])
      e
    ∙ ap (λ (b : Bool). if b then m else aborted t) live

-- An aborted victim waits no more, and nobody else's state changes.
abort-progress :
    (x : ℕ) (m : LockTables)
    → Abortable m
    → 0 < waits_of x m
    → Abortable (abort_victim_locked x m) × (waits_all (abort_victim_locked x m) < waits_all m)
unfolding Abortable waits_of waits_all remove_ungranted_requests
abort-progress x m able waits =
    let (t, e, live) = able x waits in
    let m' = remove_ungranted_requests x m in
    let (total, gone, fewer) = remove_ungranted-Removes x m in
    rw (abort-live x m t e live) (
      λ u n.
          let still : 0 < waits_of u m = omega (arith, fewer u) in
          let (v, at, ok_v) = able u still in
          (
            v,
            find-assign x u (try_mark_aborting t).0 m.txn_table ∙ other x u _ _ n gone ∙ at,
            ok_v,
          ),
      omega (arith, total, gone),
    )
  where
    other :
        (x u : ℕ) (a b : Option Transaction)
        → 0 < waits_of u (remove_ungranted_requests x m)
        → waits_of x (remove_ungranted_requests x m) ≡ 0
        → (if x == u then a else b) ≡ b
    other x u a b n gone = elim (Bool-cases (x == u)) [
      | inl same ↦ absurd (
          omega (
            arith,
            ap (λ (w : ℕ). waits_of w (remove_ungranted_requests x m)) ((==_iff x u).0 same),
          ))
      | inr differ ↦ rw differ refl
    ]

resolve-step :
    (d : Doubles) (fuel : ℕ) (m : LockTables) (victims : List ℕ) (g : WaitsFor) (x : ℕ)
    → build_waits_for_graph d m ≡ ok g
    → detect_cycle_victim g ≡ some (some x)
    → resolve_deadlocks d (suc fuel) m victims
      ≡ resolve_deadlocks d fuel (abort_victim_locked x m) (push_victim x m victims)
unfolding resolve_deadlocks
resolve-step d fuel m victims g x e at = rw (resolve_deadlocks, e, at) refl

resolve-stops :
    (d : Doubles) (fuel : ℕ) (m : LockTables) (victims : List ℕ) (g : WaitsFor)
    → build_waits_for_graph d m ≡ ok g
    → detect_cycle_victim g ≡ some none
    → resolve_deadlocks d (suc fuel) m victims ≡ resolved m victims
unfolding resolve_deadlocks
resolve-stops d fuel m victims g e at = rw (resolve_deadlocks, e, at) refl

resolve-throws :
    (d : Doubles) (fuel : ℕ) (m : LockTables) (victims : List ℕ) (e : RowError)
    → build_waits_for_graph d m ≡ err e
    → resolve_deadlocks d (suc fuel) m victims ≡ throws e
unfolding resolve_deadlocks
resolve-throws d fuel m victims e at = rw (resolve_deadlocks, at) refl

-- The locks are left without a deadlock.
unfoldable pub IsResolved : Doubles → Resolution → Type 0
IsResolved d r =
    (m : LockTables) × (victims : List ℕ) × (g : WaitsFor) × (r ≡ resolved m victims)
    × (build_waits_for_graph d m ≡ ok g)
    × ((u : ℕ) → ¬ Waits g u u)

-- Where every waiting transaction is known to the manager and not over: the worker's loop ends after
-- at most one round more than there are waiting requests. It throws, or no transaction then waits,
-- over however many others, for itself.
pub resolve_deadlocks-IsResolved :
    (d : Doubles) (fuel : ℕ) (m : LockTables) (victims : List ℕ)
    → Abortable m
    → waits_all m < fuel
    → IsResolved d (resolve_deadlocks d fuel m victims)
      ⊎ ((e : RowError) × (resolve_deadlocks d fuel m victims ≡ throws e))
unfolding IsResolved
resolve_deadlocks-IsResolved d zero m victims able h = absurd (omega arith)
resolve_deadlocks-IsResolved d (suc fuel) m victims able h =
    go (build_waits_for_graph d m) refl (λ x waits.
      let (able', fewer) = abort-progress x m able waits in
      resolve_deadlocks-IsResolved d fuel (abort_victim_locked x m) (push_victim x m victims) able'
        (omega (arith, fewer)))
  where
    go :
        (r : Result RowError WaitsFor)
        → build_waits_for_graph d m ≡ r
        → ((x : ℕ)
            → 0 < waits_of x m
            → IsResolved d
                (resolve_deadlocks d fuel (abort_victim_locked x m) (push_victim x m victims))
              ⊎ ((e : RowError) × (resolve_deadlocks d fuel
                      (abort_victim_locked x m)
                      (push_victim x m victims)
                    ≡ throws e)))
        → IsResolved d (resolve_deadlocks d (suc fuel) m victims)
          ⊎ ((e : RowError) × (resolve_deadlocks d (suc fuel) m victims ≡ throws e))
    go (err e) at rest = inr (e, resolve-throws d fuel m victims e at)
    go (ok g) at rest = elim (detect_cycle_victim-decides g) [
      | inl (x, e, victim) ↦
          rw (resolve-step d fuel m victims g x at e) (rest x (victim-waits d m g x at victim))
      | inr (e, acyclic) ↦ inl (m, victims, g, resolve-stops d fuel m victims g at e, at, acyclic)
    ]
