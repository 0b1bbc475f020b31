-- ===== src/Lock/Deadlock/Calls.antt =====
-- What a call of `dfs` returns, and the fuel that it needs: concurrency/lock_manager_deadlock.cpp.
use granite_db.Prelude.{
  ℕ, zero, suc, ◌≤◌, ◌≢◌, ◌<◌, ◌≡◌, refl, sym, ap, ◌∙◌, subst, List, [], ◌∷◌, ◌++◌, Option, none,
  some, arith, inl, inr, ◌⊎◌,
}
use mathlib.Core.List.{Memᴰ}
use mathlib.Core.List.Memᴰ
use granite_db.Lock.Deadlock.{
  WaitsFor, edges, CycleSearch, color, enter_node, leave_node, close_cycle, unless_found, visit,
  dfs, find_from, largest,
}
use granite_db.Lock.Deadlock.Walk.{
  Edge, Chain, Chain-snoc, Chain-find_from, find_from-head, largest-Mem, largest-most,
}
use granite_db.Lock.Deadlock.Marks.{
  color-enter, color-leave, unmet, unmet-le, unmet-lt, Inv, Grown, Caught, Grown-met, Grown-refl,
  Grown-trans, Inv-enter, Grown-leave,
}

unless_found-caught :
    (go : CycleSearch → Option CycleSearch) (t : CycleSearch) (x : ℕ)
    → t.victim ≡ some x
    → unless_found go (some t) ≡ some t
unless_found-caught go t x e = simp e

unless_found-quiet :
    (go : CycleSearch → Option CycleSearch) (t : CycleSearch)
    → t.victim ≡ none
    → unless_found go (some t) ≡ go t
unless_found-quiet go t e = simp e

module _ (g : WaitsFor) where
  -- The search returns, with a victim or with what it left and `P`.
  abbrev pub Ends : Option CycleSearch → CycleSearch → (CycleSearch → Type 0) → Type 0
  Ends r s P = (t : CycleSearch) × (r ≡ some t) × (Caught g t ⊎ (Grown g s t × P t))

  abbrev pub CallEnds : ℕ → Type 0
  CallEnds fuel =
      (v : ℕ) (s : CycleSearch)
      → Inv g s
      → Chain g (s.stack ++ (v ∷ []))
      → color s v ≡ 0
      → unmet g s < fuel
      → Ends (dfs g fuel v s) s (λ t. 2 ≤ color t v)

  -- A call, and what follows unless it found a victim.
  pub Ends-unless_found :
      (go : CycleSearch → Option CycleSearch) (r : Option CycleSearch) (s' s : CycleSearch)
      (P Q : CycleSearch → Type 0)
      → Ends r s' P
      → ((t : CycleSearch) → Grown g s' t → P t → Ends (go t) s Q)
      → Ends (unless_found go r) s Q
  Ends-unless_found go r s' s P Q (t, e, inl caught) next =
      (t, ap (unless_found go) e ∙ unless_found-caught go t caught.0 caught.1, inl caught)
  Ends-unless_found go r s' s P Q (t, e, inr (h, p)) next =
      let (t', e', ends) = next t h p in
      (t', ap (unless_found go) e ∙ (unless_found-quiet go t h.inv.quiet ∙ e'), ends)

  Caught-close_cycle :
      (s : CycleSearch) (v : ℕ)
      → Inv g s
      → Chain g (s.stack ++ (v ∷ []))
      → color s v ≡ 1
      → Caught g (close_cycle v s)
  unfolding close_cycle
  Caught-close_cycle s v i c grey =
      let (rest, e) = find_from-head v s.stack ((i.grey v).0 grey) in
      let all = largest-most v (v ∷ rest) in
      let back = λ (x : ℕ) (m : Memᴰ x (v ∷ v ∷ rest)). twice v rest x m in
      (
        largest v (find_from v s.stack),
        refl,
        rw e (record {
          first = v;
          rest = rest;
          closed =
              subst (λ (xs : List ℕ). Chain g (xs ++ (v ∷ []))) e
                (Chain-find_from g v s.stack (v ∷ []) c);
          member = back (largest v (v ∷ rest)) (largest-Mem v (v ∷ rest));
          most = all.1;
        }),
      )
    where
      twice : (v : ℕ) (rest : List ℕ) (x : ℕ) → Memᴰ x (v ∷ v ∷ rest) → Memᴰ x (v ∷ rest)
      twice v rest x m = elim (Memᴰ.cases_cons m) [ inl e ↦ Memᴰ.head e | inr m' ↦ m' ]

  visit-Ends :
      (fuel : ℕ) (vs : List ℕ) (s : CycleSearch)
      → CallEnds fuel
      → Inv g s
      → ((v : ℕ) → Memᴰ v vs → Chain g (s.stack ++ (v ∷ [])))
      → ((v : ℕ) → Memᴰ v vs → unmet g s < fuel)
      → Ends (visit (dfs g fuel) vs s) s (λ t. (v : ℕ) → Memᴰ v vs → 2 ≤ color t v)
  unfolding visit
  visit-Ends fuel [] s call i chain enough =
      (s, refl, inr (Grown-refl g s i, λ v m. absurd (Memᴰ.not-nil m)))
  visit-Ends fuel (v ∷ vs) s call i chain enough = go (color s v) refl (λ t h.
      visit-Ends fuel vs t call h.inv
        (λ w m.
          subst (λ (xs : List ℕ). Chain g (xs ++ (w ∷ []))) (sym h.stack) (chain w (Memᴰ.tail m)))
        (λ w m. omega (arith, enough w (Memᴰ.tail m), unmet-le g s t (Grown-met g s t i h))))
    where
      further :
          (t : CycleSearch)
          → Grown g s t
          → 2 ≤ color t v
          → Ends (visit (dfs g fuel) vs t) t (λ r. (w : ℕ) → Memᴰ w vs → 2 ≤ color r w)
          → Ends (visit (dfs g fuel) vs t) s (λ r. (w : ℕ) → Memᴰ w (v ∷ vs) → 2 ≤ color r w)
      further t h black (r, e, inl caught) = (r, e, inl caught)
      further t h black (r, e, inr (k, all)) = (
        r,
        e,
        inr (
          Grown-trans g s t r h k,
          λ w m. elim (Memᴰ.cases_cons m) [
            | inl same ↦ subst (λ (z : ℕ). 2 ≤ color r z) (sym same) (k.black v black)
            | inr m' ↦ all w m'
          ],
        ),
      )

      go :
          (n : ℕ)
          → color s v ≡ n
          → ((t : CycleSearch)
              → Grown g s t
              → Ends (visit (dfs g fuel) vs t) t (λ r. (w : ℕ) → Memᴰ w vs → 2 ≤ color r w))
          → Ends (visit (dfs g fuel) (v ∷ vs) s) s (λ r. (w : ℕ) → Memᴰ w (v ∷ vs) → 2 ≤ color r w)
      go zero e rest =
          rw (visit, e)
            (Ends-unless_found (visit (dfs g fuel) vs) (dfs g fuel v s) s s (λ t. 2 ≤ color t v)
              (λ r. (w : ℕ) → Memᴰ w (v ∷ vs) → 2 ≤ color r w)
              (call v s i (chain v (Memᴰ.head refl)) e (enough v (Memᴰ.head refl)))
              (λ t h black. further t h black (rest t h)))
      go (suc zero) e rest =
          rw (visit, e)
            (close_cycle v s, refl, inl (Caught-close_cycle s v i (chain v (Memᴰ.head refl)) e))
      go (suc (suc n)) e rest =
          rw (visit, e) (further s (Grown-refl g s i) (omega arith) (rest s (Grown-refl g s i)))

  dfs-quiet :
      (fuel u : ℕ) (s : CycleSearch)
      → s.victim ≡ none
      → dfs g (suc fuel) u s
        ≡ unless_found
            (λ t. some (leave_node u t))
            (visit (dfs g fuel) (edges u g) (enter_node u s))
  unfolding dfs
  dfs-quiet fuel u s e =
      ap
        (λ (o : Option ℕ). elim o as (λ _. Option CycleSearch) [
          | some _ ↦ some s
          | none ↦
              unless_found (λ t. some (leave_node u t))
                (visit (dfs g fuel) (edges u g) (enter_node u s))
        ])
        e

  pub dfs-Ends : (fuel : ℕ) → CallEnds fuel
  unfolding enter_node Edge
  dfs-Ends zero v s i c white h = absurd (omega arith)
  dfs-Ends (suc fuel) v s i c white h =
      let s' = enter_node v s in
      let met = λ (w : ℕ) (e : color s' w ≡ 0).
        let was : color s w ≡ 0 = ground (arith, color-enter v w s) in was in
      let now : color s' v ≡ 1 = ground (arith, color-enter v v s) in
      let not_white : color s' v ≢ 0 = λ e. omega (arith, now, e) in
      let (t, e, ends) =
        Ends-unless_found (λ t. some (leave_node v t)) (visit (dfs g fuel) (edges v g) s') s' s
          (λ t. (w : ℕ) → Memᴰ w (edges v g) → 2 ≤ color t w) (λ t. 2 ≤ color t v)
          (visit-Ends fuel (edges v g) s' (dfs-Ends fuel) (Inv-enter g s v i white c)
            (λ w m. stacked w m) (λ w m. omega (arith, fewer w m met not_white)))
          (λ t k left. (
            leave_node v t,
            refl,
            inr (
              Grown-leave g s t v i white k (λ w m. left w m),
              ground (arith, color-leave v v t),
            ),
          )) in
      (t, dfs-quiet fuel v s i.quiet ∙ e, ends)
    where
      stacked : (w : ℕ) → Memᴰ w (edges v g) → Chain g ((enter_node v s).stack ++ (w ∷ []))
      stacked w m = Chain-snoc g s.stack v w c m

      fewer :
          (w : ℕ)
          → Memᴰ w (edges v g)
          → ((u : ℕ) → color (enter_node v s) u ≡ 0 → color s u ≡ 0)
          → color (enter_node v s) v ≢ 0
          → unmet g (enter_node v s) < unmet g s
      fewer w m met not_white = unmet-lt g s (enter_node v s) v w met white not_white m
