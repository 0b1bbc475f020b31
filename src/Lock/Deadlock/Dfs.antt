-- ===== src/Lock/Deadlock/Dfs.antt =====
-- The search ends, and its answer is right: DetectCycleVictimLocked of
-- concurrency/lock_manager_deadlock.cpp.
use granite_db.Prelude.{
  ℕ, zero, suc, ◌≤◌, ◌<◌, ◌≡◌, refl, sym, ap, ◌∙◌, subst, List, [], ◌∷◌, ◌++◌, All, none, some,
  arith, inl, inr, ◌⊎◌, length,
}
use granite_db.Prelude.Dict.{find}
use mathlib.Core.List.{Memᴰ}
use mathlib.Core.List.Memᴰ
use granite_db.Lock.Deadlock.{
  WaitsFor, CycleSearch, color, dfs, search_roots, no_search, found, detect_cycle_victim,
}
use granite_db.Lock.Deadlock.Walk.{Waits, Chain, IsCycleVictim, edges-key, Waits-first}
use granite_db.Lock.Deadlock.Marks.{unmet-length, Inv, Grown, Grown-refl, Grown-trans}
use granite_db.Lock.Deadlock.Calls.{Ends, Ends-unless_found, dfs-Ends}

module _ (g : WaitsFor) where
  roots-Ends :
      (fuel : ℕ) (rest : WaitsFor) (s : CycleSearch)
      → length g < fuel
      → Inv g s
      → s.stack ≡ []
      → Ends g
          (search_roots (dfs g fuel) rest s)
          s
          (λ t. All (λ (e : ℕ × List ℕ). 2 ≤ color t e.0) rest)
  unfolding search_roots
  roots-Ends fuel [] s h i empty = (s, refl, inr (Grown-refl g s i, tt))
  roots-Ends fuel ((u, vs) ∷ rest) s h i empty =
      go (color s u) refl (λ t k. roots-Ends fuel rest t h k.inv (k.stack ∙ empty))
    where
      further :
          (t : CycleSearch)
          → Grown g s t
          → 2 ≤ color t u
          → Ends g
              (search_roots (dfs g fuel) rest t)
              t
              (λ r. All (λ (e : ℕ × List ℕ). 2 ≤ color r e.0) rest)
          → Ends g
              (search_roots (dfs g fuel) rest t)
              s
              (λ r. All (λ (e : ℕ × List ℕ). 2 ≤ color r e.0) ((u, vs) ∷ rest))
      further t k black (r, e, inl caught) = (r, e, inl caught)
      further t k black (r, e, inr (l, all)) =
          (r, e, inr (Grown-trans g s t r k l, (l.black u black, all)))

      go :
          (n : ℕ)
          → color s u ≡ n
          → ((t : CycleSearch)
              → Grown g s t
              → Ends g
                  (search_roots (dfs g fuel) rest t)
                  t
                  (λ r. All (λ (e : ℕ × List ℕ). 2 ≤ color r e.0) rest))
          → Ends g
              (search_roots (dfs g fuel) ((u, vs) ∷ rest) s)
              s
              (λ r. All (λ (e : ℕ × List ℕ). 2 ≤ color r e.0) ((u, vs) ∷ rest))
      go zero e next =
          rw (search_roots, e)
            (Ends-unless_found g (search_roots (dfs g fuel) rest) (dfs g fuel u s) s s
              (λ t. 2 ≤ color t u) (λ r. All (λ (e : ℕ × List ℕ). 2 ≤ color r e.0) ((u, vs) ∷ rest))
              (dfs-Ends g fuel u s i
                (subst (λ (xs : List ℕ). Chain g (xs ++ (u ∷ []))) (sym empty) tt) e
                (omega (arith, unmet-length g s)))
              (λ t k black. further t k black (next t k)))
      go (suc zero) e next = absurd (Memᴰ.not-nil (subst (Memᴰ u) empty ((i.grey u).0 e)))
      go (suc (suc n)) e next =
          rw (search_roots, e)
            (further s (Grown-refl g s i) (omega arith) (next s (Grown-refl g s i)))

  Inv-no_search : Inv g no_search
  unfolding color find
  Inv-no_search = record {
    quiet = refl;
    grey = λ v. (λ e. absurd (omega arith), λ m. absurd (Memᴰ.not-nil m));
    closed = λ u v b e. absurd (omega arith);
    acyclic = λ u b w. absurd (omega arith);
    chain = tt;
  }

-- The search always ends. Either its victim is the transaction with the largest id on a cycle of the
-- graph, or it finds none, and then no transaction waits for itself, over however many others.
pub detect_cycle_victim-decides :
    (g : WaitsFor)
    → ((x : ℕ) × (detect_cycle_victim g ≡ some (some x)) × IsCycleVictim g x)
      ⊎ ((detect_cycle_victim g ≡ some none) × ((u : ℕ) → ¬ Waits g u u))
unfolding detect_cycle_victim
detect_cycle_victim-decides g =
    let (t, e, ends) =
      roots-Ends g (suc (length g)) g no_search (omega arith) (Inv-no_search g) refl in
    elim ends [
      | inl (x, at, victim) ↦ inl (x, ap found e ∙ ap some at, victim)
      | inr (h, all) ↦ inr (
        ap found e ∙ ap some h.inv.quiet,
        λ u w.
            h.inv.acyclic u
              (edges-key (λ (k : ℕ). 2 ≤ color t k) g u (Waits-first g u u w).0 all
                (Waits-first g u u w).1)
              w,
      )
    ]
