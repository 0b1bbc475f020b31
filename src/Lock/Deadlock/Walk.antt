-- ===== src/Lock/Deadlock/Walk.antt =====
-- Walks in a waits-for graph, and what a victim is.
use granite_db.Prelude.{
  ℕ, ◌≤◌, ◌≡◌, refl, ap, ◌∙◌, subst, List, [], ◌∷◌, ◌++◌, All, max, ◌==◌, ==_iff, arith, Bool-cases,
  inl, inr, ◌⊎◌,
}
use granite_db.Prelude.Dict.{find, nat_eq}
use mathlib.Core.List.{Memᴰ}
use mathlib.Core.List.Memᴰ
use granite_db.Lock.Deadlock.{WaitsFor, edges, find_from, largest, pop_back}

unfoldable pub Edge : WaitsFor → ℕ → ℕ → Type 0
Edge g u v = Memᴰ v (edges u g)

-- The first transaction waits, over one or more edges, for the second.
pub data Waits (g : WaitsFor) : ℕ → ℕ → Type 0 where
  direct : {u v : ℕ} → Edge g u v → Waits g u v
  through : {u v w : ℕ} → Edge g u v → Waits g v w → Waits g u w

abbrev pub Chain : WaitsFor → List ℕ → Type 0
Chain g [] = Unit
Chain g (x ∷ []) = Unit
Chain g (x ∷ y ∷ xs) = Edge g x y × Chain g (y ∷ xs)

-- The victim is the transaction with the largest id on a cycle: on a walk from `first` back to it.
pub record IsCycleVictim (g : WaitsFor) (victim : ℕ) : Type 0 where
  pub first : ℕ
  pub rest : List ℕ
  pub closed : Chain g ((first ∷ rest) ++ (first ∷ []))
  pub member : Memᴰ victim (first ∷ rest)
  pub most : All (λ x. x ≤ victim) (first ∷ rest)

pub Chain-tail : (g : WaitsFor) (x : ℕ) (xs : List ℕ) → Chain g (x ∷ xs) → Chain g xs
Chain-tail g x [] c = tt
Chain-tail g x (y ∷ xs) c = c.1

pub Chain-snoc :
    (g : WaitsFor) (xs : List ℕ) (u v : ℕ)
    → Chain g (xs ++ (u ∷ []))
    → Edge g u v
    → Chain g ((xs ++ (u ∷ [])) ++ (v ∷ []))
Chain-snoc g [] u v c e = (e, tt)
Chain-snoc g (x ∷ []) u v c e = (c.0, (e, tt))
Chain-snoc g (x ∷ y ∷ xs) u v c e = (c.0, Chain-snoc g (y ∷ xs) u v c.1 e)

pub Chain-find_from :
    (g : WaitsFor) (v : ℕ) (xs ys : List ℕ) → Chain g (xs ++ ys) → Chain g (find_from v xs ++ ys)
Chain-find_from g v [] ys c = c
Chain-find_from g v (x ∷ xs) ys c = elim (Bool-cases (x == v)) [
  | inl here ↦ rw here c
  | inr later ↦ rw later (Chain-find_from g v xs ys (Chain-tail g x (xs ++ ys) c))
]

pub find_from-head :
    (v : ℕ) (xs : List ℕ) → Memᴰ v xs → (rest : List ℕ) × (find_from v xs ≡ v ∷ rest)
find_from-head v [] m = absurd (Memᴰ.not-nil m)
find_from-head v (x ∷ xs) m = elim (Bool-cases (x == v)) [
  | inl here ↦ (xs, rw here (ap (λ (u : ℕ). u ∷ xs) ((==_iff x v).0 here)))
  | inr later ↦ elim (Memᴰ.cases_cons m) [
    | inl e ↦ absurd (ground arith)
    | inr m' ↦ rw later (find_from-head v xs m')
  ]
]

pub largest-Mem : (c : ℕ) (xs : List ℕ) → Memᴰ (largest c xs) (c ∷ xs)
largest-Mem c [] = Memᴰ.head refl
largest-Mem c (x ∷ xs) = elim (Memᴰ.cases_cons (largest-Mem (max c x) xs)) [
  | inr m ↦ Memᴰ.tail (Memᴰ.tail m)
  | inl e ↦ elim (max-cases c x) [
    | inl p ↦ Memᴰ.head (e ∙ p)
    | inr p ↦ Memᴰ.tail (Memᴰ.head (e ∙ p))
  ]
]
  where
    max-cases : (a b : ℕ) → (max a b ≡ a) ⊎ (max a b ≡ b)
    max-cases a b = omega arith

pub largest-most : (c : ℕ) (xs : List ℕ) → (c ≤ largest c xs) × All (λ x. x ≤ largest c xs) xs
largest-most c [] = (omega arith, tt)
largest-most c (x ∷ xs) =
    let (most, all) = largest-most (max c x) xs in (omega arith, (omega arith, all))

pub pop_back-snoc : (xs : List ℕ) (u : ℕ) → pop_back (xs ++ (u ∷ [])) ≡ xs
pop_back-snoc [] u = refl
pop_back-snoc (x ∷ []) u = refl
pop_back-snoc (x ∷ y ∷ xs) u = ap (◌∷◌ x) (pop_back-snoc (y ∷ xs) u)

-- Only a key of the graph has edges.
pub edges-key :
    (P : ℕ → Type 0) (g : WaitsFor) (u v : ℕ) → All (λ (e : ℕ × List ℕ). P e.0) g → Edge g u v → P u
unfolding Edge edges find
edges-key P [] u v h m = absurd (Memᴰ.not-nil m)
edges-key P ((j, vs) ∷ g) u v h m = elim (Bool-cases (j == u)) [
  | inl here ↦ subst P ((==_iff j u).0 here) h.0
  | inr later ↦ edges-key P g u v h.1 (rw (edges, find, later) at m)
]

-- The first edge of a walk.
pub Waits-first : (g : WaitsFor) (u w : ℕ) → Waits g u w → (v : ℕ) × Edge g u v
Waits-first g u w (direct e) = (w, e)
Waits-first g _ w (through {u} {v} e p) = (v, e)
