-- ===== src/Lock/Deadlock/Marks.antt =====
-- What `dfs` keeps: the colours against the stack and the edges, and what a call adds to them.
use granite_db.Prelude.{
  ℕ, ◌+◌, ◌≤◌, ◌<◌, ◌≡◌, ◌≢◌, ◌↔◌, refl, sym, ap, ◌∙◌, subst, [], ◌∷◌, ◌++◌, none, some, ◌==◌,
  ==_iff, if◌then◌else◌, arith, Bool-cases, inl, inr, length,
}
use granite_db.Prelude.Dict.{find, find-assign, nat_eq}
use mathlib.Core.List.{Memᴰ}
use mathlib.Core.List.Memᴰ
use granite_db.Lock.Deadlock.{WaitsFor, edges, CycleSearch, color, enter_node, leave_node, pop_back}
use granite_db.Lock.Deadlock.Walk.{
  Edge, Waits, direct, through, Chain, IsCycleVictim, pop_back-snoc,
}

pub color-enter :
    (u v : ℕ) (s : CycleSearch) → color (enter_node u s) v ≡ (if u == v then 1 else color s v)
unfolding color enter_node
color-enter u v s = ground (arith, find-assign u v 1 s.state)

pub color-leave :
    (u v : ℕ) (s : CycleSearch) → color (leave_node u s) v ≡ (if u == v then 2 else color s v)
unfolding color leave_node
color-leave u v s = ground (arith, find-assign u v 2 s.state)

-- The transactions with an entry in the graph that the search has not met.
unfoldable pub unmet : WaitsFor → CycleSearch → ℕ
unmet [] s = 0
unmet ((u, vs) ∷ g) s = (if color s u == 0 then 1 else 0) + unmet g s

pub unmet-le :
    (g : WaitsFor) (s t : CycleSearch)
    → ((v : ℕ) → color t v ≡ 0 → color s v ≡ 0)
    → unmet g t ≤ unmet g s
unfolding unmet
unmet-le [] s t h = omega arith
unmet-le ((u, vs) ∷ g) s t h = ground (arith, h u, unmet-le g s t h)

pub unmet-lt :
    (g : WaitsFor) (s t : CycleSearch) (u v : ℕ)
    → ((w : ℕ) → color t w ≡ 0 → color s w ≡ 0)
    → color s u ≡ 0
    → color t u ≢ 0
    → Edge g u v
    → unmet g t < unmet g s
unfolding unmet Edge edges find
unmet-lt [] s t u v h white met m = absurd (Memᴰ.not-nil m)
unmet-lt ((j, vs) ∷ g) s t u v h white met m = elim (Bool-cases (j == u)) [
  | inl here ↦ ground (
    arith,
    unmet-le g s t h,
    ap (color s) ((==_iff j u).0 here),
    ap (color t) ((==_iff j u).0 here),
  )
  | inr later ↦
      let fewer = unmet-lt g s t u v h white met (rw (edges, find, later) at m) in
      ground (arith, h j, fewer)
]

pub unmet-length : (g : WaitsFor) (s : CycleSearch) → unmet g s ≤ length g
unfolding unmet
unmet-length [] s = omega arith
unmet-length ((u, vs) ∷ g) s = ground (arith, unmet-length g s)

module _ (g : WaitsFor) where
  pub record Inv (s : CycleSearch) : Type 0 where
    pub quiet : s.victim ≡ none
    pub grey : (v : ℕ) → (color s v ≡ 1) ↔ Memᴰ v s.stack
    pub closed : (u v : ℕ) → 2 ≤ color s u → Edge g u v → 2 ≤ color s v
    pub acyclic : (u : ℕ) → 2 ≤ color s u → ¬ Waits g u u
    pub chain : Chain g s.stack

  -- From `s` to `t` the search has left what it entered.
  pub record Grown (s t : CycleSearch) : Type 0 where
    pub inv : Inv t
    pub stack : t.stack ≡ s.stack
    pub black : (v : ℕ) → 2 ≤ color s v → 2 ≤ color t v

  abbrev pub Caught : CycleSearch → Type 0
  Caught t = (x : ℕ) × (t.victim ≡ some x) × IsCycleVictim g x

  pub Grown-met : (s t : CycleSearch) → Inv s → Grown s t → (v : ℕ) → color t v ≡ 0 → color s v ≡ 0
  Grown-met s t i h v white =
      let stays = λ (one : color s v ≡ 1).
        (h.inv.grey v).1 (subst (Memᴰ v) (sym h.stack) ((i.grey v).0 one)) in
      ground (arith, stays, h.black v)

  pub Grown-refl : (s : CycleSearch) → Inv s → Grown s s
  Grown-refl s i = record { inv = i; stack = refl; black = λ v b. b }

  pub Grown-trans : (s t r : CycleSearch) → Grown s t → Grown t r → Grown s r
  Grown-trans s t r h k = record {
    inv = k.inv;
    stack = k.stack ∙ h.stack;
    black = λ v b. k.black v (h.black v b);
  }

  pub Inv-enter :
      (s : CycleSearch) (u : ℕ)
      → Inv s
      → color s u ≡ 0
      → Chain g (s.stack ++ (u ∷ []))
      → Inv (enter_node u s)
  unfolding enter_node
  Inv-enter s u i white c = record {
    quiet = i.quiet;
    grey = λ v. (
      λ e. elim (Bool-cases (u == v)) [
        | inl here ↦ Memᴰ.append_right s.stack (Memᴰ.head (sym ((==_iff u v).0 here)))
        | inr other ↦ Memᴰ.append_left (u ∷ []) ((i.grey v).0 (ground (arith, color-enter u v s)))
      ],
      λ m. elim (Memᴰ.append_cases s.stack m) [
        | inl old ↦ ground (arith, color-enter u v s, (i.grey v).1 old, ==_iff u v)
        | inr new ↦ ground (arith, color-enter u v s, Memᴰ.eq_of_singleton new)
      ],
    );
    closed = λ x y b e.
        let old : 2 ≤ color s x = ground (arith, color-enter u x s) in
        ground (arith, color-enter u y s, ==_iff u y, i.closed x y old e);
    acyclic = λ x b. i.acyclic x (ground (arith, color-enter u x s));
    chain = c;
  }

  -- A walk from a transaction that the search has left stays among these.
  pub follow : (s : CycleSearch) → Inv s → {u v : ℕ} → 2 ≤ color s u → Waits g u v → 2 ≤ color s v
  follow s i b (direct e) = i.closed _ _ b e
  follow s i b (through e p) = follow s i (i.closed _ _ b e) p

  pub no_return :
      (t : CycleSearch) (u : ℕ)
      → Inv t
      → color t u ≡ 1
      → ((v : ℕ) → Edge g u v → 2 ≤ color t v)
      → ¬ Waits g u u
  no_return t u i grey left (direct e) = omega (arith, grey, left u e)
  no_return t u i grey left (through e p) = omega (arith, grey, follow t i (left _ e) p)

  -- The successors of `u` are left, and `u` is on top of the stack.
  pub Grown-leave :
      (s t : CycleSearch) (u : ℕ)
      → Inv s
      → color s u ≡ 0
      → Grown (enter_node u s) t
      → ((v : ℕ) → Edge g u v → 2 ≤ color t v)
      → Grown s (leave_node u t)
  unfolding enter_node leave_node
  Grown-leave s t u i white h left =
      let on_top : Memᴰ u t.stack =
        subst (Memᴰ u) (sym h.stack) (Memᴰ.append_right s.stack (Memᴰ.head refl)) in
      let open_yet : color t u ≡ 1 = (h.inv.grey u).1 on_top in
      let popped : pop_back t.stack ≡ s.stack = ap pop_back h.stack ∙ pop_back-snoc s.stack u in
      let kept = λ (v : ℕ) (b : 2 ≤ color t v).
        let mine : 2 ≤ color (leave_node u t) v = ground (arith, color-leave u v t) in mine in
      record {
        stack = popped;
        black = λ v b. kept v (h.black v (ground (arith, color-enter u v s, ==_iff u v)));
        inv = record {
          quiet = h.inv.quiet;
          grey = λ v. (
            λ e. elim (Bool-cases (u == v)) [
              | inl here ↦ absurd (ground (arith, color-leave u v t))
              | inr other ↦
                  let grey_t : color t v ≡ 1 = ground (arith, color-leave u v t) in
                  elim (Memᴰ.append_cases s.stack
                    (subst (Memᴰ v) h.stack ((h.inv.grey v).0 grey_t))) [
                      | inl old ↦ subst (Memᴰ v) (sym popped) old
                      | inr new ↦ absurd (ground (arith, Memᴰ.eq_of_singleton new))
                    ]
            ],
            λ m.
                let old : Memᴰ v s.stack = subst (Memᴰ v) popped m in
                let was : color s v ≡ 1 = (i.grey v).1 old in
                let is : color t v ≡ 1 =
                  (h.inv.grey v).1 (subst (Memᴰ v) (sym h.stack) (Memᴰ.append_left (u ∷ []) old)) in
                ground (arith, color-leave u v t, ==_iff u v),
          );
          closed = λ x y b e. elim (Bool-cases (u == x)) [
            | inl here ↦
                kept y (left y (subst (λ (z : ℕ). Edge g z y) (sym ((==_iff u x).0 here)) e))
            | inr other ↦ kept y (h.inv.closed x y (ground (arith, color-leave u x t)) e)
          ];
          acyclic = λ x b w. elim (Bool-cases (u == x)) [
            | inl here ↦
                no_return t u h.inv open_yet left
                  (subst (λ (z : ℕ). Waits g z z) (sym ((==_iff u x).0 here)) w)
            | inr other ↦ h.inv.acyclic x (ground (arith, color-leave u x t)) w
          ];
          chain = subst (Chain g) (sym popped) i.chain;
        };
      }
