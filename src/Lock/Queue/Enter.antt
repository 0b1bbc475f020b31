-- ===== src/Lock/Queue/Enter.antt =====
-- What LockTable and LockRecord of concurrency/lock_manager_acquire.cpp do to a queue before they
-- wait keeps the queue's invariant.
use granite_db.Prelude.{
  ℕ, ◌≡◌, refl, subst, sym, ap, ◌⊎◌, inl, inr, ◌≢◌, Bool, true, false, List, [], ◌∷◌, ◌++◌, Option,
  none, some, arith, All, All-append, Bool-cases, Option-cases, not, ◌&&◌, &&_split,
}
use granite_db.Transaction.{LockMode, mode_eq, mode_eq_iff}
use granite_db.Lock.Queue.{LockRequest, LockRequestQueue, Cursor, put_back, other_txn, enqueue}
use granite_db.Lock.Queue.Shape.{
  Apart, Apart-Has, Has, Has-append_left, Has-replace, Distinct-replace, Distinct-after,
  Distinct-push, Found, find_request-Search,
}
use granite_db.Lock.Queue.Grant.{
  Settled, Pending, Absent, Ordered, IsExclusive, IsCursor, IsExclusive-IsCursor, Ordered-after,
}
use granite_db.Lock.Queue.Hold.{Pending-others, Ordered-others}

All-replace {κ} :
    (P : LockRequest → Type κ) (it it' : LockRequest) (before after : List LockRequest)
    → (P it → P it')
    → All P (before ++ (it ∷ after))
    → All P (before ++ (it' ∷ after))
All-replace P it it' [] after f h = (f h.0, h.1)
All-replace P it it' (r ∷ before) after f h = (h.0, All-replace P it it' before after f h.1)

module _ (held : ℕ → Option LockMode) where
  Ordered-replace :
      (up up' : Option ℕ) (t : ℕ) (it it' : LockRequest) (before after : List LockRequest)
      → ((u : ℕ) → u ≢ t → up ≡ some u → up' ≡ some u)
      → (Absent held it → Absent held it')
      → Ordered held up' (it' ∷ after)
      → Apart t before
      → Ordered held up (before ++ (it ∷ after))
      → Ordered held up' (before ++ (it' ∷ after))
  Ordered-replace up up' t it it' [] after keep f o' a o = o'
  Ordered-replace up up' t it it' (r ∷ before) after keep f o' a o =
      (go o.0, Ordered-replace up up' t it it' before after keep f o' a.1 o.1)
    where
      go :
          (r.granted ≡ true) ⊎ ((up ≡ some r.txn_id) ⊎ All (Absent held) (before ++ (it ∷ after)))
          → (r.granted ≡ true)
            ⊎ ((up' ≡ some r.txn_id) ⊎ All (Absent held) (before ++ (it' ∷ after)))
      go (inl g) = inl g
      go (inr (inl e)) = inr (inl (keep r.txn_id a.0 e))
      go (inr (inr n)) = inr (inr (All-replace (Absent held) it it' before after f n))

  Ordered-push :
      (up : Option ℕ) (rs : List LockRequest) (r : LockRequest)
      → Absent held r
      → Ordered held up rs
      → Ordered held up (rs ++ (r ∷ []))
  Ordered-push up [] r n o = (inr (inr tt), tt)
  Ordered-push up (x ∷ rs) r n o = (go o.0, Ordered-push up rs r n o.1)
    where
      go :
          (x.granted ≡ true) ⊎ ((up ≡ some x.txn_id) ⊎ All (Absent held) rs)
          → (x.granted ≡ true) ⊎ ((up ≡ some x.txn_id) ⊎ All (Absent held) (rs ++ (r ∷ [])))
      go (inl g) = inl g
      go (inr (inl e)) = inr (inl e)
      go (inr (inr m)) = inr (inr (All-append (Absent held) rs (r ∷ []) m (n, tt)))

module _ (table : Bool) (live : ℕ → Bool) (held : ℕ → Option LockMode) (q : LockRequestQueue)
    (inv : IsExclusive table live held q) where
  -- A new request waits at the end of the queue.
  push-IsExclusive :
      (t : ℕ) (mode : LockMode)
      → Apart t q.requests
      → IsExclusive table live held (record q {
        requests = q.requests ++ (record { txn_id = t; mode = mode; granted = false } ∷ []);
      })
  push-IsExclusive t mode a = record {
    distinct = Distinct-push q.requests new inv.distinct a;
    settled = All-append (Settled live held) q.requests (new ∷ []) inv.settled (inl refl, tt);
    pending =
        All-append (Pending held q.upgrading_txn) q.requests (new ∷ []) inv.pending
          (inr (inl nothing), tt);
    ordered = Ordered-push held q.upgrading_txn q.requests new (refl, nothing) inv.ordered;
    alive = inv.alive;
    present = λ u b h. Has-append_left u q.requests (new ∷ []) (inv.present u b h);
    exclusive = inv.exclusive;
  }
    where
      new : LockRequest
      new = record { txn_id = t; mode = mode; granted = false }

      nothing : held t ≡ none
      nothing = elim (Option-cases (held t)) [
        | inl e ↦ e
        | inr (b, e) ↦ absurd (Apart-Has t q.requests a (inv.present t b e))
      ]

  -- The transaction's request changes, in a way that keeps what is said of it.
  change-IsExclusive :
      (t : ℕ) (c : Cursor) (it' : LockRequest) (up' : Option ℕ)
      → Found q.requests t c
      → it'.txn_id ≡ c.it.txn_id
      → ((u : ℕ) → u ≢ t → q.upgrading_txn ≡ some u → up' ≡ some u)
      → (Absent held c.it → Absent held it')
      → Settled live held it'
      → Pending held up' it'
      → (it'.granted ≡ true) ⊎ ((up' ≡ some it'.txn_id) ⊎ All (Absent held) c.after)
      → IsExclusive table live held (record { requests = put_back c it'; upgrading_txn = up' })
  change-IsExclusive t c it' up' found same keep f s p o = record {
    distinct = Distinct-replace c.it it' same c.after c.before at_c.distinct;
    settled =
        All-append (Settled live held) c.before (it' ∷ c.after) at_c.settled_before
          (s, at_c.settled_after);
    pending =
        All-append (Pending held up') c.before (it' ∷ c.after)
          (Pending-others held held t (λ u n. refl) up up' keep c.before found.first
            at_c.pending_before)
          (
            p,
            Pending-others held held t (λ u n. refl) up up' keep c.after behind at_c.pending_after,
          );
    ordered =
        Ordered-replace held up up' t c.it it' c.before c.after keep f
          (
            o,
            Ordered-others held held t (λ u n. refl) up up' keep c.after behind
                (Ordered-after held up c.before c.it c.after at_c.ordered).1,
          )
          found.first at_c.ordered;
    alive = inv.alive;
    present = λ u b h.
        Has-replace c.it it' same c.after u c.before
          (subst (Has u) found.whole (inv.present u b h));
    exclusive = inv.exclusive;
  }
    where
      up : Option ℕ
      up = q.upgrading_txn

      at_c : IsCursor table live held q.upgrading_txn c
      at_c = IsExclusive-IsCursor table live held q c inv found.whole

      behind : Apart t c.after
      behind =
          subst (λ k. Apart k c.after) found.txn
            (Distinct-after c.before c.it c.after at_c.distinct)

  upgrade-IsExclusive :
      (t : ℕ) (mode : LockMode) (c : Cursor)
      → Found q.requests t c
      → c.it.granted ≡ true
      → other_txn q.upgrading_txn t ≡ false
      → IsExclusive table live held (record {
        requests = put_back c (record { txn_id = c.it.txn_id; mode = mode; granted = false });
        upgrading_txn = some t;
      })
  upgrade-IsExclusive t mode c found g free =
      change-IsExclusive t c _ (some t) found refl (λ u n e. ground (arith, free, n))
        (λ a. absurd (ground (arith, a.0, g))) (inl refl) (inr (inr (ap some (sym found.txn))))
        (inr (inl (ap some (sym found.txn))))

  remode-IsExclusive :
      (t : ℕ) (mode : LockMode) (c : Cursor)
      → Found q.requests t c
      → (c.it.granted && not (mode_eq c.it.mode mode)) ≡ false
      → IsExclusive table live held (record q {
        requests =
            put_back c (record { txn_id = c.it.txn_id; mode = mode; granted = c.it.granted });
      })
  remode-IsExclusive t mode c found same =
      change-IsExclusive t c _ q.upgrading_txn found refl (λ u n e. e) (λ a. a)
        (settled at_c.settled) at_c.pending
        (Ordered-after held q.upgrading_txn c.before c.it c.after at_c.ordered).0
    where
      at_c : IsCursor table live held q.upgrading_txn c
      at_c = IsExclusive-IsCursor table live held q c inv found.whole

      settled :
          Settled live held c.it
          → Settled live held (record { txn_id = c.it.txn_id; mode = mode; granted = c.it.granted })
      settled (inl g) = inl g
      settled (inr (inl d)) = inr (inl d)
      settled (inr (inr h)) = ground (arith, h, mode_eq_iff c.it.mode mode)

  abbrev Kept : Option LockRequestQueue → Type 0
  Kept none = Unit
  Kept (some q') = IsExclusive table live held q'

  enqueue-Kept : (t : ℕ) (mode : LockMode) → Kept (enqueue q t mode)
  unfolding enqueue
  enqueue-Kept t mode = elim (find_request-Search q.requests t) [
    | inl (e, a) ↦ rw (e, Kept) (push-IsExclusive t mode a)
    | inr (c, e, found) ↦
        rw (e, Kept)
          (elim (Bool-cases (c.it.granted && not (mode_eq c.it.mode mode))) [
            | inl changes ↦
                rw (changes, Kept)
                  (elim (Bool-cases (other_txn q.upgrading_txn t)) [
                    | inl other ↦ rw (other, Kept) tt
                    | inr free ↦
                        rw (free, Kept)
                          (upgrade-IsExclusive t mode c found (&&_split _ _ changes).0 free)
                  ])
            | inr same ↦ rw (same, Kept) (remode-IsExclusive t mode c found same)
          ])
  ]

  -- Entering the queue keeps the invariant: as a new request, as an upgrade or with another mode.
  pub enqueue-IsExclusive :
      (t : ℕ) (mode : LockMode) (q' : LockRequestQueue)
      → enqueue q t mode ≡ some q'
      → IsExclusive table live held q'
  enqueue-IsExclusive t mode q' e = subst Kept e (enqueue-Kept t mode)
