-- ===== src/Lock/Queue/Hold.antt =====
-- A grant in the wait loops of concurrency/lock_manager_acquire.cpp keeps the queue's invariant.
use granite_db.Prelude.{
  ℕ, ◌≡◌, refl, subst, sym, ◌∙◌, ◌⊎◌, inl, inr, ◌≢◌, Bool, true, List, [], ◌∷◌, ◌++◌, Option, some,
  arith, All, All-append, ℕ_discrete,
}
use granite_db.Transaction.{LockMode}
use granite_db.Lock.Mode.{compatible, compatible_symm}
use granite_db.Lock.Queue.{
  LockRequest, LockRequestQueue, Cursor, can_grant_request, reset_upgrading, grant,
}
use granite_db.Lock.Queue.Shape.{
  Apart, Has, Has-append_right, Has-replace, Distinct-replace, Distinct-after, transfer, Found,
}
use granite_db.Lock.Queue.Grant.{
  Settled, Pending, Absent, Ordered, IsExclusive, IsCursor, IsExclusive-IsCursor, Ordered-after,
  grant_before-granted, can_grant-compatible,
}

pub reset-ne : (up : Option ℕ) (t u : ℕ) → u ≢ t → up ≡ some u → reset_upgrading up t ≡ some u
reset-ne up t u ne e = ground (arith, e)

-- One transaction's lock changes.
module _ (held held' : ℕ → Option LockMode) (t : ℕ)
    (others : (u : ℕ) → u ≢ t → held' u ≡ held u) where
  pub Settled-others :
      (live : ℕ → Bool) (rs : List LockRequest)
      → Apart t rs
      → All (Settled live held) rs
      → All (Settled live held') rs
  Settled-others live = transfer t (λ r ne h. rw (others r.txn_id ne) h)

  pub Pending-others :
      (up up' : Option ℕ)
      → ((u : ℕ) → u ≢ t → up ≡ some u → up' ≡ some u)
      → (rs : List LockRequest) → Apart t rs
      → All (Pending held up) rs
      → All (Pending held' up') rs
  Pending-others up up' keep = transfer t (λ r ne h. rw (others r.txn_id ne) (go r ne h))
    where
      go : (r : LockRequest) → r.txn_id ≢ t → Pending held up r → Pending held up' r
      go r ne (inl g) = inl g
      go r ne (inr (inl n)) = inr (inl n)
      go r ne (inr (inr e)) = inr (inr (keep r.txn_id ne e))

  pub Absent-others :
      (rs : List LockRequest) → Apart t rs → All (Absent held) rs → All (Absent held') rs
  Absent-others = transfer t (λ r ne h. rw (others r.txn_id ne) h)

  pub Ordered-others :
      (up up' : Option ℕ)
      → ((u : ℕ) → u ≢ t → up ≡ some u → up' ≡ some u)
      → (rs : List LockRequest) → Apart t rs
      → Ordered held up rs
      → Ordered held' up' rs
  Ordered-others up up' keep [] a o = tt
  Ordered-others up up' keep (r ∷ rs) a o = (go o.0, Ordered-others up up' keep rs a.1 o.1)
    where
      go :
          (r.granted ≡ true) ⊎ ((up ≡ some r.txn_id) ⊎ All (Absent held) rs)
          → (r.granted ≡ true) ⊎ ((up' ≡ some r.txn_id) ⊎ All (Absent held') rs)
      go (inl g) = inl g
      go (inr (inl e)) = inr (inl (keep r.txn_id a.0 e))
      go (inr (inr n)) = inr (inr (Absent-others rs a.1 n))

pub Ordered-granted :
    (held : ℕ → Option LockMode) (up : Option ℕ) (before after : List LockRequest)
    → All (λ r. r.granted ≡ true) before
    → Ordered held up after
    → Ordered held up (before ++ after)
Ordered-granted held up [] after g o = o
Ordered-granted held up (r ∷ before) after g o =
    (inl g.0, Ordered-granted held up before after g.1 o)

-- Granting what CanGrantRequest lets through keeps the invariant, where the transaction then holds
-- the mode and nothing else changes hands.
pub grant-IsExclusive :
    (table : Bool) (live : ℕ → Bool) (held held' : ℕ → Option LockMode) (q : LockRequestQueue)
    (t : ℕ) (c : Cursor)
    → IsExclusive table live held q
    → Found q.requests t c
    → can_grant_request table c ≡ true
    → live t ≡ true
    → held' t ≡ some c.it.mode
    → ((u : ℕ) → u ≢ t → held' u ≡ held u)
    → IsExclusive table live held' (grant q t c)
unfolding can_grant_request
grant-IsExclusive table live held held' q t c inv found e l mine others = record {
  distinct = Distinct-replace c.it it' refl c.after c.before at_c.distinct;
  settled =
      All-append (Settled live held') c.before (it' ∷ c.after)
        (Settled-others held held' t others live c.before found.first at_c.settled_before)
        (
          inr (inr (rw found.txn mine)),
          Settled-others held held' t others live c.after behind at_c.settled_after,
        );
  pending =
      All-append (Pending held' up') c.before (it' ∷ c.after)
        (Pending-others held held' t others up up' keep c.before found.first at_c.pending_before)
        (
          inl refl,
          Pending-others held held' t others up up' keep c.after behind at_c.pending_after,
        );
  ordered =
      Ordered-granted held' up' c.before (it' ∷ c.after)
        (grant_before-granted table live held c.it c.before (rw found.txn found.first)
          (ground arith))
        (
          inl refl,
          Ordered-others held held' t others up up' keep c.after behind
              (Ordered-after held up c.before c.it c.after at_c.ordered).1,
        );
  alive = λ u a h. elim (ℕ_discrete u t) [
    | yes p ↦ rw p l
    | no n ↦ inv.alive u a (sym (others u n) ∙ h)
  ];
  present = λ u a h. elim (ℕ_discrete u t) [
    | yes p ↦ Has-append_right u c.before (it' ∷ c.after) (inl (found.txn ∙ sym p))
    | no n ↦
        Has-replace c.it it' refl c.after u c.before
          (subst (Has u) found.whole (inv.present u a (sym (others u n) ∙ h)))
  ];
  exclusive = λ v u a b ne hv hu. elim (ℕ_discrete v t) [
    | yes p ↦
        subst (λ m. compatible table m b ≡ true) (mine_is v a p hv)
          (against u b (λ r. ne (p ∙ sym r)) hu)
    | no n ↦ elim (ℕ_discrete u t) [
      | yes p ↦
          subst (λ m. compatible table a m ≡ true) (mine_is u b p hu)
            (compatible_symm table a c.it.mode ∙ against v a n hv)
      | no k ↦ inv.exclusive v u a b ne (sym (others v n) ∙ hv) (sym (others u k) ∙ hu)
    ]
  ];
}
  where
    up : Option ℕ
    up = q.upgrading_txn

    up' : Option ℕ
    up' = reset_upgrading q.upgrading_txn t

    it' : LockRequest
    it' = record { txn_id = c.it.txn_id; mode = c.it.mode; granted = true }

    keep : (u : ℕ) → u ≢ t → up ≡ some u → up' ≡ some u
    keep u ne p = reset-ne up t u ne p

    at_c : IsCursor table live held q.upgrading_txn c
    at_c = IsExclusive-IsCursor table live held q c inv found.whole

    behind : Apart t c.after
    behind =
        subst (λ k. Apart k c.after) found.txn (Distinct-after c.before c.it c.after at_c.distinct)

    mine_is : (v : ℕ) (a : LockMode) → v ≡ t → held' v ≡ some a → c.it.mode ≡ a
    mine_is v a p h = cc

    against :
        (u : ℕ) (b : LockMode) → u ≢ t → held' u ≡ some b → compatible table c.it.mode b ≡ true
    against u b n h =
        can_grant-compatible table live held q c inv found.whole e (rw found.txn l) u b
          (λ p. n (p ∙ found.txn)) (sym (others u n) ∙ h)
