-- ===== src/Lock/Queue/Leave.antt =====
-- Requests that leave a queue: ReleaseAll, RemoveUngrantedRequestsLocked and the return of an
-- aborting transaction in the wait loops of concurrency/lock_manager*.cpp.
use granite_db.Prelude.{
  ℕ, ◌≡◌, refl, subst, sym, ap, ◌∙◌, ◌⊎◌, inl, inr, ◌≢◌, Bool, true, false, List, [], ◌∷◌, ◌++◌,
  Option, none, some, ◌==◌, ==_iff, ==_ne, arith, All, Bool-cases, not, ◌&&◌, ℕ_discrete,
}
use granite_db.Transaction.{LockMode}
use granite_db.Lock.Queue.{
  LockRequest, LockRequestQueue, erase_requests, release, remove_ungranted, reset_upgrading,
  withdraw, find_request,
}
use granite_db.Lock.Queue.Shape.{Apart, Distinct, Distinct-after, Has, find_request-Search}
use granite_db.Lock.Queue.Grant.{Settled, Pending, Absent, Ordered, IsExclusive}
use granite_db.Lock.Queue.Hold.{reset-ne}

module _ (test : LockRequest → Bool) where
  Apart-erase : (t : ℕ) (rs : List LockRequest) → Apart t rs → Apart t (erase_requests test rs)
  unfolding erase_requests
  Apart-erase t [] a = tt
  Apart-erase t (r ∷ rs) a = elim (Bool-cases (test r)) [
    | inl out ↦ rw out (Apart-erase t rs a.1)
    | inr kept ↦ rw kept (a.0, Apart-erase t rs a.1)
  ]

  Distinct-erase : (rs : List LockRequest) → Distinct rs → Distinct (erase_requests test rs)
  unfolding erase_requests
  Distinct-erase [] d = tt
  Distinct-erase (r ∷ rs) d = elim (Bool-cases (test r)) [
    | inl out ↦ rw out (Distinct-erase rs d.1)
    | inr kept ↦ rw kept (Apart-erase r.txn_id rs d.0, Distinct-erase rs d.1)
  ]

  Has-erase :
      (t u : ℕ)
      → ((r : LockRequest) → test r ≡ true → r.txn_id ≡ t)
      → u ≢ t
      → (rs : List LockRequest) → Has u rs
      → Has u (erase_requests test rs)
  unfolding erase_requests
  Has-erase t u only ne [] h = absurd h
  Has-erase t u only ne (r ∷ rs) (inl e) = elim (Bool-cases (test r)) [
    | inl out ↦ absurd (ne (sym e ∙ only r out))
    | inr kept ↦ rw kept (inl e)
  ]
  Has-erase t u only ne (r ∷ rs) (inr h) = elim (Bool-cases (test r)) [
    | inl out ↦ rw out (Has-erase t u only ne rs h)
    | inr kept ↦ rw kept (inr (Has-erase t u only ne rs h))
  ]

  All-erase {κ λ'} :
      (P : LockRequest → Type κ) (Q : LockRequest → Type λ')
      → ((r : LockRequest) → test r ≡ false → P r → Q r)
      → (rs : List LockRequest) → All P rs
      → All Q (erase_requests test rs)
  unfolding erase_requests
  All-erase P Q f [] h = tt
  All-erase P Q f (r ∷ rs) h = elim (Bool-cases (test r)) [
    | inl out ↦ rw out (All-erase P Q f rs h.1)
    | inr kept ↦ rw kept (f r kept h.0, All-erase P Q f rs h.1)
  ]

-- The transaction `t` comes to hold nothing, and some of its requests leave. Those that stay are of
-- an aborting transaction, and granted unless the upgrade mark stays as it was.
module _ (table : Bool) (live live' : ℕ → Bool) (held held' : ℕ → Option LockMode) (t : ℕ)
    (test : LockRequest → Bool) (up up' : Option ℕ)
    (only : (r : LockRequest) → test r ≡ true → r.txn_id ≡ t)
    (rest : (r : LockRequest)
      → test r ≡ false
      → r.txn_id ≡ t
      → ((r.granted ≡ true) ⊎ (up' ≡ up)) × (live' t ≡ false))
    (keep : (u : ℕ) → u ≢ t → up ≡ some u → up' ≡ some u) (nothing : held' t ≡ none)
    (others : (u : ℕ) → u ≢ t → held' u ≡ held u) (alike : (u : ℕ) → u ≢ t → live' u ≡ live u) where
  Settled-erase : (r : LockRequest) → test r ≡ false → Settled live held r → Settled live' held' r
  Settled-erase r kept h = elim (ℕ_discrete r.txn_id t) [
    | yes e ↦ inr (inl (rw e (rest r kept e).1))
    | no n ↦ rw (others r.txn_id n, alike r.txn_id n) h
  ]

  Pending-erase : (r : LockRequest) → test r ≡ false → Pending held up r → Pending held' up' r
  Pending-erase r kept h = elim (ℕ_discrete r.txn_id t) [
    | yes e ↦ inr (inl (rw e nothing))
    | no n ↦ rw (others r.txn_id n) (go n h)
  ]
    where
      go : r.txn_id ≢ t → Pending held up r → Pending held up' r
      go n (inl g) = inl g
      go n (inr (inl m)) = inr (inl m)
      go n (inr (inr e)) = inr (inr (keep r.txn_id n e))

  Absent-erase : (r : LockRequest) → test r ≡ false → Absent held r → Absent held' r
  Absent-erase r kept h = elim (ℕ_discrete r.txn_id t) [
    | yes e ↦ (h.0, rw e nothing)
    | no n ↦ rw (others r.txn_id n) h
  ]

  Ordered-erase :
      (rs : List LockRequest) → Ordered held up rs → Ordered held' up' (erase_requests test rs)
  unfolding erase_requests
  Ordered-erase [] o = tt
  Ordered-erase (r ∷ rs) o = elim (Bool-cases (test r)) [
    | inl out ↦ rw out (Ordered-erase rs o.1)
    | inr kept ↦ rw kept (go kept o.0, Ordered-erase rs o.1)
  ]
    where
      upgrades :
          test r ≡ false
          → up ≡ some r.txn_id
          → (r.granted ≡ true)
            ⊎ ((up' ≡ some r.txn_id) ⊎ All (Absent held') (erase_requests test rs))
      upgrades kept e = elim (ℕ_discrete r.txn_id t) [
        | yes p ↦ elim (rest r kept p).0 [ inl g ↦ inl g | inr q ↦ inr (inl (q ∙ e)) ]
        | no n ↦ inr (inl (keep r.txn_id n e))
      ]

      go :
          test r ≡ false
          → (r.granted ≡ true) ⊎ ((up ≡ some r.txn_id) ⊎ All (Absent held) rs)
          → (r.granted ≡ true)
            ⊎ ((up' ≡ some r.txn_id) ⊎ All (Absent held') (erase_requests test rs))
      go kept (inl g) = inl g
      go kept (inr (inl e)) = upgrades kept e
      go kept (inr (inr m)) =
          inr (inr (All-erase test (Absent held) (Absent held') Absent-erase rs m))

  not_t : (u : ℕ) (a : LockMode) → held' u ≡ some a → u ≢ t
  not_t u a h e = cc

  pub erase-IsExclusive :
      (rs : List LockRequest)
      → IsExclusive table live held (record { requests = rs; upgrading_txn = up })
      → IsExclusive table live' held'
          (record { requests = erase_requests test rs; upgrading_txn = up' })
  erase-IsExclusive rs inv = record {
    distinct = Distinct-erase test rs inv.distinct;
    settled = All-erase test (Settled live held) (Settled live' held') Settled-erase rs inv.settled;
    pending = All-erase test (Pending held up) (Pending held' up') Pending-erase rs inv.pending;
    ordered = Ordered-erase rs inv.ordered;
    alive = λ u a h. let n = not_t u a h in alike u n ∙ inv.alive u a (sym (others u n) ∙ h);
    present = λ u a h.
        let n = not_t u a h in
        Has-erase test t u only n rs (inv.present u a (sym (others u n) ∙ h));
    exclusive = λ u v a b ne h k.
        inv.exclusive u v a b ne (sym (others u (not_t u a h)) ∙ h)
          (sym (others v (not_t v b k)) ∙ k);
  }

erase-false : (rs : List LockRequest) → erase_requests (λ _. false) rs ≡ rs
unfolding erase_requests
erase-false [] = refl
erase-false (r ∷ rs) = ap (◌∷◌ r) (erase-false rs)

erase-Apart :
    (t : ℕ) (rs : List LockRequest) → Apart t rs → erase_requests (λ r. r.txn_id == t) rs ≡ rs
unfolding erase_requests
erase-Apart t [] a = refl
erase-Apart t (r ∷ rs) a = rw (==_ne r.txn_id t a.0, erase-Apart t rs a.1)

-- Taking a transaction's one request out of the list is erasing all of its requests.
erase-cursor :
    (t : ℕ) (before : List LockRequest) (it : LockRequest) (after : List LockRequest)
    → it.txn_id ≡ t
    → Apart t before
    → Apart t after
    → erase_requests (λ r. r.txn_id == t) (before ++ (it ∷ after)) ≡ before ++ after
unfolding erase_requests
erase-cursor t [] it after e a b = rw ((==_iff it.txn_id t).1 e) (erase-Apart t after b)
erase-cursor t (r ∷ before) it after e a b =
    rw (==_ne r.txn_id t a.0, erase-cursor t before it after e a.1 b)

module _ (table : Bool) (live live' : ℕ → Bool) (held held' : ℕ → Option LockMode) (t : ℕ)
    (q : LockRequestQueue) (inv : IsExclusive table live held q) (nothing : held' t ≡ none)
    (others : (u : ℕ) → u ≢ t → held' u ≡ held u) (alike : (u : ℕ) → u ≢ t → live' u ≡ live u) where
  -- ReleaseAll takes all requests of a transaction out, with its locks.
  pub release-IsExclusive : IsExclusive table live' held' (release t q)
  unfolding release
  release-IsExclusive =
      erase-IsExclusive table live live' held held' t (λ r. r.txn_id == t) q.upgrading_txn
        (reset_upgrading q.upgrading_txn t) (λ r e. (==_iff r.txn_id t).0 e)
        (λ r e p. absurd (ground (arith, e, p))) (λ u n e. reset-ne q.upgrading_txn t u n e) nothing
        others alike q.requests inv

  -- RemoveUngrantedRequestsLocked takes out what an aborting transaction waits for.
  pub remove_ungranted-IsExclusive :
      live' t ≡ false → IsExclusive table live' held' (remove_ungranted t q)
  unfolding remove_ungranted
  remove_ungranted-IsExclusive dead =
      erase-IsExclusive table live live' held held' t (λ r. r.txn_id == t && not r.granted)
        q.upgrading_txn (reset_upgrading q.upgrading_txn t) (λ r e. ground (arith, e))
        (λ r e p. (inl (ground (arith, e, p)), dead)) (λ u n e. reset-ne q.upgrading_txn t u n e)
        nothing others alike q.requests inv

  -- Nothing leaves where a transaction starts to abort.
  pub abort-IsExclusive : live' t ≡ false → IsExclusive table live' held' q
  abort-IsExclusive dead =
      subst
        (λ rs.
          IsExclusive table live' held' (record { requests = rs; upgrading_txn = q.upgrading_txn }))
        (erase-false q.requests)
        (erase-IsExclusive table live live' held held' t (λ _. false) q.upgrading_txn
          q.upgrading_txn (λ r e. absurd (ground (arith, e))) (λ r e p. (inr refl, dead))
          (λ u n e. e) nothing others alike q.requests inv)

  -- An aborting transaction takes its request out when it wakes up.
  pub withdraw-IsExclusive :
      live' t ≡ false → IsExclusive table live' held' (withdraw q t (find_request q.requests t))
  withdraw-IsExclusive dead = elim (find_request-Search q.requests t) [
    | inl (e, a) ↦ rw e (abort-IsExclusive dead)
    | inr (c, e, found) ↦
        let d = subst Distinct found.whole inv.distinct in
        let behind =
          subst (λ k. Apart k c.after) found.txn (Distinct-after c.before c.it c.after d) in
        rw e (
          subst
            (λ rs.
              IsExclusive table live' held'
                (record { requests = rs; upgrading_txn = reset_upgrading q.upgrading_txn t }))
            (ap (erase_requests (λ r. r.txn_id == t)) found.whole
              ∙ erase-cursor t c.before c.it c.after found.txn found.first behind)
            (unfold release in release-IsExclusive))
  ]
