-- ===== src/Lock/Queue/Grant.antt =====
-- The invariant of one queue, and what CanGrantRequest of concurrency/lock_manager_common.cpp lets
-- through.
use granite_db.Prelude.{
  ℕ, ◌≡◌, subst, sym, ◌⊎◌, inl, inr, ◌≢◌, Bool, true, false, List, [], ◌∷◌, ◌++◌, Option, none,
  some, arith, All, All-append_left, All-append_right, Bool-cases,
}
use granite_db.Transaction.{LockMode}
use granite_db.Lock.Mode.{compatible}
use granite_db.Lock.Queue.{
  LockRequest, LockRequestQueue, Cursor, put_back, grant_before, grant_after, can_grant_request,
}
use granite_db.Lock.Queue.Shape.{Apart, Distinct, Has, Has-split}

-- A transaction that is not aborting is `live`; `held` is what a live transaction holds here.
-- A granted request is what its transaction holds.
abbrev pub Settled : (ℕ → Bool) → (ℕ → Option LockMode) → LockRequest → Type 0
Settled live held r =
    (r.granted ≡ false) ⊎ ((live r.txn_id ≡ false) ⊎ (held r.txn_id ≡ some r.mode))

-- Who waits holds nothing here, but for the one that is upgrading.
abbrev pub Pending : (ℕ → Option LockMode) → Option ℕ → LockRequest → Type 0
Pending held up r = (r.granted ≡ true) ⊎ ((held r.txn_id ≡ none) ⊎ (up ≡ some r.txn_id))

abbrev pub Absent : (ℕ → Option LockMode) → LockRequest → Type 0
Absent held r = (r.granted ≡ false) × (held r.txn_id ≡ none)

-- Nobody behind a waiting request holds anything, unless that request is an upgrade.
abbrev pub Ordered : (ℕ → Option LockMode) → Option ℕ → List LockRequest → Type 0
Ordered held up [] = Unit
Ordered held up (r ∷ rs) =
    ((r.granted ≡ true) ⊎ ((up ≡ some r.txn_id) ⊎ All (Absent held) rs)) × Ordered held up rs

pub Ordered-after :
    (held : ℕ → Option LockMode) (up : Option ℕ) (before : List LockRequest) (it : LockRequest)
    (after : List LockRequest)
    → Ordered held up (before ++ (it ∷ after))
    → Ordered held up (it ∷ after)
Ordered-after held up [] it after o = o
Ordered-after held up (r ∷ before) it after o = Ordered-after held up before it after o.1

module _ (table : Bool) (live : ℕ → Bool) (held : ℕ → Option LockMode) where
  pub record IsExclusive (q : LockRequestQueue) : Type 0 where
    pub distinct : Distinct q.requests
    pub settled : All (Settled live held) q.requests
    pub pending : All (Pending held q.upgrading_txn) q.requests
    pub ordered : Ordered held q.upgrading_txn q.requests
    pub alive : (t : ℕ) (a : LockMode) → held t ≡ some a → live t ≡ true
    pub present : (t : ℕ) (a : LockMode) → held t ≡ some a → Has t q.requests
    pub exclusive :
        (t u : ℕ) (a b : LockMode)
        → t ≢ u
        → held t ≡ some a
        → held u ≡ some b
        → compatible table a b ≡ true

  -- The first loop passes only granted, compatible requests, and so who holds a lock there.
  pub grant_before-granted :
      (it : LockRequest) (rs : List LockRequest)
      → Apart it.txn_id rs
      → grant_before table it rs ≡ true
      → All (λ r. r.granted ≡ true) rs
  unfolding grant_before
  grant_before-granted it [] a e = tt
  grant_before-granted it (r ∷ rs) a e =
      (ground (arith, a.0), grant_before-granted it rs a.1 (ground (arith, a.0)))

  grant_before-compatible :
      (it : LockRequest) (rs : List LockRequest) (u : ℕ) (b : LockMode)
      → grant_before table it rs ≡ true
      → All (Settled live held) rs
      → u ≢ it.txn_id
      → live u ≡ true
      → held u ≡ some b
      → Has u rs
      → compatible table it.mode b ≡ true
  unfolding grant_before
  grant_before-compatible it [] u b e s ne l h has = absurd has
  grant_before-compatible it (r ∷ rs) u b e s ne l h (inl same) = ground (arith, s.0)
  grant_before-compatible it (r ∷ rs) u b e s ne l h (inr has) =
      grant_before-compatible it rs u b (ground arith) s.1 ne l h has

  grant_after-compatible :
      (it : LockRequest) (up : Option ℕ) (rs : List LockRequest) (u : ℕ) (b : LockMode)
      → grant_after table it rs ≡ true
      → All (Settled live held) rs
      → All (Pending held up) rs
      → (up ≡ some it.txn_id) ⊎ All (Absent held) rs
      → u ≢ it.txn_id
      → live u ≡ true
      → held u ≡ some b
      → Has u rs
      → compatible table it.mode b ≡ true
  unfolding grant_after
  grant_after-compatible it up [] u b e s p o ne l h has = absurd has
  grant_after-compatible it up (r ∷ rs) u b e s p (inl o) ne l h (inl same) =
      ground (arith, s.0, p.0)
  grant_after-compatible it up (r ∷ rs) u b e s p (inr o) ne l h (inl same) = ground (arith, o.0)
  grant_after-compatible it up (r ∷ rs) u b e s p (inl o) ne l h (inr has) =
      grant_after-compatible it up rs u b (ground arith) s.1 p.1 (inl o) ne l h has
  grant_after-compatible it up (r ∷ rs) u b e s p (inr o) ne l h (inr has) =
      grant_after-compatible it up rs u b (ground arith) s.1 p.1 (inr o.1) ne l h has

  -- What the invariant says of the parts of a cursor.
  pub record IsCursor (up : Option ℕ) (c : Cursor) : Type 0 where
    pub distinct : Distinct (put_back c c.it)
    pub settled_before : All (Settled live held) c.before
    pub settled : Settled live held c.it
    pub settled_after : All (Settled live held) c.after
    pub pending_before : All (Pending held up) c.before
    pub pending : Pending held up c.it
    pub pending_after : All (Pending held up) c.after
    pub ordered : Ordered held up (put_back c c.it)

  pub IsExclusive-IsCursor :
      (q : LockRequestQueue) (c : Cursor)
      → IsExclusive q
      → q.requests ≡ put_back c c.it
      → IsCursor q.upgrading_txn c
  IsExclusive-IsCursor q c inv whole =
      let s = subst (All (Settled live held)) whole inv.settled in
      let p = subst (All (Pending held q.upgrading_txn)) whole inv.pending in
      record {
        distinct = subst Distinct whole inv.distinct;
        settled_before = All-append_left (Settled live held) c.before (c.it ∷ c.after) s;
        settled = (All-append_right (Settled live held) c.before (c.it ∷ c.after) s).0;
        settled_after = (All-append_right (Settled live held) c.before (c.it ∷ c.after) s).1;
        pending_before = All-append_left (Pending held q.upgrading_txn) c.before (c.it ∷ c.after) p;
        pending = (All-append_right (Pending held q.upgrading_txn) c.before (c.it ∷ c.after) p).0;
        pending_after =
            (All-append_right (Pending held q.upgrading_txn) c.before (c.it ∷ c.after) p).1;
        ordered = subst (Ordered held q.upgrading_txn) whole inv.ordered;
      }

  -- What CanGrantRequest lets through is compatible with all that the others hold.
  pub can_grant-compatible :
      (q : LockRequestQueue) (c : Cursor)
      → IsExclusive q
      → q.requests ≡ put_back c c.it
      → can_grant_request table c ≡ true
      → live c.it.txn_id ≡ true
      → (u : ℕ) (b : LockMode) → u ≢ c.it.txn_id
      → held u ≡ some b
      → compatible table c.it.mode b ≡ true
  unfolding can_grant_request
  can_grant-compatible q c inv whole e l u b ne h = elim (Bool-cases c.it.granted) [
    | inl granted ↦ inv.exclusive c.it.txn_id u c.it.mode b (λ p. ne (sym p)) (at_it granted) h
    | inr waiting ↦
        elim (Has-split u c.before (c.it ∷ c.after) (subst (Has u) whole (inv.present u b h))) [
          | inl earlier ↦
              grant_before-compatible c.it c.before u b (ground arith) at_c.settled_before ne
                (inv.alive u b h) h earlier
          | inr (inl same) ↦ absurd (ne (sym same))
          | inr (inr later) ↦
              grant_after-compatible c.it q.upgrading_txn c.after u b (ground arith)
                at_c.settled_after at_c.pending_after (behind waiting) ne (inv.alive u b h) h later
        ]
  ]
    where
      at_c : IsCursor q.upgrading_txn c
      at_c = IsExclusive-IsCursor q c inv whole

      at_it : c.it.granted ≡ true → held c.it.txn_id ≡ some c.it.mode
      at_it granted = ground (arith, at_c.settled)

      behind :
          c.it.granted ≡ false → (q.upgrading_txn ≡ some c.it.txn_id) ⊎ All (Absent held) c.after
      behind waiting =
          elim (Ordered-after held q.upgrading_txn c.before c.it c.after at_c.ordered).0 [
            | inl granted ↦ absurd (ground (arith, granted, waiting))
            | inr o ↦ o
          ]
