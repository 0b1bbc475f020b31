-- ===== src/Lock/Queue/Shape.antt =====
-- Requests by transaction: a queue of concurrency/lock_manager.h holds one for each, and FindRequest
-- finds it.
use granite_db.Prelude.{
  ℕ, ◌≡◌, refl, subst, sym, ap, ◌∙◌, ◌⊎◌, inl, inr, ◌≢◌, List, [], ◌∷◌, ◌++◌, Option, none, some,
  ◌==◌, ==_iff, arith, All, All-append, Bool-cases,
}
use granite_db.Lock.Queue.{LockRequest, Cursor, find_request, put_back, back_up}

abbrev pub Apart : ℕ → List LockRequest → Type 0
Apart txn_id = All (λ r. r.txn_id ≢ txn_id)

-- No two requests are of one transaction.
abbrev pub Distinct : List LockRequest → Type 0
Distinct [] = Unit
Distinct (r ∷ rs) = Apart r.txn_id rs × Distinct rs

abbrev pub Has : ℕ → List LockRequest → Type 0
Has txn_id [] = ⊥
Has txn_id (r ∷ rs) = (r.txn_id ≡ txn_id) ⊎ Has txn_id rs

pub Has-append_left : (t : ℕ) (xs ys : List LockRequest) → Has t xs → Has t (xs ++ ys)
Has-append_left t [] ys h = absurd h
Has-append_left t (r ∷ xs) ys (inl e) = inl e
Has-append_left t (r ∷ xs) ys (inr h) = inr (Has-append_left t xs ys h)

pub Has-append_right : (t : ℕ) (xs ys : List LockRequest) → Has t ys → Has t (xs ++ ys)
Has-append_right t [] ys h = h
Has-append_right t (r ∷ xs) ys h = inr (Has-append_right t xs ys h)

pub Has-split : (t : ℕ) (xs ys : List LockRequest) → Has t (xs ++ ys) → Has t xs ⊎ Has t ys
Has-split t [] ys h = inr h
Has-split t (r ∷ xs) ys (inl e) = inl (inl e)
Has-split t (r ∷ xs) ys (inr h) = elim (Has-split t xs ys h) [ inl a ↦ inl (inr a) | inr b ↦ inr b ]

pub Apart-Has : (t : ℕ) (xs : List LockRequest) → Apart t xs → ¬ Has t xs
Apart-Has t [] a h = h
Apart-Has t (r ∷ xs) a (inl e) = a.0 e
Apart-Has t (r ∷ xs) a (inr h) = Apart-Has t xs a.1 h

-- A request changes, and its transaction does not.
module _ (it it' : LockRequest) (same : it'.txn_id ≡ it.txn_id) (after : List LockRequest) where
  pub Apart-replace :
      (t : ℕ) (before : List LockRequest)
      → Apart t (before ++ (it ∷ after))
      → Apart t (before ++ (it' ∷ after))
  Apart-replace t [] a = ((λ e. a.0 (sym same ∙ e)), a.1)
  Apart-replace t (r ∷ before) a = (a.0, Apart-replace t before a.1)

  pub Distinct-replace :
      (before : List LockRequest)
      → Distinct (before ++ (it ∷ after))
      → Distinct (before ++ (it' ∷ after))
  Distinct-replace [] d = (rw same d.0, d.1)
  Distinct-replace (r ∷ before) d = (Apart-replace r.txn_id before d.0, Distinct-replace before d.1)

  pub Has-replace :
      (t : ℕ) (before : List LockRequest)
      → Has t (before ++ (it ∷ after))
      → Has t (before ++ (it' ∷ after))
  Has-replace t [] (inl e) = inl (same ∙ e)
  Has-replace t [] (inr h) = inr h
  Has-replace t (r ∷ before) (inl e) = inl e
  Has-replace t (r ∷ before) (inr h) = inr (Has-replace t before h)

-- Behind a request there is none of its transaction, nor before it.
pub Distinct-after :
    (before : List LockRequest) (it : LockRequest) (after : List LockRequest)
    → Distinct (before ++ (it ∷ after))
    → Apart it.txn_id after
Distinct-after [] it after d = d.0
Distinct-after (r ∷ before) it after d = Distinct-after before it after d.1

-- A request of a new transaction goes to the end.
pub Distinct-push :
    (xs : List LockRequest) (r : LockRequest)
    → Distinct xs
    → Apart r.txn_id xs
    → Distinct (xs ++ (r ∷ []))
Distinct-push [] r d a = (tt, tt)
Distinct-push (x ∷ xs) r d a =
    (All-append _ xs (r ∷ []) d.0 ((λ e. a.0 (sym e)), tt), Distinct-push xs r d.1 a.1)

pub record Found (rs : List LockRequest) (t : ℕ) (c : Cursor) : Type 0 where
  pub whole : rs ≡ put_back c c.it
  pub txn : c.it.txn_id ≡ t
  pub first : Apart t c.before

abbrev pub Search : List LockRequest → ℕ → Option Cursor → Type 0
Search rs t o = ((o ≡ none) × Apart t rs) ⊎ ((c : Cursor) × (o ≡ some c) × Found rs t c)

back_up-Search :
    (r : LockRequest) (rs : List LockRequest) (t : ℕ) (o : Option Cursor)
    → r.txn_id ≢ t
    → Search rs t o
    → Search (r ∷ rs) t (back_up r o)
back_up-Search r rs t o miss (inl (e, a)) = inl (ap (back_up r) e, (miss, a))
back_up-Search r rs t o miss (inr (c, e, f)) = inr (
  record c { before = r ∷ c.before },
  ap (back_up r) e,
  record { whole = ap (◌∷◌ r) f.whole; txn = f.txn; first = (miss, f.first) },
)

-- FindRequest points to the first request of the transaction, or there is none.
pub find_request-Search : (rs : List LockRequest) (t : ℕ) → Search rs t (find_request rs t)
unfolding find_request
find_request-Search [] t = inl (refl, tt)
find_request-Search (r ∷ rs) t = elim (Bool-cases (r.txn_id == t)) [
  | inl hit ↦ rw hit (
      inr (
        record { before = []; it = r; after = rs },
        refl,
        record { whole = refl; txn = (==_iff r.txn_id t).0 hit; first = tt },
      ))
  | inr miss ↦
      rw miss (back_up-Search r rs t (find_request rs t) (ground arith) (find_request-Search rs t))
]

-- A fact about requests that the transaction `t` alone may change.
pub transfer {ℓ κ} :
    {P : LockRequest → Type ℓ} {Q : LockRequest → Type κ} (t : ℕ)
    → ((r : LockRequest) → r.txn_id ≢ t → P r → Q r)
    → (rs : List LockRequest) → Apart t rs
    → All P rs
    → All Q rs
transfer t f [] a h = tt
transfer t f (r ∷ rs) a h = (f r a.0 h.0, transfer t f rs a.1 h.1)

pub find_request-Found :
    (rs : List LockRequest) (t : ℕ) (c : Cursor) → find_request rs t ≡ some c → Found rs t c
find_request-Found rs t c e = go (find_request-Search rs t)
  where
    go : Search rs t (find_request rs t) → Found rs t c
    go (inl (n, _)) = cc
    go (inr (d, f, found)) = let same : d ≡ c = cc in subst (Found rs t) same found
