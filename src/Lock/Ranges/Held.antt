-- ===== src/Lock/Ranges/Held.antt =====
-- What LockKeyRange's parts of concurrency/lock_manager_acquire.cpp keep of a queue: requests granted to
-- different transactions that conflict have no key in common.
use granite_db.Prelude.{
  ℕ, suc, ◌≡◌, ◌≢◌, refl, sym, ap, ◌∙◌, subst, Bool, true, false, not, ◌&&◌, List, [], ◌∷◌, ◌++◌,
  Option, none, some, Result, ok, err, ◌>>=◌, ◌==◌, get_elem?, if◌then◌else◌, arith, inl, inr, ◌⊎◌,
}
use mathlib.Core.List.{Memᴰ}
use mathlib.Core.List.Memᴰ
use granite_db.Transaction.{Transaction, LockMode, mode_eq}
use granite_db.Lock.Mode.{
  range_modes_compatible, combine_tuple_or_range_modes, tuple_or_range_mode_satisfies,
}
use granite_db.Lock.Queue.{other_txn}
use granite_db.Lock.Ranges.{
  KeyRangeLockRequest, KeyRangeLockRequestQueue, KeyOrder, HasKeys, Inside,
  can_grant_key_range_request, can_grant-no_common_key,
}
use granite_db.Lock.Ranges.Acquire.{
  KeyRange, RangeCursor, range_back_up, new_range_request, RangeEntry, throws, returns, enters,
  range_put_back, withdraw_range, enqueue_range, range_matches, find_key_range_request,
}
use granite_db.Row.{Value, RowError}
use granite_db.Row.Compare.{Doubles}

-- The requests of a queue that a cursor points into.
abbrev pub Splits : List KeyRangeLockRequest → Option RangeCursor → Type 0
Splits rs none = Unit
Splits rs (some c) = rs ≡ c.before ++ (c.it ∷ c.after)

Splits-back_up :
    (r : KeyRangeLockRequest) (rs : List KeyRangeLockRequest) (o : Option RangeCursor)
    → Splits rs o
    → Splits (r ∷ rs) (range_back_up r o)
Splits-back_up r rs none h = tt
Splits-back_up r rs (some c) h = ap (◌∷◌ r) h

ok_same :
    (a b : Option RangeCursor)
    → ◌≡◌ {A = Result RowError (Option RangeCursor)} (ok a) (ok b)
    → a ≡ b
ok_same a b e = ground arith

-- The branches of LockKeyRange that go on to its wait loop.
entered_branch :
    (granted same busy satisfied : Bool) (t u : Transaction)
    (upgraded kept q : KeyRangeLockRequestQueue)
    → (if granted && not same
        then (if busy then returns false t else enters upgraded)
        else if granted && satisfied
        then returns true u
        else enters kept)
      ≡ enters q
    → (same ≡ true → satisfied ≡ true)
    → (upgraded ≡ q) ⊎ ((kept ≡ q) × (granted ≡ false))
entered_branch false same busy satisfied t u upgraded kept q e h = inr (ground arith, refl)
entered_branch true true busy satisfied t u upgraded kept q e h = absurd (ground (arith, h refl))
entered_branch true false true satisfied t u upgraded kept q e h = absurd (ground arith)
entered_branch true false false satisfied t u upgraded kept q e h = inl (ground arith)

satisfied_same :
    (held mode : LockMode)
    → mode_eq held (combine_tuple_or_range_modes held mode) ≡ true
    → tuple_or_range_mode_satisfies held mode ≡ true
unfolding tuple_or_range_mode_satisfies combine_tuple_or_range_modes
satisfied_same held mode e = ground arith

abbrev entry_requests : RangeEntry → List KeyRangeLockRequest
entry_requests throws = []
entry_requests (returns b t) = []
entry_requests (enters q) = q.requests

pub find-Splits :
    (d : Doubles) (range : KeyRange) (t : ℕ) (rs : List KeyRangeLockRequest)
    (o : Option RangeCursor)
    → find_key_range_request d range t rs ≡ ok o
    → Splits rs o
unfolding find_key_range_request
find-Splits d range t [] o e = subst (Splits []) (ok_same none o e) tt
find-Splits d range t (r ∷ rs) o e =
    go (r.txn_id == t) (range_matches d range r) (find_key_range_request d range t rs) refl
      (λ o' e'. find-Splits d range t rs o' e') e
  where
    go :
        (own : Bool) (same : Result RowError Bool) (rest : Result RowError (Option RangeCursor))
        → find_key_range_request d range t rs ≡ rest
        → ((o' : Option RangeCursor) → find_key_range_request d range t rs ≡ ok o' → Splits rs o')
        → (if not own
            then (rest >>= λ c. ok (range_back_up r c))
            else (same >>= λ b.
                if b
                then ok (some (record { before = []; it = r; after = rs }))
                else (rest >>= λ c. ok (range_back_up r c))))
          ≡ ok o
        → Splits (r ∷ rs) o
    go false same (ok c) f ih e =
        subst (Splits (r ∷ rs)) (ok_same (range_back_up r c) o e) (Splits-back_up r rs c (ih c f))
    go false same (err x) f ih e = absurd (ground arith)
    go true (err x) rest f ih e = absurd (ground arith)
    go true (ok true) rest f ih e =
        subst (Splits (r ∷ rs)) (ok_same (some (record { before = []; it = r; after = rs })) o e)
          refl
    go true (ok false) (ok c) f ih e =
        subst (Splits (r ∷ rs)) (ok_same (range_back_up r c) o e) (Splits-back_up r rs c (ih c f))
    go true (ok false) (err x) f ih e = absurd (ground arith)

Memᴰ-get :
    (r : KeyRangeLockRequest) (rs : List KeyRangeLockRequest)
    → Memᴰ r rs
    → (n : ℕ) × (get_elem? rs n ≡ some r)
Memᴰ-get r [] m = absurd (Memᴰ.not-nil m)
Memᴰ-get r (x ∷ rs) m = elim (Memᴰ.cases_cons m) [
  | inl e ↦ (0, ap some (sym e))
  | inr m' ↦ let (n, e) = Memᴰ-get r rs m' in (suc n, e)
]

-- A member beside the one that a cursor points to.
Memᴰ-beside :
    (a x : KeyRangeLockRequest) (xs ys : List KeyRangeLockRequest)
    → Memᴰ a (xs ++ (x ∷ ys))
    → (a ≡ x) ⊎ Memᴰ a (xs ++ ys)
Memᴰ-beside a x xs ys m = elim (Memᴰ.append_cases xs m) [
  | inl front ↦ inr (Memᴰ.append_left ys front)
  | inr back ↦ elim (Memᴰ.cases_cons back) [
    | inl e ↦ inl e
    | inr behind ↦ inr (Memᴰ.append_right xs behind)
  ]
]

Memᴰ-insert :
    (a x : KeyRangeLockRequest) (xs ys : List KeyRangeLockRequest)
    → Memᴰ a (xs ++ ys)
    → Memᴰ a (xs ++ (x ∷ ys))
Memᴰ-insert a x xs ys m = elim (Memᴰ.append_cases xs m) [
  | inl front ↦ Memᴰ.append_left (x ∷ ys) front
  | inr back ↦ Memᴰ.append_right xs (Memᴰ.tail back)
]

module _ (d : Doubles) (o : KeyOrder d) where
  -- Two requests that are granted to different transactions, and conflict, have no key in common.
  unfoldable pub Apart : KeyRangeLockRequest → KeyRangeLockRequest → Type 0
  Apart a b =
      a.granted ≡ true
      → b.granted ≡ true
      → a.txn_id ≢ b.txn_id
      → range_modes_compatible a.mode b.mode ≡ false
      → (k : List Value) → ¬ (Inside d o k a × Inside d o k b)

  pub record IsSafe (rs : List KeyRangeLockRequest) : Type 0 where
    pub keys : (a : KeyRangeLockRequest) → Memᴰ a rs → HasKeys d o a
    pub apart : (a b : KeyRangeLockRequest) → Memᴰ a rs → Memᴰ b rs → Apart a b

  -- What is granted was granted before.
  pub fewer-IsSafe :
      (rs rs' : List KeyRangeLockRequest)
      → ((a : KeyRangeLockRequest) → Memᴰ a rs' → HasKeys d o a)
      → ((a : KeyRangeLockRequest) → Memᴰ a rs' → a.granted ≡ true → Memᴰ a rs)
      → IsSafe rs
      → IsSafe rs'
  unfolding Apart
  fewer-IsSafe rs rs' keys old s = record {
    keys = keys;
    apart = λ a b m n g h. s.apart a b (old a m g) (old b n h) g h;
  }

  -- The request at the cursor takes a mode and waits.
  waiting-IsSafe :
      (c : RangeCursor) (mode : LockMode) (granted : Bool)
      → granted ≡ false
      → IsSafe (c.before ++ (c.it ∷ c.after))
      → IsSafe (range_put_back c mode granted)
  unfolding HasKeys
  waiting-IsSafe c mode granted open_yet s =
      let x = record c.it { mode = mode; granted = granted } in
      let own = s.keys c.it (Memᴰ.append_right c.before (Memᴰ.head refl)) in
      fewer-IsSafe _ (range_put_back c mode granted)
        (λ a m. elim (Memᴰ-beside a x c.before c.after m) [
          | inl e ↦ subst (HasKeys d o) (sym e) own
          | inr old ↦ s.keys a (Memᴰ-insert a c.it c.before c.after old)
        ])
        (λ a m g. elim (Memᴰ-beside a x c.before c.after m) [
          | inl e ↦ absurd (ground (arith, ap (λ (r : KeyRangeLockRequest). r.granted) e))
          | inr old ↦ Memᴰ-insert a c.it c.before c.after old
        ])
        s

  pub granted-IsSafe :
      (c : RangeCursor)
      → can_grant_key_range_request d c.before c.it c.after ≡ ok true
      → IsSafe (c.before ++ (c.it ∷ c.after))
      → IsSafe (range_put_back c c.it.mode true)
  unfolding HasKeys Inside Apart range_modes_compatible
  granted-IsSafe c free s =
      let g = record c.it { granted = true } in
      let own = s.keys c.it (Memᴰ.append_right c.before (Memᴰ.head refl)) in
      let old = λ (a : KeyRangeLockRequest) (m : Memᴰ a (c.before ++ c.after)).
        Memᴰ-insert a c.it c.before c.after m in
      let beside = beside_granted c own free (λ a m. s.keys a (old a m)) in
      record {
        keys = λ a m. elim (Memᴰ-beside a g c.before c.after m) [
          | inl e ↦ subst (HasKeys d o) (sym e) own
          | inr m' ↦ s.keys a (old a m')
        ];
        apart = λ a b m n. elim (Memᴰ-beside a g c.before c.after m) [
          | inl e ↦ elim (Memᴰ-beside b g c.before c.after n) [
            | inl f ↦
                λ ga gb ne. absurd (ne (ap (λ (r : KeyRangeLockRequest). r.txn_id) (e ∙ sym f)))
            | inr n' ↦ subst (λ (r : KeyRangeLockRequest). Apart r b) (sym e) (beside b n').0
          ]
          | inr m' ↦ elim (Memᴰ-beside b g c.before c.after n) [
            | inl f ↦ subst (Apart a) (sym f) (beside a m').1
            | inr n' ↦ s.apart a b (old a m') (old b n')
          ]
        ];
      }
    where
      beside_granted :
          (c : RangeCursor)
          → HasKeys d o c.it
          → can_grant_key_range_request d c.before c.it c.after ≡ ok true
          → ((a : KeyRangeLockRequest) → Memᴰ a (c.before ++ c.after) → HasKeys d o a)
          → (b : KeyRangeLockRequest) → Memᴰ b (c.before ++ c.after)
          → Apart (record c.it { granted = true }) b × Apart b (record c.it { granted = true })
      beside_granted c own free keys b m =
          let (n, at) = Memᴰ-get b (c.before ++ c.after) m in
          let never =
            λ (k : List Value) (ne : b.txn_id ≢ c.it.txn_id) (gb : b.granted ≡ true)
                (clash : range_modes_compatible c.it.mode b.mode ≡ false).
              can_grant-no_common_key d o c.before c.after c.it b n k free at ne gb clash (keys b m)
                own in
          (
            (λ ga gb ne clash k (ia, ib). never k (λ e. ne (sym e)) gb clash (ib, ia)),
            (λ gb ga ne clash k (ib, ia). never k ne gb (ground arith) (ib, ia)),
          )

  pub entered-IsSafe :
      (q q' : KeyRangeLockRequestQueue) (txn : Transaction) (range : KeyRange) (mode : LockMode)
      (c : Option RangeCursor)
      → Splits q.requests c
      → enqueue_range q txn range mode c ≡ enters q'
      → HasKeys d o (new_range_request txn.txn_id range mode)
      → IsSafe q.requests
      → IsSafe q'.requests
  unfolding enqueue_range new_range_request
  entered-IsSafe q q' txn range mode none split e own s =
      let x = new_range_request txn.txn_id range mode in
      let same : q.requests ++ (x ∷ []) ≡ q'.requests = ap entry_requests e in
      subst IsSafe same (
        fewer-IsSafe q.requests (q.requests ++ (x ∷ []))
          (λ a m. elim (Memᴰ.append_cases q.requests m) [
            | inl old ↦ s.keys a old
            | inr new ↦ subst (HasKeys d o) (sym (Memᴰ.eq_of_singleton new)) own
          ])
          (λ a m g. elim (Memᴰ.append_cases q.requests m) [
            | inl old ↦ old
            | inr new ↦ absurd (
                ground
                  (arith, ap (λ (r : KeyRangeLockRequest). r.granted) (Memᴰ.eq_of_singleton new)))
          ])
          s)
  entered-IsSafe q q' txn range mode (some c) split e own s =
      let target = combine_tuple_or_range_modes c.it.mode mode in
      let old = subst IsSafe split s in
      elim (entered_branch c.it.granted (mode_eq c.it.mode target)
        (other_txn q.upgrading_txn txn.txn_id) (tuple_or_range_mode_satisfies c.it.mode mode) _ _ _
        _ q' e (satisfied_same c.it.mode mode)) [
          | inl up ↦
              subst (λ (r : KeyRangeLockRequestQueue). IsSafe r.requests) up
                (waiting-IsSafe c target false refl old)
          | inr (kept, open_yet) ↦
              subst (λ (r : KeyRangeLockRequestQueue). IsSafe r.requests) kept
                (waiting-IsSafe c target c.it.granted open_yet old)
        ]

  pub withdrawn-IsSafe :
      (q : KeyRangeLockRequestQueue) (t : ℕ) (c : Option RangeCursor)
      → Splits q.requests c
      → IsSafe q.requests
      → IsSafe (withdraw_range q t c).requests
  unfolding withdraw_range
  withdrawn-IsSafe q t none split s = s
  withdrawn-IsSafe q t (some c) split s =
      let old = subst IsSafe split s in
      let back = λ (a : KeyRangeLockRequest) (m : Memᴰ a (c.before ++ c.after)).
        Memᴰ-insert a c.it c.before c.after m in
      fewer-IsSafe _ (c.before ++ c.after) (λ a m. old.keys a (back a m)) (λ a m g. back a m) old
