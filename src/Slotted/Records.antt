-- ===== src/Slotted/Records.antt =====
-- DeleteRecord and OverwriteRecord of storage/slotted_page.cpp change one record and no other.
use granite_db.Prelude.{
  ℕ, zero, suc, ◌+◌, ◌-◌, ◌≤◌, ◌<◌, ◌≡◌, ◌≢◌, refl, sym, ap, subst, ◌∙◌, true, false, ◌⊎◌, inl, inr,
  List, [], ◌∷◌, ◌++◌, Option, none, some, Option-cases, length, ltb, get_elem?, set, arith,
  Bool-cases, length-set, get_elem?-set_self, get_elem?-set_ne, length-append,
}
use granite_db.Row.Bitmap.{zeros, length-zeros}
use granite_db.Slotted.{
  deleted, SlotEntry, SlottedPage, is_occupied, is_deleted_state, delete_record, overwrite_record,
}
use granite_db.Slotted.Memory.{
  read_bytes, write_bytes, length-write_bytes, length-read_bytes, read_bytes-write_bytes,
  read_below-write_bytes, read_above-write_bytes,
}
use granite_db.Slotted.Layout.{
  live_size, dead_size, total-set, Apart, IsSlotted, record_of, set-IsPlaced,
}

-- The record of a slot.
unfoldable pub view : SlottedPage → ℕ → Option (List ℕ)
unfolding record_of
view p n = record_of p.memory (get_elem? p.slots n)

-- `q` has the layout and the records of `p`, but for the slot `n`, which has the record `r`.
pub record Becomes (p q : SlottedPage) (n : ℕ) (r : Option (List ℕ)) : Type 0 where
  pub sound : IsSlotted q
  pub here : view q n ≡ r
  pub others : (m : ℕ) → m ≢ n → view q m ≡ view p m

pub lt-get_elem? {ℓ} :
    {A : Type ℓ} (xs : List A) (n : ℕ) (a : A) → get_elem? xs n ≡ some a → n < length xs
lt-get_elem? [] n a e = absurd (ground arith)
lt-get_elem? (x ∷ xs) zero a e = omega arith
lt-get_elem? (x ∷ xs) (suc n) a e = omega (arith, lt-get_elem? xs n a e)

-- What the view says of a slot with a record, and of one without.
pub view-some :
    (p : SlottedPage) (n : ℕ) (s : SlotEntry)
    → get_elem? p.slots n ≡ some s
    → is_occupied s.state ≡ true
    → view p n ≡ some (read_bytes s.offset s.size p.memory)
unfolding view record_of
view-some p n s e occ = rw (e, occ)

pub view-free :
    (p : SlottedPage) (n : ℕ) (s : SlotEntry)
    → get_elem? p.slots n ≡ some s
    → is_occupied s.state ≡ false
    → view p n ≡ none
unfolding view record_of
view-free p n s e occ = rw (e, occ)

pub view-absent : (p : SlottedPage) (n : ℕ) → get_elem? p.slots n ≡ none → view p n ≡ none
unfolding view record_of
view-absent p n e = rw e

abbrev deleted_slot : SlotEntry → SlotEntry
deleted_slot s = record s { state = deleted }

abbrev without : SlottedPage → ℕ → SlotEntry → SlottedPage
without p n s = record p { slots = set p.slots n (deleted_slot s) }

without-Becomes :
    (p : SlottedPage) (n : ℕ) (s : SlotEntry)
    → IsSlotted p
    → get_elem? p.slots n ≡ some s
    → is_occupied s.state ≡ true
    → Becomes p (without p n s) n none
unfolding live_size dead_size is_occupied is_deleted_state view
without-Becomes p n s h e occ =
    let lt = lt-get_elem? p.slots n s e in
    record {
      sound = record {
        directory = omega (arith, h.directory, length-set p.slots n (deleted_slot s));
        lower_le = h.lower_le;
        upper_le = h.upper_le;
        special_le = h.special_le;
        whole = h.whole;
        placed = set-IsPlaced p.upper p.special p.slots n (deleted_slot s) h.placed refl lt;
        counted =
            let live = total-set live_size p.slots n s (deleted_slot s) e in
            let dead = total-set dead_size p.slots n s (deleted_slot s) e in
            ground (arith, h.counted);
      };
      here =
          view-free (without p n s) n (deleted_slot s)
            (get_elem?-set_self p.slots n (deleted_slot s) lt) refl;
      others = λ m ne.
          ap (record_of p.memory) (get_elem?-set_ne p.slots n m (deleted_slot s) (λ e. ne (sym e)));
    }

-- Deleting a slot without a record does nothing, and deleting a record removes it.
pub delete_record_lem :
    (p : SlottedPage) (n : ℕ)
    → IsSlotted p
    → ((view p n ≡ none) × (delete_record p n ≡ (p, false)))
      ⊎ ((q : SlottedPage) × (view p n ≢ none)
          × (delete_record p n ≡ (q, true))
          × Becomes p q n none)
unfolding delete_record
delete_record_lem p n h = elim (Option-cases (get_elem? p.slots n)) [
  | inl e ↦ inl (view-absent p n e, rw (delete_record, e))
  | inr found ↦
      let s = found.0 in
      let e : get_elem? p.slots n ≡ some s = found.1 in
      elim (Bool-cases (is_occupied s.state)) [
        | inl occ ↦ inr (
          without p n s,
          (λ f. ground (arith, view-some p n s e occ)),
          rw (delete_record, e, occ),
          without-Becomes p n s h e occ,
        )
        | inr free ↦ inl (view-free p n s e free, rw (delete_record, e, free))
      ]
]

abbrev padded : SlotEntry → List ℕ → List ℕ
padded s bytes = bytes ++ zeros (s.size - length bytes)

length-padded :
    (s : SlotEntry) (bytes : List ℕ) → length bytes ≤ s.size → length (padded s bytes) ≡ s.size
length-padded s bytes le = omega (
  arith,
  length-append bytes (zeros (s.size - length bytes)),
  length-zeros (s.size - length bytes),
)

abbrev rewritten : SlottedPage → SlotEntry → List ℕ → SlottedPage
rewritten p s bytes = record p { memory = write_bytes s.offset (padded s bytes) p.memory }

rewritten-Becomes :
    (p : SlottedPage) (n : ℕ) (s : SlotEntry) (bytes : List ℕ)
    → IsSlotted p
    → get_elem? p.slots n ≡ some s
    → is_occupied s.state ≡ true
    → length bytes ≤ s.size
    → Becomes p (rewritten p s bytes) n (some (padded s bytes))
unfolding view record_of Apart
rewritten-Becomes p n s bytes h e occ le =
    let size = length-padded s bytes le in
    let fits : s.offset + length (padded s bytes) ≤ length p.memory =
      omega (arith, (h.placed.within n s e occ).1, h.special_le, h.whole) in
    record {
      sound = record {
        directory = h.directory;
        lower_le = h.lower_le;
        upper_le = h.upper_le;
        special_le = h.special_le;
        whole = length-write_bytes s.offset (padded s bytes) p.memory fits ∙ h.whole;
        placed = h.placed;
        counted = h.counted;
      };
      here =
          view-some (rewritten p s bytes) n s e occ
          ∙ ap some (
              subst
                (λ k.
                  read_bytes s.offset k (write_bytes s.offset (padded s bytes) p.memory)
                  ≡ padded s bytes)
                size (read_bytes-write_bytes s.offset (padded s bytes) p.memory fits));
      others = λ m ne. go m ne (get_elem? p.slots m) refl;
    }
  where
    go :
        (m : ℕ)
        → m ≢ n
        → (o : Option SlotEntry) → get_elem? p.slots m ≡ o
        → record_of (write_bytes s.offset (padded s bytes) p.memory) o ≡ record_of p.memory o
    go m ne none f = refl
    go m ne (some t) f = elim (Bool-cases (is_occupied t.state)) [
      | inr free ↦ rw free
      | inl busy ↦
          let size = length-padded s bytes le in
          let fits : s.offset + length (padded s bytes) ≤ length p.memory =
            omega (arith, (h.placed.within n s e occ).1, h.special_le, h.whole) in
          rw busy (
            ap some (elim (h.placed.apart m n t s ne f e busy occ) [
              | inl low ↦
                  read_below-write_bytes s.offset t.offset t.size (padded s bytes) p.memory fits low
              | inr high ↦
                  read_above-write_bytes s.offset t.offset t.size (padded s bytes) p.memory fits
                    (omega arith)
            ]))
    ]

-- The record of a placed slot has the slot's length.
length-view :
    (p : SlottedPage) (n : ℕ) (s : SlotEntry)
    → IsSlotted p
    → get_elem? p.slots n ≡ some s
    → is_occupied s.state ≡ true
    → length (read_bytes s.offset s.size p.memory) ≡ s.size
length-view p n s h e occ =
    length-read_bytes s.offset s.size p.memory
      (omega (arith, (h.placed.within n s e occ).1, h.special_le, h.whole))

-- No record, or one that is shorter than the bytes.
unfoldable pub Refuses : Option (List ℕ) → List ℕ → Type 0
Refuses none bytes = Unit {0}
Refuses (some old) bytes = length old < length bytes

-- Overwriting a slot without a record, or a record by a longer one, does nothing; a record that is
-- overwritten is the new bytes and zeros behind them, up to its old length.
pub overwrite_record_lem :
    (p : SlottedPage) (n : ℕ) (bytes : List ℕ)
    → IsSlotted p
    → (Refuses (view p n) bytes × (overwrite_record p n bytes ≡ (p, false)))
      ⊎ ((q : SlottedPage) × (old : List ℕ) × (view p n ≡ some old)
          × (length bytes ≤ length old)
          × (overwrite_record p n bytes ≡ (q, true))
          × Becomes p q n (some (bytes ++ zeros (length old - length bytes))))
unfolding overwrite_record Refuses
overwrite_record_lem p n bytes h = elim (Option-cases (get_elem? p.slots n)) [
  | inl e ↦
      inl (subst (λ o. Refuses o bytes) (sym (view-absent p n e)) tt, rw (overwrite_record, e))
  | inr found ↦
      let s = found.0 in
      let e : get_elem? p.slots n ≡ some s = found.1 in
      elim (Bool-cases (is_occupied s.state)) [
        | inr free ↦ inl (
          subst (λ o. Refuses o bytes) (sym (view-free p n s e free)) tt,
          rw (overwrite_record, e, free),
        )
        | inl occ ↦
            let old = read_bytes s.offset s.size p.memory in
            let seen = view-some p n s e occ in
            let size = length-view p n s h e occ in
            elim (Bool-cases (ltb s.size (length bytes))) [
              | inl long ↦ inl (
                subst (λ o. Refuses o bytes) (sym seen) (ground arith),
                rw (overwrite_record, e, occ, long),
              )
              | inr fits ↦
                  let le : length bytes ≤ s.size = ground arith in
                  inr (
                    rewritten p s bytes,
                    old,
                    seen,
                    omega arith,
                    rw (overwrite_record, e, occ, fits),
                    subst
                        (λ k.
                          Becomes p (rewritten p s bytes) n
                            (some (bytes ++ zeros (k - length bytes))))
                        (sym size) (rewritten-Becomes p n s bytes h e occ le),
                  )
            ]
      ]
]
