-- ===== src/Slotted/Insert/Fill.antt =====
-- A new record in a free slot of a page: the end of InsertRecord of storage/slotted_page.cpp.
use granite_db.Prelude.{
  ℕ, zero, suc, ◌+◌, ◌-◌, ◌≤◌, ◌<◌, ◌≡◌, ◌≢◌, refl, sym, ap, subst, ◌∙◌, false, inl, inr, List, [],
  ◌∷◌, Option, none, some, Option-cases, length, ◌==◌, ==_iff, get_elem?, set, arith, Bool-cases,
  length-set, get_elem?-set_self, get_elem?-set_ne,
}
use granite_db.Slotted.{
  occupied, SlotEntry, SlottedPage, is_occupied, is_deleted_state, sub_u16, find_reusable_slot,
  place_record,
}
use granite_db.Slotted.Memory.{
  write_bytes, length-write_bytes, read_bytes-write_bytes, read_above-write_bytes,
}
use granite_db.Slotted.Layout.{
  live_size, dead_size, total-set, Apart, IsPlaced, IsSlotted, record_of,
}
use granite_db.Slotted.Records.{lt-get_elem?, view, view-some, view-free, Becomes}
use granite_db.Slotted.Compact.Whole.{record_of-none}

-- A slot without a record.
unfoldable pub IsFree : SlottedPage → ℕ → Type 0
IsFree p n = (s : SlotEntry) × (get_elem? p.slots n ≡ some s) × (is_occupied s.state ≡ false)

pub find_reusable_slot-some :
    (slots : List SlotEntry) (n : ℕ)
    → find_reusable_slot slots ≡ some n
    → (s : SlotEntry) × (get_elem? slots n ≡ some s) × (is_occupied s.state ≡ false)
unfolding find_reusable_slot
find_reusable_slot-some [] n e = absurd (ground arith)
find_reusable_slot-some (s ∷ slots) n e = elim (Bool-cases (is_occupied s.state)) [
  | inr free ↦
      let here : 0 ≡ n = ground arith in
      subst
        (λ n. (t : SlotEntry) × (get_elem? (s ∷ slots) n ≡ some t) × (is_occupied t.state ≡ false))
        here (s, refl, free)
  | inl busy ↦ elim (Option-cases (find_reusable_slot slots)) [
    | inl nothing ↦ absurd (ground arith)
    | inr found ↦
        let (t, f, free) = find_reusable_slot-some slots found.0 found.1 in
        let there : suc found.0 ≡ n = ground arith in
        subst
          (λ n.
            (t : SlotEntry) × (get_elem? (s ∷ slots) n ≡ some t) × (is_occupied t.state ≡ false))
          there (t, f, free)
  ]
]

lt→get_elem? : (slots : List SlotEntry) (n : ℕ) → n < length slots → get_elem? slots n ≢ none
lt→get_elem? [] n lt e = absurd (omega arith)
lt→get_elem? (s ∷ slots) zero lt e = absurd (ground arith)
lt→get_elem? (s ∷ slots) (suc n) lt e = lt→get_elem? slots n (omega arith) e

-- A slot of a page with the same records and as many slots is free too.
pub IsFree-same :
    (p q : SlottedPage) (n : ℕ)
    → IsFree p n
    → view q n ≡ view p n
    → length q.slots ≡ length p.slots
    → IsFree q n
unfolding IsFree view record_of
IsFree-same p q n (s, e, free) same count =
    let lt = lt-get_elem? p.slots n s e in
    elim (Option-cases (get_elem? q.slots n)) [
      | inl nothing ↦ absurd (lt→get_elem? q.slots n (omega arith) nothing)
      | inr found ↦
          let f : get_elem? q.slots n ≡ some found.0 = found.1 in
          let none_there = ap (record_of q.memory) (sym f) ∙ same ∙ view-free p n s e free in
          (found.0, f, record_of-none q.memory found.0 none_there)
    ]

abbrev entry_of : SlottedPage → List ℕ → SlotEntry
entry_of p bytes = record {
  offset = p.upper - length bytes;
  size = length bytes;
  state = occupied;
  reserved = 0;
}

abbrev with_record : SlottedPage → ℕ → List ℕ → SlottedPage
with_record p n bytes = record p {
  upper = p.upper - length bytes;
  memory = write_bytes (p.upper - length bytes) bytes p.memory;
  slots = set p.slots n (entry_of p bytes);
}

pub place_record_lem :
    (p : SlottedPage) (n : ℕ) (bytes : List ℕ)
    → IsSlotted p
    → p.lower + length bytes ≤ p.upper
    → place_record p n bytes ≡ with_record p n bytes
unfolding place_record sub_u16
place_record_lem p n bytes h gap =
    let upper : sub_u16 p.upper (length bytes) ≡ p.upper - length bytes =
      omega (arith, h.upper_le, h.special_le) in
    ap
      (λ (u : ℕ). record p {
        upper = u;
        memory = write_bytes u bytes p.memory;
        slots =
            set p.slots n
              (record { offset = u; size = length bytes; state = occupied; reserved = 0 });
      })
      upper

module _ (p : SlottedPage) (n : ℕ) (bytes : List ℕ) (h : IsSlotted p)
    (gap : p.lower + length bytes ≤ p.upper) (old : SlotEntry) (e : get_elem? p.slots n ≡ some old)
    (free : is_occupied old.state ≡ false) where
  with_record-IsPlaced :
      IsPlaced (p.upper - length bytes) p.special (set p.slots n (entry_of p bytes))
  unfolding Apart
  with_record-IsPlaced =
      let lt = lt-get_elem? p.slots n old e in
      let self = get_elem?-set_self p.slots n (entry_of p bytes) lt in
      record {
        within = λ m s f occ. elim (Bool-cases (n == m)) [
          | inl here ↦
              let at_m : n ≡ m = (==_iff n m).0 here in
              let is_s : entry_of p bytes ≡ s = ground arith in
              subst (λ s. (p.upper - length bytes ≤ s.offset) × (s.offset + s.size ≤ p.special))
                is_s (omega arith, omega (arith, h.upper_le))
          | inr other ↦
              let ne : n ≢ m = λ e. ground (arith, ==_iff n m, e) in
              let was = sym (get_elem?-set_ne p.slots n m (entry_of p bytes) ne) ∙ f in
              let (low, high) = h.placed.within m s was occ in (omega arith, high)
        ];
        apart = λ i j s t ne f g a b. elim (Bool-cases (n == i)) [
          | inl first ↦
              let at_i : n ≡ i = (==_iff n i).0 first in
              let is_s : entry_of p bytes ≡ s = ground arith in
              let was =
                sym (get_elem?-set_ne p.slots n j (entry_of p bytes) (λ e. ne (sym at_i ∙ e)))
                ∙ g in
              let low = (h.placed.within j t was b).0 in
              subst (λ s. Apart s t) is_s (inl (omega arith))
          | inr other ↦
              let ne_i : n ≢ i = λ e. ground (arith, ==_iff n i, e) in
              let was_i = sym (get_elem?-set_ne p.slots n i (entry_of p bytes) ne_i) ∙ f in
              elim (Bool-cases (n == j)) [
                | inl second ↦
                    let at_j : n ≡ j = (==_iff n j).0 second in
                    let is_t : entry_of p bytes ≡ t = ground arith in
                    let low = (h.placed.within i s was_i a).0 in
                    subst (λ t. Apart s t) is_t (inr (omega arith))
                | inr others ↦
                    let ne_j : n ≢ j = λ e. ground (arith, ==_iff n j, e) in
                    let was_j = sym (get_elem?-set_ne p.slots n j (entry_of p bytes) ne_j) ∙ g in
                    h.placed.apart i j s t ne was_i was_j a b
              ]
        ];
      }

  record_kept :
      (m : ℕ) (o : Option SlotEntry)
      → get_elem? p.slots m ≡ o
      → record_of (with_record p n bytes).memory o ≡ record_of p.memory o
  unfolding record_of
  record_kept m none f = refl
  record_kept m (some t) f = elim (Bool-cases (is_occupied t.state)) [
    | inr idle ↦ rw idle
    | inl occ ↦
        let low = (h.placed.within m t f occ).0 in
        rw occ (
          ap some (
            read_above-write_bytes (p.upper - length bytes) t.offset t.size bytes p.memory
              (omega (arith, h.upper_le, h.special_le, h.whole)) (omega arith)))
  ]

  pub with_record-Becomes : Becomes p (with_record p n bytes) n (some bytes)
  unfolding view live_size dead_size is_occupied is_deleted_state
  with_record-Becomes =
      let lt = lt-get_elem? p.slots n old e in
      let inside : p.upper - length bytes + length bytes ≤ length p.memory =
        omega (arith, h.upper_le, h.special_le, h.whole) in
      let live = total-set live_size p.slots n old (entry_of p bytes) e in
      let dead = total-set dead_size p.slots n old (entry_of p bytes) e in
      record {
        sound = record {
          directory = omega (arith, h.directory, length-set p.slots n (entry_of p bytes));
          lower_le = omega arith;
          upper_le = omega (arith, h.upper_le);
          special_le = h.special_le;
          whole = length-write_bytes (p.upper - length bytes) bytes p.memory inside ∙ h.whole;
          placed = with_record-IsPlaced;
          counted = ground (arith, h.counted);
        };
        here =
            view-some (with_record p n bytes) n (entry_of p bytes)
              (get_elem?-set_self p.slots n (entry_of p bytes) lt) refl
            ∙ ap some (read_bytes-write_bytes (p.upper - length bytes) bytes p.memory inside);
        others = λ m ne.
            ap (record_of (with_record p n bytes).memory)
              (get_elem?-set_ne p.slots n m (entry_of p bytes) (λ e. ne (sym e)))
            ∙ record_kept m (get_elem? p.slots m) refl;
      }
