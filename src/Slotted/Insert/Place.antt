-- ===== src/Slotted/Insert/Place.antt =====
-- InsertRecord of storage/slotted_page.cpp: a new record in a free slot.
use granite_db.Prelude.{
  ℕ, zero, suc, ◌+◌, ◌%◌, ◌^◌, ◌≤◌, ◌≡◌, refl, sym, subst, ◌∙◌, true, List, [], ◌∷◌, ◌++◌, Option,
  none, some, length, get_elem?, arith, length-append,
}
use granite_db.Slotted.{
  empty, SlotEntry, SlottedPage, is_occupied, is_deleted_state, find_reusable_slot, needs_new_slot,
  required, claim_slot, place_record,
}
use granite_db.Slotted.Layout.{live_size, dead_size, total-append, IsSlotted, record_of}
use granite_db.Slotted.Records.{view, view-free, Becomes}
use granite_db.Slotted.Insert.{HasRoom}
use granite_db.Slotted.Insert.Fill.{
  with_record-Becomes, IsFree, find_reusable_slot-some, IsFree-same, place_record_lem,
}

abbrev blank : SlotEntry
blank = record { offset = 0; size = 0; state = empty; reserved = 0 }

get_elem?-blank :
    (slots : List SlotEntry) → get_elem? (slots ++ (blank ∷ [])) (length slots) ≡ some blank
get_elem?-blank [] = refl
get_elem?-blank (s ∷ slots) = get_elem?-blank slots

occupied_before :
    (slots : List SlotEntry) (n : ℕ) (s : SlotEntry)
    → get_elem? (slots ++ (blank ∷ [])) n ≡ some s
    → is_occupied s.state ≡ true
    → get_elem? slots n ≡ some s
unfolding is_occupied
occupied_before [] zero s e occ = absurd (ground arith)
occupied_before [] (suc n) s e occ = e
occupied_before (t ∷ slots) zero s e occ = e
occupied_before (t ∷ slots) (suc n) s e occ = occupied_before slots n s e occ

record_of-blank :
    (memory : List ℕ) (slots : List SlotEntry) (n : ℕ)
    → record_of memory (get_elem? (slots ++ (blank ∷ [])) n) ≡ record_of memory (get_elem? slots n)
unfolding record_of is_occupied
record_of-blank memory [] zero = refl
record_of-blank memory [] (suc n) = refl
record_of-blank memory (t ∷ slots) zero = refl
record_of-blank memory (t ∷ slots) (suc n) = record_of-blank memory slots n

-- The page with the slot of the new record, and what it says of the records.
claim_slot_lem :
    (p : SlottedPage) (reusable : Option ℕ) (len : ℕ)
    → IsSlotted p
    → ((n : ℕ) → reusable ≡ some n → IsFree p n)
    → p.lower + required len (needs_new_slot reusable) ≤ p.upper
    → let (q, n) = claim_slot p reusable in
      IsSlotted q × ((m : ℕ) → view q m ≡ view p m) × IsFree q n × (q.lower + len ≤ q.upper)
unfolding claim_slot required needs_new_slot view IsFree is_occupied live_size dead_size
    is_deleted_state
claim_slot_lem p (some n) len h free gap = (h, (λ m. refl), free n refl, omega arith)
claim_slot_lem p none len h free gap =
    let lower : (p.lower + 8) % 2 ^ 16 ≡ p.lower + 8 = omega (arith, h.upper_le, h.special_le) in
    (
      record {
        directory = omega (arith, h.directory, length-append p.slots (blank ∷ []));
        lower_le = omega arith;
        upper_le = h.upper_le;
        special_le = h.special_le;
        whole = h.whole;
        placed = record {
          within = λ n s e occ. h.placed.within n s (occupied_before p.slots n s e occ) occ;
          apart = λ m n s t ne e f a b.
              h.placed.apart m n s t ne (occupied_before p.slots m s e a)
                (occupied_before p.slots n t f b) a b;
        };
        counted = omega (
          arith,
          h.counted,
          total-append live_size p.slots blank,
          total-append dead_size p.slots blank,
        );
      },
      (λ m. record_of-blank p.memory p.slots m),
      (blank, get_elem?-blank p.slots, refl),
      omega arith,
    )

find_reusable_slot-IsFree :
    (p : SlottedPage) (n : ℕ) → find_reusable_slot p.slots ≡ some n → IsFree p n
unfolding IsFree
find_reusable_slot-IsFree p n e = find_reusable_slot-some p.slots n e

-- Inserting into a page that has room.
pub insert_with_room :
    (p q : SlottedPage) (bytes : List ℕ)
    → HasRoom p q (required (length bytes) (needs_new_slot (find_reusable_slot p.slots)))
    → let claimed = claim_slot q (find_reusable_slot p.slots) in
      (view p claimed.1 ≡ none)
      × Becomes p (place_record claimed.0 claimed.1 bytes) claimed.1 (some bytes)
unfolding IsFree
insert_with_room p q bytes room =
    let reusable = find_reusable_slot p.slots in
    let claimed = claim_slot q reusable in
    let (sound, same, free, gap) =
      claim_slot_lem q reusable (length bytes) room.sound
        (λ n e. IsFree-same p q n (find_reusable_slot-IsFree p n e) (room.same n) room.same_count)
        room.gap in
    let (old, e, idle) = free in
    let b = with_record-Becomes claimed.0 claimed.1 bytes sound gap old e idle in
    (
      sym (room.same claimed.1) ∙ sym (same claimed.1) ∙ view-free claimed.0 claimed.1 old e idle,
      subst (λ r. Becomes p r claimed.1 (some bytes))
          (sym (place_record_lem claimed.0 claimed.1 bytes sound gap))
          (record {
            sound = b.sound;
            here = b.here;
            others = λ m ne. b.others m ne ∙ same m ∙ room.same m;
          }),
    )
