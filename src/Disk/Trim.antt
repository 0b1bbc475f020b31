-- ===== src/Disk/Trim.antt =====
-- What the loop of TrimTrailingFreePages leaves: storage/disk_manager.cpp.
use granite_db.Prelude.{
  ℕ, ◌+◌, ◌-◌, ◌%◌, ◌^◌, ◌≤◌, ◌<◌, ◌≡◌, refl, sym, ap, ◌∙◌, subst, true, false, List, [], ◌∷◌, All,
  ◌==◌, arith, Bool-cases, inl, inr, ◌⊎◌,
}
use native.Mathlib.Nat.{mod-eq_of_lt}
use granite_db.Disk.{trim_loop, trim_last}
use granite_db.Disk.Views.{is_free, is_free-All, Ascending}

-- The free pages at the end are gone, and no others.
pub record Trimmed (xs : List ℕ) (n : ℕ) (r : List ℕ × ℕ) : Type 0 where
  pub fewer : r.1 ≤ n
  pub ascending : Ascending r.0
  pub below : All (λ p. p < r.1) r.0
  pub same : (q : ℕ) → q < r.1 → is_free r.0 q ≡ is_free xs q
  pub gone : (q : ℕ) → r.1 ≤ q → q < n → is_free xs q ≡ true
  pub ends : (r.1 ≡ 0) ⊎ (is_free r.0 (r.1 - 1) ≡ false)

All-is_free : (P : ℕ → Type 0) (xs : List ℕ) → ((q : ℕ) → is_free xs q ≡ true → P q) → All P xs
unfolding is_free
All-is_free P [] h = tt
All-is_free P (x ∷ xs) h = (h x (ground arith), All-is_free P xs (λ q e. h q (ground arith)))

trim_last-Trimmed :
    (x : ℕ) (xs : List ℕ) (n : ℕ) (r : List ℕ × ℕ)
    → n < 2 ^ 32
    → Ascending (x ∷ xs)
    → All (λ p. p < n) (x ∷ xs)
    → Trimmed xs n r
    → Trimmed (x ∷ xs) n (trim_last x r.0 r.1)
unfolding is_free
trim_last-Trimmed x xs n (ys, m) small asc below t = go ys refl
  where
    behind : (q : ℕ) → is_free xs q ≡ true → x < q
    behind q e = is_free-All (λ (y : ℕ). x < y) xs q asc.0 e

    front : x < m
    front = ground (arith, below.0, behind x, t.gone x)

    wrap : (x + 1) % 2 ^ 32 ≡ x + 1
    wrap = mod-eq_of_lt (omega (arith, below.0))

    go : (zs : List ℕ) → ys ≡ zs → Trimmed (x ∷ xs) n (trim_last x zs m)
    go [] e =
        let none_left = λ (q : ℕ) (l : q < m). t.same q l in
        let empty = λ (q : ℕ). ap (λ (l : List ℕ). is_free l q) e in
        elim (Bool-cases ((x + 1) % 2 ^ 32 == m)) [
          | inl last ↦ rw last (record {
            fewer = omega (arith, t.fewer);
            ascending = tt;
            below = tt;
            same = λ q l. ground (arith, t.same q, empty q);
            gone = λ q l k. ground (arith, t.gone q);
            ends = inr refl;
          })
          | inr apart ↦ rw apart (record {
            fewer = t.fewer;
            ascending = (tt, tt);
            below = (front, tt);
            same = λ q l. ground (arith, t.same q l, empty q);
            gone = λ q l k. ground (arith, t.gone q l k);
            ends = inr (ground (arith, front, wrap));
          })
        ]
    go (z ∷ zs) e =
        let here = λ (q : ℕ). ap (λ (l : List ℕ). is_free l q) e in
        let asc' : Ascending (z ∷ zs) = subst Ascending e t.ascending in
        let below' : All (λ p. p < m) (z ∷ zs) = subst (All (λ p. p < m)) e t.below in
        let later = λ (q : ℕ) (f : is_free (z ∷ zs) q ≡ true).
          behind q
            (sym (t.same q (is_free-All (λ (p : ℕ). p < m) (z ∷ zs) q below' f)) ∙ (here q ∙ f)) in
        record {
          fewer = t.fewer;
          ascending = (All-is_free (λ y. x < y) (z ∷ zs) later, asc');
          below = (front, below');
          same = λ q l. ground (arith, t.same q l, here q);
          gone = λ q l k. ground (arith, t.gone q l k);
          ends = ground (arith, t.ends, here (m - 1), below'.0, later z);
        }

pub trim_loop-Trimmed :
    (xs : List ℕ) (n : ℕ)
    → n < 2 ^ 32
    → Ascending xs
    → All (λ p. p < n) xs
    → Trimmed xs n (trim_loop xs n)
unfolding trim_loop is_free
trim_loop-Trimmed [] n small asc below = record {
  fewer = omega arith;
  ascending = tt;
  below = tt;
  same = λ q l. refl;
  gone = λ q l k. absurd (omega arith);
  ends = inr refl;
}
trim_loop-Trimmed (x ∷ xs) n small asc below =
    trim_last-Trimmed x xs n (trim_loop xs n) small asc below
      (trim_loop-Trimmed xs n small asc.1 below.1)
