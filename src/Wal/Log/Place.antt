-- ===== src/Wal/Log/Place.antt =====
-- Bytes that stand at a place of the log of recovery/log_manager.cpp, behind its master record.
use granite_db.Prelude.{
  ℕ, zero, suc, ◌+◌, ◌-◌, ◌≤◌, ◌≡◌, refl, sym, ap, ◌∙◌, List, [], ◌∷◌, ◌++◌, arith, length, take,
  drop, length-append, length-drop, append_assoc, take-append, drop-append,
}
use granite_db.Wal.Bytes.{write_pod, length-write_pod}
use granite_db.Wal.Log.{stream_read, write_master}

pub take-append_add :
    (xs ys : List ℕ) (n k : ℕ) → n ≡ length xs + k → take n (xs ++ ys) ≡ xs ++ take k ys
take-append_add [] ys n k e = ap (λ i. take i ys) (omega (arith, e))
take-append_add (x ∷ xs) ys zero k e = absurd (omega arith)
take-append_add (x ∷ xs) ys (suc n) k e = ap (◌∷◌ x) (take-append_add xs ys n k (omega arith))

drop-append_of_le : (n : ℕ) (xs ys : List ℕ) → n ≤ length xs → drop n (xs ++ ys) ≡ drop n xs ++ ys
drop-append_of_le zero xs ys h = refl
drop-append_of_le (suc n) [] ys h = absurd (omega arith)
drop-append_of_le (suc n) (x ∷ xs) ys h = drop-append_of_le n xs ys (omega arith)

pub record Stands (pos : ℕ) (part bytes : List ℕ) : Type 0 where
  pub before : List ℕ
  pub after : List ℕ
  pub whole : bytes ≡ before ++ (part ++ after)
  pub at : length before ≡ pos
  pub master : 8 ≤ pos

pub Stands-append :
    (pos : ℕ) (part bytes more : List ℕ) → Stands pos part bytes → Stands pos part (bytes ++ more)
Stands-append pos part bytes more h = record {
  before = h.before;
  after = h.after ++ more;
  whole =
      ap (λ b. b ++ more) h.whole
      ∙ append_assoc h.before (part ++ h.after) more
      ∙ ap (◌++◌ h.before) (append_assoc part h.after more);
  at = h.at;
  master = h.master;
}

pub Stands-write_master :
    (pos : ℕ) (part bytes : List ℕ) (lsn : ℕ)
    → Stands pos part bytes
    → Stands pos part (write_master bytes lsn)
Stands-write_master pos part bytes lsn h = record {
  before = write_pod 8 lsn ++ drop 8 h.before;
  after = h.after;
  whole =
      ap (λ b. write_pod 8 lsn ++ drop 8 b) h.whole
      ∙ ap (◌++◌ (write_pod 8 lsn))
          (drop-append_of_le 8 h.before (part ++ h.after) (omega (arith, h.at, h.master)))
      ∙ sym (append_assoc (write_pod 8 lsn) (drop 8 h.before) (part ++ h.after));
  at = omega (
    arith,
    length-append (write_pod 8 lsn) (drop 8 h.before),
    length-write_pod 8 lsn,
    length-drop 8 h.before,
    h.at,
    h.master,
  );
  master = h.master;
}

-- They are read from every prefix of the log that they lie in.
pub Stands-read :
    (pos n : ℕ) (part bytes : List ℕ)
    → Stands pos part bytes
    → pos + length part ≤ n
    → stream_read (take n bytes) pos (length part) ≡ part
unfolding stream_read
Stands-read pos n part bytes h k =
    let size = length-append h.before part in
    let shorter = take-append_add h.before (part ++ h.after) n (n - pos) (omega (arith, h.at)) in
    let rest = take-append_add part h.after (n - pos) (n - pos - length part) (omega arith) in
    ap (λ b. take (length part) (drop pos (take n b))) h.whole
    ∙ ap (λ b. take (length part) (drop pos b)) shorter
    ∙ ap (take (length part)) (drop-append h.before _ pos h.at)
    ∙ ap (take (length part)) rest
    ∙ take-append part _ (length part) refl
