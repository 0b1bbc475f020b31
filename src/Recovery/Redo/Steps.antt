-- ===== src/Recovery/Redo/Steps.antt =====
-- What each step of the redo pass does to the pages' LSNs: recovery/recovery_manager.cpp.
use granite_db.Prelude.{
  ℕ, ◌^◌, ◌≤◌, ◌<◌, ◌≡◌, refl, Bool, true, false, List, [], ◌∷◌, Option, none, some, Result, ok,
  err, ltb, if◌then◌else◌, arith, All, ◌⊎◌, inl, inr,
}
use granite_db.Prelude.Dict.{find, nat_eq}
use granite_db.Types.{PageId, page_id_eq, page_id_eq_iff, page_id_key}
use granite_db.Wal.{LogRecord}
use granite_db.Recovery.Storage.{
  Storage, StorageLaws, get_page_lsn, set_page_lsn, get_page_lsn-set_page_lsn,
}
use granite_db.Recovery.Redo.{
  RecoveryError, apply_image, redo_applies, redo_start_lsn, should_redo_record, redo_record,
  redo_step, redo_loop,
}

redo_start_lsn-le :
    (table : List (PageId × ℕ)) (p : PageId) (rec_lsn : ℕ)
    → find p table ≡ some rec_lsn
    → redo_start_lsn table ≤ rec_lsn
unfolding redo_start_lsn find
redo_start_lsn-le [] p rec_lsn e = ground arith
redo_start_lsn-le ((q, l) ∷ table) p rec_lsn e = ground (arith, redo_start_lsn-le table p rec_lsn)

pub redo_applies-start :
    (table : List (PageId × ℕ)) (rec : LogRecord)
    → redo_applies table rec ≡ true
    → redo_start_lsn table ≤ rec.lsn
unfolding redo_applies
redo_applies-start table rec a = go (find rec.page_id table) refl
  where
    go : (f : Option ℕ) → find rec.page_id table ≡ f → redo_start_lsn table ≤ rec.lsn
    go none e = ground arith
    go (some l) e = ground (arith, redo_start_lsn-le table rec.page_id l e)

pub empty_table : (rec : LogRecord) → redo_applies [] rec ≡ true → ⊥
unfolding redo_applies find
empty_table rec a = ground arith

unfoldable pub lsn_of : Option (List ℕ) → ℕ
lsn_of none = 0
lsn_of (some page) = get_page_lsn page

module _ {S : Type 0} (d : Storage S) (laws : StorageLaws d) where
  -- The page's LSN is not below `lsn`.
  unfoldable pub Reached : PageId → ℕ → S → Type 0
  Reached p lsn s = lsn ≤ lsn_of (laws.content p s)

  pub apply_image-ok :
      (p : PageId) (image : List ℕ) (lsn : ℕ) (s s' : S)
      → apply_image d p image lsn s ≡ ok s'
      → (q : PageId)
      → laws.content q s'
        ≡ (if page_id_eq p q then some (set_page_lsn lsn image) else laws.content q s)
  unfolding apply_image
  apply_image-ok p image lsn s s' e q = ground (
    arith,
    laws.content-fetch p q s,
    laws.content-store p q (set_page_lsn lsn image) (d.fetch_page p s).0,
    laws.content-unpin p q true (d.store_page p (set_page_lsn lsn image) (d.fetch_page p s).0),
  )

  pub should_redo_record-ok :
      (table : List (PageId × ℕ)) (rec : LogRecord) (s s' : S) (b : Bool)
      → should_redo_record d table rec s ≡ ok (s', b)
      → (q : PageId)
      → (laws.content q s' ≡ laws.content q s)
        × (redo_applies table rec ≡ true
            → b ≡ false
            → rec.lsn ≤ lsn_of (laws.content rec.page_id s))
        × (b ≡ true → lsn_of (laws.content rec.page_id s) < rec.lsn)
  unfolding should_redo_record lsn_of
  should_redo_record-ok table rec s s' b e q = ground (
    arith,
    laws.fetch_result rec.page_id s,
    laws.content-fetch rec.page_id q s,
    laws.content-unpin rec.page_id q false (d.fetch_page rec.page_id s).0,
  )

  lsn_of-apply_image :
      (p : PageId) (image : List ℕ) (lsn : ℕ) (s s' : S)
      → apply_image d p image lsn s ≡ ok s'
      → lsn < 2 ^ 64
      → (q : PageId)
      → lsn_of (laws.content q s') ≡ (if page_id_eq p q then lsn else lsn_of (laws.content q s))
  unfolding lsn_of
  lsn_of-apply_image p image lsn s s' e h q =
      ground (arith, apply_image-ok p image lsn s s' e q, get_page_lsn-set_page_lsn lsn image h)

  -- What a round of Redo does to the page LSNs.
  pub redo_step-ok :
      (start : ℕ) (table : List (PageId × ℕ)) (rec : LogRecord) (s s' : S)
      → redo_step d start table rec s ≡ ok s'
      → rec.lsn < 2 ^ 64
      → (q : PageId)
      → (lsn_of (laws.content q s) ≤ lsn_of (laws.content q s'))
        × (redo_applies table rec ≡ true → start ≤ rec.lsn → Reached rec.page_id rec.lsn s')
  unfolding redo_step redo_record Reached
  redo_step-ok start table rec s s' e h q = go (should_redo_record d table rec s) refl
    where
      Kept : Type 0
      Kept =
          (lsn_of (laws.content q s) ≤ lsn_of (laws.content q s'))
          × (redo_applies table rec ≡ true → start ≤ rec.lsn → Reached rec.page_id rec.lsn s')

      go : (res : Result RecoveryError (S × Bool)) → should_redo_record d table rec s ≡ res → Kept
      go (err x) e1 = ground arith
      go (ok (u, false)) e1 = ground (
        arith,
        should_redo_record-ok table rec s u false e1 q,
        should_redo_record-ok table rec s u false e1 rec.page_id,
      )
      go (ok (u, true)) e1 =
          let applied : (apply_image d rec.page_id rec.after_image rec.lsn u ≡ ok s')
              ⊎ (ltb rec.lsn start ≡ true) =
            ground arith in
          elim applied [
            | inl a ↦ ground (
              arith,
              should_redo_record-ok table rec s u true e1 q,
              lsn_of-apply_image rec.page_id rec.after_image rec.lsn u s' a h q,
              lsn_of-apply_image rec.page_id rec.after_image rec.lsn u s' a h rec.page_id,
              page_id_eq_iff rec.page_id q,
              page_id_eq_iff rec.page_id rec.page_id,
            )
            | inr skip ↦ ground arith
          ]

  pub redo_loop-cons :
      (start : ℕ) (table : List (PageId × ℕ)) (rec : LogRecord) (recs : List LogRecord) (s s' : S)
      → redo_loop d start table (rec ∷ recs) s ≡ ok s'
      → (u : S) × (redo_step d start table rec s ≡ ok u) × (redo_loop d start table recs u ≡ ok s')
  unfolding redo_loop
  redo_loop-cons start table rec recs s s' e = go (redo_step d start table rec s) refl
    where
      go :
          (res : Result RecoveryError S)
          → redo_step d start table rec s ≡ res
          → (u : S) × (redo_step d start table rec s ≡ ok u)
            × (redo_loop d start table recs u ≡ ok s')
      go (err x) e1 = ground arith
      go (ok u) e1 = (u, e1, ground arith)

  pub redo_loop_mono :
      (start : ℕ) (table : List (PageId × ℕ)) (recs : List LogRecord) (s s' : S)
      → redo_loop d start table recs s ≡ ok s'
      → All (λ rec. rec.lsn < 2 ^ 64) recs
      → (q : PageId) → lsn_of (laws.content q s) ≤ lsn_of (laws.content q s')
  unfolding redo_loop
  redo_loop_mono start table [] s s' e h q = ground arith
  redo_loop_mono start table (rec ∷ recs) s s' e h q =
      let (u, e1, rest) = redo_loop-cons start table rec recs s s' e in
      omega (
        arith,
        (redo_step-ok start table rec s u e1 h.0 q).0,
        redo_loop_mono start table recs u s' rest h.1 q,
      )
