-- ===== src/Recovery/Redo/Reached.antt =====
-- What the redo pass of recovery/recovery_manager.cpp leaves on the pages.
use granite_db.Prelude.{
  ℕ, ◌^◌, ◌≤◌, ◌<◌, ◌≡◌, refl, ap, Bool, true, false, List, [], ◌∷◌, ◌++◌, Option, none, some, ok,
  ltb, length, arith, All, ◌∙◌, Bool-cases, inl, inr,
}
use granite_db.Prelude.Dict.{find, nat_eq}
use granite_db.Types.{PageId, page_size, page_id_eq, page_id_key}
use granite_db.Wal.{LogRecord}
use granite_db.Recovery.Storage.{Storage, StorageLaws, get_page_lsn, set_page_lsn}
use granite_db.Recovery.Redo.{
  apply_image, redo_applies, redo_start_lsn, should_redo_record, redo_record, redo_step, redo_loop,
  redo,
}
use granite_db.Recovery.Redo.Steps.{
  redo_applies-start, empty_table, lsn_of, Reached, apply_image-ok, should_redo_record-ok,
  redo_step-ok, redo_loop-cons, redo_loop_mono,
}

module _ {S : Type 0} (d : Storage S) (laws : StorageLaws d) where
  redo_loop-Reached :
      (start : ℕ) (table : List (PageId × ℕ)) (pre post : List LogRecord) (rec : LogRecord)
      (s s' : S)
      → redo_loop d start table (pre ++ rec ∷ post) s ≡ ok s'
      → All (λ r. r.lsn < 2 ^ 64) (pre ++ rec ∷ post)
      → redo_applies table rec ≡ true
      → start ≤ rec.lsn
      → Reached d laws rec.page_id rec.lsn s'
  unfolding Reached
  redo_loop-Reached start table [] post rec s s' e h a b =
      let (u, e1, rest) = redo_loop-cons d laws start table rec post s s' e in
      omega (
        arith,
        (redo_step-ok d laws start table rec s u e1 h.0 rec.page_id).1 a b,
        redo_loop_mono d laws start table post u s' rest h.1 rec.page_id,
      )
  redo_loop-Reached start table (r ∷ pre) post rec s s' e h a b =
      let (u, e1, rest) = redo_loop-cons d laws start table r (pre ++ rec ∷ post) s s' e in
      redo_loop-Reached start table pre post rec u s' rest h.1 a b

  unfoldable pub HasPages : List (PageId × ℕ) → S → Type 0
  HasPages table s =
      (p : PageId) (lsn : ℕ)
      → find p table ≡ some lsn
      → (page : List ℕ) × (laws.content p s ≡ some page)

  apply_image-returns :
      (p : PageId) (image : List ℕ) (lsn : ℕ) (s : S) (page : List ℕ)
      → laws.content p s ≡ some page
      → length image ≡ page_size
      → (u : S) × (apply_image d p image lsn s ≡ ok u)
  unfolding apply_image
  apply_image-returns p image lsn s page c l = (
    d.unpin_page p true (d.store_page p (set_page_lsn lsn image) (d.fetch_page p s).0),
    ground (arith, laws.fetch_result p s),
  )

  apply_image-HasPages :
      (table : List (PageId × ℕ)) (p : PageId) (image : List ℕ) (lsn : ℕ) (s s' : S)
      → apply_image d p image lsn s ≡ ok s'
      → HasPages table s
      → HasPages table s'
  unfolding HasPages
  apply_image-HasPages table p image lsn s s' e h q l f = elim (Bool-cases (page_id_eq p q)) [
    | inl same ↦
        (set_page_lsn lsn image, ground (arith, apply_image-ok d laws p image lsn s s' e q))
    | inr other ↦
        ((h q l f).0, ground (arith, (h q l f).1, apply_image-ok d laws p image lsn s s' e q))
  ]

  should_redo_record-HasPages :
      (table : List (PageId × ℕ)) (rec : LogRecord) (s s' : S) (b : Bool)
      → should_redo_record d table rec s ≡ ok (s', b)
      → HasPages table s
      → HasPages table s'
  unfolding HasPages
  should_redo_record-HasPages table rec s s' b e h q l f =
      ((h q l f).0, (should_redo_record-ok d laws table rec s s' b e q).0 ∙ (h q l f).1)

  should_redo_record-returns :
      (table : List (PageId × ℕ)) (rec : LogRecord) (s : S)
      → HasPages table s
      → (u : S × Bool) × (should_redo_record d table rec s ≡ ok u)
        × (u.1 ≡ true
            → (redo_applies table rec ≡ true)
              × ((page : List ℕ) × (laws.content rec.page_id s ≡ some page)))
  unfolding should_redo_record HasPages redo_applies
  should_redo_record-returns table rec s h = elim (Bool-cases (redo_applies table rec)) [
    | inr a ↦ ((s, false), ground arith, λ e. ground arith)
    | inl a ↦ go (find rec.page_id table) refl a
  ]
    where
      go :
          (f : Option ℕ)
          → find rec.page_id table ≡ f
          → redo_applies table rec ≡ true
          → (u : S × Bool) × (should_redo_record d table rec s ≡ ok u)
            × (u.1 ≡ true
                → (redo_applies table rec ≡ true)
                  × ((page : List ℕ) × (laws.content rec.page_id s ≡ some page)))
      go none e a = ground arith
      go (some l) e a =
          let (page, c) = h rec.page_id l e in
          (
            (
              d.unpin_page rec.page_id false (d.fetch_page rec.page_id s).0,
              ltb (get_page_lsn page) rec.lsn,
            ),
            ground (arith, laws.fetch_result rec.page_id s),
            λ _. (a, (page, c)),
          )

  redo_step-returns :
      (start : ℕ) (table : List (PageId × ℕ)) (rec : LogRecord) (s : S)
      → HasPages table s
      → (redo_applies table rec ≡ true → length rec.after_image ≡ page_size)
      → (u : S) × (redo_step d start table rec s ≡ ok u) × HasPages table u
  unfolding redo_step redo_record
  redo_step-returns start table rec s h i = elim (Bool-cases (ltb rec.lsn start)) [
    | inl skip ↦ (s, ground arith, h)
    | inr reached ↦ go (should_redo_record-returns table rec s h) reached
  ]
    where
      go :
          (u : S × Bool) × (should_redo_record d table rec s ≡ ok u)
            × (u.1 ≡ true
                → (redo_applies table rec ≡ true)
                  × ((page : List ℕ) × (laws.content rec.page_id s ≡ some page)))
          → ltb rec.lsn start ≡ false
          → (u : S) × (redo_step d start table rec s ≡ ok u) × HasPages table u
      go ((u, false), e, k) reached =
          (u, ground arith, should_redo_record-HasPages table rec s u false e h)
      go ((u, true), e, k) reached =
          let (a, (page, c)) = k refl in
          let (u', e') =
            apply_image-returns rec.page_id rec.after_image rec.lsn u page
              ((should_redo_record-ok d laws table rec s u true e rec.page_id).0 ∙ c) (i a) in
          (
            u',
            ground arith,
            apply_image-HasPages table rec.page_id rec.after_image rec.lsn u u' e'
                (should_redo_record-HasPages table rec s u true e h),
          )

  redo_loop-returns :
      (start : ℕ) (table : List (PageId × ℕ)) (recs : List LogRecord) (s : S)
      → HasPages table s
      → All (λ rec. redo_applies table rec ≡ true → length rec.after_image ≡ page_size) recs
      → (u : S) × (redo_loop d start table recs s ≡ ok u)
  unfolding redo_loop
  redo_loop-returns start table [] s h i = (s, refl)
  redo_loop-returns start table (rec ∷ recs) s h i =
      let (u, e, k) = redo_step-returns start table rec s h i.0 in
      let (v, f) = redo_loop-returns start table recs u k i.1 in (v, ground arith)

  -- Redo returns where every page in the dirty page table can be fetched and the images it applies
  -- are whole pages, and then every record that the table asks to be redone is on its page: the
  -- page's LSN is not below the record's. The LSNs of the records fit 64 bits.
  pub redo-Reached :
      (pre post : List LogRecord) (rec : LogRecord) (table : List (PageId × ℕ)) (s : S)
      → HasPages table s
      → All
          (λ r. redo_applies table r ≡ true → length r.after_image ≡ page_size)
          (pre ++ rec ∷ post)
      → All (λ r. r.lsn < 2 ^ 64) (pre ++ rec ∷ post)
      → redo_applies table rec ≡ true
      → (s' : S) × (redo d (pre ++ rec ∷ post) table s ≡ ok s')
        × Reached d laws rec.page_id rec.lsn s'
  unfolding redo Reached
  redo-Reached pre post rec [] s h i l a = absurd (empty_table rec a)
  redo-Reached pre post rec (entry ∷ table) s h i l a =
      let start : ℕ = redo_start_lsn (entry ∷ table) in
      let (u, e) = redo_loop-returns start (entry ∷ table) (pre ++ rec ∷ post) s h i in
      (
        d.flush_all_pages u,
        ground arith,
        omega (
          arith,
          ap lsn_of (laws.content-flush_all rec.page_id u),
          redo_loop-Reached start (entry ∷ table) pre post rec s u e l a
              (redo_applies-start (entry ∷ table) rec a),
        ),
      )
