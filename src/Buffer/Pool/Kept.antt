-- ===== src/Buffer/Pool/Kept.antt =====
-- What FlushFrame, PrepareFrame and the loading of a page leave of a pinned frame:
-- buffer/buffer_pool_manager.cpp.
use granite_db.Prelude.{
  ℕ, zero, suc, ◌≤◌, ◌<◌, ◌≡◌, refl, subst, ◌∙◌, true, false, List, [], ◌∷◌, Option, none, some,
  inl, inr, set, ◌+◌, ◌==◌, ==_iff, arith, Bool-cases,
}
use granite_db.Types.{PageId, page_id_key}
use granite_db.Buffer.{FrameDesc, reset_frame, frame_at, victim}
use granite_db.Buffer.Victim.{ageless, frame_at-set, IsFree, victim-IsFree}
use granite_db.Buffer.Pool.{
  Files, BufferPool, page_at, reset_memory, flush_frame, empty_frame, prepare_frame, loaded_frame,
  load,
}

pub page_at-set :
    (pages : List (List ℕ)) (i j : ℕ) (page : List ℕ)
    → (i == j) ≡ false
    → page_at (set pages i page) j ≡ page_at pages j
unfolding page_at
page_at-set [] i j page h = ground arith
page_at-set (p ∷ ps) zero zero page h = ground arith
page_at-set (p ∷ ps) zero (suc j) page h = ground arith
page_at-set (p ∷ ps) (suc i) zero page h = ground arith
page_at-set (p ∷ ps) (suc i) (suc j) page h = ground (arith, page_at-set ps i j page)

module _ {D : Type 0} where
  unfoldable pub IsPinned : ℕ → BufferPool D → Type 0
  IsPinned j b =
      ((frame_at b.frame_table j).is_valid ≡ true) × (0 < (frame_at b.frame_table j).pin_count)

  -- Frame `j` holds the same page with the same bytes, and no pin is lost.
  unfoldable pub IsKept : ℕ → BufferPool D → BufferPool D → Type 0
  IsKept j b b' =
      ((frame_at b'.frame_table j).page_id ≡ (frame_at b.frame_table j).page_id)
      × ((frame_at b'.frame_table j).is_valid ≡ (frame_at b.frame_table j).is_valid)
      × ((frame_at b.frame_table j).pin_count ≤ (frame_at b'.frame_table j).pin_count)
      × (page_at b'.pages j ≡ page_at b.pages j)

  -- The same, with at most `n` pins more.
  unfoldable pub IsKeptUpTo : ℕ → ℕ → BufferPool D → BufferPool D → Type 0
  unfolding IsKept
  IsKeptUpTo n j b b' =
      IsKept j b b'
      × ((frame_at b'.frame_table j).pin_count ≤ (frame_at b.frame_table j).pin_count + n)

  pub IsKept-trans : (j : ℕ) (a b c : BufferPool D) → IsKept j a b → IsKept j b c → IsKept j a c
  unfolding IsKept
  IsKept-trans j a b c h k = (k.0 ∙ h.0, k.1 ∙ h.1, omega arith, k.3 ∙ h.3)

  IsKeptUpTo-trans :
      (j : ℕ) (a b c : BufferPool D) → IsKeptUpTo 0 j a b → IsKeptUpTo 0 j b c → IsKeptUpTo 0 j a c
  unfolding IsKeptUpTo
  IsKeptUpTo-trans j a b c h k = (IsKept-trans j a b c h.0 k.0, omega arith)

module _ {D : Type 0} (d : Files D) where
  pub flush_frame-IsKeptUpTo : (i j : ℕ) (b : BufferPool D) → IsKeptUpTo 0 j b (flush_frame d i b)
  unfolding flush_frame IsKeptUpTo
  flush_frame-IsKeptUpTo i j b =
      let clean : FrameDesc = record (frame_at b.frame_table i) { is_dirty = false } in
      ground (arith, frame_at-set b.frame_table i j clean, ==_iff i j)

  empty_frame-IsKeptUpTo :
      (i j : ℕ) (b : BufferPool D) → (i == j) ≡ false → IsKeptUpTo 0 j b (empty_frame d i b)
  unfolding empty_frame IsKeptUpTo
  empty_frame-IsKeptUpTo i j b h =
      let flushed : BufferPool D = flush_frame d i b in
      ground (
        arith,
        flush_frame-IsKeptUpTo i j b,
        frame_at-set flushed.frame_table i j reset_frame,
        frame_at-set b.frame_table i j reset_frame,
        page_at-set flushed.pages i j reset_memory h,
        page_at-set b.pages i j reset_memory h,
      )

  moved-IsKeptUpTo :
      (j : ℕ) (b : BufferPool D)
      → IsKeptUpTo 0 j b (record b {
        replacer = (victim b.replacer b.frame_table).0;
        frame_table = (victim b.replacer b.frame_table).1;
      })
  unfolding IsKeptUpTo ageless
  moved-IsKeptUpTo j b = ground (arith, (victim-IsFree b.replacer b.frame_table).0 j)

  victim-apart :
      (i j : ℕ) (b : BufferPool D)
      → IsPinned j b
      → (victim b.replacer b.frame_table).2 ≡ some i
      → (i == j) ≡ false
  unfolding IsPinned IsFree ageless
  victim-apart i j b p e = elim (Bool-cases (i == j)) [
    | inr apart ↦ apart
    | inl same ↦ ground (
      arith,
      ==_iff i j,
      (victim-IsFree b.replacer b.frame_table).0 i,
      (victim-IsFree b.replacer b.frame_table).1 i e,
    )
  ]

  -- The frame that PrepareFrame empties is not a pinned one.
  pub prepare_frame-IsKeptUpTo :
      (j : ℕ) (b : BufferPool D)
      → IsPinned j b
      → IsKeptUpTo 0 j b (prepare_frame d b).0
        × ((i : ℕ) → (prepare_frame d b).1 ≡ some i → (i == j) ≡ false)
  unfolding prepare_frame IsPinned
  prepare_frame-IsKeptUpTo j b p = go (victim b.replacer b.frame_table).2 refl
    where
      moved : BufferPool D
      moved = record b {
        replacer = (victim b.replacer b.frame_table).0;
        frame_table = (victim b.replacer b.frame_table).1;
      }

      result : Option ℕ → BufferPool D × Option ℕ
      result none = (moved, none)
      result (some i) = (empty_frame d i moved, some i)

      go :
          (o : Option ℕ)
          → (victim b.replacer b.frame_table).2 ≡ o
          → IsKeptUpTo 0 j b (result o).0 × ((i : ℕ) → (result o).1 ≡ some i → (i == j) ≡ false)
      go none e = (moved-IsKeptUpTo j b, λ i f. ground arith)
      go (some i) e =
          let apart : (i == j) ≡ false = victim-apart i j b p e in
          (
            IsKeptUpTo-trans j b moved (empty_frame d i moved) (moved-IsKeptUpTo j b)
                (empty_frame-IsKeptUpTo i j moved apart),
            λ k f. let same : i ≡ k = ground arith in subst (λ x. (x == j) ≡ false) same apart,
          )

  load-IsKeptUpTo :
      (page_id : PageId) (bytes : List ℕ) (i j : ℕ) (b : BufferPool D)
      → (i == j) ≡ false
      → IsKeptUpTo 0 j b (load d page_id bytes i b)
  unfolding load IsKeptUpTo
  load-IsKeptUpTo page_id bytes i j b h = ground (
    arith,
    frame_at-set b.frame_table i j (loaded_frame d page_id),
    page_at-set b.pages i j bytes h,
  )

  pub prepared_load-IsKeptUpTo :
      (j : ℕ) (b : BufferPool D)
      → IsPinned j b
      → (page_id : PageId) (bytes : List ℕ) (i : ℕ) (files : D) → (prepare_frame d b).1 ≡ some i
      → IsKeptUpTo 0 j b (load d page_id bytes i (record (prepare_frame d b).0 { files = files }))
  unfolding IsKeptUpTo
  prepared_load-IsKeptUpTo j b h page_id bytes i files e =
      let kept = prepare_frame-IsKeptUpTo j b h in
      IsKeptUpTo-trans j b (record (prepare_frame d b).0 { files = files })
        (load d page_id bytes i (record (prepare_frame d b).0 { files = files })) kept.0
        (load-IsKeptUpTo page_id bytes i j (record (prepare_frame d b).0 { files = files })
          (kept.1 i e))
