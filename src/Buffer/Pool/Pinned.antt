-- ===== src/Buffer/Pool/Pinned.antt =====
-- A pinned page stays in its frame: buffer/buffer_pool_manager.cpp.
use granite_db.Prelude.{
  ℕ, ◌<◌, ◌≡◌, refl, ◌∙◌, List, [], ◌∷◌, Option, none, some, inl, inr, length, ◌+◌, ◌%◌, ◌^◌, ◌==◌,
  ==_iff, arith, Bool-cases,
}
use granite_db.Prelude.Dict.{find}
use granite_db.Types.{PageId, page_id_key}
use granite_db.Recovery.Storage.{set_page_lsn}
use granite_db.Buffer.{FrameDesc, reset_frame, frame_at, record_access}
use granite_db.Buffer.Victim.{frame_at-set}
use granite_db.Buffer.Pool.{
  Files, BufferPool, reset_memory, prepare_frame, fetch_page, new_page, delete_page, flush_page,
}
use granite_db.Buffer.Pool.Kept.{
  page_at-set, IsPinned, IsKept, IsKeptUpTo, IsKept-trans, flush_frame-IsKeptUpTo,
  prepare_frame-IsKeptUpTo, prepared_load-IsKeptUpTo,
}

module _ {D : Type 0} (d : Files D) where
  -- The operations that other threads may call while a page is pinned.
  pub data Call : Type 0 where
    fetches deletes flushes : PageId → Call
    makes : ℕ → Call

  unfoldable pub call : Call → BufferPool D → BufferPool D
  call (fetches p) b = (fetch_page d p b).0
  call (deletes p) b = (delete_page d p b).0
  call (flushes p) b = (flush_page d p b).0
  call (makes relation_id) b = (new_page d relation_id b).0

  fetch_page-IsKeptUpTo :
      (p : PageId) (j : ℕ) (b : BufferPool D)
      → IsPinned j b
      → (frame_at b.frame_table j).pin_count + 1 < 2 ^ 32
      → IsKeptUpTo 1 j b (fetch_page d p b).0
  unfolding fetch_page IsKeptUpTo record_access
  fetch_page-IsKeptUpTo p j b h short = go (find p b.page_table) refl
    where
      prepared : BufferPool D × Option ℕ
      prepared = prepare_frame d b

      read : D × List ℕ
      read = d.read_page p prepared.0.files

      filled :
          (o : Option ℕ)
          → prepared.1 ≡ o
          → find p b.page_table ≡ none
          → IsKeptUpTo 1 j b (fetch_page d p b).0
      filled none e f = ground (arith, (prepare_frame-IsKeptUpTo d j b h).0)
      filled (some i) e f =
          let kept = prepared_load-IsKeptUpTo d j b h p read.1 i read.0 e in ground (arith, kept)

      go : (o : Option ℕ) → find p b.page_table ≡ o → IsKeptUpTo 1 j b (fetch_page d p b).0
      go none e = filled prepared.1 refl e
      go (some i) e =
          let frame : FrameDesc = frame_at b.frame_table i in
          let pinned : FrameDesc =
            record_access (record frame { pin_count = (frame.pin_count + 1) % 2 ^ 32 }) in
          ground (arith, frame_at-set b.frame_table i j pinned, ==_iff i j)

  delete_page-IsKeptUpTo :
      (p : PageId) (j : ℕ) (b : BufferPool D)
      → IsPinned j b
      → IsKeptUpTo 0 j b (delete_page d p b).0
  unfolding delete_page IsKeptUpTo IsPinned
  delete_page-IsKeptUpTo p j b h = go (find p b.page_table) refl
    where
      go : (o : Option ℕ) → find p b.page_table ≡ o → IsKeptUpTo 0 j b (delete_page d p b).0
      go none e = ground arith
      go (some i) e = elim (Bool-cases (i == j)) [
        | inl same ↦ ground (arith, ==_iff i j)
        | inr apart ↦ ground (
          arith,
          frame_at-set b.frame_table i j reset_frame,
          page_at-set b.pages i j reset_memory apart,
        )
      ]

  new_page-IsKeptUpTo :
      (relation_id j : ℕ) (b : BufferPool D)
      → IsPinned j b
      → IsKeptUpTo 0 j b (new_page d relation_id b).0
  unfolding new_page IsKeptUpTo
  new_page-IsKeptUpTo relation_id j b h = go (prepare_frame d b).1 refl
    where
      made : D × PageId
      made = d.allocate_page relation_id (prepare_frame d b).0.files

      go :
          (o : Option ℕ) → (prepare_frame d b).1 ≡ o → IsKeptUpTo 0 j b (new_page d relation_id b).0
      go none e = ground (arith, (prepare_frame-IsKeptUpTo d j b h).0)
      go (some i) e =
          let kept =
            prepared_load-IsKeptUpTo d j b h made.1 (set_page_lsn 0 reset_memory) i made.0 e in
          ground (arith, kept)

  flush_page-IsKeptUpTo :
      (p : PageId) (j : ℕ) (b : BufferPool D) → IsKeptUpTo 0 j b (flush_page d p b).0
  unfolding flush_page IsKeptUpTo
  flush_page-IsKeptUpTo p j b = go (find p b.page_table) refl
    where
      go : (o : Option ℕ) → find p b.page_table ≡ o → IsKeptUpTo 0 j b (flush_page d p b).0
      go none e = ground arith
      go (some i) e = ground (arith, flush_frame-IsKeptUpTo d i j b)

  call-IsKeptUpTo :
      (c : Call) (j : ℕ) (b : BufferPool D)
      → IsPinned j b
      → (frame_at b.frame_table j).pin_count + 1 < 2 ^ 32
      → IsKeptUpTo 1 j b (call c b)
  unfolding call IsKeptUpTo
  call-IsKeptUpTo (fetches p) j b h short = fetch_page-IsKeptUpTo p j b h short
  call-IsKeptUpTo (deletes p) j b h short =
      let same = delete_page-IsKeptUpTo p j b h in (same.0, omega arith)
  call-IsKeptUpTo (flushes p) j b h short =
      let same = flush_page-IsKeptUpTo p j b in (same.0, omega arith)
  call-IsKeptUpTo (makes relation_id) j b h short =
      let same = new_page-IsKeptUpTo relation_id j b h in (same.0, omega arith)

  unfoldable pub run_calls : List Call → BufferPool D → BufferPool D
  run_calls [] b = b
  run_calls (c ∷ calls) b = run_calls calls (call c b)

  -- Whatever pages are fetched, made, flushed or deleted meanwhile, a pinned page stays in its
  -- frame with its bytes, and loses no pin, if the calls are too few to wrap its pin count.
  pub calls-IsKept :
      (calls : List Call) (j : ℕ) (b : BufferPool D)
      → IsPinned j b
      → (frame_at b.frame_table j).pin_count + length calls < 2 ^ 32
      → IsKept j b (run_calls calls b)
  unfolding run_calls IsPinned IsKept IsKeptUpTo
  calls-IsKept [] j b h short = (refl, refl, omega arith, refl)
  calls-IsKept (c ∷ calls) j b h short =
      let first = call-IsKeptUpTo c j b h (omega arith) in
      IsKept-trans j b (call c b) (run_calls calls (call c b)) first.0
        (calls-IsKept calls j (call c b) (first.0.1 ∙ h.0, omega arith) (omega arith))
