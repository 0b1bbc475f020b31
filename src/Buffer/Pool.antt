-- ===== src/Buffer/Pool.antt =====
-- buffer/buffer_pool_manager.cpp. The disk manager and the log manager below it are an interface
-- on their state `D`; `flush_up_to` leaves the state where there is no log manager. A page is the
-- list of its bytes, a pointer to a page its frame. The calls of FaultInjector are left out.
pub mod Kept
pub mod Pinned
use granite_db.Prelude.{
  ℕ, zero, suc, ◌+◌, ◌-◌, ◌%◌, ◌^◌, Bool, true, false, not, ◌&&◌, List, [], ◌∷◌, Option, none, some,
  get_elem?, set, ltb, leb, ◌==◌, if◌then◌else◌, min, length,
}
use granite_db.Prelude.Dict.{find, assign, erase}
use granite_db.Types.{PageId, page_id_key, page_size}
use granite_db.Recovery.Storage.{get_page_lsn, set_page_lsn}
use granite_db.Buffer.{FrameDesc, reset_frame, frame_at, ClockReplacer, record_access, victim}

pub record Files (D : Type 0) : Type 0 where
  pub get_num_pages : ℕ → D → ℕ
  pub read_page : PageId → D → D × List ℕ
  pub write_page : PageId → List ℕ → D → D
  pub sync : ℕ → D → D
  pub allocate_page : ℕ → D → D × PageId
  pub deallocate_page : PageId → D → D
  pub flush_up_to : ℕ → D → D

pub record BufferPool (D : Type 0) : Type 0 where
  pub pages : List (List ℕ)
  pub frame_table : List FrameDesc
  pub page_table : List (PageId × ℕ)
  pub dirty_page_table : List (PageId × ℕ)
  pub replacer : ClockReplacer
  pub files : D

unfoldable pub page_at : List (List ℕ) → ℕ → List ℕ
page_at pages i = elim (get_elem? pages i) [ none ↦ [] | some page ↦ page ]

zeros : ℕ → List ℕ
zeros zero = []
zeros (suc n) = 0 ∷ zeros n

-- Page::ResetMemory.
unfoldable pub reset_memory : List ℕ
unfolding zeros
reset_memory = zeros page_size

module _ {D : Type 0} (d : Files D) where
  -- FlushFrame: the log first, then the page.
  unfoldable pub flush_frame : ℕ → BufferPool D → BufferPool D
  flush_frame i b =
      let frame = frame_at b.frame_table i in
      let page = page_at b.pages i in
      if frame.is_valid && frame.is_dirty
      then record b {
        files =
            d.sync frame.page_id.relation_id
              (d.write_page frame.page_id page (d.flush_up_to (get_page_lsn page) b.files));
        frame_table = set b.frame_table i (record frame { is_dirty = false });
        dirty_page_table = erase frame.page_id b.dirty_page_table;
      }
      else b

  -- The victim's page is written back and its frame emptied.
  unfoldable pub empty_frame : ℕ → BufferPool D → BufferPool D
  unfolding flush_frame
  empty_frame i b =
      let frame = frame_at b.frame_table i in
      let flushed = flush_frame i b in
      let unlisted : BufferPool D = record flushed {
        page_table = erase frame.page_id flushed.page_table;
      } in
      let kept : BufferPool D = if frame.is_valid then unlisted else b in
      record kept {
        pages = set kept.pages i reset_memory;
        frame_table = set kept.frame_table i reset_frame;
      }

  unfoldable pub prepare_frame : BufferPool D → BufferPool D × Option ℕ
  unfolding empty_frame
  prepare_frame b =
      let chosen = victim b.replacer b.frame_table in
      let moved : BufferPool D = record b { replacer = chosen.0; frame_table = chosen.1 } in
      elim chosen.2 [ none ↦ (moved, none) | some i ↦ (empty_frame i moved, some i) ]

  -- The frame of a page that was just read or made.
  unfoldable pub loaded_frame : PageId → FrameDesc
  loaded_frame page_id = record_access (record {
    page_id = page_id;
    is_valid = true;
    is_dirty = false;
    pin_count = 1;
    usage_count = 0;
  })

  unfoldable pub load : PageId → List ℕ → ℕ → BufferPool D → BufferPool D
  unfolding loaded_frame
  load page_id bytes i b = record b {
    pages = set b.pages i bytes;
    frame_table = set b.frame_table i (loaded_frame page_id);
    page_table = assign page_id i b.page_table;
  }

  unfoldable pub fetch_page : PageId → BufferPool D → BufferPool D × Option ℕ
  unfolding load
  fetch_page page_id b = elim (find page_id b.page_table) [
    | some i ↦
        let frame = frame_at b.frame_table i in
        (
          record b {
            frame_table =
                set b.frame_table i
                  (record_access (record frame { pin_count = (frame.pin_count + 1) % 2 ^ 32 }));
          },
          some i,
        )
    | none ↦
        if not (ltb page_id.page_no (d.get_num_pages page_id.relation_id b.files))
        then (b, none)
        else let prepared = prepare_frame b in
          elim prepared.1 [
            | none ↦ prepared
            | some i ↦
                let read = d.read_page page_id prepared.0.files in
                (load page_id read.1 i (record prepared.0 { files = read.0 }), some i)
          ]
  ]

  unfoldable pub new_page : ℕ → BufferPool D → BufferPool D × Option (ℕ × PageId)
  unfolding load
  new_page relation_id b =
      let prepared = prepare_frame b in
      elim prepared.1 [
        | none ↦ (prepared.0, none)
        | some i ↦
            let made = d.allocate_page relation_id prepared.0.files in
            (
              load made.1 (set_page_lsn 0 reset_memory) i (record prepared.0 { files = made.0 }),
              some (i, made.1),
            )
      ]

  unfoldable pub delete_page : PageId → BufferPool D → BufferPool D × Bool
  delete_page page_id b = elim (find page_id b.page_table) [
    | none ↦ (record b { files = d.deallocate_page page_id b.files }, true)
    | some i ↦ if ltb 0 (frame_at b.frame_table i).pin_count then (b, false) else (
      record b {
        dirty_page_table = erase page_id b.dirty_page_table;
        page_table = erase page_id b.page_table;
        pages = set b.pages i reset_memory;
        frame_table = set b.frame_table i reset_frame;
        files = d.deallocate_page page_id b.files;
      },
      true,
    )
  ]

  unfoldable pub unpin_page : PageId → Bool → BufferPool D → BufferPool D × Bool
  unpin_page page_id is_dirty b = elim (find page_id b.page_table) [
    | none ↦ (b, false)
    | some i ↦
        let frame = frame_at b.frame_table i in
        let rec_lsn = get_page_lsn (page_at b.pages i) in
        let lsn : ℕ = elim (find page_id b.dirty_page_table) [
          | none ↦ rec_lsn
          | some old ↦ min old rec_lsn
        ] in
        let unpinned : FrameDesc = record frame { pin_count = frame.pin_count - 1 } in
        if frame.pin_count == 0
        then (b, false)
        else if is_dirty
        then (
          record b {
            frame_table = set b.frame_table i (record unpinned { is_dirty = true });
            dirty_page_table = assign page_id lsn b.dirty_page_table;
          },
          true,
        )
        else (record b { frame_table = set b.frame_table i unpinned }, true)
  ]

  unfoldable pub flush_page : PageId → BufferPool D → BufferPool D × Bool
  flush_page page_id b = elim (find page_id b.page_table) [
    | none ↦ (b, false)
    | some i ↦ (flush_frame i b, true)
  ]

  -- The frames from `i` on; FlushFrame tests `is_valid` too.
  unfoldable pub flush_from : ℕ → ℕ → BufferPool D → BufferPool D
  flush_from zero i b = b
  flush_from (suc n) i b = flush_from n (suc i) (flush_frame i b)

  unfoldable pub flush_all_pages : BufferPool D → BufferPool D
  flush_all_pages b = flush_from b.replacer.pool_size 0 b
