-- ===== src/Tests/Buffering.antt =====
-- A pool of two frames with one page pinned, and the retirement of a page in use.
use granite_db.Prelude.{ℕ, ◌≡◌, refl, Bool, true, false, List, [], ◌∷◌, some, arith, suc}
use granite_db.Prelude.Dict.{find, assign, nat_eq}
use granite_db.Types.{PageId, no_page}
use granite_db.Buffer.{FrameDesc, frame_at, reset_frame, ClockReplacer, victim}
use granite_db.Buffer.Victim.{ageless, IsFree, victim-IsFree}
use granite_db.Buffer.Pool.{Files, BufferPool}
use granite_db.Buffer.Pool.Kept.{IsPinned, IsKept}
use granite_db.Buffer.Pool.Pinned.{deletes, makes, run_calls, calls-IsKept}
use granite_db.Retire.{PageRetireManager, enter_epoch, new_page_retire_manager}
use granite_db.Retire.Epochs.{Has, retired_page-Has, run, enters, drains, retires, is_exit_of}

abbrev pinned_frame : FrameDesc
pinned_frame = record {
  page_id = no_page;
  is_dirty = true;
  is_valid = true;
  pin_count = 1;
  usage_count = 2;
}

abbrev two_frames : List FrameDesc
two_frames = pinned_frame ∷ reset_frame ∷ []

abbrev clock : ClockReplacer
clock = record { pool_size = 2; clock_hand = 0 }

victim-IsFree_example :
    ((j : ℕ) → ageless (frame_at (victim clock two_frames).1 j) ≡ ageless (frame_at two_frames j))
    × ((i : ℕ)
        → (victim clock two_frames).2 ≡ some i
        → IsFree (frame_at (victim clock two_frames).1 i))
victim-IsFree_example = victim-IsFree clock two_frames

-- A disk that counts its pages.
abbrev counting : Files ℕ
counting = record {
  get_num_pages = λ relation_id n. n;
  read_page = λ page_id n. (n, 7 ∷ []);
  write_page = λ page_id bytes n. n;
  sync = λ relation_id n. n;
  allocate_page = λ relation_id n. (suc n, record { relation_id = relation_id; page_no = n });
  deallocate_page = λ page_id n. n;
  flush_up_to = λ lsn n. n;
}

abbrev pool : BufferPool ℕ
pool = record {
  pages = (9 ∷ []) ∷ [] ∷ [];
  frame_table = two_frames;
  page_table = (no_page, 0) ∷ [];
  dirty_page_table = [];
  replacer = clock;
  files = 3;
}

pool-IsPinned : IsPinned 0 pool
unfolding IsPinned frame_at
pool-IsPinned = (refl, omega arith)

calls-IsKept_example :
    IsKept 0 pool (run_calls counting (makes 1 ∷ deletes no_page ∷ makes 2 ∷ []) pool)
unfolding frame_at
calls-IsKept_example =
    calls-IsKept counting (makes 1 ∷ deletes no_page ∷ makes 2 ∷ []) 0 pool pool-IsPinned
      (omega arith)

abbrev entered : PageRetireManager
entered = record { global_epoch = 1; active_epochs = (1, 1) ∷ []; retired_pages = [] }

entered-new : (enter_epoch new_page_retire_manager).0 ≡ entered
unfolding enter_epoch find assign
entered-new = refl

abbrev frees : PageId → ℕ → ℕ × Bool
frees page_id n = (suc n, true)

one_active : find 1 entered.active_epochs ≡ some 1
unfolding find
one_active = refl

no_exit : (is_exit_of frees 1 (enters) ≡ false) × ((is_exit_of frees 1 drains ≡ false) × Unit {0})
unfolding is_exit_of
no_exit = (refl, (refl, tt))

retired_page-Has_example :
    Has
      (record { page_id = no_page; retire_epoch = 2 })
      (run frees (retires no_page ∷ enters ∷ drains ∷ []) entered 0).0.retired_pages
retired_page-Has_example =
    retired_page-Has frees no_page 1 1 entered 0 (enters ∷ drains ∷ []) one_active (omega arith)
      no_exit
