-- ===== src/Retire.antt =====
-- concurrency/page_retire_manager.cpp: pages that are reclaimed when no operation that may still
-- see them is running. `reclaim` is the callback of a retired page, which may refuse, on a state
-- `W` of its own. The counters do not reach 2^64.
pub mod Epochs
use granite_db.Prelude.{
  ℕ, suc, ◌+◌, ◌-◌, ◌^◌, Bool, true, false, List, [], ◌∷◌, ◌++◌, Option, none, some, ltb, leb, ◌==◌,
  min, if◌then◌else◌,
}
use granite_db.Prelude.Dict.{find, assign, erase, nat_eq}
use granite_db.Types.{PageId}

pub record RetiredPageEntry : Type 0 where
  pub page_id : PageId
  pub retire_epoch : ℕ

pub record PageRetireManager : Type 0 where
  pub global_epoch : ℕ
  pub active_epochs : List (ℕ × ℕ)
  pub retired_pages : List RetiredPageEntry

abbrev pub new_page_retire_manager : PageRetireManager
new_page_retire_manager = record { global_epoch = 1; active_epochs = []; retired_pages = [] }

-- `active_epochs_[epoch]++`.
unfoldable pub enter_epoch : PageRetireManager → PageRetireManager × ℕ
enter_epoch m =
    let count : ℕ = elim (find m.global_epoch m.active_epochs) [ none ↦ 0 | some n ↦ n ] in
    (record m { active_epochs = assign m.global_epoch (suc count) m.active_epochs }, m.global_epoch)

-- The loop of ComputeSafeEpochLocked, from std::numeric_limits<uint64_t>::max().
unfoldable pub min_epoch : List (ℕ × ℕ) → ℕ
min_epoch [] = 2 ^ 64 - 1
min_epoch ((epoch, count) ∷ table) = min (min_epoch table) epoch

unfoldable pub compute_safe_epoch : PageRetireManager → ℕ
unfolding min_epoch
compute_safe_epoch m = elim m.active_epochs [
  | [] ↦ m.global_epoch
  | entry ∷ table ↦ let least = min_epoch (entry ∷ table) in if least == 0 then 0 else least - 1
]

unfoldable pub leave : ℕ → List (ℕ × ℕ) → List (ℕ × ℕ)
leave epoch table = elim (find epoch table) [
  | none ↦ table
  | some n ↦ if leb n 1 then erase epoch table else assign epoch (n - 1) table
]

module _ {W : Type 0} (reclaim : PageId → W → W × Bool) where
  -- The loop of TryReclaimLocked, with the pages it reclaims.
  unfoldable pub reclaim_loop :
      ℕ → List RetiredPageEntry → W → W × List RetiredPageEntry × List PageId
  reclaim_loop safe_epoch [] w = (w, [], [])
  reclaim_loop safe_epoch (entry ∷ entries) w = elim (ltb safe_epoch entry.retire_epoch) [
    | true ↦
        let (w', pending, freed) = reclaim_loop safe_epoch entries w in (w', entry ∷ pending, freed)
    | false ↦
        let (w1, done) = reclaim entry.page_id w in
        let (w', pending, freed) = reclaim_loop safe_epoch entries w1 in
        if done then (w', pending, entry.page_id ∷ freed) else (w', entry ∷ pending, freed)
  ]

  unfoldable pub try_reclaim : PageRetireManager → W → PageRetireManager × W × List PageId
  unfolding reclaim_loop compute_safe_epoch
  try_reclaim m w =
      let (w', pending, freed) = reclaim_loop (compute_safe_epoch m) m.retired_pages w in
      (record m { retired_pages = pending }, w', freed)

  unfoldable pub exit_epoch : ℕ → PageRetireManager → W → PageRetireManager × W × List PageId
  unfolding try_reclaim leave
  exit_epoch epoch m w = try_reclaim (record m { active_epochs = leave epoch m.active_epochs }) w

  unfoldable pub retire_page : PageId → PageRetireManager → W → PageRetireManager × W × List PageId
  unfolding try_reclaim
  retire_page page_id m w =
      let entry : RetiredPageEntry = record {
        page_id = page_id;
        retire_epoch = suc m.global_epoch;
      } in
      try_reclaim
        (record m {
          global_epoch = suc m.global_epoch;
          retired_pages = m.retired_pages ++ (entry ∷ []);
        })
        w

  unfoldable pub drain : PageRetireManager → W → PageRetireManager × W × List PageId
  unfolding try_reclaim
  drain m w = try_reclaim (record m { global_epoch = suc m.global_epoch }) w
