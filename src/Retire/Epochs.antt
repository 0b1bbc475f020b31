-- ===== src/Retire/Epochs.antt =====
-- What concurrency/page_retire_manager.cpp may reclaim.
use granite_db.Prelude.{
  ℕ, suc, ◌-◌, ◌≤◌, ◌<◌, ◌≡◌, refl, subst, Bool, false, List, [], ◌∷◌, ◌++◌, Option, none, some,
  ◌⊎◌, inl, inr, ==_iff, ◌==◌, Bool-cases, arith, All,
}
use granite_db.Prelude.Dict.{find, assign, find-assign, find-erase, nat_eq}
use granite_db.Types.{PageId}
use granite_db.Retire.{
  RetiredPageEntry, PageRetireManager, enter_epoch, min_epoch, compute_safe_epoch, leave,
  reclaim_loop, try_reclaim, exit_epoch, retire_page, drain,
}

unfoldable pub Has : RetiredPageEntry → List RetiredPageEntry → Type 0
Has entry [] = ⊥
Has entry (e ∷ es) = (entry ≡ e) ⊎ Has entry es

Has-append_right :
    (entry : RetiredPageEntry) (xs ys : List RetiredPageEntry) → Has entry ys → Has entry (xs ++ ys)
unfolding Has
Has-append_right entry [] ys h = h
Has-append_right entry (x ∷ xs) ys h = inr (Has-append_right entry xs ys h)

Has-append_left :
    (entry : RetiredPageEntry) (xs ys : List RetiredPageEntry) → Has entry xs → Has entry (xs ++ ys)
unfolding Has
Has-append_left entry [] ys h = absurd h
Has-append_left entry (x ∷ xs) ys (inl e) = inl e
Has-append_left entry (x ∷ xs) ys (inr h) = inr (Has-append_left entry xs ys h)

min_epoch-le :
    (epoch n : ℕ) (table : List (ℕ × ℕ)) → find epoch table ≡ some n → min_epoch table ≤ epoch
unfolding min_epoch find
min_epoch-le epoch n [] e = ground arith
min_epoch-le epoch n ((k, v) ∷ table) e = ground (arith, ==_iff k epoch, min_epoch-le epoch n table)

-- An operation entered at `epoch` is running, and `entry` was retired after it entered.
unfoldable pub IsHeld : ℕ → RetiredPageEntry → PageRetireManager → Type 0
IsHeld epoch entry m =
    ((n : ℕ) × (find epoch m.active_epochs ≡ some n))
    × (epoch < entry.retire_epoch)
    × Has entry m.retired_pages

safe-lt :
    (epoch n : ℕ) (m : PageRetireManager)
    → find epoch m.active_epochs ≡ some n
    → compute_safe_epoch m ≤ epoch
unfolding compute_safe_epoch find
safe-lt epoch n m e = go m.active_epochs refl e
  where
    go :
        (table : List (ℕ × ℕ))
        → m.active_epochs ≡ table
        → find epoch table ≡ some n
        → compute_safe_epoch m ≤ epoch
    go [] f e' = ground arith
    go (entry ∷ table) f e' = ground (arith, min_epoch-le epoch n (entry ∷ table) e')

module _ {W : Type 0} (reclaim : PageId → W → W × Bool) where
  reclaim_loop-Has :
      (safe : ℕ) (entry : RetiredPageEntry) (entries : List RetiredPageEntry) (w : W)
      → safe < entry.retire_epoch
      → Has entry entries
      → Has entry (reclaim_loop reclaim safe entries w).1
  unfolding reclaim_loop Has
  reclaim_loop-Has safe entry [] w lt h = absurd h
  reclaim_loop-Has safe entry (e ∷ es) w lt (inl same) =
      let late : safe < e.retire_epoch = subst (λ x. safe < x.retire_epoch) same lt in ground arith
  reclaim_loop-Has safe entry (e ∷ es) w lt (inr h) = ground (
    arith,
    reclaim_loop-Has safe entry es w lt h,
    reclaim_loop-Has safe entry es (reclaim e.page_id w).0 lt h,
  )

  try_reclaim-IsHeld :
      (epoch : ℕ) (entry : RetiredPageEntry) (m : PageRetireManager) (w : W)
      → IsHeld epoch entry m
      → IsHeld epoch entry (try_reclaim reclaim m w).0
  unfolding try_reclaim IsHeld
  try_reclaim-IsHeld epoch entry m w h = (
    h.0,
    h.1,
    reclaim_loop-Has (compute_safe_epoch m) entry m.retired_pages w
        (omega (arith, safe-lt epoch h.0.0 m h.0.1)) h.2,
  )

  -- What happens to the manager; each operation carries the state its callbacks run on.
  pub data Action : Type 0 where
    enters drains : Action
    exits : ℕ → Action
    retires : PageId → Action

  unfoldable pub act : Action → PageRetireManager → W → PageRetireManager × W
  act enters m w = ((enter_epoch m).0, w)
  act drains m w = let done = drain reclaim m w in (done.0, done.1)
  act (exits epoch) m w = let done = exit_epoch reclaim epoch m w in (done.0, done.1)
  act (retires page_id) m w = let done = retire_page reclaim page_id m w in (done.0, done.1)

  unfoldable pub run : List Action → PageRetireManager → W → PageRetireManager × W
  run [] m w = (m, w)
  run (a ∷ actions) m w = let done = act a m w in run actions done.0 done.1

  unfoldable pub is_exit_of : ℕ → Action → Bool
  is_exit_of epoch (exits e) = e == epoch
  is_exit_of epoch _ = false

  enter_find :
      (epoch now n : ℕ) (table : List (ℕ × ℕ))
      → find epoch table ≡ some n
      → (k : ℕ) × (find epoch
            (assign now (suc (elim (find now table) [ none ↦ 0 | some v ↦ v ])) table)
          ≡ some k)
  enter_find epoch now n table f =
      let count : ℕ = elim (find now table) [ none ↦ 0 | some v ↦ v ] in
      elim (Bool-cases (now == epoch)) [
        | inl same ↦ (suc count, ground (arith, find-assign now epoch (suc count) table))
        | inr other ↦ (n, ground (arith, find-assign now epoch (suc count) table))
      ]

  enter-IsHeld :
      (epoch : ℕ) (entry : RetiredPageEntry) (m : PageRetireManager)
      → IsHeld epoch entry m
      → IsHeld epoch entry (enter_epoch m).0
  unfolding IsHeld enter_epoch
  enter-IsHeld epoch entry m h =
      (enter_find epoch m.global_epoch h.0.0 m.active_epochs h.0.1, h.1, h.2)

  leave-find :
      (e epoch : ℕ) (table : List (ℕ × ℕ)) (n : ℕ)
      → (e == epoch) ≡ false
      → find epoch table ≡ some n
      → find epoch (leave e table) ≡ some n
  unfolding leave
  leave-find e epoch table n d f = go (find e table) refl
    where
      go : (o : Option ℕ) → find e table ≡ o → find epoch (leave e table) ≡ some n
      go none f' = ground arith
      go (some k) f' =
          ground
            (arith, find-erase e epoch table, find-assign e epoch (k - 1) table, ==_iff e epoch)

  act-IsHeld :
      (a : Action) (epoch : ℕ) (entry : RetiredPageEntry) (m : PageRetireManager) (w : W)
      → is_exit_of epoch a ≡ false
      → IsHeld epoch entry m
      → IsHeld epoch entry (act a m w).0
  unfolding act is_exit_of drain exit_epoch retire_page IsHeld
  act-IsHeld enters epoch entry m w x h = enter-IsHeld epoch entry m h
  act-IsHeld drains epoch entry m w x h =
      try_reclaim-IsHeld epoch entry (record m { global_epoch = suc m.global_epoch }) w h
  act-IsHeld (exits e) epoch entry m w x h =
      try_reclaim-IsHeld epoch entry (record m { active_epochs = leave e m.active_epochs }) w
        ((h.0.0, leave-find e epoch m.active_epochs h.0.0 x h.0.1), h.1, h.2)
  act-IsHeld (retires p) epoch entry m w x h =
      let fresh : RetiredPageEntry = record { page_id = p; retire_epoch = suc m.global_epoch } in
      try_reclaim-IsHeld epoch entry
        (record m {
          global_epoch = suc m.global_epoch;
          retired_pages = m.retired_pages ++ (fresh ∷ []);
        })
        w (h.0, h.1, Has-append_left entry m.retired_pages (fresh ∷ []) h.2)

  run-IsHeld :
      (actions : List Action) (epoch : ℕ) (entry : RetiredPageEntry) (m : PageRetireManager) (w : W)
      → All (λ a. is_exit_of epoch a ≡ false) actions
      → IsHeld epoch entry m
      → IsHeld epoch entry (run actions m w).0
  unfolding run
  run-IsHeld [] epoch entry m w x h = h
  run-IsHeld (a ∷ actions) epoch entry m w x h =
      run-IsHeld actions epoch entry (act a m w).0 (act a m w).1 x.1
        (act-IsHeld a epoch entry m w x.0 h)

  -- A page that is retired while an operation of `epoch` runs, an epoch that is not in the future,
  -- stays in the list of retired pages through any further entering, retiring and draining and any
  -- exits of other epochs: it is not reclaimed before an operation of `epoch` exits.
  pub retired_page-Has :
      (page_id : PageId) (epoch n : ℕ) (m : PageRetireManager) (w : W) (actions : List Action)
      → find epoch m.active_epochs ≡ some n
      → epoch ≤ m.global_epoch
      → All (λ a. is_exit_of epoch a ≡ false) actions
      → Has
          (record { page_id = page_id; retire_epoch = suc m.global_epoch })
          (run (retires page_id ∷ actions) m w).0.retired_pages
  unfolding run act retire_page IsHeld Has
  retired_page-Has page_id epoch n m w actions f le x =
      let fresh : RetiredPageEntry = record {
        page_id = page_id;
        retire_epoch = suc m.global_epoch;
      } in
      let m' : PageRetireManager = record m {
        global_epoch = suc m.global_epoch;
        retired_pages = m.retired_pages ++ (fresh ∷ []);
      } in
      (run-IsHeld actions epoch fresh (try_reclaim reclaim m' w).0 (try_reclaim reclaim m' w).1 x (
        try_reclaim-IsHeld epoch fresh m' w
          ((n, f), omega arith, Has-append_right fresh m.retired_pages (fresh ∷ []) (inl refl)))).2
