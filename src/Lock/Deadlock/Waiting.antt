-- ===== src/Lock/Deadlock/Waiting.antt =====
-- Who waits: every node of the graph is a transaction with a request that is not granted, and
-- removing a victim's requests leaves it none.
use granite_db.Prelude.{
  ℕ, ◌+◌, ◌≤◌, ◌≡◌, refl, Bool, true, false, not, ◌&&◌, List, [], ◌∷◌, ◌==◌, arith,
}
use granite_db.Prelude.Dict.{nat_eq}
use granite_db.Lock.Queue.{LockRequest, LockRequestQueue, remove_ungranted, erase_requests}
use granite_db.Lock.Ranges.{KeyRangeLockRequestQueue, KeyRangeLockRequest}
use granite_db.Lock.Ranges.Acquire.{erase_range_requests, remove_ungranted_ranges}
use granite_db.Lock.Deadlock.Worker.{
  LockTables, remove_from_queues, remove_from_range_queues, remove_ungranted_requests,
}

abbrev pub bit : Bool → ℕ
bit true = 1
bit false = 0

-- The requests that wait, of one transaction and of all.
unfoldable pub waiting_of : ℕ → List LockRequest → ℕ
waiting_of u [] = 0
waiting_of u (r ∷ rs) = bit (r.txn_id == u && not r.granted) + waiting_of u rs

unfoldable pub waiting_all : List LockRequest → ℕ
waiting_all [] = 0
waiting_all (r ∷ rs) = bit (not r.granted) + waiting_all rs

unfoldable pub range_waiting_of : ℕ → List KeyRangeLockRequest → ℕ
range_waiting_of u [] = 0
range_waiting_of u (r ∷ rs) = bit (r.txn_id == u && not r.granted) + range_waiting_of u rs

unfoldable pub range_waiting_all : List KeyRangeLockRequest → ℕ
range_waiting_all [] = 0
range_waiting_all (r ∷ rs) = bit (not r.granted) + range_waiting_all rs

-- What removing the requests of `u` does to these counts.
abbrev Removes {ℓ} : {A : Type ℓ} → (ℕ → A → ℕ) → (A → ℕ) → ℕ → A → A → Type 0
Removes of total u old new =
    (total new + of u old ≡ total old) × (of u new ≡ 0) × ((v : ℕ) → of v new ≤ of v old)

erase-Removes :
    (u : ℕ) (rs : List LockRequest)
    → Removes waiting_of waiting_all u rs (erase_requests (λ r. r.txn_id == u && not r.granted) rs)
unfolding waiting_of waiting_all erase_requests
erase-Removes u [] = (refl, refl, λ v. omega arith)
erase-Removes u (r ∷ rs) =
    let (total, gone, fewer) = erase-Removes u rs in
    (ground arith, ground arith, λ v. ground (arith, fewer v))

erase_range-Removes :
    (u : ℕ) (rs : List KeyRangeLockRequest)
    → Removes range_waiting_of range_waiting_all u rs
        (erase_range_requests (λ r. r.txn_id == u && not r.granted) rs)
unfolding range_waiting_of range_waiting_all erase_range_requests
erase_range-Removes u [] = (refl, refl, λ v. omega arith)
erase_range-Removes u (r ∷ rs) =
    let (total, gone, fewer) = erase_range-Removes u rs in
    (ground arith, ground arith, λ v. ground (arith, fewer v))

unfoldable pub queues_waiting_of {ℓ} : {K : Type ℓ} → ℕ → List (K × LockRequestQueue) → ℕ
unfolding waiting_of
queues_waiting_of u [] = 0
queues_waiting_of u ((k, q) ∷ qs) = waiting_of u q.requests + queues_waiting_of u qs

unfoldable pub queues_waiting_all {ℓ} : {K : Type ℓ} → List (K × LockRequestQueue) → ℕ
unfolding waiting_all
queues_waiting_all [] = 0
queues_waiting_all ((k, q) ∷ qs) = waiting_all q.requests + queues_waiting_all qs

unfoldable pub ranges_waiting_of : ℕ → List (ℕ × KeyRangeLockRequestQueue) → ℕ
unfolding range_waiting_of
ranges_waiting_of u [] = 0
ranges_waiting_of u ((k, q) ∷ qs) = range_waiting_of u q.requests + ranges_waiting_of u qs

unfoldable pub ranges_waiting_all : List (ℕ × KeyRangeLockRequestQueue) → ℕ
unfolding range_waiting_all
ranges_waiting_all [] = 0
ranges_waiting_all ((k, q) ∷ qs) = range_waiting_all q.requests + ranges_waiting_all qs

remove_from_queues-Removes {ℓ} :
    {K : Type ℓ} (u : ℕ) (qs : List (K × LockRequestQueue))
    → Removes queues_waiting_of queues_waiting_all u qs (remove_from_queues u qs)
unfolding queues_waiting_of queues_waiting_all remove_from_queues remove_ungranted
remove_from_queues-Removes u [] = (refl, refl, λ v. omega arith)
remove_from_queues-Removes u ((k, q) ∷ qs) =
    let (total, gone, fewer) = erase-Removes u q.requests in
    let (totals, gones, fewers) = remove_from_queues-Removes u qs in
    (
      omega (arith, total, totals),
      omega (arith, gone, gones),
      λ v. omega (arith, fewer v, fewers v),
    )

remove_from_ranges-Removes :
    (u : ℕ) (qs : List (ℕ × KeyRangeLockRequestQueue))
    → Removes ranges_waiting_of ranges_waiting_all u qs (remove_from_range_queues u qs)
unfolding ranges_waiting_of ranges_waiting_all remove_from_range_queues remove_ungranted_ranges
remove_from_ranges-Removes u [] = (refl, refl, λ v. omega arith)
remove_from_ranges-Removes u ((k, q) ∷ qs) =
    let (total, gone, fewer) = erase_range-Removes u q.requests in
    let (totals, gones, fewers) = remove_from_ranges-Removes u qs in
    (
      omega (arith, total, totals),
      omega (arith, gone, gones),
      λ v. omega (arith, fewer v, fewers v),
    )

-- Over the three tables.
unfoldable pub waits_of : ℕ → LockTables → ℕ
waits_of u m =
    queues_waiting_of u m.table_lock_table
    + queues_waiting_of u m.record_lock_table
    + ranges_waiting_of u m.key_range_lock_table

unfoldable pub waits_all : LockTables → ℕ
waits_all m =
    queues_waiting_all m.table_lock_table
    + queues_waiting_all m.record_lock_table
    + ranges_waiting_all m.key_range_lock_table

pub remove_ungranted-Removes :
    (u : ℕ) (m : LockTables)
    → (waits_all (remove_ungranted_requests u m) + waits_of u m ≡ waits_all m)
      × (waits_of u (remove_ungranted_requests u m) ≡ 0)
      × ((v : ℕ) → waits_of v (remove_ungranted_requests u m) ≤ waits_of v m)
unfolding waits_of waits_all remove_ungranted_requests
remove_ungranted-Removes u m =
    let (t, tg, tf) = remove_from_queues-Removes u m.table_lock_table in
    let (r, rg, rf) = remove_from_queues-Removes u m.record_lock_table in
    let (k, kg, kf) = remove_from_ranges-Removes u m.key_range_lock_table in
    (omega (arith, t, r, k), omega (arith, tg, rg, kg), λ v. omega (arith, tf v, rf v, kf v))
