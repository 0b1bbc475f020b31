-- ===== src/Lock/Deadlock.antt =====
-- The waits-for graph and its cycle search: BuildWaitsForGraphLocked and DetectCycleVictimLocked of
-- concurrency/lock_manager_deadlock.cpp. A graph maps a waiting transaction to the transactions it
-- waits for, in the order in which they are inserted.
pub mod Walk
pub mod Marks
pub mod Calls
pub mod Dfs
pub mod Worker
pub mod Waiting
pub mod Nodes
pub mod Resolve
use granite_db.Prelude.{
  ℕ, zero, suc, ◌+◌, max, Bool, true, false, not, List, [], ◌∷◌, ◌++◌, Option, none, some, Result,
  ok, ◌>>=◌, length, ◌==◌, if◌then◌else◌,
}
use granite_db.Prelude.Dict.{find, assign, nat_eq}
use granite_db.Lock.Mode.{compatible, range_modes_compatible}
use granite_db.Lock.Queue.{LockRequest}
use granite_db.Lock.Ranges.{KeyRangeLockRequest, ranges_overlap}
use granite_db.Row.{RowError}
use granite_db.Row.Compare.{Doubles}

abbrev pub WaitsFor : Type 0
WaitsFor = List (ℕ × List ℕ)

abbrev pub or_empty : Option (List ℕ) → List ℕ
or_empty none = []
or_empty (some vs) = vs

-- `graph[u]`.
unfoldable pub edges : ℕ → WaitsFor → List ℕ
edges u g = or_empty (find u g)

abbrev pub has_txn : List ℕ → ℕ → Bool
has_txn [] v = false
has_txn (w ∷ ws) v = if w == v then true else has_txn ws v

-- `graph[u];`.
unfoldable pub touch_node : ℕ → WaitsFor → WaitsFor
unfolding edges
touch_node u g = assign u (edges u g) g

-- `graph[u].insert(v)`.
unfoldable pub insert_edge : ℕ → ℕ → WaitsFor → WaitsFor
unfolding edges
insert_edge u v g = assign u (if has_txn (edges u g) v then edges u g else edges u g ++ (v ∷ [])) g

-- The inner loops of `process_queue`.
unfoldable pub wait_before : Bool → LockRequest → List LockRequest → WaitsFor → WaitsFor
wait_before is_table_lock it [] g = g
wait_before is_table_lock it (prev ∷ rest) g = wait_before is_table_lock it rest (
    if prev.txn_id == it.txn_id
    then g
    else if not prev.granted
    then insert_edge it.txn_id prev.txn_id g
    else if not (compatible is_table_lock it.mode prev.mode)
    then insert_edge it.txn_id prev.txn_id g
    else g)

unfoldable pub wait_after : Bool → LockRequest → List LockRequest → WaitsFor → WaitsFor
wait_after is_table_lock it [] g = g
wait_after is_table_lock it (later ∷ rest) g = wait_after is_table_lock it rest (
    if not later.granted
    then g
    else if later.txn_id == it.txn_id
    then g
    else if not (compatible is_table_lock it.mode later.mode)
    then insert_edge it.txn_id later.txn_id g
    else g)

-- `process_queue`, behind the requests `before`.
unfoldable pub process_queue : Bool → List LockRequest → List LockRequest → WaitsFor → WaitsFor
unfolding wait_before wait_after touch_node
process_queue is_table_lock before [] g = g
process_queue is_table_lock before (it ∷ after) g =
    process_queue is_table_lock (before ++ (it ∷ [])) after (
      if it.granted
      then g
      else wait_after is_table_lock it after
          (wait_before is_table_lock it before (touch_node it.txn_id g)))

module _ (d : Doubles) where
  unfoldable pub range_wait_before :
      KeyRangeLockRequest → List KeyRangeLockRequest → WaitsFor → Result RowError WaitsFor
  range_wait_before it [] g = ok g
  range_wait_before it (prev ∷ rest) g =
      let passed = range_wait_before it rest g in
      let waiting = range_wait_before it rest (insert_edge it.txn_id prev.txn_id g) in
      if prev.txn_id == it.txn_id
      then passed
      else (ranges_overlap d prev it >>= λ overlap.
          if not overlap
          then passed
          else if not prev.granted
          then waiting
          else if not (range_modes_compatible it.mode prev.mode)
          then waiting
          else passed)

  unfoldable pub range_wait_after :
      KeyRangeLockRequest → List KeyRangeLockRequest → WaitsFor → Result RowError WaitsFor
  range_wait_after it [] g = ok g
  range_wait_after it (later ∷ rest) g =
      let passed = range_wait_after it rest g in
      let waiting = range_wait_after it rest (insert_edge it.txn_id later.txn_id g) in
      if later.txn_id == it.txn_id
      then passed
      else if not later.granted
      then passed
      else (ranges_overlap d later it >>= λ overlap.
          if not overlap
          then passed
          else if not (range_modes_compatible it.mode later.mode)
          then waiting
          else passed)

  -- One round of the outer loop of `process_range_queue`.
  unfoldable pub range_edges :
      List KeyRangeLockRequest
      → KeyRangeLockRequest
      → List KeyRangeLockRequest
      → WaitsFor
      → Result RowError WaitsFor
  unfolding range_wait_before range_wait_after touch_node
  range_edges before it after g =
      if it.granted
      then ok g
      else (range_wait_before it before (touch_node it.txn_id g) >>= λ h.
          range_wait_after it after h)

  -- `process_range_queue`, behind the requests `before`.
  unfoldable pub process_range_queue :
      List KeyRangeLockRequest → List KeyRangeLockRequest → WaitsFor → Result RowError WaitsFor
  unfolding range_edges
  process_range_queue before [] g = ok g
  process_range_queue before (it ∷ after) g =
      range_edges before it after g >>= λ h. process_range_queue (before ++ (it ∷ [])) after h

-- What `dfs` shares between its calls. A transaction without an entry in `state` has 0 there; the
-- last entry of `stack` is its top.
pub record CycleSearch : Type 0 where
  pub state : List (ℕ × ℕ)
  pub stack : List ℕ
  pub victim : Option ℕ

abbrev pub or_zero : Option ℕ → ℕ
or_zero none = 0
or_zero (some n) = n

-- `state[v]`.
unfoldable pub color : CycleSearch → ℕ → ℕ
color s v = or_zero (find v s.state)

abbrev pub pop_back : List ℕ → List ℕ
pop_back [] = []
pop_back (x ∷ []) = []
pop_back (x ∷ y ∷ xs) = x ∷ pop_back (y ∷ xs)

-- `std::find(stack.begin(), stack.end(), v)`, as what it points to and what follows.
abbrev pub find_from : ℕ → List ℕ → List ℕ
find_from v [] = []
find_from v (x ∷ xs) = if x == v then x ∷ xs else find_from v xs

abbrev pub largest : ℕ → List ℕ → ℕ
largest chosen [] = chosen
largest chosen (x ∷ xs) = largest (max chosen x) xs

unfoldable pub enter_node : ℕ → CycleSearch → CycleSearch
enter_node u s = record s { state = assign u 1 s.state; stack = s.stack ++ (u ∷ []) }

unfoldable pub leave_node : ℕ → CycleSearch → CycleSearch
leave_node u s = record s { state = assign u 2 s.state; stack = pop_back s.stack }

-- The cycle runs from `v` to the top of the stack.
unfoldable pub close_cycle : ℕ → CycleSearch → CycleSearch
close_cycle v s = record s { victim = some (largest v (find_from v s.stack)) }

-- After a call: `if (victim.has_value()) return;`.
abbrev pub unless_found :
    (CycleSearch → Option CycleSearch) → Option CycleSearch → Option CycleSearch
unless_found go none = none
unless_found go (some t) = elim t.victim [ none ↦ go t | some _ ↦ some t ]

-- The loop of `dfs` over the successors; `none` is a search out of fuel.
unfoldable pub visit :
    (ℕ → CycleSearch → Option CycleSearch) → List ℕ → CycleSearch → Option CycleSearch
visit call [] s = some s
visit call (v ∷ vs) s = elim (color s v) [
  | zero ↦ unless_found (visit call vs) (call v s)
  | suc zero ↦ some (close_cycle v s)
  | suc (suc _) ↦ visit call vs s
]

unfoldable pub dfs : WaitsFor → ℕ → ℕ → CycleSearch → Option CycleSearch
unfolding visit edges enter_node leave_node
dfs g zero u s = none
dfs g (suc fuel) u s = elim s.victim [
  | some _ ↦ some s
  | none ↦
      unless_found (λ t. some (leave_node u t)) (visit (dfs g fuel) (edges u g) (enter_node u s))
]

-- The loop of DetectCycleVictimLocked.
unfoldable pub search_roots :
    (ℕ → CycleSearch → Option CycleSearch) → WaitsFor → CycleSearch → Option CycleSearch
search_roots call [] s = some s
search_roots call ((u, vs) ∷ rest) s = elim (color s u) [
  | zero ↦ unless_found (search_roots call rest) (call u s)
  | suc _ ↦ search_roots call rest s
]

abbrev pub no_search : CycleSearch
no_search = record { state = []; stack = []; victim = none }

abbrev pub found : Option CycleSearch → Option (Option ℕ)
found none = none
found (some s) = some s.victim

-- `none` is out of fuel, `some none` no victim. Calls nest at most once per transaction that waits,
-- and one for a transaction that does not.
unfoldable pub detect_cycle_victim : WaitsFor → Option (Option ℕ)
unfolding dfs search_roots
detect_cycle_victim g = found (search_roots (dfs g (suc (length g))) g no_search)
