-- ===== src/Lock/Deadlock/Nodes.antt =====
-- The nodes of the graph that BuildWaitsForGraphLocked builds are the transactions that wait.
use granite_db.Prelude.{
  ℕ, ◌<◌, ◌≡◌, refl, subst, Bool, true, false, not, List, [], ◌∷◌, ◌++◌, All, Result, ok, err,
  ◌>>=◌, ◌==◌, if◌then◌else◌, arith, Bool-cases, inl, inr,
}
use granite_db.Prelude.Dict.{assign, nat_eq}
use granite_db.Lock.Mode.{compatible, range_modes_compatible}
use granite_db.Lock.Queue.{LockRequest, LockRequestQueue}
use granite_db.Lock.Ranges.{KeyRangeLockRequestQueue, KeyRangeLockRequest, ranges_overlap}
use granite_db.Lock.Deadlock.{
  WaitsFor, touch_node, insert_edge, wait_before, wait_after, process_queue, range_wait_before,
  range_wait_after, range_edges, process_range_queue,
}
use granite_db.Lock.Deadlock.Worker.{
  LockTables, process_queues, process_range_queues, build_waits_for_graph,
}
use granite_db.Lock.Deadlock.Waiting.{
  waiting_of, range_waiting_of, queues_waiting_of, ranges_waiting_of, waits_of,
}
use granite_db.Row.{RowError}
use granite_db.Row.Compare.{Doubles}

module _ (P : ℕ → Type 0) where
  abbrev Nodes : WaitsFor → Type 0
  Nodes g = All (λ (e : ℕ × List ℕ). P e.0) g

  abbrev OkNodes : Result RowError WaitsFor → Type 0
  OkNodes r = (g : WaitsFor) → r ≡ ok g → Nodes g

  Nodes-assign : (u : ℕ) (vs : List ℕ) (g : WaitsFor) → P u → Nodes g → Nodes (assign u vs g)
  unfolding assign
  Nodes-assign u vs [] p h = (p, tt)
  Nodes-assign u vs ((j, ws) ∷ g) p h = elim (Bool-cases (j == u)) [
    | inl here ↦ rw here (h.0, h.1)
    | inr other ↦ rw other (h.0, Nodes-assign u vs g p h.1)
  ]

  Nodes-if : (b : Bool) (g h : WaitsFor) → Nodes g → Nodes h → Nodes (if b then g else h)
  Nodes-if true g h x y = x
  Nodes-if false g h x y = y

  OkNodes-if :
      (b : Bool) (g h : Result RowError WaitsFor)
      → OkNodes g
      → OkNodes h
      → OkNodes (if b then g else h)
  OkNodes-if true g h x y = x
  OkNodes-if false g h x y = y

  OkNodes-bind {ℓ} :
      {A : Type ℓ} (r : Result RowError A) (f : A → Result RowError WaitsFor)
      → ((a : A) → r ≡ ok a → OkNodes (f a))
      → OkNodes (r >>= f)
  OkNodes-bind (ok a) f h = h a refl
  OkNodes-bind (err e) f h = λ g at. absurd (ground arith)

  Nodes-insert : (u v : ℕ) (g : WaitsFor) → P u → Nodes g → Nodes (insert_edge u v g)
  unfolding insert_edge
  Nodes-insert u v g p h = Nodes-assign u _ g p h

  Nodes-touch : (u : ℕ) (g : WaitsFor) → P u → Nodes g → Nodes (touch_node u g)
  unfolding touch_node
  Nodes-touch u g p h = Nodes-assign u _ g p h

  Nodes-before :
      (b : Bool) (it : LockRequest) (rs : List LockRequest) (g : WaitsFor)
      → P it.txn_id
      → Nodes g
      → Nodes (wait_before b it rs g)
  unfolding wait_before
  Nodes-before b it [] g p h = h
  Nodes-before b it (r ∷ rs) g p h =
      let more = Nodes-insert it.txn_id r.txn_id g p h in
      Nodes-before b it rs _ p (
        Nodes-if (r.txn_id == it.txn_id) _ _ h (
          Nodes-if (not r.granted) _ _ more
            (Nodes-if (not (compatible b it.mode r.mode)) _ _ more h)))

  Nodes-after :
      (b : Bool) (it : LockRequest) (rs : List LockRequest) (g : WaitsFor)
      → P it.txn_id
      → Nodes g
      → Nodes (wait_after b it rs g)
  unfolding wait_after
  Nodes-after b it [] g p h = h
  Nodes-after b it (r ∷ rs) g p h =
      let more = Nodes-insert it.txn_id r.txn_id g p h in
      Nodes-after b it rs _ p (
        Nodes-if (not r.granted) _ _ h (
          Nodes-if (r.txn_id == it.txn_id) _ _ h
            (Nodes-if (not (compatible b it.mode r.mode)) _ _ more h)))

  Nodes-queue :
      (b : Bool) (before rs : List LockRequest) (g : WaitsFor)
      → ((u : ℕ) → 0 < waiting_of u rs → P u)
      → Nodes g
      → Nodes (process_queue b before rs g)
  unfolding process_queue waiting_of
  Nodes-queue b before [] g w h = h
  Nodes-queue b before (it ∷ after) g w h =
      Nodes-queue b (before ++ (it ∷ [])) after _ (λ u n. w u (omega (arith, n)))
        (elim (Bool-cases it.granted) [
          | inl granted ↦ rw granted h
          | inr waits ↦
              let p = w it.txn_id (ground arith) in
              rw waits (
                Nodes-after b it after _ p
                  (Nodes-before b it before _ p (Nodes-touch it.txn_id g p h)))
        ])

  OkNodes-ok : (g : WaitsFor) → Nodes g → OkNodes (ok g)
  OkNodes-ok g h k at = subst Nodes (ground arith) h

  OkNodes-range_before :
      (d : Doubles) (it : KeyRangeLockRequest) (rs : List KeyRangeLockRequest) (g : WaitsFor)
      → P it.txn_id
      → Nodes g
      → OkNodes (range_wait_before d it rs g)
  unfolding range_wait_before
  OkNodes-range_before d it [] g p h = OkNodes-ok g h
  OkNodes-range_before d it (r ∷ rs) g p h =
      let pass = OkNodes-range_before d it rs g p h in
      let more = OkNodes-range_before d it rs _ p (Nodes-insert it.txn_id r.txn_id g p h) in
      OkNodes-if (r.txn_id == it.txn_id) _ _ pass (
        OkNodes-bind (ranges_overlap d r it) _ (λ overlap at. OkNodes-if (not overlap) _ _ pass (
          OkNodes-if (not r.granted) _ _ more
            (OkNodes-if (not (range_modes_compatible it.mode r.mode)) _ _ more pass))))

  OkNodes-range_after :
      (d : Doubles) (it : KeyRangeLockRequest) (rs : List KeyRangeLockRequest) (g : WaitsFor)
      → P it.txn_id
      → Nodes g
      → OkNodes (range_wait_after d it rs g)
  unfolding range_wait_after
  OkNodes-range_after d it [] g p h = OkNodes-ok g h
  OkNodes-range_after d it (r ∷ rs) g p h =
      let pass = OkNodes-range_after d it rs g p h in
      let more = OkNodes-range_after d it rs _ p (Nodes-insert it.txn_id r.txn_id g p h) in
      OkNodes-if (r.txn_id == it.txn_id) _ _ pass (
        OkNodes-if (not r.granted) _ _ pass (
          OkNodes-bind (ranges_overlap d r it) _ (λ overlap at.
            OkNodes-if (not overlap) _ _ pass
              (OkNodes-if (not (range_modes_compatible it.mode r.mode)) _ _ more pass))))

  OkNodes-edges :
      (d : Doubles) (before : List KeyRangeLockRequest) (it : KeyRangeLockRequest)
      (after : List KeyRangeLockRequest) (g : WaitsFor)
      → ((it.granted ≡ false) → P it.txn_id)
      → Nodes g
      → OkNodes (range_edges d before it after g)
  unfolding range_edges ranges_overlap
  OkNodes-edges d before it after g w h = elim (Bool-cases it.granted) [
    | inl granted ↦ rw granted (OkNodes-ok g h)
    | inr waits ↦
        let p = w waits in
        rw waits (
          OkNodes-bind (range_wait_before d it before (touch_node it.txn_id g)) _ (λ k at.
            OkNodes-range_after d it after k p
              (OkNodes-range_before d it before _ p (Nodes-touch it.txn_id g p h) k at)))
  ]

  OkNodes-range_queue :
      (d : Doubles) (before rs : List KeyRangeLockRequest) (g : WaitsFor)
      → ((u : ℕ) → 0 < range_waiting_of u rs → P u)
      → Nodes g
      → OkNodes (process_range_queue d before rs g)
  unfolding process_range_queue range_waiting_of
  OkNodes-range_queue d before [] g w h = OkNodes-ok g h
  OkNodes-range_queue d before (it ∷ after) g w h =
      OkNodes-bind (range_edges d before it after g) _ (λ k at.
        OkNodes-range_queue d (before ++ (it ∷ [])) after k (λ u n. w u (omega (arith, n)))
          (OkNodes-edges d before it after g (λ waits. w it.txn_id (ground arith)) h k at))

  Nodes-queues {ℓ} :
      {K : Type ℓ} (b : Bool) (qs : List (K × LockRequestQueue)) (g : WaitsFor)
      → ((u : ℕ) → 0 < queues_waiting_of u qs → P u)
      → Nodes g
      → Nodes (process_queues b qs g)
  unfolding process_queues queues_waiting_of
  Nodes-queues b [] g w h = h
  Nodes-queues b ((k, q) ∷ qs) g w h =
      Nodes-queues b qs _ (λ u n. w u (omega (arith, n)))
        (Nodes-queue b [] q.requests g (λ u n. w u (omega (arith, n))) h)

  OkNodes-range_queues :
      (d : Doubles) (qs : List (ℕ × KeyRangeLockRequestQueue)) (g : WaitsFor)
      → ((u : ℕ) → 0 < ranges_waiting_of u qs → P u)
      → Nodes g
      → OkNodes (process_range_queues d qs g)
  unfolding process_range_queues ranges_waiting_of
  OkNodes-range_queues d [] g w h = OkNodes-ok g h
  OkNodes-range_queues d ((k, q) ∷ qs) g w h =
      OkNodes-bind (process_range_queue d [] q.requests g) _ (λ r at.
        OkNodes-range_queues d qs r (λ u n. w u (omega (arith, n)))
          (OkNodes-range_queue d [] q.requests g (λ u n. w u (omega (arith, n))) h r at))

  pub build-Nodes :
      (d : Doubles) (m : LockTables) (g : WaitsFor)
      → ((u : ℕ) → 0 < waits_of u m → P u)
      → build_waits_for_graph d m ≡ ok g
      → Nodes g
  unfolding build_waits_for_graph waits_of
  build-Nodes d m g w e =
      OkNodes-range_queues d m.key_range_lock_table _ (λ u n. w u (omega (arith, n)))
        (Nodes-queues false m.record_lock_table _ (λ u n. w u (omega (arith, n)))
          (Nodes-queues true m.table_lock_table [] (λ u n. w u (omega (arith, n))) tt))
        g e
