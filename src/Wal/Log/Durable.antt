-- ===== src/Wal/Log/Durable.antt =====
-- What AppendRecord and FlushUpTo of recovery/log_manager.cpp promise together: a record whose LSN was
-- flushed is durable, whatever the log does before and after.
use granite_db.Prelude.{
  ℕ, ◌+◌, ◌≤◌, ◌<◌, ◌≡◌, refl, sym, subst, ◌⊎◌, inl, List, [], ◌∷◌, ◌++◌, arith, length, take, drop,
  ap, append-nil, length-append, length-drop,
}
use granite_db.Wal.{LogRecord}
use granite_db.Wal.Bytes.{write_pod, length-write_pod}
use granite_db.Wal.Log.{
  LogManager, stream_read, frame, write_out, append_record, flush_up_to, set_master_checkpoint_lsn,
}
use granite_db.Wal.Log.Place.{Stands, Stands-append, Stands-write_master, Stands-read}
use granite_db.Wal.Log.Flush.{
  IsSound, Call, appends, flushes, checkpoints, writes_out, step, run, Small, Small-head,
  Small-tail, step-IsSound, run-IsSound,
}

run-append : (m : LogManager) (cs ds : List Call) → run m (cs ++ ds) ≡ run (run m cs) ds
unfolding run
run-append m [] ds = refl
run-append m (c ∷ cs) ds = run-append (step m c) cs ds

Small-append :
    (m : LogManager) (cs ds : List Call) → Small m (cs ++ ds) → Small m cs × Small (run m cs) ds
unfolding run
Small-append m [] ds h = (tt, h)
Small-append m (appends rec ∷ cs) ds h =
    let more = Small-append (step m (appends rec)) cs ds h.1 in ((h.0, more.0), more.1)
Small-append m (flushes lsn ∷ cs) ds h = Small-append (step m (flushes lsn)) cs ds h
Small-append m (checkpoints lsn ∷ cs) ds h = Small-append (step m (checkpoints lsn)) cs ds h
Small-append m (writes_out n ∷ cs) ds h = Small-append (step m (writes_out n)) cs ds h

-- No call takes back what is durable, or shortens the log.
step_grows :
    (m : LogManager) (c : Call)
    → IsSound m
    → (m.synced ≤ (step m c).synced) × (length m.bytes ≤ length (step m c).bytes)
unfolding step append_record flush_up_to set_master_checkpoint_lsn write_out
step_grows m (appends rec) s = omega (arith, length-append m.bytes (frame (length m.bytes) rec))
step_grows m (flushes lsn) s = ground (arith, s.synced, s.written)
step_grows m (checkpoints lsn) s = omega (
  arith,
  length-append (write_pod 8 lsn) (drop 8 m.bytes),
  length-drop 8 m.bytes,
  length-write_pod 8 lsn,
  s.master,
  s.synced,
  s.written,
)
step_grows m (writes_out n) s = omega arith

run_grows :
    (m : LogManager) (cs : List Call) → Small m cs → IsSound m → m.synced ≤ (run m cs).synced
unfolding run
run_grows m [] h s = omega arith
run_grows m (c ∷ cs) h s =
    let first = step_grows m c s in
    let more =
      run_grows (step m c) cs (Small-tail m c cs h) (step-IsSound m c (Small-head m c cs h) s) in
    omega (arith, first.0, more)

-- A record stands between `lsn` and `end`: it is durable, or nothing from its start on is.
record Whole (lsn end : ℕ) (m : LogManager) : Type 0 where
  inside : end ≤ length m.bytes
  durable : (m.synced ≤ lsn) ⊎ (end ≤ m.synced)

step-Whole :
    (lsn end : ℕ) (m : LogManager) (c : Call)
    → IsSound m
    → Whole lsn end m
    → Whole lsn end (step m c)
unfolding step append_record flush_up_to set_master_checkpoint_lsn write_out
step-Whole lsn end m (appends rec) s w = record {
  inside = omega (arith, w.inside, (step_grows m (appends rec) s).1);
  durable = w.durable;
}
step-Whole lsn end m (flushes k) s w = record {
  inside = ground (arith, w.inside);
  durable = ground (arith, w.inside, w.durable);
}
step-Whole lsn end m (checkpoints k) s w =
    let grown = (step_grows m (checkpoints k) s).1 in
    record { inside = omega (arith, w.inside, grown); durable = ground (arith, w.inside, grown) }
step-Whole lsn end m (writes_out n) s w = record { inside = w.inside; durable = w.durable }

run-Whole :
    (lsn end : ℕ) (m : LogManager) (cs : List Call)
    → Small m cs
    → IsSound m
    → Whole lsn end m
    → Whole lsn end (run m cs)
unfolding run
run-Whole lsn end m [] h s w = w
run-Whole lsn end m (c ∷ cs) h s w =
    run-Whole lsn end (step m c) cs (Small-tail m c cs h) (step-IsSound m c (Small-head m c cs h) s)
      (step-Whole lsn end m c s w)

flush-Whole :
    (lsn end k : ℕ) (m : LogManager)
    → IsSound m
    → Whole lsn end m
    → lsn < k
    → end ≤ (flush_up_to m k).synced
unfolding flush_up_to
flush-Whole lsn end k m s w h = ground (arith, w.inside, w.durable, s.persistent)

new-Whole :
    (m : LogManager) (rec : LogRecord)
    → IsSound m
    → Whole
        (length m.bytes)
        (length m.bytes + length (frame (length m.bytes) rec))
        (append_record m rec).0
unfolding append_record
new-Whole m rec s = record {
  inside = omega (arith, length-append m.bytes (frame (length m.bytes) rec));
  durable = inl (omega (arith, s.synced, s.written));
}

step-Stands :
    (pos : ℕ) (part : List ℕ) (m : LogManager) (c : Call)
    → Stands pos part m.bytes
    → Stands pos part (step m c).bytes
unfolding step append_record flush_up_to set_master_checkpoint_lsn write_out
step-Stands pos part m (appends rec) h =
    Stands-append pos part m.bytes (frame (length m.bytes) rec) h
step-Stands pos part m (flushes lsn) h =
    let same : m.bytes ≡ (flush_up_to m lsn).bytes = ground arith in subst (Stands pos part) same h
step-Stands pos part m (checkpoints lsn) h = Stands-write_master pos part m.bytes lsn h
step-Stands pos part m (writes_out n) h = h

run-Stands :
    (pos : ℕ) (part : List ℕ) (m : LogManager) (cs : List Call)
    → Stands pos part m.bytes
    → Stands pos part (run m cs).bytes
unfolding run
run-Stands pos part m [] h = h
run-Stands pos part m (c ∷ cs) h = run-Stands pos part (step m c) cs (step-Stands pos part m c h)

new-Stands :
    (m : LogManager) (rec : LogRecord)
    → IsSound m
    → Stands (length m.bytes) (frame (length m.bytes) rec) (append_record m rec).0.bytes
unfolding append_record
new-Stands m rec s = record {
  before = m.bytes;
  after = [];
  whole = ap (◌++◌ m.bytes) (sym (append-nil (frame (length m.bytes) rec)));
  at = refl;
  master = s.master;
}

-- Once there was a flush of an LSN behind that of a record, the durable part of the log holds the
-- record's frame at its LSN: whatever was appended, flushed, checkpointed or written out between, and
-- whatever comes later. The log was sound when the record was appended, and the frames' sizes fit
-- 32 bits.
pub flush-append_durable :
    (m : LogManager) (rec : LogRecord) (between later : List Call) (k : ℕ)
    → IsSound m
    → Small m (appends rec ∷ (between ++ (flushes k ∷ later)))
    → length m.bytes < k
    → let lsn = length m.bytes in
      let after = run m (appends rec ∷ (between ++ (flushes k ∷ later))) in
      (lsn + length (frame lsn rec) ≤ after.synced)
      × (stream_read (take after.synced after.bytes) lsn (length (frame lsn rec)) ≡ frame lsn rec)
unfolding run step append_record
flush-append_durable m rec between later k s h behind =
    let first = step m (appends rec) in
    let sound = step-IsSound m (appends rec) (h.0, tt) s in
    let (small, small') = Small-append first between (flushes k ∷ later) h.1 in
    let reached = run first between in
    let sound' = run-IsSound first between small sound in
    let lsn = length m.bytes in
    let part = frame lsn rec in
    let whole = run-Whole lsn (lsn + length part) first between small sound (new-Whole m rec s) in
    let flushed = flush-Whole lsn (lsn + length part) k reached sound' whole behind in
    let later_synced =
      run_grows (flush_up_to reached k) later small' (step-IsSound reached (flushes k) tt sound') in
    let after = run first (between ++ (flushes k ∷ later)) in
    let durable : lsn + length part ≤ after.synced =
      subst (λ x. lsn + length part ≤ x.synced) (sym (run-append first between (flushes k ∷ later)))
        (omega (arith, flushed, later_synced)) in
    (
      durable,
      Stands-read lsn after.synced part after.bytes
          (run-Stands lsn part first (between ++ (flushes k ∷ later)) (new-Stands m rec s)) durable,
    )
