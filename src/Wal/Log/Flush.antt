-- ===== src/Wal/Log/Flush.antt =====
-- FlushUpTo of recovery/log_manager.cpp, and what it leaves durable. A history is any sequence of
-- the calls that change the log, and of writes of the stream's buffer.
use granite_db.Prelude.{
  ℕ, ◌+◌, ◌≤◌, ◌<◌, ◌≡◌, List, [], ◌∷◌, arith, Option, some, length, drop, length-append,
  length-drop,
}
use granite_db.Wal.{LogRecord}
use granite_db.Wal.Bytes.{u32_mod, write_pod, length-write_pod}
use granite_db.Wal.Log.{
  LogManager, frame, write_out, append_record, flush_up_to, set_master_checkpoint_lsn, open_log,
}
use granite_db.Wal.Log.Frame.{payload_of, length-frame}
use native.Mathlib.Nat.{mod-eq_of_lt}

-- The next LSN is the log's end, what counts as persistent is durable, and what is durable has
-- reached the file.
pub record IsSound (m : LogManager) : Type 0 where
  pub master : 8 ≤ length m.bytes
  pub next : m.next_lsn ≡ length m.bytes
  pub persistent : m.persistent_lsn ≤ m.synced
  pub synced : m.synced ≤ m.written
  pub written : m.written ≤ length m.bytes

pub data Call : Type 0 where
  appends : LogRecord → Call
  flushes checkpoints writes_out : ℕ → Call

unfoldable pub step : LogManager → Call → LogManager
step m (appends rec) = (append_record m rec).0
step m (flushes lsn) = flush_up_to m lsn
step m (checkpoints lsn) = set_master_checkpoint_lsn m lsn
step m (writes_out n) = write_out n m

unfoldable pub run : LogManager → List Call → LogManager
run m [] = m
run m (c ∷ cs) = run (step m c) cs

-- The frames of the records that a history appends have sizes that fit 32 bits.
abbrev pub Small : LogManager → List Call → Type 0
Small m [] = Unit {0}
Small m (appends rec ∷ cs) =
    (4 + length (payload_of (length m.bytes) rec) < u32_mod) × Small (step m (appends rec)) cs
Small m (flushes lsn ∷ cs) = Small (step m (flushes lsn)) cs
Small m (checkpoints lsn ∷ cs) = Small (step m (checkpoints lsn)) cs
Small m (writes_out n ∷ cs) = Small (step m (writes_out n)) cs

append-IsSound :
    (m : LogManager) (rec : LogRecord)
    → 4 + length (payload_of (length m.bytes) rec) < u32_mod
    → IsSound m
    → IsSound (append_record m rec).0
unfolding append_record
append-IsSound m rec h s =
    let e = length-append m.bytes (frame (length m.bytes) rec) in
    let f = length-frame (length m.bytes) rec in
    record {
      master = omega (arith, e, s.master);
      next = rw (mod-eq_of_lt h) (omega (arith, e, f));
      persistent = s.persistent;
      synced = omega (arith, s.synced, s.written);
      written = omega (arith, e, s.written);
    }

flush-IsSound : (m : LogManager) (lsn : ℕ) → IsSound m → IsSound (flush_up_to m lsn)
unfolding flush_up_to
flush-IsSound m lsn s = ground (arith, s.next, s.master, s.persistent, s.synced, s.written)

master-IsSound : (m : LogManager) (lsn : ℕ) → IsSound m → IsSound (set_master_checkpoint_lsn m lsn)
unfolding set_master_checkpoint_lsn
master-IsSound m lsn s =
    let e = length-append (write_pod 8 lsn) (drop 8 m.bytes) in
    let f = length-drop 8 m.bytes in
    let g = length-write_pod 8 lsn in
    record {
      master = omega (arith, e, f, g, s.master);
      next = omega (arith, e, f, g, s.master, s.next);
      persistent = omega (arith, e, f, g, s.master, s.persistent, s.synced, s.written);
      synced = omega arith;
      written = omega arith;
    }

write_out-IsSound : (n : ℕ) (m : LogManager) → IsSound m → IsSound (write_out n m)
unfolding write_out
write_out-IsSound n m s = ground (arith, s.next, s.master, s.persistent, s.synced, s.written)

pub Small-head : (m : LogManager) (c : Call) (cs : List Call) → Small m (c ∷ cs) → Small m (c ∷ [])
Small-head m (appends rec) cs h = (h.0, tt)
Small-head m (flushes lsn) cs h = tt
Small-head m (checkpoints lsn) cs h = tt
Small-head m (writes_out n) cs h = tt

pub Small-tail :
    (m : LogManager) (c : Call) (cs : List Call) → Small m (c ∷ cs) → Small (step m c) cs
Small-tail m (appends rec) cs h = h.1
Small-tail m (flushes lsn) cs h = h
Small-tail m (checkpoints lsn) cs h = h
Small-tail m (writes_out n) cs h = h

pub step-IsSound : (m : LogManager) (c : Call) → Small m (c ∷ []) → IsSound m → IsSound (step m c)
unfolding step
step-IsSound m (appends rec) h s = append-IsSound m rec h.0 s
step-IsSound m (flushes lsn) h s = flush-IsSound m lsn s
step-IsSound m (checkpoints lsn) h s = master-IsSound m lsn s
step-IsSound m (writes_out n) h s = write_out-IsSound n m s

-- No history of appends, flushes, checkpoints and writes of the buffer lets the persistent LSN run
-- ahead of what is
-- durable, or the next LSN leave the end of the file.
pub run-IsSound : (m : LogManager) (cs : List Call) → Small m cs → IsSound m → IsSound (run m cs)
unfolding run step
run-IsSound m [] h s = s
run-IsSound m (c ∷ cs) h s =
    run-IsSound (step m c) cs (Small-tail m c cs h) (step-IsSound m c (Small-head m c cs h) s)

-- FlushUpTo does nothing for the first record that is appended to a log that
-- was just opened, and that record is not durable after it.
pub first_append_unsynced :
    (file : Option (List ℕ)) (m : LogManager) (rec : LogRecord)
    → open_log file ≡ some m
    → let (m', lsn) = append_record m rec in
      (flush_up_to m' lsn ≡ m') × ((flush_up_to m' lsn).synced < length m'.bytes)
unfolding append_record flush_up_to open_log
first_append_unsynced file m rec h =
    ground
      (arith, length-append m.bytes (frame (length m.bytes) rec), length-frame (length m.bytes) rec)
