-- ===== src/Wal/Log/Scan.antt =====
-- ScanWalFile and EnsureWalInitializedAndTrimmed of recovery/log_manager.cpp: opening a log whose
-- last write was cut off.
use granite_db.Prelude.{
  ℕ, ◌+◌, ◌≡◌, refl, sym, ap, inl, inr, List, [], ◌∷◌, ◌++◌, arith, Option, some, none, length, leb,
  ltb, ◌==◌, if◌then◌else◌, length-append, append_assoc, append-nil, Bool-cases, leb→le, le→ltb,
  ◌&&◌, take-append, drop-append, ◌||◌, not, Bool,
}
use granite_db.Prelude.Dict.{find, nat_eq}
use granite_db.Wal.{LogRecord, LogRecordType}
use granite_db.Wal.Bytes.{write_pod, pod_value}
use granite_db.Wal.Log.{
  scan_wal_file, WalScanResult, is_begin_checkpoint, master_invalid, trimmed, stream_read,
  ensure_wal_initialized_and_trimmed,
}
use granite_db.Wal.Log.Append.{frames, AllFit, Tail, length-frames}
use granite_db.Wal.Log.ScanLoop.{
  Scanned, type_at, types_of, or_else, find-types_of, type_at_range, scan_loop-frames,
  Scanned-empty,
}

empty_tail : (l : List ℕ) → length l ≡ 0 → l ≡ []
empty_tail [] h = refl
empty_tail (b ∷ l) h = absurd (omega arith)

-- The log file of some records: its master record, their frames, and what a crash left behind them.
abbrev pub log_file : List ℕ → List LogRecord → List ℕ → List ℕ
log_file master recs part = master ++ (frames 8 recs ++ part)

-- The master record names no record, or one that begins a checkpoint.
unfoldable pub is_checkpointed : ℕ → List LogRecord → Bool
is_checkpointed master recs = master == 0 || is_begin_checkpoint (type_at master 8 recs)

module _ (master : List ℕ) (recs : List LogRecord) (part : List ℕ) (size : length master ≡ 8)
    (fits : AllFit 8 recs) (tail : Tail (8 + length (frames 8 recs)) part) where
  file_size : length (log_file master recs part) ≡ 8 + length (frames 8 recs) + length part
  file_size =
      omega
        (arith, length-append master (frames 8 recs ++ part), length-append (frames 8 recs) part)

  scanned : Scanned [] 8 recs (scan_wal_file (log_file master recs part))
  unfolding scan_wal_file
  scanned = elim (Bool-cases (leb (length (log_file master recs part)) 8)) [
    | inl short ↦
        rw short
          (Scanned-empty 8 recs (omega (arith, file_size, length-frames 8 recs, leb→le _ _ short)))
    | inr long ↦ rw long (
        scan_loop-frames recs master part 8 [] _ size fits tail
          (omega (arith, file_size, length-frames 8 recs)))
  ]

  -- What is kept of the file, before the master record is looked at.
  kept :
      (scan : WalScanResult)
      → scan.valid_end ≡ 8 + length (frames 8 recs)
      → trimmed (log_file master recs part) scan ≡ master ++ frames 8 recs
  kept scan e = elim (Bool-cases (ltb scan.valid_end (length (log_file master recs part)))) [
    | inl longer ↦
        rw (longer, sym (append_assoc master (frames 8 recs) part))
          (take-append (master ++ frames 8 recs) part scan.valid_end
            (omega (arith, length-append master (frames 8 recs))))
    | inr whole ↦
        rw (whole, empty_tail part (ground (arith, file_size, whole)))
          (ap (◌++◌ master) (append-nil (frames 8 recs)))
  ]

  master_read : pod_value (stream_read (master ++ frames 8 recs) 0 8) ≡ pod_value master
  unfolding stream_read
  master_read = rw (take-append master (frames 8 recs) 8 size)

  master_kept :
      (scan : WalScanResult)
      → scan.valid_end ≡ 8 + length (frames 8 recs)
      → scan.record_types ≡ types_of [] 8 recs
      → not (master_invalid (pod_value master) scan) ≡ is_checkpointed (pod_value master) recs
  unfolding master_invalid is_checkpointed find
  master_kept scan e f =
      rw (f, find-types_of (pod_value master) 8 [] recs)
        (go (type_at (pod_value master) 8 recs) refl)
    where
      go :
          (o : Option LogRecordType)
          → type_at (pod_value master) 8 recs ≡ o
          → not (
              not (pod_value master == 0)
              && (ltb (pod_value master) 8
                  || (leb scan.valid_end (pod_value master)
                      || not (is_begin_checkpoint (or_else o none)))))
            ≡ (pod_value master == 0 || is_begin_checkpoint o)
      go none h = ground arith
      go (some t) h = ground (arith, type_at_range (pod_value master) 8 recs t h)

  -- Opening it again cuts off exactly the torn frame: the whole records stay, byte for byte. The
  -- master record stays if it is 0 or the LSN of a record that begins a checkpoint, and is set to 0
  -- otherwise.
  pub reopen-log_file :
      ensure_wal_initialized_and_trimmed (some (log_file master recs part))
      ≡ some (
          (if is_checkpointed (pod_value master) recs then master else write_pod 8 0)
          ++ frames 8 recs)
  unfolding ensure_wal_initialized_and_trimmed
  reopen-log_file =
      let scan = scanned.result in
      rw
        (
          le→ltb (length (log_file master recs part)) 8 (omega (arith, file_size)),
          scanned.returned,
          kept scan scanned.valid_end,
          master_read,
        )
        (ground (
          arith,
          master_kept scan scanned.valid_end scanned.record_types,
          drop-append master (frames 8 recs) 8 size,
        ))
