-- ===== src/Recovery/Redo.antt =====
-- ApplyImage, ShouldRedoRecord, RedoRecord and Redo of recovery/recovery_manager.cpp.
pub mod Steps
pub mod Reached
use granite_db.Prelude.{
  ℕ, ◌^◌, ◌≤◌, ◌<◌, ◌-◌, ◌≡◌, refl, sym, ap, subst, Bool, true, false, not, ◌&&◌, ◌||◌, List, [],
  ◌∷◌, ◌++◌, Option, none, some, Result, ok, err, ◌>>=◌, ltb, ◌==◌, if◌then◌else◌, length, min,
  arith, All, ◌∙◌, Bool-cases, ◌⊎◌, inl, inr,
}
use granite_db.Prelude.Dict.{find, nat_eq}
use granite_db.Types.{PageId, page_size, page_id_eq, page_id_eq_iff, page_id_key}
use granite_db.Wal.{LogRecord, is_page_update_record}
use granite_db.Recovery.{TxnTableEntry, Tables}
use granite_db.Recovery.Storage.{
  Storage, StorageLaws, get_page_lsn, set_page_lsn, get_page_lsn-set_page_lsn,
}

pub data RecoveryError : Type 0 where
  bad_image fetch_failed redo_fetch_failed : RecoveryError

-- The two checks of ShouldRedoRecord that read no page.
unfoldable pub redo_applies : List (PageId × ℕ) → LogRecord → Bool
redo_applies dirty_page_table rec =
    is_page_update_record rec.type
    && (rec.has_page
        && (not (length rec.after_image == 0) && elim (find rec.page_id dirty_page_table) [
          | none ↦ false
          | some rec_lsn ↦ not (ltb rec.lsn rec_lsn)
        ]))

-- std::numeric_limits<LSN>::max(), and the loop that takes the minimum.
unfoldable pub redo_start_lsn : List (PageId × ℕ) → ℕ
redo_start_lsn [] = 2 ^ 64 - 1
redo_start_lsn ((page_id, rec_lsn) ∷ table) = min (redo_start_lsn table) rec_lsn

module _ {S : Type 0} (d : Storage S) where
  unfoldable pub apply_image : PageId → List ℕ → ℕ → S → Result RecoveryError S
  apply_image page_id image page_lsn s =
      if not (length image == page_size)
      then err bad_image
      else let fetched = d.fetch_page page_id s in
        elim fetched.1 [
          | none ↦ err fetch_failed
          | some page ↦ ok (
              d.unpin_page page_id true
                (d.store_page page_id (set_page_lsn page_lsn image) fetched.0))
        ]

  unfoldable pub should_redo_record :
      List (PageId × ℕ) → LogRecord → S → Result RecoveryError (S × Bool)
  unfolding redo_applies
  should_redo_record dirty_page_table rec s =
      if not (redo_applies dirty_page_table rec)
      then ok (s, false)
      else let fetched = d.fetch_page rec.page_id s in
        elim fetched.1 [
          | none ↦ err redo_fetch_failed
          | some page ↦
              ok (d.unpin_page rec.page_id false fetched.0, ltb (get_page_lsn page) rec.lsn)
        ]

  unfoldable pub redo_record : LogRecord → S → Result RecoveryError S
  redo_record rec s = apply_image rec.page_id rec.after_image rec.lsn s

  -- One round of the loop of Redo.
  unfoldable pub redo_step : ℕ → List (PageId × ℕ) → LogRecord → S → Result RecoveryError S
  redo_step redo_start dirty_page_table rec s =
      if ltb rec.lsn redo_start then ok s else elim (should_redo_record dirty_page_table rec s) [
        | err e ↦ err e
        | ok (s', false) ↦ ok s'
        | ok (s', true) ↦ redo_record rec s'
      ]

  unfoldable pub redo_loop : ℕ → List (PageId × ℕ) → List LogRecord → S → Result RecoveryError S
  redo_loop redo_start dirty_page_table [] s = ok s
  redo_loop redo_start dirty_page_table (rec ∷ recs) s =
      elim (redo_step redo_start dirty_page_table rec s) [
        | err e ↦ err e
        | ok s' ↦ redo_loop redo_start dirty_page_table recs s'
      ]

  unfoldable pub redo : List LogRecord → List (PageId × ℕ) → S → Result RecoveryError S
  unfolding redo_start_lsn redo_loop
  redo all_records [] s = ok s
  redo all_records (entry ∷ table) s =
      redo_loop (redo_start_lsn (entry ∷ table)) (entry ∷ table) all_records s >>= λ s'.
      ok (d.flush_all_pages s')
