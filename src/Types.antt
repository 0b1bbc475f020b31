-- ===== src/Types.antt =====
-- common/types.h: the identifiers of pages and records. RelationId, PageNo, SlotNo, LSN and TxnId
-- are native numbers; their widths stand where the code stores or wraps them.
use granite_db.Prelude.{ℕ, ◌≡◌, Bool, true, ◌&&◌, ◌↔◌, arith, ◌==◌}
use granite_db.Prelude.Dict.{Eq}

abbrev pub page_size : ℕ
page_size = 8192

-- sizeof(LSN), an uint64_t.
abbrev pub lsn_size : ℕ
lsn_size = 8

pub record PageId : Type 0 where
  pub relation_id : ℕ
  pub page_no : ℕ

pub record Rid : Type 0 where
  pub page_no : ℕ
  pub slot_no : ℕ

abbrev pub no_page : PageId
no_page = record { relation_id = 0; page_no = 0 }

-- PageId::operator==
unfoldable pub page_id_eq : PageId → PageId → Bool
page_id_eq a b = a.relation_id == b.relation_id && a.page_no == b.page_no

pub page_id_eq_iff : (a b : PageId) → (page_id_eq a b ≡ true) ↔ (a ≡ b)
unfolding page_id_eq
page_id_eq_iff a b = ground arith

instance abbrev pub page_id_key : Eq PageId
page_id_key = record { beq = page_id_eq; beq_iff = page_id_eq_iff }

-- RID::operator==
unfoldable pub rid_eq : Rid → Rid → Bool
rid_eq a b = a.page_no == b.page_no && a.slot_no == b.slot_no

pub rid_eq_iff : (a b : Rid) → (rid_eq a b ≡ true) ↔ (a ≡ b)
unfolding rid_eq
rid_eq_iff a b = ground arith
