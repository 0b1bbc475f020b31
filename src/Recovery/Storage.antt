-- ===== src/Recovery/Storage.antt =====
-- What recovery/recovery_manager.cpp calls of the buffer pool and the log manager, with the layout
-- of storage/page_lsn_util.h. `S` is the state of both. `fetch_page` gives the bytes of the frame,
-- or `none` where FetchPage gives a null pointer; `store_page` writes through the pointer.
use granite_db.Prelude.{
  ℕ, ◌≡◌, Bool, List, ◌++◌, Option, some, if◌then◌else◌, take, drop, ap, ◌<◌, ◌^◌, take-append, ◌∙◌,
}
use granite_db.Types.{PageId, page_id_eq, lsn_size}
use granite_db.Wal.{LogRecord}
use granite_db.Wal.Bytes.{write_pod, pod_value, length-write_pod, pod_value-write_pod}

pub record Storage (S : Type 0) : Type 0 where
  pub fetch_page : PageId → S → S × Option (List ℕ)
  pub store_page : PageId → List ℕ → S → S
  pub unpin_page : PageId → Bool → S → S
  pub flush_all_pages : S → S
  pub append_record : LogRecord → S → S × ℕ
  pub flush_up_to : ℕ → S → S
  pub master_checkpoint_lsn : S → ℕ
  pub read_all_records_from : ℕ → S → List LogRecord

-- What the two promise about the contents of pages: `content p s` is what FetchPage would show.
pub record StorageLaws {S : Type 0} (d : Storage S) : Type 0 where
  pub content : PageId → S → Option (List ℕ)
  pub fetch_result : (p : PageId) (s : S) → (d.fetch_page p s).1 ≡ content p s
  pub content-fetch : (p q : PageId) (s : S) → content q (d.fetch_page p s).0 ≡ content q s
  pub content-store :
      (p q : PageId) (bytes : List ℕ) (s : S)
      → content q (d.store_page p bytes s) ≡ (if page_id_eq p q then some bytes else content q s)
  pub content-unpin :
      (p q : PageId) (dirty : Bool) (s : S) → content q (d.unpin_page p dirty s) ≡ content q s
  pub content-flush_all : (q : PageId) (s : S) → content q (d.flush_all_pages s) ≡ content q s
  pub content-append :
      (q : PageId) (rec : LogRecord) (s : S) → content q (d.append_record rec s).0 ≡ content q s
  pub content-flush_up_to :
      (q : PageId) (lsn : ℕ) (s : S) → content q (d.flush_up_to lsn s) ≡ content q s

unfoldable pub get_page_lsn : List ℕ → ℕ
get_page_lsn page = pod_value (take lsn_size page)

unfoldable pub set_page_lsn : ℕ → List ℕ → List ℕ
set_page_lsn lsn page = write_pod lsn_size lsn ++ drop lsn_size page

pub get_page_lsn-set_page_lsn :
    (lsn : ℕ) (page : List ℕ) → lsn < 2 ^ 64 → get_page_lsn (set_page_lsn lsn page) ≡ lsn
unfolding get_page_lsn set_page_lsn
get_page_lsn-set_page_lsn lsn page h =
    ap pod_value (take-append (write_pod 8 lsn) (drop 8 page) 8 (length-write_pod 8 lsn))
    ∙ pod_value-write_pod 8 lsn h
