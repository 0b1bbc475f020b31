-- ===== src/Lock/Queue/Views.antt =====
-- What the parts of a call in concurrency/lock_manager_acquire.cpp and the methods of
-- concurrency/transaction.h do to a transaction's abort state and its lock on one table.
use granite_db.Prelude.{ℕ, ◌≡◌, refl, sym, ◌⊎◌, Bool, true, false, none, some, ==_refl, arith}
use granite_db.Prelude.Dict.{find-assign, nat_eq, find}
use granite_db.Transaction.{
  Transaction, LockMode, is_abort_pending_or_done, try_mark_aborting, set_state, clear_all_locks,
  get_table_lock_mode, committed, aborted, add_table_lock, set_active_if_not_aborting,
  set_waiting_if_not_aborting,
}
use granite_db.Lock.Mode.{combine_table_modes}
use granite_db.Lock.Queue.{
  LockRequestQueue, returns, enters, lock_table_entry, done, waits, lock_table_round, enqueue,
  find_request, withdraw, grant, can_grant_request, Cursor, target,
}
use granite_db.Lock.Queue.System.{is_over}

pub try_mark_id : (txn : Transaction) → (try_mark_aborting txn).0.txn_id ≡ txn.txn_id
unfolding try_mark_aborting
try_mark_id txn = refl

-- What a call does before it waits.
pub entry-enters :
    (txn : Transaction) (rel : ℕ) (mode : LockMode) (q q' : LockRequestQueue)
    → lock_table_entry txn rel mode q ≡ enters q'
    → (m : LockMode) × (enqueue q txn.txn_id m ≡ some q')
unfolding lock_table_entry
entry-enters txn rel mode q q' e =
    (target combine_table_modes (get_table_lock_mode txn rel) mode, ground arith)

pub entry-returns :
    (txn : Transaction) (rel : ℕ) (mode : LockMode) (q : LockRequestQueue) (b : Bool)
    (txn' : Transaction)
    → lock_table_entry txn rel mode q ≡ returns b txn'
    → (txn' ≡ txn) ⊎ (txn' ≡ (try_mark_aborting txn).0)
unfolding lock_table_entry
entry-returns txn rel mode q b txn' e = ground arith

-- How a round ends.
pub round-done :
    (txn : Transaction) (rel : ℕ) (q : LockRequestQueue) (b : Bool) (txn' : Transaction)
    (q' : LockRequestQueue)
    → lock_table_round txn rel q ≡ done b txn' q'
    → ((is_abort_pending_or_done txn ≡ true)
        × (txn' ≡ txn)
        × (q' ≡ withdraw q txn.txn_id (find_request q.requests txn.txn_id)))
      ⊎ (((txn' ≡ txn) × (q' ≡ q))
          ⊎ ((c : Cursor) × (is_abort_pending_or_done txn ≡ false)
              × (find_request q.requests txn.txn_id ≡ some c)
              × (can_grant_request true c ≡ true)
              × (txn' ≡ add_table_lock rel c.it.mode (set_active_if_not_aborting txn))
              × (q' ≡ grant q txn.txn_id c)))
unfolding lock_table_round
round-done txn rel q b txn' q' e = ground arith

pub round-waits :
    (txn : Transaction) (rel : ℕ) (q : LockRequestQueue) (txn' : Transaction)
    (q' : LockRequestQueue)
    → lock_table_round txn rel q ≡ waits txn' q'
    → (txn' ≡ set_waiting_if_not_aborting txn) × (q' ≡ q)
unfolding lock_table_round
round-waits txn rel q txn' q' e = ground arith

-- What the methods do to a transaction's abort state and table locks.
pub mark-cases :
    (txn : Transaction)
    → (is_abort_pending_or_done (try_mark_aborting txn).0 ≡ true)
      ⊎ (is_abort_pending_or_done (try_mark_aborting txn).0 ≡ is_abort_pending_or_done txn)
unfolding try_mark_aborting is_abort_pending_or_done
mark-cases txn = ground arith

pub mark_locks :
    (txn : Transaction) (rel : ℕ)
    → get_table_lock_mode (try_mark_aborting txn).0 rel ≡ get_table_lock_mode txn rel
unfolding try_mark_aborting get_table_lock_mode
mark_locks txn rel = refl

pub add_view :
    (txn : Transaction) (rel : ℕ) (mode : LockMode)
    → let txn' = add_table_lock rel mode (set_active_if_not_aborting txn) in
      (is_abort_pending_or_done txn' ≡ is_abort_pending_or_done txn)
      × (get_table_lock_mode txn' rel ≡ some mode)
      × (txn'.txn_id ≡ txn.txn_id)
unfolding add_table_lock set_active_if_not_aborting is_abort_pending_or_done get_table_lock_mode
add_view txn rel mode = (ground arith, rw (find-assign rel rel mode, ==_refl rel), ground arith)

pub waiting_view :
    (txn : Transaction) (rel : ℕ)
    → let txn' = set_waiting_if_not_aborting txn in
      (is_abort_pending_or_done txn' ≡ is_abort_pending_or_done txn)
      × (get_table_lock_mode txn' rel ≡ get_table_lock_mode txn rel)
      × (txn'.txn_id ≡ txn.txn_id)
unfolding set_waiting_if_not_aborting is_abort_pending_or_done get_table_lock_mode
waiting_view txn rel = ground arith

pub committed_view :
    (txn : Transaction) (rel : ℕ)
    → is_abort_pending_or_done txn ≡ false
    → let txn' = set_state committed txn in
      (is_abort_pending_or_done txn' ≡ is_abort_pending_or_done txn)
      × (get_table_lock_mode txn' rel ≡ get_table_lock_mode txn rel)
      × (txn'.txn_id ≡ txn.txn_id)
unfolding set_state is_abort_pending_or_done get_table_lock_mode
committed_view txn rel e = (sym e, refl, refl)

pub aborted_view :
    (txn : Transaction) (rel : ℕ)
    → is_abort_pending_or_done txn ≡ true
    → let txn' = set_state aborted txn in
      (is_abort_pending_or_done txn' ≡ is_abort_pending_or_done txn)
      × (get_table_lock_mode txn' rel ≡ get_table_lock_mode txn rel)
      × (txn'.txn_id ≡ txn.txn_id)
unfolding set_state is_abort_pending_or_done get_table_lock_mode
aborted_view txn rel e = (sym e, refl, refl)

pub clear_id : (txn : Transaction) → (clear_all_locks txn).txn_id ≡ txn.txn_id
unfolding clear_all_locks
clear_id txn = refl

pub clear_locks :
    (txn : Transaction) (rel : ℕ) → get_table_lock_mode (clear_all_locks txn) rel ≡ none
unfolding clear_all_locks get_table_lock_mode find
clear_locks txn rel = refl

pub mark_dead :
    (txn : Transaction)
    → is_over txn.state ≡ false
    → is_abort_pending_or_done (try_mark_aborting txn).0 ≡ true
unfolding try_mark_aborting is_abort_pending_or_done
mark_dead txn e = ground arith
