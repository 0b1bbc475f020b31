-- ===== src/Transaction.antt =====
-- concurrency/transaction.h: the transaction's state, last LSN and held locks. Every method runs
-- under the object's latch, so each is one step on the record.
use granite_db.Prelude.{
  ℕ, ◌≡◌, Bool, true, false, ◌&&◌, ◌||◌, ◌↔◌, List, [], ◌∷◌, ◌+◌, Option, none, some, arith, ◌==◌,
  if◌then◌else◌,
}
use granite_db.Prelude.Dict.{Eq, find, assign, nat_eq}
use granite_db.Types.{Rid, rid_eq, rid_eq_iff}

-- `other` is a value of the enum's underlying type that no enumerator names: a WAL record that is
-- read back can hold one.
pub data TransactionState : Type 0 where
  active waiting aborting committed aborted : TransactionState
  other : ℕ → TransactionState

-- The source's IS, IX, S, SIX and X, in this order.
pub data LockMode : Type 0 where
  intent_shared intent_exclusive shared shared_intent_exclusive exclusive : LockMode

pub record RecordLockId : Type 0 where
  pub relation_id : ℕ
  pub rid : Rid

unfoldable pub record_lock_id_eq : RecordLockId → RecordLockId → Bool
record_lock_id_eq a b = a.relation_id == b.relation_id && rid_eq a.rid b.rid

pub record_lock_id_eq_iff : (a b : RecordLockId) → (record_lock_id_eq a b ≡ true) ↔ (a ≡ b)
unfolding record_lock_id_eq
record_lock_id_eq_iff a b = ground (arith, rid_eq_iff a.rid b.rid)

instance abbrev pub record_lock_key : Eq RecordLockId
record_lock_key = record { beq = record_lock_id_eq; beq_iff = record_lock_id_eq_iff }

pub record Transaction : Type 0 where
  pub txn_id : ℕ
  pub state : TransactionState
  pub last_lsn : ℕ
  pub table_locks : List (ℕ × LockMode)
  pub record_locks : List (RecordLockId × LockMode)

unfoldable pub new_transaction : ℕ → Transaction
new_transaction id = record {
  txn_id = id;
  state = active;
  last_lsn = 0;
  table_locks = [];
  record_locks = [];
}

abbrev pub mode_eq : LockMode → LockMode → Bool
mode_eq intent_shared intent_shared = true
mode_eq intent_exclusive intent_exclusive = true
mode_eq shared shared = true
mode_eq shared_intent_exclusive shared_intent_exclusive = true
mode_eq exclusive exclusive = true
mode_eq _ _ = false

pub mode_eq_iff : (a b : LockMode) → (mode_eq a b ≡ true) ↔ (a ≡ b)
mode_eq_iff a b = ground arith

abbrev pub is_active_or_waiting : TransactionState → Bool
is_active_or_waiting active = true
is_active_or_waiting waiting = true
is_active_or_waiting _ = false

unfoldable pub set_state : TransactionState → Transaction → Transaction
set_state st t = record t { state = st }

abbrev pub abort_pending_or_done : TransactionState → Bool
abort_pending_or_done aborting = true
abort_pending_or_done aborted = true
abort_pending_or_done _ = false

unfoldable pub is_abort_pending_or_done : Transaction → Bool
is_abort_pending_or_done t = abort_pending_or_done t.state

-- The new state, and whether the transaction is aborting now.
abbrev pub mark_aborting : TransactionState → TransactionState × Bool
mark_aborting committed = (committed, false)
mark_aborting aborted = (aborted, false)
mark_aborting aborting = (aborting, true)
mark_aborting _ = (aborting, true)

unfoldable pub try_mark_aborting : Transaction → Transaction × Bool
try_mark_aborting t = (record t { state = (mark_aborting t.state).0 }, (mark_aborting t.state).1)

unfoldable pub set_waiting_if_not_aborting : Transaction → Transaction
set_waiting_if_not_aborting t =
    if is_active_or_waiting t.state then record t { state = waiting } else t

unfoldable pub set_active_if_not_aborting : Transaction → Transaction
set_active_if_not_aborting t =
    if is_active_or_waiting t.state then record t { state = active } else t

unfoldable pub set_last_lsn : ℕ → Transaction → Transaction
set_last_lsn lsn t = record t { last_lsn = lsn }

unfoldable pub get_table_lock_mode : Transaction → ℕ → Option LockMode
get_table_lock_mode t relation_id = find relation_id t.table_locks

unfoldable pub get_record_lock_mode : Transaction → RecordLockId → Option LockMode
get_record_lock_mode t id = find id t.record_locks

abbrev holds : (LockMode → Bool) → Option LockMode → Bool
holds test none = false
holds test (some held) = test held

unfoldable pub holds_table_is : Transaction → ℕ → Bool
unfolding get_table_lock_mode
holds_table_is t relation_id =
    holds
      (λ held.
        mode_eq held intent_shared
        || (mode_eq held intent_exclusive
            || (mode_eq held shared
                || (mode_eq held shared_intent_exclusive || mode_eq held exclusive))))
      (get_table_lock_mode t relation_id)

unfoldable pub holds_table_ix : Transaction → ℕ → Bool
unfolding get_table_lock_mode
holds_table_ix t relation_id =
    holds
      (λ held.
        mode_eq held intent_exclusive
        || (mode_eq held shared_intent_exclusive || mode_eq held exclusive))
      (get_table_lock_mode t relation_id)

unfoldable pub holds_table_s : Transaction → ℕ → Bool
unfolding get_table_lock_mode
holds_table_s t relation_id =
    holds
      (λ held.
        mode_eq held shared || (mode_eq held shared_intent_exclusive || mode_eq held exclusive))
      (get_table_lock_mode t relation_id)

unfoldable pub holds_table_six : Transaction → ℕ → Bool
unfolding get_table_lock_mode
holds_table_six t relation_id =
    holds (λ held. mode_eq held shared_intent_exclusive || mode_eq held exclusive)
      (get_table_lock_mode t relation_id)

unfoldable pub holds_table_x : Transaction → ℕ → Bool
unfolding get_table_lock_mode
holds_table_x t relation_id =
    holds (λ held. mode_eq held exclusive) (get_table_lock_mode t relation_id)

unfoldable pub holds_record_s : Transaction → RecordLockId → Bool
unfolding get_record_lock_mode
holds_record_s t id =
    holds (λ held. mode_eq held shared || mode_eq held exclusive) (get_record_lock_mode t id)

unfoldable pub holds_record_x : Transaction → RecordLockId → Bool
unfolding get_record_lock_mode
holds_record_x t id = holds (λ held. mode_eq held exclusive) (get_record_lock_mode t id)

unfoldable pub add_table_lock : ℕ → LockMode → Transaction → Transaction
add_table_lock relation_id mode t = record t { table_locks = assign relation_id mode t.table_locks }

unfoldable pub add_record_lock : RecordLockId → LockMode → Transaction → Transaction
add_record_lock id mode t = record t { record_locks = assign id mode t.record_locks }

count_on : ℕ → List (RecordLockId × LockMode) → ℕ
count_on relation_id [] = 0
count_on relation_id ((id, mode) ∷ rest) =
    (if id.relation_id == relation_id then 1 else 0) + count_on relation_id rest

unfoldable pub count_record_locks_on_relation : Transaction → ℕ → ℕ
unfolding count_on
count_record_locks_on_relation t relation_id = count_on relation_id t.record_locks

unfoldable pub clear_all_locks : Transaction → Transaction
clear_all_locks t = record t { table_locks = []; record_locks = [] }
