-- ===== src/Tests/RangeLocks.antt =====
-- LockKeyRange of concurrency/lock_manager_acquire.cpp: transaction 1 locks the keys up to 3 of an
-- index, transaction 2 those above 3 up to 9.
use granite_db.Row.Compare.{compare_values, is_numeric_type, value_to_double, sign_of}
use granite_db.Lock.Mode.{is_tuple_or_range_lock_mode, range_modes_compatible}
use granite_db.Prelude.{ℕ, refl, true, false, [], ◌∷◌, none, some, inl, inr, arith}
use mathlib.Core.List.Memᴰ
use granite_db.Transaction.{exclusive, new_transaction, is_abort_pending_or_done}
use granite_db.Row.{of_int32, is_null, get_type_id}
use granite_db.Lock.Ranges.{
  KeyRangeLockRequest, HasKeys, Inside, same_optional_key, can_grant_key_range_request,
}
use granite_db.Lock.Ranges.Acquire.{
  KeyRange, done, lock_key_range_entry, lock_key_range_round, find_key_range_request, enqueue_range,
  range_turn, grant_range, new_range_request,
}
use granite_db.Lock.Ranges.Exclusive.{Reach, start, joins, turns, ranges_exclude}
use granite_db.Tests.KeyRanges.{integers, int_keys, OneInt}

abbrev low_range : KeyRange
low_range = record {
  lower_key = none;
  upper_key = some (of_int32 3 ∷ []);
  lower_inclusive = true;
  upper_inclusive = true;
}

abbrev high_range : KeyRange
high_range = record {
  lower_key = some (of_int32 3 ∷ []);
  upper_key = some (of_int32 9 ∷ []);
  lower_inclusive = false;
  upper_inclusive = true;
}

abbrev granted_to : ℕ → KeyRange → KeyRangeLockRequest
granted_to t range = record (new_range_request t range exclusive) { granted = true }

two_ranges : Reach integers int_keys (record {
  requests = granted_to 1 low_range ∷ granted_to 2 high_range ∷ [];
  upgrading_txn = none;
})
unfolding lock_key_range_entry lock_key_range_round find_key_range_request enqueue_range range_turn
    grant_range new_range_request new_transaction HasKeys OneInt is_tuple_or_range_lock_mode
    is_abort_pending_or_done same_optional_key compare_values is_null is_numeric_type get_type_id
    value_to_double sign_of can_grant_key_range_request
two_ranges =
    turns
      (joins
        (turns (joins start (new_transaction 1) low_range exclusive _ (inl refl, inr tt) refl)
          (new_transaction 1) low_range (done true _ _) refl)
        (new_transaction 2) high_range exclusive _ (inr tt, inr tt) refl)
      (new_transaction 2) high_range (done true _ _) refl

ranges_exclude_example : ¬ (
    Inside integers int_keys (of_int32 3 ∷ []) (granted_to 1 low_range)
    × Inside integers int_keys (of_int32 3 ∷ []) (granted_to 2 high_range))
unfolding two_ranges new_range_request range_modes_compatible
ranges_exclude_example =
    ranges_exclude integers int_keys _ two_ranges (granted_to 1 low_range) (granted_to 2 high_range)
      (Memᴰ.head refl) (Memᴰ.tail (Memᴰ.head refl)) refl refl (omega arith) refl (of_int32 3 ∷ [])
