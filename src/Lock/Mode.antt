-- ===== src/Lock/Mode.antt =====
-- The rules on lock modes: concurrency/lock_manager_helpers.cpp, and LockManager::Compatible of
-- concurrency/lock_manager_common.cpp.
use granite_db.Prelude.{◌≡◌, Bool, true, false, not, ◌&&◌, ◌||◌, if◌then◌else◌, arith}
use granite_db.Transaction.{
  LockMode, intent_shared, intent_exclusive, shared, shared_intent_exclusive, exclusive, mode_eq,
}

unfoldable pub is_table_lock_mode : LockMode → Bool
is_table_lock_mode mode =
    mode_eq mode intent_shared
    || (mode_eq mode intent_exclusive
        || (mode_eq mode shared
            || (mode_eq mode shared_intent_exclusive || mode_eq mode exclusive)))

unfoldable pub is_tuple_or_range_lock_mode : LockMode → Bool
is_tuple_or_range_lock_mode mode = mode_eq mode shared || mode_eq mode exclusive

unfoldable pub combine_table_modes : LockMode → LockMode → LockMode
combine_table_modes current requested =
    if mode_eq current requested
    then current
    else if mode_eq current exclusive || mode_eq requested exclusive
    then exclusive
    else if mode_eq current shared_intent_exclusive || mode_eq requested shared_intent_exclusive
    then shared_intent_exclusive
    else if (mode_eq current shared && mode_eq requested intent_exclusive)
        || (mode_eq current intent_exclusive && mode_eq requested shared)
    then shared_intent_exclusive
    else if mode_eq current shared || mode_eq requested shared
    then shared
    else if mode_eq current intent_exclusive || mode_eq requested intent_exclusive
    then intent_exclusive
    else intent_shared

unfoldable pub combine_tuple_or_range_modes : LockMode → LockMode → LockMode
combine_tuple_or_range_modes current requested =
    if mode_eq current exclusive || mode_eq requested exclusive then exclusive else shared

unfoldable pub table_mode_satisfies : LockMode → LockMode → Bool
table_mode_satisfies held requested = mode_eq (combine_table_modes held requested) held

unfoldable pub tuple_or_range_mode_satisfies : LockMode → LockMode → Bool
tuple_or_range_mode_satisfies held requested =
    mode_eq (combine_tuple_or_range_modes held requested) held

table_compatible : LockMode → LockMode → Bool
table_compatible intent_shared held =
    mode_eq held intent_shared
    || (mode_eq held intent_exclusive
        || (mode_eq held shared || mode_eq held shared_intent_exclusive))
table_compatible intent_exclusive held = mode_eq held intent_shared || mode_eq held intent_exclusive
table_compatible shared held = mode_eq held intent_shared || mode_eq held shared
table_compatible shared_intent_exclusive held = mode_eq held intent_shared
table_compatible exclusive held = false

unfoldable pub compatible : Bool → LockMode → LockMode → Bool
unfolding table_compatible
compatible is_table_lock requested held =
    if is_table_lock
    then table_compatible requested held
    else (mode_eq requested shared && mode_eq held shared)

unfoldable pub range_modes_compatible : LockMode → LockMode → Bool
range_modes_compatible requested held = mode_eq requested shared && mode_eq held shared

-- Which of two transactions asks does not matter.
pub compatible_symm :
    (is_table_lock : Bool) (a b : LockMode)
    → compatible is_table_lock a b ≡ compatible is_table_lock b a
unfolding compatible
compatible_symm is_table_lock a b = ground arith

-- The combined mode conflicts with exactly what one of the two modes conflicts with, so an upgrade
-- asks for no more than it needs and for no less.
pub combine_table_modes_exact :
    (requested a b : LockMode)
    → compatible true requested (combine_table_modes a b)
      ≡ (compatible true requested a && compatible true requested b)
unfolding compatible combine_table_modes
combine_table_modes_exact requested a b = ground arith

pub every_mode : (LockMode → Bool) → Bool
every_mode test =
    test intent_shared
    && (test intent_exclusive && (test shared && (test shared_intent_exclusive && test exclusive)))

-- A held mode satisfies a requested one exactly when each mode that may be granted beside the held
-- one may also be granted beside the requested one.
pub table_mode_satisfies-compatible :
    (held requested : LockMode)
    → table_mode_satisfies held requested
      ≡ every_mode (λ other. not (compatible true other held) || compatible true other requested)
unfolding combine_table_modes table_mode_satisfies compatible every_mode
table_mode_satisfies-compatible held requested = ground arith
