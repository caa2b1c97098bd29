-- ===== src/LockErrors/Tests.antt =====
-- src/utils/mutex_common.rs and src/rwlock.rs: two errors with different guards are equal.
use atomics_for_peace_and_sy.Base.{ℕ, ◌≡◌, refl, true, false}
use atomics_for_peace_and_sy.LockErrors.{LockError, RwLockError, lock_error_eq, rwlock_error_eq}

abbrev first : LockError ℕ
first = LockError.poisoned (record { guard = 1 })

abbrev other : LockError ℕ
other = LockError.poisoned (record { guard = 2 })

guards_ignored : lock_error_eq first other ≡ true
unfolding lock_error_eq
guards_ignored = refl

abbrev crowded : RwLockError ℕ
crowded = RwLockError.too_many_readers

abbrev blocking : RwLockError ℕ
blocking = RwLockError.would_block

kinds_differ : rwlock_error_eq crowded blocking ≡ false
unfolding rwlock_error_eq
kinds_differ = refl
