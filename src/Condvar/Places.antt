-- ===== src/Condvar/Places.antt =====
-- src/condvar.rs with src/mutex_v1.rs: where a thread stands in the mutex's code at each place of
-- this code.
use atomics_for_peace_and_sy.Base.{ℕ, ◌<◌, ◌≡◌, refl, ◌⊎◌, true, false, Option, none, some, arith}
use atomics_for_peace_and_sy.MutexV1.{
  acquired, poisoned_lock, Pc as LockPc, Thread as LockThread, Choice as LockChoice, call_lock,
  unlock, panic, in_call,
}
use atomics_for_peace_and_sy.MutexV1.Exclusion.{Inv}
use atomics_for_peace_and_sy.MutexV1.Locking.{Unlocking, Locking}
use atomics_for_peace_and_sy.Condvar.{
  World, wait_returned, wait_panicked, Pc, idle, wait_load, wait_add, wait_unlock, wait_block,
  wait_sleep, wait_sub, wait_lock, wait_unwrap, wait_unwind, Thread, Choice, on_mutex, inner_choice,
  after_unlock, after_lock, after_unwind, asleep, woken,
}

-- The thread's place in the mutex's code, and its guards, at each place of this code.
abbrev pub Place : {T : Type 0} → LockThread T → Pc → Type 0
Place t (idle wait_returned) = (in_call t.at ≡ false) × (t.guards ≡ 1)
Place t (idle (wait_panicked o)) = (o ≡ poisoned_lock) × (t.guards ≡ 0)
Place t wait_load = (in_call t.at ≡ false) × (t.guards ≡ 1)
Place t (wait_add state) = (in_call t.at ≡ false) × (t.guards ≡ 1)
Place t (wait_unlock state) = Unlocking t × (in_call t.at ≡ true)
Place t (wait_block state) = (in_call t.at ≡ false) × (t.guards ≡ 0)
Place t (wait_sleep state) = (in_call t.at ≡ false) × (t.guards ≡ 0)
Place t wait_sub = (in_call t.at ≡ false) × (t.guards ≡ 0)
Place t wait_lock = Locking t × (in_call t.at ≡ true)
Place t (wait_unwrap o) =
    (in_call t.at ≡ false) × (t.guards ≡ 1) × ((o ≡ acquired) ⊎ (o ≡ poisoned_lock))
Place t wait_unwind = Unlocking t × (in_call t.at ≡ true)
Place t p = Unit

-- The mutex's own invariant of its threads, and each thread's place.
pub record Inside {T : Type 0} (thread_id : ℕ → ℕ) (n : ℕ) (w : World T) (pc : ℕ → Thread T)
    : Type 0 where
  pub lock : Inv thread_id n w.mutex (λ j. (pc j).inner)
  pub each : (i : ℕ) → i < n → Place (pc i).inner (pc i).at

-- The step that the mutex makes, if it makes one.
abbrev pub mutex_choice : {T : Type 0} → Choice T → Pc → Option (LockChoice T)
mutex_choice (on_mutex c) (idle last) = some c
mutex_choice c (idle last) = none
mutex_choice c (wait_add state) = some unlock
mutex_choice c (wait_unlock state) = some (inner_choice c)
mutex_choice c wait_sub = some call_lock
mutex_choice c wait_lock = some (inner_choice c)
mutex_choice c (wait_unwrap acquired) = none
mutex_choice c (wait_unwrap poisoned_lock) = some panic
mutex_choice c wait_unwind = some (inner_choice c)
mutex_choice c p = none

-- Where a step in the mutex's code leads.
module _ {T : Type 0} where
  pub unlocked_Place :
      (state : ℕ) (t : LockThread T) → Unlocking t → Place t (after_unlock state t.at)
  unlocked_Place state t h = unlocked_at t.at refl
    where
      unlocked_at : (p : LockPc T) → t.at ≡ p → Place t (after_unlock state t.at)
      unlocked_at p e = ground arith

  pub unwound_Place : (t : LockThread T) → Unlocking t → Place t (after_unwind t.at)
  unwound_Place t h = unwound_at t.at refl
    where
      unwound_at : (p : LockPc T) → t.at ≡ p → Place t (after_unwind t.at)
      unwound_at p e = ground arith

  pub locked_Place :
      (t : LockThread T) (p : LockPc T) → t.at ≡ p → Locking t → Place t (after_lock t.at)
  locked_Place t p e h = ground arith

  -- A thread that is woken stays where it is in the mutex's code.
  pub woken_Place :
      (a : ℕ) (t : Thread T) (p : Pc)
      → t.at ≡ p
      → asleep a t ≡ true
      → Place t.inner t.at
      → Place t.inner (woken t).at
  woken_Place a t p e slept h = ground (arith, h)
