-- ===== src/Condvar.antt =====
-- src/condvar.rs: `CondVar` over the mutex of src/mutex_v1.rs. One step is one atomic access of the
-- condition variable, or one step of the mutex.
pub mod Places
pub mod Locked
pub mod Inv
pub mod Moves
pub mod Wakeups
pub mod Notifying
pub mod Notified
mod Tests
use atomics_for_peace_and_sy.Base.{
  ℕ, ◌+◌, ◌-◌, ◌%◌, ◌^◌, ◌≡◌, Bool, true, false, ltb, ◌==◌, if◌then◌else◌,
}
use atomics_for_peace_and_sy.Futex.{AtomicWait, Wake, silent, one, all, Program}
use atomics_for_peace_and_sy.MutexV1.{
  Mutex, Outcome as LockOutcome, acquired, poisoned_lock, Pc as LockPc, Thread as LockThread,
  Choice as LockChoice, call_lock, unlock, panic, step as lock_step, in_call,
}
use atomics_for_peace_and_sy.MutexV1

-- `CondVar`
pub record CondVar : Type 0 where
  pub counter : ℕ  -- AtomicU32: the notifications so far
  pub waiting : ℕ  -- AtomicU32

-- The condition variable, and the mutex that its threads use it with.
pub record World (T : Type 0) : Type 0 where
  pub condvar : CondVar
  pub mutex : Mutex T

abbrev pub u32_mod : ℕ
u32_mod = 2 ^ 32

-- `CondVar::new`
abbrev pub new : CondVar
new = record { counter = 0; waiting = 0 }

-- What the last call returned. `wait_panicked` is the failed `unwrap` of what `lock` returned;
-- `notified_all` keeps what its `fetch_add` returned, which the code throws away.
pub data Outcome : Type 0 where
  no_call : Outcome
  wait_returned : Outcome
  wait_panicked : LockOutcome → Outcome
  notified_one : Outcome
  notified_all : (old : ℕ) → Outcome

pub data Pc : Type 0 where
  idle : Outcome → Pc  -- outside the calls; the thread uses the mutex
  wait_load : Pc
  wait_add : (state : ℕ) → Pc
  wait_unlock : (state : ℕ) → Pc  -- in `unlock` of the guard
  wait_block : (state : ℕ) → Pc
  wait_sleep : (state : ℕ) → Pc
  wait_sub : Pc
  wait_lock : Pc  -- in `lock` of the mutex
  wait_unwrap : LockOutcome → Pc
  wait_unwind : Pc  -- in `drop` of the guard in the error
  one_bump : Pc
  one_wake : Pc
  all_bump : Pc
  all_look : (old : ℕ) → Pc  -- the load of `waiting`
  all_wake : (old : ℕ) → Pc

-- A thread: where it stands in the mutex's code with its guards, and where in this one.
pub record Thread (T : Type 0) : Type 0 where
  pub inner : LockThread T
  pub at : Pc

pub data Choice (T : Type 0) : Type 0 where
  on_mutex : LockChoice T → Choice T
  call_wait : Choice T
  call_notify_one : Choice T
  call_notify_all : Choice T
  proceed : Choice T

-- the world, the thread, and whom the step wakes
abbrev pub Next : Type 0 → Type 0
Next T = World T × Thread T × Wake

abbrev pub after_wait : Pc → Pc
after_wait (wait_sleep state) = wait_sub
after_wait p = p

module _ {T : Type 0} where
  abbrev pub goto : World T → Thread T → Pc → Next T
  goto w t p = (w, record t { at = p }, silent)

  abbrev pub set_counter : World T → ℕ → World T
  set_counter w counter = record w { condvar = record w.condvar { counter = counter } }

  abbrev pub set_waiting : World T → ℕ → World T
  set_waiting w waiting = record w { condvar = record w.condvar { waiting = waiting } }

  abbrev pub inner_choice : Choice T → LockChoice T
  inner_choice (on_mutex c) = c
  inner_choice c = MutexV1.proceed

  -- Where the end of an `unlock`, of a `lock` or of an unwinding leads.
  abbrev pub after_unlock : ℕ → LockPc T → Pc
  after_unlock state p = if in_call p then wait_unlock state else wait_block state

  abbrev pub after_lock : LockPc T → Pc
  after_lock (MutexV1.outside o) = wait_unwrap o
  after_lock p = wait_lock

  abbrev pub after_unwind : LockPc T → Pc
  after_unwind p = if in_call p then wait_unwind else idle (wait_panicked poisoned_lock)

  module _ (thread_id : ℕ → ℕ) where
    -- one step of the mutex
    abbrev pub with_mutex : ℕ → LockChoice T → World T → Thread T → (LockPc T → Pc) → Next T
    with_mutex i c w t after =
        let (m, inner) = lock_step thread_id i c w.mutex t.inner in
        (record w { mutex = m }, record { inner = inner; at = after inner.at }, silent)

    -- A call of this code is made outside the calls of the mutex, and `wait` takes a guard.
    unfoldable pub client : ℕ → Choice T → World T → Thread T → Next T
    client i (on_mutex c) w t = with_mutex i c w t (λ p. idle no_call)
    client i call_wait w t =
        if in_call t.inner.at
        then (w, t, silent)
        else if ltb 0 t.inner.guards
        then goto w t wait_load
        else (w, t, silent)
    client i call_notify_one w t = if in_call t.inner.at then (w, t, silent) else goto w t one_bump
    client i call_notify_all w t = if in_call t.inner.at then (w, t, silent) else goto w t all_bump
    client i proceed w t = (w, t, silent)

    module _ (futex : AtomicWait) where
      unfoldable pub step_at : ℕ → Choice T → World T → Thread T → Pc → Next T
      unfolding client
      step_at i c w t (idle last) = client i c w t
      step_at i c w t wait_load = goto w t (wait_add w.condvar.counter)
      step_at i c w t (wait_add state) =
          with_mutex i unlock (set_waiting w ((w.condvar.waiting + 1) % u32_mod)) t
            (after_unlock state)
      step_at i c w t (wait_unlock state) = with_mutex i (inner_choice c) w t (after_unlock state)
      step_at i c w t (wait_block state) =
          goto w t (if futex.blocks w.condvar.counter state then wait_sleep state else wait_sub)
      step_at i c w t (wait_sleep state) = goto w t wait_sub
      step_at i c w t wait_sub =
          with_mutex i call_lock (set_waiting w ((w.condvar.waiting + u32_mod - 1) % u32_mod)) t
            after_lock
      step_at i c w t wait_lock = with_mutex i (inner_choice c) w t after_lock
      step_at i c w t (wait_unwrap acquired) = goto w t (idle wait_returned)
      step_at i c w t (wait_unwrap poisoned_lock) = with_mutex i panic w t after_unwind
      step_at i c w t (wait_unwrap o) = goto w t (idle (wait_panicked o))
      step_at i c w t wait_unwind = with_mutex i (inner_choice c) w t after_unwind
      step_at i c w t one_bump = goto (set_counter w ((w.condvar.counter + 1) % u32_mod)) t one_wake
      step_at i c w t one_wake = (w, record t { at = idle notified_one }, one 0)
      step_at i c w t all_bump =
          goto (set_counter w ((w.condvar.counter + 1) % u32_mod)) t (all_look w.condvar.counter)
      step_at i c w t (all_look old) =
          goto w t (if w.condvar.waiting == 0 then idle (notified_all old) else all_wake old)
      step_at i c w t (all_wake old) = (w, record t { at = idle (notified_all old) }, all 0)

      unfoldable pub step : ℕ → Choice T → World T → Thread T → Next T
      unfolding step_at
      step i c w t = step_at i c w t t.at

  -- Threads sleep on `counter`, which is atomic 0 here.
  abbrev pub asleep : ℕ → Thread T → Bool
  asleep a t = elim t.at [ wait_sleep state ↦ a == 0 | _ ↦ false ]

  abbrev pub woken : Thread T → Thread T
  woken t = record t { at = after_wait t.at }

  abbrev pub program : (ℕ → ℕ) → AtomicWait → Program (World T) (Thread T) (Choice T)
  program thread_id futex = record { step = step thread_id futex; asleep = asleep; woken = woken }
