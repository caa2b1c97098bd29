-- ===== src/Spinlock.antt =====
-- src/spinlock.rs: `SpinLock`, `lock`, the guard's `deref`, `deref_mut`, `unlock` and `drop`, one
-- atomic access at a time.
pub mod Exclusion
pub mod Refines
pub mod Suite
mod Tests
use atomics_for_peace_and_sy.Base.{ℕ, Bool, true, false, ◌&&◌, not, ◌==◌, if◌then◌else◌}
use atomics_for_peace_and_sy.Threads.{System}

-- `SpinLock<T>`
pub record SpinLock (T : Type 0) : Type 0 where
  pub locking_thread : ℕ  -- AtomicUsize, 0 if no thread holds the lock
  pub data_cell : T

-- `SpinLock::new`
abbrev pub new : {T : Type 0} → T → SpinLock T
new d = record { locking_thread = 0; data_cell = d }

-- Where a thread stands. `owns` says that it entered `lock` while it holds a guard.
pub data Pc (T : Type 0) : Type 0 where
  idle : Pc T  -- no guard, outside `lock`
  check : (owns : Bool) → Pc T  -- the first load of `lock`
  spin : (owns : Bool) → Pc T  -- the load in the loop
  exchange : (owns : Bool) → Pc T  -- the compare_exchange_weak
  held : Pc T  -- has a `SpinGuard`
  viewed : T → Pc T  -- has a `SpinGuard`, and has read the data through `deref`
  panicking : (owns : Bool) → Pc T  -- unwinding, which drops the guard

-- What the environment chooses: the client's next call, or whether a weak exchange fails.
pub data Choice (T : Type 0) : Type 0 where
  call_lock : Choice T
  read : Choice T
  write : T → Choice T
  unlock : Choice T
  panic : Choice T
  proceed : Choice T
  fail_spuriously : Choice T

module _ {T : Type 0} where
  -- `compare_exchange_weak` may fail although the value is the expected one.
  abbrev pub weak_fails : Choice T → Bool
  weak_fails fail_spuriously = true
  weak_fails _ = false

  -- `Drop for SpinGuard`
  abbrev pub guard_drop : SpinLock T → SpinLock T
  guard_drop m = record m { locking_thread = 0 }

  -- calls of a client that holds a guard
  pub client : Choice T → SpinLock T → Pc T → SpinLock T × Pc T
  client call_lock m p = (m, check true)
  client read m p = (m, viewed m.data_cell)
  client (write v) m p = (record m { data_cell = v }, held)
  client unlock m p = (guard_drop m, idle)
  client panic m p = (m, panicking true)
  client proceed m p = (m, p)
  client fail_spuriously m p = (m, p)

  -- One step of the thread whose `thread_id::get()` is `current_thread`.
  pub step : ℕ → Choice T → SpinLock T → Pc T → SpinLock T × Pc T
  unfolding client
  step current_thread call_lock m idle = (m, check false)
  step current_thread c m idle = (m, idle)
  step current_thread c m (check owns) =
      (m, if m.locking_thread == current_thread then panicking owns else spin owns)
  step current_thread c m (spin owns) =
      (m, if m.locking_thread == 0 then exchange owns else spin owns)
  step current_thread c m (exchange owns) =
      if m.locking_thread == 0 && not (weak_fails c)
      then (record m { locking_thread = current_thread }, held)
      else (m, spin owns)
  step current_thread c m held = client c m held
  step current_thread c m (viewed v) = client c m (viewed v)
  step current_thread c m (panicking true) = (guard_drop m, idle)
  step current_thread c m (panicking false) = (m, idle)

  -- The thread has a guard.
  abbrev pub holds : Pc T → Bool
  holds idle = false
  holds (check owns) = owns
  holds (spin owns) = owns
  holds (exchange owns) = owns
  holds held = true
  holds (viewed v) = true
  holds (panicking owns) = owns
