-- ===== src/MutexV2.antt =====
-- src/mutex_v2.rs: the futex-based `Mutex`, its guard and the thread-local set of acquired locks,
-- one atomic access (or one access of a plain cell or of the set) at a time.
pub mod Inv
pub mod Exclusion
pub mod Poison
pub mod Owner
pub mod Refines
pub mod Calls
pub mod Arriving
pub mod Releasing
pub mod Progress
pub mod Suite
mod Tests
use atomics_for_peace_and_sy.Base.{
  ℕ, ◌+◌, ◌-◌, Bool, true, false, ◌&&◌, not, List, ltb, ◌==◌, if◌then◌else◌,
}
use atomics_for_peace_and_sy.Futex.{AtomicWait, Wake, silent, one, Program}
use atomics_for_peace_and_sy.ThreadLocal.{contains, insert, remove}

abbrev pub unlocked : ℕ
unlocked = 0

abbrev pub locked : ℕ
locked = 1

abbrev pub locked_has_waiters : ℕ
locked_has_waiters = 2

-- `Mutex<T>`
pub record Mutex (T : Type 0) : Type 0 where
  pub mutex_id : ℕ
  pub data_cell : T
  pub state : ℕ  -- AtomicU32
  pub poisoned : Bool

-- `Mutex::new`, with the next identifier of NEXT_ID
abbrev pub new : {T : Type 0} → ℕ → T → Mutex T
new next_id d = record { mutex_id = next_id; data_cell = d; state = 0; poisoned = false }

-- What the last call of `lock` or `try_lock` returned: `Ok(guard)`, `Err(WouldBlock)`, or
-- `Err(Poisoned)`, which holds a guard too.
pub data Outcome : Type 0 where
  no_call : Outcome
  acquired : Outcome
  would_block : Outcome
  poisoned_lock : Outcome

pub data Pc (T : Type 0) : Type 0 where
  outside : Outcome → Pc T
  viewed : T → Pc T  -- has read the data through its guard
  check : (try : Bool) → Pc T  -- `acquired_check`
  fast : (try : Bool) → Pc T  -- the first, weak exchange
  spin : ℕ → Pc T  -- the loop that waits for UNLOCKED, with its counter
  second : Pc T  -- the exchange after the loop
  slow : Pc T  -- the exchange to LOCKED_HAS_WAITERS
  wait_call : Pc T  -- the call of `wait`
  sleeping : Pc T
  enter : Pc T  -- `set_acquired`, then `is_poisoned`
  leave : (panicking : Bool) → Pc T  -- `drop` of the guard, up to `remove_acquired`
  swap : Pc T  -- the swap in `drop`
  wake : Pc T  -- the call of `wake_one`

-- A thread: its part of ACQUIRED_BY_THREAD, how many guards of this mutex it has, where it stands.
pub record Thread (T : Type 0) : Type 0 where
  pub acquired_ids : List ℕ
  pub guards : ℕ
  pub at : Pc T

pub data Choice (T : Type 0) : Type 0 where
  call_lock : Choice T
  call_try_lock : Choice T
  read : Choice T
  write : T → Choice T
  unlock : Choice T
  panic : Choice T
  clear_poison : Choice T
  proceed : Choice T
  fail_spuriously : Choice T

-- the mutex, the thread, and whom the step wakes
abbrev pub Next : Type 0 → Type 0
Next T = Mutex T × Thread T × Wake

module _ {T : Type 0} where
  abbrev pub weak_fails : Choice T → Bool
  weak_fails fail_spuriously = true
  weak_fails _ = false

  abbrev goto : Mutex T → Thread T → Pc T → Next T
  goto m t p = (m, record t { at = p }, silent)

  -- What a thread may do outside the calls. It uses and drops only a guard that it has.
  client : Choice T → Mutex T → Thread T → Next T
  client call_lock m t = goto m t (check false)
  client call_try_lock m t = goto m t (check true)
  client read m t = if ltb 0 t.guards then goto m t (viewed m.data_cell) else (m, t, silent)
  client (write v) m t =
      if ltb 0 t.guards
      then goto (record m { data_cell = v }) t (outside no_call)
      else (m, t, silent)
  client unlock m t = if ltb 0 t.guards then goto m t (leave false) else (m, t, silent)
  client panic m t = if ltb 0 t.guards then goto m t (leave true) else (m, t, silent)
  client clear_poison m t = goto (record m { poisoned = false }) t (outside no_call)
  client proceed m t = (m, t, silent)
  client fail_spuriously m t = (m, t, silent)

  -- `acquired_check`: whether the thread has this mutex already
  abbrev pub acquired_check : Mutex T → Thread T → Bool
  acquired_check m t = contains t.acquired_ids m.mutex_id

  -- the exchange of UNLOCKED for `new_state`
  abbrev exchange : Bool → ℕ → Mutex T → Thread T → Pc T → Next T
  exchange fails new_state m t otherwise =
      if m.state == unlocked && not fails
      then goto (record m { state = new_state }) t enter
      else goto m t otherwise

  module _ (futex : AtomicWait) where
    step_at : Choice T → Mutex T → Thread T → Pc T → Next T
    unfolding client
    step_at c m t (outside last) = client c m t
    step_at c m t (viewed v) = client c m t
    step_at c m t (check try) =
        goto m t (if acquired_check m t then outside would_block else fast try)
    step_at c m t (fast true) = exchange (weak_fails c) locked m t (outside would_block)
    step_at c m t (fast false) = exchange (weak_fails c) locked m t (spin 0)
    step_at c m t (spin counter) =
        goto m t
          (if ltb counter 100 && not (m.state == unlocked) then spin (counter + 1) else second)
    step_at c m t second = exchange false locked m t slow
    step_at c m t slow = exchange false locked_has_waiters m t wait_call
    step_at c m t wait_call =
        goto m t (if futex.blocks m.state locked_has_waiters then sleeping else slow)
    step_at c m t sleeping = goto m t slow
    step_at c m t enter = (
      m,
      record {
        acquired_ids = insert t.acquired_ids m.mutex_id;
        guards = t.guards + 1;
        at = outside (if m.poisoned then poisoned_lock else acquired);
      },
      silent,
    )
    step_at c m t (leave panicking) = (
      (if panicking then record m { poisoned = true } else m),
      record t { acquired_ids = remove t.acquired_ids m.mutex_id; at = swap },
      silent,
    )
    step_at c m t swap = (
      record m { state = unlocked },
      record t {
        guards = t.guards - 1;
        at = if m.state == locked_has_waiters then wake else outside no_call;
      },
      silent,
    )
    step_at c m t wake = (m, record t { at = outside no_call }, one 0)

    pub step : ℕ → Choice T → Mutex T → Thread T → Next T
    unfolding step_at
    step i c m t = step_at c m t t.at

  -- Everybody sleeps on `state`, which is atomic 0 here.
  abbrev pub asleep : ℕ → Thread T → Bool
  asleep a t = elim t.at [ sleeping ↦ a == 0 | _ ↦ false ]

  abbrev pub woken : Thread T → Thread T
  woken t = record t { at = slow }

  abbrev pub program : AtomicWait → Program (Mutex T) (Thread T) (Choice T)
  program futex = record { step = step futex; asleep = asleep; woken = woken }
