-- ===== src/Semaphore.antt =====
-- src/semaphore.rs: the futex-based `Semaphore`, one atomic access at a time.
pub mod Inv
pub mod Moves
pub mod Permits
pub mod Calls
pub mod Labels
pub mod Refines
pub mod Arriving
pub mod Progress
pub mod Workers
pub mod Suite
mod Tests
use atomics_for_peace_and_sy.Base.{
  ℕ, ◌+◌, ◌-◌, ◌%◌, ◌^◌, Bool, true, false, ◌&&◌, not, List, ltb, ◌==◌, if◌then◌else◌,
}
use atomics_for_peace_and_sy.Futex.{AtomicWait, Wake, silent, one, Program}

pub record Semaphore : Type 0 where
  pub count : ℕ  -- AtomicU32
  pub num_waiting : ℕ  -- AtomicU32

abbrev pub u32_mod : ℕ
u32_mod = 2 ^ 32

-- `Semaphore::new`
abbrev pub new : ℕ → Semaphore
new initial_count = record { count = initial_count; num_waiting = 0 }

-- What the last call returned.
pub data Outcome : Type 0 where
  no_call : Outcome
  waited : Outcome
  signalled : Outcome
  returned : Bool → Outcome  -- of `try_wait` and `try_wait_duration`

-- Where a thread stands. `timed` tells `try_wait_duration` from `try_wait`.
pub data Pc : Type 0 where
  outside : Outcome → Pc
  announce : Pc  -- the increment of `num_waiting`
  load_count : Pc  -- the load at the head of the loop in `wait`
  wait_call : Pc  -- the call of `wait`, after a load of 0
  sleeping : Pc
  exchange : (count : ℕ) → Pc
  retire : Pc  -- the decrement of `num_waiting`
  clock : Pc  -- the test of the deadline in `try_wait_duration`
  try_load : (timed : Bool) → Pc
  try_exchange : (timed : Bool) → (count : ℕ) → Pc
  add : Pc  -- the increment of `count` in `signal`
  load_waiting : Pc  -- the load of `num_waiting` in `signal`
  wake : Pc  -- the call of `wake_one`

-- A thread. What it took from `count` and added to it so far is written down for the theorems; the
-- code has no such numbers.
pub record Thread : Type 0 where
  pub taken : ℕ
  pub given : ℕ
  pub at : Pc

pub data Choice : Type 0 where
  call_wait : Choice
  call_try_wait : Choice
  call_try_wait_duration : Choice
  call_signal : Choice
  proceed : Choice
  fail_spuriously : Choice
  deadline_passed : Choice

-- the semaphore, the thread, and whom the step wakes
abbrev pub Next : Type 0
Next = Semaphore × Thread × Wake

abbrev pub weak_fails : Choice → Bool
weak_fails fail_spuriously = true
weak_fails _ = false

abbrev pub is_late : Choice → Bool
is_late deadline_passed = true
is_late _ = false

abbrev goto : Semaphore → Thread → Pc → Next
goto m t p = (m, record t { at = p }, silent)

client : Choice → Semaphore → Thread → Next
client call_wait m t = goto m t announce
client call_try_wait m t = goto m t (try_load false)
client call_try_wait_duration m t = goto m t clock
client call_signal m t = goto m t add
client proceed m t = (m, t, silent)
client fail_spuriously m t = (m, t, silent)
client deadline_passed m t = (m, t, silent)

-- where `try_wait` goes when it has no permit: it returns false, or `try_wait_duration` goes on
abbrev pub refused : Bool → Pc
refused timed = if timed then clock else outside (returned false)

-- the exchange of a count for the next lower one
abbrev take : Bool → ℕ → Semaphore → Thread → (won lost : Pc) → Next
take fails count m t won lost =
    if m.count == count && not fails
    then (record m { count = count - 1 }, record t { taken = t.taken + 1; at = won }, silent)
    else goto m t lost

module _ (futex : AtomicWait) where
  step_at : Choice → Semaphore → Thread → Pc → Next
  unfolding client
  step_at c m t (outside last) = client c m t
  step_at c m t announce =
      goto (record m { num_waiting = (m.num_waiting + 1) % u32_mod }) t load_count
  step_at c m t load_count = goto m t (if m.count == 0 then wait_call else exchange m.count)
  step_at c m t wait_call = goto m t (if futex.blocks m.count 0 then sleeping else load_count)
  step_at c m t sleeping = goto m t load_count
  step_at c m t (exchange count) = take (weak_fails c) count m t retire load_count
  step_at c m t retire =
      goto (record m { num_waiting = (m.num_waiting + u32_mod - 1) % u32_mod }) t (outside waited)
  step_at c m t clock = goto m t (if is_late c then outside (returned false) else try_load true)
  step_at c m t (try_load timed) =
      goto m t (if m.count == 0 then refused timed else try_exchange timed m.count)
  step_at c m t (try_exchange timed count) =
      take (weak_fails c) count m t (outside (returned true)) (refused timed)
  step_at c m t add = (
    record m { count = (m.count + 1) % u32_mod },
    record t { given = t.given + 1; at = load_waiting },
    silent,
  )
  step_at c m t load_waiting = goto m t (if ltb 0 m.num_waiting then wake else outside signalled)
  step_at c m t wake = (m, record t { at = outside signalled }, one 0)

  pub step : ℕ → Choice → Semaphore → Thread → Next
  unfolding step_at
  step i c m t = step_at c m t t.at

-- Everybody sleeps on `count`, which is atomic 0 here.
abbrev pub asleep : ℕ → Thread → Bool
asleep a t = elim t.at [ sleeping ↦ a == 0 | _ ↦ false ]

abbrev pub woken : Thread → Thread
woken t = record t { at = load_count }

abbrev pub program : AtomicWait → Program Semaphore Thread Choice
program futex = record { step = step futex; asleep = asleep; woken = woken }
