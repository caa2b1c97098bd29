-- ===== src/Spinlock/Tests.antt =====
-- src/spinlock.rs: two threads that contend, and the theorems at what they reach.
use atomics_for_peace_and_sy.Base.{ℕ, suc, ◌≡◌, refl, false, List, [], ◌∷◌, arith}
use atomics_for_peace_and_sy.Threads.{System, run}
use atomics_for_peace_and_sy.Spinlock.{
  SpinLock, Pc, new, idle, spin, held, Choice, call_lock, write, panic, proceed, fail_spuriously,
  step,
}
use atomics_for_peace_and_sy.Spinlock.Exclusion.{ThreadIds, execute}
use atomics_for_peace_and_sy.Spinlock.Refines.{spinlock, lock_of, spinlock_refines}
use atomics_for_peace_and_sy.Simulation.{Trace, history}
use atomics_for_peace_and_sy.LockSpec.{free, internal, acquires, Move}

abbrev own_ids : ℕ → ℕ
own_ids i = suc i

own_ids-ThreadIds : ThreadIds own_ids
own_ids-ThreadIds = record { nonzero = λ i. omega arith; distinct = λ i j e. omega arith }

-- thread 0 locks, after a spurious failure, while thread 1 spins
abbrev contended : List (ℕ × Choice ℕ)
contended =
    (0, call_lock)
    ∷ (0, proceed)
    ∷ (1, call_lock)
    ∷ (0, proceed)
    ∷ (0, fail_spuriously)
    ∷ (0, proceed)
    ∷ (0, proceed)
    ∷ (1, proceed)
    ∷ (1, proceed)
    ∷ []

contended_run :
    let s = execute own_ids 2 7 contended in
    (s.mem ≡ record { locking_thread = 1; data_cell = 7 }) × (s.pc 0 ≡ held) × (s.pc 1 ≡ spin false)
unfolding execute run step
contended_run = (refl, refl, refl)

abbrev panicking_holder : List (ℕ × Choice ℕ)
panicking_holder =
    (0, call_lock)
    ∷ (0, proceed)
    ∷ (0, proceed)
    ∷ (0, proceed)
    ∷ (0, write 9)
    ∷ (0, panic)
    ∷ (0, proceed)
    ∷ []

-- after a panic with the guard the lock is free
panic_result :
    (execute own_ids 2 7 panicking_holder).mem ≡ record { locking_thread = 0; data_cell = 9 }
unfolding execute run step
panic_result = refl

abbrev start : System (SpinLock ℕ) (Pc ℕ)
start = record { mem = new 7; pc = λ _. idle }

-- what the threads of `contended` do to the lock
contended-history :
    history (spinlock own_ids-ThreadIds 2) start contended
    ≡ (1, internal)
      ∷ (1, internal)
      ∷ (2, internal)
      ∷ (1, internal)
      ∷ (1, internal)
      ∷ (1, internal)
      ∷ (1, acquires)
      ∷ (2, internal)
      ∷ (2, internal)
      ∷ []
unfolding history step
contended-history = refl

spinlock_refines_example :
    Trace Move
      (history (spinlock own_ids-ThreadIds 2) start contended)
      (free 7)
      (lock_of (execute own_ids 2 7 contended).mem)
spinlock_refines_example = spinlock_refines own_ids-ThreadIds 2 7 contended
