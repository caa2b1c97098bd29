-- ===== src/MutexV2/Tests.antt =====
-- src/mutex_v2.rs: threads that contend for the mutex, and the theorems at what they reach.
use atomics_for_peace_and_sy.Base.{
  ℕ, zero, suc, ◌<◌, ◌≡◌, refl, ◌≢◌, ◌⊎◌, true, List, [], ◌∷◌, ◌++◌, arith,
}
use atomics_for_peace_and_sy.Threads.{System}
use atomics_for_peace_and_sy.ThreadLocal.{contains, insert, remove}
use atomics_for_peace_and_sy.Futex.{run, alone}
use atomics_for_peace_and_sy.Futex.Scanning.{scanning}
use atomics_for_peace_and_sy.MutexV2.Owner.{lock_of}
use atomics_for_peace_and_sy.MutexV2.Refines.{mutex, start, futex_mutex_refines}
use atomics_for_peace_and_sy.Simulation.{Trace, history}
use atomics_for_peace_and_sy.LockSpec.{free, taken, Move}
use atomics_for_peace_and_sy.MutexV2.{
  Mutex, new, no_call, acquired, poisoned_lock, outside, sleeping, Thread, Choice, call_lock,
  call_try_lock, unlock, panic, proceed, step, program,
}
use atomics_for_peace_and_sy.MutexV2.Inv.{holders, alarms}
use atomics_for_peace_and_sy.MutexV2.Exclusion.{execute, mutual_exclusion, no_lost_wakeup}
use atomics_for_peace_and_sy.Futex.Possible.{Possible}
use atomics_for_peace_and_sy.MutexV2.Progress.{lock-Possible}
use atomics_for_peace_and_sy.MutexV2.Poison.{poisoned_until_cleared}
use atomics_for_peace_and_sy.MutexV2.Calls.{free_thread, lock_steps, unlock_steps, lock-unlock}

abbrev times : ℕ → ℕ → Choice ℕ → List (ℕ × Choice ℕ × ℕ)
times zero i c = []
times (suc k) i c = (i, c, 0) ∷ times k i c

-- thread `i` takes a idle_mutex mutex
abbrev takes : ℕ → List (ℕ × Choice ℕ × ℕ)
takes i = (i, call_lock, 0) ∷ times 3 i proceed

-- thread `i` gives its guard back
abbrev gives : ℕ → List (ℕ × Choice ℕ × ℕ)
gives i = (i, unlock, 0) ∷ times 2 i proceed

-- Threads 1 and 2 find the mutex locked twice and loop on the last exchange. When thread 0 unlocks,
-- thread 1 gets it with LOCKED_HAS_WAITERS, and thread 2 sleeps.
abbrev contended : List (ℕ × Choice ℕ × ℕ)
contended =
    takes 0
    ++ ((1, call_lock, 0) ∷ times 2 1 proceed)
    ++ ((2, call_lock, 0) ∷ times 2 2 proceed)
    ++ gives 0
    ++ (times 1 1 proceed ++ times 1 2 proceed)
    ++ takes 0
    ++ (times 1 1 proceed ++ times 1 2 proceed)
    ++ gives 0
    ++ (times 2 1 proceed ++ times 2 2 proceed)

abbrev panicked : List (ℕ × Choice ℕ × ℕ)
panicked = takes 0 ++ ((0, panic, 0) ∷ times 2 0 proceed)

abbrev result : List (ℕ × Choice ℕ × ℕ) → System (Mutex ℕ) (Thread ℕ)
result es = execute scanning 3 (new 5 7) es

contended_run :
    ((result contended).mem.state ≡ 2)
    × ((result contended).pc 1
        ≡ record { acquired_ids = 5 ∷ []; guards = 1; at = outside acquired })
    × (((result contended).pc 2).at ≡ sleeping)
unfolding execute run step insert contains remove
contended_run = (refl, refl, refl)

panicked_run :
    ((result panicked).mem ≡ record { mutex_id = 5; data_cell = 7; state = 0; poisoned = true })
    × (((result (panicked ++ takes 1)).pc 1).at ≡ outside poisoned_lock)
unfolding execute run step insert contains remove
panicked_run = (refl, refl)

mutual_exclusion_example : ◌≡◌ {A = ℕ} 1 1 × (((result contended).pc 1).guards ≡ 1)
unfolding execute run step insert contains remove
mutual_exclusion_example =
    mutual_exclusion scanning 3 5 7 contended 1 1 (omega arith) (omega arith) (omega arith)
      (omega arith)

no_lost_wakeup_example :
    (j : ℕ) × (j < 3)
    × ((((result contended).mem.state ≡ 2) × (0 < holders ((result contended).pc j)))
        ⊎ (0 < alarms ((result contended).pc j)))
unfolding execute run step insert contains remove
no_lost_wakeup_example = no_lost_wakeup scanning 3 5 7 contended 2 (omega arith) refl

poisoned_until_cleared_example :
    let r = run scanning (program scanning) 3 (result panicked) (takes 1) in
    (r.mem.poisoned ≡ true) × ((r.pc 1).at ≢ outside acquired)
unfolding execute run step insert contains remove
poisoned_until_cleared_example =
    poisoned_until_cleared scanning 3 (result panicked) (takes 1) 1 (ground arith) refl
      (ground arith)

abbrev idle_mutex : Mutex ℕ
idle_mutex = record { mutex_id = 5; data_cell = 7; state = 0; poisoned = true }

lock-unlock_example :
    let (m1, t1) =
      alone
        (program scanning)
        0
        (idle_mutex, free_thread (9 ∷ []) no_call)
        (lock_steps call_try_lock) in
    let (m2, t2) = alone (program scanning) 0 (m1, t1) unlock_steps in
    (m1.state ≡ 1)
    × (t1.guards ≡ 1)
    × (t1.at ≡ outside poisoned_lock)
    × (m2 ≡ idle_mutex)
    × (t2 ≡ free_thread (9 ∷ []) no_call)
unfolding contains
lock-unlock_example = lock-unlock scanning 0 idle_mutex (9 ∷ []) no_call true refl refl

futex_mutex_refines_example :
    Trace Move
      (history (mutex scanning 3) (start 5 7) contended)
      (free 7)
      (lock_of 3 (result contended))
futex_mutex_refines_example = futex_mutex_refines scanning 3 5 7 contended

-- what the mutex stands for at the end of `contended`
contended_lock : lock_of 3 (result contended) ≡ taken 1 7
unfolding execute run step insert contains remove
contended_lock = refl

-- Thread 2 sleeps while thread 1 has the mutex.
lock-Possible_example :
    Possible scanning (program scanning) 3 (λ t. 0 < (t.pc 2).guards) (result contended)
unfolding execute run step insert contains remove
lock-Possible_example = lock-Possible scanning 3 5 7 contended 2 (omega arith) tt
