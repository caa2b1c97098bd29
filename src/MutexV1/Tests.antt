-- ===== src/MutexV1/Tests.antt =====
-- src/mutex_v1.rs: threads that contend for the mutex, and the theorems at what they reach.
use atomics_for_peace_and_sy.Base.{
  ◌⊎◌, ◌<◌, false, if◌then◌else◌, ℕ, zero, suc, ◌+◌, ◌≡◌, refl, List, [], ◌∷◌, ◌++◌, arith,
}
use atomics_for_peace_and_sy.Threads.{sum_over, all_along, System, run, alone}
use atomics_for_peace_and_sy.Spinlock.Exclusion.{ThreadIds}
use atomics_for_peace_and_sy.MutexV1.{
  Mutex, new, no_call, acquired, outside, enqueue_push, enqueue_load, park, Thread, Choice,
  call_lock, read, write, unlock, fail_spuriously, proceed, client, step, step_at,
}
use atomics_for_peace_and_sy.MutexV1.Exclusion.{execute}
use atomics_for_peace_and_sy.MutexV1.Queue.{
  times_in, bringing, awaiting, parked_listed, queue_exact,
}
use atomics_for_peace_and_sy.MutexV1.Refines.{mutex, start, lock_of, mutex_refines}
use atomics_for_peace_and_sy.Simulation.{Trace, history}
use atomics_for_peace_and_sy.LockSpec.{free, internal, acquires, enters, sees, writes, Move}
use atomics_for_peace_and_sy.MutexV1.Parking.{unlock_steps, park_steps, parked_beside_free_mutex}

abbrev thread_id : ℕ → ℕ
thread_id i = i + 1

thread_id-ThreadIds : ThreadIds thread_id
thread_id-ThreadIds = record { nonzero = λ i. omega arith; distinct = λ i j e. omega arith }

abbrev times : ℕ → ℕ → List (ℕ × Choice ℕ)
times zero i = []
times (suc k) i = (i, proceed) ∷ times k i

-- Thread 0 takes the mutex; thread 1 spins until it enqueues itself.
abbrev contended : List (ℕ × Choice ℕ)
contended = ((0, call_lock) ∷ times 4 0) ++ ((1, call_lock) ∷ times 104 1)

abbrev result : System (Mutex ℕ) (Thread ℕ)
result = execute thread_id 2 7 contended

contended_run :
    (result.pc 0 ≡ record { guards = 1; at = outside acquired })
    × (result.pc 1 ≡ record { guards = 0; at = enqueue_push })
unfolding execute run step step_at client
contended_run = (refl, refl)

-- Thread 0 takes the mutex, sees its data, changes it and sees it again.
abbrev used : List (ℕ × Choice ℕ)
used = ((0, call_lock) ∷ times 4 0) ++ ((0, read) ∷ (0, write 8) ∷ (0, read) ∷ [])

used-history :
    history (mutex thread_id-ThreadIds 2) (start 7) used
    ≡ (1, internal)
      ∷ (1, internal)
      ∷ (1, internal)
      ∷ (1, acquires)
      ∷ (1, enters)
      ∷ (1, sees 7)
      ∷ (1, writes 8)
      ∷ (1, sees 8)
      ∷ []
unfolding history step step_at client
used-history = refl

mutex_refines_example :
    Trace Move
      (history (mutex thread_id-ThreadIds 2) (start 7) used)
      (free 7)
      (lock_of (execute thread_id 2 7 used).mem)
mutex_refines_example = mutex_refines thread_id-ThreadIds 2 7 used

abbrev held : Mutex ℕ
held = record (new 7) { state = 1 }

parked_beside_free_mutex_example :
    let (m1, t1) =
      alone (step thread_id) 0 (held, record { guards = 1; at = outside acquired }) unlock_steps in
    let (m2, t2) =
      alone (step thread_id) 1 (m1, record { guards = 0; at = enqueue_load }) park_steps in
    (m2 ≡ record (new 7) { queue = 1 ∷ [] })
    × (t1 ≡ record { guards = 0; at = outside no_call })
    × (t2 ≡ record { guards = 0; at = park })
    × ((step thread_id 1 proceed m2 t2) ≡ (m2, t2))
parked_beside_free_mutex_example =
    parked_beside_free_mutex thread_id held 0 1 acquired refl refl refl

-- Thread 1 parks.
abbrev parking : List (ℕ × Choice ℕ)
parking = contended ++ times 2 1

parked_listed_example :
    let s = execute thread_id 2 7 parking in
    (0 < times_in 1 s.mem.queue) ⊎ ((i : ℕ) × (i < 2) × (0 < bringing 1 (s.pc i)))
unfolding execute run step step_at client
parked_listed_example = parked_listed thread_id 2 7 parking 1 (omega arith) refl refl

queue_exact_example :
    let s = execute thread_id 2 7 parking in
    times_in 1 s.mem.queue + sum_over (bringing 1) 2 s.pc + (if s.mem.tokens 1 then 1 else 0)
    ≡ awaiting (s.pc 1)
unfolding all_along run step step_at client
queue_exact_example = queue_exact thread_id 2 7 parking refl 1 (omega arith)

-- The `park` of thread 1 returns without a token, and it puts itself into the queue a second time.
-- Thread 2 parks behind. Thread 0 unlocks and unparks thread 1, which locks, unlocks and unparks
-- itself. Now the mutex is free, nobody is in a call but thread 2, and thread 2 is parked for good.
abbrev woken_twice : List (ℕ × Choice ℕ)
woken_twice =
    parking
    ++ ((1, fail_spuriously) ∷ times 105 1)
    ++ ((2, call_lock) ∷ times 106 2)
    ++ ((0, unlock) ∷ times 7 0)
    ++ times 4 1
    ++ ((1, unlock) ∷ times 7 1)

woken_twice_run :
    let s = execute thread_id 3 7 woken_twice in
    (s.mem.state ≡ 0)
    × (s.mem.queue ≡ 2 ∷ [])
    × (s.mem.tokens 2 ≡ false)
    × ((s.pc 0).at ≡ outside no_call)
    × ((s.pc 1).at ≡ outside no_call)
    × ((s.pc 2).at ≡ park)
unfolding execute run step step_at client
woken_twice_run = (refl, refl, refl, refl, refl, refl)
