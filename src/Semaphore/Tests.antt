-- ===== src/Semaphore/Tests.antt =====
-- src/semaphore.rs: threads that share one permit, and the theorems at what they reach.
use atomics_for_peace_and_sy.Base.{ℕ, zero, suc, ◌≤◌, ◌<◌, ◌≡◌, refl, List, [], ◌∷◌, ◌++◌, arith}
use atomics_for_peace_and_sy.Threads.{System, sum_over}
use atomics_for_peace_and_sy.Futex.{run}
use atomics_for_peace_and_sy.Futex.Scanning.{scanning}
use atomics_for_peace_and_sy.Semaphore.{
  Semaphore, u32_mod, outside, waited, program, sleeping, Thread, Choice, call_wait, call_signal,
  proceed, step,
}
use atomics_for_peace_and_sy.Semaphore.Inv.{alarms}
use atomics_for_peace_and_sy.Semaphore.Labels.{permits}
use atomics_for_peace_and_sy.Semaphore.Refines.{semaphore, start, semaphore_refines}
use atomics_for_peace_and_sy.SemaphoreSpec.{
  nothing, internal, takes, finds_none, gives, no_reply, waited as waited_reply, Move,
}
use atomics_for_peace_and_sy.Simulation.{Trace, history}
use atomics_for_peace_and_sy.Futex.Scripted.{plain}
use atomics_for_peace_and_sy.Semaphore.Workers.{
  between, busy, compete, Ended, workers_restore, workers_bounded,
}
use atomics_for_peace_and_sy.Semaphore.Progress.{wait-Possible}
use atomics_for_peace_and_sy.Futex.Possible.{Possible}
use atomics_for_peace_and_sy.Semaphore.Permits.{execute, no_lost_permit}

abbrev times : ℕ → ℕ → Choice → List (ℕ × Choice × ℕ)
times zero i c = []
times (suc k) i c = (i, c, 0) ∷ times k i c

-- Thread 0 takes the one permit, threads 1 and 2 fall asleep, and thread 0 adds a permit.
abbrev signalling : List (ℕ × Choice × ℕ)
signalling =
    ((0, call_wait, 0) ∷ times 4 0 proceed)
    ++ ((1, call_wait, 0) ∷ times 3 1 proceed)
    ++ ((2, call_wait, 0) ∷ times 3 2 proceed)
    ++ ((0, call_signal, 0) ∷ times 1 0 proceed)

abbrev result : System Semaphore Thread
result = execute scanning 3 1 signalling

signalling_run :
    (result.mem ≡ record { count = 1; num_waiting = 2 })
    × ((result.pc 1).at ≡ sleeping)
    × ((result.pc 2).at ≡ sleeping)
unfolding execute run step
signalling_run = (refl, refl, refl)

no_lost_permit_example :
    (result.mem.count ≤ sum_over alarms 3 result.pc)
    × (0 < result.mem.count → (j : ℕ) × (j < 3) × (0 < alarms (result.pc j)))
unfolding execute run step
no_lost_permit_example =
    no_lost_permit scanning 3 1 signalling 2 (ground arith) (ground arith) (omega arith) refl

few : 3 < u32_mod
few = ground arith

-- Two threads find no permit, and the permit of thread 0 is given back.
signalling-history :
    history (semaphore scanning 3 1 few) (start scanning 3 1 few) signalling
    ≡ (0, (internal, no_reply))
      ∷ (0, (internal, no_reply))
      ∷ (0, (internal, no_reply))
      ∷ (0, (takes, no_reply))
      ∷ (0, (internal, waited_reply))
      ∷ (1, (internal, no_reply))
      ∷ (1, (internal, no_reply))
      ∷ (1, (finds_none, no_reply))
      ∷ (1, (finds_none, no_reply))
      ∷ (2, (internal, no_reply))
      ∷ (2, (internal, no_reply))
      ∷ (2, (finds_none, no_reply))
      ∷ (2, (finds_none, no_reply))
      ∷ (0, (internal, no_reply))
      ∷ (0, (gives, no_reply))
      ∷ []
unfolding history step
signalling-history = refl

semaphore_refines_example :
    Trace
      (Move u32_mod)
      (history (semaphore scanning 3 1 few) (start scanning 3 1 few) signalling)
      (record { count = 1; progress = λ _. nothing })
      (permits (execute scanning 3 1 signalling))
semaphore_refines_example = semaphore_refines scanning 3 1 few signalling (ground arith)

-- Threads 1 and 2 sleep beside the permit.
wait-Possible_example :
    Possible scanning (program scanning) 3 (λ t. (t.pc 2).at ≡ outside waited) result
unfolding execute run step
wait-Possible_example =
    wait-Possible scanning 3 1 signalling 2 (ground arith) (ground arith) (omega arith)
      (ground arith) tt

-- Two workers of one iteration share a permit, the second after the first.
abbrev in_turns : List (ℕ × Choice × ℕ)
in_turns = times 9 0 proceed ++ times 9 1 proceed

below_two : (P : ℕ → Type 0) → P 0 → P 1 → (i : ℕ) → i < 2 → P i
below_two P h0 h1 zero lt = h0
below_two P h0 h1 (suc zero) lt = h1
below_two P h0 h1 (suc (suc i)) lt = absurd (omega arith)

workers_restore_example :
    let s = compete scanning 2 1 1 in_turns in (s.mem.count ≡ 1) × (s.mem.num_waiting ≡ 0)
unfolding compete run step
workers_restore_example =
    workers_restore scanning 2 1 1 in_turns (ground arith) (ground arith)
      (below_two (λ i. Ended ((compete scanning 2 1 1 in_turns).pc i)) (refl, refl) (refl, refl))

workers_bounded_example :
    sum_over busy 2
      (plain (program scanning) between (compete scanning 2 1 1 (times 6 0 proceed))).pc
    ≤ 1
workers_bounded_example =
    workers_bounded scanning 2 1 1 (times 6 0 proceed) (ground arith) (ground arith)
