-- ===== src/Semaphore/Permits.antt =====
-- src/semaphore.rs: what the semaphore gives its clients in every interleaving.
use atomics_for_peace_and_sy.Base.{ℕ, ◌+◌, ◌≤◌, ◌<◌, ◌≡◌, refl, List, arith, sym}
use atomics_for_peace_and_sy.Threads.{
  System, sum_over, le-sum_over, sum_over-eq-zero, sum_over_witness,
}
use atomics_for_peace_and_sy.Futex.{AtomicWait, run, run-keeps}
use atomics_for_peace_and_sy.Semaphore.{
  Semaphore, u32_mod, new, no_call, outside, sleeping, Thread, Choice, program,
}
use atomics_for_peace_and_sy.Semaphore.Inv.{taken_by, given_by, waiters, sleepers, alarms, Inv}
use atomics_for_peace_and_sy.Semaphore.Moves.{step-Inv}

abbrev pub fresh_thread : Thread
fresh_thread = record { taken = 0; given = 0; at = outside no_call }

-- The semaphore in use by `n` threads, from its creation on.
unfoldable pub execute : AtomicWait → ℕ → ℕ → List (ℕ × Choice × ℕ) → System Semaphore Thread
execute futex n initial es =
    run futex (program futex) n (record { mem = new initial; pc = λ _. fresh_thread }) es

pub init-Inv : (n initial : ℕ) → initial < u32_mod → Inv n initial (new initial) (λ _. fresh_thread)
init-Inv n initial h = record {
  safe = record {
    fits = h;
    counted = sym (sum_over-eq-zero {0} waiters n (λ _. fresh_thread) (λ i lt. refl));
    conserved = λ small. omega (
      arith,
      sum_over-eq-zero {0} taken_by n (λ _. fresh_thread) (λ i lt. refl),
      sum_over-eq-zero {0} given_by n (λ _. fresh_thread) (λ i lt. refl),
    );
    each = λ i lt. tt;
  };
  alarmed = λ h.
      absurd (omega (arith, sum_over-eq-zero {0} sleepers n (λ _. fresh_thread) (λ i lt. refl)));
}

module _ (futex : AtomicWait) (n initial : ℕ) (es : List (ℕ × Choice × ℕ)) where
  -- the state that the schedule reaches
  abbrev reached : System Semaphore Thread
  reached = execute futex n initial es

  pub execute-Inv : n < u32_mod → initial < u32_mod → Inv n initial reached.mem reached.pc
  unfolding execute
  execute-Inv few small =
      run-keeps futex (program futex) n (λ s. Inv n initial s.mem s.pc)
        (λ s i c k lt inv. step-Inv futex few s i c k lt inv) _ es (init-Inv n initial small)

  -- Permits are neither lost nor made, for fewer than 2 ^ 32 threads: while the initial count and
  -- the signals so far fit in 32 bits, `count` and the permits taken by `wait`, `try_wait` and
  -- `try_wait_duration` add up to them. In particular no more permits are taken than were there at
  -- first or were signalled.
  pub permits_conserved :
      n < u32_mod
      → initial + sum_over given_by n reached.pc < u32_mod
      → (reached.mem.count + sum_over taken_by n reached.pc
          ≡ initial + sum_over given_by n reached.pc)
        × (sum_over taken_by n reached.pc ≤ initial + sum_over given_by n reached.pc)
  permits_conserved few small =
      let total = (execute-Inv few (omega arith)).safe.conserved small in
      (total, omega (arith, total))

  -- `num_waiting` is exactly the number of threads that are inside `wait`, asleep or awake, for
  -- fewer than 2 ^ 32 threads and an initial count of 32 bits.
  pub waiters_counted :
      n < u32_mod → initial < u32_mod → reached.mem.num_waiting ≡ sum_over waiters n reached.pc
  waiters_counted few small = (execute-Inv few small).safe.counted

  -- No wake-up is lost, for fewer than 2 ^ 32 threads and an initial count of 32 bits: while a
  -- thread sleeps in `wait`, there are at least as many threads as permits in `count` that are
  -- awake in `wait` and have no permit yet, or are about to call `wake_one`. So a thread never
  -- sleeps beside a permit that nobody deals with.
  pub no_lost_permit :
      (i : ℕ)
      → n < u32_mod
      → initial < u32_mod
      → i < n
      → (reached.pc i).at ≡ sleeping
      → (reached.mem.count ≤ sum_over alarms n reached.pc)
        × (0 < reached.mem.count → (j : ℕ) × (j < n) × (0 < alarms (reached.pc j)))
  no_lost_permit i few small lt e =
      let enough =
        (execute-Inv few small).alarmed (ground (arith, le-sum_over sleepers n reached.pc i)) in
      (enough, λ pos. sum_over_witness alarms n reached.pc (omega arith))
