-- ===== src/MutexV2/Exclusion.antt =====
-- src/mutex_v2.rs: what the mutex gives its clients in every interleaving.
use atomics_for_peace_and_sy.Base.{
  ℕ, ◌≤◌, ◌<◌, ◌≡◌, refl, ◌⊎◌, inl, inr, Bool, List, [], arith, ltb, ◌==◌, if◌then◌else◌,
}
use atomics_for_peace_and_sy.Threads.{
  System, sum_over, add-le-sum_over, le-sum_over, sum_over-eq-zero, sum_over_witness,
}
use atomics_for_peace_and_sy.ThreadLocal.{contains-nil}
use atomics_for_peace_and_sy.Futex.{AtomicWait, run, run-keeps}
use atomics_for_peace_and_sy.MutexV2.{
  Mutex, new, no_call, would_block, outside, viewed, check, fast, sleeping, Thread, Choice, step,
  step_at, program,
}
use atomics_for_peace_and_sy.MutexV2.Inv.{holders, sleepers, alarms, Inv, step-Inv}

abbrev pub fresh_thread : {T : Type 0} → Thread T
fresh_thread = record { acquired_ids = []; guards = 0; at = outside no_call }

-- The mutex in use by `n` threads, from its creation on.
unfoldable pub execute :
    {T : Type 0} → AtomicWait → ℕ → Mutex T → List (ℕ × Choice T × ℕ) → System (Mutex T) (Thread T)
execute futex n m es = run futex (program futex) n (record { mem = m; pc = λ _. fresh_thread }) es

pub init-Inv : {T : Type 0} (n id : ℕ) (d : T) → Inv n (new id d) (λ _. fresh_thread)
init-Inv n id d = record {
  safe = record {
    word = omega arith;
    count = sum_over-eq-zero holders n _ (λ i lt. refl);
    each = λ i lt. record { place = omega arith; listed = contains-nil id };
  };
  alarmed = λ h.
      absurd (omega (arith, sum_over-eq-zero {0} sleepers n (λ _. fresh_thread) (λ i lt. refl)));
}

module _ {T : Type 0} (futex : AtomicWait) (n id : ℕ) (d : T) (es : List (ℕ × Choice T × ℕ)) where
  -- the state that the schedule reaches
  abbrev reached : System (Mutex T) (Thread T)
  reached = execute futex n (new id d) es

  pub execute-Inv : Inv n reached.mem reached.pc
  unfolding execute
  execute-Inv =
      run-keeps futex (program futex) n (λ s. Inv n s.mem s.pc)
        (λ s i c k lt inv. step-Inv futex s i c k lt inv) _ es (init-Inv n id d)

  -- However the threads interleave, no two threads have a guard of the mutex at the same time, and
  -- no thread has two.
  pub mutual_exclusion :
      (i j : ℕ)
      → i < n
      → j < n
      → 0 < (reached.pc i).guards
      → 0 < (reached.pc j).guards
      → (i ≡ j) × ((reached.pc i).guards ≡ 1)
  mutual_exclusion i j li lj hi hj = ground (
    arith,
    execute-Inv.safe.count,
    le-sum_over holders n reached.pc i,
    add-le-sum_over holders n reached.pc i j,
  )

  -- What a thread has read through its guard is still the mutex's data whenever it uses it: no
  -- other thread writes in between.
  pub no_lost_update :
      (i : ℕ) (v : T) → i < n → (reached.pc i).at ≡ viewed v → reached.mem.data_cell ≡ v
  no_lost_update i v lt e = ground (arith, execute-Inv.safe.each i)

  -- The word is one of the three states, and it is UNLOCKED exactly while no thread has a guard or
  -- a won exchange; otherwise one thread has.
  pub word_meaning :
      (reached.mem.state ≤ 2)
      × (sum_over holders n reached.pc ≡ (if reached.mem.state == 0 then 0 else 1))
  word_meaning = (execute-Inv.safe.word, execute-Inv.safe.count)

  -- No wake-up is lost: while a thread sleeps in `wait`, some other thread has the mutex and will
  -- find LOCKED_HAS_WAITERS when it unlocks, or is about to call `wake_one`, or is itself a waiter
  -- that is awake.
  pub no_lost_wakeup :
      (i : ℕ)
      → i < n
      → (reached.pc i).at ≡ sleeping
      → (j : ℕ) × (j < n)
        × (((reached.mem.state ≡ 2) × (0 < holders (reached.pc j))) ⊎ (0 < alarms (reached.pc j)))
  no_lost_wakeup i lt e =
      go (execute-Inv.alarmed (ground (arith, le-sum_over sleepers n reached.pc i)))
    where
      go :
          (reached.mem.state ≡ 2) ⊎ (0 < sum_over alarms n reached.pc)
          → (j : ℕ) × (j < n)
            × (((reached.mem.state ≡ 2) × (0 < holders (reached.pc j)))
                ⊎ (0 < alarms (reached.pc j)))
      go (inl two) =
          let (j, lj, pos) =
            sum_over_witness holders n reached.pc (ground (arith, execute-Inv.safe.count)) in
          (j, lj, inl (two, pos))
      go (inr awake) =
          let (j, lj, pos) = sum_over_witness alarms n reached.pc awake in (j, lj, inr pos)

  -- `lock` and `try_lock` return `WouldBlock` from their first check exactly in a thread that has
  -- the mutex already, which keeps its guard; in any other they go on to the exchange.
  pub reentry_would_block :
      (i : ℕ) (c : Choice T) (try : Bool)
      → i < n
      → (reached.pc i).at ≡ check try
      → (step futex i c reached.mem (reached.pc i)).1 ≡ record (reached.pc i) {
        at = if ltb 0 (reached.pc i).guards then outside would_block else fast try;
      }
  unfolding step step_at
  reentry_would_block i c try lt e = ground (arith, execute-Inv.safe.each i)
