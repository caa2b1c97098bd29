-- ===== src/Condvar/Notified.antt =====
-- src/condvar.rs: what `notify_all` and the counter of notifications give the threads that wait.
use atomics_for_peace_and_sy.Base.{
  Bool-cases, ℕ, suc, ◌+◌, ◌≤◌, ◌<◌, ◌≡◌, refl, sym, subst, inl, inr, false, List, arith, ◌==◌,
  ==_iff, length,
}
use atomics_for_peace_and_sy.Threads.{System, update, sum_over, sum_over-eq-zero}
use atomics_for_peace_and_sy.Futex.{AtomicWait, exec, run, run-counts, deliver-Roused}
use atomics_for_peace_and_sy.Condvar.{
  World, Pc, idle, notified_all, wait_block, wait_sleep, Thread, Choice, Next, u32_mod, client,
  step, step_at, asleep, woken, program,
}
use atomics_for_peace_and_sy.Condvar.Locked.{fresh_world, execute, resting}
use atomics_for_peace_and_sy.Condvar.Notifying.{telling, completed, run-telling}
use atomics_for_peace_and_sy.Condvar.Inv.{waiters, Inv}
use atomics_for_peace_and_sy.Condvar.Moves.{move-counter}
use atomics_for_peace_and_sy.Condvar.Wakeups.{Changed, step-Inv, relax-Inv}

-- A thread that sleeps has loaded the counter when it was at least `least`.
abbrev Aware : ℕ → Pc → Type 0
Aware least (wait_sleep state) = least ≤ state
Aware least p = Unit

awake_Aware :
    {T : Type 0} (least : ℕ) (t : Thread T) (p : Pc)
    → t.at ≡ p
    → asleep 0 t ≡ false
    → Aware least t.at
awake_Aware least t p e awake = ground arith

Aware-sleep :
    (least : ℕ) (p : Pc) (state : ℕ) → p ≡ wait_sleep state → Aware least p → least ≤ state
Aware-sleep least p state e h = ground arith

module _ {T : Type 0} (thread_id : ℕ → ℕ) (futex : AtomicWait) (n : ℕ) (few : n < u32_mod) where
  record Informed (i least left : ℕ) (s : System (World T) (Thread T)) : Type 0 where
    pub inv : Inv n left s.mem s.pc
    pub grown : least ≤ s.mem.condvar.counter
    pub aware : Aware least (s.pc i).at

  move-Aware :
      (j least : ℕ) (c : Choice T) (w : World T) (t : Thread T) (p : Pc)
      → t.at ≡ p
      → least ≤ w.condvar.counter
      → Aware least t.at
      → Aware least (step_at thread_id futex j c w t p).1.at
  unfolding step_at client
  move-Aware j least c w t (idle last) e le h = ground (arith, h)
  move-Aware j least c w t (wait_block state) e le h =
      ground (arith, futex.blocks_iff w.condvar.counter state)
  move-Aware j least c w t p e le h = ground arith

  rouse-Aware :
      (least : ℕ) (p p' : Thread T)
      → Changed thread_id futex n p p'
      → Aware least p.at
      → Aware least p'.at
  rouse-Aware least p p' (inl same) h = rw same h
  rouse-Aware least p p' (inr (e, (a, slept))) h = rw e (woken_aware p.at refl)
    where
      woken_aware : (q : Pc) → p.at ≡ q → Aware least (woken p).at
      woken_aware q e = ground arith

  step-Informed :
      (i least left : ℕ) (s : System (World T) (Thread T)) (j : ℕ) (c : Choice T) (k : ℕ)
      → j < n
      → Informed i least (suc left) s
      → Informed i least left (exec futex (program thread_id futex) n s j c k)
  unfolding step
  step-Informed i least left s j c k lt h = record {
    inv = step-Inv thread_id futex n few s j c k lt h.inv;
    grown = omega (arith, h.grown, move-counter thread_id futex few h.inv j lt c p);
    aware =
        rouse-Aware least (pc' i) _
          (deliver-Roused futex (program thread_id futex) n pc' k next.2 i)
          (elim (Bool-cases (j == i)) [
            | inl here ↦ rw here (
                subst
                  (λ l. Aware least (step_at thread_id futex j c s.mem (s.pc l) (s.pc l).at).1.at)
                  (sym ((==_iff j i).0 here))
                  (move-Aware j least c s.mem (s.pc i) (s.pc i).at refl h.grown h.aware))
            | inr other ↦ rw other (h.aware)
          ]);
  }
    where
      p : Pc
      p = (s.pc j).at

      next : Next T
      next = step_at thread_id futex j c s.mem (s.pc j) p

      pc' : ℕ → Thread T
      pc' = update s.pc j next.1

module _ {T : Type 0} (thread_id : ℕ → ℕ) (futex : AtomicWait) (n : ℕ) (d : T)
    (es : List (ℕ × Choice T × ℕ)) where
  -- the state at the creation, and the one that the schedule reaches
  abbrev start : System (World T) (Thread T)
  start = record { mem = fresh_world d; pc = λ _. resting }

  abbrev reached : System (World T) (Thread T)
  reached = execute thread_id futex n d es

  init-Inv : (left : ℕ) → left < u32_mod → Inv n left (fresh_world d) (λ _. resting)
  init-Inv left small = record {
    fits = omega (arith, small);
    crowd = sym (sum_over-eq-zero {0} {A = Thread T} waiters n (λ _. resting) (λ i lt. refl));
    each = λ i lt. tt;
    told = λ i j li lj. tt;
  }

  -- The state after the schedule, with steps to spare.
  reached-Inv :
      (later : ℕ) → n < u32_mod → length es + later < u32_mod → Inv n later reached.mem reached.pc
  unfolding execute
  reached-Inv later few small = relax-Inv thread_id futex n (omega arith) (
      run-counts futex (program thread_id futex) n (λ left s. Inv n (left + later) s.mem s.pc)
        (λ left s i c k lt inv.
          step-Inv thread_id futex n few s i c k lt (relax-Inv thread_id futex n (omega arith) inv))
        (λ left s inv. relax-Inv thread_id futex n (omega arith) inv) _ es
        (init-Inv (length es + later) small))

  -- For fewer than 2 ^ 32 threads, in fewer than 2 ^ 32 steps from the creation: when thread `i` has
  -- returned from `notify_all`, every thread that still sleeps in `wait` has loaded the counter after
  -- that call incremented it from `old`.
  pub notify_all_wakes :
      (i j old state : ℕ)
      → n < u32_mod
      → length es < u32_mod
      → i < n
      → j < n
      → (reached.pc i).at ≡ idle (notified_all old)
      → (reached.pc j).at ≡ wait_sleep state
      → old < state
  notify_all_wakes i j old state few small li lj told slept =
      ground (arith, (reached-Inv 0 few (omega arith)).told i j)

  -- A thread that is awake and later sleeps in `wait` has then loaded the counter at its value here,
  -- or later.
  aware_of_counter :
      (later : List (ℕ × Choice T × ℕ)) (i state : ℕ)
      → n < u32_mod
      → length es + length later < u32_mod
      → asleep 0 (reached.pc i) ≡ false
      → ((run futex (program thread_id futex) n reached later).pc i).at ≡ wait_sleep state
      → reached.mem.condvar.counter ≤ state
  aware_of_counter later i state few small awake slept =
      Aware-sleep reached.mem.condvar.counter _ state slept
        (run-counts futex (program thread_id futex) n
          (λ left s. Informed thread_id futex n few i reached.mem.condvar.counter left s)
          (λ left s j c k lt h. step-Informed thread_id futex n few i _ left s j c k lt h)
          (λ left s h. record {
            inv = relax-Inv thread_id futex n (omega arith) (h.inv);
            grown = h.grown;
            aware = h.aware;
          })
          reached later
          (record {
            inv = reached-Inv (length later) few small;
            grown = omega arith;
            aware = awake_Aware _ (reached.pc i) (reached.pc i).at refl awake;
          })).aware

  -- The counter is the number of notifications: the calls of `notify_one` and `notify_all` that
  -- have returned, and those under way that have incremented it.
  counter_exact :
      n < u32_mod
      → length es < u32_mod
      → reached.mem.condvar.counter
        ≡ completed thread_id futex n start es + sum_over telling n reached.pc
  unfolding execute
  counter_exact few small = omega (
    arith,
    run-telling thread_id futex n few es start (init-Inv (length es) small),
    sum_over-eq-zero {0} {A = Thread T} telling n (λ _. resting) (λ i lt. refl),
  )

  -- For fewer than 2 ^ 32 threads, in fewer than 2 ^ 32 steps from the creation: a thread that is
  -- awake at some moment and later sleeps in `wait` has loaded a counter that holds every
  -- notification made up to that moment: every call of `notify_one` and `notify_all` that has
  -- returned by then, and every one that has made its increment. So no notification between the load
  -- and the sleep is missed.
  pub no_missed_notification :
      (later : List (ℕ × Choice T × ℕ)) (i state : ℕ)
      → n < u32_mod
      → length es + length later < u32_mod
      → asleep 0 (reached.pc i) ≡ false
      → ((run futex (program thread_id futex) n reached later).pc i).at ≡ wait_sleep state
      → completed thread_id futex n start es + sum_over telling n reached.pc ≤ state
  no_missed_notification later i state few small awake slept = omega (
    arith,
    counter_exact few (omega (arith, small)),
    aware_of_counter later i state few small awake slept,
  )
