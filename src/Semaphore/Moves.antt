-- ===== src/Semaphore/Moves.antt =====
-- src/semaphore.rs: every step of every thread keeps the invariant of the semaphore.
use atomics_for_peace_and_sy.Base.{
  Bool-cases, ℕ, ◌+◌, ◌≤◌, ◌<◌, ◌≡◌, refl, ◌≢◌, inl, inr, arith, ◌==◌,
}
use atomics_for_peace_and_sy.Threads.{
  System, update, sum_over, sum_over-update, le-sum_over, sum_over-le, sum_over_mono,
}
use atomics_for_peace_and_sy.Futex.{AtomicWait, silent, one, all, exec, deliver-keeps}
use atomics_for_peace_and_sy.Semaphore.{
  Next, Semaphore, u32_mod, Pc, outside, Thread, Choice, client, step, step_at, program,
}
use atomics_for_peace_and_sy.Semaphore.Inv.{
  taken_by, given_by, waiters, sleepers, alarms, Place, Safe, Alarmed, Inv, waiters-le_one,
  sleepers-le-waiters, wake-Safe, wake-Alarmed, nobody-Alarmed,
}

module _ (futex : AtomicWait) {n initial : ℕ} (few : n < u32_mod) where
  module _ {m : Semaphore} {pc : ℕ → Thread} (inv : Safe n initial m pc) (i : ℕ) (lt : i < n)
      (c : Choice) where
    open inv use {fits, counted, conserved, each}

    -- the step of thread `i` from place `p`
    abbrev after : Pc → Next
    after p = step_at futex c m (pc i) p

    -- the threads after it
    abbrev moved : Pc → ℕ → Thread
    moved p = update pc i (after p).1

    move-fits : (p : Pc) → (pc i).at ≡ p → (after p).0.count < u32_mod
    unfolding step_at client
    move-fits (outside last) e = ground arith
    move-fits p e = ground (arith, each i)

    waiters_fit : (f : ℕ → Thread) → sum_over waiters n f < u32_mod
    waiters_fit f = omega (arith, sum_over-le waiters waiters-le_one n f)

    move-counted : (p : Pc) → (pc i).at ≡ p → (after p).0.num_waiting ≡ sum_over waiters n (moved p)
    unfolding step_at client
    move-counted (outside last) e =
        ground (arith, counted, sum_over-update waiters n pc i (after (outside last)).1)
    move-counted p e = ground (
      arith,
      counted,
      waiters_fit pc,
      waiters_fit (moved p),
      le-sum_over waiters n pc i,
      sum_over-update waiters n pc i (after p).1,
    )

    move-conserved :
        (p : Pc)
        → (pc i).at ≡ p
        → initial + sum_over given_by n (moved p) < u32_mod
        → (after p).0.count + sum_over taken_by n (moved p)
          ≡ initial + sum_over given_by n (moved p)
    unfolding step_at client
    move-conserved (outside last) e small = ground (
      arith,
      conserved,
      sum_over-update given_by n pc i (after (outside last)).1,
      sum_over-update taken_by n pc i (after (outside last)).1,
    )
    move-conserved p e small = ground (
      arith,
      conserved,
      each i,
      sum_over-update given_by n pc i (after p).1,
      sum_over-update taken_by n pc i (after p).1,
    )

    move-each : (p : Pc) → (pc i).at ≡ p → Place ((after p).1.at)
    unfolding step_at client
    move-each (outside last) e = ground (arith, each i)
    move-each p e = ground (arith, each i)

    move-Safe : (p : Pc) → (pc i).at ≡ p → Safe n initial (after p).0 (moved p)
    move-Safe p e = record {
      fits = move-fits p e;
      counted = move-counted p e;
      conserved = move-conserved p e;
      each = λ j lj. elim (Bool-cases (i == j)) [
        | inl same ↦ rw same (move-each p e)
        | inr other ↦ rw other (each j lj)
      ];
    }

    -- A step that calls `wake_one` uses its alarm up; any other keeps enough of them.
    move-Alarmed :
        (p : Pc)
        → (pc i).at ≡ p
        → Alarmed n m pc
        → 0 < sum_over sleepers n (moved p)
        → ((after p).2 ≡ silent → (after p).0.count ≤ sum_over alarms n (moved p))
          × ((after p).0.count ≤ sum_over alarms n (moved p) + 1)
    unfolding step_at client
    move-Alarmed (outside last) e h z = ground (
      arith,
      h,
      sum_over-update sleepers n pc i (after (outside last)).1,
      sum_over-update alarms n pc i (after (outside last)).1,
    )
    move-Alarmed p e h z = ground (
      arith,
      h,
      counted,
      sum_over_mono sleepers waiters sleepers-le-waiters n pc,
      each i,
      futex.blocks_iff m.count 0,
      sum_over-update sleepers n pc i (after p).1,
      sum_over-update alarms n pc i (after p).1,
    )

    wake_atomic : (p : Pc) (a : ℕ) → ((after p).2 ≡ one a → a ≡ 0) × ((after p).2 ≢ all a)
    unfolding step_at client
    wake_atomic (outside last) a = ground arith
    wake_atomic p a = ground arith

  pub step-Inv :
      (s : System Semaphore Thread) (i : ℕ) (c : Choice) (k : ℕ)
      → i < n
      → Inv n initial s.mem s.pc
      → let t = exec futex (program futex) n s i c k in Inv n initial t.mem t.pc
  unfolding step
  step-Inv s i c k lt inv =
      deliver-keeps futex (program futex) n (Inv n initial m') pc' k (after inv.safe i lt c p).2
        (λ quiet. record { safe = safe'; alarmed = λ z. (alarmed' z).0 quiet })
        (λ a call nobody. record {
          safe = safe';
          alarmed =
              nobody-Alarmed n m' pc' (rw ((wake_atomic inv.safe i lt c p a).0 call) at nobody);
        })
        (λ a j call lj slept. record {
          safe = wake-Safe n initial m' pc' a j lj slept safe';
          alarmed = wake-Alarmed n initial m' pc' a j lj slept (λ z. (alarmed' z).1);
        })
        (λ a call. absurd ((wake_atomic inv.safe i lt c p a).1 call))
    where
      p : Pc
      p = (s.pc i).at

      m' : Semaphore
      m' = (after inv.safe i lt c p).0

      pc' : ℕ → Thread
      pc' = moved inv.safe i lt c p

      safe' : Safe n initial m' pc'
      safe' = move-Safe inv.safe i lt c p refl

      alarmed' :
          0 < sum_over sleepers n pc'
          → ((after inv.safe i lt c p).2 ≡ silent → m'.count ≤ sum_over alarms n pc')
            × (m'.count ≤ sum_over alarms n pc' + 1)
      alarmed' = move-Alarmed inv.safe i lt c p refl inv.alarmed
