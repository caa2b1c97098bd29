-- ===== src/MutexV2/Inv.antt =====
-- src/mutex_v2.rs: the invariant of the futex-based mutex, kept by every step of every thread.
use atomics_for_peace_and_sy.Base.{
  Bool-cases, ℕ, ◌+◌, ◌≤◌, ◌<◌, ◌≡◌, refl, ◌≢◌, ◌⊎◌, inl, inr, Bool, true, false, ◌&&◌, arith, ltb,
  ◌==◌, if◌then◌else◌,
}
use atomics_for_peace_and_sy.Threads.{
  System, update, sum_over, sum_over-update, add-le-sum_over, le-sum_over, sum_over-eq-zero,
}
use atomics_for_peace_and_sy.Futex.{AtomicWait, silent, one, all, exec, deliver-keeps}
use atomics_for_peace_and_sy.ThreadLocal.{contains, contains-insert, contains-remove}
use atomics_for_peace_and_sy.MutexV2.{
  Next, Mutex, Pc, outside, viewed, check, slow, wait_call, sleeping, enter, leave, swap, wake,
  Thread, Choice, step, step_at, asleep, woken, program,
}

-- The thread has the mutex: a guard, or a won exchange.
abbrev pub holders : {T : Type 0} → Thread T → ℕ
holders t = t.guards + elim t.at [ enter ↦ 1 | _ ↦ 0 ]

abbrev pub sleepers : {T : Type 0} → Thread T → ℕ
sleepers t = elim t.at [ sleeping ↦ 1 | _ ↦ 0 ]

-- The thread is about to wake a sleeper, or is a waiter that runs.
abbrev pub alarms : {T : Type 0} → Thread T → ℕ
alarms t = elim t.at [ slow ↦ 1 | wait_call ↦ 1 | wake ↦ 1 | _ ↦ 0 ]

-- The number of guards at each place, and what a read has found.
abbrev pub Place : {T : Type 0} → Mutex T → ℕ → Pc T → Type 0
Place m g (outside last) = g ≤ 1
Place m g (viewed v) = (g ≡ 1) × (m.data_cell ≡ v)
Place m g (check try) = g ≤ 1
Place m g (leave panicking) = g ≡ 1
Place m g swap = g ≡ 1
Place m g p = g ≡ 0

-- The identifier is in the thread's set while it has a guard, until the guard's `drop` removes it.
abbrev pub registered : {T : Type 0} → Thread T → Bool
registered t = ltb 0 t.guards && elim t.at [ swap ↦ false | _ ↦ true ]

pub record Local {T : Type 0} (m : Mutex T) (t : Thread T) : Type 0 where
  pub place : Place m t.guards t.at
  pub listed : contains t.acquired_ids m.mutex_id ≡ registered t

pub record Safe {T : Type 0} (n : ℕ) (m : Mutex T) (pc : ℕ → Thread T) : Type 0 where
  pub word : m.state ≤ 2
  pub count : sum_over holders n pc ≡ (if m.state == 0 then 0 else 1)
  pub each : (i : ℕ) → i < n → Local m (pc i)

-- While a thread sleeps, the word tells the owner so, or a waiter runs or is about to be woken.
abbrev pub Alarmed : {T : Type 0} → ℕ → Mutex T → (ℕ → Thread T) → Type 0
Alarmed n m pc = 0 < sum_over sleepers n pc → (m.state ≡ 2) ⊎ (0 < sum_over alarms n pc)

pub record Inv {T : Type 0} (n : ℕ) (m : Mutex T) (pc : ℕ → Thread T) : Type 0 where
  pub safe : Safe n m pc
  pub alarmed : Alarmed n m pc

module _ {T : Type 0} (n : ℕ) (m : Mutex T) (pc : ℕ → Thread T) where
  -- A thread that is woken takes nothing.
  wake-Safe :
      (a j : ℕ)
      → j < n
      → asleep a (pc j) ≡ true
      → Safe n m pc
      → Safe n m (update pc j (woken (pc j)))
  wake-Safe a j lt s h = record {
    word = h.word;
    count = ground (arith, h.count, sum_over-update holders n pc j (woken (pc j)));
    each = λ i li. ground (arith, h.each i, h.each j);
  }

  wake-Alarmed : (j : ℕ) → j < n → Alarmed n m (update pc j (woken (pc j)))
  wake-Alarmed j lt = λ h. inr (ground (arith, le-sum_over alarms n (update pc j (woken (pc j))) j))

  nobody-Alarmed : ((j : ℕ) → j < n → asleep 0 (pc j) ≡ false) → Alarmed n m pc
  nobody-Alarmed quiet =
      λ h. absurd (omega (arith, sum_over-eq-zero sleepers n pc (λ i li. ground (arith, quiet i))))

module _ {T : Type 0} (futex : AtomicWait) {n : ℕ} where
  module _ {m : Mutex T} {pc : ℕ → Thread T} (inv : Safe n m pc) (i : ℕ) (lt : i < n)
      (c : Choice T) where
    open inv use {word, count, each}

    -- the step of thread `i` from place `p`
    abbrev after : Pc T → Next T
    after p = step_at futex c m (pc i) p

    move-Word : (p : Pc T) → (pc i).at ≡ p → (after p).0.state ≤ 2
    unfolding step_at
    move-Word (outside last) e = ground arith
    move-Word p e = ground arith

    move-count :
        (p : Pc T)
        → (pc i).at ≡ p
        → sum_over holders n (update pc i (after p).1) ≡ (if (after p).0.state == 0 then 0 else 1)
    unfolding step_at
    move-count (outside last) e =
        ground (arith, each i, sum_over-update holders n pc i (after (outside last)).1)
    move-count p e = ground (arith, each i, sum_over-update holders n pc i (after p).1)

    move_self : (p : Pc T) → (pc i).at ≡ p → Local (after p).0 (after p).1
    unfolding step_at
    move_self (outside last) e = ground (arith, each i)
    move_self p e = ground (
      arith,
      each i,
      contains-insert (pc i).acquired_ids m.mutex_id,
      contains-remove (pc i).acquired_ids m.mutex_id,
    )

    move-other : (p : Pc T) → (pc i).at ≡ p → (j : ℕ) → j < n → i ≢ j → Local (after p).0 (pc j)
    unfolding step_at
    move-other (outside last) e j lj ne =
        ground (arith, each i, each j, add-le-sum_over holders n pc i j)
    move-other p e j lj ne = ground (arith, each i, each j, add-le-sum_over holders n pc i j)

    move-Safe : (p : Pc T) → (pc i).at ≡ p → Safe n (after p).0 (update pc i (after p).1)
    move-Safe p e = record {
      word = move-Word p e;
      count = move-count p e;
      each = λ j lj. elim (Bool-cases (i == j)) [
        | inl same ↦ rw same (move_self p e)
        | inr other ↦ rw other (move-other p e j lj (ground arith))
      ];
    }

    -- A step that wakes nobody leaves no sleeper alone.
    move-Alarmed :
        (p : Pc T)
        → (pc i).at ≡ p
        → Alarmed n m pc
        → (after p).2 ≡ silent
        → Alarmed n (after p).0 (update pc i (after p).1)
    unfolding step_at
    move-Alarmed (outside last) e h q = λ z. ground (
      arith,
      h,
      each i,
      futex.blocks_iff m.state 2,
      sum_over-update sleepers n pc i (after (outside last)).1,
      sum_over-update alarms n pc i (after (outside last)).1,
    )
    move-Alarmed p e h q = λ z. ground (
      arith,
      h,
      each i,
      futex.blocks_iff m.state 2,
      sum_over-update sleepers n pc i (after p).1,
      sum_over-update alarms n pc i (after p).1,
    )

    wake_atomic : (p : Pc T) (a : ℕ) → ((after p).2 ≡ one a → a ≡ 0) × ((after p).2 ≢ all a)
    unfolding step_at
    wake_atomic (outside last) a = ground arith
    wake_atomic p a = ground arith

  pub step-Inv :
      (s : System (Mutex T) (Thread T)) (i : ℕ) (c : Choice T) (k : ℕ)
      → i < n
      → Inv n s.mem s.pc
      → let t = exec futex (program futex) n s i c k in Inv n t.mem t.pc
  unfolding step
  step-Inv s i c k lt inv =
      deliver-keeps futex (program futex) n (Inv n m') pc' k (after inv.safe i lt c p).2
        (λ quiet. record {
          safe = moved;
          alarmed = move-Alarmed inv.safe i lt c p refl inv.alarmed quiet;
        })
        (λ a call nobody. record {
          safe = moved;
          alarmed =
              nobody-Alarmed n m' pc' (rw ((wake_atomic inv.safe i lt c p a).0 call) at nobody);
        })
        (λ a j call lj slept. record {
          safe = wake-Safe n m' pc' a j lj slept moved;
          alarmed = wake-Alarmed n m' pc' j lj;
        })
        (λ a call. absurd ((wake_atomic inv.safe i lt c p a).1 call))
    where
      p : Pc T
      p = (s.pc i).at

      m' : Mutex T
      m' = (after inv.safe i lt c p).0

      pc' : ℕ → Thread T
      pc' = update s.pc i (after inv.safe i lt c p).1

      moved : Safe n m' pc'
      moved = move-Safe inv.safe i lt c p refl
