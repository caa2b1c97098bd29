-- ===== src/Semaphore/Progress.antt =====
-- src/semaphore.rs: nobody waits in vain beside a permit.
use atomics_for_peace_and_sy.Base.{
  Bool-cases, ℕ, zero, suc, ◌+◌, ◌-◌, ◌≤◌, ◌<◌, ◌≡◌, refl, inl, inr, List, arith, ◌==◌,
}
use atomics_for_peace_and_sy.Threads.{
  System, update, sum_over, sum_over-update, le-sum_over, sum_over_witness,
}
use atomics_for_peace_and_sy.Futex.{AtomicWait, silent, one, deliver, deliver-keeps}
use atomics_for_peace_and_sy.Futex.Possible.{Possible}
use atomics_for_peace_and_sy.Semaphore.{
  Semaphore, u32_mod, Pc, outside, waited, signalled, load_count, wait_call, sleeping, exchange,
  retire, add, load_waiting, wake, Thread, Choice, call_signal, proceed, client, step, step_at,
  woken, program,
}
use atomics_for_peace_and_sy.Semaphore.Inv.{waiters, sleepers, alarms, Inv}
use atomics_for_peace_and_sy.Semaphore.Permits.{execute, execute-Inv}
use atomics_for_peace_and_sy.Semaphore.Arriving.{Inside, Returned, move, arrive}

-- Thread `i` sleeps, and at most `most` others do.
record Waiting (n initial i most : ℕ) (s : System Semaphore Thread) : Type 0 where
  inv : Inv n initial s.mem s.pc
  waits : (s.pc i).at ≡ sleeping
  few_sleep : sum_over sleepers n s.pc ≤ suc most

module _ (futex : AtomicWait) {n initial : ℕ} (few : n < u32_mod) (i : ℕ) (lt : i < n) where
  -- A step of another thread that wakes nobody leaves thread `i` asleep.
  quiet :
      (most : ℕ) (s : System Semaphore Thread) (h : ℕ) (c : Choice) (m : Semaphore) (t : Thread)
      → Waiting n initial i most s
      → h < n
      → sleepers (s.pc h) ≡ 0
      → sleepers t ≡ 0
      → step futex h c s.mem (s.pc h) ≡ (m, t, silent)
      → ((s' : System Semaphore Thread)
          → Waiting n initial i most s'
          → s'.mem ≡ m
          → s'.pc h ≡ t
          → Possible futex (program futex) n (Returned i) s')
      → Possible futex (program futex) n (Returned i) s
  quiet most s h c m t w lh awake awake' e go =
      move futex few i lt s h c (m, t, silent) w.inv lh awake e
        (λ inv'.
          go (record { mem = m; pc = update s.pc h t })
            (record {
              inv = inv';
              waits = ground (arith, w.waits);
              few_sleep = omega (arith, w.few_sleep, sum_over-update sleepers n s.pc h t);
            })
            refl (ground arith))

-- Thread `i`, if it is in `wait`, can return beside a permit while at most `most` threads sleep.
abbrev Served : AtomicWait → (n initial i most : ℕ) → Type 0
Served futex n initial i most =
    (s : System Semaphore Thread)
    → Inv n initial s.mem s.pc
    → 0 < s.mem.count
    → Inside (s.pc i)
    → sum_over sleepers n s.pc ≤ most
    → Possible futex (program futex) n (Returned i) s

module _ (futex : AtomicWait) {n initial : ℕ} (few : n < u32_mod) (i : ℕ) (lt : i < n) (most : ℕ)
    (served : Served futex n initial i most) (h : ℕ) (lh : h < n) where
  -- A thread that wakes one sleeper leaves fewer of them.
  from_wake :
      (s : System Semaphore Thread)
      → Waiting n initial i most s
      → 0 < s.mem.count
      → (s.pc h).at ≡ wake
      → Possible futex (program futex) n (Returned i) s
  unfolding step step_at
  from_wake s w pos e =
      move futex few i lt s h proceed (s.mem, t, one 0) w.inv lh (ground arith) (ground arith)
        (λ inv'. served _ inv' pos facts.1 (omega (arith, facts.0, w.few_sleep)))
    where
      t : Thread
      t = record (s.pc h) { at = outside signalled }

      moved : ℕ → Thread
      moved = update s.pc h t

      Fewer : (ℕ → Thread) → Type 0
      Fewer pc' = (sum_over sleepers n pc' + 1 ≤ sum_over sleepers n s.pc) × Inside (pc' i)

      facts : Fewer (deliver futex (program futex) n 0 (one 0) moved)
      facts =
          deliver-keeps futex (program futex) n Fewer moved 0 (one 0)
            (λ quiet. absurd (ground arith))
            (λ a call nobody. absurd (ground (arith, nobody i, w.waits)))
            (λ a j call lj slept. ground (
              arith,
              w.waits,
              sum_over-update sleepers n s.pc h t,
              sum_over-update sleepers n moved j (woken (moved j)),
            ))
            (λ a call. absurd (ground arith))

  from_load_waiting :
      (s : System Semaphore Thread)
      → Waiting n initial i most s
      → 0 < s.mem.count
      → (s.pc h).at ≡ load_waiting
      → Possible futex (program futex) n (Returned i) s
  unfolding step step_at
  from_load_waiting s w pos e =
      quiet futex few i lt most s h proceed s.mem (record (s.pc h) { at = wake }) w lh
        (ground arith) (ground arith)
        (ground (arith, w.waits, w.inv.safe.counted, le-sum_over waiters n s.pc i))
        (λ s' w' same there. from_wake s' w' (ground arith) (ground arith))

  -- The thread adds a permit, to a count that does not wrap.
  from_add :
      (s : System Semaphore Thread)
      → Waiting n initial i most s
      → s.mem.count + 1 < u32_mod
      → (s.pc h).at ≡ add
      → Possible futex (program futex) n (Returned i) s
  unfolding step step_at
  from_add s w room e =
      quiet futex few i lt most s h proceed (record s.mem { count = s.mem.count + 1 })
        (record (s.pc h) { given = (s.pc h).given + 1; at = load_waiting }) w lh (ground arith)
        (ground arith) (ground arith)
        (λ s' w' same there. from_load_waiting s' w' (ground arith) (ground arith))

  from_retire :
      (s : System Semaphore Thread)
      → Waiting n initial i most s
      → s.mem.count + 1 < u32_mod
      → (s.pc h).at ≡ retire
      → Possible futex (program futex) n (Returned i) s
  unfolding step step_at client
  from_retire s w room e =
      quiet futex few i lt most s h proceed (step_at futex proceed s.mem (s.pc h) retire).0
        (record (s.pc h) { at = outside waited }) w lh (ground arith) (ground arith) (ground arith)
        (λ s' w' same there.
          quiet futex few i lt most s' h call_signal s'.mem (record (s'.pc h) { at = add }) w' lh
            (ground arith) (ground arith) (ground arith)
            (λ s'' w'' same' there'. from_add s'' w'' (ground arith) (ground arith)))

  from_exchange :
      (s : System Semaphore Thread)
      → Waiting n initial i most s
      → 0 < s.mem.count
      → (s.pc h).at ≡ exchange s.mem.count
      → Possible futex (program futex) n (Returned i) s
  unfolding step step_at
  from_exchange s w pos e =
      quiet futex few i lt most s h proceed (record s.mem { count = s.mem.count - 1 })
        (record (s.pc h) { taken = (s.pc h).taken + 1; at = retire }) w lh (ground arith)
        (ground arith) (ground arith)
        (λ s' w' same there. from_retire s' w' (ground (arith, w.inv.safe.fits)) (ground arith))

  from_load :
      (s : System Semaphore Thread)
      → Waiting n initial i most s
      → 0 < s.mem.count
      → (s.pc h).at ≡ load_count
      → Possible futex (program futex) n (Returned i) s
  unfolding step step_at
  from_load s w pos e =
      quiet futex few i lt most s h proceed s.mem (record (s.pc h) { at = exchange s.mem.count }) w
        lh (ground arith) (ground arith) (ground arith)
        (λ s' w' same there. from_exchange s' w' (ground arith) (ground arith))

  -- A thread that deals with a permit wakes a sleeper for it, or takes it and adds another.
  from_alarm :
      (s : System Semaphore Thread)
      → Waiting n initial i most s
      → 0 < s.mem.count
      → (p : Pc) → (s.pc h).at ≡ p
      → 0 < alarms (s.pc h)
      → Possible futex (program futex) n (Returned i) s
  unfolding step step_at
  from_alarm s w pos wake e alarm = from_wake s w pos e
  from_alarm s w pos load_waiting e alarm = from_load_waiting s w pos e
  from_alarm s w pos load_count e alarm = from_load s w pos e
  from_alarm s w pos wait_call e alarm =
      quiet futex few i lt most s h proceed s.mem (record (s.pc h) { at = load_count }) w lh
        (ground arith) (ground arith) (ground (arith, futex.blocks_iff s.mem.count 0))
        (λ s' w' same there. from_load s' w' (ground arith) (ground arith))
  from_alarm s w pos (exchange count) e alarm = elim (Bool-cases (s.mem.count == count)) [
    | inl fresh ↦ from_exchange s w pos (ground arith)
    | inr stale ↦
        quiet futex few i lt most s h proceed s.mem (record (s.pc h) { at = load_count }) w lh
          (ground arith) (ground arith) (ground arith)
          (λ s' w' same there. from_load s' w' (ground arith) (ground arith))
  ]
  from_alarm s w pos p e alarm = absurd (ground arith)

-- By induction on the number of sleepers.
every_Served :
    (futex : AtomicWait) {n initial : ℕ}
    → n < u32_mod
    → (i : ℕ) → i < n
    → (most : ℕ) → Served futex n initial i most
every_Served futex few i lt zero s inv pos inside few_sleep =
    arrive futex few i lt s inv pos (s.pc i).at refl inside
      (omega (arith, le-sum_over sleepers _ s.pc i))
every_Served futex {n} few i lt (suc most) s inv pos inside few_sleep =
    elim (Bool-cases (sleepers (s.pc i) == 0)) [
      | inl awake ↦ arrive futex few i lt s inv pos (s.pc i).at refl inside (ground arith)
      | inr asleep ↦
          let (h, lh, alarm) =
            sum_over_witness alarms n s.pc
              (ground (arith, inv.alarmed, le-sum_over sleepers n s.pc i)) in
          from_alarm futex few i lt most (every_Served futex few i lt most) h lh s
            (record { inv = inv; waits = ground arith; few_sleep = few_sleep }) pos (s.pc h).at refl
            alarm
    ]

-- Nobody waits in vain beside a permit: in every reachable state with a permit, a thread that is in
-- `wait`, awake or asleep, can still return, for fewer than 2 ^ 32 threads and an initial count of 32
-- bits. Some continuation of the schedule makes it return, in which a thread that sleeps goes on only
-- if a wake-up reaches it.
pub wait-Possible :
    (futex : AtomicWait) (n initial : ℕ) (es : List (ℕ × Choice × ℕ)) (i : ℕ)
    → n < u32_mod
    → initial < u32_mod
    → i < n
    → let s = execute futex n initial es in
      0 < s.mem.count
      → Inside (s.pc i)
      → Possible futex (program futex) n (λ t. (t.pc i).at ≡ outside waited) s
wait-Possible futex n initial es i few small lt pos inside =
    every_Served futex few i lt (sum_over sleepers n s.pc) s
      (execute-Inv futex n initial es few small) pos inside (omega arith)
  where
    s : System Semaphore Thread
    s = execute futex n initial es
