-- ===== src/Semaphore/Inv.antt =====
-- src/semaphore.rs: the invariant of the semaphore, which a wake-up of a sleeper keeps.
use atomics_for_peace_and_sy.Base.{ℕ, ◌+◌, ◌≤◌, ◌<◌, ◌≡◌, true, false, arith}
use atomics_for_peace_and_sy.Threads.{
  update, sum_over, sum_over-update, le-sum_over, sum_over-eq-zero,
}
use atomics_for_peace_and_sy.Semaphore.{
  Semaphore, u32_mod, Pc, load_count, wait_call, sleeping, exchange, retire, try_exchange,
  load_waiting, wake, Thread, asleep, woken,
}

abbrev pub taken_by : Thread → ℕ
taken_by t = t.taken

abbrev pub given_by : Thread → ℕ
given_by t = t.given

-- The thread is inside `wait`, between its two updates of `num_waiting`.
abbrev pub waiters : Thread → ℕ
waiters t = elim t.at [
  | load_count ↦ 1
  | wait_call ↦ 1
  | sleeping ↦ 1
  | exchange count ↦ 1
  | retire ↦ 1
  | _ ↦ 0
]

abbrev pub sleepers : Thread → ℕ
sleepers t = elim t.at [ sleeping ↦ 1 | _ ↦ 0 ]

-- The thread is awake in `wait` and has no permit yet, or has added one and is about to wake a
-- sleeper for it.
abbrev pub alarms : Thread → ℕ
alarms t = elim t.at [
  | load_count ↦ 1
  | wait_call ↦ 1
  | exchange count ↦ 1
  | load_waiting ↦ 1
  | wake ↦ 1
  | _ ↦ 0
]

-- An exchange never expects 0.
abbrev pub Place : Pc → Type 0
Place (exchange count) = 0 < count
Place (try_exchange timed count) = 0 < count
Place p = Unit

pub record Safe (n initial : ℕ) (m : Semaphore) (pc : ℕ → Thread) : Type 0 where
  pub fits : m.count < u32_mod
  pub counted : m.num_waiting ≡ sum_over waiters n pc
  pub conserved :
      initial + sum_over given_by n pc < u32_mod
      → m.count + sum_over taken_by n pc ≡ initial + sum_over given_by n pc
  pub each : (i : ℕ) → i < n → Place ((pc i).at)

-- While a thread sleeps, every permit has somebody who is about to deal with it.
abbrev pub Alarmed : ℕ → Semaphore → (ℕ → Thread) → Type 0
Alarmed n m pc = 0 < sum_over sleepers n pc → m.count ≤ sum_over alarms n pc

pub record Inv (n initial : ℕ) (m : Semaphore) (pc : ℕ → Thread) : Type 0 where
  pub safe : Safe n initial m pc
  pub alarmed : Alarmed n m pc

pub waiters-le_one : (t : Thread) → waiters t ≤ 1
waiters-le_one t = ground arith

pub sleepers-le-waiters : (t : Thread) → sleepers t ≤ waiters t
sleepers-le-waiters t = ground arith

-- A thread that is woken takes nothing, and counts as a waiter still.
module _ (n initial : ℕ) (m : Semaphore) (pc : ℕ → Thread) (a j : ℕ) (lt : j < n)
    (slept : asleep a (pc j) ≡ true) where
  pub wake-Safe : Safe n initial m pc → Safe n initial m (update pc j (woken (pc j)))
  wake-Safe h = record {
    fits = h.fits;
    counted = ground (arith, h.counted, sum_over-update waiters n pc j (woken (pc j)));
    conserved = λ small. omega (
      arith,
      h.conserved,
      sum_over-update given_by n pc j (woken (pc j)),
      sum_over-update taken_by n pc j (woken (pc j)),
    );
    each = λ i li. ground (arith, h.each i);
  }

  pub wake-Alarmed :
      (0 < sum_over sleepers n pc → m.count ≤ sum_over alarms n pc + 1)
      → Alarmed n m (update pc j (woken (pc j)))
  wake-Alarmed h = λ z.
      ground (arith, h, le-sum_over sleepers n pc j, sum_over-update alarms n pc j (woken (pc j)))

pub nobody-Alarmed :
    (n : ℕ) (m : Semaphore) (pc : ℕ → Thread)
    → ((j : ℕ) → j < n → asleep 0 (pc j) ≡ false)
    → Alarmed n m pc
nobody-Alarmed n m pc quiet =
    λ h. absurd (omega (arith, sum_over-eq-zero sleepers n pc (λ i li. ground (arith, quiet i))))
