-- ===== src/Semaphore/Workers.antt =====
-- src/semaphore.rs: threads that wait and signal in turns, as in its unit tests of several threads at
-- the same time, in every interleaving.
use atomics_for_peace_and_sy.Base.{
  ℕ, zero, suc, ◌+◌, ◌*◌, ◌-◌, ◌≤◌, ◌<◌, ◌≡◌, refl, ◌⊎◌, Bool, true, false, List, [], ◌∷◌, arith,
  ◌==◌, if◌then◌else◌,
}
use atomics_for_peace_and_sy.Threads.{System, sum_over, sum_over-eq-zero}
use atomics_for_peace_and_sy.Threads.Sums.{sum_over-const, sum_over-le_const, sum_over-add}
use atomics_for_peace_and_sy.Futex.{AtomicWait, run, Program, Only-any}
use atomics_for_peace_and_sy.Futex.Scripted.{Worker, scripted, plain, run-plain}
use atomics_for_peace_and_sy.Futex.Everywhere.{run-All}
use atomics_for_peace_and_sy.Semaphore.{
  Semaphore, u32_mod, new, Pc, outside, announce, load_count, wait_call, sleeping, exchange, retire,
  add, load_waiting, wake, Thread, Choice, call_wait, call_signal, client, step, step_at, program,
}
use atomics_for_peace_and_sy.Semaphore.Inv.{taken_by, given_by, waiters, Inv}
use atomics_for_peace_and_sy.Semaphore.Moves.{step-Inv}
use atomics_for_peace_and_sy.Semaphore.Permits.{fresh_thread, init-Inv}

-- `for _ in 0..iterations { semaphore.wait(); ...; semaphore.signal(); }`
abbrev pub worker : ℕ → List Choice
worker zero = []
worker (suc iterations) = call_wait ∷ call_signal ∷ worker iterations

abbrev pub between : Thread → Bool
between t = elim t.at [ outside last ↦ true | _ ↦ false ]

abbrev pub workers : AtomicWait → Program Semaphore (Worker Thread Choice) Choice
workers futex = scripted (program futex) between

worker_lem : (r : ℕ) → worker r ≡ (if r == 0 then [] else call_wait ∷ call_signal ∷ worker (r - 1))
worker_lem zero = refl
worker_lem (suc r) = ground arith

abbrev Turn : ℕ → List Choice → Thread → Pc → Type 0
Turn k calls t p = elim p [
  | outside last ↦
      (t.taken ≤ k)
      × (((t.given ≡ t.taken) × (calls ≡ worker (k - t.taken)))
          ⊎ ((t.given + 1 ≡ t.taken) × (calls ≡ call_signal ∷ worker (k - t.taken))))
  | announce ↦
      (t.taken < k) × (t.given ≡ t.taken) × (calls ≡ call_signal ∷ worker (k - (t.taken + 1)))
  | load_count ↦
      (t.taken < k) × (t.given ≡ t.taken) × (calls ≡ call_signal ∷ worker (k - (t.taken + 1)))
  | wait_call ↦
      (t.taken < k) × (t.given ≡ t.taken) × (calls ≡ call_signal ∷ worker (k - (t.taken + 1)))
  | sleeping ↦
      (t.taken < k) × (t.given ≡ t.taken) × (calls ≡ call_signal ∷ worker (k - (t.taken + 1)))
  | exchange count ↦
      (t.taken < k) × (t.given ≡ t.taken) × (calls ≡ call_signal ∷ worker (k - (t.taken + 1)))
  | retire ↦ (t.taken ≤ k) × (t.given + 1 ≡ t.taken) × (calls ≡ call_signal ∷ worker (k - t.taken))
  | add ↦ (t.taken ≤ k) × (t.given + 1 ≡ t.taken) × (calls ≡ worker (k - t.taken))
  | load_waiting ↦ (t.taken ≤ k) × (t.given ≡ t.taken) × (calls ≡ worker (k - t.taken))
  | wake ↦ (t.taken ≤ k) × (t.given ≡ t.taken) × (calls ≡ worker (k - t.taken))
  | _ ↦ ⊥
]

module _ (futex : AtomicWait) (k : ℕ) where
  move-Turn :
      (i : ℕ) (c : Choice) (m : Semaphore) (calls : List Choice) (t : Thread) (p : Pc)
      → t.at ≡ p
      → Turn k calls t t.at
      → let next = ((workers futex).step i c m (calls, t)).1 in Turn k next.0 next.1 next.1.at
  unfolding step step_at client
  move-Turn i c m [] t (outside last) e h = ground (arith, worker_lem (k - t.taken))
  move-Turn i c m (call ∷ calls) t (outside last) e h = ground (arith, worker_lem (k - t.taken))
  move-Turn i c m calls t p e h = ground arith

-- `n` new threads, each with `k` iterations.
abbrev pub spawned : (k initial : ℕ) → System Semaphore (Worker Thread Choice)
spawned k initial = record { mem = new initial; pc = λ i. (worker k, fresh_thread) }

-- What the threads have done after a schedule.
unfoldable pub compete :
    AtomicWait → (n k initial : ℕ) → List (ℕ × Choice × ℕ) → System Semaphore (Worker Thread Choice)
compete futex n k initial es = run futex (workers futex) n (spawned k initial) es

-- The thread has ended, so that it can be joined.
abbrev pub Ended : Worker Thread Choice → Type 0
Ended (calls, t) = (calls ≡ []) × (between t ≡ true)

-- The thread has a permit that it has not begun to give back.
abbrev pub busy : Thread → ℕ
busy t = t.taken - t.given

module _ (futex : AtomicWait) (n k initial : ℕ) (es : List (ℕ × Choice × ℕ)) where
  -- the state that the schedule reaches
  abbrev reached : System Semaphore (Worker Thread Choice)
  reached = compete futex n k initial es

  all-Turn : (i : ℕ) → let (calls, t) = reached.pc i in Turn k calls t t.at
  unfolding compete
  all-Turn =
      (run-All futex (workers futex) n (λ c. Unit) (λ m. Unit) (λ i (calls, t). Turn k calls t t.at)
        (λ i c m (calls, t) ok hm h. (tt, move-Turn futex k i c m calls t t.at refl h))
        (λ a j (calls, t) slept h. ground arith) (spawned k initial) es
        (Only-any futex (workers futex) n es) tt (λ j. ground arith)).1

  plain-Inv :
      n < u32_mod
      → initial < u32_mod
      → let s = plain (program futex) between reached in Inv n initial s.mem s.pc
  unfolding compete
  plain-Inv few small =
      run-plain (program futex) between futex n (λ s. Inv n initial s.mem s.pc)
        (λ s i c k lt inv. step-Inv futex few s i c k lt inv) (spawned k initial) es
        (init-Inv n initial small)

  -- the threads without their scripts
  abbrev threads : ℕ → Thread
  threads = (plain (program futex) between reached).pc

  given-le : (i : ℕ) → i < n → given_by (threads i) ≤ k
  given-le i lt = turn (threads i).at refl
    where
      turn : (p : Pc) → (threads i).at ≡ p → given_by (threads i) ≤ k
      turn p e = ground (arith, all-Turn i)

  taken-split : (i : ℕ) → i < n → taken_by (threads i) ≡ given_by (threads i) + busy (threads i)
  taken-split i lt = turn (threads i).at refl
    where
      turn :
          (p : Pc)
          → (threads i).at ≡ p
          → taken_by (threads i) ≡ given_by (threads i) + busy (threads i)
      turn p e = ground (arith, all-Turn i)

  -- However `n` threads interleave that each wait for a permit and signal it, `k` times, at most
  -- `initial` of them have a permit at the same time, if the initial count and all signals fit in 32
  -- bits.
  pub workers_bounded : n < u32_mod → initial + n * k < u32_mod → sum_over busy n threads ≤ initial
  workers_bounded few small =
      let given_few = sum_over-le_const given_by k n threads given-le in
      omega (
        arith,
        (plain-Inv few (omega arith)).safe.conserved (omega (arith, given_few)),
        sum_over-add taken_by given_by busy n threads taken-split,
      )

  Ended-shares :
      (i : ℕ)
      → Ended (reached.pc i)
      → (given_by (threads i) ≡ k) × (taken_by (threads i) ≡ k) × (waiters (threads i) ≡ 0)
  Ended-shares i ended = turn (threads i).at refl
    where
      turn :
          (p : Pc)
          → (threads i).at ≡ p
          → (given_by (threads i) ≡ k) × (taken_by (threads i) ≡ k) × (waiters (threads i) ≡ 0)
      turn p e = ground (arith, all-Turn i, worker_lem (k - (threads i).taken))

  -- However `n` threads interleave that each wait for a permit and signal it, `k` times, once they all
  -- have ended, `count` is the initial one again and `num_waiting` is 0, if the initial count and all
  -- signals fit in 32 bits.
  pub workers_restore :
      n < u32_mod
      → initial + n * k < u32_mod
      → ((i : ℕ) → i < n → Ended (reached.pc i))
      → (reached.mem.count ≡ initial) × (reached.mem.num_waiting ≡ 0)
  workers_restore few small ended =
      let given = sum_over-const given_by k n threads (λ i lt. (Ended-shares i (ended i lt)).0) in
      let inv = (plain-Inv few (omega arith)).safe in
      omega (
        arith,
        given,
        inv.conserved (omega (arith, given)),
        inv.counted,
        sum_over-const taken_by k n threads (λ i lt. (Ended-shares i (ended i lt)).1),
        sum_over-eq-zero waiters n threads (λ i lt. (Ended-shares i (ended i lt)).2),
      )

-- The unit tests with several threads: the state after a schedule, for any futex. The barrier at which
-- the threads of the last two wait for each other, and the counter of the last, are left out.
abbrev test_multiple_threads :
    AtomicWait → List (ℕ × Choice × ℕ) → System Semaphore (Worker Thread Choice)
test_multiple_threads futex es = compete futex 16 1 2 es

abbrev test_racy_multiple_threads_signal_lost :
    AtomicWait → List (ℕ × Choice × ℕ) → System Semaphore (Worker Thread Choice)
test_racy_multiple_threads_signal_lost futex es = compete futex 8 100000 1 es

abbrev test_multiple_waiters_access :
    AtomicWait → List (ℕ × Choice × ℕ) → System Semaphore (Worker Thread Choice)
test_multiple_waiters_access futex es = compete futex 16 100 4 es

-- They pass in every interleaving in which the threads end.
module _ (futex : AtomicWait) (es : List (ℕ × Choice × ℕ)) where
  multiple_threads_passes :
      let s = test_multiple_threads futex es in
      ((i : ℕ) → i < 16 → Ended (s.pc i)) → (s.mem.count ≡ 2) × (s.mem.num_waiting ≡ 0)
  multiple_threads_passes ended =
      workers_restore futex 16 1 2 es (ground arith) (ground arith) ended

  racy_multiple_threads_passes :
      let s = test_racy_multiple_threads_signal_lost futex es in
      ((i : ℕ) → i < 8 → Ended (s.pc i)) → (s.mem.count ≡ 1) × (s.mem.num_waiting ≡ 0)
  racy_multiple_threads_passes ended =
      workers_restore futex 8 100000 1 es (ground arith) (ground arith) ended

  multiple_waiters_passes :
      sum_over busy 16 (plain (program futex) between (test_multiple_waiters_access futex es)).pc
      ≤ 4
  multiple_waiters_passes = workers_bounded futex 16 100 4 es (ground arith) (ground arith)
