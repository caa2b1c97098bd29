-- ===== src/Semaphore/Refines.antt =====
-- src/semaphore.rs: the semaphore is the abstract counting semaphore, in every interleaving.
use atomics_for_peace_and_sy.Base.{
  ℕ, ◌+◌, ◌<◌, ◌≡◌, refl, ◌∙◌, Bool, Bool-cases, inl, inr, List, arith, true, false, ◌==◌, ◌&&◌,
  not, ltb,
}
use atomics_for_peace_and_sy.Threads.{System, update}
use atomics_for_peace_and_sy.Futex.{AtomicWait, exec, deliver, deliver-Roused}
use atomics_for_peace_and_sy.Semaphore.{
  Semaphore, u32_mod, new, Pc, outside, load_count, wait_call, exchange, retire, clock, try_load,
  try_exchange, add, load_waiting, wake, Thread, Choice, weak_fails, is_late, Next, client, step,
  step_at, program,
}
use atomics_for_peace_and_sy.Semaphore.Inv.{Inv, Place}
use atomics_for_peace_and_sy.Semaphore.Moves.{step-Inv}
use atomics_for_peace_and_sy.Semaphore.Permits.{execute, fresh_thread, init-Inv}
use atomics_for_peace_and_sy.Semaphore.Labels.{
  action_at, reply_of, progress_of, permits, rouse-progress, rest_same,
}
use atomics_for_peace_and_sy.SemaphoreSpec.{
  Progress, nothing, took, gave, internal, finds_none, no_reply, answered, Becomes, Move, rest,
  find_none, take as take_move, wait, accept, refuse, refuse_none, give, signal, relabel, taken,
  given, Trace-balance,
}
use atomics_for_peace_and_sy.Simulation.{Trace, Implementation, history}
use atomics_for_peace_and_sy.Simulation.OverFutex.{Steps, implementation, run-Trace}

module _ (futex : AtomicWait) (n : ℕ) (s : System Semaphore Thread) (i : ℕ) (k : ℕ) where
  -- the state that a step of thread `i` leads to, with its wake-up
  abbrev reach : Next → System Semaphore Thread
  reach next = record {
    mem = next.0;
    pc = deliver futex (program futex) n k next.2 (update s.pc i next.1);
  }

  becomes :
      (next : Next) (q : Progress)
      → progress_of next.1 ≡ q
      → Becomes i q (permits s) (permits (reach next))
  becomes next q e j =
      rouse-progress futex n _ _
        (deliver-Roused futex (program futex) n (update s.pc i next.1) k next.2 j)
      ∙ elim (Bool-cases (i == j)) [ inl here ↦ rw here e | inr other ↦ rw other refl ]

  -- A step of `p` is what a rule of the abstract semaphore allows.
  abbrev Simulated : Choice → Pc → Type 0
  Simulated c p =
      let next = step_at futex c s.mem (s.pc i) p in
      Move u32_mod i (action_at futex c s.mem p, reply_of p next.1.at) (permits s)
        (permits (reach next))

  module _ (fits : s.mem.count < u32_mod) (c : Choice) where
    abbrev after : Pc → Next
    after p = step_at futex c s.mem (s.pc i) p

    rests :
        (next : Next)
        → next.0.count ≡ s.mem.count
        → progress_of next.1 ≡ progress_of (s.pc i)
        → Move u32_mod i (internal, no_reply) (permits s) (permits (reach next))
    rests next same e = rest same (becomes next (progress_of (s.pc i)) e)

    finds :
        (next : Next)
        → s.mem.count ≡ 0
        → next.0.count ≡ 0
        → progress_of next.1 ≡ progress_of (s.pc i)
        → Move u32_mod i (finds_none, no_reply) (permits s) (permits (reach next))
    finds next none still e = find_none none still (becomes next (progress_of (s.pc i)) e)

    refuses :
        (next : Next)
        → next.0.count ≡ s.mem.count
        → progress_of (s.pc i) ≡ nothing
        → progress_of next.1 ≡ nothing
        → Move u32_mod i (internal, answered false) (permits s) (permits (reach next))
    refuses next same before e = refuse same before (becomes next nothing e)

    try_load_simulates :
        (timed : Bool) → (s.pc i).at ≡ try_load timed → Simulated c (try_load timed)
    unfolding step_at
    try_load_simulates true e = elim (Bool-cases (s.mem.count == 0)) [
      | inl none ↦
          relabel (rw none refl)
            (finds (after (try_load true)) (ground arith) (ground arith) (ground arith))
      | inr some ↦
          relabel (rw some refl) (rests (after (try_load true)) (ground arith) (ground arith))
    ]
    try_load_simulates false e = elim (Bool-cases (s.mem.count == 0)) [
      | inl none ↦ relabel (rw none refl) (
          refuse_none (ground arith) (ground arith) (ground arith)
            (becomes (after (try_load false)) nothing (ground arith)))
      | inr some ↦
          relabel (rw some refl) (rests (after (try_load false)) (ground arith) (ground arith))
    ]

    try_exchange_simulates :
        (timed : Bool) (count : ℕ)
        → 0 < count
        → (s.pc i).at ≡ try_exchange timed count
        → Simulated c (try_exchange timed count)
    unfolding step_at
    try_exchange_simulates timed count pos e =
        elim (Bool-cases (s.mem.count == count && not (weak_fails c))) [
          | inl won ↦ relabel (rw won refl) (
              accept (ground arith) (ground arith)
                (becomes (after (try_exchange timed count)) nothing (ground arith)))
          | inr lost ↦ without timed e lost
        ]
      where
        without :
            (timed : Bool)
            → (s.pc i).at ≡ try_exchange timed count
            → (s.mem.count == count && not (weak_fails c)) ≡ false
            → Simulated c (try_exchange timed count)
        without true e lost =
            relabel (rw lost refl)
              (rests (after (try_exchange true count)) (ground arith) (ground arith))
        without false e lost = relabel (rw lost refl) (
            refuses (after (try_exchange false count)) (ground arith) (ground arith) (ground arith))

    move_simulates : (p : Pc) → (s.pc i).at ≡ p → Place p → Simulated c p
    unfolding step_at client
    move_simulates load_count e place = elim (Bool-cases (s.mem.count == 0)) [
      | inl none ↦
          relabel (rw none refl)
            (finds (after load_count) (ground arith) (ground arith) (ground arith))
      | inr some ↦ relabel (rw some refl) (rests (after load_count) (ground arith) (ground arith))
    ]
    move_simulates wait_call e place = elim (Bool-cases (futex.blocks s.mem.count 0)) [
      | inl slept ↦ relabel (rw slept refl) (
          finds (after wait_call) ((futex.blocks_iff s.mem.count 0).0 slept)
            ((futex.blocks_iff s.mem.count 0).0 slept) (ground arith))
      | inr awake ↦ relabel (rw awake refl) (rests (after wait_call) (ground arith) (ground arith))
    ]
    move_simulates (exchange count) e place =
        elim (Bool-cases (s.mem.count == count && not (weak_fails c))) [
          | inl won ↦ relabel (rw won refl) (
              take_move (ground arith) (ground arith)
                (becomes (after (exchange count)) took (ground arith)))
          | inr lost ↦
              relabel (rw lost refl) (rests (after (exchange count)) (ground arith) (ground arith))
        ]
    move_simulates retire e place =
        wait refl (ground arith) (becomes (after retire) nothing (ground arith))
    move_simulates clock e place = elim (Bool-cases (is_late c)) [
      | inl late ↦ relabel (rw late refl) (refuses (after clock) refl (ground arith) (ground arith))
      | inr early ↦ relabel (rw early refl) (rests (after clock) (ground arith) (ground arith))
    ]
    move_simulates (try_load timed) e place = try_load_simulates timed e
    move_simulates (try_exchange timed count) e place = try_exchange_simulates timed count place e
    move_simulates add e place =
        give (ground arith) (ground arith) (becomes (after add) gave (ground arith))
    move_simulates load_waiting e place = elim (Bool-cases (ltb 0 s.mem.num_waiting)) [
      | inl some ↦ relabel (rw some refl) (rests (after load_waiting) (ground arith) (ground arith))
      | inr none ↦
          relabel (rw none refl)
            (signal refl (ground arith) (becomes (after load_waiting) nothing (ground arith)))
    ]
    move_simulates wake e place =
        signal refl (ground arith) (becomes (after wake) nothing (ground arith))
    move_simulates (outside last) e place =
        rests (after (outside last)) (ground arith) (ground arith)
    move_simulates p e place = rests (after p) (ground arith) (ground arith)

module _ (futex : AtomicWait) (n initial : ℕ) (few : n < u32_mod) where
  pub step_simulates :
      (s : System Semaphore Thread) (i : ℕ) (c : Choice) (k : ℕ)
      → i < n
      → Inv n initial s.mem s.pc
      → Move u32_mod i
          (
            action_at futex c s.mem (s.pc i).at,
            reply_of (s.pc i).at (step futex i c s.mem (s.pc i)).1.at,
          )
          (permits s)
          (permits (exec futex (program futex) n s i c k))
  unfolding step
  step_simulates s i c k lt inv =
      move_simulates futex n s i k inv.safe.fits c (s.pc i).at refl (inv.safe.each i lt)

  -- The semaphore, with its invariant, fills the interface of the abstract one.
  abbrev pub steps : Steps (Move u32_mod) (internal, no_reply) futex (program futex) n
  steps = record {
    rest = λ i s. rest_same;
    thread_id = λ i. i;
    label = λ i c s. (
      action_at futex c s.mem (s.pc i).at,
      reply_of (s.pc i).at (step futex i c s.mem (s.pc i)).1.at,
    );
    view = permits;
    Inv = λ s. Inv n initial s.mem s.pc;
    keeps = λ s i c k lt inv. step-Inv futex few s i c k lt inv;
    simulates = λ s i c k lt inv. step_simulates s i c k lt inv;
  }

  abbrev pub semaphore : Implementation (Move u32_mod) Semaphore Thread (ℕ × Choice × ℕ)
  semaphore = implementation steps

  abbrev pub start : System Semaphore Thread
  start = record { mem = new initial; pc = λ _. fresh_thread }

  -- The semaphore is the abstract counting semaphore, however its threads interleave, sleep and are
  -- woken, for fewer than 2 ^ 32 threads and an initial count of 32 bits: what the steps of a
  -- schedule do, who takes a permit, finds none, adds one and returns from which call with which
  -- result, in their order, is a history of the abstract semaphore, from the initial count to the
  -- `count` and the calls under way at the end. In such a history `wait` returns only after it has
  -- taken a permit and `signal` only after it has added one, and `try_wait` returns `true` with the
  -- step that takes a permit, and `false` only in a call that took none.
  pub semaphore_refines :
      (es : List (ℕ × Choice × ℕ))
      → initial < u32_mod
      → Trace
          (Move u32_mod)
          (history semaphore start es)
          (record { count = initial; progress = λ _. nothing })
          (permits (execute futex n initial es))
  unfolding execute
  semaphore_refines es small = run-Trace steps start es (init-Inv n initial small)

  -- While the permits given so far fit, `count` is what a history leaves of them.
  pub history-balance :
      (es : List (ℕ × Choice × ℕ))
      → initial < u32_mod
      → let ls = history semaphore start es in
        initial + given ls < u32_mod
        → (execute futex n initial es).mem.count + taken ls ≡ initial + given ls
  history-balance es small fits = Trace-balance (semaphore_refines es small) fits
