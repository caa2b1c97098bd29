-- ===== src/Semaphore/Arriving.antt =====
-- src/semaphore.rs: how a thread in `wait` takes a permit.
use atomics_for_peace_and_sy.Base.{Bool-cases, ℕ, ◌+◌, ◌-◌, ◌<◌, ◌≡◌, inl, inr, arith, ◌==◌}
use atomics_for_peace_and_sy.Threads.{System}
use atomics_for_peace_and_sy.Futex.{AtomicWait, silent}
use atomics_for_peace_and_sy.Futex.Possible.{Possible, now, reach, act}
use atomics_for_peace_and_sy.Semaphore.{
  Semaphore, Next, u32_mod, Pc, outside, waited, announce, load_count, wait_call, sleeping,
  exchange, retire, Thread, Choice, proceed, step, step_at, program,
}
use atomics_for_peace_and_sy.Semaphore.Inv.{sleepers, Inv}
use atomics_for_peace_and_sy.Semaphore.Moves.{step-Inv}

-- The thread is in `wait`.
abbrev pub Inside : Thread → Type 0
Inside t = elim t.at [
  | announce ↦ Unit
  | load_count ↦ Unit
  | wait_call ↦ Unit
  | sleeping ↦ Unit
  | exchange count ↦ Unit
  | retire ↦ Unit
  | _ ↦ ⊥
]

-- Thread `i` has returned from `wait`.
abbrev pub Returned : ℕ → System Semaphore Thread → Type 0
Returned i s = (s.pc i).at ≡ outside waited

module _ (futex : AtomicWait) {n initial : ℕ} (few : n < u32_mod) (i : ℕ) (lt : i < n) where
  -- one step of thread `j`, which is awake
  pub move :
      (s : System Semaphore Thread) (j : ℕ) (c : Choice) (x : Next)
      → Inv n initial s.mem s.pc
      → j < n
      → sleepers (s.pc j) ≡ 0
      → step futex j c s.mem (s.pc j) ≡ x
      → let s' = reach futex (program futex) n s j x in
        (Inv n initial s'.mem s'.pc → Possible futex (program futex) n (Returned i) s')
        → Possible futex (program futex) n (Returned i) s
  move s j c x inv lj awake e go =
      act futex (program futex) n (λ s. Inv n initial s.mem s.pc) (Returned i)
        (λ s i c k lt inv. step-Inv futex few s i c k lt inv) s j c x inv lj
        (λ a. ground (arith, awake)) e go

  arrive_retire :
      (s : System Semaphore Thread)
      → Inv n initial s.mem s.pc
      → (s.pc i).at ≡ retire
      → Possible futex (program futex) n (Returned i) s
  unfolding step step_at
  arrive_retire s inv e =
      move s i proceed (step_at futex proceed s.mem (s.pc i) retire) inv lt (ground arith)
        (ground arith) (λ inv'. now (ground arith))

  arrive_exchange :
      (s : System Semaphore Thread)
      → Inv n initial s.mem s.pc
      → 0 < s.mem.count
      → (s.pc i).at ≡ exchange s.mem.count
      → Possible futex (program futex) n (Returned i) s
  unfolding step step_at
  arrive_exchange s inv pos e =
      move s i proceed
        (
          record s.mem { count = s.mem.count - 1 },
          record (s.pc i) { taken = (s.pc i).taken + 1; at = retire },
          silent,
        )
        inv lt (ground arith) (ground arith) (λ inv'. arrive_retire _ inv' (ground arith))

  arrive_load :
      (s : System Semaphore Thread)
      → Inv n initial s.mem s.pc
      → 0 < s.mem.count
      → (s.pc i).at ≡ load_count
      → Possible futex (program futex) n (Returned i) s
  unfolding step step_at
  arrive_load s inv pos e =
      move s i proceed (s.mem, record (s.pc i) { at = exchange s.mem.count }, silent) inv lt
        (ground arith) (ground arith) (λ inv'. arrive_exchange _ inv' pos (ground arith))

  -- A thread in `wait` that is awake beside a permit, and is not disturbed, takes it and returns.
  pub arrive :
      (s : System Semaphore Thread)
      → Inv n initial s.mem s.pc
      → 0 < s.mem.count
      → (p : Pc) → (s.pc i).at ≡ p
      → Inside (s.pc i)
      → sleepers (s.pc i) ≡ 0
      → Possible futex (program futex) n (Returned i) s
  unfolding step step_at
  arrive s inv pos announce e inside awake =
      move s i proceed (step_at futex proceed s.mem (s.pc i) announce) inv lt awake (ground arith)
        (λ inv'. arrive_load _ inv' pos (ground arith))
  arrive s inv pos load_count e inside awake = arrive_load s inv pos e
  arrive s inv pos wait_call e inside awake =
      move s i proceed (s.mem, record (s.pc i) { at = load_count }, silent) inv lt awake
        (ground (arith, futex.blocks_iff s.mem.count 0))
        (λ inv'. arrive_load _ inv' pos (ground arith))
  arrive s inv pos (exchange count) e inside awake = elim (Bool-cases (s.mem.count == count)) [
    | inl fresh ↦ arrive_exchange s inv pos (ground arith)
    | inr stale ↦
        move s i proceed (s.mem, record (s.pc i) { at = load_count }, silent) inv lt awake
          (ground arith) (λ inv'. arrive_load _ inv' pos (ground arith))
  ]
  arrive s inv pos retire e inside awake = arrive_retire s inv e
  arrive s inv pos p e inside awake = absurd (ground arith)
