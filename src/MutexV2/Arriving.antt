-- ===== src/MutexV2/Arriving.antt =====
-- src/mutex_v2.rs: how a thread in `lock` gets the mutex once it is unlocked.
use atomics_for_peace_and_sy.Base.{ℕ, ◌<◌, ◌≡◌, false, arith}
use atomics_for_peace_and_sy.Threads.{System}
use atomics_for_peace_and_sy.Futex.{AtomicWait, silent}
use atomics_for_peace_and_sy.Futex.Possible.{Possible, now, reach, act}
use atomics_for_peace_and_sy.MutexV2.{
  Next, Mutex, Pc, check, fast, spin, second, slow, wait_call, sleeping, enter, Thread, Choice,
  proceed, step, step_at, program,
}
use atomics_for_peace_and_sy.MutexV2.Inv.{sleepers, Inv, step-Inv}

-- The thread is in `lock`, and has no guard.
abbrev pub Inside : {T : Type 0} → Thread T → Type 0
Inside t = elim t.at [
  | check try ↦ (try ≡ false) × (t.guards ≡ 0)
  | fast try ↦ try ≡ false
  | spin counter ↦ Unit
  | second ↦ Unit
  | slow ↦ Unit
  | wait_call ↦ Unit
  | sleeping ↦ Unit
  | enter ↦ Unit
  | _ ↦ ⊥
]

module _ {T : Type 0} (futex : AtomicWait) {n : ℕ} (i : ℕ) (lt : i < n) where
  abbrev pub Acquired : System (Mutex T) (Thread T) → Type 0
  Acquired s = 0 < (s.pc i).guards

  abbrev pub Can : System (Mutex T) (Thread T) → Type 0
  Can s = Possible futex (program futex) n Acquired s

  -- one step of thread `j`, which is awake
  pub move :
      (s : System (Mutex T) (Thread T)) (j : ℕ) (c : Choice T) (x : Next T)
      → Inv n s.mem s.pc
      → j < n
      → sleepers (s.pc j) ≡ 0
      → step futex j c s.mem (s.pc j) ≡ x
      → let s' = reach futex (program futex) n s j x in (Inv n s'.mem s'.pc → Can s') → Can s
  move s j c x inv lj awake e go =
      act futex (program futex) n (λ s. Inv n s.mem s.pc) Acquired
        (λ s i c k lt inv. step-Inv futex s i c k lt inv) s j c x inv lj
        (λ a. ground (arith, awake)) e go

  pub arrive_enter :
      (s : System (Mutex T) (Thread T)) → Inv n s.mem s.pc → (s.pc i).at ≡ enter → Can s
  unfolding step step_at
  arrive_enter s inv e =
      move s i proceed (s.mem, (step_at futex proceed s.mem (s.pc i) enter).1, silent) inv lt
        (ground arith) (ground arith) (λ inv'. now (ground arith))

  -- the exchange of an unlocked word, and what follows
  arrive_exchange :
      (s : System (Mutex T) (Thread T)) (w : ℕ)
      → Inv n s.mem s.pc
      → sleepers (s.pc i) ≡ 0
      → step futex i proceed s.mem (s.pc i)
        ≡ (record s.mem { state = w }, record (s.pc i) { at = enter }, silent)
      → Can s
  arrive_exchange s w inv awake e =
      move s i proceed _ inv lt awake e (λ inv'. arrive_enter _ inv' (ground arith))

  arrive_second :
      (s : System (Mutex T) (Thread T))
      → Inv n s.mem s.pc
      → s.mem.state ≡ 0
      → (s.pc i).at ≡ second
      → Can s
  unfolding step step_at
  arrive_second s inv free e = arrive_exchange s 1 inv (ground arith) (ground arith)

  arrive_slow :
      (s : System (Mutex T) (Thread T))
      → Inv n s.mem s.pc
      → s.mem.state ≡ 0
      → (s.pc i).at ≡ slow
      → Can s
  unfolding step step_at
  arrive_slow s inv free e = arrive_exchange s 2 inv (ground arith) (ground arith)

  -- A thread in `lock` that finds the mutex unlocked, and is not disturbed, gets it.
  pub arrive :
      (s : System (Mutex T) (Thread T))
      → Inv n s.mem s.pc
      → s.mem.state ≡ 0
      → (p : Pc T) → (s.pc i).at ≡ p
      → Inside (s.pc i)
      → sleepers (s.pc i) ≡ 0
      → Can s
  unfolding step step_at
  arrive s inv free (fast try) e inside awake = arrive_exchange s 1 inv awake (ground arith)
  arrive s inv free (check try) e inside awake =
      move s i proceed (s.mem, record (s.pc i) { at = fast false }, silent) inv lt awake
        (ground (arith, inv.safe.each i))
        (λ inv'. arrive_exchange _ 1 inv' (ground arith) (ground arith))
  arrive s inv free (spin counter) e inside awake =
      move s i proceed (s.mem, record (s.pc i) { at = second }, silent) inv lt awake (ground arith)
        (λ inv'. arrive_second _ inv' (ground arith) (ground arith))
  arrive s inv free second e inside awake = arrive_second s inv free e
  arrive s inv free slow e inside awake = arrive_slow s inv free e
  arrive s inv free wait_call e inside awake =
      move s i proceed (s.mem, record (s.pc i) { at = slow }, silent) inv lt awake
        (ground (arith, futex.blocks_iff s.mem.state 2))
        (λ inv'. arrive_slow _ inv' (ground arith) (ground arith))
  arrive s inv free enter e inside awake = arrive_enter s inv e
  arrive s inv free p e inside awake = absurd (ground arith)
