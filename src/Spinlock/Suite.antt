-- ===== src/Spinlock/Suite.antt =====
-- src/spinlock.rs: its unit tests of one call at a time. A guard that a test still has at its end is
-- not dropped here.
use atomics_for_peace_and_sy.Base.{ℕ, ◌+◌, refl, List, [], ◌∷◌, replicate}
use atomics_for_peace_and_sy.Threads.{alone}
use atomics_for_peace_and_sy.Suite.{Act, call, Passes}
use atomics_for_peace_and_sy.Spinlock.{
  SpinLock, new, Pc, Choice, idle, held, viewed, call_lock, read, write, unlock, panic, proceed,
  client, step,
}

abbrev Script : Type 0
Script = List (Act (SpinLock ℕ) (Choice ℕ) (Pc ℕ))

-- the end of a call that nobody disturbs; thread `i` has the identifier `i + 1`
finish : ℕ → SpinLock ℕ × Pc ℕ → Choice ℕ → SpinLock ℕ × Pc ℕ
unfolding alone
finish i s c = alone (λ i. step (i + 1)) i s (c ∷ replicate 4 proceed)

-- The test passes on a new lock of `d`.
abbrev Succeeds : ℕ → Script → Type 0
Succeeds d script = Passes finish (λ p. p) (new d) (λ i. idle) script

abbrev locks : ℕ → Act (SpinLock ℕ) (Choice ℕ) (Pc ℕ)
locks i = call i call_lock held

abbrev sees : ℕ → ℕ → Act (SpinLock ℕ) (Choice ℕ) (Pc ℕ)
sees i v = call i read (viewed v)

abbrev assigns : ℕ → ℕ → Act (SpinLock ℕ) (Choice ℕ) (Pc ℕ)
assigns i v = call i (write v) held

abbrev basic_lock_functionality : Script
basic_lock_functionality =
    locks 0 ∷ sees 0 4 ∷ call 0 unlock idle ∷ locks 0 ∷ sees 0 4 ∷ assigns 0 8 ∷ sees 0 8 ∷ []

-- Thread 1 panics while it has the lock, and ends before thread 0 takes it.
abbrev test_mutex_interrupt : Script
test_mutex_interrupt =
    locks 1
    ∷ sees 1 0
    ∷ assigns 1 1
    ∷ call 1 panic idle
    ∷ locks 0
    ∷ sees 0 1
    ∷ assigns 0 2
    ∷ sees 0 2
    ∷ []

suite_passes : Succeeds 4 basic_lock_functionality × Succeeds 0 test_mutex_interrupt
unfolding finish step client
suite_passes = (refl, refl)
