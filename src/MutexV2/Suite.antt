-- ===== src/MutexV2/Suite.antt =====
-- src/mutex_v2.rs: its unit tests of one call at a time. The guards that a test still has at its end
-- are not dropped here.
use atomics_for_peace_and_sy.Base.{ℕ, refl, List, [], ◌∷◌, replicate}
use atomics_for_peace_and_sy.ThreadLocal.{contains, insert, remove}
use atomics_for_peace_and_sy.Futex.{alone}
use atomics_for_peace_and_sy.Futex.Scanning.{scanning}
use atomics_for_peace_and_sy.Suite.{Act, call, check, Passes}
use atomics_for_peace_and_sy.MutexV2.{
  Mutex, new, Pc, Thread, Choice, no_call, acquired, would_block, poisoned_lock, outside, viewed,
  call_lock, read, write, unlock, panic, clear_poison, proceed, client, step, step_at, program,
}
use atomics_for_peace_and_sy.MutexV2.Exclusion.{fresh_thread}

abbrev Script : Type 0
Script = List (Act (Mutex ℕ) (Choice ℕ) (Pc ℕ))

-- the end of a call that nobody disturbs
finish : ℕ → Mutex ℕ × Thread ℕ → Choice ℕ → Mutex ℕ × Thread ℕ
unfolding alone
finish i s c = alone (program scanning) i s (c ∷ replicate 6 proceed)

place : Thread ℕ → Pc ℕ
place t = t.at

-- The test passes on a new mutex of `d`.
abbrev Succeeds : ℕ → Script → Type 0
Succeeds d script = Passes finish place (new 1 d) (λ i. fresh_thread) script

abbrev locks : ℕ → Act (Mutex ℕ) (Choice ℕ) (Pc ℕ)
locks i = call i call_lock (outside acquired)

abbrev sees : ℕ → ℕ → Act (Mutex ℕ) (Choice ℕ) (Pc ℕ)
sees i v = call i read (viewed v)

abbrev assigns : ℕ → ℕ → Act (Mutex ℕ) (Choice ℕ) (Pc ℕ)
assigns i v = call i (write v) (outside no_call)

abbrev unlocks : Act (Mutex ℕ) (Choice ℕ) (Pc ℕ)
unlocks = call 0 unlock (outside no_call)

abbrev test_basic_locking : Script
test_basic_locking =
    locks 0 ∷ sees 0 4 ∷ unlocks ∷ locks 0 ∷ sees 0 4 ∷ assigns 0 80 ∷ sees 0 80 ∷ []

abbrev test_reentrancy : Script
test_reentrancy = locks 0 ∷ call 0 call_lock (outside would_block) ∷ []

-- Thread 1 panics while it has a guard. The error of `lock` holds a guard, which is dropped.
abbrev test_unlocking_after_panic : Script
test_unlocking_after_panic =
    locks 1
    ∷ sees 1 0
    ∷ assigns 1 100
    ∷ call 1 panic (outside no_call)
    ∷ call 0 call_lock (outside poisoned_lock)
    ∷ check (λ m. m.poisoned)
    ∷ call 0 clear_poison (outside no_call)
    ∷ unlocks
    ∷ locks 0
    ∷ sees 0 100
    ∷ []

suite_passes :
    Succeeds 4 test_basic_locking
    × Succeeds 0 test_reentrancy
    × Succeeds 0 test_unlocking_after_panic
unfolding finish place step step_at client contains insert remove
suite_passes = (refl, refl, refl)
