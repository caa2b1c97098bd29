-- ===== src/MutexV1/Suite.antt =====
-- src/mutex_v1.rs: its unit tests of one call at a time. The guards that a test still has at its end
-- are not dropped here.
use atomics_for_peace_and_sy.Base.{ℕ, ◌+◌, refl, List, [], ◌∷◌, replicate}
use atomics_for_peace_and_sy.Threads.{alone}
use atomics_for_peace_and_sy.Suite.{Act, call, Passes}
use atomics_for_peace_and_sy.MutexV1.{
  Mutex, new, Pc, Thread, Choice, no_call, acquired, would_block, outside, viewed, call_lock,
  call_try_lock, read, write, unlock, proceed, client, step, step_at,
}
use atomics_for_peace_and_sy.MutexV1.Exclusion.{fresh_thread}

abbrev Script : Type 0
Script = List (Act (Mutex ℕ) (Choice ℕ) (Pc ℕ))

-- the end of a call that nobody disturbs; thread `i` has the identifier `i + 1`
finish : ℕ → Mutex ℕ × Thread ℕ → Choice ℕ → Mutex ℕ × Thread ℕ
unfolding alone
finish i s c = alone (step (λ i. i + 1)) i s (c ∷ replicate 8 proceed)

place : Thread ℕ → Pc ℕ
place t = t.at

-- The test passes on a new mutex of `d`.
abbrev Succeeds : ℕ → Script → Type 0
Succeeds d script = Passes finish place (new d) (λ i. fresh_thread) script

abbrev locks : Act (Mutex ℕ) (Choice ℕ) (Pc ℕ)
locks = call 0 call_lock (outside acquired)

abbrev sees : ℕ → Act (Mutex ℕ) (Choice ℕ) (Pc ℕ)
sees v = call 0 read (viewed v)

abbrev assigns : ℕ → Act (Mutex ℕ) (Choice ℕ) (Pc ℕ)
assigns v = call 0 (write v) (outside no_call)

abbrev test_basic_locking : Script
test_basic_locking =
    locks ∷ sees 4 ∷ call 0 unlock (outside no_call) ∷ locks ∷ sees 4 ∷ assigns 80 ∷ sees 80 ∷ []

abbrev test_try_lock : Script
test_try_lock = locks ∷ call 0 call_try_lock (outside would_block) ∷ []

abbrev test_reentrancy : Script
test_reentrancy = locks ∷ call 0 call_lock (outside would_block) ∷ []

suite_passes : Succeeds 4 test_basic_locking × Succeeds 4 test_try_lock × Succeeds 0 test_reentrancy
unfolding finish place step step_at client
suite_passes = (refl, refl, refl)
