-- ===== src/Semaphore/Suite.antt =====
-- src/semaphore.rs: its unit tests of one call at a time.
use atomics_for_peace_and_sy.Base.{ℕ, refl, false, List, [], ◌∷◌, ◌==◌, replicate}
use atomics_for_peace_and_sy.Futex.{alone}
use atomics_for_peace_and_sy.Futex.Scanning.{scanning}
use atomics_for_peace_and_sy.Suite.{Act, call, check, Passes}
use atomics_for_peace_and_sy.Semaphore.{
  Semaphore, new, Pc, Thread, Choice, waited, signalled, returned, outside, call_wait,
  call_try_wait, call_signal, proceed, client, step, program,
}
use atomics_for_peace_and_sy.Semaphore.Permits.{fresh_thread}

abbrev Script : Type 0
Script = List (Act Semaphore Choice Pc)

-- the end of a call that nobody disturbs
finish : ℕ → Semaphore × Thread → Choice → Semaphore × Thread
unfolding alone
finish i s c = alone (program scanning) i s (c ∷ replicate 6 proceed)

place : Thread → Pc
place t = t.at

-- The test passes on a new semaphore.
abbrev Succeeds : ℕ → Script → Type 0
Succeeds initial script = Passes finish place (new initial) (λ i. fresh_thread) script

abbrev signals : Act Semaphore Choice Pc
signals = call 0 call_signal (outside signalled)

abbrev waits : ℕ → Act Semaphore Choice Pc
waits i = call i call_wait (outside waited)

abbrev count_is : ℕ → Act Semaphore Choice Pc
count_is count = check (λ m. m.count == count)

abbrev test_basics_signal_before_wait : Script
test_basics_signal_before_wait = signals ∷ count_is 1 ∷ waits 0 ∷ count_is 0 ∷ []

abbrev test_basics_wait_before_signal : Script
test_basics_wait_before_signal = waits 0 ∷ count_is 0 ∷ signals ∷ count_is 1 ∷ []

-- Thread 1 waits and ends.
abbrev test_try_wait : Script
test_try_wait = waits 1 ∷ call 0 call_try_wait (outside (returned false)) ∷ []

suite_passes :
    Succeeds 0 test_basics_signal_before_wait
    × Succeeds 1 test_basics_wait_before_signal
    × Succeeds 1 test_try_wait
unfolding finish place step client
suite_passes = (refl, refl, refl)
