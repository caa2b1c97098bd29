-- ===== src/RingBuffer/Suite.antt =====
-- src/utils/ring_buffer.rs: its unit tests, but for those in which several threads are in calls at the
-- same time and the one that only prints sizes.
use atomics_for_peace_and_sy.Base.{ℕ, refl, none, List, [], ◌∷◌, ◌++◌, ◌==◌, replicate, length, map}
use atomics_for_peace_and_sy.Threads.{alone}
use atomics_for_peace_and_sy.Suite.{Act, call, check, Passes}
use atomics_for_peace_and_sy.RingBuffer.{
  RingBuffer, Pc, Choice, no_call, pushed, rejected, popped, nothing, outside, call_push, call_pop,
  call_try_push, call_try_pop, proceed, client, step, drop, dropped_from,
}

abbrev Script : Type 0
Script = List (Act (RingBuffer ℕ) (Choice ℕ) (Pc ℕ))

-- the end of a call that nobody disturbs, in a ring of `size` slots
finish : ℕ → ℕ → RingBuffer ℕ × Pc ℕ → Choice ℕ → RingBuffer ℕ × Pc ℕ
unfolding alone
finish size i s c = alone (step size) i s (c ∷ replicate 6 proceed)

-- The test passes on a new ring.
abbrev Succeeds : ℕ → Script → Type 0
Succeeds size script =
    Passes (finish size) (λ p. p) (record { buffer = replicate size none; head = 0; tail = 0 })
      (λ i. outside no_call) script

abbrev pushes : ℕ → Act (RingBuffer ℕ) (Choice ℕ) (Pc ℕ)
pushes v = call 0 (call_push v) (outside pushed)

abbrev pops : ℕ → Act (RingBuffer ℕ) (Choice ℕ) (Pc ℕ)
pops v = call 1 call_pop (outside (popped v))

abbrev upto_eight : List ℕ
upto_eight = 0 ∷ 1 ∷ 2 ∷ 3 ∷ 4 ∷ 5 ∷ 6 ∷ 7 ∷ []

-- A producer pushes eight values and ends, then a consumer pops them.
abbrev test_mpsc_basic : Script
test_mpsc_basic = map pushes upto_eight ++ map pops upto_eight

-- The items are numbers here; `drop` says which of them the ring drops.
abbrev test_drop_safety : Script
test_drop_safety =
    pushes 0 ∷ pushes 1 ∷ pushes 2 ∷ pushes 3 ∷ check (λ m. length (drop 4 m) == 4) ∷ []

abbrev test_try_push_full : Script
test_try_push_full =
    call 0 (call_try_push 1) (outside pushed)
    ∷ call 0 (call_try_push 2) (outside pushed)
    ∷ call 0 (call_try_push 3) (outside (rejected 3))
    ∷ []

abbrev test_try_pop_empty : Script
test_try_pop_empty = call 0 call_try_pop (outside nothing) ∷ []

suite_passes :
    Succeeds 32 test_mpsc_basic
    × Succeeds 4 test_drop_safety
    × Succeeds 2 test_try_push_full
    × Succeeds 2 test_try_pop_empty
unfolding finish step client drop dropped_from
suite_passes = (refl, refl, refl, refl)
