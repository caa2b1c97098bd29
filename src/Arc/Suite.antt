-- ===== src/Arc/Suite.antt =====
-- src/arc.rs: its unit tests, but for the one in which ten threads run at the same time. The handles
-- that a test still has at its end are not dropped here.
use atomics_for_peace_and_sy.Base.{ℕ, refl, List, [], ◌∷◌, ◌++◌, ◌==◌, replicate}
use atomics_for_peace_and_sy.Threads.{alone}
use atomics_for_peace_and_sy.Suite.{Act, call, check, Passes}
use atomics_for_peace_and_sy.Arc.{
  World, Pc, Thread, Choice, no_call, cloned, downgraded, upgraded, returned_none, unwrapped,
  dropped_handle, outside, viewed, borrowed, call_clone, call_downgrade, call_upgrade, call_get_mut,
  call_into_inner, call_drop_arc, read, write, end_borrow, send_arc, receive_arc, proceed, client,
  step, step_at,
}
use atomics_for_peace_and_sy.Arc.Fresh.{fresh_world, fresh_thread}

-- the end of a call that nobody disturbs: no call takes more than eight steps
finish : ℕ → World ℕ × Thread ℕ → Choice ℕ → World ℕ × Thread ℕ
unfolding alone
finish i s c = alone step i s (c ∷ replicate 8 proceed)

place : Thread ℕ → Pc ℕ
place t = t.at

abbrev Script : Type 0
Script = List (Act (World ℕ) (Choice ℕ) (Pc ℕ))

-- The test passes on an Arc of `d`, which thread 0 has.
abbrev Succeeds : ℕ → Script → Type 0
Succeeds d script = Passes finish place (fresh_world d) fresh_thread script

-- `*value` read through a handle of the thread
abbrev sees : ℕ → ℕ → Act (World ℕ) (Choice ℕ) (Pc ℕ)
sees i v = call i read (viewed v)

abbrev clones : Act (World ℕ) (Choice ℕ) (Pc ℕ)
clones = call 0 call_clone (outside cloned)

abbrev drops : ℕ → Act (World ℕ) (Choice ℕ) (Pc ℕ)
drops i = call i call_drop_arc (outside dropped_handle)

-- Thread 0 moves a handle into a new thread 1.
abbrev moves : Script
moves = call 0 send_arc (outside no_call) ∷ call 1 receive_arc (outside no_call) ∷ []

abbrev test_arc_basic_functionality : Script
test_arc_basic_functionality = clones ∷ (moves ++ (sees 1 1 ∷ drops 1 ∷ sees 0 1 ∷ []))

abbrev test_clone : Script
test_clone = clones ∷ sees 0 10 ∷ sees 0 10 ∷ []

abbrev test_weak_upgrade : Script
test_weak_upgrade =
    call 0 call_downgrade (outside downgraded)
    ∷ call 0 call_upgrade (outside upgraded)
    ∷ sees 0 10
    ∷ drops 0
    ∷ drops 0
    ∷ call 0 call_upgrade (outside returned_none)
    ∷ []

abbrev test_get_mut : Script
test_get_mut =
    call 0 call_get_mut borrowed
    ∷ call 0 (write 20) borrowed
    ∷ call 0 end_borrow (outside no_call)
    ∷ sees 0 20
    ∷ clones
    ∷ call 0 call_get_mut (outside returned_none)
    ∷ []

-- `test_into_inner`, its first Arc and its second
abbrev test_into_inner : Script
test_into_inner = clones ∷ call 0 call_into_inner (outside returned_none) ∷ drops 0 ∷ []

abbrev test_into_inner_another : Script
test_into_inner_another = call 0 call_into_inner (outside (unwrapped 20)) ∷ []

-- `counter.load`, where the data is a `DropCounter`
abbrev counter_is : ℕ → Act (World ℕ) (Choice ℕ) (Pc ℕ)
counter_is count = check (λ m. m.dropped == count)

abbrev test_drop_behavior : Script
test_drop_behavior = clones ∷ drops 0 ∷ counter_is 0 ∷ drops 0 ∷ counter_is 1 ∷ []

abbrev test_drop_behavior_into_inner : Script
test_drop_behavior_into_inner =
    clones
    ∷ (moves
        ++ (call 1 call_into_inner (outside returned_none)
            ∷ counter_is 0
            ∷ call 0 call_into_inner (outside (unwrapped 10))
            ∷ counter_is 1
            ∷ []))

abbrev test_weak_count : Script
test_weak_count =
    call 0 call_downgrade (outside downgraded)
    ∷ call 0 call_downgrade (outside downgraded)
    ∷ call 0 call_upgrade (outside upgraded)
    ∷ sees 0 10
    ∷ drops 0
    ∷ call 0 call_upgrade (outside upgraded)
    ∷ sees 0 10
    ∷ drops 0
    ∷ drops 0
    ∷ call 0 call_upgrade (outside returned_none)
    ∷ call 0 call_upgrade (outside returned_none)
    ∷ []

suite_passes :
    Succeeds 1 test_arc_basic_functionality
    × Succeeds 10 test_clone
    × Succeeds 10 test_weak_upgrade
    × Succeeds 10 test_get_mut
    × Succeeds 10 test_into_inner
    × Succeeds 20 test_into_inner_another
    × Succeeds 10 test_drop_behavior
    × Succeeds 10 test_drop_behavior_into_inner
    × Succeeds 10 test_weak_count
unfolding finish place step step_at client
suite_passes = (refl, refl, refl, refl, refl, refl, refl, refl, refl)
