-- ===== src/RingBuffer/Tests.antt =====
-- src/utils/ring_buffer.rs: concrete rings, and the theorems at what they reach.
use atomics_for_peace_and_sy.Base.{
  ℕ, ◌+◌, ◌*◌, ◌-◌, ◌≤◌, ◌==◌, if◌then◌else◌, ◌≡◌, refl, true, false, none, some, List, [], ◌∷◌,
  arith, replicate,
}
use atomics_for_peace_and_sy.Threads.{alone, run, System, all_along}
use atomics_for_peace_and_sy.RingBuffer.{
  RingBuffer, masked, slot_of, new, no_call, undefined, outside, push_write, push_tail, push_head,
  Pc, Choice, call_push, proceed, client, step,
}
use atomics_for_peace_and_sy.RingBuffer.Mask.{masked-eq-slot_of}
use atomics_for_peace_and_sy.RingBuffer.Queue.{Holds, call_steps, push_call, pop_call}
use atomics_for_peace_and_sy.RingBuffer.Calls.{Op, put, take, results, spec_results, results_refine}
use atomics_for_peace_and_sy.RingBuffer.Indices.{reached}
use atomics_for_peace_and_sy.RingBuffer.LockFree.{steps_of, lock_free}
use atomics_for_peace_and_sy.RingBuffer.Races.{pop_before_write}

-- a ring of four slots after three pushes and a pop
abbrev two_left : RingBuffer ℕ
two_left = record { buffer = some 1 ∷ some 2 ∷ some 3 ∷ none ∷ []; head = 3; tail = 1 }

abbrev two_values : List ℕ
two_values = 2 ∷ 3 ∷ []

two_left-Holds : Holds 4 two_left two_values
two_left-Holds = record {
  storage = refl;
  fits = omega arith;
  counted = refl;
  slots = (refl, (refl, tt));
}

abbrev calls : List (Op ℕ)
calls = put false 7 ∷ put true 8 ∷ put true 9 ∷ take true ∷ take false ∷ []

results_refine_example : results 4 two_left calls ≡ spec_results 4 two_values calls
results_refine_example = results_refine 2 calls two_left two_values two_left-Holds (ground arith)

-- two producers that have both won an index
abbrev both_won : List (ℕ × Choice ℕ)
both_won =
    (0, call_push 5)
    ∷ (0, proceed)
    ∷ (0, proceed)
    ∷ (0, proceed)
    ∷ (1, call_push 6)
    ∷ (1, proceed)
    ∷ (1, proceed)
    ∷ (1, proceed)
    ∷ []

both_won_run :
    ((reached 4 2 both_won).pc 0 ≡ push_write 5 0) × ((reached 4 2 both_won).pc 1 ≡ push_write 6 1)
unfolding run step client
both_won_run = (refl, refl)

abbrev fresh : ℕ → RingBuffer ℕ
fresh size = record { buffer = replicate size none; head = 0; tail = 0 }

pop_before_write_example :
    ((alone
        (step 4)
        0
        (fresh 4, outside no_call)
        (push_call false 5 ∷ proceed ∷ proceed ∷ proceed ∷ [])).1
      ≡ push_write 5 0)
    × ((alone
          (step 4)
          1
          (
            (alone
                (step 4)
                0
                (fresh 4, outside no_call)
                (push_call false 5 ∷ proceed ∷ proceed ∷ proceed ∷ [])).0,
            outside no_call,
          )
          (call_steps (pop_call true))).1
        ≡ outside undefined)
pop_before_write_example =
    pop_before_write 4 (fresh 4) 0 1 no_call no_call false true 5 (omega arith) refl (ground arith)

-- `new` accepts a size that is even and not a power of 2.
six_accepted : new 6 ≡ some (fresh 6)
six_accepted = refl

masked-eq-slot_of_example : masked 8 13 ≡ slot_of 8 13
masked-eq-slot_of_example = masked-eq-slot_of 3 13

-- Thread 0 has begun to push, and thread 1 wins the index that it has loaded.
abbrev overtaken : List (ℕ × Choice ℕ)
overtaken =
    (0, proceed)
    ∷ (0, proceed)
    ∷ (1, call_push 6)
    ∷ (1, proceed)
    ∷ (1, proceed)
    ∷ (1, proceed)
    ∷ (0, proceed)
    ∷ (0, proceed)
    ∷ []

abbrev begun : System (RingBuffer ℕ) (Pc ℕ)
begun = record { mem = fresh 4; pc = λ i. if i == 0 then push_tail false 5 else outside no_call }

lock_free_example :
    let s' = run (step 4) 2 begun overtaken in
    steps_of 0 overtaken
    ≤ 3 * (s'.mem.head - begun.mem.head) + 3 * (s'.mem.tail - begun.mem.tail) + 4
unfolding run all_along step client
lock_free_example =
    lock_free 4 2 0 begun overtaken (omega arith) refl (ground arith) (ground arith) refl

overtaken-run :
    let s' = run (step 4) 2 begun overtaken in
    (s'.mem.head ≡ 1) × (s'.pc 0 ≡ push_head false 5 0) × (steps_of 0 overtaken ≡ 4)
unfolding run step client
overtaken-run = (refl, refl, refl)
