-- ===== src/RingBuffer/Calls.antt =====
-- src/utils/ring_buffer.rs: a sequence of calls, one after the other, against the bounded queue.
use atomics_for_peace_and_sy.Base.{
  ℕ, ◌+◌, ◌^◌, ◌≤◌, ◌<◌, ◌≡◌, refl, Bool, List, [], ◌∷◌, arith, length,
}
use atomics_for_peace_and_sy.Threads.{alone}
use atomics_for_peace_and_sy.RingBuffer.{
  RingBuffer, usize_mod, Outcome, no_call, Pc, outside, Choice, step,
}
use atomics_for_peace_and_sy.RingBuffer.Queue.{
  enqueue, dequeue, Holds, call_steps, push_call, pop_call, push_refines, pop_refines, head-push,
  head-pop,
}

-- `push` or `try_push` of a value, `pop` or `try_pop`
pub data Op (T : Type 0) : Type 0 where
  put : (try : Bool) → T → Op T
  take : (try : Bool) → Op T

module _ {T : Type 0} where
  abbrev pub op_call : Op T → Choice T
  op_call (put try v) = push_call try v
  op_call (take try) = pop_call try

  -- what the queue does
  abbrev pub op_spec : ℕ → List T → Op T → List T × Outcome T
  op_spec size q (put try v) = enqueue size q v
  op_spec size q (take try) = dequeue q

  unfoldable pub spec_results : ℕ → List T → List (Op T) → List (Pc T)
  spec_results size q [] = []
  spec_results size q (op ∷ ops) =
      let (q', o) = op_spec size q op in outside o ∷ spec_results size q' ops

  -- what the ring's calls return, each made by a thread that nothing disturbs
  unfoldable pub results : ℕ → RingBuffer T → List (Op T) → List (Pc T)
  results size m [] = []
  results size m (op ∷ ops) =
      let (m', p) = alone (step size) 0 (m, outside no_call) (call_steps (op_call op)) in
      p ∷ results size m' ops

  module _ (k : ℕ) where
    op_refines :
        (m : RingBuffer T) (q : List T) (op : Op T)
        → Holds (2 ^ k) m q
        → m.head + 1 < usize_mod
        → let (m', p) = alone (step (2 ^ k)) 0 (m, outside no_call) (call_steps (op_call op)) in
          (p ≡ outside (op_spec (2 ^ k) q op).1)
          × Holds (2 ^ k) m' (op_spec (2 ^ k) q op).0
          × (m'.head ≤ m.head + 1)
    op_refines m q (put try v) h room =
        let (r, h') = push_refines k m q 0 no_call try v h room in
        (r, h', head-push k m q 0 no_call try v h room)
    op_refines m q (take try) h room =
        let (r, h') = pop_refines k m q 0 no_call try h (omega arith) in
        (r, h', head-pop k m q 0 no_call try h (omega arith))

    -- No sequence of calls, made one after the other, tells a ring of 2 ^ k slots that holds `q`
    -- from the bounded queue `q`, as long as the index `head` does not wrap.
    pub results_refine :
        (ops : List (Op T)) (m : RingBuffer T) (q : List T)
        → Holds (2 ^ k) m q
        → m.head + length ops < usize_mod
        → results (2 ^ k) m ops ≡ spec_results (2 ^ k) q ops
    unfolding results spec_results
    results_refine [] m q h room = refl
    results_refine (op ∷ ops) m q h room =
        let (r, h', le) = op_refines m q op h (omega arith) in
        rw (r, results_refine ops _ _ h' (omega arith))
