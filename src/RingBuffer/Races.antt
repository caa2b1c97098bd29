-- ===== src/RingBuffer/Races.antt =====
-- src/utils/ring_buffer.rs: where two calls that overlap, or a size that `new` accepts, break the
-- queue.
use atomics_for_peace_and_sy.Base.{
  ℕ, ◌+◌, ◌<◌, ◌≡◌, ◌≢◌, Bool, true, false, Option, none, some, [], ◌∷◌, arith, if◌then◌else◌,
  get_or, get_or-set_ne,
}
use atomics_for_peace_and_sy.Threads.{alone}
use atomics_for_peace_and_sy.RingBuffer.{
  RingBuffer, usize_mod, Outcome, popped, undefined, outside, push_write, call_push, call_pop,
  proceed, client, masked, slot_of, step,
}
use atomics_for_peace_and_sy.RingBuffer.Queue.{call_steps, push_call, pop_call}

-- what a pop returns that reads a slot with this content
abbrev pub read_outcome : {T : Type 0} → Option T → Outcome T
read_outcome none = undefined
read_outcome (some v) = popped v

module _ {T : Type 0} (size : ℕ) (m : RingBuffer T) (i j : ℕ) (last other : Outcome T) where
  -- On a ring with slots whose index `head` is not about to wrap: `push` and `try_push` publish the
  -- index before they write the slot. While thread `i` is between the two on an empty ring, a pop
  -- of another thread `j` does not find the ring empty: it reads what the slot held before, memory
  -- that was never written or an old value, but not the value pushed.
  pub pop_before_write :
      (put take : Bool) (v : T)
      → 0 < size
      → m.tail ≡ m.head
      → m.head + 1 < usize_mod
      → let (m1, p1) =
          alone
            (step size)
            i
            (m, outside last)
            (push_call put v ∷ proceed ∷ proceed ∷ proceed ∷ []) in
        let (m2, p2) = alone (step size) j (m1, outside other) (call_steps (pop_call take)) in
        (p1 ≡ push_write v m.head)
        × (p2
            ≡ outside (
                read_outcome (
                  get_or m.buffer (if take then slot_of size m.head else masked size m.head) none)))
  unfolding alone step client
  pop_before_write true true v pos empty room = ground arith
  pop_before_write true false v pos empty room = ground arith
  pop_before_write false true v pos empty room = ground arith
  pop_before_write false false v pos empty room = ground arith

  -- On a ring with slots whose index `head` is not about to wrap: `push` writes slot `index % N`
  -- and `pop` reads slot `index & (N - 1)`. At an index where the two differ, a pop that follows a
  -- completed push on an empty ring returns the old content of another slot.
  pub pop_wrong_slot :
      (v : T)
      → 0 < size
      → m.tail ≡ m.head
      → m.head + 1 < usize_mod
      → masked size m.head ≢ slot_of size m.head
      → let (m1, p1) = alone (step size) i (m, outside last) (call_steps (call_push v)) in
        let (m2, p2) = alone (step size) j (m1, outside other) (call_steps call_pop) in
        p2 ≡ outside (read_outcome (get_or m.buffer (masked size m.head) none))
  unfolding alone step client
  pop_wrong_slot v pos empty room differ =
      ground
        (arith, get_or-set_ne m.buffer (slot_of size m.head) (masked size m.head) (some v) none)
