-- ===== src/RingBuffer.antt =====
-- src/utils/ring_buffer.rs: `RingBuffer`, its four operations and its `drop`, one atomic access or
-- one access of a slot at a time.
pub mod Mask
pub mod Queue
pub mod Calls
pub mod Suite
pub mod Indices
pub mod Returning
pub mod LockFree
pub mod Races
mod Tests
use Prim.Native.Nat.{bit_and}
use atomics_for_peace_and_sy.Base.{
  ℕ, zero, suc, ◌+◌, ◌-◌, ◌%◌, ◌^◌, Bool, true, false, ◌&&◌, not, Option, none, some, List, [], ◌∷◌,
  leb, ◌==◌, if◌then◌else◌, get_or, set, replicate,
}

-- `RingBuffer<T, N>`: a slot is `none` until a value is written to it. (A value that is read out
-- stays in its slot.)
pub record RingBuffer (T : Type 0) : Type 0 where
  pub buffer : List (Option T)
  pub head : ℕ  -- AtomicUsize
  pub tail : ℕ  -- AtomicUsize

-- 64-bit `usize`; `+` and `-` wrap, as in a release build
abbrev pub usize_mod : ℕ
usize_mod = 2 ^ 64

abbrev pub add_usize : ℕ → ℕ → ℕ
add_usize a b = (a + b) % usize_mod

abbrev pub sub_usize : ℕ → ℕ → ℕ
sub_usize a b = (a + usize_mod - b) % usize_mod

-- `RingBuffer::new`; `none` is the failed assertion.
abbrev pub new : {T : Type 0} → ℕ → Option (RingBuffer T)
new size =
    if size % 2 == 0
    then some (record { buffer = replicate size none; head = 0; tail = 0 })
    else none

-- What the last call returned; `undefined` is the read of a slot that was never written.
pub data Outcome (T : Type 0) : Type 0 where
  no_call : Outcome T
  pushed : Outcome T
  rejected : T → Outcome T
  popped : T → Outcome T
  nothing : Outcome T
  undefined : Outcome T

-- Where a thread stands, with its local variables. `try` tells `try_push` and `try_pop` from `push`
-- and `pop`.
pub data Pc (T : Type 0) : Type 0 where
  outside : Outcome T → Pc T
  push_tail : (try : Bool) → T → Pc T
  push_head : (try : Bool) → T → (tail : ℕ) → Pc T
  push_exchange : (try : Bool) → T → (head : ℕ) → Pc T
  push_write : T → (head : ℕ) → Pc T
  pop_tail : (try : Bool) → Pc T
  pop_head : (try : Bool) → (tail : ℕ) → Pc T
  pop_read : (try : Bool) → (tail : ℕ) → Pc T
  pop_exchange : (try : Bool) → (tail : ℕ) → T → Pc T

pub data Choice (T : Type 0) : Type 0 where
  call_push : T → Choice T
  call_pop : Choice T
  call_try_push : T → Choice T
  call_try_pop : Choice T
  proceed : Choice T
  fail_spuriously : Choice T

-- the slot that `pop` and `drop` read, and the one that the other operations use
abbrev pub masked : ℕ → ℕ → ℕ
masked size idx = bit_and idx (size - 1)

abbrev pub slot_of : ℕ → ℕ → ℕ
slot_of size idx = idx % size

module _ {T : Type 0} where
  abbrev pub weak_fails : Choice T → Bool
  weak_fails fail_spuriously = true
  weak_fails _ = false

  unfoldable pub client : Choice T → RingBuffer T → Pc T → RingBuffer T × Pc T
  client (call_push v) m p = (m, push_tail false v)
  client call_pop m p = (m, pop_tail false)
  client (call_try_push v) m p = (m, push_tail true v)
  client call_try_pop m p = (m, pop_tail true)
  client proceed m p = (m, p)
  client fail_spuriously m p = (m, p)

  module _ (size : ℕ) where
    -- after the load of `head`: whether there is room
    abbrev pub push_check : Bool → T → (tail head : ℕ) → Pc T
    push_check try v tail head =
        if leb size (sub_usize head tail) then outside (rejected v) else push_exchange try v head

    -- `assume_init_read`
    abbrev pub read_slot : Bool → (tail : ℕ) → Option T → Pc T
    read_slot try tail none = outside undefined
    read_slot try tail (some v) = pop_exchange try tail v

    unfoldable pub step : ℕ → Choice T → RingBuffer T → Pc T → RingBuffer T × Pc T
    unfolding client
    step i c m (outside last) = client c m (outside last)
    step i c m (push_tail try v) = (m, push_head try v m.tail)
    step i c m (push_head try v tail) = (m, push_check try v tail m.head)
    step i c m (push_exchange try v head) =
        if m.head == head && not (weak_fails c)
        then (record m { head = add_usize head 1 }, push_write v head)
        else (m, if try then outside (rejected v) else push_tail false v)
    step i c m (push_write v head) =
        (record m { buffer = set m.buffer (slot_of size head) (some v) }, outside pushed)
    step i c m (pop_tail try) = (m, pop_head try m.tail)
    step i c m (pop_head try tail) =
        (m, if m.head == tail then outside nothing else pop_read try tail)
    step i c m (pop_read try tail) = (
      m,
      read_slot try tail
          (get_or m.buffer (if try then slot_of size tail else masked size tail) none),
    )
    step i c m (pop_exchange try tail v) =
        if m.tail == tail && not (weak_fails c)
        then (record m { tail = add_usize tail 1 }, outside (popped v))
        else (m, if try then outside nothing else pop_head false m.tail)

    -- `Drop for RingBuffer`: what the slots `tail..head` hold, which it drops
    dropped_from : List (Option T) → (idx left : ℕ) → List (Option T)
    dropped_from buffer idx zero = []
    dropped_from buffer idx (suc left) =
        get_or buffer (masked size idx) none ∷ dropped_from buffer (idx + 1) left

    pub drop : RingBuffer T → List (Option T)
    unfolding dropped_from
    drop m = dropped_from m.buffer m.tail (m.head - m.tail)
