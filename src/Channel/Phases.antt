-- ===== src/Channel/Phases.antt =====
-- src/channel.rs: a call of one thread that nothing disturbs, in phases: the ring's part of it, and
-- what comes before and after.
use atomics_for_peace_and_sy.Base.{
  ℕ, zero, suc, ◌+◌, ◌-◌, ◌%◌, ◌≤◌, ◌<◌, ◌≡◌, refl, ◌≢◌, Bool, true, false, none, some, arith, ltb,
  ◌==◌, if◌then◌else◌, get_or, set, ap,
}
use atomics_for_peace_and_sy.Futex.{AtomicWait}
use atomics_for_peace_and_sy.RingBuffer
use atomics_for_peace_and_sy.RingBuffer.{
  RingBuffer, usize_mod, nothing, popped, push_tail, pop_tail, masked, slot_of, step as ring_step,
}
use atomics_for_peace_and_sy.Channel.{
  World, u32_mod, buffer_full, TryReceiveError, buffer_empty, Popping, send_push, send_look,
  recv_pop, sent, try_send_failed, received, try_recv_failed, blocking, Pc, outside, send_sleep,
  recv_sleep, Thread, set_state, Choice, proceed, step, after_pop,
}

module _ {T : Type 0} where
  -- The call has returned, or its thread sleeps.
  abbrev pub halted : Pc T → Bool
  halted (outside last) = true
  halted (send_sleep v) = true
  halted recv_sleep = true
  halted p = false

  module _ (futex : AtomicWait) (size : ℕ) (i : ℕ) where
    -- the thread alone, until its call returns or it sleeps, for at most `fuel` steps
    unfoldable pub settle : (fuel : ℕ) → World T × Thread T → World T × Thread T
    settle zero s = s
    settle (suc fuel) (w, t) = elim (halted t.at) [
      | true ↦ (w, t)
      | false ↦ let (w', t', wake) = step futex size i proceed w t in settle fuel (w', t')
    ]

    -- a whole call; nine steps are enough
    unfoldable pub complete : Choice T → World T × Thread T → World T × Thread T
    unfolding settle
    complete call (w, t) = let (w', t', wake) = step futex size i call w t in settle 9 (w', t')

-- the channel after a push of `v`
abbrev pub pushed_ring : {T : Type 0} → ℕ → RingBuffer T → T → RingBuffer T
pushed_ring size m v = record m {
  head = m.head + 1;
  buffer = set m.buffer (slot_of size m.head) (some v);
}

-- The ring's part of a call, from its start to its result.
module _ {T : Type 0} (futex : AtomicWait) (size : ℕ) (i f : ℕ) (w : World T) (t : Thread T) where
  -- the thread at `p`
  abbrev pub at_place : Pc T → World T × Thread T
  at_place p = (w, record t { at = p })

  abbrev keep_ring : RingBuffer T → World T
  keep_ring ring = record w { channel = record w.channel { ring = ring } }

  pub push_phase :
      (try : Bool) (v : T)
      → ltb (w.channel.ring.head - w.channel.ring.tail) size ≡ true
      → w.channel.ring.tail ≤ w.channel.ring.head
      → w.channel.ring.head + 1 < usize_mod
      → settle futex size i (suc (suc (suc (suc f)))) (at_place (send_push try (push_tail try v)))
        ≡ settle futex size i f
            (keep_ring (pushed_ring size w.channel.ring v), record t { at = send_look })
  unfolding settle step ring_step
  push_phase true v lt le room = ground arith
  push_phase false v lt le room = ground arith

  pub full_phase :
      (try : Bool) (v : T)
      → ltb (w.channel.ring.head - w.channel.ring.tail) size ≡ false
      → w.channel.ring.tail ≤ w.channel.ring.head
      → w.channel.ring.head < usize_mod
      → settle futex size i (suc (suc f)) (at_place (send_push try (push_tail try v)))
        ≡ settle futex size i f
            (at_place (if try then outside (try_send_failed (buffer_full v)) else Pc.send_load v))
  unfolding settle step ring_step
  full_phase true v full le room = ground arith
  full_phase false v full le room = ground arith

  pub empty_phase :
      (popping : Popping) (try : Bool)
      → w.channel.ring.head ≡ w.channel.ring.tail
      → settle futex size i (suc (suc f)) (at_place (recv_pop popping (pop_tail try)))
        ≡ settle futex size i f (at_place (after_pop popping (RingBuffer.outside nothing)))
  unfolding settle step ring_step
  empty_phase blocking try void = ground arith
  empty_phase popping try void = ground arith

  pub pop_phase :
      (popping : Popping) (try : Bool) (x : T)
      → w.channel.ring.head ≢ w.channel.ring.tail
      → w.channel.ring.tail + 1 < usize_mod
      → masked size w.channel.ring.tail ≡ slot_of size w.channel.ring.tail
      → get_or w.channel.ring.buffer (slot_of size w.channel.ring.tail) none ≡ some x
      → settle futex size i (suc (suc (suc (suc f)))) (at_place (recv_pop popping (pop_tail try)))
        ≡ settle futex size i f (
          keep_ring (record w.channel.ring { tail = w.channel.ring.tail + 1 }),
          record t { at = after_pop popping (RingBuffer.outside (popped x)) },
        )
  unfolding settle step ring_step
  pop_phase blocking true x more room same e = ground arith
  pop_phase blocking false x more room same e = ground arith
  pop_phase popping true x more room same e = ground arith
  pop_phase popping false x more room same e = ground arith

-- A thread that has halted makes no step.
pub settle-halted :
    {T : Type 0} (futex : AtomicWait) (size i f : ℕ) (w : World T) (t : Thread T)
    → halted t.at ≡ true
    → settle futex size i f (w, t) ≡ (w, t)
unfolding settle
settle-halted futex size i zero w t h = refl
settle-halted futex size i (suc f) w t h = ground (arith, h)

-- The rest of a call, after the ring's part.
module _ {T : Type 0} (futex : AtomicWait) (size : ℕ) (i f : ℕ) (w : World T) (t : Thread T) where
  -- the world with another `receiver_state`
  abbrev pub running : World T
  running = set_state w (if w.channel.receiver_state == 2 then 1 else w.channel.receiver_state)

  pub look_phase :
      w.channel.receiver_state ≢ 0
      → settle futex size i (suc (suc (suc f))) (w, record t { at = send_look })
        ≡ (running, record t { at = outside sent })
  unfolding settle step
  look_phase alive = ground (
    arith,
    settle-halted futex size i f w (record t { at = outside sent }) refl,
    settle-halted futex size i f (set_state w 1) (record t { at = outside sent }) refl,
  )

  -- A sender that found no room goes to sleep.
  pub full_sleep :
      (v : T)
      → settle futex size i (suc (suc f)) (w, record t { at = Pc.send_load v })
        ≡ (w, record t { at = send_sleep v })
  unfolding settle step
  full_sleep v = ground (
    arith,
    futex.blocks_iff w.channel.sender_wait_num w.channel.sender_wait_num,
    settle-halted futex size i f w (record t { at = send_sleep v }) refl,
  )

  -- A receiver that found no message goes to sleep.
  pub empty_sleep :
      settle futex size i (suc (suc f)) (w, record t { at = Pc.recv_store })
      ≡ (set_state w 2, record t { at = recv_sleep })
  unfolding settle step
  empty_sleep = ground (
    arith,
    futex.blocks_iff 2 2,
    settle-halted futex size i f (set_state w 2) (record t { at = recv_sleep }) refl,
  )

  -- the world after `recv` has told the senders that a slot is free
  abbrev pub bumped : World T
  bumped = record w {
    channel = record w.channel { sender_wait_num = (w.channel.sender_wait_num + 1) % u32_mod };
  }

  pub bump_phase :
      (x : T)
      → settle futex size i (suc (suc f)) (w, record t { at = Pc.recv_bump x })
        ≡ (bumped, record t { at = outside (received x) })
  unfolding settle step
  bump_phase x = settle-halted futex size i f bumped (record t { at = outside (received x) }) refl

  pub probe_phase : settle futex size i (suc f) (w, record t { at = Pc.recv_probe }) ≡ (
    w,
    record t {
      at = outside (
          if w.channel.senders_count == 0
          then try_recv_failed TryReceiveError.disconnected
          else try_recv_failed buffer_empty);
    },
  )
  unfolding settle step
  probe_phase = ground (
    arith,
    settle-halted futex size i f w
        (record t { at = outside (try_recv_failed TryReceiveError.disconnected) }) refl,
    settle-halted futex size i f w (record t { at = outside (try_recv_failed buffer_empty) }) refl,
  )

-- The first step of a call, and one step more.
module _ {T : Type 0} (futex : AtomicWait) (size i : ℕ) (w : World T) (t : Thread T) (w' : World T)
    (t' : Thread T) where
  pub complete_to :
      (call : Choice T)
      → (step futex size i call w t).0 ≡ w'
      → (step futex size i call w t).1 ≡ t'
      → complete futex size i call (w, t) ≡ settle futex size i 9 (w', t')
  unfolding complete
  complete_to call ew et = ap (settle futex size i 9) (λ j. (ew j, et j))

  pub settle_to :
      (f : ℕ)
      → halted t.at ≡ false
      → (step futex size i proceed w t).0 ≡ w'
      → (step futex size i proceed w t).1 ≡ t'
      → settle futex size i (suc f) (w, t) ≡ settle futex size i f (w', t')
  unfolding settle
  settle_to f busy ew et = rw (busy, settle) (ap (settle futex size i f) (λ j. (ew j, et j)))
