-- ===== src/Channel/Transfers.antt =====
-- src/channel.rs: one call of `send`, `try_send`, `recv` or `try_recv` that nothing disturbs, with the
-- ring's own push or pop inside.
use atomics_for_peace_and_sy.Base.{
  ℕ, suc, ◌+◌, ◌^◌, ◌<◌, ◌≡◌, refl, ◌≢◌, ◌∙◌, Bool, true, false, List, [], ◌∷◌, arith, ◌==◌,
  if◌then◌else◌, length, Bool-cases, inl, inr,
}
use atomics_for_peace_and_sy.Futex.{AtomicWait}
use atomics_for_peace_and_sy.RingBuffer
use atomics_for_peace_and_sy.RingBuffer.{RingBuffer, usize_mod, push_tail, pop_tail, popped}
use atomics_for_peace_and_sy.RingBuffer.Queue.{Holds}
use atomics_for_peace_and_sy.RingBuffer.Mask.{masked-eq-slot_of}
use atomics_for_peace_and_sy.Channel.{
  World, buffer_full, ReceiveError, TryReceiveError, buffer_empty, Outcome, sent, try_send_failed,
  received, recv_failed, try_recv_failed, Popping, draining, blocking, trying, Pc, outside,
  send_load, send_sleep, recv_pop, recv_sleep, Thread, call_recv, call_try_recv, after_pop,
  set_state,
}
use atomics_for_peace_and_sy.Channel.Phases.{
  complete, settle, settle-halted, push_phase, full_phase, empty_phase, pop_phase, look_phase,
  full_sleep, empty_sleep, bump_phase, probe_phase, pushed_ring, running, bumped,
}
use atomics_for_peace_and_sy.Channel.Calls.{send_call, send_start, recv_start, try_recv_start}

module _ {T : Type 0} (futex : AtomicWait) (k i : ℕ) (w : World T) (t : Thread T) (last : Outcome T)
    (at : t.at ≡ outside last) where
  abbrev with_ring_of : RingBuffer T → World T
  with_ring_of ring = record w { channel = record w.channel { ring = ring } }

  abbrev popped_ring : RingBuffer T
  popped_ring = record w.channel.ring { tail = w.channel.ring.tail + 1 }

  abbrev to : Pc T → Thread T
  to p = record t { at = p }

  module _ (q : List T) (h : Holds (2 ^ k) w.channel.ring q)
      (room : w.channel.ring.head + 1 < usize_mod) where
    -- the world after a send
    abbrev pub after_send : T → World T
    after_send v =
        running futex (2 ^ k) i 1 (with_ring_of (pushed_ring (2 ^ k) w.channel.ring v))
          (to (outside sent))

    pub send_room :
        (try : Bool) (v : T)
        → 0 < t.senders
        → w.channel.receiver_state ≢ 0
        → length q < 2 ^ k
        → complete futex (2 ^ k) i (send_call try v) (w, t) ≡ (after_send v, to (outside sent))
    send_room try v has alive lt =
        send_start futex (2 ^ k) i w t last at try v has alive
        ∙ push_phase futex (2 ^ k) i 4 w t try v (ground (arith, h)) (omega (arith, h.counted)) room
        ∙ look_phase futex (2 ^ k) i 1 (with_ring_of (pushed_ring (2 ^ k) w.channel.ring v)) t alive

    pub send_full :
        (try : Bool) (v : T)
        → 0 < t.senders
        → w.channel.receiver_state ≢ 0
        → length q ≡ 2 ^ k
        → complete futex (2 ^ k) i (send_call try v) (w, t)
          ≡ (w, to (if try then outside (try_send_failed (buffer_full v)) else send_sleep v))
    send_full try v has alive full =
        send_start futex (2 ^ k) i w t last at try v has alive
        ∙ full_phase futex (2 ^ k) i 6 w t try v (ground (arith, h)) (omega (arith, h.counted))
            (omega arith)
        ∙ rest try
      where
        rest :
            (try : Bool)
            → settle futex
                (2 ^ k)
                i
                6
                (w, to (if try then outside (try_send_failed (buffer_full v)) else send_load v))
              ≡ (w, to (if try then outside (try_send_failed (buffer_full v)) else send_sleep v))
        rest true =
            settle-halted futex (2 ^ k) i 6 w (to (outside (try_send_failed (buffer_full v)))) refl
        rest false = full_sleep futex (2 ^ k) i 4 w t v

  module _ (room : w.channel.ring.head < usize_mod) where
    -- what the receiver has done to the channel when it returns `x`
    abbrev pub after_recv : World T
    after_recv =
        if w.channel.senders_count == 0
        then with_ring_of popped_ring
        else bumped futex (2 ^ k) i 2 (with_ring_of popped_ring) t

    pub recv_first :
        (x : T) (q : List T)
        → Holds (2 ^ k) w.channel.ring (x ∷ q)
        → 0 < t.receivers
        → complete futex (2 ^ k) i call_recv (w, t) ≡ (after_recv, to (outside (received x)))
    recv_first x q h has =
        recv_start futex (2 ^ k) i w t last at has
        ∙ elim (Bool-cases (w.channel.senders_count == 0)) [
          | inl gone ↦ rw gone (
              popped_by draining true 4
              ∙ settle-halted futex (2 ^ k) i 4 (with_ring_of popped_ring)
                  (to (outside (received x))) refl)
          | inr some_left ↦ rw some_left (
              popped_by blocking false 4
              ∙ bump_phase futex (2 ^ k) i 2 (with_ring_of popped_ring) t x)
        ]
      where
        popped_by :
            (popping : Popping) (try : Bool) (f : ℕ)
            → settle futex
                (2 ^ k)
                i
                (suc (suc (suc (suc f))))
                (w, to (recv_pop popping (pop_tail try)))
              ≡ settle futex
                  (2 ^ k)
                  i
                  f
                  (with_ring_of popped_ring, to (after_pop popping (RingBuffer.outside (popped x))))
        popped_by popping try f =
            pop_phase futex (2 ^ k) i f w t popping try x (omega (arith, h.counted))
              (omega (arith, h.counted)) (masked-eq-slot_of k w.channel.ring.tail) h.slots.0

    pub try_recv_first :
        (x : T) (q : List T)
        → Holds (2 ^ k) w.channel.ring (x ∷ q)
        → 0 < t.receivers
        → complete futex (2 ^ k) i call_try_recv (w, t)
          ≡ (with_ring_of popped_ring, to (outside (received x)))
    try_recv_first x q h has =
        try_recv_start futex (2 ^ k) i w t last at has
        ∙ pop_phase futex (2 ^ k) i 5 w t trying true x (omega (arith, h.counted))
            (omega (arith, h.counted)) (masked-eq-slot_of k w.channel.ring.tail) h.slots.0
        ∙ settle-halted futex (2 ^ k) i 5 (with_ring_of popped_ring) (to (outside (received x)))
            refl

    -- the world when `recv` finds no message, and what it returns
    abbrev pub after_none : World T
    after_none = if w.channel.senders_count == 0 then w else set_state w 2

    pub recv_empty :
        Holds (2 ^ k) w.channel.ring []
        → 0 < t.receivers
        → complete futex (2 ^ k) i call_recv (w, t) ≡ (
          after_none,
          to (
              if w.channel.senders_count == 0
              then outside (recv_failed ReceiveError.disconnected)
              else recv_sleep),
        )
    recv_empty h has =
        recv_start futex (2 ^ k) i w t last at has
        ∙ elim (Bool-cases (w.channel.senders_count == 0)) [
          | inl gone ↦ rw gone (
              empty_phase futex (2 ^ k) i 6 w t draining true (omega (arith, h.counted))
              ∙ settle-halted futex (2 ^ k) i 6 w
                  (to (outside (recv_failed ReceiveError.disconnected))) refl)
          | inr some_left ↦ rw some_left (
              empty_phase futex (2 ^ k) i 6 w t blocking false (omega (arith, h.counted))
              ∙ empty_sleep futex (2 ^ k) i 4 w t)
        ]

    pub try_recv_empty :
        Holds (2 ^ k) w.channel.ring []
        → 0 < t.receivers
        → complete futex (2 ^ k) i call_try_recv (w, t) ≡ (
          w,
          to (
              outside (
                if w.channel.senders_count == 0
                then try_recv_failed TryReceiveError.disconnected
                else try_recv_failed buffer_empty)),
        )
    try_recv_empty h has =
        try_recv_start futex (2 ^ k) i w t last at has
        ∙ empty_phase futex (2 ^ k) i 7 w t trying true (omega (arith, h.counted))
        ∙ probe_phase futex (2 ^ k) i 6 w t

-- The calls that change only the handles.
