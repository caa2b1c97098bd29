-- ===== src/Channel/Missed.antt =====
-- src/channel.rs: calls that overlap and miss each other, and calls that give up too early.
use atomics_for_peace_and_sy.Base.{
  ℕ, ◌+◌, ◌^◌, ◌<◌, ◌≡◌, refl, ◌≢◌, Bool, false, List, [], ◌∷◌, ◌++◌, arith, ◌==◌, if◌then◌else◌,
  length,
}
use atomics_for_peace_and_sy.Futex.{AtomicWait, alone}
use atomics_for_peace_and_sy.RingBuffer.{usize_mod, step as ring_step}
use atomics_for_peace_and_sy.RingBuffer.Queue.{Holds, push_room-Holds}
use atomics_for_peace_and_sy.Channel.{
  World, ReceiveError, buffer_full, TryReceiveError, buffer_empty, Outcome, sent, try_send_failed,
  received, recv_failed, try_recv_failed, outside, send_load, send_sleep, recv_store, recv_sleep,
  Thread, Choice, call_recv, call_try_send, call_try_recv, proceed, fail_spuriously, client, step,
  program,
}
use atomics_for_peace_and_sy.Channel.Phases.{complete, settle, full_sleep, empty_sleep}
use atomics_for_peace_and_sy.Channel.Calls.{send_call}
use atomics_for_peace_and_sy.Channel.Transfers.{send_room, recv_first, after_send, after_recv}

module _ {T : Type 0} (futex : AtomicWait) (k i j : ℕ) (w : World T) (t : Thread T)
    (last : Outcome T) (at : t.at ≡ outside last) (room : w.channel.ring.head + 1 < usize_mod) where
  popped_Holds :
      (x : T) (q : List T)
      → Holds (2 ^ k) w.channel.ring (x ∷ q)
      → (w.channel.senders_count == 0) ≡ false
      → Holds (2 ^ k) (after_recv futex k i w t last at (omega arith)).channel.ring q
  popped_Holds x q h left = rw left (record {
    storage = h.storage;
    fits = omega (arith, h.fits);
    counted = omega (arith, h.counted);
    slots = h.slots.1;
  })

  -- `recv` marks itself as waiting only after it has found the ring empty, and does not look at the
  -- ring again. If a `send` or `try_send` of another thread comes in between, it finds the mark of
  -- a running receiver, returns Ok and wakes nobody; the receiver then marks itself and sleeps
  -- beside the message.
  pub message_missed :
      (q : List T) (r : Thread T) (try : Bool) (v : T)
      → Holds (2 ^ k) w.channel.ring q
      → length q < 2 ^ k
      → w.channel.receiver_state ≡ 1
      → 0 < t.senders
      → let (w1, t1) = complete futex (2 ^ k) i (send_call try v) (w, t) in
        let (w2, r2) = settle futex (2 ^ k) j 2 (w1, record r { at = recv_store }) in
        (t1.at ≡ outside sent)
        × (r2.at ≡ recv_sleep)
        × (w2.channel.receiver_state ≡ 2)
        × Holds (2 ^ k) w2.channel.ring (q ++ (v ∷ []))
  message_missed q r try v h lt alive has =
      rw
        (
          send_room futex k i w t last at q h room try v has (ground arith) lt,
          empty_sleep futex (2 ^ k) j 0 (after_send futex k i w t last at q h room v) r,
        )
        (refl, refl, refl, push_room-Holds k w.channel.ring q v h lt)

  -- `send` looks at the number that it waits on only after it has found the ring full. If the
  -- receiver takes a message and wakes the senders in between, the sender finds the new number and
  -- sleeps beside a free slot.
  pub room_missed :
      (x : T) (q : List T) (s : Thread T) (v : T)
      → Holds (2 ^ k) w.channel.ring (x ∷ q)
      → w.channel.senders_count ≢ 0
      → 0 < t.receivers
      → let (w1, t1) = complete futex (2 ^ k) i call_recv (w, t) in
        let (w2, s2) = settle futex (2 ^ k) j 2 (w1, record s { at = send_load v }) in
        (t1.at ≡ outside (received x))
        × (s2.at ≡ send_sleep v)
        × Holds (2 ^ k) w2.channel.ring q
        × (length q < 2 ^ k)
  room_missed x q s v h some_left has =
      rw
        (
          recv_first futex k i w t last at (omega arith) x q h has,
          full_sleep futex (2 ^ k) j 0 (after_recv futex k i w t last at (omega arith)) s v,
        )
        (refl, refl, popped_Holds x q h (ground arith), omega (arith, h.fits))

-- the steps of a `recv`, `try_recv` or `try_send` whose weak exchange fails without a reason
abbrev pub failing_recv : {T : Type 0} → List (Choice T)
failing_recv = call_recv ∷ proceed ∷ proceed ∷ proceed ∷ proceed ∷ fail_spuriously ∷ []

abbrev pub failing_try_recv : {T : Type 0} → List (Choice T)
failing_try_recv = call_try_recv ∷ proceed ∷ proceed ∷ proceed ∷ fail_spuriously ∷ proceed ∷ []

abbrev pub failing_try_send : {T : Type 0} → T → List (Choice T)
failing_try_send v = call_try_send v ∷ proceed ∷ proceed ∷ proceed ∷ fail_spuriously ∷ []

module _ {T : Type 0} (futex : AtomicWait) (k i : ℕ) (w : World T) (t : Thread T)
    (room : w.channel.ring.head + 1 < usize_mod) where
  abbrev start : Outcome T → Thread T
  start o = record t { at = outside o }

  failing_recv_run :
      (last : Outcome T) (x : T) (q : List T)
      → Holds (2 ^ k) w.channel.ring (x ∷ q)
      → 0 < t.receivers
      → w.channel.senders_count ≡ 0
      → alone (program futex (2 ^ k)) i (w, start last) failing_recv
        ≡ (w, start (recv_failed ReceiveError.disconnected))
  unfolding alone step client ring_step
  failing_recv_run last x q h has gone = ground (arith, h)

  failing_try_recv_run :
      (last : Outcome T) (x : T) (q : List T)
      → Holds (2 ^ k) w.channel.ring (x ∷ q)
      → 0 < t.receivers
      → alone (program futex (2 ^ k)) i (w, start last) failing_try_recv ≡ (
        w,
        start (
            if w.channel.senders_count == 0
            then try_recv_failed TryReceiveError.disconnected
            else try_recv_failed buffer_empty),
      )
  unfolding alone step client ring_step
  failing_try_recv_run last x q h has = ground (arith, h)

  -- `try_send` returns `BufferFull`, with the message, though there is room, if its weak exchange
  -- fails without a reason.
  failing_try_send_run :
      (last : Outcome T) (q : List T) (v : T)
      → Holds (2 ^ k) w.channel.ring q
      → length q < 2 ^ k
      → 0 < t.senders
      → w.channel.receiver_state ≢ 0
      → alone (program futex (2 ^ k)) i (w, start last) (failing_try_send v)
        ≡ (w, start (try_send_failed (buffer_full v)))
  unfolding alone step client ring_step
  failing_try_send_run last q v h lt has alive = ground (arith, h)

  -- A weak exchange that fails without a reason ends a call: when all Senders are gone, `recv` and
  -- `try_recv` return `Disconnected` though the channel holds a message, and it stays there.
  pub drain_gives_up :
      (last : Outcome T) (x : T) (q : List T)
      → Holds (2 ^ k) w.channel.ring (x ∷ q)
      → 0 < t.receivers
      → w.channel.senders_count ≡ 0
      → (alone (program futex (2 ^ k)) i (w, start last) failing_recv
          ≡ (w, start (recv_failed ReceiveError.disconnected)))
        × (alone (program futex (2 ^ k)) i (w, start last) failing_try_recv
            ≡ (w, start (try_recv_failed TryReceiveError.disconnected)))
  drain_gives_up last x q h has gone =
      (failing_recv_run last x q h has gone, ground (arith, failing_try_recv_run last x q h has))
