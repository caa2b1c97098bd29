-- ===== src/Channel/Inv.antt =====
-- src/channel.rs: the counts of handles, and what each place in a call tells of them; kept by every
-- step of every thread.
use atomics_for_peace_and_sy.Base.{
  Bool-cases, ℕ, ◌+◌, ◌^◌, ◌≤◌, ◌<◌, ◌≡◌, refl, ◌≢◌, inl, inr, Bool, true, false, arith, ◌==◌,
  if◌then◌else◌,
}
use atomics_for_peace_and_sy.Threads.{update, sum_over, sum_over-update}
use atomics_for_peace_and_sy.Futex.{AtomicWait, silent, all}
use atomics_for_peace_and_sy.RingBuffer.{usize_mod, Pc as RingPc, step as ring_step}
use atomics_for_peace_and_sy.RingBuffer
use atomics_for_peace_and_sy.Channel.{
  Channel, World, max_sender_count, SendError, TrySendError, ReceiveError, TryReceiveError, Outcome,
  send_failed, try_send_failed, recv_failed, try_recv_failed, Popping, draining, Pc, outside,
  send_check, send_push, send_look, send_exchange, send_wake, send_load, send_wait, send_sleep,
  clone_add, clone_check, drop_sender, recv_pop, Thread, Choice, client, step_at, after_push,
  after_pop, asleep, woken,
}

module _ {T : Type 0} where
  -- what the thread has a share of `senders_count` for
  abbrev pub sender_handles : Thread T → ℕ
  sender_handles t = t.senders + elim t.at [ clone_check old ↦ 1 | _ ↦ 0 ]

  abbrev pub receiver_handles : Thread T → ℕ
  receiver_handles t = t.receivers

  -- An error that says that the other side is gone is returned only when it is.
  abbrev pub Told : Channel T → Outcome T → Type 0
  Told m (send_failed (SendError.disconnected v)) = m.receiver_state ≡ 0
  Told m (try_send_failed (TrySendError.disconnected v)) = m.receiver_state ≡ 0
  Told m (recv_failed ReceiveError.disconnected) = m.senders_count ≡ 0
  Told m (try_recv_failed TryReceiveError.disconnected) = m.senders_count ≡ 0
  Told m o = Unit

  abbrev pub Popped : Channel T → Popping → Type 0
  Popped m draining = m.senders_count ≡ 0
  Popped m popping = Unit

  -- A call of a `Sender` or of the `Receiver` borrows it.
  abbrev pub Place : Channel T → Thread T → Pc T → Type 0
  Place m t (outside o) = Told m o
  Place m t (send_check try v) = 0 < t.senders
  Place m t (send_push try p) = 0 < t.senders
  Place m t send_look = 0 < t.senders
  Place m t send_exchange = 0 < t.senders
  Place m t send_wake = 0 < t.senders
  Place m t (send_load v) = 0 < t.senders
  Place m t (send_wait v num) = 0 < t.senders
  Place m t (send_sleep v) = 0 < t.senders
  Place m t clone_add = 0 < t.senders
  Place m t (clone_check old) = (0 < t.senders) × (old ≤ max_sender_count)
  Place m t drop_sender = 0 < t.senders
  Place m t (recv_pop popping p) = (0 < t.receivers) × Popped m popping
  Place m t p = 0 < t.receivers

  pub record Inv (n left : ℕ) (w : World T) (pc : ℕ → Thread T) : Type 0 where
    pub counted : w.channel.senders_count ≡ sum_over sender_handles n pc + w.posted_senders
    pub fits : w.channel.senders_count + left ≤ 2 ^ 63
    pub alive :
        sum_over receiver_handles n pc + w.posted_receivers
        ≡ (if w.channel.receiver_state == 0 then 0 else 1)
    pub each : (i : ℕ) → i < n → Place w.channel (pc i) (pc i).at

-- A thread that is woken keeps its handles.
module _ {T : Type 0} (n left : ℕ) (w : World T) (pc : ℕ → Thread T) (a j : ℕ) (lt : j < n)
    (slept : asleep a (pc j) ≡ true) where
  woken_self :
      (p : Pc T)
      → (pc j).at ≡ p
      → Place w.channel (pc j) p
      → (sender_handles (woken (pc j)) ≡ sender_handles (pc j))
        × Place w.channel (woken (pc j)) (woken (pc j)).at
  woken_self (outside o) e h = ground arith
  woken_self p e h = ground arith

  pub wake-Inv : Inv n left w pc → Inv n left w (update pc j (woken (pc j)))
  wake-Inv inv =
      let (same, place) = woken_self (pc j).at refl (inv.each j lt) in
      record {
        counted = omega (arith, inv.counted, sum_over-update sender_handles n pc j (woken (pc j)));
        fits = inv.fits;
        alive = omega (arith, inv.alive, sum_over-update receiver_handles n pc j (woken (pc j)));
        each = λ i li. elim (Bool-cases (j == i)) [
          | inl here ↦ rw here place
          | inr other ↦ rw other (inv.each i li)
        ];
      }

-- Where the ring's result leads, whatever it is.
module _ {T : Type 0} (m : Channel T) (t : Thread T) where
  pub after_push-Place : (try : Bool) (p : RingPc T) → 0 < t.senders → Place m t (after_push try p)
  after_push-Place true (RingBuffer.outside o) h = ground arith
  after_push-Place false (RingBuffer.outside o) h = ground arith
  after_push-Place try p h = ground arith

  pub after_pop-Place :
      (popping : Popping) (p : RingPc T)
      → 0 < t.receivers
      → Popped m popping
      → Place m t (after_pop popping p)
  after_pop-Place draining (RingBuffer.outside o) h e = ground arith
  after_pop-Place popping (RingBuffer.outside o) h e = ground arith
  after_pop-Place popping p h e = ground arith

-- Nobody is woken but by `wake_one`.
module _ {T : Type 0} (futex : AtomicWait) (size : ℕ) where
  pub client-silent : (c : Choice T) (w : World T) (t : Thread T) → (client c w t).2 ≡ silent
  unfolding client
  client-silent c w t = ground arith

  pub wake-ne_all :
      (i : ℕ) (c : Choice T) (w : World T) (t : Thread T) (p : Pc T) (a : ℕ)
      → (step_at futex size i c w t p).2 ≢ all a
  unfolding step_at
  wake-ne_all i c w t (outside last) a = ground (arith, client-silent c w t)
  wake-ne_all i c w t p a = ground arith
