-- ===== src/Channel/Moves.antt =====
-- src/channel.rs: every step of every thread keeps the counts of handles.
use atomics_for_peace_and_sy.Base.{
  Bool-cases, ℕ, suc, ◌+◌, ◌^◌, ◌≤◌, ◌<◌, ◌≡◌, refl, inl, inr, Bool, true, false, arith, ◌==◌,
  if◌then◌else◌,
}
use atomics_for_peace_and_sy.Threads.{System, update, sum_over, sum_over-update, le-sum_over}
use atomics_for_peace_and_sy.Futex.{AtomicWait, exec, deliver-keeps, all}
use atomics_for_peace_and_sy.RingBuffer.{usize_mod, Pc as RingPc, step as ring_step}
use atomics_for_peace_and_sy.RingBuffer
use atomics_for_peace_and_sy.Channel.{
  Channel, World, max_sender_count, SendError, TrySendError, ReceiveError, TryReceiveError, Outcome,
  send_failed, try_send_failed, recv_failed, try_recv_failed, Popping, draining, blocking, trying,
  Pc, outside, send_check, send_push, send_look, send_exchange, send_wake, send_load, send_wait,
  send_sleep, clone_add, clone_check, drop_sender, recv_check, recv_pop, recv_bump, recv_wake,
  recv_store, recv_wait, recv_sleep, recv_probe, drop_receiver, Thread, Choice, Next, client, step,
  step_at, after_push, after_pop, asleep, after_wait, woken, program,
}
use atomics_for_peace_and_sy.Channel
use atomics_for_peace_and_sy.Channel.Inv.{
  sender_handles, receiver_handles, Place, Inv, wake-Inv, after_push-Place, after_pop-Place,
  wake-ne_all,
}

module _ {T : Type 0} (futex : AtomicWait) (size : ℕ) {n left : ℕ} where
  module _ {w : World T} {pc : ℕ → Thread T} (inv : Inv n (suc left) w pc) (i : ℕ) (lt : i < n)
      (c : Choice T) where
    open inv use {counted, fits, alive, each}

    -- the step of thread `i` from place `p`
    abbrev pub after : Pc T → Next T
    after p = step_at futex size i c w (pc i) p

    -- the threads after it
    abbrev pub moved : Pc T → ℕ → Thread T
    moved p = update pc i (after p).1

    pushed_handles :
        (try : Bool) (p : RingPc T) (t : Thread T)
        → sender_handles (record t { at = after_push try p }) ≡ t.senders
    pushed_handles true (RingBuffer.outside o) t = ground arith
    pushed_handles false (RingBuffer.outside o) t = ground arith
    pushed_handles try p t = ground arith

    popped_handles :
        (popping : Popping) (p : RingPc T) (t : Thread T)
        → sender_handles (record t { at = after_pop popping p }) ≡ t.senders
    popped_handles draining (RingBuffer.outside o) t = ground arith
    popped_handles popping (RingBuffer.outside o) t = ground arith
    popped_handles popping p t = ground arith

    move-counted :
        (p : Pc T)
        → (pc i).at ≡ p
        → ((after p).0.channel.senders_count
            ≡ sum_over sender_handles n (moved p) + (after p).0.posted_senders)
          × ((after p).0.channel.senders_count + left ≤ 2 ^ 63)
    unfolding step_at client
    move-counted (outside last) e =
        ground
          (arith, counted, fits, sum_over-update sender_handles n pc i (after (outside last)).1)
    move-counted (send_push try p) e = ground (
      arith,
      counted,
      fits,
      sum_over-update sender_handles n pc i (after (send_push try p)).1,
      pushed_handles try (ring_step size i (Channel.ring_choice c) w.channel.ring p).1 (pc i),
    )
    move-counted (recv_pop popping p) e = ground (
      arith,
      counted,
      fits,
      sum_over-update sender_handles n pc i (after (recv_pop popping p)).1,
      popped_handles popping (ring_step size i (Channel.ring_choice c) w.channel.ring p).1 (pc i),
    )
    move-counted p e = ground (
      arith,
      counted,
      fits,
      each i,
      le-sum_over sender_handles n pc i,
      sum_over-update sender_handles n pc i (after p).1,
    )

    move-alive :
        (p : Pc T)
        → (pc i).at ≡ p
        → sum_over receiver_handles n (moved p) + (after p).0.posted_receivers
          ≡ (if (after p).0.channel.receiver_state == 0 then 0 else 1)
    unfolding step_at client
    move-alive (outside last) e =
        ground (arith, alive, sum_over-update receiver_handles n pc i (after (outside last)).1)
    move-alive p e = ground (
      arith,
      alive,
      each i,
      le-sum_over receiver_handles n pc i,
      sum_over-update receiver_handles n pc i (after p).1,
    )

    move_self : (p : Pc T) → (pc i).at ≡ p → Place (after p).0.channel (after p).1 (after p).1.at
    unfolding step_at client
    move_self (outside last) e = ground (arith, each i)
    move_self (send_push try p) e =
        after_push-Place (after (send_push try p)).0.channel (after (send_push try p)).1 try
          (ring_step size i (Channel.ring_choice c) w.channel.ring p).1 (ground (arith, each i))
    move_self (recv_pop popping p) e =
        after_pop-Place (after (recv_pop popping p)).0.channel (after (recv_pop popping p)).1
          popping (ring_step size i (Channel.ring_choice c) w.channel.ring p).1
          (ground (arith, each i)) (ground (arith, each i))
    move_self p e = ground (arith, each i, fits)

    -- What a step does to the counts.
    move-Channel :
        (p : Pc T)
        → (pc i).at ≡ p
        → (w.channel.senders_count ≡ 0 → (after p).0.channel.senders_count ≡ 0)
          × (w.channel.receiver_state ≡ 0 → (after p).0.channel.receiver_state ≡ 0)
    unfolding step_at client
    move-Channel (outside last) e = ground (arith, each i)
    move-Channel p e = ground (
      arith,
      each i,
      counted,
      alive,
      le-sum_over sender_handles n pc i,
      le-sum_over receiver_handles n pc i,
    )

    -- What another thread has been told stays true.
    keep-Place :
        (m m' : Channel T) (t : Thread T) (p : Pc T)
        → (m.senders_count ≡ 0 → m'.senders_count ≡ 0)
        → (m.receiver_state ≡ 0 → m'.receiver_state ≡ 0)
        → Place m t p
        → Place m' t p
    keep-Place m m' t (outside o) hs hr h = ground arith
    keep-Place m m' t p hs hr h = ground arith

    pub move-Inv : (p : Pc T) → (pc i).at ≡ p → Inv n left (after p).0 (moved p)
    move-Inv p e = record {
      counted = (move-counted p e).0;
      fits = (move-counted p e).1;
      alive = move-alive p e;
      each = λ j lj. elim (Bool-cases (i == j)) [
        | inl same ↦ rw same (move_self p e)
        | inr other ↦ rw other (
            keep-Place w.channel (after p).0.channel (pc j) (pc j).at (move-Channel p e).0
              (move-Channel p e).1 (each j lj))
      ];
    }

  pub step-Inv :
      (s : System (World T) (Thread T)) (i : ℕ) (c : Choice T) (k : ℕ)
      → i < n
      → Inv n (suc left) s.mem s.pc
      → let t = exec futex (program futex size) n s i c k in Inv n left t.mem t.pc
  unfolding step
  step-Inv s i c k lt inv =
      deliver-keeps futex (program futex size) n (Inv n left m') pc' k (after inv i lt c p).2
        (λ quiet. moved') (λ a call nobody. moved')
        (λ a j call lj slept. wake-Inv n left m' pc' a j lj slept moved')
        (λ a call. absurd (never_all a call))
    where
      p : Pc T
      p = (s.pc i).at

      m' : World T
      m' = (after inv i lt c p).0

      pc' : ℕ → Thread T
      pc' = moved inv i lt c p

      moved' : Inv n left m' pc'
      moved' = move-Inv inv i lt c p refl

      never_all : (a : ℕ) → (after inv i lt c p).2 ≡ all a → ⊥
      never_all a e = wake-ne_all futex size i c s.mem (s.pc i) p a e
