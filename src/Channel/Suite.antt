-- ===== src/Channel/Suite.antt =====
-- src/channel.rs: its unit tests, but for the two in which a thread sends while another is in a call.
-- The handles that a test still has at its end are not dropped here.
use atomics_for_peace_and_sy.Base.{ℕ, refl, none, List, [], ◌∷◌, replicate}
use atomics_for_peace_and_sy.Futex.{alone}
use atomics_for_peace_and_sy.Futex.Scanning.{scanning}
use atomics_for_peace_and_sy.Suite.{Act, call, Passes}
use atomics_for_peace_and_sy.RingBuffer.{step as ring_step}
use atomics_for_peace_and_sy.Channel.{
  World, Pc, Thread, Choice, SendError, TrySendError, ReceiveError, TryReceiveError, no_call, sent,
  send_failed, try_send_failed, received, recv_failed, try_recv_failed, buffer_full, buffer_empty,
  outside, call_send, call_try_send, call_drop_sender, call_recv, call_try_recv, call_drop_receiver,
  proceed, client, step, program,
}
use atomics_for_peace_and_sy.Channel.Handles.{fresh_world, fresh_thread}

abbrev Script : Type 0
Script = List (Act (World ℕ) (Choice ℕ) (Pc ℕ))

-- the end of a call that nobody disturbs, in a channel of `size` slots
finish : ℕ → ℕ → World ℕ × Thread ℕ → Choice ℕ → World ℕ × Thread ℕ
unfolding alone
finish size i s c = alone (program scanning size) i s (c ∷ replicate 10 proceed)

place : Thread ℕ → Pc ℕ
place t = t.at

-- The test passes on a new channel, whose handles thread 0 has.
abbrev Succeeds : ℕ → Script → Type 0
Succeeds size script =
    Passes (finish size) place
      (fresh_world (record {
        ring = record { buffer = replicate size none; head = 0; tail = 0 };
        senders_count = 1;
        sender_wait_num = 0;
        receiver_state = 1;
      }))
      fresh_thread script

abbrev sends : ℕ → Act (World ℕ) (Choice ℕ) (Pc ℕ)
sends v = call 0 (call_send v) (outside sent)

abbrev receives : ℕ → Act (World ℕ) (Choice ℕ) (Pc ℕ)
receives v = call 0 call_recv (outside (received v))

abbrev drops_sender : Act (World ℕ) (Choice ℕ) (Pc ℕ)
drops_sender = call 0 call_drop_sender (outside no_call)

abbrev drops_receiver : Act (World ℕ) (Choice ℕ) (Pc ℕ)
drops_receiver = call 0 call_drop_receiver (outside no_call)

abbrev basic_send_receive : Script
basic_send_receive = sends 42 ∷ receives 42 ∷ []

abbrev multiple_messages : Script
multiple_messages =
    sends 0 ∷ sends 1 ∷ sends 2 ∷ sends 3 ∷ receives 0 ∷ receives 1 ∷ receives 2 ∷ receives 3 ∷ []

abbrev receiver_gets_buffered_messages_after_senders_dropped : Script
receiver_gets_buffered_messages_after_senders_dropped =
    sends 1
    ∷ sends 2
    ∷ drops_sender
    ∷ receives 1
    ∷ receives 2
    ∷ call 0 call_recv (outside (recv_failed ReceiveError.disconnected))
    ∷ []

abbrev try_send_full_buffer : Script
try_send_full_buffer =
    call 0 (call_try_send 1) (outside sent)
    ∷ call 0 (call_try_send 2) (outside sent)
    ∷ call 0 (call_try_send 3) (outside (try_send_failed (buffer_full 3)))
    ∷ drops_receiver
    ∷ call 0 (call_try_send 4) (outside (try_send_failed (TrySendError.disconnected 4)))
    ∷ []

abbrev try_recv_empty_buffer : Script
try_recv_empty_buffer =
    call 0 call_try_recv (outside (try_recv_failed buffer_empty))
    ∷ sends 42
    ∷ call 0 call_try_recv (outside (received 42))
    ∷ drops_sender
    ∷ call 0 call_try_recv (outside (try_recv_failed TryReceiveError.disconnected))
    ∷ []

abbrev send_after_receiver_dropped : Script
send_after_receiver_dropped =
    drops_receiver ∷ call 0 (call_send 42) (outside (send_failed (SendError.disconnected 42))) ∷ []

suite_passes :
    Succeeds 4 basic_send_receive
    × Succeeds 4 multiple_messages
    × Succeeds 4 receiver_gets_buffered_messages_after_senders_dropped
    × Succeeds 2 try_send_full_buffer
    × Succeeds 2 try_recv_empty_buffer
    × Succeeds 2 send_after_receiver_dropped
unfolding finish place step client ring_step
suite_passes = (refl, refl, refl, refl, refl, refl)
