-- ===== src/Channel/Tests.antt =====
-- src/channel.rs: concrete channels, and the theorems at what they reach.
use atomics_for_peace_and_sy.Base.{
  ℕ, zero, suc, ◌+◌, ◌≤◌, ◌≡◌, refl, inl, true, false, none, some, List, [], ◌∷◌, ◌++◌, arith,
  replicate,
}
use atomics_for_peace_and_sy.Threads.{System}
use atomics_for_peace_and_sy.Futex.{run, alone}
use atomics_for_peace_and_sy.Futex.Scanning.{scanning}
use atomics_for_peace_and_sy.RingBuffer.{step as ring_step}
use atomics_for_peace_and_sy.RingBuffer.Queue.{Holds}
use atomics_for_peace_and_sy.Channel.{
  Channel, World, new, ReceiveError, TryReceiveError, no_call, sent, recv_failed, try_recv_failed,
  outside, recv_sleep, recv_store, Thread, Choice, call_send, call_recv, call_drop_sender,
  call_drop_receiver, call_try_send, post_receiver, claim_receiver, proceed, client, step, program,
}
use atomics_for_peace_and_sy.Channel.Handles.{
  fresh_world, execute, reached, recv_disconnected_sound,
}
use atomics_for_peace_and_sy.Channel.Ring.{ring_bounded}
use atomics_for_peace_and_sy.Channel.Asleep.{receiver_sleeps_on}
use atomics_for_peace_and_sy.Channel.Missed.{
  message_missed, drain_gives_up, failing_recv, failing_try_recv,
}
use atomics_for_peace_and_sy.Channel.Phases.{complete, settle}
use atomics_for_peace_and_sy.Channel.Promise.{
  Promise, Op, transmit, collect, duplicate, release_sender, release_receiver, Keeps, replies,
  promised_replies,
}
use atomics_for_peace_and_sy.Channel.Refine.{channel_refines}

abbrev two_slots : Channel ℕ
two_slots = record {
  ring = record { buffer = replicate 2 none; head = 0; tail = 0 };
  senders_count = 1;
  sender_wait_num = 0;
  receiver_state = 1;
}

made : new 2 ≡ some two_slots
made = refl

abbrev times : ℕ → ℕ → List (ℕ × Choice ℕ × ℕ)
times zero i = []
times (suc k) i = (i, proceed, 0) ∷ times k i

-- Thread 1 gets the receiver and sleeps in `recv`; thread 0 drops the only sender.
abbrev abandoned : List (ℕ × Choice ℕ × ℕ)
abandoned =
    ((0, post_receiver, 0) ∷ (1, claim_receiver, 0) ∷ (1, call_recv, 0) ∷ times 5 1)
    ++ ((0, call_drop_sender, 0) ∷ times 1 0)

-- Thread 0 fills the two slots and sleeps in its third `send`; thread 1 drops the receiver.
abbrev stranded : List (ℕ × Choice ℕ × ℕ)
stranded =
    ((0, post_receiver, 0) ∷ (1, claim_receiver, 0) ∷ (0, call_send 5, 0) ∷ times 6 0)
    ++ ((0, call_send 6, 0) ∷ times 6 0)
    ++ ((0, call_send 7, 0) ∷ times 5 0)
    ++ ((1, call_drop_receiver, 0) ∷ times 1 1)

-- Thread 0 sends and drops its sender; thread 1 receives, and then finds everybody gone.
abbrev finished : List (ℕ × Choice ℕ × ℕ)
finished =
    ((0, post_receiver, 0) ∷ (1, claim_receiver, 0) ∷ (0, call_send 5, 0) ∷ times 6 0)
    ++ ((0, call_drop_sender, 0) ∷ times 1 0)
    ++ ((1, call_recv, 0) ∷ times 5 1)
    ++ ((1, call_recv, 0) ∷ times 3 1)

abbrev result : List (ℕ × Choice ℕ × ℕ) → System (World ℕ) (Thread ℕ)
result es = reached scanning 2 1 two_slots es

finished_run :
    ((result finished).pc 0 ≡ record { senders = 0; receivers = 0; at = outside no_call })
    × ((result finished).pc 1 ≡ record {
      senders = 0;
      receivers = 1;
      at = outside (recv_failed ReceiveError.disconnected);
    })
unfolding execute run step client ring_step
finished_run = (refl, refl)

-- After the receiver is dropped, a further `send` gives its message back.
abbrev refused : List (ℕ × Choice ℕ × ℕ)
refused = ((0, call_drop_receiver, 0) ∷ times 1 0) ++ ((0, call_send 5, 0) ∷ times 1 0)

recv_disconnected_sound_example :
    (((result finished).pc 0).senders ≡ 0) × ((result finished).mem.posted_senders ≡ 0)
unfolding execute run step client ring_step
recv_disconnected_sound_example =
    recv_disconnected_sound scanning 2 1 two_slots finished 1 0 made (ground arith) (omega arith)
      (omega arith) (inl refl)

ring_bounded_example :
    ((result stranded).mem.channel.ring.tail ≤ (result stranded).mem.channel.ring.head)
    × ((result stranded).mem.channel.ring.head ≤ (result stranded).mem.channel.ring.tail + 2)
ring_bounded_example = ring_bounded scanning 2 2 two_slots stranded made (ground arith)

abbrev later : List (ℕ × Choice ℕ × ℕ)
later = (0, call_recv, 0) ∷ times 3 0

receiver_sleeps_on_example :
    (run scanning (program scanning 2) 2 (result abandoned) later).pc 1
    ≡ record { senders = 0; receivers = 1; at = recv_sleep }
unfolding execute run step client ring_step
receiver_sleeps_on_example =
    receiver_sleeps_on scanning 2 1 two_slots abandoned later 1 made (ground arith) (omega arith)
      refl refl (ground arith)

abbrev others : List (ℕ × Choice ℕ × ℕ)
others = (1, call_send 9, 0) ∷ times 3 1

-- a channel of two slots that holds one message
abbrev one_message : World ℕ
one_message =
    fresh_world
      (record two_slots { ring = record { buffer = some 5 ∷ none ∷ []; head = 1; tail = 0 } })

one_message-Holds : Holds 2 one_message.channel.ring (5 ∷ [])
one_message-Holds = record {
  storage = refl;
  fits = omega arith;
  counted = refl;
  slots = (refl, tt);
}

abbrev sender : Thread ℕ
sender = record { senders = 1; receivers = 0; at = outside no_call }

abbrev receiver : Thread ℕ
receiver = record { senders = 0; receivers = 1; at = outside no_call }

empty-Holds : Holds 2 (fresh_world two_slots).channel.ring []
empty-Holds = record { storage = refl; fits = omega arith; counted = refl; slots = tt }

message_missed_example :
    let (w1, t1) = complete scanning 2 0 (call_try_send 5) (fresh_world two_slots, sender) in
    let (w2, r2) = settle scanning 2 1 2 (w1, record receiver { at = recv_store }) in
    (t1.at ≡ outside sent)
    × (r2.at ≡ recv_sleep)
    × (w2.channel.receiver_state ≡ 2)
    × Holds 2 w2.channel.ring (5 ∷ [])
message_missed_example =
    message_missed scanning 1 0 1 (fresh_world two_slots) sender no_call refl (ground arith) []
      receiver true 5 empty-Holds (omega arith) refl (omega arith)

-- the same without a sender
abbrev orphaned : World ℕ
orphaned = record one_message { channel = record one_message.channel { senders_count = 0 } }

drain_gives_up_example :
    (alone (program scanning 2) 1 (orphaned, receiver) failing_recv
      ≡ (orphaned, record receiver { at = outside (recv_failed ReceiveError.disconnected) }))
    × (alone (program scanning 2) 1 (orphaned, receiver) failing_try_recv ≡ (
      orphaned,
      record receiver { at = outside (try_recv_failed TryReceiveError.disconnected) },
    ))
drain_gives_up_example =
    drain_gives_up scanning 1 1 orphaned receiver (ground arith) no_call 5 [] one_message-Holds
      (omega arith) refl

abbrev both_handles : Thread ℕ
both_handles = record { senders = 1; receivers = 1; at = outside no_call }

abbrev beginning : Promise ℕ
beginning = record { queue = []; senders = 1; receivers = 1; last = no_call }

fresh-Keeps : Keeps 2 beginning (fresh_world two_slots) both_handles
fresh-Keeps = record {
  held = empty-Holds;
  counted = refl;
  sender = refl;
  receiver = refl;
  only_one = omega arith;
  alive = ground arith;
  returns = refl;
}

abbrev dialogue : List (Op ℕ)
dialogue =
    transmit false 1
    ∷ transmit true 2
    ∷ transmit true 3
    ∷ collect false
    ∷ duplicate
    ∷ release_sender
    ∷ release_sender
    ∷ collect true
    ∷ collect false
    ∷ release_receiver
    ∷ []

channel_refines_example :
    replies scanning 2 0 (fresh_world two_slots, both_handles) dialogue
    ≡ promised_replies 2 beginning dialogue
channel_refines_example =
    channel_refines scanning 1 0 dialogue beginning (fresh_world two_slots) both_handles fresh-Keeps
      (ground arith) (ground arith)
