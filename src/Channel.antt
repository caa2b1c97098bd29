-- ===== src/Channel.antt =====
-- src/channel.rs: `Channel` with its `Sender`s and its `Receiver`, over the ring buffer. One step is
-- one atomic access of the channel, or one step of the ring's `push` or `pop`.
pub mod Inv
pub mod Handles
pub mod Calm
pub mod Ring
pub mod Asleep
pub mod Missed
pub mod Phases
pub mod Calls
pub mod Promise
pub mod Served
pub mod Refine
pub mod Moves
pub mod Transfers
pub mod Suite
mod Tests
use atomics_for_peace_and_sy.Base.{
  ℕ, ◌+◌, ◌-◌, ◌/◌, ◌%◌, ◌^◌, Bool, true, false, ltb, leb, ◌==◌, if◌then◌else◌, Option, none, some,
}
use atomics_for_peace_and_sy.Futex.{AtomicWait, Wake, silent, one, Program}
use atomics_for_peace_and_sy.RingBuffer.{
  RingBuffer, usize_mod, Pc as RingPc, Choice as RingChoice, push_tail, pop_tail, pushed, rejected,
  popped, nothing, step as ring_step, new as new_ring,
}
use atomics_for_peace_and_sy.RingBuffer

-- `Channel<T, N>`
pub record Channel (T : Type 0) : Type 0 where
  pub ring : RingBuffer T
  pub senders_count : ℕ  -- AtomicUsize
  pub sender_wait_num : ℕ  -- AtomicU32
  pub receiver_state : ℕ  -- AtomicU32: 0 dropped, 1 running, 2 waiting

-- The channel, and the handles that are on their way from one thread to another.
pub record World (T : Type 0) : Type 0 where
  pub channel : Channel T
  pub posted_senders : ℕ
  pub posted_receivers : ℕ

abbrev pub max_sender_count : ℕ
max_sender_count = (usize_mod - 1) / 2

abbrev pub u32_mod : ℕ
u32_mod = 2 ^ 32

-- `Channel::new`; `none` is the failed assertion of `RingBuffer::new`.
abbrev pub new : {T : Type 0} → ℕ → Option (Channel T)
new size = elim (new_ring size) [
  | none ↦ none
  | some ring ↦
      some (record { ring = ring; senders_count = 1; sender_wait_num = 0; receiver_state = 1 })
]

pub data SendError (T : Type 0) : Type 0 where
  disconnected : T → SendError T

pub data TrySendError (T : Type 0) : Type 0 where
  buffer_full : T → TrySendError T
  disconnected : T → TrySendError T

pub data ReceiveError : Type 0 where
  disconnected : ReceiveError

pub data TryReceiveError : Type 0 where
  buffer_empty : TryReceiveError
  disconnected : TryReceiveError

-- What the last call returned; `undefined` is the read of a slot that was never written.
pub data Outcome (T : Type 0) : Type 0 where
  no_call : Outcome T
  sent : Outcome T
  send_failed : SendError T → Outcome T
  try_send_failed : TrySendError T → Outcome T
  received : T → Outcome T
  recv_failed : ReceiveError → Outcome T
  try_recv_failed : TryReceiveError → Outcome T
  cloned : Outcome T
  panicked : Outcome T
  undefined : Outcome T

-- Which call pops: `recv` without senders, `recv` with senders, or `try_recv`.
pub data Popping : Type 0 where
  draining : Popping
  blocking : Popping
  trying : Popping

-- Where a thread stands. `try` tells `try_send` from `send`.
pub data Pc (T : Type 0) : Type 0 where
  outside : Outcome T → Pc T
  send_check : (try : Bool) → T → Pc T  -- the load of `receiver_state`
  send_push : (try : Bool) → RingPc T → Pc T
  send_look : Pc T  -- the second load of `receiver_state`
  send_exchange : Pc T
  send_wake : Pc T
  send_load : T → Pc T  -- the load of `sender_wait_num`
  send_wait : T → (sender_wait_num : ℕ) → Pc T
  send_sleep : T → Pc T
  clone_add : Pc T
  clone_check : (sender_count : ℕ) → Pc T
  drop_sender : Pc T
  recv_check : Pc T  -- the load of `senders_count`
  recv_pop : Popping → RingPc T → Pc T
  recv_bump : T → Pc T
  recv_wake : T → Pc T
  recv_store : Pc T
  recv_wait : Pc T
  recv_sleep : Pc T
  recv_probe : Pc T  -- the load of `senders_count` in `try_recv`
  drop_receiver : Pc T

-- A thread: how many handles it has, and where it stands.
pub record Thread (T : Type 0) : Type 0 where
  pub senders : ℕ
  pub receivers : ℕ
  pub at : Pc T

pub data Choice (T : Type 0) : Type 0 where
  call_send : T → Choice T
  call_try_send : T → Choice T
  call_clone : Choice T
  call_drop_sender : Choice T
  call_recv : Choice T
  call_try_recv : Choice T
  call_drop_receiver : Choice T
  post_sender : Choice T
  claim_sender : Choice T
  post_receiver : Choice T
  claim_receiver : Choice T
  proceed : Choice T
  fail_spuriously : Choice T

-- the channel, the thread, and whom the step wakes
abbrev pub Next : Type 0 → Type 0
Next T = World T × Thread T × Wake

module _ {T : Type 0} where
  abbrev pub goto : World T → Thread T → Pc T → Next T
  goto w t p = (w, record t { at = p }, silent)

  abbrev pub set_senders : World T → ℕ → World T
  set_senders w count = record w { channel = record w.channel { senders_count = count } }

  abbrev pub set_state : World T → ℕ → World T
  set_state w state = record w { channel = record w.channel { receiver_state = state } }

  abbrev pub with_sender : World T → Thread T → Pc T → Next T
  with_sender w t p = if ltb 0 t.senders then goto w t p else (w, t, silent)

  abbrev pub with_receiver : World T → Thread T → Pc T → Next T
  with_receiver w t p = if ltb 0 t.receivers then goto w t p else (w, t, silent)

  -- What a thread may do outside the calls. It uses, drops and hands on only handles that it has.
  unfoldable pub client : Choice T → World T → Thread T → Next T
  client (call_send v) w t = with_sender w t (send_check false v)
  client (call_try_send v) w t = with_sender w t (send_check true v)
  client call_clone w t = with_sender w t clone_add
  client call_drop_sender w t = with_sender w t drop_sender
  client call_recv w t = with_receiver w t recv_check
  client call_try_recv w t = with_receiver w t (recv_pop trying (pop_tail true))
  client call_drop_receiver w t = with_receiver w t drop_receiver
  client post_sender w t =
      if ltb 0 t.senders
      then (
        record w { posted_senders = w.posted_senders + 1 },
        record t { senders = t.senders - 1; at = outside no_call },
        silent,
      )
      else (w, t, silent)
  client claim_sender w t =
      if ltb 0 w.posted_senders
      then (
        record w { posted_senders = w.posted_senders - 1 },
        record t { senders = t.senders + 1; at = outside no_call },
        silent,
      )
      else (w, t, silent)
  client post_receiver w t =
      if ltb 0 t.receivers
      then (
        record w { posted_receivers = w.posted_receivers + 1 },
        record t { receivers = t.receivers - 1; at = outside no_call },
        silent,
      )
      else (w, t, silent)
  client claim_receiver w t =
      if ltb 0 w.posted_receivers
      then (
        record w { posted_receivers = w.posted_receivers - 1 },
        record t { receivers = t.receivers + 1; at = outside no_call },
        silent,
      )
      else (w, t, silent)
  client proceed w t = (w, t, silent)
  client fail_spuriously w t = (w, t, silent)

  abbrev pub ring_choice : Choice T → RingChoice T
  ring_choice fail_spuriously = RingBuffer.fail_spuriously
  ring_choice _ = RingBuffer.proceed

  -- What `send` or `try_send` does with the result of the push.
  abbrev pub after_push : Bool → RingPc T → Pc T
  after_push try (RingBuffer.outside pushed) = send_look
  after_push try (RingBuffer.outside (rejected v)) =
      if try then outside (try_send_failed (buffer_full v)) else send_load v
  after_push try p = send_push try p

  -- What `recv` or `try_recv` does with the result of the pop.
  abbrev pub after_pop : Popping → RingPc T → Pc T
  after_pop blocking (RingBuffer.outside (popped v)) = recv_bump v
  after_pop draining (RingBuffer.outside (popped v)) = outside (received v)
  after_pop trying (RingBuffer.outside (popped v)) = outside (received v)
  after_pop blocking (RingBuffer.outside nothing) = recv_store
  after_pop draining (RingBuffer.outside nothing) = outside (recv_failed ReceiveError.disconnected)
  after_pop trying (RingBuffer.outside nothing) = recv_probe
  after_pop popping (RingBuffer.outside RingBuffer.undefined) = outside undefined
  after_pop popping p = recv_pop popping p

  abbrev pub send_refused : Bool → T → Pc T
  send_refused try v =
      if try
      then outside (try_send_failed (TrySendError.disconnected v))
      else outside (send_failed (SendError.disconnected v))

  module _ (futex : AtomicWait) (size : ℕ) where
    -- one step of the ring, inside a call
    abbrev pub with_ring : ℕ → Choice T → World T → Thread T → RingPc T → (RingPc T → Pc T) → Next T
    with_ring i c w t p after =
        let (ring, p') = ring_step size i (ring_choice c) w.channel.ring p in
        (
          record w { channel = record w.channel { ring = ring } },
          record t { at = after p' },
          silent,
        )

    unfoldable pub step_at : ℕ → Choice T → World T → Thread T → Pc T → Next T
    unfolding client
    step_at i c w t (outside last) = client c w t
    step_at i c w t (send_check try v) = goto w t (
        if w.channel.receiver_state == 0
        then send_refused try v
        else send_push try (push_tail try v))
    step_at i c w t (send_push try p) = with_ring i c w t p (after_push try)
    step_at i c w t send_look =
        goto w t (if w.channel.receiver_state == 1 then outside sent else send_exchange)
    step_at i c w t send_exchange =
        if w.channel.receiver_state == 2
        then goto (set_state w 1) t send_wake
        else goto w t (outside sent)
    step_at i c w t send_wake = (w, record t { at = outside sent }, one 0)
    step_at i c w t (send_load v) = goto w t (send_wait v w.channel.sender_wait_num)
    step_at i c w t (send_wait v num) =
        goto w t
          (if futex.blocks w.channel.sender_wait_num num then send_sleep v else send_check false v)
    step_at i c w t (send_sleep v) = goto w t (send_check false v)
    step_at i c w t clone_add =
        goto (set_senders w ((w.channel.senders_count + 1) % usize_mod)) t
          (clone_check w.channel.senders_count)
    step_at i c w t (clone_check sender_count) =
        if leb sender_count max_sender_count
        then (w, record t { senders = t.senders + 1; at = outside cloned }, silent)
        else goto w t (outside panicked)
    step_at i c w t drop_sender = (
      set_senders w ((w.channel.senders_count + usize_mod - 1) % usize_mod),
      record t { senders = t.senders - 1; at = outside no_call },
      silent,
    )
    step_at i c w t recv_check = goto w t (
        if w.channel.senders_count == 0
        then recv_pop draining (pop_tail true)
        else recv_pop blocking (pop_tail false))
    step_at i c w t (recv_pop popping p) = with_ring i c w t p (after_pop popping)
    step_at i c w t (recv_bump v) =
        goto
          (record w {
            channel = record w.channel {
              sender_wait_num = (w.channel.sender_wait_num + 1) % u32_mod;
            };
          })
          t (recv_wake v)
    step_at i c w t (recv_wake v) = (w, record t { at = outside (received v) }, one 1)
    step_at i c w t recv_store = goto (set_state w 2) t recv_wait
    step_at i c w t recv_wait =
        goto w t (if futex.blocks w.channel.receiver_state 2 then recv_sleep else recv_check)
    step_at i c w t recv_sleep = goto w t recv_check
    step_at i c w t recv_probe = goto w t (
        if w.channel.senders_count == 0
        then outside (try_recv_failed TryReceiveError.disconnected)
        else outside (try_recv_failed buffer_empty))
    step_at i c w t drop_receiver =
        (set_state w 0, record t { receivers = t.receivers - 1; at = outside no_call }, silent)

    unfoldable pub step : ℕ → Choice T → World T → Thread T → Next T
    unfolding step_at
    step i c w t = step_at i c w t t.at

  -- The receiver sleeps on `receiver_state`, atomic 0 here, and senders on `sender_wait_num`,
  -- atomic 1.
  abbrev pub asleep : ℕ → Thread T → Bool
  asleep a t = elim t.at [ recv_sleep ↦ a == 0 | send_sleep v ↦ a == 1 | _ ↦ false ]

  abbrev pub after_wait : Pc T → Pc T
  after_wait (send_sleep v) = send_check false v
  after_wait recv_sleep = recv_check
  after_wait p = p

  abbrev pub woken : Thread T → Thread T
  woken t = record t { at = after_wait t.at }

  abbrev pub program : AtomicWait → ℕ → Program (World T) (Thread T) (Choice T)
  program futex size = record { step = step futex size; asleep = asleep; woken = woken }
