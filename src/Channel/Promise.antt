-- ===== src/Channel/Promise.antt =====
-- src/channel.rs: what the calls promise, as a bounded queue that knows how many senders and
-- receivers are left, and the replies to a sequence of calls, one after the other.
use atomics_for_peace_and_sy.Base.{
  ℕ, ◌+◌, ◌-◌, ◌≤◌, ◌≡◌, ◌↔◌, Bool, true, false, List, [], ◌∷◌, ◌++◌, ltb, ◌==◌, if◌then◌else◌,
  length,
}
use atomics_for_peace_and_sy.Futex.{AtomicWait}
use atomics_for_peace_and_sy.RingBuffer.Queue.{Holds}
use atomics_for_peace_and_sy.Channel.{
  World, SendError, TrySendError, buffer_full, ReceiveError, TryReceiveError, buffer_empty, Outcome,
  no_call, sent, send_failed, try_send_failed, received, recv_failed, try_recv_failed, cloned, Pc,
  outside, send_sleep, recv_sleep, Thread, Choice, call_clone, call_drop_sender, call_drop_receiver,
}
use atomics_for_peace_and_sy.Channel.Phases.{complete}
use atomics_for_peace_and_sy.Channel.Calls.{send_call, recv_call}

-- What the channel promises: a queue of at most `size` messages, with the numbers of its handles and
-- what the last call returned.
pub record Promise (T : Type 0) : Type 0 where
  pub queue : List T
  pub senders : ℕ
  pub receivers : ℕ
  pub last : Outcome T

pub data Op (T : Type 0) : Type 0 where
  transmit : (try : Bool) → T → Op T
  collect : (try : Bool) → Op T
  duplicate : Op T
  release_sender : Op T
  release_receiver : Op T

-- A call returns, or its thread waits.
pub data Reply (T : Type 0) : Type 0 where
  returned : Outcome T → Reply T
  waits : Reply T
  unfinished : Reply T

module _ {T : Type 0} where
  abbrev pub op_call : Op T → Choice T
  op_call (transmit try v) = send_call try v
  op_call (collect try) = recv_call try
  op_call duplicate = call_clone
  op_call release_sender = call_drop_sender
  op_call release_receiver = call_drop_receiver

  -- what a thread's place says of its call
  abbrev pub reply : Pc T → Reply T
  reply (outside o) = returned o
  reply (send_sleep v) = waits
  reply recv_sleep = waits
  reply p = unfinished

  abbrev pub answer : Promise T → Outcome T → Promise T × Reply T
  answer s o = (record s { last = o }, returned o)

  -- what the promise says of each call; one whose handle is not there cannot be made
  abbrev pub promised_send : ℕ → Promise T → Bool → T → Promise T × Reply T
  promised_send size s try v =
      if s.receivers == 0
      then answer s (
          if try
          then try_send_failed (TrySendError.disconnected v)
          else send_failed (SendError.disconnected v))
      else if ltb (length s.queue) size
      then answer (record s { queue = s.queue ++ (v ∷ []) }) sent
      else if try
      then answer s (try_send_failed (buffer_full v))
      else (s, waits)

  abbrev pub promised_recv : Promise T → Bool → List T → Promise T × Reply T
  promised_recv s try (x ∷ q) = answer (record s { queue = q }) (received x)
  promised_recv s true [] = answer s (
      if s.senders == 0
      then try_recv_failed TryReceiveError.disconnected
      else try_recv_failed buffer_empty)
  promised_recv s false [] =
      if s.senders == 0 then answer s (recv_failed ReceiveError.disconnected) else (s, waits)

  abbrev pub promised : ℕ → Promise T → Op T → Promise T × Reply T
  promised size s (transmit try v) =
      if s.senders == 0 then (s, returned s.last) else promised_send size s try v
  promised size s (collect try) =
      if s.receivers == 0 then (s, returned s.last) else promised_recv s try s.queue
  promised size s duplicate =
      if s.senders == 0
      then (s, returned s.last)
      else answer (record s { senders = s.senders + 1 }) cloned
  promised size s release_sender =
      if s.senders == 0
      then (s, returned s.last)
      else answer (record s { senders = s.senders - 1 }) no_call
  promised size s release_receiver =
      if s.receivers == 0
      then (s, returned s.last)
      else answer (record s { receivers = s.receivers - 1 }) no_call

  -- No call follows one that waits.
  abbrev pub go_on : Reply T → List (Reply T) → List (Reply T)
  go_on (returned o) later = later
  go_on r later = []

  -- The replies to a sequence of calls, up to the first that waits.
  unfoldable pub promised_replies : ℕ → Promise T → List (Op T) → List (Reply T)
  promised_replies size s [] = []
  promised_replies size s (op ∷ ops) =
      let (s', r) = promised size s op in r ∷ go_on r (promised_replies size s' ops)

  unfoldable pub replies :
      AtomicWait → (size i : ℕ) → World T × Thread T → List (Op T) → List (Reply T)
  replies futex size i s [] = []
  replies futex size i s (op ∷ ops) =
      let (w', t') = complete futex size i (op_call op) s in
      reply t'.at ∷ go_on (reply t'.at) (replies futex size i (w', t') ops)

  -- The channel and its one thread keep the promise `s`.
  pub record Keeps (size : ℕ) (s : Promise T) (w : World T) (t : Thread T) : Type 0 where
    pub held : Holds size w.channel.ring s.queue
    pub counted : w.channel.senders_count ≡ s.senders
    pub sender : t.senders ≡ s.senders
    pub receiver : t.receivers ≡ s.receivers
    pub only_one : s.receivers ≤ 1
    pub alive : (w.channel.receiver_state ≡ 0) ↔ (s.receivers ≡ 0)
    pub returns : t.at ≡ outside s.last
