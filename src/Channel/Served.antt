-- ===== src/Channel/Served.antt =====
-- src/channel.rs: each call, undisturbed, gives the reply that the bounded queue promises.
use atomics_for_peace_and_sy.Base.{
  ℕ, ◌+◌, ◌^◌, ◌≤◌, ◌<◌, ◌≡◌, refl, ◌≢◌, Bool, true, false, List, [], ◌∷◌, ◌++◌, arith, ltb, ◌==◌,
  if◌then◌else◌, length, Bool-cases, inl, inr, subst,
}
use atomics_for_peace_and_sy.Futex.{AtomicWait}
use atomics_for_peace_and_sy.RingBuffer.{usize_mod}
use atomics_for_peace_and_sy.RingBuffer.Queue.{Holds, push_room-Holds}
use atomics_for_peace_and_sy.Channel.{
  Channel, World, SendError, TrySendError, buffer_full, sent, send_failed, try_send_failed,
  received, outside, send_sleep, Thread, send_refused,
}
use atomics_for_peace_and_sy.Channel.Phases.{complete}
use atomics_for_peace_and_sy.Channel.Promise.{
  Promise, Op, transmit, collect, duplicate, release_sender, release_receiver, Reply, waits,
  op_call, reply, answer, promised_recv, promised, Keeps,
}
use atomics_for_peace_and_sy.Channel.Calls.{
  send_call, recv_call, send_gone, send_no_handle, recv_no_handle, drop_no_handle, clone_run,
  drop_sender_run, drop_receiver_run,
}
use atomics_for_peace_and_sy.Channel.Transfers.{
  send_room, after_send, send_full, recv_first, try_recv_first, recv_empty, try_recv_empty,
}

module _ {T : Type 0} where
  -- What is left to show of a call.
  abbrev Served : ℕ → World T → Promise T × Reply T → World T × Thread T → Type 0
  Served size w (s', r) (w', t') =
      (reply t'.at ≡ r)
      × (r ≢ waits → Keeps size s' w' t')
      × (w'.channel.ring.head ≤ w.channel.ring.head + 1)
      × (w'.channel.senders_count ≤ w.channel.senders_count + 1)

module _ {T : Type 0} (futex : AtomicWait) (k i : ℕ) (s : Promise T) (w : World T) (t : Thread T)
    (h : Keeps (2 ^ k) s w t) (room : w.channel.ring.head + 1 < usize_mod)
    (few : w.channel.senders_count < 2 ^ 63) where
  refused_Served :
      (try : Bool) (v : T)
      → Served
          (2 ^ k)
          w
          (answer s (
            if try
            then try_send_failed (TrySendError.disconnected v)
            else send_failed (SendError.disconnected v)))
          (w, record t { at = send_refused try v })
  refused_Served true v = ground (arith, h)
  refused_Served false v = ground (arith, h)

  crowded_Served :
      (try : Bool) (v : T)
      → Served (2 ^ k) w (if try then answer s (try_send_failed (buffer_full v)) else (s, waits)) (
        w,
        record t { at = if try then outside (try_send_failed (buffer_full v)) else send_sleep v },
      )
  crowded_Served true v = ground (arith, h)
  crowded_Served false v = (refl, λ ne. absurd (ne refl), omega arith, omega arith)

  sent_Served :
      (v : T)
      → s.receivers ≢ 0
      → length s.queue < 2 ^ k
      → Served (2 ^ k) w (answer (record s { queue = s.queue ++ (v ∷ []) }) sent) (
        after_send futex k i w t s.last h.returns s.queue h.held room v,
        record t { at = outside sent },
      )
  sent_Served v alive lt = (
    refl,
    λ ne. record {
      held = push_room-Holds k w.channel.ring s.queue v h.held lt;
      counted = h.counted;
      sender = h.sender;
      receiver = h.receiver;
      only_one = h.only_one;
      alive = ground (arith, h);
      returns = refl;
    },
    omega arith,
    omega arith,
  )

  send_Served :
      (try : Bool) (v : T)
      → Served
          (2 ^ k)
          w
          (promised (2 ^ k) s (transmit try v))
          (complete futex (2 ^ k) i (send_call try v) (w, t))
  send_Served try v = elim (Bool-cases (s.senders == 0)) [
    | inl absent ↦
        rw (absent, send_no_handle futex (2 ^ k) i w t s.last h.returns try v (ground (arith, h)))
          (ground (arith, h))
    | inr present ↦ elim (Bool-cases (s.receivers == 0)) [
      | inl gone ↦
          rw
            (
              present,
              gone,
              send_gone futex (2 ^ k) i w t s.last h.returns try v (ground (arith, h))
                  (ground (arith, h)),
            )
            (refused_Served try v)
      | inr alive ↦ elim (Bool-cases (ltb (length s.queue) (2 ^ k))) [
        | inl lt ↦
            rw
              (
                present,
                alive,
                lt,
                send_room futex k i w t s.last h.returns s.queue h.held room try v
                    (ground (arith, h)) (ground (arith, h)) (ground arith),
              )
              (sent_Served v (ground (arith, h)) (ground arith))
        | inr full ↦
            rw
              (
                present,
                alive,
                full,
                send_full futex k i w t s.last h.returns s.queue h.held room try v
                    (ground (arith, h)) (ground (arith, h)) (ground (arith, h.held)),
              )
              (crowded_Served try v)
      ]
    ]
  ]

  -- The queue without its first message, in the ring that has popped it.
  popped-Keeps :
      (x : T) (q : List T)
      → s.queue ≡ x ∷ q
      → (m : Channel T) → m.ring ≡ record w.channel.ring { tail = w.channel.ring.tail + 1 }
      → m.senders_count ≡ w.channel.senders_count
      → m.receiver_state ≡ w.channel.receiver_state
      → Keeps
          (2 ^ k)
          (record s { queue = q; last = received x })
          (record w { channel = m })
          (record t { at = outside (received x) })
  popped-Keeps x q e m er es em =
      let full : Holds (2 ^ k) w.channel.ring (x ∷ q) =
        subst (λ l. Holds (2 ^ k) w.channel.ring l) e h.held in
      record {
        held = rw er (record {
          storage = full.storage;
          fits = omega (arith, full.fits);
          counted = omega (arith, full.counted);
          slots = full.slots.1;
        });
        counted = ground (arith, h);
        sender = h.sender;
        receiver = h.receiver;
        only_one = h.only_one;
        alive = ground (arith, h);
        returns = refl;
      }

  same_test : (b : Bool) → (w.channel.senders_count == 0) ≡ b → (s.senders == 0) ≡ b
  same_test b e = ground (arith, h)

  collected :
      (q : List T)
      → s.queue ≡ q
      → (try : Bool) → 0 < t.receivers
      → Served (2 ^ k) w (promised_recv s try q) (complete futex (2 ^ k) i (recv_call try) (w, t))
  collected (x ∷ q) e true has =
      rw
        (try_recv_first futex k i w t s.last h.returns (omega arith) x q
          (subst (λ l. Holds (2 ^ k) w.channel.ring l) e h.held) has)
        (refl, λ ne. popped-Keeps x q e _ refl refl refl, omega arith, omega arith)
  collected (x ∷ q) e false has =
      rw
        (recv_first futex k i w t s.last h.returns (omega arith) x q
          (subst (λ l. Holds (2 ^ k) w.channel.ring l) e h.held) has)
        (elim (Bool-cases (w.channel.senders_count == 0)) [
          | inl gone ↦
              rw gone (refl, λ ne. popped-Keeps x q e _ refl refl refl, omega arith, omega arith)
          | inr left ↦
              rw left (refl, λ ne. popped-Keeps x q e _ refl refl refl, omega arith, omega arith)
        ])
  collected [] e true has =
      rw
        (try_recv_empty futex k i w t s.last h.returns (omega arith)
          (subst (λ l. Holds (2 ^ k) w.channel.ring l) e h.held) has)
        (ground (arith, h))
  collected [] e false has =
      rw
        (recv_empty futex k i w t s.last h.returns (omega arith)
          (subst (λ l. Holds (2 ^ k) w.channel.ring l) e h.held) has)
        (elim (Bool-cases (w.channel.senders_count == 0)) [
          | inl gone ↦ rw (gone, same_test true gone) (ground (arith, h))
          | inr left ↦ rw (left, same_test false left) (ground (arith, h))
        ])

  recv_Served :
      (try : Bool)
      → Served
          (2 ^ k)
          w
          (promised (2 ^ k) s (collect try))
          (complete futex (2 ^ k) i (recv_call try) (w, t))
  recv_Served try = elim (Bool-cases (s.receivers == 0)) [
    | inl absent ↦
        rw (absent, recv_no_handle futex (2 ^ k) i w t s.last h.returns try (ground (arith, h)))
          (ground (arith, h))
    | inr present ↦ rw present (collected s.queue refl try (ground (arith, h)))
  ]

  -- Every call of an undisturbed thread keeps the promise.
  pub op_Served :
      (op : Op T)
      → Served (2 ^ k) w (promised (2 ^ k) s op) (complete futex (2 ^ k) i (op_call op) (w, t))
  op_Served (transmit try v) = send_Served try v
  op_Served (collect try) = recv_Served try
  op_Served duplicate = elim (Bool-cases (s.senders == 0)) [
    | inl absent ↦
        rw (absent, (drop_no_handle futex (2 ^ k) i w t s.last h.returns).0 (ground (arith, h)))
          (ground (arith, h))
    | inr present ↦
        rw
          (
            present,
            clone_run futex (2 ^ k) i w t s.last h.returns (ground (arith, h)) (ground arith),
          )
          (ground (arith, h))
  ]
  op_Served release_sender = elim (Bool-cases (s.senders == 0)) [
    | inl absent ↦
        rw (absent, (drop_no_handle futex (2 ^ k) i w t s.last h.returns).1 (ground (arith, h)))
          (ground (arith, h))
    | inr present ↦
        rw
          (
            present,
            drop_sender_run futex (2 ^ k) i w t s.last h.returns (ground (arith, h))
                (ground (arith, h)) (ground arith),
          )
          (ground (arith, h))
  ]
  op_Served release_receiver = elim (Bool-cases (s.receivers == 0)) [
    | inl absent ↦
        rw (absent, (drop_no_handle futex (2 ^ k) i w t s.last h.returns).2 (ground (arith, h)))
          (ground (arith, h))
    | inr present ↦
        rw (present, drop_receiver_run futex (2 ^ k) i w t s.last h.returns (ground (arith, h)))
          (ground (arith, h))
  ]
