-- ===== src/Channel/Handles.antt =====
-- src/channel.rs: the counts of senders and receivers, and the errors that tell of them, in every
-- interleaving.
use atomics_for_peace_and_sy.Base.{
  ℕ, zero, suc, ◌+◌, ◌^◌, ◌<◌, ◌≡◌, refl, ◌⊎◌, some, List, arith, ◌==◌, if◌then◌else◌, length,
}
use atomics_for_peace_and_sy.Threads.{System, sum_over, le-sum_over}
use atomics_for_peace_and_sy.Futex.{AtomicWait, run, run-counts}
use atomics_for_peace_and_sy.Channel.{
  Channel, World, new, SendError, TrySendError, ReceiveError, TryReceiveError, no_call, send_failed,
  try_send_failed, recv_failed, try_recv_failed, outside, Thread, Choice, program,
}
use atomics_for_peace_and_sy.Channel.Inv.{sender_handles, receiver_handles, Inv}
use atomics_for_peace_and_sy.Channel.Moves.{step-Inv}

abbrev pub fresh_world : {T : Type 0} → Channel T → World T
fresh_world m = record { channel = m; posted_senders = 0; posted_receivers = 0 }

-- Thread 0 has the Sender and the Receiver that `channel` returned.
abbrev pub fresh_thread : {T : Type 0} → ℕ → Thread T
fresh_thread i = record {
  senders = if i == 0 then 1 else 0;
  receivers = if i == 0 then 1 else 0;
  at = outside no_call;
}

-- The channel in use by `n` threads, from its creation on.
unfoldable pub execute :
    {T : Type 0}
    → AtomicWait
    → (size n : ℕ) → Channel T
    → List (ℕ × Choice T × ℕ)
    → System (World T) (Thread T)
execute futex size n m es =
    run futex (program futex size) n (record { mem = fresh_world m; pc = fresh_thread }) es

one_handle :
    (T : Type 0) (n : ℕ)
    → (sum_over sender_handles (suc n) (fresh_thread {T = T}) ≡ 1)
      × (sum_over receiver_handles (suc n) (fresh_thread {T = T}) ≡ 1)
unfolding sum_over
one_handle T zero = (refl, refl)
one_handle T (suc n) = grind (arith, one_handle T n)

new_counts :
    {T : Type 0} (size : ℕ) (m : Channel T)
    → new size ≡ some m
    → (m.senders_count ≡ 1) × (m.receiver_state ≡ 1)
new_counts {T} size m made = ground arith

init-Inv :
    {T : Type 0} (size n left : ℕ) (m : Channel T)
    → new size ≡ some m
    → left < 2 ^ 63
    → Inv (suc n) left (fresh_world m) fresh_thread
init-Inv {T} size n left m made small = record {
  counted = ground (arith, one_handle T n, new_counts size m made);
  fits = ground (arith, new_counts size m made);
  alive = ground (arith, one_handle T n, new_counts size m made);
  each = λ i lt. tt;
}

module _ {T : Type 0} (futex : AtomicWait) (size n : ℕ) (m : Channel T)
    (es : List (ℕ × Choice T × ℕ)) where
  -- the state that the schedule reaches
  abbrev pub reached : System (World T) (Thread T)
  reached = execute futex size (suc n) m es

  pub reached-Inv : new size ≡ some m → length es < 2 ^ 63 → Inv (suc n) 0 reached.mem reached.pc
  unfolding execute
  reached-Inv made few =
      run-counts futex (program futex size) (suc n) (λ left s. Inv (suc n) left s.mem s.pc)
        (λ left s i c k lt inv. step-Inv futex size s i c k lt inv)
        (λ left s inv. record {
          counted = inv.counted;
          fits = omega (arith, inv.fits);
          alive = inv.alive;
          each = inv.each;
        })
        _ es (init-Inv size n (length es) m made few)

  -- In fewer than 2 ^ 63 steps from the creation of a channel, however its threads interleave:
  -- `senders_count` is exactly the number of Senders, those of the threads, those that a `clone` is
  -- about to return and those in transit; there is at most one Receiver, and `receiver_state` is 0
  -- exactly when there is none.
  pub handles_counted :
      new size ≡ some m
      → length es < 2 ^ 63
      → (reached.mem.channel.senders_count
          ≡ sum_over sender_handles (suc n) reached.pc + reached.mem.posted_senders)
        × (sum_over receiver_handles (suc n) reached.pc + reached.mem.posted_receivers
            ≡ (if reached.mem.channel.receiver_state == 0 then 0 else 1))
  handles_counted made few = ((reached-Inv made few).counted, (reached-Inv made few).alive)

  -- The last call of this thread has returned that all Senders are gone, or that the Receiver is.
  abbrev pub SendersGone : Thread T → Type 0
  SendersGone t =
      (t.at ≡ outside (recv_failed ReceiveError.disconnected))
      ⊎ (t.at ≡ outside (try_recv_failed TryReceiveError.disconnected))

  abbrev pub ReceiverGone : Thread T → T → Type 0
  ReceiverGone t v =
      (t.at ≡ outside (send_failed (SendError.disconnected v)))
      ⊎ (t.at ≡ outside (try_send_failed (TrySendError.disconnected v)))

  -- In fewer than 2 ^ 63 steps from the creation: when `recv` or `try_recv` has returned
  -- `Disconnected`, no thread has a Sender and none is in transit, so none can ever send again.
  pub recv_disconnected_sound :
      (i j : ℕ)
      → new size ≡ some m
      → length es < 2 ^ 63
      → i < suc n
      → j < suc n
      → SendersGone (reached.pc i)
      → ((reached.pc j).senders ≡ 0) × (reached.mem.posted_senders ≡ 0)
  recv_disconnected_sound i j made few li lj told = ground (
    arith,
    (reached-Inv made few).counted,
    (reached-Inv made few).each i,
    le-sum_over sender_handles (suc n) reached.pc j,
  )

  -- In fewer than 2 ^ 63 steps from the creation: when `send` or `try_send` has returned
  -- `Disconnected`, which gives the message back, no thread has the Receiver and it is not in
  -- transit.
  pub send_disconnected_sound :
      (i j : ℕ) (v : T)
      → new size ≡ some m
      → length es < 2 ^ 63
      → i < suc n
      → j < suc n
      → ReceiverGone (reached.pc i) v
      → ((reached.pc j).receivers ≡ 0) × (reached.mem.posted_receivers ≡ 0)
  send_disconnected_sound i j v made few li lj told = ground (
    arith,
    (reached-Inv made few).alive,
    (reached-Inv made few).each i,
    le-sum_over receiver_handles (suc n) reached.pc j,
  )
