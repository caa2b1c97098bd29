-- ===== src/Channel/Asleep.antt =====
-- src/channel.rs: `drop` of the last Sender, or of the Receiver, wakes nobody. A thread that sleeps
-- on the other side is never woken.
use atomics_for_peace_and_sy.Base.{
  Bool-cases, ℕ, suc, ◌^◌, ◌<◌, ◌≡◌, refl, ◌≢◌, inl, inr, some, Bool, true, false, List, arith,
  ◌==◌, length,
}
use atomics_for_peace_and_sy.Threads.{System, update, le-sum_over}
use atomics_for_peace_and_sy.Futex.{
  AtomicWait, run, exec, deliver-keeps, Spares, run-keeps_Spares, one, Wake,
}
use atomics_for_peace_and_sy.RingBuffer.{Pc as RingPc, step as ring_step}
use atomics_for_peace_and_sy.RingBuffer
use atomics_for_peace_and_sy.Channel.{
  Channel, World, new, Popping, draining, Pc, outside, send_check, send_push, send_look,
  send_exchange, send_wake, send_load, send_wait, send_sleep, clone_add, clone_check, drop_sender,
  recv_check, recv_pop, recv_bump, recv_wake, recv_store, recv_wait, recv_sleep, recv_probe,
  drop_receiver, Thread, Choice, client, step, step_at, after_push, after_pop, asleep, program,
  ring_choice,
}
use atomics_for_peace_and_sy.Channel.Inv.{Inv, sender_handles, receiver_handles, Place, wake-ne_all}
use atomics_for_peace_and_sy.Channel.Handles.{reached, reached-Inv}

module _ {T : Type 0} where
  -- in a call of a Sender
  abbrev sending : Pc T → Bool
  sending (send_check try v) = true
  sending (send_push try p) = true
  sending send_look = true
  sending send_exchange = true
  sending send_wake = true
  sending (send_load v) = true
  sending (send_wait v num) = true
  sending (send_sleep v) = true
  sending clone_add = true
  sending (clone_check old) = true
  sending drop_sender = true
  sending p = false

  -- in a call of the Receiver
  abbrev receiving : Pc T → Bool
  receiving recv_check = true
  receiving (recv_pop popping p) = true
  receiving (recv_bump v) = true
  receiving (recv_wake v) = true
  receiving recv_store = true
  receiving recv_wait = true
  receiving recv_sleep = true
  receiving recv_probe = true
  receiving drop_receiver = true
  receiving p = false

  -- without a Sender, and without the Receiver
  abbrev NoSender : Thread T → Type 0
  NoSender t = (t.senders ≡ 0) × (sending t.at ≡ false)

  abbrev NoReceiver : Thread T → Type 0
  NoReceiver t = (t.receivers ≡ 0) × (receiving t.at ≡ false)

  Place-sending :
      (m : Channel T) (t : Thread T) (p : Pc T) → Place m t p → t.senders ≡ 0 → sending p ≡ false
  Place-sending m t (outside o) h e = refl
  Place-sending m t p h e = ground arith

  Place-receiving :
      (m : Channel T) (t : Thread T) (p : Pc T)
      → Place m t p
      → t.receivers ≡ 0
      → receiving p ≡ false
  Place-receiving m t (outside o) h e = refl
  Place-receiving m t p h e = ground arith

  popped-sending : (popping : Popping) (p : RingPc T) → sending (after_pop popping p) ≡ false
  popped-sending draining (RingBuffer.outside o) = ground arith
  popped-sending popping (RingBuffer.outside o) = ground arith
  popped-sending popping p = ground arith

  pushed-receiving : (try : Bool) (p : RingPc T) → receiving (after_push try p) ≡ false
  pushed-receiving true (RingBuffer.outside o) = ground arith
  pushed-receiving false (RingBuffer.outside o) = ground arith
  pushed-receiving try p = ground arith

module _ {T : Type 0} (futex : AtomicWait) (size : ℕ) where
  -- A step of a thread without a Sender leaves it without one, and wakes no receiver.
  step-NoSender :
      (i : ℕ) (c : Choice T) (w : World T) (t : Thread T) (p : Pc T)
      → t.at ≡ p
      → w.posted_senders ≡ 0
      → NoSender t
      → let (w', t', wake) = step_at futex size i c w t p in
        (w'.posted_senders ≡ 0) × NoSender t' × (wake ≢ one 0)
  unfolding step_at client
  step-NoSender i c w t (outside o) e none h = ground arith
  step-NoSender i c w t (recv_pop popping p) e none h =
      ground (arith, popped-sending popping (ring_step size i (ring_choice c) w.channel.ring p).1)
  step-NoSender i c w t p e none h = ground arith

  -- A step of a thread without the Receiver leaves it without one, and wakes no sender.
  step-NoReceiver :
      (i : ℕ) (c : Choice T) (w : World T) (t : Thread T) (p : Pc T)
      → t.at ≡ p
      → w.posted_receivers ≡ 0
      → NoReceiver t
      → let (w', t', wake) = step_at futex size i c w t p in
        (w'.posted_receivers ≡ 0) × NoReceiver t' × (wake ≢ one 1)
  unfolding step_at client
  step-NoReceiver i c w t (outside o) e none h = ground arith
  step-NoReceiver i c w t (send_push try p) e none h =
      ground (arith, pushed-receiving try (ring_step size i (ring_choice c) w.channel.ring p).1)
  step-NoReceiver i c w t p e none h = ground arith

  asleep-sending :
      (a : ℕ) (t : Thread T) (p : Pc T)
      → t.at ≡ p
      → asleep a t ≡ true
      → (a ≢ 0 → sending t.at ≡ true) × (a ≢ 1 → receiving t.at ≡ true)
  asleep-sending a t (outside o) e h = ground arith
  asleep-sending a t p e h = ground arith

  -- A thread that is not scheduled stays where it is while no thread of the others can wake it.
  module _ (n j : ℕ) (t0 : Thread T) (posted : World T → ℕ) (Without : Thread T → Type 0)
      (steps : (i : ℕ) (c : Choice T) (w : World T) (t : Thread T)
        → posted w ≡ 0
        → Without t
        → let (w', t', wake) = step_at futex size i c w t t.at in
          (posted w' ≡ 0)
          × Without t'
          × ((a : ℕ) (u : Thread T) → wake ≡ one a → Without u → asleep a u ≡ false)) where
    abbrev Frozen : System (World T) (Thread T) → Type 0
    Frozen s = (s.pc j ≡ t0) × (posted s.mem ≡ 0) × ((i : ℕ) → i < n → Without (s.pc i))

    exec-Frozen :
        (s : System (World T) (Thread T)) (i : ℕ) (c : Choice T) (k : ℕ)
        → i < n
        → i ≢ j
        → Frozen s
        → Frozen (exec futex (program futex size) n s i c k)
    unfolding step
    exec-Frozen s i c k lt ne (at, none, each) =
        let (here, others) =
          deliver-keeps futex (program futex size) n
            (λ pc. (pc j ≡ t0) × ((l : ℕ) → l < n → Without (pc l))) pc' k wake (λ quiet. moved)
            (λ a call nobody. moved)
            (λ a l call ll slept.
              absurd (contradiction' (next.2 a (pc' l) call (moved.1 l ll)) slept))
            (λ a call. absurd (wake-ne_all futex size i c s.mem (s.pc i) (s.pc i).at a call)) in
        (here, next.0, others)
      where
        next :
            (posted (step_at futex size i c s.mem (s.pc i) (s.pc i).at).0 ≡ 0)
            × Without (step_at futex size i c s.mem (s.pc i) (s.pc i).at).1
            × ((a : ℕ) (u : Thread T)
                → (step_at futex size i c s.mem (s.pc i) (s.pc i).at).2 ≡ one a
                → Without u
                → asleep a u ≡ false)
        next = steps i c s.mem (s.pc i) none (each i lt)

        wake : Wake
        wake = (step_at futex size i c s.mem (s.pc i) (s.pc i).at).2

        pc' : ℕ → Thread T
        pc' = update s.pc i (step_at futex size i c s.mem (s.pc i) (s.pc i).at).1

        moved : (pc' j ≡ t0) × ((l : ℕ) → l < n → Without (pc' l))
        moved = (
          ground arith,
          λ l ll. elim (Bool-cases (i == l)) [
            | inl same ↦ rw same next.1
            | inr other ↦ rw other (each l ll)
          ],
        )

        contradiction' : {b : Bool} → b ≡ false → b ≡ true → ⊥
        contradiction' no_ yes_ = cc

    run-Frozen :
        (s : System (World T) (Thread T)) (es : List (ℕ × Choice T × ℕ))
        → Spares futex (program futex size) n j es
        → Frozen s
        → Frozen (run futex (program futex size) n s es)
    run-Frozen s es spares h =
        run-keeps_Spares futex (program futex size) n j Frozen exec-Frozen s es spares h

module _ {T : Type 0} (futex : AtomicWait) (size n : ℕ) (m : Channel T)
    (es later : List (ℕ × Choice T × ℕ)) (j : ℕ) where
  abbrev before : System (World T) (Thread T)
  before = reached futex size n m es

  -- what becomes of thread `j` while the others go on
  abbrev finally : Thread T
  finally = (run futex (program futex size) (suc n) before later).pc j

  -- When the last Sender is dropped while the receiver sleeps in `recv`, nobody wakes it: from any
  -- state that fewer than 2 ^ 63 steps reach and in which the receiver sleeps and no Sender is left,
  -- it sleeps for ever, whatever the other threads do, unless `wait` returns without a wake.
  pub receiver_sleeps_on :
      new size ≡ some m
      → length es < 2 ^ 63
      → j < suc n
      → (before.pc j).at ≡ recv_sleep
      → before.mem.channel.senders_count ≡ 0
      → Spares futex (program futex size) (suc n) j later
      → finally ≡ before.pc j
  receiver_sleeps_on made few lt slept gone spares =
      (run-Frozen futex size (suc n) j (before.pc j) (λ w. w.posted_senders) NoSender
        (λ i c w t none h.
          let (none', h', ne) = step-NoSender futex size i c w t t.at refl none h in
          (none', h', λ a u call without. ground (arith, asleep-sending futex size a u u.at refl)))
        before later spares (refl, ground (arith, inv.counted), λ i li. no_sender i li)).0
    where
      inv : Inv (suc n) 0 before.mem before.pc
      inv = reached-Inv futex size n m es made few

      no_sender : (i : ℕ) → i < suc n → NoSender (before.pc i)
      no_sender i li =
          let e : (before.pc i).senders ≡ 0 =
            ground (arith, inv.counted, le-sum_over sender_handles (suc n) before.pc i) in
          (e, Place-sending before.mem.channel (before.pc i) (before.pc i).at (inv.each i li) e)

  -- When the Receiver is dropped while a sender sleeps in `send` on a full channel, nobody wakes it:
  -- from any state that fewer than 2 ^ 63 steps reach and in which the sender sleeps and the
  -- Receiver is gone, it sleeps for ever, whatever the other threads do, unless `wait` returns
  -- without a wake.
  pub sender_sleeps_on :
      (v : T)
      → new size ≡ some m
      → length es < 2 ^ 63
      → j < suc n
      → (before.pc j).at ≡ send_sleep v
      → before.mem.channel.receiver_state ≡ 0
      → Spares futex (program futex size) (suc n) j later
      → finally ≡ before.pc j
  sender_sleeps_on v made few lt slept gone spares =
      (run-Frozen futex size (suc n) j (before.pc j) (λ w. w.posted_receivers) NoReceiver
        (λ i c w t none h.
          let (none', h', ne) = step-NoReceiver futex size i c w t t.at refl none h in
          (none', h', λ a u call without. ground (arith, asleep-sending futex size a u u.at refl)))
        before later spares (refl, ground (arith, inv.alive), λ i li. no_receiver i li)).0
    where
      inv : Inv (suc n) 0 before.mem before.pc
      inv = reached-Inv futex size n m es made few

      no_receiver : (i : ℕ) → i < suc n → NoReceiver (before.pc i)
      no_receiver i li =
          let e : (before.pc i).receivers ≡ 0 =
            ground (arith, inv.alive, le-sum_over receiver_handles (suc n) before.pc i) in
          (e, Place-receiving before.mem.channel (before.pc i) (before.pc i).at (inv.each i li) e)
