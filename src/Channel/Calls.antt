-- ===== src/Channel/Calls.antt =====
-- src/channel.rs: each call of a thread that nothing disturbs, branch by branch.
use atomics_for_peace_and_sy.Base.{
  ℕ, ◌+◌, ◌-◌, ◌≤◌, ◌<◌, ◌≡◌, refl, ◌≢◌, ◌∙◌, ap, Bool, true, false, arith, ◌==◌, if◌then◌else◌,
}
use atomics_for_peace_and_sy.Futex.{AtomicWait, silent}
use atomics_for_peace_and_sy.RingBuffer.{usize_mod, push_tail, pop_tail}
use atomics_for_peace_and_sy.Channel.{
  World, Outcome, no_call, cloned, draining, blocking, trying, Pc, outside, send_check, send_push,
  recv_check, recv_pop, clone_add, clone_check, drop_sender, drop_receiver, Thread, Choice,
  call_send, call_try_send, call_clone, call_drop_sender, call_recv, call_try_recv,
  call_drop_receiver, client, step, send_refused, set_state, set_senders, max_sender_count,
}
use atomics_for_peace_and_sy.Channel.Phases.{
  complete, complete_to, settle_to, settle, halted, settle-halted,
}

abbrev pub send_call : {T : Type 0} → Bool → T → Choice T
send_call try v = if try then call_try_send v else call_send v

abbrev pub recv_call : {T : Type 0} → Bool → Choice T
recv_call try = if try then call_try_recv else call_recv

module _ {T : Type 0} (futex : AtomicWait) (size i : ℕ) (w : World T) (t : Thread T)
    (last : Outcome T) (at : t.at ≡ outside last) where
  -- the same thread at another place
  abbrev there : Pc T → Thread T
  there p = record t { at = p }

  check_step :
      (try : Bool) (v : T)
      → 0 < t.senders
      → complete futex size i (send_call try v) (w, t)
        ≡ settle futex size i 9 (w, there (send_check try v))
  unfolding step client
  check_step true v has =
      complete_to futex size i w t _ _ (call_try_send v) (ground arith) (ground arith)
  check_step false v has =
      complete_to futex size i w t _ _ (call_send v) (ground arith) (ground arith)

  pub send_start :
      (try : Bool) (v : T)
      → 0 < t.senders
      → w.channel.receiver_state ≢ 0
      → complete futex size i (send_call try v) (w, t)
        ≡ settle futex size i 8 (w, there (send_push try (push_tail try v)))
  unfolding step
  send_start try v has alive =
      check_step try v has
      ∙ settle_to futex size i w (there (send_check try v)) _ _ 8 refl refl (ground arith)

  pub send_gone :
      (try : Bool) (v : T)
      → 0 < t.senders
      → w.channel.receiver_state ≡ 0
      → complete futex size i (send_call try v) (w, t) ≡ (w, there (send_refused try v))
  unfolding step
  send_gone true v has gone =
      check_step true v has
      ∙ settle_to futex size i w (there (send_check true v)) w (there (send_refused true v)) 8 refl
          refl (ground arith)
      ∙ settle-halted futex size i 8 w (there (send_refused true v)) refl
  send_gone false v has gone =
      check_step false v has
      ∙ settle_to futex size i w (there (send_check false v)) w (there (send_refused false v)) 8
          refl refl (ground arith)
      ∙ settle-halted futex size i 8 w (there (send_refused false v)) refl

  pub recv_start :
      0 < t.receivers
      → complete futex size i call_recv (w, t)
        ≡ settle futex size i 8 (
          w,
          there (
              if w.channel.senders_count == 0
              then recv_pop draining (pop_tail true)
              else recv_pop blocking (pop_tail false)),
        )
  unfolding step client
  recv_start has =
      complete_to futex size i w t w (there recv_check) call_recv (ground arith) (ground arith)
      ∙ settle_to futex size i w (there recv_check) w _ 8 refl refl refl

  pub try_recv_start :
      0 < t.receivers
      → complete futex size i call_try_recv (w, t)
        ≡ settle futex size i 9 (w, there (recv_pop trying (pop_tail true)))
  unfolding step client
  try_recv_start has =
      complete_to futex size i w t w (there (recv_pop trying (pop_tail true))) call_try_recv
        (ground arith) (ground arith)

  -- A call that has returned, or that its thread could not make, after its first step.
  complete_at_once :
      (call : Choice T) (w' : World T) (t' : Thread T)
      → (step futex size i call w t).0 ≡ w'
      → (step futex size i call w t).1 ≡ t'
      → halted t'.at ≡ true
      → complete futex size i call (w, t) ≡ (w', t')
  complete_at_once call w' t' ew et h =
      complete_to futex size i w t w' t' call ew et ∙ settle-halted futex size i 9 w' t' h

  -- A thread without the handle makes no call.
  no_handle :
      (call : Choice T)
      → step futex size i call w t ≡ (w, t, silent)
      → complete futex size i call (w, t) ≡ (w, t)
  no_handle call e = complete_at_once call w t (ap (λ s. s.0) e) (ap (λ s. s.1) e) (ground arith)

  pub send_no_handle :
      (try : Bool) (v : T) → t.senders ≡ 0 → complete futex size i (send_call try v) (w, t) ≡ (w, t)
  unfolding step client
  send_no_handle true v absent = no_handle (call_try_send v) (ground arith)
  send_no_handle false v absent = no_handle (call_send v) (ground arith)

  pub recv_no_handle :
      (try : Bool) → t.receivers ≡ 0 → complete futex size i (recv_call try) (w, t) ≡ (w, t)
  unfolding step client
  recv_no_handle true absent = no_handle call_try_recv (ground arith)
  recv_no_handle false absent = no_handle call_recv (ground arith)

  pub drop_no_handle :
      (t.senders ≡ 0 → complete futex size i call_clone (w, t) ≡ (w, t))
      × (t.senders ≡ 0 → complete futex size i call_drop_sender (w, t) ≡ (w, t))
      × (t.receivers ≡ 0 → complete futex size i call_drop_receiver (w, t) ≡ (w, t))
  unfolding step client
  drop_no_handle = (
    λ absent. no_handle call_clone (ground arith),
    λ absent. no_handle call_drop_sender (ground arith),
    λ absent. no_handle call_drop_receiver (ground arith),
  )

-- The calls on a ring that holds `q`.
module _ {T : Type 0} (futex : AtomicWait) (size i : ℕ) (w : World T) (t : Thread T)
    (last : Outcome T) (at : t.at ≡ outside last) where
  pub clone_run :
      0 < t.senders
      → w.channel.senders_count ≤ max_sender_count
      → complete futex size i call_clone (w, t) ≡ (
        set_senders w (w.channel.senders_count + 1),
        record t { senders = t.senders + 1; at = outside cloned },
      )
  unfolding step client
  clone_run has small =
      complete_to futex size i w t w (record t { at = clone_add }) call_clone (ground arith)
        (ground arith)
      ∙ settle_to futex size i w (record t { at = clone_add })
          (set_senders w (w.channel.senders_count + 1))
          (record t { at = clone_check w.channel.senders_count }) 8 refl (ground arith) refl
      ∙ settle_to futex size i (set_senders w (w.channel.senders_count + 1))
          (record t { at = clone_check w.channel.senders_count })
          (set_senders w (w.channel.senders_count + 1))
          (record t { senders = t.senders + 1; at = outside cloned }) 7 refl (ground arith)
          (ground arith)
      ∙ settle-halted futex size i 7 (set_senders w (w.channel.senders_count + 1))
          (record t { senders = t.senders + 1; at = outside cloned }) refl

  pub drop_sender_run :
      0 < t.senders
      → 0 < w.channel.senders_count
      → w.channel.senders_count < usize_mod
      → complete futex size i call_drop_sender (w, t) ≡ (
        set_senders w (w.channel.senders_count - 1),
        record t { senders = t.senders - 1; at = outside no_call },
      )
  unfolding step client
  drop_sender_run has pos small =
      complete_to futex size i w t w (record t { at = drop_sender }) call_drop_sender (ground arith)
        (ground arith)
      ∙ settle_to futex size i w (record t { at = drop_sender })
          (set_senders w (w.channel.senders_count - 1))
          (record t { senders = t.senders - 1; at = outside no_call }) 8 refl (ground arith) refl
      ∙ settle-halted futex size i 8 (set_senders w (w.channel.senders_count - 1))
          (record t { senders = t.senders - 1; at = outside no_call }) refl

  pub drop_receiver_run :
      0 < t.receivers
      → complete futex size i call_drop_receiver (w, t)
        ≡ (set_state w 0, record t { receivers = t.receivers - 1; at = outside no_call })
  unfolding step client
  drop_receiver_run has =
      complete_to futex size i w t w (record t { at = drop_receiver }) call_drop_receiver
        (ground arith) (ground arith)
      ∙ settle_to futex size i w (record t { at = drop_receiver }) (set_state w 0)
          (record t { receivers = t.receivers - 1; at = outside no_call }) 8 refl refl refl
      ∙ settle-halted futex size i 8 (set_state w 0)
          (record t { receivers = t.receivers - 1; at = outside no_call }) refl
