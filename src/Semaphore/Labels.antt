-- ===== src/Semaphore/Labels.antt =====
-- src/semaphore.rs: what a step does with the permits and what it returns, for the abstract view.
use atomics_for_peace_and_sy.Base.{
  ℕ, ◌≡◌, refl, Bool, Bool-cases, ==_iff, inl, inr, arith, ◌==◌, ◌&&◌, not, if◌then◌else◌, ap, sym,
}
use atomics_for_peace_and_sy.Threads.{System}
use atomics_for_peace_and_sy.Futex.{AtomicWait, Roused}
use atomics_for_peace_and_sy.Semaphore.{
  Semaphore, waited, signalled, returned, Pc, outside, load_count, wait_call, exchange, retire,
  try_load, try_exchange, add, load_waiting, wake, Thread, Choice, weak_fails, program, woken,
}
use atomics_for_peace_and_sy.SemaphoreSpec.{
  Progress, nothing, took, gave, Permits, Action, internal, takes, finds_none, gives, Reply,
  no_reply, waited as waited_reply, signalled as signalled_reply, answered, Move, rest,
}

-- what a load of `count` finds
abbrev pub load_action : Semaphore → Action
load_action m = if m.count == 0 then finds_none else internal

abbrev pub exchange_action : Bool → ℕ → Semaphore → Action
exchange_action fails count m = if m.count == count && not fails then takes else internal

abbrev pub action_at : AtomicWait → Choice → Semaphore → Pc → Action
action_at futex c m load_count = load_action m
action_at futex c m wait_call = if futex.blocks m.count 0 then finds_none else internal
action_at futex c m (exchange count) = exchange_action (weak_fails c) count m
action_at futex c m (try_load timed) = load_action m
action_at futex c m (try_exchange timed count) = exchange_action (weak_fails c) count m
action_at futex c m add = gives
action_at futex c m p = internal

-- What a call that ends at `p` has returned.
abbrev pub reply_at : Pc → Reply
reply_at (outside waited) = waited_reply
reply_at (outside signalled) = signalled_reply
reply_at (outside (returned b)) = answered b
reply_at p = no_reply

-- A step from `p` to `p'` returns if it leaves a call.
abbrev pub reply_of : Pc → Pc → Reply
reply_of (outside last) p' = no_reply
reply_of p p' = reply_at p'

-- What the call of a thread has done so far is told by where it stands.
abbrev pub progress_of : Thread → Progress
progress_of t = elim t.at [ retire ↦ took | load_waiting ↦ gave | wake ↦ gave | _ ↦ nothing ]

abbrev pub permits : System Semaphore Thread → Permits
permits s = record { count = s.mem.count; progress = λ j. progress_of (s.pc j) }

pub rouse-progress :
    (futex : AtomicWait) (n : ℕ) (t t' : Thread)
    → Roused futex (program futex) n t t'
    → progress_of t' ≡ progress_of t
rouse-progress futex n t t' (inl same) = rw same refl
rouse-progress futex n t t' (inr (e, (a, slept))) = rw e (woken_progress t.at refl)
  where
    woken_progress : (p : Pc) → t.at ≡ p → progress_of (woken t) ≡ progress_of t
    woken_progress p e = ground arith

pub rest_same : {limit i : ℕ} {s : Permits} → Move limit i (internal, no_reply) s s
rest_same {limit} {i} {s} = rest refl (λ j. elim (Bool-cases (i == j)) [
  | inl here ↦ rw here (ap s.progress (sym ((==_iff i j).0 here)))
  | inr other ↦ rw other refl
])
