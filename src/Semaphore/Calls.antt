-- ===== src/Semaphore/Calls.antt =====
-- src/semaphore.rs: calls that a thread makes undisturbed, and calls that never block.
use atomics_for_peace_and_sy.Base.{
  ℕ, ◌+◌, ◌-◌, ◌<◌, ◌≡◌, ◌⊎◌, Bool, true, false, List, [], ◌∷◌, arith, ◌==◌, if◌then◌else◌,
}
use atomics_for_peace_and_sy.Futex.{AtomicWait, alone}
use atomics_for_peace_and_sy.Semaphore.{
  Semaphore, u32_mod, Outcome, waited, signalled, returned, outside, try_load, Thread, Choice,
  call_wait, call_try_wait, call_signal, proceed, deadline_passed, client, step, step_at, program,
}

abbrev pub wait_steps : List Choice
wait_steps = call_wait ∷ proceed ∷ proceed ∷ proceed ∷ proceed ∷ []

abbrev pub signal_steps : List Choice
signal_steps = call_signal ∷ proceed ∷ proceed ∷ proceed ∷ []

abbrev pub try_steps : List Choice
try_steps = call_try_wait ∷ proceed ∷ proceed ∷ []

module _ (futex : AtomicWait) (i : ℕ) (m : Semaphore) (taken given : ℕ) (last : Outcome) where
  -- A thread that calls `wait` while `count` is positive and `num_waiting` is
  -- not about to wrap, and is not disturbed, returns after four
  -- steps with one permit taken and `num_waiting` as before, and a `signal` then restores the
  -- semaphore.
  pub wait-signal :
      0 < m.count
      → m.count < u32_mod
      → m.num_waiting + 1 < u32_mod
      → let (m1, t1) =
          alone
            (program futex)
            i
            (m, record { taken = taken; given = given; at = outside last })
            wait_steps in
        let (m2, t2) = alone (program futex) i (m1, t1) signal_steps in
        (m1 ≡ record m { count = m.count - 1 })
        × (t1 ≡ record { taken = taken + 1; given = given; at = outside waited })
        × (m2 ≡ m)
        × (t2 ≡ record { taken = taken + 1; given = given + 1; at = outside signalled })
  unfolding alone step step_at client
  wait-signal pos fits few = ground arith

  -- An undisturbed `try_wait` returns true and takes a permit exactly if there is one; otherwise it
  -- returns false and changes nothing.
  pub try_wait_run :
      alone
        (program futex)
        i
        (m, record { taken = taken; given = given; at = outside last })
        try_steps
      ≡ (if m.count == 0
          then (m, record { taken = taken; given = given; at = outside (returned false) })
          else (
            record m { count = m.count - 1 },
            record { taken = taken + 1; given = given; at = outside (returned true) },
          ))
  unfolding alone step step_at client
  try_wait_run = ground arith

-- `try_wait` never waits: whatever the other threads do to the semaphore in between, it has
-- returned after two steps of its thread, with a permit and true, or with false and no permit. So
-- does the last round of `try_wait_duration`, which looks at the clock again in place of returning
-- false and returns false once the deadline has passed.
pub try_wait_returns :
    (futex : AtomicWait) (i : ℕ) (m1 m2 m3 : Semaphore) (t : Thread) (c1 c2 : Choice) (timed : Bool)
    → t.at ≡ try_load timed
    → let t1 = (step futex i c1 m1 t).1 in
      let t2 = (step futex i c2 m2 t1).1 in
      let late = λ (t : Thread). (step futex i deadline_passed m3 t).1 in
      let refused = record t { at = outside (returned false) } in
      (t2 ≡ record t { taken = t.taken + 1; at = outside (returned true) })
      ⊎ ((if timed then late t1 else t1) ≡ refused)
      ⊎ ((if timed then late t2 else t2) ≡ refused)
unfolding step step_at client
try_wait_returns futex i m1 m2 m3 t c1 c2 true e = ground arith
try_wait_returns futex i m1 m2 m3 t c1 c2 false e = ground arith
