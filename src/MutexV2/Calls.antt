-- ===== src/MutexV2/Calls.antt =====
-- src/mutex_v2.rs: calls that a thread makes undisturbed, and calls that never block.
use atomics_for_peace_and_sy.Base.{
  ℕ, ◌+◌, ◌≡◌, ◌⊎◌, Bool, true, false, List, [], ◌∷◌, arith, if◌then◌else◌,
}
use atomics_for_peace_and_sy.ThreadLocal.{contains, contains-insert, remove-insert}
use atomics_for_peace_and_sy.Futex.{AtomicWait, alone}
use atomics_for_peace_and_sy.MutexV2.{
  Mutex, Outcome, no_call, acquired, would_block, poisoned_lock, outside, check, Thread, Choice,
  call_lock, call_try_lock, unlock, proceed, step, step_at, client, program,
}

-- a thread without a guard, between calls
abbrev pub free_thread : {T : Type 0} → List ℕ → Outcome → Thread T
free_thread ids last = record { acquired_ids = ids; guards = 0; at = outside last }

-- a call with the two or three steps that it takes if nothing disturbs it
abbrev pub lock_steps : {T : Type 0} → Choice T → List (Choice T)
lock_steps call = call ∷ proceed ∷ proceed ∷ proceed ∷ []

abbrev pub unlock_steps : {T : Type 0} → List (Choice T)
unlock_steps = unlock ∷ proceed ∷ proceed ∷ []

module _ {T : Type 0} (futex : AtomicWait) where
  -- A thread without the mutex that calls `lock` or `try_lock` on an unlocked mutex and is not
  -- disturbed gets a guard, with `Poisoned` exactly if the mutex is poisoned, and `unlock` then
  -- leaves the mutex and the thread's set as they were.
  pub lock-unlock :
      (i : ℕ) (m : Mutex T) (ids : List ℕ) (last : Outcome) (try : Bool)
      → m.state ≡ 0
      → contains ids m.mutex_id ≡ false
      → let (m1, t1) =
          alone
            (program futex)
            i
            (m, free_thread ids last)
            (lock_steps (if try then call_try_lock else call_lock)) in
        let (m2, t2) = alone (program futex) i (m1, t1) unlock_steps in
        (m1.state ≡ 1)
        × (t1.guards ≡ 1)
        × (t1.at ≡ outside (if m.poisoned then poisoned_lock else acquired))
        × (m2 ≡ m)
        × (t2 ≡ free_thread ids no_call)
  unfolding alone step step_at client
  lock-unlock i m ids last true free absent =
      ground (arith, contains-insert ids m.mutex_id, remove-insert ids m.mutex_id)
  lock-unlock i m ids last false free absent =
      ground (arith, contains-insert ids m.mutex_id, remove-insert ids m.mutex_id)

  -- `try_lock` never waits: whatever the other threads do to the mutex in between, the call has
  -- returned after three steps of its thread, with a guard, or with `WouldBlock` and no new guard.
  pub try_lock_returns :
      (i : ℕ) (m1 m2 m3 : Mutex T) (t : Thread T) (c1 c2 c3 : Choice T)
      → t.at ≡ check true
      → let t1 = (step futex i c1 m1 t).1 in
        let t2 = (step futex i c2 m2 t1).1 in
        let t3 = (step futex i c3 m3 t2).1 in
        ((t1.at ≡ outside would_block) × (t1.guards ≡ t.guards))
        ⊎ ((t2.at ≡ outside would_block) × (t2.guards ≡ t.guards))
        ⊎ (((t3.at ≡ outside acquired) ⊎ (t3.at ≡ outside poisoned_lock))
            × (t3.guards ≡ t.guards + 1))
  unfolding step step_at
  try_lock_returns i m1 m2 m3 t c1 c2 c3 e = ground arith
