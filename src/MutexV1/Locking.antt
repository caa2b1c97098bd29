-- ===== src/MutexV1/Locking.antt =====
-- src/mutex_v1.rs: a call of `lock` or `unlock` from its start to its end, in any interleaving.
use atomics_for_peace_and_sy.Base.{ℕ, ◌<◌, ◌≡◌, ◌⊎◌, true, false, List, [], ◌∷◌, arith}
use atomics_for_peace_and_sy.Spinlock.Exclusion.{ThreadIds}
use atomics_for_peace_and_sy.MutexV1.{
  Mutex, acquired, poisoned_lock, Pc, outside, check, spin, exchange, enqueue_load,
  enqueue_exchange, enqueue_push, enqueue_release, park, enter, leave, leave_store, dequeue_load,
  dequeue_exchange, dequeue_pop, dequeue_release, unpark, Thread, Choice, call_lock, unlock, panic,
  client, step, step_at, pop_queue, in_call,
}
use atomics_for_peace_and_sy.MutexV1.Exclusion.{Inv, owner-holders}

-- The thread gives its guard back, or has done so.
abbrev pub Unlocking : {T : Type 0} → Thread T → Type 0
Unlocking t = elim t.at [
  | outside last ↦ t.guards ≡ 0
  | leave panicking ↦ t.guards ≡ 1
  | leave_store ↦ t.guards ≡ 1
  | dequeue_load ↦ t.guards ≡ 0
  | dequeue_exchange ↦ t.guards ≡ 0
  | dequeue_pop ↦ t.guards ≡ 0
  | dequeue_release popped ↦ t.guards ≡ 0
  | unpark j ↦ t.guards ≡ 0
  | _ ↦ ⊥
]

-- The thread is in `lock`, or has returned from it with a guard.
abbrev pub Locking : {T : Type 0} → Thread T → Type 0
Locking t = elim t.at [
  | outside last ↦ ((last ≡ acquired) ⊎ (last ≡ poisoned_lock)) × (t.guards ≡ 1)
  | check try ↦ (try ≡ false) × (t.guards ≡ 0)
  | spin counter ↦ t.guards ≡ 0
  | exchange counter ↦ t.guards ≡ 0
  | enqueue_load ↦ t.guards ≡ 0
  | enqueue_exchange ↦ t.guards ≡ 0
  | enqueue_push ↦ t.guards ≡ 0
  | enqueue_release ↦ t.guards ≡ 0
  | park ↦ t.guards ≡ 0
  | enter ↦ t.guards ≡ 0
  | _ ↦ ⊥
]

module _ {T : Type 0} (thread_id : ℕ → ℕ) (i : ℕ) (m : Mutex T) (t : Thread T) where
  -- A client with a guard gives it back.
  pub start-Unlocking :
      (c : Choice T) (p : Pc T)
      → t.at ≡ p
      → (c ≡ unlock) ⊎ (c ≡ panic)
      → in_call p ≡ false
      → t.guards ≡ 1
      → let next = (step thread_id i c m t).1 in Unlocking next × (in_call next.at ≡ true)
  unfolding step step_at client
  start-Unlocking c p e call out has = ground arith

  pub step-Unlocking :
      (c : Choice T) (p : Pc T)
      → t.at ≡ p
      → in_call p ≡ true
      → Unlocking t
      → Unlocking (step thread_id i c m t).1
  unfolding step step_at
  step-Unlocking c dequeue_pop e busy h = rw e (popped m.queue)
    where
      popped : (q : List ℕ) → Unlocking (pop_queue m t q).1
      popped [] = ground arith
      popped (j ∷ q) = ground arith
  step-Unlocking c p e busy h = ground arith

  pub start-Locking :
      (p : Pc T)
      → t.at ≡ p
      → in_call p ≡ false
      → t.guards ≡ 0
      → let next = (step thread_id i call_lock m t).1 in Locking next × (in_call next.at ≡ true)
  unfolding step step_at client
  start-Locking p e out none = ground arith

module _ {T : Type 0} {thread_id : ℕ → ℕ} (ids : ThreadIds thread_id) {n : ℕ} {m : Mutex T}
    {pc : ℕ → Thread T} (inv : Inv thread_id n m pc) (i : ℕ) (lt : i < n) where
  -- `lock` finds its own identifier in the word only with a guard, so it never returns `WouldBlock`
  -- to a thread without one.
  pub step-Locking :
      (c : Choice T) (p : Pc T)
      → (pc i).at ≡ p
      → in_call p ≡ true
      → Locking (pc i)
      → Locking (step thread_id i c m (pc i)).1
  unfolding step step_at
  step-Locking c p e busy h = ground (arith, owner-holders ids inv i lt c)
