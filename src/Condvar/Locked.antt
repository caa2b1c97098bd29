-- ===== src/Condvar/Locked.antt =====
-- src/condvar.rs with src/mutex_v1.rs: the invariant of the mutex holds while its threads wait and
-- notify, and `wait` gives the guard back and takes it again.
use mathlib.Core.Path.{fun_ext}
use atomics_for_peace_and_sy.Base.{
  Bool-cases, ℕ, ◌<◌, ◌≡◌, ◌≢◌, refl, sym, subst, inl, inr, Option, none, some, List, arith, ◌==◌,
  ==_iff,
}
use atomics_for_peace_and_sy.Threads.{System, update, add-le-sum_over}
use atomics_for_peace_and_sy.Futex.{AtomicWait, exec, run, run-keeps, Roused, deliver-Roused}
use atomics_for_peace_and_sy.Spinlock.Exclusion.{ThreadIds}
use atomics_for_peace_and_sy.MutexV1.{
  Mutex, Outcome as LockOutcome, acquired, poisoned_lock, Pc as LockPc, Thread as LockThread,
  Choice as LockChoice, call_lock, unlock, panic, step as lock_step, in_call,
}
use atomics_for_peace_and_sy.MutexV1
use atomics_for_peace_and_sy.MutexV1.Exclusion.{Inv, step-Inv, init-Inv, fresh_thread, holders}
use atomics_for_peace_and_sy.MutexV1.Locking.{
  start-Unlocking, step-Unlocking, start-Locking, step-Locking,
}
use atomics_for_peace_and_sy.Condvar.{
  World, new, no_call, wait_returned, wait_panicked, Pc, idle, wait_add, wait_unlock, wait_sleep,
  wait_sub, wait_lock, wait_unwrap, wait_unwind, Thread, Choice, Next, client, step, step_at,
  inner_choice, program,
}
use atomics_for_peace_and_sy.Condvar.Places.{
  Place, Inside, mutex_choice, unlocked_Place, unwound_Place, locked_Place, woken_Place,
}

module _ {T : Type 0} {thread_id : ℕ → ℕ} (ids : ThreadIds thread_id) (futex : AtomicWait)
    {n : ℕ} where
  module _ {w : World T} {pc : ℕ → Thread T} (inv : Inside thread_id n w pc) (i : ℕ) (lt : i < n)
      (c : Choice T) where
    abbrev after : Pc → Next T
    after p = step_at thread_id futex i c w (pc i) p

    -- what the mutex's own step makes of it and of the thread
    abbrev mutex_next : Option (LockChoice T) → Mutex T × LockThread T
    mutex_next none = (w.mutex, (pc i).inner)
    mutex_next (some d) = lock_step thread_id i d w.mutex (pc i).inner

    -- A step makes at most one step of the mutex.
    mutex_moved : (p : Pc) → ((after p).0.mutex, (after p).1.inner) ≡ mutex_next (mutex_choice c p)
    unfolding step_at client
    mutex_moved (idle last) = ground arith
    mutex_moved p = ground arith

    mutex_next-Inv :
        (o : Option (LockChoice T))
        → Inv thread_id n (mutex_next o).0 (update (λ j. (pc j).inner) i (mutex_next o).1)
    mutex_next-Inv none =
        subst (Inv thread_id n w.mutex) (fun_ext (λ j. ground (arith, ==_iff i j))) inv.lock
    mutex_next-Inv (some d) =
        step-Inv ids (record { mem = w.mutex; pc = λ j. (pc j).inner }) i d lt inv.lock

    move-lock :
        (p : Pc) → Inv thread_id n (after p).0.mutex (λ j. (update pc i (after p).1 j).inner)
    move-lock p =
        subst (λ f. Inv thread_id n (after p).0.mutex f)
          (fun_ext (λ j. elim (Bool-cases (i == j)) [
            | inl here ↦ rw here refl
            | inr other ↦ rw other refl
          ]))
          (subst (λ x. Inv thread_id n x.0 (update (λ j. (pc j).inner) i x.1)) (sym (mutex_moved p))
            (mutex_next-Inv (mutex_choice c p)))

    move_self : (p : Pc) → (pc i).at ≡ p → Place (after p).1.inner (after p).1.at
    unfolding step_at client
    move_self (idle last) e = ground (arith, inv.each i, inv.lock.each i)
    move_self (wait_add state) e =
        unlocked_Place state _
          (start-Unlocking thread_id i w.mutex (pc i).inner unlock (pc i).inner.at refl (inl refl)
            (ground (arith, inv.each i)) (ground (arith, inv.each i))).0
    move_self (wait_unlock state) e = unlocked_Place state _ (
        step-Unlocking thread_id i w.mutex (pc i).inner (inner_choice c) (pc i).inner.at refl
          (ground (arith, inv.each i)) (ground (arith, inv.each i)))
    move_self wait_sub e =
        locked_Place _ _ refl
          (start-Locking thread_id i w.mutex (pc i).inner (pc i).inner.at refl
            (ground (arith, inv.each i)) (ground (arith, inv.each i))).0
    move_self wait_lock e = locked_Place _ _ refl (
        step-Locking ids inv.lock i lt (inner_choice c) (pc i).inner.at refl
          (ground (arith, inv.each i)) (ground (arith, inv.each i)))
    move_self (wait_unwrap poisoned_lock) e =
        unwound_Place _
          (start-Unlocking thread_id i w.mutex (pc i).inner panic (pc i).inner.at refl (inr refl)
            (ground (arith, inv.each i)) (ground (arith, inv.each i))).0
    move_self wait_unwind e = unwound_Place _ (
        step-Unlocking thread_id i w.mutex (pc i).inner (inner_choice c) (pc i).inner.at refl
          (ground (arith, inv.each i)) (ground (arith, inv.each i)))
    move_self p e = ground (arith, inv.each i)

    move-Inside :
        (p : Pc) → (pc i).at ≡ p → Inside thread_id n (after p).0 (update pc i (after p).1)
    move-Inside p e = record {
      lock = move-lock p;
      each = λ j lj. elim (Bool-cases (i == j)) [
        | inl here ↦ rw here (move_self p e)
        | inr other ↦ rw other (inv.each j lj)
      ];
    }

  wake-Inside :
      (w : World T) (pc pc' : ℕ → Thread T)
      → ((j : ℕ) → Roused futex (program thread_id futex) n (pc j) (pc' j))
      → Inside thread_id n w pc
      → Inside thread_id n w pc'
  wake-Inside w pc pc' kept inv = record {
    lock =
        subst (Inv thread_id n w.mutex)
          (fun_ext (λ j. elim (kept j) [ inl same ↦ rw same refl | inr (e, slept) ↦ rw e refl ]))
          inv.lock;
    each = λ j lj. elim (kept j) [
      | inl same ↦ rw same (inv.each j lj)
      | inr (e, (a, slept)) ↦ rw e (woken_Place a (pc j) (pc j).at refl slept (inv.each j lj))
    ];
  }

  pub step-Inside :
      (s : System (World T) (Thread T)) (i : ℕ) (c : Choice T) (k : ℕ)
      → i < n
      → Inside thread_id n s.mem s.pc
      → let t = exec futex (program thread_id futex) n s i c k in Inside thread_id n t.mem t.pc
  unfolding step
  step-Inside s i c k lt inv =
      wake-Inside w' pc' _ (λ j. deliver-Roused futex (program thread_id futex) n pc' k next.2 j)
        moved
    where
      next : Next T
      next = step_at thread_id futex i c s.mem (s.pc i) (s.pc i).at

      w' : World T
      w' = next.0

      pc' : ℕ → Thread T
      pc' = update s.pc i next.1

      moved : Inside thread_id n w' pc'
      moved = move-Inside inv i lt c (s.pc i).at refl

abbrev pub fresh_world : {T : Type 0} → T → World T
fresh_world d = record { condvar = new; mutex = MutexV1.new d }

abbrev pub resting : {T : Type 0} → Thread T
resting = record { inner = fresh_thread; at = idle no_call }

-- A new condition variable and a new mutex in use by `n` threads.
unfoldable pub execute :
    {T : Type 0}
    → (ℕ → ℕ)
    → AtomicWait
    → ℕ
    → T
    → List (ℕ × Choice T × ℕ)
    → System (World T) (Thread T)
execute thread_id futex n d es =
    run futex (program thread_id futex) n (record { mem = fresh_world d; pc = λ _. resting }) es

module _ {T : Type 0} {thread_id : ℕ → ℕ} (ids : ThreadIds thread_id) (futex : AtomicWait) (n : ℕ)
    (d : T) (es : List (ℕ × Choice T × ℕ)) where
  -- the state that the schedule reaches
  abbrev pub reached : System (World T) (Thread T)
  reached = execute thread_id futex n d es

  reached-Inside : Inside thread_id n reached.mem reached.pc
  unfolding execute
  reached-Inside =
      run-keeps futex (program thread_id futex) n (λ s. Inside thread_id n s.mem s.pc)
        (λ s i c k lt inv. step-Inside ids futex s i c k lt inv) _ es
        (record { lock = init-Inv thread_id n d; each = λ i lt. tt })

  -- However threads lock, wait and notify, with distinct identifiers that are not 0: a thread whose
  -- `wait` has just returned has exactly one guard of the mutex, and no other thread has one.
  pub wait_regains_lock :
      (i j : ℕ)
      → i < n
      → j < n
      → i ≢ j
      → (reached.pc i).at ≡ idle wait_returned
      → ((reached.pc i).inner.guards ≡ 1) × ((reached.pc j).inner.guards ≡ 0)
  wait_regains_lock i j lt lj ne e = ground (
    arith,
    reached-Inside.each i,
    reached-Inside.lock.count,
    add-le-sum_over holders n (λ j. (reached.pc j).inner) i j,
  )

  -- A thread that sleeps in `wait` has no guard.
  pub sleeper-guards :
      (i state : ℕ) → i < n → (reached.pc i).at ≡ wait_sleep state → (reached.pc i).inner.guards ≡ 0
  sleeper-guards i state lt e = ground (arith, reached-Inside.each i)

  -- However threads lock, wait and notify, with distinct identifiers that are not 0: a `wait` panics
  -- only because the mutex is poisoned, never on `WouldBlock`, and when it has, its thread has no
  -- guard left.
  pub wait_panics_poisoned :
      (i : ℕ) (o : LockOutcome)
      → i < n
      → (reached.pc i).at ≡ idle (wait_panicked o)
      → (o ≡ poisoned_lock) × ((reached.pc i).inner.guards ≡ 0)
  wait_panics_poisoned i o lt e = ground (arith, reached-Inside.each i)
