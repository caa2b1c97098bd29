-- ===== src/Condvar/Tests.antt =====
-- src/condvar.rs: two threads with a condition variable, and the theorems at what they reach.
use atomics_for_peace_and_sy.Base.{
  ℕ, zero, suc, ◌+◌, ◌≤◌, ◌<◌, ◌≡◌, refl, List, [], ◌∷◌, ◌++◌, arith,
}
use atomics_for_peace_and_sy.Threads.{System, sum_over}
use atomics_for_peace_and_sy.Futex.{run}
use atomics_for_peace_and_sy.Futex.Scanning.{scanning}
use atomics_for_peace_and_sy.Spinlock.Exclusion.{ThreadIds}
use atomics_for_peace_and_sy.MutexV1.{
  Outcome as LockOutcome, acquired, poisoned_lock, call_lock, panic, step as lock_step,
  step_at as lock_step_at, client as lock_client,
}
use atomics_for_peace_and_sy.MutexV1
use atomics_for_peace_and_sy.Condvar.{
  World, Thread, Choice, on_mutex, call_wait, call_notify_one, call_notify_all, proceed, idle,
  wait_returned, wait_sleep, client, step, step_at,
}
use atomics_for_peace_and_sy.Condvar.Locked.{fresh_world, resting, execute, wait_regains_lock}
use atomics_for_peace_and_sy.Condvar.Notifying.{telling, completed}
use atomics_for_peace_and_sy.Condvar.Notified.{notify_all_wakes, no_missed_notification}

abbrev thread_id : ℕ → ℕ
thread_id i = i + 1

thread_id-ThreadIds : ThreadIds thread_id
thread_id-ThreadIds = record { nonzero = λ i. omega arith; distinct = λ i j e. omega arith }

abbrev times : ℕ → ℕ → List (ℕ × Choice ℕ × ℕ)
times zero i = []
times (suc k) i = (i, proceed, 0) ∷ times k i

abbrev locks : ℕ → List (ℕ × Choice ℕ × ℕ)
locks i =
    (i, on_mutex call_lock, 0)
    ∷ (i, on_mutex MutexV1.proceed, 0)
    ∷ (i, on_mutex MutexV1.proceed, 0)
    ∷ (i, on_mutex MutexV1.proceed, 0)
    ∷ (i, on_mutex MutexV1.proceed, 0)
    ∷ []

-- Thread 0 takes the mutex and goes to sleep in `wait`.
abbrev waits : List (ℕ × Choice ℕ × ℕ)
waits = locks 0 ++ ((0, call_wait, 0) ∷ times 9 0)

abbrev notifies : List (ℕ × Choice ℕ × ℕ)
notifies = (1, call_notify_all, 0) ∷ times 3 1

abbrev fresh : System (World ℕ) (Thread ℕ)
fresh = record { mem = fresh_world 7; pc = λ _. resting }

abbrev result : List (ℕ × Choice ℕ × ℕ) → System (World ℕ) (Thread ℕ)
result es = execute thread_id scanning 2 7 es

waits_run : ((result waits).pc 0).at ≡ wait_sleep 0
unfolding execute run step step_at client lock_step lock_step_at lock_client
waits_run = refl

-- Thread 1 wakes it, and it has the mutex again.
abbrev woken_up : List (ℕ × Choice ℕ × ℕ)
woken_up = waits ++ notifies ++ times 6 0

wait_regains_lock_example :
    (((result woken_up).pc 0).inner.guards ≡ 1) × (((result woken_up).pc 1).inner.guards ≡ 0)
unfolding execute run step step_at client lock_step lock_step_at lock_client
wait_regains_lock_example =
    wait_regains_lock thread_id-ThreadIds scanning 2 7 woken_up 0 1 (omega arith) (omega arith)
      (omega arith) refl

-- Thread 1 takes the mutex while thread 0 sleeps, panics with its guard, and notifies.
abbrev poisons : List (ℕ × Choice ℕ × ℕ)
poisons =
    waits
    ++ locks 1
    ++ ((1, on_mutex panic, 0)
        ∷ (1, on_mutex MutexV1.proceed, 0)
        ∷ (1, on_mutex MutexV1.proceed, 0)
        ∷ (1, on_mutex MutexV1.proceed, 0)
        ∷ (1, on_mutex MutexV1.proceed, 0)
        ∷ (1, on_mutex MutexV1.proceed, 0)
        ∷ (1, on_mutex MutexV1.proceed, 0)
        ∷ (1, call_notify_one, 0)
        ∷ times 2 1)
    ++ times 12 0

woken_up_run :
    (((result woken_up).pc 0).at ≡ idle wait_returned)
    × (((result woken_up).pc 0).inner.guards ≡ 1)
    × ((result woken_up).mem.condvar.waiting ≡ 0)
unfolding execute run step step_at client lock_step lock_step_at lock_client
woken_up_run = (refl, refl, refl)

-- Thread 1 notifies before thread 0 waits.
notify_all_wakes_example : ◌<◌ 0 1
unfolding execute run step step_at client lock_step lock_step_at lock_client
notify_all_wakes_example =
    notify_all_wakes thread_id scanning 2 7 (notifies ++ waits) 1 0 0 1 (omega arith) (omega arith)
      (omega arith) (omega arith) refl refl

no_missed_notification_example :
    completed thread_id scanning 2 fresh notifies + sum_over telling 2 (result notifies).pc ≤ 1
unfolding execute run step step_at client lock_step lock_step_at lock_client
no_missed_notification_example =
    no_missed_notification thread_id scanning 2 7 notifies waits 0 1 (omega arith) (omega arith)
      refl refl

-- The call of `notify_all` has returned before thread 0 waits.
notifies_run : completed thread_id scanning 2 fresh notifies ≡ 1
unfolding completed step step_at client lock_step lock_step_at lock_client
notifies_run = refl
