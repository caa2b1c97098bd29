-- ===== src/RwLock/Tests.antt =====
-- src/rwlock.rs: readers and writers that meet, and the theorems at what they reach.
use atomics_for_peace_and_sy.Base.{
  ℕ, zero, suc, ◌≡◌, ◌≤◌, refl, ◌≢◌, ◌⊎◌, true, List, [], ◌∷◌, ◌++◌, arith,
}
use atomics_for_peace_and_sy.Threads.{System}
use atomics_for_peace_and_sy.ThreadLocal.{contains, insert, remove}
use atomics_for_peace_and_sy.Futex.{run, exec}
use atomics_for_peace_and_sy.Futex.Scanning.{scanning}
use atomics_for_peace_and_sy.RwLock.{
  RwLock, new, acquired_read, would_block, too_many_readers, poisoned_write, outside, write_sleep,
  Thread, Choice, call_read, call_write, call_try_read, unlock_read, unlock_write, proceed, step,
  program, u32_max,
}
use atomics_for_peace_and_sy.RwLock.Exclusion.{execute, writer_excludes}
use atomics_for_peace_and_sy.RwLock.Inv.{max_threads}
use atomics_for_peace_and_sy.RwLock.Refines.{rwlock, start, lock_of, rwlock_refines}
use atomics_for_peace_and_sy.RwLockSpec.{Move, shared}
use atomics_for_peace_and_sy.Simulation.{Trace, history}
use atomics_for_peace_and_sy.RwLock.Stuck.{read_never_returns}
use atomics_for_peace_and_sy.RwLock.Wakeups.{missed, wakeup_missed}
use atomics_for_peace_and_sy.RwLock.Calls.{try_check, try_returns}

abbrev times : ℕ → ℕ → Choice ℕ → List (ℕ × Choice ℕ × ℕ)
times zero i c = []
times (suc k) i c = (i, c, 0) ∷ times k i c

-- thread `i` makes a call and three or four more steps
abbrev calls : ℕ → Choice ℕ → List (ℕ × Choice ℕ × ℕ)
calls i call = (i, call, 0) ∷ times 4 i proceed

abbrev result : List (ℕ × Choice ℕ × ℕ) → System (RwLock ℕ) (Thread ℕ)
result es = execute scanning 3 (new 5 7) es

abbrev two_readers : List (ℕ × Choice ℕ × ℕ)
two_readers = calls 0 call_read ++ calls 1 call_try_read

abbrev one_writer : List (ℕ × Choice ℕ × ℕ)
one_writer = calls 0 call_write

-- Thread 0 reads, and thread 1 marks the word and is about to wait when thread 0 drops its guard.
abbrev waiting_writer : List (ℕ × Choice ℕ × ℕ)
waiting_writer =
    calls 0 call_read
    ++ ((1, call_write, 0) ∷ times 5 1 proceed)
    ++ ((0, unlock_read, 0) ∷ times 1 0 proceed)

two_readers_run :
    ((result two_readers).mem.state ≡ 4)
    × (((result two_readers).pc 0).reads ≡ 1)
    × (((result two_readers).pc 1).at ≡ outside acquired_read)
unfolding execute run step insert contains remove
two_readers_run = (refl, refl, refl)

one_writer_run :
    ((result (one_writer ++ calls 1 call_try_read)).mem.state ≡ u32_max)
    × (((result (one_writer ++ calls 1 call_try_read)).pc 1).at ≡ outside would_block)
unfolding execute run step insert contains remove
one_writer_run = (refl, refl)

writer_excludes_example :
    ◌≡◌ {A = ℕ} 0 0
    × (((result one_writer).pc 0).writes ≡ 1)
    × (((result one_writer).pc 0).reads ≡ 0)
unfolding execute run step insert contains remove
writer_excludes_example =
    writer_excludes scanning 3 5 7 one_writer (omega arith) 0 0 (omega arith) (omega arith)
      (omega arith) (omega arith)

-- thread 1 calls `read` while thread 0 writes
abbrev late_reader : List (ℕ × Choice ℕ × ℕ)
late_reader = one_writer ++ ((1, call_read, 0) ∷ (1, proceed, 0) ∷ [])

-- what follows: thread 0 unlocks, and thread 1 runs on
abbrev release : List (ℕ × Choice ℕ × ℕ)
release = (0, unlock_write, 0) ∷ (times 5 0 proceed ++ times 9 1 proceed)

read_never_returns_example :
    ((run scanning
        (program scanning)
        3
        (exec scanning (program scanning) 3 (result late_reader) 1 proceed 0)
        release).pc
      1).at
    ≢ outside acquired_read
unfolding execute run step insert contains remove
read_never_returns_example =
    read_never_returns scanning 3 (result late_reader) 1 (omega arith) proceed 0 release refl refl
      acquired_read

abbrev late_writer : List (ℕ × Choice ℕ × ℕ)
late_writer = one_writer ++ ((1, call_write, 0) ∷ (1, proceed, 0) ∷ [])

wakeup_missed_example :
    ((missed scanning 3 (result waiting_writer) 0 1 0).mem.state ≡ 1)
    × (((missed scanning 3 (result waiting_writer) 0 1 0).pc 1).at ≡ write_sleep 2)
unfolding execute run step insert contains remove
wakeup_missed_example =
    wakeup_missed scanning 3 (result waiting_writer) 0 1 0 (omega arith) refl refl refl

abbrev idle_lock : RwLock ℕ
idle_lock = record (new 5 7) { poisoned = true }

abbrev trying : Thread ℕ
trying = record { acquired_ids = []; reads = 0; writes = 0; at = try_check true }

try_returns_example :
    let t1 = (step scanning 0 proceed idle_lock trying).1 in
    let t2 = (step scanning 0 proceed idle_lock t1).1 in
    let t3 = (step scanning 0 proceed idle_lock t2).1 in
    let t4 = (step scanning 0 proceed idle_lock t3).1 in
    (t1.at ≡ outside would_block)
    ⊎ (t2.at ≡ outside would_block)
    ⊎ (t2.at ≡ outside too_many_readers)
    ⊎ (t3.at ≡ outside would_block)
    ⊎ ((t4.reads ≡ 0) × (t4.writes ≡ 1) × (t4.at ≡ outside poisoned_write))
try_returns_example =
    try_returns scanning 0 idle_lock idle_lock idle_lock idle_lock trying proceed proceed proceed
      proceed true refl

few_threads : 3 ≤ max_threads
few_threads = omega arith

rwlock_refines_example :
    Trace Move
      (history (rwlock scanning 3 few_threads) (start 5 7) two_readers)
      (shared 0 7)
      (lock_of (result two_readers).mem)
rwlock_refines_example = rwlock_refines scanning 3 few_threads 5 7 two_readers

-- what the lock stands for while two threads read
two_readers-lock_of : lock_of (result two_readers).mem ≡ shared 2 7
unfolding execute run step insert contains remove
two_readers-lock_of = refl
