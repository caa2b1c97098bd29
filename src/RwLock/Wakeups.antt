-- ===== src/RwLock/Wakeups.antt =====
-- src/rwlock.rs: the wake-up by which the last reader lets a waiting writer in.
use atomics_for_peace_and_sy.Base.{ℕ, ◌≡◌, ◌≢◌, arith, ◌∙◌}
use atomics_for_peace_and_sy.Threads.{System}
use atomics_for_peace_and_sy.Futex.{AtomicWait, exec, exec-other}
use atomics_for_peace_and_sy.RwLock.{
  RwLock, read_release, read_wake, write_wait, write_sleep, Thread, proceed, step, step_at, program,
}

module _ {T : Type 0} (futex : AtomicWait) (n : ℕ) (s : System (RwLock T) (Thread T)) (i j : ℕ)
    (k : ℕ) where
  -- thread `i` makes its `fetch_sub`, then its `wake_one`; then thread `j` calls `wait`
  abbrev pub released : System (RwLock T) (Thread T)
  released = exec futex (program futex) n s i proceed k

  abbrev pub signalled : System (RwLock T) (Thread T)
  signalled = exec futex (program futex) n released i proceed k

  abbrev pub missed : System (RwLock T) (Thread T)
  missed = exec futex (program futex) n signalled j proceed k

  -- The wake-up of the last reader is lost on a writer that is between its load of `writers_number`
  -- and its `wait`: the reader's `drop` leaves that number as it is, so the writer falls asleep
  -- although no reader is left, with nothing but its own mark in the word.
  pub wakeup_missed :
      {state : ℕ}
      → i ≢ j
      → (s.pc i).at ≡ read_release
      → s.mem.state ≡ 3
      → (s.pc j).at ≡ write_wait state s.mem.writers_number
      → (missed.mem.state ≡ 1) × ((missed.pc j).at ≡ write_sleep state)
  unfolding step step_at
  wakeup_missed {state} ne here three there = (
    ground (arith, again, word),
    ground (arith, again, word, futex.blocks_iff s.mem.writers_number s.mem.writers_number),
  )
    where
      still : released.pc j ≡ s.pc j
      still = exec-other futex (program futex) n s i j proceed k ne (λ a. ground arith)

      again : signalled.pc j ≡ s.pc j
      again =
          exec-other futex (program futex) n released i j proceed k ne
            (λ a. rw still (ground arith))
          ∙ still

      next : (released.pc i).at ≡ read_wake
      next = ground arith

      word : signalled.mem ≡ record s.mem { state = 1 }
      word = ground (arith, next)
