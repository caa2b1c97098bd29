-- ===== src/RwLock/Stuck.antt =====
-- src/rwlock.rs: calls of `read` and `write` that never return. Their loops use a copy of the word
-- that they read before, and do not read the word again after a wait.
use atomics_for_peace_and_sy.Base.{ℕ, ◌%◌, ◌<◌, ◌≡◌, refl, ◌≢◌, true, List, arith, subst, sym}
use atomics_for_peace_and_sy.Threads.{System}
use atomics_for_peace_and_sy.Futex.{AtomicWait, run, Only-any, exec}
use atomics_for_peace_and_sy.Futex.Everywhere.{run-All}
use atomics_for_peace_and_sy.RwLock.{
  RwLock, Outcome, Pc, outside, read_load, read_block, read_block_sleep, write_load, write_announce,
  write_count, write_wait, write_sleep, write_retire, Thread, Choice, step, step_at, asleep, woken,
  program, u32_max,
}

-- In the `else` branch of `read`, with u32::MAX in the local `state`.
abbrev pub BlockedReader : {T : Type 0} → Pc T → Type 0
BlockedReader (read_block s) = s ≡ u32_max
BlockedReader (read_block_sleep s) = s ≡ u32_max
BlockedReader p = ⊥

-- In the waiting part of `write`, with an odd number above 1 in the local `state`.
abbrev pub BlockedWriter : {T : Type 0} → Pc T → Type 0
BlockedWriter (write_announce s) = (1 < s) × (s % 2 ≡ 1)
BlockedWriter (write_count s) = (1 < s) × (s % 2 ≡ 1)
BlockedWriter (write_wait s wc) = (1 < s) × (s % 2 ≡ 1)
BlockedWriter (write_sleep s) = (1 < s) × (s % 2 ≡ 1)
BlockedWriter (write_retire s) = (1 < s) × (s % 2 ≡ 1)
BlockedWriter p = ⊥

module _ {T : Type 0} (futex : AtomicWait) where
  step-BlockedReader :
      (c : Choice T) (m : RwLock T) (t : Thread T) (p : Pc T)
      → BlockedReader p
      → BlockedReader (step_at futex c m t p).1.at
  unfolding step_at
  step-BlockedReader c m t (read_block s) h = ground arith
  step-BlockedReader c m t p h = ground arith

  step-BlockedWriter :
      (c : Choice T) (m : RwLock T) (t : Thread T) (p : Pc T)
      → BlockedWriter p
      → BlockedWriter (step_at futex c m t p).1.at
  unfolding step_at
  step-BlockedWriter c m t (write_count s) h = ground arith
  step-BlockedWriter c m t p h = ground arith

  wake-BlockedReader :
      (a : ℕ) (t : Thread T) (p : Pc T)
      → t.at ≡ p
      → asleep a t ≡ true
      → BlockedReader t.at
      → BlockedReader (woken t).at
  wake-BlockedReader a t (read_block s) e slept h = ground arith
  wake-BlockedReader a t p e slept h = ground arith

  wake-BlockedWriter :
      (a : ℕ) (t : Thread T) (p : Pc T)
      → t.at ≡ p
      → asleep a t ≡ true
      → BlockedWriter t.at
      → BlockedWriter (woken t).at
  wake-BlockedWriter a t (write_count s) e slept h = ground arith
  wake-BlockedWriter a t p e slept h = ground arith

  module _ (n : ℕ) (s : System (RwLock T) (Thread T)) (es : List (ℕ × Choice T × ℕ)) (j : ℕ) where
    -- what holds of thread `j` alone, whatever the schedule
    abbrev ever : System (RwLock T) (Thread T)
    ever = run futex (program futex) n s es

    BlockedReader-run : BlockedReader (s.pc j).at → BlockedReader (ever.pc j).at
    unfolding step
    BlockedReader-run h =
        (run-All futex (program futex) n (λ c. Unit) (λ m. Unit) (λ i t. i ≡ j → BlockedReader t.at)
            (λ i c m t ok hm ht. (tt, λ e. step-BlockedReader c m t t.at (ht e)))
            (λ a i t slept ht e. wake-BlockedReader a t t.at refl slept (ht e)) s es
            (Only-any futex (program futex) n es) tt
            (λ i e. subst (λ k. BlockedReader (s.pc k).at) (sym e) h)).1
          j refl

    BlockedWriter-run : BlockedWriter (s.pc j).at → BlockedWriter (ever.pc j).at
    unfolding step
    BlockedWriter-run h =
        (run-All futex (program futex) n (λ c. Unit) (λ m. Unit) (λ i t. i ≡ j → BlockedWriter t.at)
            (λ i c m t ok hm ht. (tt, λ e. step-BlockedWriter c m t t.at (ht e)))
            (λ a i t slept ht e. wake-BlockedWriter a t t.at refl slept (ht e)) s es
            (Only-any futex (program futex) n es) tt
            (λ i e. subst (λ k. BlockedWriter (s.pc k).at) (sym e) h)).1
          j refl

  BlockedReader-ne : (p : Pc T) (o : Outcome) → BlockedReader p → p ≢ outside o
  BlockedReader-ne (outside last) o h = absurd h
  BlockedReader-ne p o h = λ e. cc

  BlockedWriter-ne : (p : Pc T) (o : Outcome) → BlockedWriter p → p ≢ outside o
  BlockedWriter-ne (outside last) o h = absurd h
  BlockedWriter-ne p o h = λ e. cc

  module _ (n : ℕ) (s : System (RwLock T) (Thread T)) (j : ℕ) (lt : j < n) (c : Choice T) (k : ℕ)
      (es : List (ℕ × Choice T × ℕ)) where
    -- what becomes of thread `j` after its next step, whatever the others do
    abbrev finally : Thread T
    finally = (run futex (program futex) n (exec futex (program futex) n s j c k) es).pc j

    -- A `read` whose load finds the lock held by a writer never returns: not when the writer
    -- unlocks, not for any schedule and any wake-ups.
    pub read_never_returns :
        (s.pc j).at ≡ read_load → s.mem.state ≡ u32_max → (o : Outcome) → finally.at ≢ outside o
    unfolding step step_at
    read_never_returns e held o =
        BlockedReader-ne finally.at o
          (BlockedReader-run n (exec futex (program futex) n s j c k) es j (ground arith))

    -- A `write` whose load finds a writer, or readers and the mark of a waiting writer, never
    -- returns, whatever the other threads do.
    pub write_never_returns :
        (s.pc j).at ≡ write_load
        → 1 < s.mem.state
        → s.mem.state % 2 ≡ 1
        → (o : Outcome) → finally.at ≢ outside o
    unfolding step step_at
    write_never_returns e more odd o =
        BlockedWriter-ne finally.at o
          (BlockedWriter-run n (exec futex (program futex) n s j c k) es j (ground arith))
