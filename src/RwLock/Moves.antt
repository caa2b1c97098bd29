-- ===== src/RwLock/Moves.antt =====
-- src/rwlock.rs: every step of every thread keeps the invariant of the read-write lock.
use atomics_for_peace_and_sy.Base.{ℕ, ◌≤◌, ◌<◌, ◌≡◌, refl, ◌≢◌, inl, inr, arith, ◌==◌, Bool-cases}
use atomics_for_peace_and_sy.Threads.{
  System, update, sum_over, sum_over-update, add-le-sum_over, le-sum_over, sum_over-le_below,
}
use atomics_for_peace_and_sy.Futex.{AtomicWait, exec, deliver-keeps}
use atomics_for_peace_and_sy.ThreadLocal.{contains-insert, contains-remove}
use atomics_for_peace_and_sy.RwLock.{
  RwLock, Pc, outside, read_enter, Thread, Choice, Next, step, step_at, program,
}
use atomics_for_peace_and_sy.RwLock.Inv.{
  readers, writers, Local, Word, Inv, max_threads, wake_one-Inv, wake_all-Inv,
}

module _ {T : Type 0} {n : ℕ} (few : n ≤ max_threads) where
  Local-readers : {m : RwLock T} (t : Thread T) (p : Pc T) → t.at ≡ p → Local m t → readers t ≤ 1
  Local-readers t read_enter e h = ground (arith, h)
  Local-readers t p e h = ground (arith, h)

  pub readers-le :
      {m : RwLock T} (pc : ℕ → Thread T)
      → ((i : ℕ) → i < n → Local m (pc i))
      → sum_over readers n pc ≤ n
  readers-le pc each =
      sum_over-le_below readers n pc (λ i lt. Local-readers (pc i) (pc i).at refl (each i lt))

  module _ {m : RwLock T} {pc : ℕ → Thread T} (futex : AtomicWait) (inv : Inv n m pc) (i : ℕ)
      (lt : i < n) (c : Choice T) where
    open inv use {word, each}

    -- the step of thread `i` from place `p`
    abbrev after : Pc T → Next T
    after p = step_at futex c m (pc i) p

    move_self : (p : Pc T) → (pc i).at ≡ p → Local (after p).0 (after p).1
    unfolding step_at
    move_self (outside last) e = ground (arith, each i)
    move_self p e = ground (
      arith,
      word,
      readers-le pc each,
      each i,
      contains-insert (pc i).acquired_ids m.rwlock_id,
      contains-remove (pc i).acquired_ids m.rwlock_id,
    )

    move-other : (p : Pc T) → (pc i).at ≡ p → (j : ℕ) → j < n → i ≢ j → Local (after p).0 (pc j)
    unfolding step_at
    move-other (outside last) e j lj ne = ground (
      arith,
      word,
      each i,
      each j,
      add-le-sum_over writers n pc i j,
      le-sum_over writers n pc i,
      le-sum_over readers n pc j,
    )
    move-other p e j lj ne = ground (
      arith,
      word,
      each i,
      each j,
      add-le-sum_over writers n pc i j,
      le-sum_over writers n pc i,
      le-sum_over readers n pc j,
    )

    move-each :
        (p : Pc T) → (pc i).at ≡ p → (j : ℕ) → j < n → Local (after p).0 (update pc i (after p).1 j)
    move-each p e j lj = elim (Bool-cases (i == j)) [
      | inl same ↦ rw same (move_self p e)
      | inr other ↦ rw other (move-other p e j lj (ground arith))
    ]

    move-Word :
        (p : Pc T)
        → (pc i).at ≡ p
        → let pc' = update pc i (after p).1 in
          Word (after p).0.state (sum_over readers n pc') (sum_over writers n pc')
    unfolding step_at
    move-Word (outside last) e = ground (
      arith,
      word,
      each i,
      sum_over-update readers n pc i (after (outside last)).1,
      sum_over-update writers n pc i (after (outside last)).1,
    )
    move-Word p e = ground (
      arith,
      word,
      each i,
      le-sum_over readers n pc i,
      le-sum_over writers n pc i,
      readers-le pc each,
      sum_over-update readers n pc i (after p).1,
      sum_over-update writers n pc i (after p).1,
    )

  pub step-Inv :
      (futex : AtomicWait) (s : System (RwLock T) (Thread T)) (i : ℕ) (c : Choice T) (k : ℕ)
      → i < n
      → Inv n s.mem s.pc
      → let t = exec futex (program futex) n s i c k in Inv n t.mem t.pc
  unfolding step
  step-Inv futex s i c k lt inv =
      deliver-keeps futex (program futex) n (Inv n m') pc' k (after futex inv i lt c p).2
        (λ quiet. moved) (λ a call nobody. moved)
        (λ a j call lj slept. wake_one-Inv n m' pc' moved a j lj slept)
        (λ a call. wake_all-Inv n m' pc' moved a)
    where
      p : Pc T
      p = (s.pc i).at

      m' : RwLock T
      m' = (after futex inv i lt c p).0

      pc' : ℕ → Thread T
      pc' = update s.pc i (after futex inv i lt c p).1

      moved : Inv n m' pc'
      moved = record {
        word = move-Word futex inv i lt c p refl;
        each = move-each futex inv i lt c p refl;
      }
