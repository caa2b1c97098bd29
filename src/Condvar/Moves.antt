-- ===== src/Condvar/Moves.antt =====
-- src/condvar.rs: what the step of one thread does to the counters and to each pair of threads.
use atomics_for_peace_and_sy.Base.{
  Bool-cases, ℕ, suc, ◌+◌, ◌≤◌, ◌<◌, ◌≡◌, ◌≢◌, refl, inl, inr, arith, ◌==◌,
}
use atomics_for_peace_and_sy.Threads.{update, sum_over, sum_over-update, sum_over-le, le-sum_over}
use atomics_for_peace_and_sy.Futex.{AtomicWait, all}
use atomics_for_peace_and_sy.Condvar.{
  World, Pc, idle, wait_block, Thread, Choice, Next, u32_mod, client, step_at,
}
use atomics_for_peace_and_sy.Condvar.Inv.{
  waiters, Seen, Later, Inv, Seen-mono, waiters-le, Later-self,
}

module _ {T : Type 0} (thread_id : ℕ → ℕ) (futex : AtomicWait) {n left : ℕ}
    (few : n < u32_mod) where
  module _ {w : World T} {pc : ℕ → Thread T} (inv : Inv n (suc left) w pc) (i : ℕ) (lt : i < n)
      (c : Choice T) where
    abbrev pub after : Pc → Next T
    after p = step_at thread_id futex i c w (pc i) p

    abbrev pub moved : Pc → ℕ → Thread T
    moved p = update pc i (after p).1

    pub move-counter :
        (p : Pc)
        → (w.condvar.counter ≤ (after p).0.condvar.counter)
          × ((after p).0.condvar.counter ≤ w.condvar.counter + 1)
    unfolding step_at client
    move-counter (idle last) = ground arith
    move-counter p = ground (arith, inv.fits)

    pub move-crowd :
        (p : Pc) → (pc i).at ≡ p → (after p).0.condvar.waiting ≡ sum_over waiters n (moved p)
    unfolding step_at client
    move-crowd (idle last) e =
        ground (arith, inv.crowd, sum_over-update waiters n pc i (after (idle last)).1)
    move-crowd p e = ground (
      arith,
      inv.crowd,
      le-sum_over waiters n pc i,
      sum_over-le waiters waiters-le n (moved p),
      sum_over-update waiters n pc i (after p).1,
    )

    move-Seen : (p : Pc) → (pc i).at ≡ p → Seen (after p).0.condvar.counter (after p).1.at
    unfolding step_at client
    move-Seen (idle last) e = ground (arith, inv.each i)
    move-Seen p e = ground (arith, inv.each i, inv.fits)

    -- Nobody sleeps when `notify_all` finds that nobody waits.
    told_first :
        (p : Pc) (j : ℕ)
        → (pc i).at ≡ p
        → j < n
        → (after p).2 ≢ all 0
        → Later (after p).1.at (pc j).at
    unfolding step_at client
    told_first (idle last) j e lj quiet = ground (arith, inv.told i j)
    told_first p j e lj quiet = ground (arith, inv.crowd, le-sum_over waiters n pc j)

    -- A thread that falls asleep has loaded the counter as it is now.
    told_second : (p : Pc) (j : ℕ) → (pc i).at ≡ p → j < n → Later (pc j).at (after p).1.at
    unfolding step_at client
    told_second (idle last) j e lj = ground (arith, inv.told j i)
    told_second (wait_block state) j e lj =
        ground (arith, inv.each j, futex.blocks_iff w.condvar.counter state)
    told_second p j e lj = ground arith

    pub wake_all : (p : Pc) (a : ℕ) → (after p).2 ≡ all a → a ≡ 0
    unfolding step_at client
    wake_all (idle last) a e = ground arith
    wake_all p a e = ground arith

    pub move-told :
        (p : Pc) (j l : ℕ)
        → (pc i).at ≡ p
        → j < n
        → l < n
        → (after p).2 ≢ all 0
        → Later (moved p j).at (moved p l).at
    move-told p j l e lj ll quiet = elim (Bool-cases (i == j)) [
      | inl here ↦ elim (Bool-cases (i == l)) [
        | inl both ↦ rw (here, both) (Later-self (after p).1 (after p).1.at refl)
        | inr other ↦ rw (here, other) (told_first p l e ll quiet)
      ]
      | inr here ↦ elim (Bool-cases (i == l)) [
        | inl second ↦ rw (here, second) (told_second p j e lj)
        | inr other ↦ rw (here, other) (inv.told j l lj ll)
      ]
    ]

    pub move-each :
        (p : Pc) (j : ℕ) → (pc i).at ≡ p → j < n → Seen (after p).0.condvar.counter (moved p j).at
    move-each p j e lj = elim (Bool-cases (i == j)) [
      | inl here ↦ rw here (move-Seen p e)
      | inr other ↦ rw other (Seen-mono (pc j).at (move-counter p).0 (inv.each j lj))
    ]
