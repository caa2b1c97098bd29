-- ===== src/Arc/Moves.antt =====
-- src/arc.rs: every step of every thread keeps the invariant of the reference counts.
use atomics_for_peace_and_sy.Base.{ℕ, ◌+◌, ◌^◌, ◌≤◌, ◌<◌, ◌≡◌, arith}
use atomics_for_peace_and_sy.Threads.{
  update, sum_over, sum_over-update, le-sum_over, sum_over-le_below, sum_over-gap,
}
use atomics_for_peace_and_sy.Arc.{
  World, max_ref_count, Pc, outside, Thread, Choice, Next, client, step_at,
}
use atomics_for_peace_and_sy.Arc.Inv.{
  strongs, weaks_of, doomed, lockers, finishing, Place, implicit, Refs, Live,
}

module _ {T : Type 0} {n : ℕ} (few : n < 2 ^ 62) where
  module _ {m : World T} {pc : ℕ → Thread T} (alive : m.freed ≡ 0) (live : Live n m pc)
      (each : (j : ℕ) → j < n → Place m (pc j) (pc j).at) (i : ℕ) (lt : i < n) (c : Choice T) where
    open live use {strong, bounded, refs, small}

    pub here : Place m (pc i) (pc i).at
    here = each i lt

    -- the step of thread `i` from place `p`
    abbrev pub after : Pc T → Next T
    after p = step_at c m (pc i) p

    -- the threads after it
    abbrev pub moved : Pc T → ℕ → Thread T
    moved p = update pc i (after p).1

    pub doomed-fits : (f : ℕ → Thread T) → sum_over doomed n f ≤ n
    doomed-fits f = sum_over-le_below doomed n f (λ j lj. ground arith)

    -- A locker has an Arc.
    pub lockers-strongs :
        sum_over lockers n pc + strongs (pc i) ≤ sum_over strongs n pc + lockers (pc i)
    lockers-strongs = (sum_over-gap lockers strongs n pc (λ j lj. ground (arith, each j lj))).1 i lt

    pub move-strong :
        (p : Pc T)
        → (pc i).at ≡ p
        → (after p).0.freed ≡ 0
        → (after p).0.inner.strong_count ≡ sum_over strongs n (moved p) + (after p).0.posted_arcs
    unfolding step_at client
    move-strong (outside last) e z =
        ground (arith, strong, here, sum_over-update strongs n pc i (after (outside last)).1)
    move-strong p e z = ground (
      arith,
      strong,
      here,
      bounded,
      few,
      doomed-fits pc,
      le-sum_over strongs n pc i,
      sum_over-update strongs n pc i (after p).1,
    )

    pub move-bounded :
        (p : Pc T)
        → (pc i).at ≡ p
        → (after p).0.freed ≡ 0
        → (after p).0.inner.strong_count ≤ max_ref_count + 1 + sum_over doomed n (moved p)
    unfolding step_at client
    move-bounded (outside last) e z = ground (
      arith,
      here,
      strong,
      bounded,
      few,
      le-sum_over strongs n pc i,
      doomed-fits pc,
      sum_over-update doomed n pc i (after (outside last)).1,
    )
    move-bounded p e z = ground (
      arith,
      here,
      strong,
      bounded,
      few,
      le-sum_over strongs n pc i,
      doomed-fits pc,
      sum_over-update doomed n pc i (after p).1,
    )

    pub move-last :
        (p : Pc T)
        → (pc i).at ≡ p
        → (after p).0.freed ≡ 0
        → sum_over finishing n (moved p) + implicit (after p).0.inner.strong_count ≤ 1
    unfolding step_at client
    move-last (outside last) e z = ground (
      arith,
      here,
      strong,
      bounded,
      live.last,
      few,
      le-sum_over strongs n pc i,
      doomed-fits pc,
      sum_over-update finishing n pc i (after (outside last)).1,
    )
    move-last p e z = ground (
      arith,
      here,
      strong,
      bounded,
      live.last,
      few,
      le-sum_over strongs n pc i,
      doomed-fits pc,
      sum_over-update finishing n pc i (after p).1,
    )

    pub move-Refs :
        (p : Pc T)
        → (pc i).at ≡ p
        → (after p).0.freed ≡ 0
        → Refs
            (after p).0
            (sum_over lockers n (moved p))
            (sum_over weaks_of n (moved p) + (after p).0.posted_weaks)
            (sum_over finishing n (moved p))
    unfolding step_at client
    move-Refs (outside last) e z = ground (
      arith,
      here,
      strong,
      bounded,
      live.last,
      refs,
      small,
      few,
      le-sum_over strongs n pc i,
      le-sum_over weaks_of n pc i,
      lockers-strongs,
      le-sum_over finishing n pc i,
      doomed-fits pc,
      sum_over-update lockers n pc i (after (outside last)).1,
      sum_over-update weaks_of n pc i (after (outside last)).1,
      sum_over-update finishing n pc i (after (outside last)).1,
    )
    move-Refs p e z = ground (
      arith,
      here,
      strong,
      bounded,
      live.last,
      refs,
      small,
      few,
      le-sum_over strongs n pc i,
      le-sum_over weaks_of n pc i,
      lockers-strongs,
      le-sum_over finishing n pc i,
      doomed-fits pc,
      sum_over-update lockers n pc i (after p).1,
      sum_over-update weaks_of n pc i (after p).1,
      sum_over-update finishing n pc i (after p).1,
    )

    pub move-small :
        (p : Pc T)
        → (pc i).at ≡ p
        → (after p).0.freed ≡ 0
        → sum_over weaks_of n (moved p)
            + (after p).0.posted_weaks
            + sum_over finishing n (moved p)
            + implicit (after p).0.inner.strong_count
          ≤ max_ref_count + 1
    unfolding step_at client
    move-small (outside last) e z = ground (
      arith,
      here,
      strong,
      bounded,
      live.last,
      refs,
      small,
      few,
      le-sum_over strongs n pc i,
      le-sum_over weaks_of n pc i,
      le-sum_over finishing n pc i,
      doomed-fits pc,
      sum_over-update weaks_of n pc i (after (outside last)).1,
      sum_over-update finishing n pc i (after (outside last)).1,
    )
    move-small p e z = ground (
      arith,
      here,
      strong,
      bounded,
      live.last,
      refs,
      small,
      few,
      le-sum_over strongs n pc i,
      le-sum_over weaks_of n pc i,
      le-sum_over finishing n pc i,
      doomed-fits pc,
      sum_over-update weaks_of n pc i (after p).1,
      sum_over-update finishing n pc i (after p).1,
    )
