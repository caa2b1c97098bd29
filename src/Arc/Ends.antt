-- ===== src/Arc/Ends.antt =====
-- src/arc.rs: the data is dropped once and the allocation is freed once, by every step of every
-- thread; with that, the whole invariant of an allocation that is there.
use atomics_for_peace_and_sy.Base.{ℕ, ◌-◌, ◌^◌, ◌≤◌, ◌<◌, ◌≡◌, arith, ◌==◌, if◌then◌else◌}
use atomics_for_peace_and_sy.Threads.{update, sum_over, sum_over-update, le-sum_over, sum_over_mono}
use atomics_for_peace_and_sy.Arc.{World, Pc, outside, Thread, Choice, Next, client, step_at}
use atomics_for_peace_and_sy.Arc.Inv.{
  strongs, weaks_of, lockers, finishing, droppers, takers, freers, Place, Live, Gone,
}
use atomics_for_peace_and_sy.Arc.Moves.{
  here, doomed-fits, lockers-strongs, move-strong, move-bounded, move-last, move-Refs, move-small,
}

module _ {T : Type 0} {n : ℕ} (few : n < 2 ^ 62) where
  module _ {m : World T} {pc : ℕ → Thread T} (alive : m.freed ≡ 0) (live : Live n m pc)
      (each : (j : ℕ) → j < n → Place m (pc j) (pc j).at) (i : ℕ) (lt : i < n) (c : Choice T) where
    open live use {strong, bounded, refs, small, ended, freeing}

    abbrev after : Pc T → Next T
    after p = step_at c m (pc i) p

    abbrev moved : Pc T → ℕ → Thread T
    moved p = update pc i (after p).1

    droppers-finishing : sum_over droppers n pc ≤ sum_over finishing n pc
    droppers-finishing = sum_over_mono droppers finishing (λ t. ground arith) n pc

    takers-lockers : sum_over takers n pc ≤ sum_over lockers n pc
    takers-lockers = sum_over_mono takers lockers (λ t. ground arith) n pc

    move-ended :
        (p : Pc T)
        → (pc i).at ≡ p
        → (after p).0.freed ≡ 0
        → (after p).0.dropped ≡ (
            if (after p).0.inner.strong_count == 0
            then 1 - sum_over droppers n (moved p)
            else sum_over takers n (moved p))
    unfolding step_at client
    move-ended (outside result) e z = ground (
      arith,
      here few alive live each i lt c,
      strong,
      bounded,
      live.last,
      few,
      le-sum_over strongs n pc i,
      doomed-fits few alive live each i lt c pc,
      lockers-strongs few alive live each i lt c,
      refs,
      ended,
      le-sum_over droppers n pc i,
      le-sum_over takers n pc i,
      droppers-finishing,
      takers-lockers,
      sum_over-update droppers n pc i (after (outside result)).1,
      sum_over-update takers n pc i (after (outside result)).1,
    )
    move-ended p e z = ground (
      arith,
      here few alive live each i lt c,
      strong,
      bounded,
      live.last,
      few,
      le-sum_over strongs n pc i,
      doomed-fits few alive live each i lt c pc,
      lockers-strongs few alive live each i lt c,
      refs,
      ended,
      le-sum_over droppers n pc i,
      le-sum_over takers n pc i,
      droppers-finishing,
      takers-lockers,
      sum_over-update droppers n pc i (after p).1,
      sum_over-update takers n pc i (after p).1,
    )

    move-freeing :
        (p : Pc T)
        → (pc i).at ≡ p
        → (after p).0.freed ≡ 0
        → sum_over freers n (moved p) ≡ (if (after p).0.inner.ref_count == 0 then 1 else 0)
    unfolding step_at client
    move-freeing (outside result) e z = ground (
      arith,
      here few alive live each i lt c,
      strong,
      bounded,
      live.last,
      few,
      le-sum_over strongs n pc i,
      doomed-fits few alive live each i lt c pc,
      lockers-strongs few alive live each i lt c,
      refs,
      small,
      freeing,
      le-sum_over weaks_of n pc i,
      le-sum_over finishing n pc i,
      le-sum_over freers n pc i,
      sum_over-update freers n pc i (after (outside result)).1,
    )
    move-freeing p e z = ground (
      arith,
      here few alive live each i lt c,
      strong,
      bounded,
      live.last,
      few,
      le-sum_over strongs n pc i,
      doomed-fits few alive live each i lt c pc,
      lockers-strongs few alive live each i lt c,
      refs,
      small,
      freeing,
      le-sum_over weaks_of n pc i,
      le-sum_over finishing n pc i,
      le-sum_over freers n pc i,
      sum_over-update freers n pc i (after p).1,
    )

    pub move-Gone :
        (p : Pc T) → (pc i).at ≡ p → 0 < (after p).0.freed → Gone n (after p).0 (moved p)
    unfolding step_at client
    move-Gone (outside result) e z = ground (
      arith,
      here few alive live each i lt c,
      strong,
      bounded,
      live.last,
      few,
      le-sum_over strongs n pc i,
      doomed-fits few alive live each i lt c pc,
      lockers-strongs few alive live each i lt c,
      alive,
      refs,
      small,
      ended,
      freeing,
      le-sum_over weaks_of n pc i,
      le-sum_over finishing n pc i,
      le-sum_over freers n pc i,
      le-sum_over takers n pc i,
      droppers-finishing,
      takers-lockers,
      sum_over-update freers n pc i (after (outside result)).1,
      sum_over-update finishing n pc i (after (outside result)).1,
      sum_over-update strongs n pc i (after (outside result)).1,
      sum_over-update weaks_of n pc i (after (outside result)).1,
    )
    move-Gone p e z = ground (
      arith,
      here few alive live each i lt c,
      strong,
      bounded,
      live.last,
      few,
      le-sum_over strongs n pc i,
      doomed-fits few alive live each i lt c pc,
      lockers-strongs few alive live each i lt c,
      alive,
      refs,
      small,
      ended,
      freeing,
      le-sum_over weaks_of n pc i,
      le-sum_over finishing n pc i,
      le-sum_over freers n pc i,
      le-sum_over takers n pc i,
      droppers-finishing,
      takers-lockers,
      sum_over-update freers n pc i (after p).1,
      sum_over-update finishing n pc i (after p).1,
      sum_over-update strongs n pc i (after p).1,
      sum_over-update weaks_of n pc i (after p).1,
    )

    pub move-Live :
        (p : Pc T) → (pc i).at ≡ p → (after p).0.freed ≡ 0 → Live n (after p).0 (moved p)
    move-Live p e z = record {
      strong = move-strong few alive live each i lt c p e z;
      bounded = move-bounded few alive live each i lt c p e z;
      last = move-last few alive live each i lt c p e z;
      refs = move-Refs few alive live each i lt c p e z;
      small = move-small few alive live each i lt c p e z;
      ended = move-ended p e z;
      freeing = move-freeing p e z;
    }
