-- ===== src/Arc/Sharing.antt =====
-- src/arc.rs: what `Arc` and `Weak` give their clients in every interleaving.
use atomics_for_peace_and_sy.Base.{
  ℕ, suc, ◌+◌, ◌^◌, ◌≤◌, ◌<◌, ◌≡◌, ◌≢◌, ◌⊎◌, ◌↔◌, inl, inr, false, List, arith, ltb, ◌==◌,
  if◌then◌else◌, Bool-cases,
}
use atomics_for_peace_and_sy.Threads.{
  System, sum_over, run-keeps, sum_over-eq-zero, sum_over-le_below, le-sum_over, add-le-sum_over,
  sum_over_mono, sum_over_witness,
}
use atomics_for_peace_and_sy.Arc.{
  World, usize_max, returned_none, outside, viewed, borrowed, up_load, inner_take, Thread, Choice,
  step, step_at,
}
use atomics_for_peace_and_sy.Arc.Inv.{
  implicit, strongs, weaks_of, doomed, lockers, finishing, takers, freers, Live, Gone, Inv,
}
use atomics_for_peace_and_sy.Arc.Places.{step-Inv}
use atomics_for_peace_and_sy.Arc.Fresh.{Idle, execute, init-Inv}

module _ {T : Type 0} (n : ℕ) (d : T) (es : List (ℕ × Choice T)) where
  -- the state that the schedule reaches
  abbrev reached : System (World T) (Thread T)
  reached = execute (suc n) d es

  pub execute-Inv : suc n < 2 ^ 62 → Inv (suc n) reached.mem reached.pc
  unfolding execute
  execute-Inv few =
      run-keeps step (suc n) (λ s. Inv (suc n) s.mem s.pc)
        (λ s i c lt inv. step-Inv s i c few lt inv) _ es (init-Inv n d)

  alive_or_Gone :
      suc n < 2 ^ 62
      → ((reached.mem.freed ≡ 0) × Live (suc n) reached.mem reached.pc)
        ⊎ Gone (suc n) reached.mem reached.pc
  alive_or_Gone few = elim (Bool-cases (reached.mem.freed == 0)) [
    | inl alive ↦ inl (ground arith, (execute-Inv few).live (ground arith))
    | inr freed ↦ inr ((execute-Inv few).gone (ground arith))
  ]

  -- Beside another thread's Arc, no thread has moved the data out.
  no_takers :
      suc n < 2 ^ 62
      → reached.mem.freed ≡ 0
      → Live (suc n) reached.mem reached.pc
      → (i : ℕ) → i < suc n
      → 0 < (reached.pc i).arcs
      → takers (reached.pc i) ≡ 0
      → sum_over takers (suc n) reached.pc ≡ 0
  no_takers few alive live i lt arc idle =
      elim (Bool-cases (ltb 0 (sum_over takers (suc n) reached.pc))) [
        | inl some ↦
            let (j, lj, pos) = sum_over_witness takers (suc n) reached.pc (ground arith) in
            absurd (
              ground (
                arith,
                live.strong,
                (execute-Inv few).each j,
                add-le-sum_over strongs (suc n) reached.pc i j,
              ))
        | inr nobody ↦ ground arith
      ]

  -- For fewer than 2 ^ 62 threads and until the allocation is freed, `strong_count` is exactly the
  -- number of Arcs: those that threads
  -- have, those that a `clone` is about to return, and those in transit.
  pub strong_count_exact :
      suc n < 2 ^ 62
      → reached.mem.freed ≡ 0
      → reached.mem.inner.strong_count
        ≡ sum_over strongs (suc n) reached.pc + reached.mem.posted_arcs
  strong_count_exact few alive = ((execute-Inv few).live alive).strong

  -- No use after free, for fewer than 2 ^ 62 threads: while any thread has an Arc or a Weak, the
  -- allocation is not freed, and while it has an Arc, the data is neither dropped nor moved out,
  -- except by `into_inner` of that very thread.
  pub handles_alive :
      (i : ℕ)
      → suc n < 2 ^ 62
      → i < suc n
      → 0 < (reached.pc i).arcs + (reached.pc i).weaks
      → (reached.mem.freed ≡ 0)
        × (0 < (reached.pc i).arcs → takers (reached.pc i) ≡ 0 → reached.mem.dropped ≡ 0)
  handles_alive i few lt has = elim (alive_or_Gone few) [
    | inl (alive, live) ↦ (
      alive,
      λ arc idle. ground (
        arith,
        live.strong,
        live.ended,
        le-sum_over strongs (suc n) reached.pc i,
        no_takers few alive live i lt arc idle,
      ),
    )
    | inr gone ↦ absurd (
        omega (
          arith,
          gone.no_arc,
          gone.no_weak,
          le-sum_over strongs (suc n) reached.pc i,
          le-sum_over weaks_of (suc n) reached.pc i,
        ))
  ]

  -- For fewer than 2 ^ 62 threads, the data is dropped or moved out at most once and the allocation
  -- is freed at most once, and never before the data is gone.
  pub dropped_once :
      suc n < 2 ^ 62
      → (reached.mem.dropped ≤ 1)
        × (reached.mem.freed ≤ 1)
        × (reached.mem.freed ≤ reached.mem.dropped)
  dropped_once few = elim (alive_or_Gone few) [
    | inl (alive, live) ↦ ground (
      arith,
      live.ended,
      live.refs,
      sum_over_mono takers lockers (λ t. ground arith) (suc n) reached.pc,
    )
    | inr gone ↦ omega (arith, gone.once)
  ]

  -- Nothing leaks, for fewer than 2 ^ 62 threads: when no thread has a handle or is in a call, and
  -- no handle is in transit, the data has been dropped or moved out and the allocation freed.
  pub nothing_leaks :
      suc n < 2 ^ 62
      → reached.mem.posted_arcs + reached.mem.posted_weaks ≡ 0
      → ((i : ℕ) → i < suc n → Idle (reached.pc i))
      → (reached.mem.dropped ≡ 1) × (reached.mem.freed ≡ 1)
  nothing_leaks few quiet idle = elim (alive_or_Gone few) [
    | inl (alive, live) ↦ absurd (
        ground (
          arith,
          live.strong,
          live.refs,
          live.freeing,
          sum_over-eq-zero strongs (suc n) reached.pc (λ i lt. ground (arith, idle i)),
          sum_over-eq-zero weaks_of (suc n) reached.pc (λ i lt. ground (arith, idle i)),
          sum_over-eq-zero lockers (suc n) reached.pc (λ i lt. ground (arith, idle i)),
          sum_over-eq-zero finishing (suc n) reached.pc (λ i lt. ground (arith, idle i)),
          sum_over-eq-zero freers (suc n) reached.pc (λ i lt. ground (arith, idle i)),
        ))
    | inr gone ↦ gone.once
  ]

  -- For fewer than 2 ^ 62 threads, the `&mut T` of `get_mut`, and the data that `into_inner` moves
  -- out, belong to one thread alone: it has one Arc, and there is no other Arc and no Weak, in any
  -- thread or in transit.
  pub exclusive_access :
      (i j : ℕ)
      → suc n < 2 ^ 62
      → i < suc n
      → j < suc n
      → i ≢ j
      → ((reached.pc i).at ≡ borrowed) ⊎ ((reached.pc i).at ≡ inner_take)
      → ((reached.pc i).arcs ≡ 1)
        × ((reached.pc i).weaks ≡ 0)
        × ((reached.pc j).arcs ≡ 0)
        × ((reached.pc j).weaks ≡ 0)
        × (reached.mem.posted_arcs ≡ 0)
        × (reached.mem.posted_weaks ≡ 0)
  exclusive_access i j few li lj ne at = elim (alive_or_Gone few) [
    | inl (alive, live) ↦ ground (
      arith,
      live.strong,
      live.refs,
      (execute-Inv few).each i,
      add-le-sum_over strongs (suc n) reached.pc i j,
      le-sum_over weaks_of (suc n) reached.pc i,
      le-sum_over weaks_of (suc n) reached.pc j,
      le-sum_over lockers (suc n) reached.pc i,
    )
    | inr gone ↦ absurd (ground (arith, (execute-Inv few).each i, gone.once))
  ]

  -- For fewer than 2 ^ 62 threads, what a thread has read through `deref` is still the data while
  -- it uses it: nobody writes beside an Arc.
  pub shared_data_stable :
      (i : ℕ) (v : T)
      → suc n < 2 ^ 62
      → i < suc n
      → (reached.pc i).at ≡ viewed v
      → reached.mem.inner.data_cell ≡ v
  shared_data_stable i v few lt e = ground (arith, (execute-Inv few).each i)

  -- The counts never wrap, for fewer than 2 ^ 62 threads: until the allocation is freed,
  -- `strong_count` is the number of Arcs, of threads, of a `clone` under way and in transit, and is at
  -- most 2 ^ 63 + n, for the number n of threads. While no thread has `ref_count` locked, it is the
  -- number of Weaks, of threads and in transit, with one that all Arcs share, which the thread that
  -- dropped the last Arc keeps for a while, and is at most 2 ^ 63. While one has, it is usize::MAX.
  pub counts_fit :
      suc n < 2 ^ 62
      → reached.mem.freed ≡ 0
      → let m = reached.mem.inner in
        let weak_count =
          sum_over weaks_of (suc n) reached.pc
          + reached.mem.posted_weaks
          + sum_over finishing (suc n) reached.pc
          + implicit m.strong_count in
        (m.strong_count ≡ sum_over strongs (suc n) reached.pc + reached.mem.posted_arcs)
        × (m.strong_count ≤ 2 ^ 63 + suc n)
        × (if sum_over lockers (suc n) reached.pc == 0
            then (m.ref_count ≡ weak_count) × (weak_count ≤ 2 ^ 63)
            else m.ref_count ≡ usize_max)
  counts_fit few alive =
      let live = (execute-Inv few).live alive in
      (
        live.strong,
        omega (
          arith,
          live.bounded,
          sum_over-le_below doomed (suc n) reached.pc (λ j lj. ground arith),
        ),
        ground (arith, live.refs, live.small),
      )

  -- For fewer than 2 ^ 62 threads and before an abort, `upgrade` returns `None` from its first load
  -- exactly if there is no Arc any more, in any thread or in transit.
  pub upgrade_none_iff :
      (i : ℕ) (c : Choice T)
      → suc n < 2 ^ 62
      → i < suc n
      → reached.mem.aborted ≡ false
      → (reached.pc i).at ≡ up_load
      → ((step i c reached.mem (reached.pc i)).1.at ≡ outside returned_none)
        ↔ (sum_over strongs (suc n) reached.pc + reached.mem.posted_arcs ≡ 0)
  unfolding step step_at
  upgrade_none_iff i c few lt going e = elim (alive_or_Gone few) [
    | inl (alive, live) ↦ ground (arith, live.strong, (execute-Inv few).each i)
    | inr gone ↦ absurd (
        ground (
          arith,
          (execute-Inv few).each i,
          gone.no_weak,
          le-sum_over weaks_of (suc n) reached.pc i,
        ))
  ]
