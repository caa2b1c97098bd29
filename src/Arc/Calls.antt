-- ===== src/Arc/Calls.antt =====
-- src/arc.rs: calls that a thread makes undisturbed.
use atomics_for_peace_and_sy.Base.{ℕ, ◌+◌, ◌-◌, ◌≤◌, ◌<◌, ◌≡◌, false, List, [], ◌∷◌, arith}
use atomics_for_peace_and_sy.Threads.{alone}
use atomics_for_peace_and_sy.Arc.{
  World, usize_max, max_ref_count, Outcome, cloned, returned_none, unwrapped, dropped_handle,
  outside, Thread, Choice, call_clone, call_downgrade, call_upgrade, call_into_inner, call_drop_arc,
  call_drop_weak, proceed, client, step, step_at,
}

abbrev pub clone_steps : {T : Type 0} → List (Choice T)
clone_steps = call_clone ∷ proceed ∷ proceed ∷ []

abbrev pub drop_steps : {T : Type 0} → List (Choice T)
drop_steps = call_drop_arc ∷ proceed ∷ []

abbrev pub weak_steps : {T : Type 0} → List (Choice T)
weak_steps =
    call_downgrade ∷ proceed ∷ proceed ∷ call_upgrade ∷ proceed ∷ proceed ∷ call_drop_arc ∷ proceed
    ∷ call_drop_weak ∷ proceed ∷ []

abbrev pub into_inner_steps : {T : Type 0} → List (Choice T)
into_inner_steps = call_into_inner ∷ proceed ∷ proceed ∷ proceed ∷ proceed ∷ []

module _ {T : Type 0} (i : ℕ) (m : World T) (arcs weaks : ℕ) (last : Outcome T)
    (going : m.aborted ≡ false) (has : 0 < arcs) (some : 0 < m.inner.strong_count)
    (room : m.inner.strong_count ≤ max_ref_count) where
  -- a thread with these handles, between calls
  abbrev thread : ℕ → Outcome T → Thread T
  thread a o = record { arcs = a; weaks = weaks; at = outside o }

  -- An undisturbed `clone` adds one Arc, and a `drop` of an Arc then restores the counts and the
  -- thread's handles, and leaves the data alone.
  pub clone-drop :
      let (m1, t1) = alone step i (m, thread arcs last) clone_steps in
      let (m2, t2) = alone step i (m1, t1) drop_steps in
      (m1.inner.strong_count ≡ m.inner.strong_count + 1)
      × (t1 ≡ thread (arcs + 1) cloned)
      × (m2 ≡ m)
      × (t2 ≡ thread arcs dropped_handle)
  unfolding alone step step_at client
  clone-drop = ground arith

  -- An undisturbed `downgrade` yields a Weak from which `upgrade` yields an Arc; dropping both
  -- restores the counts and the thread's handles.
  pub downgrade-upgrade :
      0 < m.inner.ref_count
      → m.inner.ref_count ≤ max_ref_count
      → alone step i (m, thread arcs last) weak_steps ≡ (m, thread arcs dropped_handle)
  unfolding alone step step_at client
  downgrade-upgrade pos small = ground arith

  -- Before an abort, with `strong_count` from 1 to MAX_REF_COUNT: an undisturbed `into_inner` of
  -- the only handle returns the data and frees the allocation; beside another Arc or a Weak it
  -- returns `None` and gives up its Arc, which drops the data if it was the last.
  pub into_inner_run :
      let (m1, t1) = alone step i (m, thread arcs last) into_inner_steps in
      (m.inner.ref_count ≡ 1
        → m.inner.strong_count ≡ 1
        → (m1 ≡ record m {
          inner = record m.inner { ref_count = usize_max };
          dropped = m.dropped + 1;
          freed = m.freed + 1;
        })
          × (t1 ≡ thread (arcs - 1) (unwrapped m.inner.data_cell)))
      × (1 < m.inner.strong_count
          → (m1 ≡ record m { inner = record m.inner { strong_count = m.inner.strong_count - 1 } })
            × (t1 ≡ thread (arcs - 1) returned_none))
      × (m.inner.strong_count ≡ 1
          → 1 < m.inner.ref_count
          → m.inner.ref_count ≤ max_ref_count + 1
          → (m1 ≡ record m {
            inner = record m.inner { strong_count = 0; ref_count = m.inner.ref_count - 1 };
            dropped = m.dropped + 1;
          })
            × (t1 ≡ thread (arcs - 1) returned_none))
  unfolding alone step step_at client
  into_inner_run = ground arith
