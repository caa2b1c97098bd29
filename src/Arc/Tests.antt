-- ===== src/Arc/Tests.antt =====
-- src/arc.rs: two threads that share one allocation, and the theorems at what they reach.
use atomics_for_peace_and_sy.Base.{
  ℕ, zero, suc, ◌+◌, ◌^◌, ◌≤◌, ◌<◌, ◌≡◌, refl, inl, ◌↔◌, false, if◌then◌else◌, ◌==◌, List, [], ◌∷◌,
  ◌++◌, arith,
}
use atomics_for_peace_and_sy.Threads.{System, run, sum_over}
use atomics_for_peace_and_sy.Arc.{
  World, usize_max, returned_none, up_load, dropped_handle, outside, viewed, Thread, Choice,
  call_clone, call_downgrade, call_upgrade, call_get_mut, call_drop_arc, call_drop_weak, read,
  send_arc, receive_arc, send_weak, receive_weak, proceed, client, step, step_at,
}
use atomics_for_peace_and_sy.Simulation.{Trace, history}
use atomics_for_peace_and_sy.ArcSpec.{internal, drops, sees, Move}
use atomics_for_peace_and_sy.Arc.Refines.{pointer, start, pointer_after, arc_refines}
use atomics_for_peace_and_sy.Arc.Inv.{implicit, takers, strongs, weaks_of, finishing, lockers}
use atomics_for_peace_and_sy.Arc.Fresh.{Idle, execute}
use atomics_for_peace_and_sy.Arc.Sharing.{
  handles_alive, dropped_once, nothing_leaks, exclusive_access, counts_fit, upgrade_none_iff,
}

abbrev times : ℕ → ℕ → Choice ℕ → List (ℕ × Choice ℕ)
times zero i c = []
times (suc k) i c = (i, c) ∷ times k i c

-- Thread 0 sends thread 1 a clone and a Weak, and thread 1 reads the data.
abbrev shared : List (ℕ × Choice ℕ)
shared =
    ((0, call_clone) ∷ times 2 0 proceed)
    ++ ((0, send_arc) ∷ (1, receive_arc) ∷ (0, call_downgrade) ∷ times 2 0 proceed)
    ++ ((0, send_weak) ∷ (1, receive_weak) ∷ (1, read) ∷ [])

abbrev result : List (ℕ × Choice ℕ) → System (World ℕ) (Thread ℕ)
result es = execute 2 7 es

shared_run :
    ((result shared).mem.inner ≡ record { strong_count = 2; ref_count = 2; data_cell = 7 })
    × ((result shared).pc 1 ≡ record { arcs = 1; weaks = 1; at = viewed 7 })
unfolding execute run step step_at client
shared_run = (refl, refl)

-- Both Arcs are dropped; thread 1 then tries to upgrade its Weak.
abbrev orphaned : List (ℕ × Choice ℕ)
orphaned =
    shared
    ++ ((0, call_drop_arc) ∷ times 1 0 proceed)
    ++ ((1, call_drop_arc) ∷ times 3 1 proceed)
    ++ ((1, call_upgrade) ∷ [])

orphaned_going : (result orphaned).mem.aborted ≡ false
unfolding execute run step step_at client
orphaned_going = refl

orphaned_upgrades : ((result orphaned).pc 1).at ≡ up_load
unfolding execute run step step_at client
orphaned_upgrades = refl

abbrev ended : List (ℕ × Choice ℕ)
ended = orphaned ++ (times 1 1 proceed ++ ((1, call_drop_weak) ∷ times 2 1 proceed))

ended_run :
    ((result ended).mem.dropped ≡ 1)
    × ((result ended).mem.freed ≡ 1)
    × ((result ended).pc 1 ≡ record { arcs = 0; weaks = 0; at = outside dropped_handle })
unfolding execute run step step_at client
ended_run = (refl, refl, refl)

handles_alive_example :
    ((result shared).mem.freed ≡ 0)
    × (0 < ((result shared).pc 1).arcs
        → takers ((result shared).pc 1) ≡ 0
        → (result shared).mem.dropped ≡ 0)
unfolding execute run step step_at client
handles_alive_example = handles_alive 1 7 shared 1 (ground arith) (omega arith) (omega arith)

dropped_once_example :
    ((result ended).mem.dropped ≤ 1)
    × ((result ended).mem.freed ≤ 1)
    × ((result ended).mem.freed ≤ (result ended).mem.dropped)
dropped_once_example = dropped_once 1 7 ended (ground arith)

ended-Idle : (i : ℕ) → i < 2 → Idle ((result ended).pc i)
unfolding execute run step step_at client
ended-Idle zero lt = (refl, refl, (dropped_handle, refl))
ended-Idle (suc zero) lt = (refl, refl, (dropped_handle, refl))
ended-Idle (suc (suc i)) lt = absurd (omega arith)

nothing_leaks_example : ((result ended).mem.dropped ≡ 1) × ((result ended).mem.freed ≡ 1)
unfolding execute run step step_at client
nothing_leaks_example = nothing_leaks 1 7 ended (ground arith) refl ended-Idle

-- Thread 0, alone with the allocation, has the `&mut` of `get_mut`.
abbrev exclusive : List (ℕ × Choice ℕ)
exclusive = (0, call_get_mut) ∷ times 3 0 proceed

exclusive_access_example :
    (((result exclusive).pc 0).arcs ≡ 1)
    × (((result exclusive).pc 0).weaks ≡ 0)
    × (((result exclusive).pc 1).arcs ≡ 0)
    × (((result exclusive).pc 1).weaks ≡ 0)
    × ((result exclusive).mem.posted_arcs ≡ 0)
    × ((result exclusive).mem.posted_weaks ≡ 0)
unfolding execute run step step_at client
exclusive_access_example =
    exclusive_access 1 7 exclusive 0 1 (ground arith) (omega arith) (omega arith) (omega arith)
      (inl refl)

counts_fit_example :
    let s = result shared in
    let weak_count =
      sum_over weaks_of 2 s.pc
      + s.mem.posted_weaks
      + sum_over finishing 2 s.pc
      + implicit s.mem.inner.strong_count in
    (s.mem.inner.strong_count ≡ sum_over strongs 2 s.pc + s.mem.posted_arcs)
    × (s.mem.inner.strong_count ≤ 2 ^ 63 + 2)
    × (if sum_over lockers 2 s.pc == 0
        then (s.mem.inner.ref_count ≡ weak_count) × (weak_count ≤ 2 ^ 63)
        else s.mem.inner.ref_count ≡ usize_max)
unfolding execute run step step_at client
counts_fit_example = counts_fit 1 7 shared (ground arith) refl

-- Thread 1 is about to upgrade its Weak.
upgrade_none_iff_example :
    let s = result orphaned in
    ((step 1 proceed s.mem (s.pc 1)).1.at ≡ outside returned_none)
    ↔ (sum_over strongs 2 s.pc + s.mem.posted_arcs ≡ 0)
upgrade_none_iff_example =
    upgrade_none_iff 1 7 orphaned 1 proceed (ground arith) (omega arith) orphaned_going
      orphaned_upgrades

two_threads : 2 < 2 ^ 62
two_threads = ground arith

-- Thread 1 drops the last Arc, finds none to upgrade, and drops its Weak.
arc_refines_example :
    Trace Move
      (history (pointer ℕ 1 two_threads) (start ℕ 1 two_threads 7) ended)
      (record { arcs = 1; weaks = 0; content = 7 })
      (pointer_after ℕ 1 two_threads 7 ended)
arc_refines_example = arc_refines ℕ 1 two_threads 7 ended

drop_last-history :
    history
      (pointer ℕ 1 two_threads)
      (result shared)
      ((1, read) ∷ (1, call_drop_arc) ∷ (1, proceed) ∷ [])
    ≡ (1, sees 7) ∷ (1, internal) ∷ (1, drops) ∷ []
unfolding execute run step step_at client history
drop_last-history = refl
