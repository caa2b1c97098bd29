-- ===== src/Arc/Inv.antt =====
-- src/arc.rs: the invariant of the reference counts.
use atomics_for_peace_and_sy.Base.{ℕ, ◌+◌, ◌-◌, ◌≤◌, ◌<◌, ◌≡◌, true, leb, ◌==◌, if◌then◌else◌}
use atomics_for_peace_and_sy.Threads.{sum_over}
use atomics_for_peace_and_sy.Arc.{
  World, usize_max, max_ref_count, Pc, outside, viewed, borrowed, clone_add, clone_check, down_load,
  down_exchange, up_load, up_exchange, get_lock, get_check, get_unlock, inner_lock, inner_check,
  inner_unlock, inner_take, inner_free, drop_strong, drop_data, drop_implicit, drop_weak, free,
  Thread,
}

-- The Weak that all Arcs share is there while there is an Arc.
abbrev pub implicit : ℕ → ℕ
implicit strong = if strong == 0 then 0 else 1

module _ {T : Type 0} where
  -- what the thread has a share of `strong_count` for
  abbrev pub strongs : Thread T → ℕ
  strongs t = t.arcs + elim t.at [ clone_check old ↦ 1 | _ ↦ 0 ]

  abbrev pub weaks_of : Thread T → ℕ
  weaks_of t = t.weaks

  -- The thread is on its way to the abort.
  abbrev pub doomed : Thread T → ℕ
  doomed t = elim t.at [ clone_check old ↦ if leb old max_ref_count then 0 else 1 | _ ↦ 0 ]

  -- The thread has set `ref_count` to usize::MAX.
  abbrev pub lockers : Thread T → ℕ
  lockers t = elim t.at [
    | get_check ↦ 1
    | get_unlock unique ↦ 1
    | inner_check ↦ 1
    | inner_unlock ↦ 1
    | inner_take ↦ 1
    | inner_free v ↦ 1
    | _ ↦ 0
  ]

  -- The thread has dropped the last Arc and still has the Weak that the Arcs shared.
  abbrev pub finishing : Thread T → ℕ
  finishing t = elim t.at [ drop_data last ↦ 1 | drop_implicit last ↦ 1 | _ ↦ 0 ]

  -- The thread is about to drop the data.
  abbrev pub droppers : Thread T → ℕ
  droppers t = elim t.at [ drop_data last ↦ 1 | _ ↦ 0 ]

  -- The thread has moved the data out.
  abbrev pub takers : Thread T → ℕ
  takers t = elim t.at [ inner_free v ↦ 1 | _ ↦ 0 ]

  -- The thread is about to free the allocation.
  abbrev pub freers : Thread T → ℕ
  freers t = elim t.at [ free last ↦ 1 | _ ↦ 0 ]

  -- No other thread has a handle.
  abbrev pub Alone : World T → Thread T → Type 0
  Alone m t = (m.freed ≡ 0) × (t.arcs ≡ 1) × (m.inner.strong_count ≡ 1)

  -- What each place tells.
  abbrev pub Place : World T → Thread T → Pc T → Type 0
  Place m t (outside last) = Unit
  Place m t (viewed v) = (0 < t.arcs) × (m.inner.data_cell ≡ v)
  Place m t borrowed = Alone m t × (m.inner.ref_count ≡ 1)
  Place m t clone_add = 0 < t.arcs
  Place m t (clone_check old) = 0 < t.arcs
  Place m t down_load = 0 < t.arcs
  Place m t (down_exchange weak_count) = (0 < t.arcs) × (weak_count ≤ max_ref_count)
  Place m t up_load = 0 < t.weaks
  Place m t (up_exchange strong_refs) =
      (0 < t.weaks) × (0 < strong_refs) × (strong_refs ≤ max_ref_count)
  Place m t get_lock = 0 < t.arcs
  Place m t get_check = 0 < t.arcs
  Place m t (get_unlock unique) = (0 < t.arcs) × (unique ≡ true → Alone m t)
  Place m t inner_lock = 0 < t.arcs
  Place m t inner_check = 0 < t.arcs
  Place m t inner_unlock = 0 < t.arcs
  Place m t inner_take = Alone m t
  Place m t (inner_free v) = Alone m t × (m.inner.data_cell ≡ v)
  Place m t (drop_strong last) = 0 < t.arcs
  Place m t (drop_data last) = Unit
  Place m t (drop_implicit last) = Unit
  Place m t drop_weak = 0 < t.weaks
  Place m t (free last) = Unit

  -- `ref_count`, from the threads that lock it, the Weaks and the threads that finish.
  abbrev pub Refs : World T → (locks weaks fins : ℕ) → Type 0
  Refs m locks weaks fins =
      if locks == 0
      then m.inner.ref_count ≡ weaks + fins + implicit m.inner.strong_count
      else (m.inner.ref_count ≡ usize_max) × (locks ≡ 1) × (weaks ≡ 0) × (0 < m.inner.strong_count)

  -- The counts, while the allocation is there.
  pub record Live (n : ℕ) (m : World T) (pc : ℕ → Thread T) : Type 0 where
    pub strong : m.inner.strong_count ≡ sum_over strongs n pc + m.posted_arcs
    pub bounded : m.inner.strong_count ≤ max_ref_count + 1 + sum_over doomed n pc
    pub last : sum_over finishing n pc + implicit m.inner.strong_count ≤ 1
    pub refs :
        Refs m
          (sum_over lockers n pc)
          (sum_over weaks_of n pc + m.posted_weaks)
          (sum_over finishing n pc)
    pub small :
        sum_over weaks_of n pc
          + m.posted_weaks
          + sum_over finishing n pc
          + implicit m.inner.strong_count
        ≤ max_ref_count + 1
    pub ended :
        m.dropped
        ≡ (if m.inner.strong_count == 0 then 1 - sum_over droppers n pc else sum_over takers n pc)
    pub freeing : sum_over freers n pc ≡ (if m.inner.ref_count == 0 then 1 else 0)

  -- Nothing is left once the allocation is freed.
  pub record Gone (n : ℕ) (m : World T) (pc : ℕ → Thread T) : Type 0 where
    pub no_arc : sum_over strongs n pc + m.posted_arcs ≡ 0
    pub no_weak : sum_over weaks_of n pc + m.posted_weaks ≡ 0
    pub no_call : sum_over finishing n pc + sum_over freers n pc ≡ 0
    pub once : (m.dropped ≡ 1) × (m.freed ≡ 1)

  pub record Inv (n : ℕ) (m : World T) (pc : ℕ → Thread T) : Type 0 where
    pub live : m.freed ≡ 0 → Live n m pc
    pub gone : 0 < m.freed → Gone n m pc
    pub each : (i : ℕ) → i < n → Place m (pc i) (pc i).at
