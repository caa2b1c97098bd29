-- ===== src/Arc/Refines.antt =====
-- src/arc.rs: the reference-counted pointer is the abstract one, in every interleaving.
use atomics_for_peace_and_sy.Base.{
  ℕ, suc, ◌+◌, ◌^◌, ◌<◌, ◌≡◌, refl, subst, Bool, Bool-cases, inl, inr, List, arith, true, false,
  ◌==◌, ltb, if◌then◌else◌,
}
use atomics_for_peace_and_sy.Threads.{
  System, update, sum_over, sum_over-update, sum_over-eq-zero, le-sum_over, exec,
}
use atomics_for_peace_and_sy.Arc.{
  World, Pc, outside, viewed, borrowed, clone_add, down_exchange, up_load, up_exchange, inner_free,
  drop_strong, drop_weak, Thread, Choice, Next, read, write, client, step, step_at,
}
use atomics_for_peace_and_sy.Arc.Inv.{
  strongs, weaks_of, lockers, finishing, freers, Place, Live, Gone, Inv,
}
use atomics_for_peace_and_sy.Arc.Places.{step-Inv}
use atomics_for_peace_and_sy.Arc.Fresh.{execute, fresh_world, fresh_thread, init-Inv, one_strong}
use atomics_for_peace_and_sy.Arc.Sharing.{execute-Inv}
use atomics_for_peace_and_sy.ArcSpec.{
  Pointer, Label, internal, clones, downgrades, upgrades, finds_none, drops, drops_weak, sees,
  writes, unwraps, Move, Unused, Trace-Unused,
}
use atomics_for_peace_and_sy.Simulation.{Trace, Implementation, history, history-Trace}
use atomics_for_peace_and_sy.Simulation.OverThreads.{Steps, implementation, run-Trace}

module _ {T : Type 0} where
  -- what a client does through its Arc, if it has one
  abbrev client_label : Choice T → World T → Thread T → Label T
  client_label read m t = if ltb 0 t.arcs then sees m.inner.data_cell else internal
  client_label c m t = internal

  abbrev borrow_label : Choice T → Label T
  borrow_label (write v) = writes v
  borrow_label c = internal

  -- a load of `strong_count` in `upgrade`
  abbrev load_label : World T → Label T
  load_label m = if m.inner.strong_count == 0 then finds_none else internal

  abbrev label_at : Choice T → World T → Thread T → Pc T → Label T
  label_at c m t (outside last) = client_label c m t
  label_at c m t (viewed v) = client_label c m t
  label_at c m t borrowed = borrow_label c
  label_at c m t clone_add = clones
  label_at c m t (down_exchange weak_count) =
      if m.inner.ref_count == weak_count then downgrades else internal
  label_at c m t up_load = load_label m
  label_at c m t (up_exchange strong_refs) =
      if m.inner.strong_count == strong_refs then upgrades else load_label m
  label_at c m t (inner_free v) = unwraps v
  label_at c m t (drop_strong last) = drops
  label_at c m t drop_weak = drops_weak
  label_at c m t p = internal

  -- the handles that threads have or that are in transit, and the data
  abbrev pub pointer_of : ℕ → World T → (ℕ → Thread T) → Pointer T
  pointer_of n m pc = record {
    arcs = sum_over strongs n pc + m.posted_arcs;
    weaks = sum_over weaks_of n pc + m.posted_weaks;
    content = m.inner.data_cell;
  }

  module _ (n : ℕ) (m : World T) (pc : ℕ → Thread T) (i : ℕ) (lt : i < n) (c : Choice T)
      (place : Place m (pc i) (pc i).at) where
    abbrev after : Pc T → Next T
    after p = step_at c m (pc i) p

    abbrev Matches : Label T → Next T → Type 0
    Matches l next = Move i l (pointer_of n m pc) (pointer_of n next.0 (update pc i next.1))

    allocated_simulates :
        (p : Pc T)
        → (pc i).at ≡ p
        → m.freed ≡ 0
        → Live n m pc
        → Matches (label_at c m (pc i) p) (after p)
    unfolding step_at client
    allocated_simulates (outside last) e alive live = ground (
      arith,
      place,
      le-sum_over strongs n pc i,
      sum_over-update strongs n pc i (after (outside last)).1,
      sum_over-update weaks_of n pc i (after (outside last)).1,
    )
    allocated_simulates p e alive live = ground (
      arith,
      place,
      live.strong,
      live.refs,
      le-sum_over strongs n pc i,
      le-sum_over weaks_of n pc i,
      le-sum_over lockers n pc i,
      sum_over-update strongs n pc i (after p).1,
      sum_over-update weaks_of n pc i (after p).1,
    )

    deallocated_simulates :
        (p : Pc T)
        → (pc i).at ≡ p
        → 0 < m.freed
        → Gone n m pc
        → Matches (label_at c m (pc i) p) (after p)
    unfolding step_at client
    deallocated_simulates (outside last) e freed gone = ground (
      arith,
      gone.no_arc,
      gone.no_weak,
      le-sum_over strongs n pc i,
      le-sum_over weaks_of n pc i,
      sum_over-update strongs n pc i (after (outside last)).1,
      sum_over-update weaks_of n pc i (after (outside last)).1,
    )
    deallocated_simulates p e freed gone = ground (
      arith,
      place,
      gone.no_arc,
      gone.no_weak,
      gone.no_call,
      le-sum_over strongs n pc i,
      le-sum_over weaks_of n pc i,
      le-sum_over finishing n pc i,
      le-sum_over freers n pc i,
      sum_over-update strongs n pc i (after p).1,
      sum_over-update weaks_of n pc i (after p).1,
    )

  -- After an abort nothing happens any more.
  abbrev label : Choice T → World T → Thread T → Label T
  label c m t = if m.aborted then internal else label_at c m t t.at

  pub step_simulates :
      {n : ℕ} (s : System (World T) (Thread T)) (i : ℕ) (c : Choice T)
      → i < n
      → Inv n s.mem s.pc
      → let s' = exec step n s i c in
        Move i (label c s.mem (s.pc i)) (pointer_of n s.mem s.pc) (pointer_of n s'.mem s'.pc)
  unfolding step
  step_simulates {n} s i c lt inv =
      gate s.mem.aborted (label_at c s.mem (s.pc i) (s.pc i).at)
        (step_at c s.mem (s.pc i) (s.pc i).at)
        (elim (Bool-cases (s.mem.freed == 0)) [
          | inl alive ↦
              allocated_simulates n s.mem s.pc i lt c (inv.each i lt) (s.pc i).at refl
                (ground arith) (inv.live (ground arith))
          | inr freed ↦
              deallocated_simulates n s.mem s.pc i lt c (inv.each i lt) (s.pc i).at refl
                (ground arith) (inv.gone (ground arith))
        ])
    where
      gate :
          (aborted : Bool) (l : Label T) (next : Next T)
          → Matches n s.mem s.pc i lt c (inv.each i lt) l next
          → Matches n s.mem s.pc i lt c
              (inv.each i lt)
              (if aborted then internal else l)
              (if aborted then (s.mem, s.pc i) else next)
      gate true l next h = ground (
        arith,
        sum_over-update strongs n s.pc i (s.pc i),
        sum_over-update weaks_of n s.pc i (s.pc i),
      )
      gate false l next h = h

module _ (T : Type 0) (n : ℕ) (few : suc n < 2 ^ 62) where
  abbrev pub steps : Steps (Move {T = T}) internal (step {T = T}) (suc n)
  steps = record {
    rest = λ i s. (refl, refl, refl);
    thread_id = λ i. i;
    label = λ i c s. label c s.mem (s.pc i);
    view = λ s. pointer_of (suc n) s.mem s.pc;
    Inv = λ s. Inv (suc n) s.mem s.pc;
    keeps = λ s i c lt inv. step-Inv s i c few lt inv;
    simulates = λ s i c lt inv. step_simulates s i c lt inv;
  }

  abbrev pub pointer : Implementation (Move {T = T}) (World T) (Thread T) (ℕ × Choice T)
  pointer = implementation steps

  abbrev pub start : T → System (World T) (Thread T)
  start d = record { mem = fresh_world d; pc = fresh_thread }

  -- what the memory and the threads stand for after a schedule
  abbrev pub pointer_after : T → List (ℕ × Choice T) → Pointer T
  pointer_after d es = let s = execute (suc n) d es in pointer_of (suc n) s.mem s.pc

  -- `Arc` and `Weak` are the abstract shared pointer, however fewer than 2 ^ 62 threads interleave: what
  -- the steps of a schedule do to it, who clones, downgrades, upgrades, sees that there is no Arc, drops
  -- a handle, sees the data, writes it through `get_mut` or takes it out with `into_inner`, in their
  -- order, is a history of the abstract pointer from one Arc and the first data to the handles and the
  -- data at the end. In such a history nobody sees the data without an Arc, and it is written and taken
  -- out only while there is one Arc and no Weak.
  pub arc_refines :
      (d : T) (es : List (ℕ × Choice T))
      → Trace Move
          (history pointer (start d) es)
          (record { arcs = 1; weaks = 0; content = d })
          (pointer_after d es)
  unfolding execute
  arc_refines d es = begin (run-Trace steps (start d) es (init-Inv n d))
    where
      begin :
          {ls : List (ℕ × Label T)} {t : Pointer T}
          → Trace Move ls (pointer_of (suc n) (fresh_world d) fresh_thread) t
          → Trace Move ls (record { arcs = 1; weaks = 0; content = d }) t
      begin {ls} {t} h =
          subst (λ a. Trace Move ls (record { arcs = a; weaks = 0; content = d }) t)
            (ground (arith, one_strong T n))
            (subst
              (λ w.
                Trace Move ls
                  (record {
                    arcs = sum_over strongs (suc n) (fresh_thread {T = T}) + 0;
                    weaks = w;
                    content = d;
                  })
                  t)
              (ground
                (arith, sum_over-eq-zero weaks_of (suc n) (fresh_thread {T = T}) (λ i lt. refl)))
              h)

  -- Once no Arc is left, no continuation of the schedule upgrades a Weak or sees the data again.
  pub expired-Unused :
      (d : T) (es more : List (ℕ × Choice T))
      → (pointer_after d es).arcs ≡ 0
      → Unused (history pointer (execute (suc n) d es) more)
  expired-Unused d es more none =
      (Trace-Unused (history-Trace pointer (execute (suc n) d es) more (execute-Inv n d es few))
        none).0
