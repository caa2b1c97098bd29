-- ===== src/Spinlock/Refines.antt =====
-- src/spinlock.rs: the spinlock is the abstract lock, in every interleaving.
use atomics_for_peace_and_sy.Base.{
  ℕ, ◌≡◌, refl, Bool-cases, inl, inr, true, ◌&&◌, not, List, arith, ◌==◌, if◌then◌else◌,
}
use atomics_for_peace_and_sy.Spinlock.{
  SpinLock, new, Pc, idle, exchange, held, viewed, panicking, Choice, call_lock, read, write,
  unlock, weak_fails, step, client,
}
use atomics_for_peace_and_sy.Spinlock.Exclusion.{ThreadIds, Inv, step-Inv, init-Inv, execute}
use atomics_for_peace_and_sy.Simulation.{Trace, Implementation, history}
use atomics_for_peace_and_sy.LockSpec.{
  Lock, free, Label, internal, acquires, sees, writes, releases, Move, rest, lock_word,
  word_acquire, word_see, word_write, word_release,
}
use atomics_for_peace_and_sy.Simulation.OverThreads.{Steps, implementation, run-Trace}

module _ {T : Type 0} where
  -- what a client with a guard does with it
  abbrev client_label : Choice T → SpinLock T → Label T
  client_label read m = sees m.data_cell
  client_label (write v) m = writes v
  client_label unlock m = releases
  client_label c m = internal

  abbrev label_at : Choice T → SpinLock T → Pc T → Label T
  label_at c m (exchange owns) =
      if m.locking_thread == 0 && not (weak_fails c) then acquires else internal
  label_at c m held = client_label c m
  label_at c m (viewed v) = client_label c m
  label_at c m (panicking true) = releases
  label_at c m p = internal

  -- the lock that the memory stands for
  abbrev pub lock_of : SpinLock T → Lock T
  lock_of m = lock_word m.locking_thread m.data_cell

  module _ {thread_id : ℕ → ℕ} (ids : ThreadIds thread_id) {n : ℕ} {m : SpinLock T} {pc : ℕ → Pc T}
      (inv : Inv thread_id n m pc) (i : ℕ) where
    client_simulates :
        (c : Choice T)
        → m.locking_thread ≡ thread_id i
        → (p : Pc T) → Move (thread_id i) (client_label c m) (lock_of m) (lock_of (client c m p).0)
    unfolding client
    client_simulates read e p = word_see (ids.nonzero i) m.data_cell e
    client_simulates (write v) e p = word_write (ids.nonzero i) m.data_cell v e
    client_simulates unlock e p = word_release (ids.nonzero i) m.data_cell e
    client_simulates c e p = rest

    pub step_simulates :
        (c : Choice T) (p : Pc T)
        → pc i ≡ p
        → Move (thread_id i) (label_at c m p) (lock_of m) (lock_of (step (thread_id i) c m p).0)
    unfolding step
    step_simulates call_lock idle e = rest
    step_simulates c idle e = rest
    step_simulates c (exchange owns) e =
        elim (Bool-cases (m.locking_thread == 0 && not (weak_fails c))) [
          | inl won ↦ rw won (word_acquire (ids.nonzero i) m.data_cell (ground arith))
          | inr lost ↦ rw lost rest
        ]
    step_simulates c held e = client_simulates c (inv.owner i (rw e refl)) held
    step_simulates c (viewed v) e = client_simulates c (inv.owner i (rw e refl)) (viewed v)
    step_simulates c (panicking true) e =
        word_release (ids.nonzero i) m.data_cell (inv.owner i (rw e refl))
    step_simulates c p e = rest

module _ {T : Type 0} {thread_id : ℕ → ℕ} (ids : ThreadIds thread_id) (n : ℕ) where
  abbrev pub steps : Steps (Move {T = T}) internal (λ i. step {T = T} (thread_id i)) n
  steps = record {
    rest = λ i s. rest;
    thread_id = thread_id;
    label = λ i c s. label_at c s.mem (s.pc i);
    view = λ s. lock_of s.mem;
    Inv = λ s. Inv thread_id n s.mem s.pc;
    keeps = λ s i c lt inv. step-Inv ids n s i c lt inv;
    simulates = λ s i c lt inv. step_simulates ids inv i c (s.pc i) refl;
  }

  -- The spinlock, with its invariant, fills the interface of the abstract lock.
  abbrev pub spinlock : Implementation (Move {T = T}) (SpinLock T) (Pc T) (ℕ × Choice T)
  spinlock = implementation steps

  -- The spinlock is the abstract lock, however its threads interleave, with distinct identifiers that
  -- are not 0: what the steps of a schedule do to it, who acquires it, sees or writes its data and
  -- releases it, in their order, is a history of the abstract lock from free with the first data to
  -- what the memory stands for at the end. In such a history only the thread that has the lock sees,
  -- writes and releases.
  pub spinlock_refines :
      (d : T) (es : List (ℕ × Choice T))
      → Trace Move
          (history spinlock (record { mem = new d; pc = λ _. idle }) es)
          (free d)
          (lock_of (execute thread_id n d es).mem)
  unfolding execute
  spinlock_refines d es =
      run-Trace steps (record { mem = new d; pc = λ _. idle }) es (init-Inv ids n d)
