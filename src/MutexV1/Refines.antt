-- ===== src/MutexV1/Refines.antt =====
-- src/mutex_v1.rs: the parking mutex is the abstract lock, in every interleaving.
use atomics_for_peace_and_sy.Base.{
  ℕ, ◌<◌, ◌≡◌, refl, Bool, Bool-cases, inl, inr, false, ◌&&◌, not, List, [], ◌∷◌, arith, ltb, ◌==◌,
  if◌then◌else◌,
}
use atomics_for_peace_and_sy.Threads.{System}
use atomics_for_peace_and_sy.Spinlock.Exclusion.{ThreadIds}
use atomics_for_peace_and_sy.MutexV1.{
  Mutex, new, Pc, outside, viewed, try_exchange, exchange, enter, leave_store, dequeue_pop,
  pop_queue, Thread, Choice, read, write, spurious, claim, would_block, spin, step, step_at, client,
}
use atomics_for_peace_and_sy.MutexV1.Exclusion.{Inv, step-Inv, init-Inv, execute, fresh_thread}
use atomics_for_peace_and_sy.Simulation.{Trace, Implementation, history}
use atomics_for_peace_and_sy.LockSpec.{
  Lock, free, Label, internal, acquires, enters, sees, writes, releases, Move, rest, rest_at,
  lock_word, word_acquire, word_enter, word_see, word_write, word_release,
}
use atomics_for_peace_and_sy.Simulation.OverThreads.{Steps, implementation, run-Trace}

module _ {T : Type 0} where
  -- what a client does with the data, if it has a guard
  abbrev client_label : Choice T → Mutex T → ℕ → Label T
  client_label read m guards = if ltb 0 guards then sees m.data_cell else internal
  client_label (write v) m guards = if ltb 0 guards then writes v else internal
  client_label c m guards = internal

  -- what an exchange of 0 for the identifier does
  abbrev claim_label : Bool → Mutex T → Label T
  claim_label fails m = if m.state == 0 && not fails then acquires else internal

  abbrev label_at : Choice T → Mutex T → Thread T → Pc T → Label T
  label_at c m t (outside last) = client_label c m t.guards
  label_at c m t (viewed v) = client_label c m t.guards
  label_at c m t try_exchange = claim_label false m
  label_at c m t (exchange spin_counter) = claim_label (spurious c) m
  label_at c m t enter = enters
  label_at c m t leave_store = releases
  label_at c m t p = internal

  -- the lock that the memory stands for
  abbrev pub lock_of : Mutex T → Lock T
  lock_of m = lock_word m.state m.data_cell

  module _ {thread_id : ℕ → ℕ} (ids : ThreadIds thread_id) {n : ℕ} {m : Mutex T} {pc : ℕ → Thread T}
      (inv : Inv thread_id n m pc) (i : ℕ) (lt : i < n) where
    client_simulates :
        (c : Choice T)
        → Move
            (thread_id i)
            (client_label c m (pc i).guards)
            (lock_of m)
            (lock_of (client c m (pc i)).0)
    unfolding client
    client_simulates read = elim (Bool-cases (ltb 0 (pc i).guards)) [
      | inl has ↦ rw has (word_see (ids.nonzero i) m.data_cell (ground (arith, inv.owner i)))
      | inr without ↦ rw without rest
    ]
    client_simulates (write v) = elim (Bool-cases (ltb 0 (pc i).guards)) [
      | inl has ↦ rw has (word_write (ids.nonzero i) m.data_cell v (ground (arith, inv.owner i)))
      | inr without ↦ rw without rest
    ]
    client_simulates c = rest_at (ground arith)

    claim_simulates :
        (fails : Bool) (t : Thread T) (otherwise : Pc T)
        → Move
            (thread_id i)
            (claim_label fails m)
            (lock_of m)
            (lock_of (claim fails (thread_id i) m t otherwise).0)
    claim_simulates fails t otherwise = elim (Bool-cases (m.state == 0 && not fails)) [
      | inl won ↦ rw won (word_acquire (ids.nonzero i) m.data_cell (ground arith))
      | inr lost ↦ rw lost rest
    ]

    move_simulates :
        (c : Choice T) (p : Pc T)
        → (pc i).at ≡ p
        → Move
            (thread_id i)
            (label_at c m (pc i) p)
            (lock_of m)
            (lock_of (step_at thread_id i c m (pc i) p).0)
    unfolding step_at
    move_simulates c (outside last) e = client_simulates c
    move_simulates c (viewed v) e = client_simulates c
    move_simulates c try_exchange e = claim_simulates false (pc i) (outside would_block)
    move_simulates c (exchange counter) e = claim_simulates (spurious c) (pc i) (spin counter)
    move_simulates c enter e = word_enter (ids.nonzero i) m.data_cell (ground (arith, inv.owner i))
    move_simulates c leave_store e =
        word_release (ids.nonzero i) m.data_cell (ground (arith, inv.owner i, inv.each i))
    move_simulates c dequeue_pop e = rest_at (popped m.queue)
      where
        popped : (q : List ℕ) → lock_of (pop_queue m (pc i) q).0 ≡ lock_of m
        popped [] = refl
        popped (j ∷ q) = refl
    move_simulates c p e = rest_at (ground arith)

    pub step_simulates :
        (c : Choice T)
        → Move
            (thread_id i)
            (label_at c m (pc i) (pc i).at)
            (lock_of m)
            (lock_of (step thread_id i c m (pc i)).0)
    unfolding step
    step_simulates c = move_simulates c (pc i).at refl

abbrev pub start : {T : Type 0} → T → System (Mutex T) (Thread T)
start d = record { mem = new d; pc = λ _. fresh_thread }

module _ {T : Type 0} {thread_id : ℕ → ℕ} (ids : ThreadIds thread_id) (n : ℕ) where
  abbrev pub steps : Steps (Move {T = T}) internal (step {T = T} thread_id) n
  steps = record {
    rest = λ i s. rest;
    thread_id = thread_id;
    label = λ i c s. label_at c s.mem (s.pc i) (s.pc i).at;
    view = λ s. lock_of s.mem;
    Inv = λ s. Inv thread_id n s.mem s.pc;
    keeps = λ s i c lt inv. step-Inv ids s i c lt inv;
    simulates = λ s i c lt inv. step_simulates ids inv i lt c;
  }

  -- The mutex, with its invariant, fills the interface of the abstract lock.
  abbrev pub mutex : Implementation (Move {T = T}) (Mutex T) (Thread T) (ℕ × Choice T)
  mutex = implementation steps

  -- The mutex is the abstract lock, however its threads interleave, with distinct identifiers that
  -- are not 0: what the steps of a schedule do to it, who acquires it, returns with a guard, sees or
  -- writes its data and releases it, in their order, is a history of the abstract lock from free with
  -- the first data to what the memory stands for at the end.
  pub mutex_refines :
      (d : T) (es : List (ℕ × Choice T))
      → Trace Move (history mutex (start d) es) (free d) (lock_of (execute thread_id n d es).mem)
  unfolding execute
  mutex_refines d es = run-Trace steps (start d) es (init-Inv thread_id n d)
