-- ===== src/MutexV2/Refines.antt =====
-- src/mutex_v2.rs: the futex-based mutex is the abstract lock, in every interleaving.
use atomics_for_peace_and_sy.Base.{
  ℕ, ◌<◌, ◌≡◌, refl, ◌∙◌, ap, subst, Bool, Bool-cases, ==_iff, inl, inr, true, false, ◌&&◌, not,
  List, arith, ltb, ◌==◌, if◌then◌else◌,
}
use atomics_for_peace_and_sy.Threads.{System, update, sum_over-eq-zero}
use atomics_for_peace_and_sy.Futex.{AtomicWait, exec, deliver, deliver-Roused}
use atomics_for_peace_and_sy.MutexV2.{
  Mutex, new, unlocked, locked, locked_has_waiters, Pc, outside, viewed, fast, spin, second, slow,
  wait_call, would_block, enter, swap, Thread, Choice, read, write, weak_fails, exchange, step,
  step_at, client, program, Next,
}
use atomics_for_peace_and_sy.MutexV2.Inv.{Inv, step-Inv, holders}
use atomics_for_peace_and_sy.MutexV2.Exclusion.{execute, fresh_thread, init-Inv}
use atomics_for_peace_and_sy.MutexV2.Owner.{
  owned, holder, lock_of, holder-some, holder-none, holder-eq, rouse-holders,
}
use atomics_for_peace_and_sy.Simulation.{Trace, Implementation, history}
use atomics_for_peace_and_sy.LockSpec.{
  Lock, free, taken, Label, internal, acquires, enters, sees, writes, releases, Move, rest, rest_at,
  relabel, acquire, enter as enter_move, see, write as write_move, release, move_between,
}
use atomics_for_peace_and_sy.Simulation.OverFutex.{Steps, implementation, run-Trace}

module _ {T : Type 0} where
  -- what a client does with the data, if it has a guard
  abbrev client_label : Choice T → Mutex T → ℕ → Label T
  client_label read m guards = if ltb 0 guards then sees m.data_cell else internal
  client_label (write v) m guards = if ltb 0 guards then writes v else internal
  client_label c m guards = internal

  -- what an exchange of UNLOCKED does
  abbrev exchange_label : Bool → Mutex T → Label T
  exchange_label fails m = if m.state == unlocked && not fails then acquires else internal

  abbrev label_at : Choice T → Mutex T → Thread T → Pc T → Label T
  label_at c m t (outside last) = client_label c m t.guards
  label_at c m t (viewed v) = client_label c m t.guards
  label_at c m t (fast try) = exchange_label (weak_fails c) m
  label_at c m t second = exchange_label false m
  label_at c m t slow = exchange_label false m
  label_at c m t enter = enters
  label_at c m t swap = releases
  label_at c m t p = internal

  module _ (futex : AtomicWait) {n : ℕ} (s : System (Mutex T) (Thread T)) (inv : Inv n s.mem s.pc)
      (i : ℕ) (lt : i < n) (k : ℕ) where
    -- the state that a step of thread `i` leads to, with its wake-up
    abbrev reach : Next T → System (Mutex T) (Thread T)
    reach next = record {
      mem = next.0;
      pc = deliver futex (program futex) n k next.2 (update s.pc i next.1);
    }

    reach-holders :
        (next : Next T) (j : ℕ) → holders ((reach next).pc j) ≡ holders (update s.pc i next.1 j)
    reach-holders next j =
        rouse-holders futex n _ _
          (deliver-Roused futex (program futex) n (update s.pc i next.1) k next.2 j)

    before_taken : 0 < holders (s.pc i) → lock_of n s ≡ taken i s.mem.data_cell
    before_taken has =
        ap (owned s.mem.data_cell) (holder-some n s.pc i (ground (arith, inv.safe.count)) lt has)

    before_free : s.mem.state ≡ 0 → lock_of n s ≡ free s.mem.data_cell
    before_free e = ap (owned s.mem.data_cell) (holder-none n s.pc (ground (arith, inv.safe.count)))

    module _ (next : Next T) where
      quiet :
          next.0.data_cell ≡ s.mem.data_cell
          → holders next.1 ≡ holders (s.pc i)
          → lock_of n (reach next) ≡ lock_of n s
      quiet kept same =
          ap (λ d. owned d (holder n (reach next).pc)) kept
          ∙ ap (owned s.mem.data_cell) (
              holder-eq n s.pc (reach next).pc (λ j.
                reach-holders next j ∙ elim (Bool-cases (i == j)) [
                  | inl here ↦ rw here (same ∙ ap (λ l. holders (s.pc l)) ((==_iff i j).0 here))
                  | inr other ↦ rw other refl
                ]))

      module _ (inv' : Inv n (reach next).mem (reach next).pc) where
        after_taken : 0 < holders next.1 → lock_of n (reach next) ≡ taken i next.0.data_cell
        after_taken has = ap (owned next.0.data_cell) (
            holder-some n (reach next).pc i (ground (arith, inv'.safe.count)) lt
              (ground (arith, reach-holders next i)))

        after_free : next.0.state ≡ 0 → lock_of n (reach next) ≡ free next.0.data_cell
        after_free e =
            ap (owned next.0.data_cell)
              (holder-none n (reach next).pc (ground (arith, inv'.safe.count)))

    client_simulates :
        (c : Choice T) (next : Next T)
        → next ≡ client c s.mem (s.pc i)
        → Inv n (reach next).mem (reach next).pc
        → holders (s.pc i) ≡ (s.pc i).guards
        → Move i (client_label c s.mem (s.pc i).guards) (lock_of n s) (lock_of n (reach next))
    unfolding client
    client_simulates read next e inv' same = elim (Bool-cases (ltb 0 (s.pc i).guards)) [
      | inl has ↦
          relabel {l' = sees s.mem.data_cell} (rw has refl) (before_taken (ground arith))
            (after_taken next inv' (ground arith) ∙ ap (taken i) (ground arith)) see
      | inr without ↦ relabel (rw without refl) refl (quiet next (ground arith) (ground arith)) rest
    ]
    client_simulates (write v) next e inv' same = elim (Bool-cases (ltb 0 (s.pc i).guards)) [
      | inl has ↦
          relabel {l' = writes v} (rw has refl) (before_taken (ground arith))
            (after_taken next inv' (ground arith) ∙ ap (taken i) (ground arith)) write_move
      | inr without ↦ relabel (rw without refl) refl (quiet next (ground arith) (ground arith)) rest
    ]
    client_simulates c next e inv' same = rest_at (quiet next (ground arith) (ground arith))

    exchange_simulates :
        (fails : Bool) (word : ℕ) (otherwise : Pc T) (next : Next T)
        → next ≡ exchange fails word s.mem (s.pc i) otherwise
        → Inv n (reach next).mem (reach next).pc
        → holders (record (s.pc i) { at = otherwise }) ≡ holders (s.pc i)
        → Move i (exchange_label fails s.mem) (lock_of n s) (lock_of n (reach next))
    exchange_simulates fails word otherwise next e inv' same =
        elim (Bool-cases (s.mem.state == unlocked && not fails)) [
          | inl won ↦
              relabel (rw won refl) (before_free (ground arith))
                (after_taken next inv' (ground arith) ∙ ap (taken i) (ground arith)) acquire
          | inr lost ↦ relabel (rw lost refl) refl (quiet next (ground arith) (ground arith)) rest
        ]

    move_simulates :
        (c : Choice T) (p : Pc T) (next : Next T)
        → (s.pc i).at ≡ p
        → next ≡ step_at futex c s.mem (s.pc i) p
        → Inv n (reach next).mem (reach next).pc
        → Move i (label_at c s.mem (s.pc i) p) (lock_of n s) (lock_of n (reach next))
    unfolding step_at
    move_simulates c (outside last) next e f inv' = client_simulates c next f inv' (ground arith)
    move_simulates c (viewed v) next e f inv' = client_simulates c next f inv' (ground arith)
    move_simulates c (fast true) next e f inv' =
        exchange_simulates (weak_fails c) locked (outside would_block) next f inv' (ground arith)
    move_simulates c (fast false) next e f inv' =
        exchange_simulates (weak_fails c) locked (spin 0) next f inv' (ground arith)
    move_simulates c second next e f inv' =
        exchange_simulates false locked slow next f inv' (ground arith)
    move_simulates c slow next e f inv' =
        exchange_simulates false locked_has_waiters wait_call next f inv' (ground arith)
    move_simulates c enter next e f inv' =
        move_between (before_taken (ground arith))
          (after_taken next inv' (ground arith) ∙ ap (taken i) (ground arith)) enter_move
    move_simulates c swap next e f inv' =
        move_between (before_taken (ground (arith, (inv.safe.each i lt).place)))
          (after_free next inv' (ground arith) ∙ ap free (ground arith)) release
    move_simulates c p next e f inv' = rest_at (quiet next (ground arith) (ground arith))

    pub step_simulates :
        (c : Choice T)
        → let s' = exec futex (program futex) n s i c k in
          Inv n s'.mem s'.pc
          → Move i (label_at c s.mem (s.pc i) (s.pc i).at) (lock_of n s) (lock_of n s')
    unfolding step
    step_simulates c inv' = move_simulates c (s.pc i).at _ refl refl inv'

abbrev pub start : {T : Type 0} → ℕ → T → System (Mutex T) (Thread T)
start id d = record { mem = new id d; pc = λ _. fresh_thread }

module _ {T : Type 0} (futex : AtomicWait) (n : ℕ) where
  abbrev pub steps : Steps (Move {T = T}) internal futex (program {T = T} futex) n
  steps = record {
    rest = λ i s. rest;
    thread_id = λ i. i;
    label = λ i c s. label_at c s.mem (s.pc i) (s.pc i).at;
    view = lock_of n;
    Inv = λ s. Inv n s.mem s.pc;
    keeps = λ s i c k lt inv. step-Inv futex s i c k lt inv;
    simulates =
        λ s i c k lt inv. step_simulates futex s inv i lt k c (step-Inv futex s i c k lt inv);
  }

  -- The mutex, with its invariant, fills the interface of the abstract lock.
  abbrev pub mutex : Implementation (Move {T = T}) (Mutex T) (Thread T) (ℕ × Choice T × ℕ)
  mutex = implementation steps

  -- The futex-based mutex is the abstract lock, however its threads interleave, sleep and are woken:
  -- what the steps of a schedule do to it, who acquires it, returns with a guard, sees or writes its
  -- data and releases it, in their order, is a history of the abstract lock from free with the first
  -- data to what the memory and the threads stand for at the end.
  pub futex_mutex_refines :
      (id : ℕ) (d : T) (es : List (ℕ × Choice T × ℕ))
      → Trace Move
          (history mutex (start id d) es)
          (free d)
          (lock_of n (execute futex n (new id d) es))
  unfolding execute
  futex_mutex_refines id d es = move_start (run-Trace steps (start id d) es (init-Inv n id d))
    where
      move_start :
          {ls : List (ℕ × Label T)} {t : Lock T}
          → Trace Move ls (lock_of n (start id d)) t
          → Trace Move ls (free d) t
      move_start {ls} {t} h =
          subst (λ x. Trace Move ls x t)
            (ap (owned d) (
              holder-none n (λ _. fresh_thread)
                (sum_over-eq-zero {0} {A = Thread T} holders n (λ _. fresh_thread) (λ i lt. refl))))
            h
