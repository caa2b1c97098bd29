-- ===== src/RwLock/Refines.antt =====
-- src/rwlock.rs: the read-write lock is the abstract one, in every interleaving.
use atomics_for_peace_and_sy.Base.{
  ℕ, suc, ◌+◌, ◌-◌, ◌/◌, ◌%◌, ◌<◌, ◌≤◌, ◌≡◌, refl, Bool, Bool-cases, inl, inr, true, false, ◌&&◌,
  not, List, arith, ltb, ◌==◌, if◌then◌else◌,
}
use atomics_for_peace_and_sy.Threads.{System, le-sum_over}
use atomics_for_peace_and_sy.Futex.{AtomicWait}
use atomics_for_peace_and_sy.RwLock.{
  RwLock, new, Pc, outside, viewed, read_exchange, read_enter, write_claim, write_mark, write_enter,
  try_write_claim, try_read_exchange, read_release, write_store, would_block, read_loop, write_loop,
  Thread, Choice, view, assign, Next, weak_fails, exchange, add_u32, client, step, step_at, program,
  u32_max,
}
use atomics_for_peace_and_sy.RwLock.Inv.{Inv, readers, writers, max_threads}
use atomics_for_peace_and_sy.RwLock.Moves.{step-Inv, readers-le}
use atomics_for_peace_and_sy.RwLock.Exclusion.{execute, fresh_thread, init-Inv}
use atomics_for_peace_and_sy.RwLockSpec.{
  Shared, shared, writing, Label, internal, shares, unshares, takes, gives, sees, writes, Move,
  rest, share, unshare, take, give, see_shared, see_own, write, relabel,
}
use atomics_for_peace_and_sy.Simulation.{Trace, Implementation, history}
use atomics_for_peace_and_sy.Simulation.OverFutex.{Steps, implementation, run-Trace}

module _ {T : Type 0} where
  abbrev client_label : Choice T → RwLock T → Thread T → Label T
  client_label view m t = if ltb 0 (t.reads + t.writes) then sees m.data_cell else internal
  client_label (assign v) m t = if ltb 0 t.writes then writes v else internal
  client_label c m t = internal

  -- what an exchange of `expected` does when it succeeds
  abbrev exchange_label : Bool → ℕ → RwLock T → Label T → Label T
  exchange_label fails expected m l = if m.state == expected && not fails then l else internal

  abbrev label_at : Choice T → RwLock T → Thread T → Pc T → Label T
  label_at c m t (outside last) = client_label c m t
  label_at c m t (viewed v) = client_label c m t
  label_at c m t (read_exchange state) = exchange_label (weak_fails c) state m shares
  label_at c m t (write_claim state) = exchange_label false state m takes
  label_at c m t (try_write_claim state) = exchange_label false state m takes
  label_at c m t (try_read_exchange state) = exchange_label false state m shares
  label_at c m t read_release = unshares
  label_at c m t write_store = gives
  label_at c m t p = internal

  -- the lock that the memory stands for: the lowest bit of the word is a writer's mark
  abbrev pub lock_of : RwLock T → Shared T
  lock_of m = if m.state == u32_max then writing m.data_cell else shared (m.state / 2) m.data_cell

  module _ (futex : AtomicWait) {n : ℕ} (few : n ≤ max_threads) {m : RwLock T} {pc : ℕ → Thread T}
      (inv : Inv n m pc) (i : ℕ) (lt : i < n) where
    -- A thread with a guard of a lock that nobody writes is among the readers that the word counts.
    counted :
        ltb 0 ((pc i).reads + (pc i).writes) ≡ true
        → (m.state == u32_max) ≡ false
        → m.state / 2 ≡ suc (m.state / 2 - 1)
    counted has other =
        ground (arith, inv.word, le-sum_over writers n pc i, le-sum_over readers n pc i)

    client_simulates :
        (c : Choice T)
        → Move i (client_label c m (pc i)) (lock_of m) (lock_of (client c m (pc i)).0)
    unfolding client
    client_simulates view = elim (Bool-cases (ltb 0 ((pc i).reads + (pc i).writes))) [
      | inl has ↦ elim (Bool-cases (m.state == u32_max)) [
        | inl own ↦
            relabel {l' = sees m.data_cell} {s' = writing m.data_cell} {t' = writing m.data_cell}
              (rw has refl) (ground arith) (ground arith) see_own
        | inr other ↦
            relabel {l' = sees m.data_cell} {s' = shared (suc (m.state / 2 - 1)) m.data_cell}
              {t' = shared (suc (m.state / 2 - 1)) m.data_cell} (rw has refl)
              (ground (arith, counted has other)) (ground (arith, counted has other)) see_shared
      ]
      | inr without ↦ relabel {l' = internal} (rw without refl) refl (ground arith) rest
    ]
    client_simulates (assign v) = elim (Bool-cases (ltb 0 (pc i).writes)) [
      | inl has ↦
          relabel {l' = writes v} {s' = writing m.data_cell} {t' = writing v} (rw has refl)
            (ground (arith, inv.word, le-sum_over writers n pc i))
            (ground (arith, inv.word, le-sum_over writers n pc i)) write
      | inr without ↦ relabel {l' = internal} (rw without refl) refl (ground arith) rest
    ]
    client_simulates c = relabel refl refl (ground arith) rest

    read_simulates :
        (fails : Bool) (state : ℕ) (lost : ℕ → Pc T) (next : Next T)
        → next ≡ exchange fails state (add_u32 state 2) m (pc i) read_enter lost
        → state % 2 ≡ 0
        → Move i (exchange_label fails state m shares) (lock_of m) (lock_of next.0)
    read_simulates fails state lost next e even =
        elim (Bool-cases (m.state == state && not fails)) [
          | inl won ↦
              relabel {l' = shares} {s' = shared (state / 2) m.data_cell}
                {t' = shared (suc (state / 2)) m.data_cell} (rw won refl) (ground (arith, inv.word))
                (ground (arith, inv.word, readers-le few pc inv.each)) share
          | inr lost ↦ relabel {l' = internal} (rw lost refl) refl (ground arith) rest
        ]

    write_simulates :
        (fails : Bool) (state : ℕ) (lost : ℕ → Pc T) (next : Next T)
        → next ≡ exchange fails state u32_max m (pc i) write_enter lost
        → state ≤ 1
        → Move i (exchange_label fails state m takes) (lock_of m) (lock_of next.0)
    write_simulates fails state lost next e unlocked =
        elim (Bool-cases (m.state == state && not fails)) [
          | inl won ↦
              relabel {l' = takes} {s' = shared 0 m.data_cell} {t' = writing m.data_cell}
                (rw won refl) (ground arith) (ground arith) take
          | inr lost ↦ relabel {l' = internal} (rw lost refl) refl (ground arith) rest
        ]

    move_simulates :
        (c : Choice T) (p : Pc T) (next : Next T)
        → (pc i).at ≡ p
        → next ≡ step_at futex c m (pc i) p
        → Move i (label_at c m (pc i) p) (lock_of m) (lock_of next.0)
    unfolding step_at
    move_simulates c (outside last) next e f = rw f (client_simulates c)
    move_simulates c (viewed v) next e f = rw f (client_simulates c)
    move_simulates c (read_exchange state) next e f =
        read_simulates (weak_fails c) state read_loop next f (ground (arith, (inv.each i lt).place))
    move_simulates c (try_read_exchange state) next e f =
        read_simulates false state (λ _. outside would_block) next f
          (ground (arith, (inv.each i lt).place))
    move_simulates c (write_claim state) next e f =
        write_simulates false state write_loop next f (ground (arith, (inv.each i lt).place))
    move_simulates c (try_write_claim state) next e f =
        write_simulates false state (λ _. outside would_block) next f
          (ground (arith, (inv.each i lt).place))
    move_simulates c read_release next e f =
        relabel {l' = unshares} {s' = shared (suc (m.state / 2 - 1)) m.data_cell}
          {t' = shared (m.state / 2 - 1) m.data_cell} refl
          (ground (
            arith,
            inv.word,
            (inv.each i lt).place,
            le-sum_over readers n pc i,
            readers-le few pc inv.each,
          ))
          (ground (
            arith,
            inv.word,
            (inv.each i lt).place,
            le-sum_over readers n pc i,
            readers-le few pc inv.each,
          ))
          unshare
    move_simulates c write_store next e f =
        relabel {l' = gives} {s' = writing m.data_cell} {t' = shared 0 m.data_cell} refl
          (ground (arith, inv.word, (inv.each i lt).place, le-sum_over writers n pc i))
          (ground arith) give
    move_simulates c (write_mark state) next e f =
        relabel {l' = internal} refl refl
          (ground (arith, inv.word, (inv.each i lt).place, readers-le few pc inv.each)) rest
    move_simulates c p next e f = relabel {l' = internal} refl refl (ground arith) rest

    pub step_simulates :
        (c : Choice T)
        → Move i (label_at c m (pc i) (pc i).at) (lock_of m) (lock_of (step futex i c m (pc i)).0)
    unfolding step
    step_simulates c = move_simulates c (pc i).at _ refl refl

abbrev pub start : {T : Type 0} → ℕ → T → System (RwLock T) (Thread T)
start id d = record { mem = new id d; pc = λ _. fresh_thread }

module _ {T : Type 0} (futex : AtomicWait) (n : ℕ) (few : n ≤ max_threads) where
  abbrev pub steps : Steps (Move {T = T}) internal futex (program {T = T} futex) n
  steps = record {
    rest = λ i s. rest;
    thread_id = λ i. i;
    label = λ i c s. label_at c s.mem (s.pc i) (s.pc i).at;
    view = λ s. lock_of s.mem;
    Inv = λ s. Inv n s.mem s.pc;
    keeps = λ s i c k lt inv. step-Inv few futex s i c k lt inv;
    simulates = λ s i c k lt inv. step_simulates futex few inv i lt c;
  }

  -- The read-write lock, with its invariant, implements the abstract one.
  abbrev pub rwlock : Implementation (Move {T = T}) (RwLock T) (Thread T) (ℕ × Choice T × ℕ)
  rwlock = implementation steps

  -- The read-write lock is the abstract one, however at most 2^31 - 2 threads interleave, sleep and
  -- are woken: what the steps of a schedule do to it, who begins and ends to share it or to have it
  -- alone, and who sees or writes its data, in their order, is a history of the abstract lock from
  -- nobody with the first data to what the memory stands for at the end.
  pub rwlock_refines :
      (id : ℕ) (d : T) (es : List (ℕ × Choice T × ℕ))
      → Trace Move
          (history rwlock (start id d) es)
          (shared 0 d)
          (lock_of (execute futex n (new id d) es).mem)
  unfolding execute
  rwlock_refines id d es = run-Trace steps (start id d) es (init-Inv n id d)
