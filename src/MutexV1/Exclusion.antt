-- ===== src/MutexV1/Exclusion.antt =====
-- src/mutex_v1.rs: what the mutex gives its clients in every interleaving.
use atomics_for_peace_and_sy.Base.{
  Bool-cases, ℕ, ◌+◌, ◌≤◌, ◌<◌, ◌≡◌, refl, ◌≢◌, inl, inr, true, List, arith, ◌==◌, if◌then◌else◌,
}
use atomics_for_peace_and_sy.Threads.{
  System, update, sum_over, sum_over-update, le-sum_over, add-le-sum_over, sum_over-eq-zero,
  sum_over_witness, exec, run, run-keeps,
}
use atomics_for_peace_and_sy.Spinlock.Exclusion.{ThreadIds}
use atomics_for_peace_and_sy.MutexV1.{
  Mutex, new, Pc, no_call, outside, viewed, check, enqueue_push, enqueue_release, enter, leave,
  leave_store, dequeue_pop, dequeue_release, Thread, Choice, Next, client, step, step_at,
}

-- The thread has the mutex: a guard, or a won exchange.
abbrev pub holders : {T : Type 0} → Thread T → ℕ
holders t = t.guards + elim t.at [ enter ↦ 1 | _ ↦ 0 ]

-- The thread has the queue.
abbrev pub queue_holders : {T : Type 0} → Thread T → ℕ
queue_holders t = elim t.at [
  | enqueue_push ↦ 1
  | enqueue_release ↦ 1
  | dequeue_pop ↦ 1
  | dequeue_release popped ↦ 1
  | _ ↦ 0
]

-- The number of guards at each place, and what a read has found.
abbrev pub Place : {T : Type 0} → Mutex T → ℕ → Pc T → Type 0
Place m g (outside last) = g ≤ 1
Place m g (viewed v) = (g ≡ 1) × (m.data_cell ≡ v)
Place m g (check try) = g ≤ 1
Place m g (leave panicking) = g ≡ 1
Place m g leave_store = g ≡ 1
Place m g p = g ≡ 0

pub record Inv {T : Type 0} (thread_id : ℕ → ℕ) (n : ℕ) (m : Mutex T) (pc : ℕ → Thread T)
    : Type 0 where
  pub count : sum_over holders n pc ≡ (if m.state == 0 then 0 else 1)
  pub owner : (i : ℕ) → i < n → 0 < holders (pc i) → m.state ≡ thread_id i
  pub each : (i : ℕ) → i < n → Place m (pc i).guards (pc i).at
  pub queueing : sum_over queue_holders n pc ≡ (if m.queue_is_accessed then 1 else 0)

module _ {T : Type 0} {thread_id : ℕ → ℕ} (ids : ThreadIds thread_id) {n : ℕ} where
  module _ {m : Mutex T} {pc : ℕ → Thread T} (inv : Inv thread_id n m pc) (i : ℕ) (lt : i < n)
      (c : Choice T) where
    open inv use {count, owner, each, queueing}

    abbrev after : Pc T → Next T
    after p = step_at thread_id i c m (pc i) p

    -- A thread that finds its own identifier in the word has the mutex.
    pub owner-holders : m.state ≡ thread_id i → 0 < holders (pc i)
    owner-holders e =
        let (k, lk, pos) = sum_over_witness holders n pc (ground (arith, count, ids.nonzero i)) in
        ground (arith, owner k, ids.distinct i k)

    move-count :
        (p : Pc T)
        → (pc i).at ≡ p
        → sum_over holders n (update pc i (after p).1) ≡ (if (after p).0.state == 0 then 0 else 1)
    unfolding step_at client
    move-count (outside last) e =
        ground (arith, count, each i, sum_over-update holders n pc i (after (outside last)).1)
    move-count p e = ground (
      arith,
      count,
      each i,
      ids.nonzero i,
      le-sum_over holders n pc i,
      sum_over-update holders n pc i (after p).1,
    )

    move-queueing :
        (p : Pc T)
        → (pc i).at ≡ p
        → sum_over queue_holders n (update pc i (after p).1)
          ≡ (if (after p).0.queue_is_accessed then 1 else 0)
    unfolding step_at client
    move-queueing (outside last) e =
        ground (arith, queueing, sum_over-update queue_holders n pc i (after (outside last)).1)
    move-queueing p e = ground (
      arith,
      queueing,
      le-sum_over queue_holders n pc i,
      sum_over-update queue_holders n pc i (after p).1,
    )

    move_self :
        (p : Pc T)
        → (pc i).at ≡ p
        → Place (after p).0 (after p).1.guards (after p).1.at
          × (0 < holders (after p).1 → (after p).0.state ≡ thread_id i)
    unfolding step_at client
    move_self (outside last) e = ground (arith, each i, owner i)
    move_self p e = ground (arith, each i, owner i, owner-holders)

    move-other :
        (p : Pc T)
        → (pc i).at ≡ p
        → (j : ℕ) → j < n
        → i ≢ j
        → Place (after p).0 (pc j).guards (pc j).at
          × (0 < holders (pc j) → (after p).0.state ≡ thread_id j)
    unfolding step_at client
    move-other (outside last) e j lj ne =
        ground (arith, each i, each j, owner j, count, add-le-sum_over holders n pc i j)
    move-other p e j lj ne = ground (
      arith,
      each i,
      each j,
      owner j,
      count,
      le-sum_over holders n pc j,
      add-le-sum_over holders n pc i j,
    )

    move-Inv : (p : Pc T) → (pc i).at ≡ p → Inv thread_id n (after p).0 (update pc i (after p).1)
    move-Inv p e = record {
      count = move-count p e;
      owner = λ j lj. elim (Bool-cases (i == j)) [
        | inl same ↦ ground (arith, move_self p e)
        | inr other ↦ ground (arith, move-other p e j lj)
      ];
      each = λ j lj. elim (Bool-cases (i == j)) [
        | inl same ↦ rw same ((move_self p e).0)
        | inr other ↦ rw other ((move-other p e j lj (ground arith)).0)
      ];
      queueing = move-queueing p e;
    }

  pub step-Inv :
      (s : System (Mutex T) (Thread T)) (i : ℕ) (c : Choice T)
      → i < n
      → Inv thread_id n s.mem s.pc
      → let t = exec (step thread_id) n s i c in Inv thread_id n t.mem t.pc
  unfolding step
  step-Inv s i c lt inv = move-Inv inv i lt c (s.pc i).at refl

abbrev pub fresh_thread : {T : Type 0} → Thread T
fresh_thread = record { guards = 0; at = outside no_call }

-- The mutex in use by `n` threads, from its creation on.
unfoldable pub execute :
    {T : Type 0} → (ℕ → ℕ) → ℕ → T → List (ℕ × Choice T) → System (Mutex T) (Thread T)
execute thread_id n d es =
    run (step thread_id) n (record { mem = new d; pc = λ _. fresh_thread }) es

pub init-Inv :
    {T : Type 0} (thread_id : ℕ → ℕ) (n : ℕ) (d : T) → Inv thread_id n (new d) (λ _. fresh_thread)
init-Inv thread_id n d = record {
  count = sum_over-eq-zero {0} holders n (λ _. fresh_thread) (λ i lt. refl);
  owner = λ i lt h. absurd (omega arith);
  each = λ i lt. omega arith;
  queueing = sum_over-eq-zero {0} queue_holders n (λ _. fresh_thread) (λ i lt. refl);
}

module _ {T : Type 0} {thread_id : ℕ → ℕ} (ids : ThreadIds thread_id) (n : ℕ) (d : T)
    (es : List (ℕ × Choice T)) where
  -- the state that the schedule reaches
  abbrev reached : System (Mutex T) (Thread T)
  reached = execute thread_id n d es

  execute-Inv : Inv thread_id n reached.mem reached.pc
  unfolding execute
  execute-Inv =
      run-keeps (step thread_id) n (λ s. Inv thread_id n s.mem s.pc)
        (λ s i c lt inv. step-Inv ids s i c lt inv) _ es (init-Inv thread_id n d)

  -- However the threads interleave, no two threads have a guard of the mutex at the same time, no
  -- thread has two, and the word is the identifier of the thread that has one, if identifiers are
  -- distinct and not 0.
  pub owned_by_one :
      (i j : ℕ)
      → i < n
      → j < n
      → 0 < (reached.pc i).guards
      → 0 < (reached.pc j).guards
      → (i ≡ j) × ((reached.pc i).guards ≡ 1) × (reached.mem.state ≡ thread_id i)
  owned_by_one i j li lj hi hj = ground (
    arith,
    execute-Inv.count,
    execute-Inv.owner i,
    le-sum_over holders n reached.pc i,
    add-le-sum_over holders n reached.pc i j,
  )

  -- The queue of parked threads is never accessed by two threads at the same time, and only while
  -- `queue_is_accessed` is set, if thread identifiers are distinct and not 0.
  pub queue_exclusive :
      (i j : ℕ)
      → i < n
      → j < n
      → 0 < queue_holders (reached.pc i)
      → 0 < queue_holders (reached.pc j)
      → (i ≡ j) × (reached.mem.queue_is_accessed ≡ true)
  queue_exclusive i j li lj hi hj = ground (
    arith,
    execute-Inv.queueing,
    le-sum_over queue_holders n reached.pc i,
    add-le-sum_over queue_holders n reached.pc i j,
  )

  -- What a thread has read through its guard is still the mutex's data whenever it uses it.
  pub guarded_data_current :
      (i : ℕ) (v : T) → i < n → (reached.pc i).at ≡ viewed v → reached.mem.data_cell ≡ v
  guarded_data_current i v lt e = ground (arith, execute-Inv.each i)
