-- ===== src/Spinlock/Exclusion.antt =====
-- src/spinlock.rs: what holds of the spinlock in every interleaving.
use atomics_for_peace_and_sy.Base.{
  ℕ, ◌<◌, ◌≡◌, refl, ◌≢◌, Bool, true, false, if◌then◌else◌, List, arith, sym, ◌∙◌,
}
use atomics_for_peace_and_sy.Threads.{
  System, update, exec, run, run-keeps, sum_over, sum_over-update, sum_over_witness,
}
use atomics_for_peace_and_sy.Spinlock.{
  SpinLock, new, Pc, idle, check, spin, exchange, viewed, panicking, Choice, call_lock, step, holds,
}

-- The lock in use by `n` threads, from its creation on.
unfoldable pub execute :
    {T : Type 0} → (ℕ → ℕ) → ℕ → T → List (ℕ × Choice T) → System (SpinLock T) (Pc T)
execute thread_id n d es =
    run (λ i. step (thread_id i)) n (record { mem = new d; pc = λ _. idle }) es

-- `thread_id::get()` of each thread: what the lock relies on.
pub record ThreadIds (thread_id : ℕ → ℕ) : Type 0 where
  pub nonzero : (i : ℕ) → thread_id i ≢ 0
  pub distinct : (i j : ℕ) → thread_id i ≡ thread_id j → i ≡ j

-- What a thread's position says of the memory.
abbrev pub Sees : {T : Type 0} → SpinLock T → Pc T → Type 0
Sees m (viewed v) = m.data_cell ≡ v
Sees m (spin true) = ⊥
Sees m (exchange true) = ⊥
Sees m (panicking false) = ⊥
Sees m p = Unit

abbrev pub guards : {T : Type 0} → Pc T → ℕ
guards p = if holds p then 1 else 0

pub record Inv {T : Type 0} (thread_id : ℕ → ℕ) (n : ℕ) (m : SpinLock T) (pc : ℕ → Pc T)
    : Type 0 where
  pub owner : (i : ℕ) → holds (pc i) ≡ true → m.locking_thread ≡ thread_id i
  sees : (i : ℕ) → Sees m (pc i)
  taken : m.locking_thread ≢ 0 → 0 < sum_over guards n pc

module _ {T : Type 0} {thread_id : ℕ → ℕ} (ids : ThreadIds thread_id) (n : ℕ) where
  module _ {m : SpinLock T} {pc : ℕ → Pc T} (inv : Inv thread_id n m pc) (i : ℕ) where
    open inv use {owner, sees, taken}

    -- Only a thread with a guard finds its own identifier in the word.
    owner-holds : m.locking_thread ≡ thread_id i → holds (pc i) ≡ true
    owner-holds e =
        let (k, lt, pos) = sum_over_witness guards n pc (taken (λ z. ids.nonzero i (sym e ∙ z))) in
        ground (arith, owner k, ids.distinct i k)

    step-owner :
        (c : Choice T) (p : Pc T)
        → pc i ≡ p
        → (j : ℕ)
        → let (m', p') = step (thread_id i) c m p in
          holds (update pc i p' j) ≡ true → m'.locking_thread ≡ thread_id j
    unfolding step
    step-owner call_lock idle e j =
        λ h. ground (arith, owner j, owner i, ids.nonzero j, ids.distinct i j)
    step-owner c p e j =
        λ h. ground (arith, sees i, owner j, owner i, ids.nonzero j, ids.distinct i j)

    step-Sees :
        (c : Choice T) (p : Pc T)
        → pc i ≡ p
        → (j : ℕ) → let (m', p') = step (thread_id i) c m p in Sees m' (update pc i p' j)
    unfolding step
    step-Sees call_lock idle e j = ground (arith, sees j)
    step-Sees c p e j =
        ground
          (arith, sees i, sees j, owner j, owner i, owner-holds, ids.nonzero i, ids.distinct i j)

    step-taken :
        (c : Choice T) (p : Pc T)
        → pc i ≡ p
        → i < n
        → let (m', p') = step (thread_id i) c m p in
          m'.locking_thread ≢ 0 → 0 < sum_over guards n (update pc i p')
    unfolding step
    step-taken call_lock idle e lt =
        λ h. ground (arith, taken h, sum_over-update guards n pc i (check false))
    step-taken c p e lt = λ h.
        ground (arith, taken, sees i, sum_over-update guards n pc i (step (thread_id i) c m p).1)

  pub step-Inv :
      (s : System (SpinLock T) (Pc T)) (i : ℕ) (c : Choice T)
      → i < n
      → Inv thread_id n s.mem s.pc
      → let t = exec (λ k. step (thread_id k)) n s i c in Inv thread_id n t.mem t.pc
  step-Inv s i c lt inv = record {
    owner = step-owner inv i c (s.pc i) refl;
    sees = step-Sees inv i c (s.pc i) refl;
    taken = step-taken inv i c (s.pc i) refl lt;
  }

  pub init-Inv : (d : T) → Inv thread_id n (new d) (λ _. idle)
  init-Inv d = record { owner = λ i h. cc; sees = λ i. tt; taken = λ h. absurd (h refl) }

  run-Inv :
      (d : T) (es : List (ℕ × Choice T))
      → let s = execute thread_id n d es in Inv thread_id n s.mem s.pc
  unfolding execute
  run-Inv d es =
      run-keeps (λ k. step (thread_id k)) n (λ s. Inv thread_id n s.mem s.pc) step-Inv _ es
        (init-Inv d)

  -- However the threads interleave, and whatever their clients do, no two threads have a guard of
  -- the same spinlock, if thread identifiers are distinct and not 0.
  pub one_guard :
      (d : T) (es : List (ℕ × Choice T)) (i j : ℕ)
      → holds ((execute thread_id n d es).pc i) ≡ true
      → holds ((execute thread_id n d es).pc j) ≡ true
      → i ≡ j
  one_guard d es i j hi hj =
      ids.distinct i j (sym ((run-Inv d es).owner i hi) ∙ (run-Inv d es).owner j hj)

  -- What a thread has read through its guard is still the lock's data whenever it uses it, whatever
  -- the other threads do: no write of another thread comes between.
  pub viewed_current :
      (d : T) (es : List (ℕ × Choice T)) (i : ℕ) (v : T)
      → (execute thread_id n d es).pc i ≡ viewed v
      → (execute thread_id n d es).mem.data_cell ≡ v
  viewed_current d es i v h = ground (arith, (run-Inv d es).sees i)

  -- Whenever the lock's word is not 0, one of the threads has a guard: the lock is never left
  -- locked by nobody, after a panic neither.
  pub never_orphaned :
      (d : T) (es : List (ℕ × Choice T))
      → (execute thread_id n d es).mem.locking_thread ≢ 0
      → (i : ℕ) × (i < n) × (holds ((execute thread_id n d es).pc i) ≡ true)
  never_orphaned d es h =
      let (i, lt, pos) = sum_over_witness guards n _ ((run-Inv d es).taken h) in
      (i, lt, ground arith)

  -- The first load of `lock` panics exactly in a thread that already has a guard: a thread that
  -- re-enters panics, still with its guard, and any other goes on to spin.
  pub reentry_panics :
      (d : T) (es : List (ℕ × Choice T)) (c : Choice T) (i : ℕ) (owns : Bool)
      → let s = execute thread_id n d es in
        s.pc i ≡ check owns
        → step (thread_id i) c s.mem (check owns)
          ≡ (s.mem, if owns then panicking true else spin false)
  unfolding step
  reentry_panics d es c i owns h =
      ground (arith, (run-Inv d es).owner i, owner-holds (run-Inv d es) i)
