-- ===== src/RwLock/Exclusion.antt =====
-- src/rwlock.rs: what the read-write lock gives its clients in every interleaving.
use atomics_for_peace_and_sy.Base.{ℕ, ◌+◌, ◌*◌, ◌≤◌, ◌<◌, ◌≡◌, refl, ◌≢◌, ◌⊎◌, List, [], arith}
use atomics_for_peace_and_sy.Threads.{
  System, sum_over, add-le-sum_over, le-sum_over, sum_over-eq-zero,
}
use atomics_for_peace_and_sy.ThreadLocal.{contains-nil}
use atomics_for_peace_and_sy.Futex.{AtomicWait, run, run-keeps}
use atomics_for_peace_and_sy.RwLock.{
  RwLock, new, no_call, too_many_readers, read_exchange, outside, viewed, Thread, Choice, program,
  u32_max,
}
use atomics_for_peace_and_sy.RwLock.Inv.{readers, writers, Inv, max_threads}
use atomics_for_peace_and_sy.RwLock.Moves.{step-Inv, readers-le}

abbrev pub fresh_thread : {T : Type 0} → Thread T
fresh_thread = record { acquired_ids = []; reads = 0; writes = 0; at = outside no_call }

-- The lock in use by `n` threads, from its creation on.
unfoldable pub execute :
    {T : Type 0}
    → AtomicWait
    → ℕ
    → RwLock T
    → List (ℕ × Choice T × ℕ)
    → System (RwLock T) (Thread T)
execute futex n m es = run futex (program futex) n (record { mem = m; pc = λ _. fresh_thread }) es

pub init-Inv : {T : Type 0} (n id : ℕ) (d : T) → Inv n (new id d) (λ _. fresh_thread)
init-Inv n id d = record {
  word = omega (
    arith,
    sum_over-eq-zero {0} readers n (λ _. fresh_thread) (λ i lt. refl),
    sum_over-eq-zero {0} writers n (λ _. fresh_thread) (λ i lt. refl),
  );
  each = λ i lt. record { place = (omega arith, λ e. cc); listed = contains-nil id };
}

module _ {T : Type 0} (futex : AtomicWait) (n id : ℕ) (d : T) (es : List (ℕ × Choice T × ℕ))
    (few : n ≤ max_threads) where
  -- the state that the schedule reaches
  abbrev reached : System (RwLock T) (Thread T)
  reached = execute futex n (new id d) es

  pub execute-Inv : Inv n reached.mem reached.pc
  unfolding execute
  execute-Inv =
      run-keeps futex (program futex) n (λ s. Inv n s.mem s.pc)
        (λ s i c k lt inv. step-Inv few futex s i c k lt inv) _ es (init-Inv n id d)

  -- However at most 2^31 - 2 threads interleave: while a thread has a write guard, no other thread
  -- has a guard of either kind, and it has no other guard itself.
  pub writer_excludes :
      (i j : ℕ)
      → i < n
      → j < n
      → 0 < (reached.pc i).writes
      → 0 < (reached.pc j).reads + (reached.pc j).writes
      → (i ≡ j) × ((reached.pc i).writes ≡ 1) × ((reached.pc i).reads ≡ 0)
  writer_excludes i j li lj hi hj = ground (
    arith,
    execute-Inv.word,
    le-sum_over writers n reached.pc i,
    le-sum_over readers n reached.pc i,
    le-sum_over readers n reached.pc j,
    add-le-sum_over writers n reached.pc i j,
  )

  -- What a thread has read through a guard is still the lock's data whenever it uses it.
  pub guarded_data_stable :
      (i : ℕ) (v : T) → i < n → (reached.pc i).at ≡ viewed v → reached.mem.data_cell ≡ v
  guarded_data_stable i v lt e = ground (arith, execute-Inv.each i)

  -- The word: u32::MAX exactly while one thread has the lock for writing and none for reading, and
  -- otherwise twice the number of readers, plus 1 if a writer has left its mark.
  pub word_meaning :
      let r = sum_over readers n reached.pc in
      let w = sum_over writers n reached.pc in
      ((w ≡ 0) × ((reached.mem.state ≡ 2 * r) ⊎ (reached.mem.state ≡ 2 * r + 1)))
      ⊎ ((w ≡ 1) × (r ≡ 0) × (reached.mem.state ≡ u32_max))
  word_meaning = execute-Inv.word

  -- With at most 2^31 - 2 threads no call returns `TooManyReaders`, and the count of readers does
  -- not overflow: a reader whose exchange can succeed adds 2 to the word without reaching the value
  -- that stands for a writer.
  pub readers_fit :
      (i : ℕ)
      → i < n
      → ((reached.pc i).at ≢ outside too_many_readers)
        × ((reached.pc i).at ≡ read_exchange reached.mem.state → reached.mem.state + 2 < u32_max)
  readers_fit i lt = (
    λ e. ground (arith, execute-Inv.each i),
    λ e.
        ground
          (arith, execute-Inv.word, execute-Inv.each i, readers-le few reached.pc execute-Inv.each),
  )
