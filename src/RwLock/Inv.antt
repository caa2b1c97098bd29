-- ===== src/RwLock/Inv.antt =====
-- src/rwlock.rs: the invariant of the read-write lock, which a wake-up of sleepers keeps.
use atomics_for_peace_and_sy.Base.{
  ℕ, ◌+◌, ◌-◌, ◌*◌, ◌%◌, ◌^◌, ◌≤◌, ◌<◌, ◌≡◌, refl, ◌≢◌, ◌⊎◌, inl, inr, Bool, true, false, ◌&&◌,
  arith, ltb, ◌==◌, if◌then◌else◌, Bool-cases,
}
use atomics_for_peace_and_sy.Threads.{update, sum_over, sum_over-update, sum_over-map}
use atomics_for_peace_and_sy.ThreadLocal.{contains}
use atomics_for_peace_and_sy.RwLock.{
  RwLock, too_many_readers, Pc, outside, viewed, read_check, read_sleep, read_exchange, read_block,
  read_block_sleep, read_enter, write_check, write_claim, write_mark, write_enter, try_write_check,
  try_write_claim, try_read_check, try_read_exchange, read_leave, read_release, write_leave,
  write_bump, write_store, Thread, asleep, woken, u32_max,
}

-- The thread has the lock for reading: a read guard, or a won exchange.
abbrev pub readers : {T : Type 0} → Thread T → ℕ
readers t = t.reads + elim t.at [ read_enter ↦ 1 | _ ↦ 0 ]

-- The thread has the lock for writing.
abbrev pub writers : {T : Type 0} → Thread T → ℕ
writers t = t.writes + elim t.at [ write_enter ↦ 1 | _ ↦ 0 ]

-- How many guards a thread has at each place, and what its local variables are known to be.
abbrev pub Place : {T : Type 0} → RwLock T → (reads writes : ℕ) → Pc T → Type 0
Place m r w (outside last) = (r + w ≤ 1) × (last ≢ too_many_readers)
Place m r w (viewed v) = (r + w ≡ 1) × (m.data_cell ≡ v)
Place m r w read_check = r + w ≤ 1
Place m r w write_check = r + w ≤ 1
Place m r w try_read_check = r + w ≤ 1
Place m r w try_write_check = r + w ≤ 1
Place m r w read_leave = (r ≡ 1) × (w ≡ 0)
Place m r w read_release = (r ≡ 1) × (w ≡ 0)
Place m r w (write_leave panicking) = (r ≡ 0) × (w ≡ 1)
Place m r w write_bump = (r ≡ 0) × (w ≡ 1)
Place m r w write_store = (r ≡ 0) × (w ≡ 1)
Place m r w (read_exchange s) = (r ≡ 0) × (w ≡ 0) × (s % 2 ≡ 0)
Place m r w (read_block s) = (r ≡ 0) × (w ≡ 0) × (s ≡ u32_max)
Place m r w (read_block_sleep s) = (r ≡ 0) × (w ≡ 0) × (s ≡ u32_max)
Place m r w (try_read_exchange s) = (r ≡ 0) × (w ≡ 0) × (s % 2 ≡ 0)
Place m r w (write_claim s) = (r ≡ 0) × (w ≡ 0) × (s ≤ 1)
Place m r w (try_write_claim s) = (r ≡ 0) × (w ≡ 0) × (s ≤ 1)
Place m r w (write_mark s) = (r ≡ 0) × (w ≡ 0) × (s % 2 ≡ 0)
Place m r w p = (r ≡ 0) × (w ≡ 0)

-- The identifier is in the thread's set while it has a guard, until the guard's `drop` removes it.
abbrev pub registered : {T : Type 0} → Thread T → Bool
registered t =
    ltb 0 (t.reads + t.writes)
    && elim t.at [ read_release ↦ false | write_bump ↦ false | write_store ↦ false | _ ↦ true ]

pub record Local {T : Type 0} (m : RwLock T) (t : Thread T) : Type 0 where
  pub place : Place m t.reads t.writes t.at
  pub listed : contains t.acquired_ids m.rwlock_id ≡ registered t

-- The word says how many threads read, with the lowest bit for a waiting writer, or that one
-- writes.
abbrev pub Word : (state reading writing : ℕ) → Type 0
Word state r w =
    ((w ≡ 0) × ((state ≡ 2 * r) ⊎ (state ≡ 2 * r + 1))) ⊎ ((w ≡ 1) × (r ≡ 0) × (state ≡ u32_max))

pub record Inv {T : Type 0} (n : ℕ) (m : RwLock T) (pc : ℕ → Thread T) : Type 0 where
  pub word : Word m.state (sum_over readers n pc) (sum_over writers n pc)
  pub each : (i : ℕ) → i < n → Local m (pc i)

-- The number of threads for which the count of readers fits in the word.
abbrev pub max_threads : ℕ
max_threads = 2 ^ 31 - 2

-- Waking a sleeper changes nobody's guards.
module _ {T : Type 0} where
  pub woken-Local :
      (a : ℕ) (m : RwLock T) (t : Thread T) (p : Pc T)
      → t.at ≡ p
      → asleep a t ≡ true
      → Local m t
      → Local m (woken t)
  woken-Local a m t read_sleep e h l = ground (arith, l)
  woken-Local a m t p e h l = ground (arith, l)

  pub woken-counts :
      (a : ℕ) (t : Thread T) (p : Pc T)
      → t.at ≡ p
      → asleep a t ≡ true
      → (readers (woken t) ≡ readers t) × (writers (woken t) ≡ writers t)
  woken-counts a t read_sleep e h = ground arith
  woken-counts a t p e h = ground arith

module _ {T : Type 0} (n : ℕ) (m : RwLock T) (pc : ℕ → Thread T) (inv : Inv n m pc) (a : ℕ) where
  open inv use {word, each}

  pub wake_one-Inv : (j : ℕ) → j < n → asleep a (pc j) ≡ true → Inv n m (update pc j (woken (pc j)))
  wake_one-Inv j lt slept = record {
    word = ground (
      arith,
      word,
      woken-counts a (pc j) (pc j).at refl slept,
      sum_over-update readers n pc j (woken (pc j)),
      sum_over-update writers n pc j (woken (pc j)),
    );
    each = λ i li. elim (Bool-cases (j == i)) [
      | inl same ↦ rw same (woken-Local a m (pc j) (pc j).at refl slept (each j lt))
      | inr other ↦ rw other (each i li)
    ];
  }

  abbrev pub all_woken : ℕ → Thread T
  all_woken j = if asleep a (pc j) then woken (pc j) else pc j

  all_woken-readers : (j : ℕ) → readers (all_woken j) ≡ readers (pc j)
  all_woken-readers j = elim (Bool-cases (asleep a (pc j))) [
    | inl slept ↦ rw slept (woken-counts a (pc j) (pc j).at refl slept).0
    | inr awake ↦ rw awake
  ]

  all_woken-writers : (j : ℕ) → writers (all_woken j) ≡ writers (pc j)
  all_woken-writers j = elim (Bool-cases (asleep a (pc j))) [
    | inl slept ↦ rw slept (woken-counts a (pc j) (pc j).at refl slept).1
    | inr awake ↦ rw awake
  ]

  pub wake_all-Inv : Inv n m all_woken
  wake_all-Inv = record {
    word =
        rw
          (
            sum_over-map readers n pc all_woken all_woken-readers,
            sum_over-map writers n pc all_woken all_woken-writers,
          )
          word;
    each = λ j lt. elim (Bool-cases (asleep a (pc j))) [
      | inl slept ↦ rw slept (woken-Local a m (pc j) (pc j).at refl slept (each j lt))
      | inr awake ↦ rw awake (each j lt)
    ];
  }
