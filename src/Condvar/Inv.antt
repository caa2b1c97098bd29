-- ===== src/Condvar/Inv.antt =====
-- src/condvar.rs: what the counter of notifications and `waiting` say of the threads.
use atomics_for_peace_and_sy.Base.{ℕ, ◌+◌, ◌≤◌, ◌<◌, ◌≡◌, true, false, arith}
use atomics_for_peace_and_sy.Threads.{sum_over}
use atomics_for_peace_and_sy.Condvar.{
  World, Pc, idle, notified_all, wait_add, wait_unlock, wait_block, wait_sleep, wait_sub, all_look,
  all_wake, Thread, u32_mod, asleep, woken,
}

-- The thread is counted in `waiting`.
abbrev pub waiters : {T : Type 0} → Thread T → ℕ
waiters t = elim t.at [
  | wait_unlock state ↦ 1
  | wait_block state ↦ 1
  | wait_sleep state ↦ 1
  | wait_sub ↦ 1
  | _ ↦ 0
]

-- What a thread has loaded from the counter is not ahead of it.
abbrev pub Seen : ℕ → Pc → Type 0
Seen counter (wait_add state) = state ≤ counter
Seen counter (wait_unlock state) = state ≤ counter
Seen counter (wait_block state) = state ≤ counter
Seen counter (wait_sleep state) = state ≤ counter
Seen counter (all_look old) = old < counter
Seen counter (all_wake old) = old < counter
Seen counter (idle (notified_all old)) = old < counter
Seen counter p = Unit

-- After a `notify_all` only threads sleep that loaded the counter later.
abbrev pub Later : Pc → Pc → Type 0
Later (idle (notified_all old)) (wait_sleep state) = old < state
Later p q = Unit

pub record Inv {T : Type 0} (n left : ℕ) (w : World T) (pc : ℕ → Thread T) : Type 0 where
  pub fits : w.condvar.counter + left < u32_mod
  pub crowd : w.condvar.waiting ≡ sum_over waiters n pc
  pub each : (i : ℕ) → i < n → Seen w.condvar.counter (pc i).at
  pub told : (i j : ℕ) → i < n → j < n → Later (pc i).at (pc j).at

pub Seen-mono : {counter next : ℕ} (p : Pc) → counter ≤ next → Seen counter p → Seen next p
Seen-mono (idle o) le h = ground arith
Seen-mono p le h = ground arith

module _ {T : Type 0} where
  pub awake_Later :
      (t : Thread T) (p : Pc) → t.at ≡ p → asleep 0 t ≡ false → (q : Pc) → Later q t.at
  awake_Later t p e awake (idle o) = ground arith
  awake_Later t p e awake q = ground arith

  pub waiters-le : (t : Thread T) → waiters t ≤ 1
  waiters-le t = ground arith

  pub Later-self : (t : Thread T) (p : Pc) → t.at ≡ p → Later t.at t.at
  Later-self t (idle o) e = ground arith
  Later-self t p e = ground arith

  -- A thread that is woken no longer sleeps, and is still counted.
  pub woken_lem :
      (a counter : ℕ) (t : Thread T) (p : Pc)
      → t.at ≡ p
      → asleep a t ≡ true
      → Seen counter (woken t).at
        × (waiters (woken t) ≡ waiters t)
        × ((q : Pc) → Later q (woken t).at × Later (woken t).at q)
  woken_lem a counter t p e slept = ground arith
