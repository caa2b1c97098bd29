-- ===== src/MutexV2/Poison.antt =====
-- src/mutex_v2.rs: poisoning. A guard dropped by a panic marks the mutex until `clear_poison`.
use atomics_for_peace_and_sy.Base.{ℕ, ◌≡◌, refl, ◌≢◌, true, false, List, arith, subst, sym}
use atomics_for_peace_and_sy.Threads.{System}
use atomics_for_peace_and_sy.Futex.{AtomicWait, run, Only}
use atomics_for_peace_and_sy.Futex.Everywhere.{run-All}
use atomics_for_peace_and_sy.MutexV2.{
  Mutex, new, acquired, poisoned_lock, Pc, outside, leave, Thread, Choice, panic, clear_poison,
  step, step_at, program,
}
use atomics_for_peace_and_sy.MutexV2.Exclusion.{execute}

-- The thread's last call has not returned `Ok`.
abbrev NoOk : {T : Type 0} → Thread T → Type 0
NoOk t = t.at ≢ outside acquired

abbrev NotPoisoning : {T : Type 0} → Thread T → Type 0
NotPoisoning t = (t.at ≢ leave true) × (t.at ≢ outside poisoned_lock)

module _ {T : Type 0} (futex : AtomicWait) where
  step-poisoned :
      (c : Choice T) (m : Mutex T) (t : Thread T) (p : Pc T)
      → c ≢ clear_poison
      → m.poisoned ≡ true
      → (step_at futex c m t p).0.poisoned ≡ true
  unfolding step_at
  step-poisoned c m t (outside last) ne h = ground arith
  step-poisoned c m t p ne h = ground arith

  step-NoOk :
      (c : Choice T) (m : Mutex T) (t : Thread T) (p : Pc T)
      → c ≢ clear_poison
      → m.poisoned ≡ true
      → t.at ≡ p
      → NoOk t
      → NoOk (step_at futex c m t p).1
  unfolding step_at
  step-NoOk c m t (outside last) ne h e no_ok = ground arith
  step-NoOk c m t p ne h e no_ok = ground arith

  step-clean :
      (c : Choice T) (m : Mutex T) (t : Thread T) (p : Pc T)
      → c ≢ panic
      → m.poisoned ≡ false
      → t.at ≡ p
      → NotPoisoning t
      → ((step_at futex c m t p).0.poisoned ≡ false) × NotPoisoning (step_at futex c m t p).1
  unfolding step_at
  step-clean c m t (outside last) ne h e calm = ground arith
  step-clean c m t p ne h e calm = ground arith

module _ {T : Type 0} (futex : AtomicWait) (n : ℕ) where
  -- Once a mutex is poisoned, no call of `lock` or `try_lock` returns `Ok` until `clear_poison` is
  -- called, and the mutex stays poisoned: stated of thread `j`, from any state, for any schedule.
  pub poisoned_until_cleared :
      (s : System (Mutex T) (Thread T)) (es : List (ℕ × Choice T × ℕ)) (j : ℕ)
      → Only futex (program futex) n (λ c. c ≢ clear_poison) es
      → s.mem.poisoned ≡ true
      → (s.pc j).at ≢ outside acquired
      → let r = run futex (program futex) n s es in
        (r.mem.poisoned ≡ true) × ((r.pc j).at ≢ outside acquired)
  unfolding step
  poisoned_until_cleared s es j only h no_ok =
      let (p, each) =
        run-All futex (program futex) n (λ c. c ≢ clear_poison) (λ m. m.poisoned ≡ true)
          (λ i t. i ≡ j → NoOk t)
          (λ i c m t ne hm ht. (
            step-poisoned futex c m t t.at ne hm,
            λ e. step-NoOk futex c m t t.at ne hm refl (ht e),
          ))
          (λ a i t slept ht e. λ z. cc) s es only h
          (λ i e. subst (λ k. NoOk (s.pc k)) (sym e) no_ok) in
      (p, each j refl)

  -- A mutex that no client panics under is never poisoned, and no call returns `Poisoned`.
  pub poisoned_by_panic :
      (id : ℕ) (d : T) (es : List (ℕ × Choice T × ℕ)) (j : ℕ)
      → Only futex (program futex) n (λ c. c ≢ panic) es
      → let r = execute futex n (new id d) es in
        (r.mem.poisoned ≡ false) × ((r.pc j).at ≢ outside poisoned_lock)
  unfolding step execute
  poisoned_by_panic id d es j only =
      let (p, each) =
        run-All futex (program futex) n (λ c. c ≢ panic) (λ m. m.poisoned ≡ false)
          (λ i t. NotPoisoning t) (λ i c m t ne hm ht. step-clean futex c m t t.at ne hm refl ht)
          (λ a i t slept ht. ground arith) _ es only refl (λ i. ground arith) in
      (p, (each j).1)
