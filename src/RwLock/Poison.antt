-- ===== src/RwLock/Poison.antt =====
-- src/rwlock.rs: poisoning. Only a write guard that is dropped by a panic marks the lock.
use atomics_for_peace_and_sy.Base.{ℕ, ◌≡◌, refl, ◌≢◌, true, false, List, arith, subst, sym}
use atomics_for_peace_and_sy.Threads.{System}
use atomics_for_peace_and_sy.Futex.{AtomicWait, run, Only}
use atomics_for_peace_and_sy.Futex.Everywhere.{run-All}
use atomics_for_peace_and_sy.RwLock.{
  RwLock, new, acquired_read, acquired_write, poisoned_read, poisoned_write, Pc, outside,
  write_leave, read_wait, Thread, Choice, panic, clear_poison, step, step_at, asleep, woken,
  program,
}
use atomics_for_peace_and_sy.RwLock.Exclusion.{execute}

-- The thread's last call has not returned `Ok`.
abbrev pub NoOk : {T : Type 0} → Pc T → Type 0
NoOk p = (p ≢ outside acquired_read) × (p ≢ outside acquired_write)

-- The thread is not dropping a guard in a panic, and its last call has not returned `Poisoned`.
abbrev pub Calm : {T : Type 0} → Pc T → Type 0
Calm p = (p ≢ write_leave true) × (p ≢ outside poisoned_read) × (p ≢ outside poisoned_write)

module _ {T : Type 0} (futex : AtomicWait) where
  step-poisoned :
      (c : Choice T) (m : RwLock T) (t : Thread T) (p : Pc T)
      → c ≢ clear_poison
      → m.poisoned ≡ true
      → (step_at futex c m t p).0.poisoned ≡ true
  unfolding step_at
  step-poisoned c m t (outside last) ne h = ground arith
  step-poisoned c m t p ne h = ground arith

  step-NoOk :
      (c : Choice T) (m : RwLock T) (t : Thread T) (p : Pc T)
      → c ≢ clear_poison
      → m.poisoned ≡ true
      → t.at ≡ p
      → NoOk p
      → NoOk (step_at futex c m t p).1.at
  unfolding step_at
  step-NoOk c m t (outside last) ne h e ok = ground arith
  step-NoOk c m t p ne h e ok = ground arith

  step-Calm :
      (c : Choice T) (m : RwLock T) (t : Thread T) (p : Pc T)
      → c ≢ panic
      → m.poisoned ≡ false
      → t.at ≡ p
      → Calm p
      → ((step_at futex c m t p).0.poisoned ≡ false) × Calm (step_at futex c m t p).1.at
  unfolding step_at
  step-Calm c m t (outside last) ne h e calm = ground arith
  step-Calm c m t p ne h e calm = ground arith

  woken-quiet :
      (a : ℕ) (t : Thread T) (p : Pc T)
      → t.at ≡ p
      → asleep a t ≡ true
      → NoOk (woken t).at × Calm (woken t).at
  woken-quiet a t (read_wait s) e h = ground arith
  woken-quiet a t p e h = ground arith

  module _ (n : ℕ) where
    -- Once the lock is poisoned, no call of any thread `j` returns `Ok` until `clear_poison` is
    -- called, and the lock stays poisoned: from any state, for any schedule.
    pub poison_lasts :
        (s : System (RwLock T) (Thread T)) (es : List (ℕ × Choice T × ℕ)) (j : ℕ)
        → Only futex (program futex) n (λ c. c ≢ clear_poison) es
        → s.mem.poisoned ≡ true
        → NoOk (s.pc j).at
        → let r = run futex (program futex) n s es in (r.mem.poisoned ≡ true) × NoOk (r.pc j).at
    unfolding step
    poison_lasts s es j only h no_ok =
        let (p, each) =
          run-All futex (program futex) n (λ c. c ≢ clear_poison) (λ m. m.poisoned ≡ true)
            (λ i t. i ≡ j → NoOk t.at)
            (λ i c m t ne hm ht.
              (step-poisoned c m t t.at ne hm, λ e. step-NoOk c m t t.at ne hm refl (ht e)))
            (λ a i t slept ht e. (woken-quiet a t t.at refl slept).0) s es only h
            (λ i e. subst (λ k. NoOk (s.pc k).at) (sym e) no_ok) in
        (p, each j refl)

    -- A lock under which no client panics is never poisoned, and no call returns `Poisoned`.
    pub poison_needs_panic :
        (id : ℕ) (d : T) (es : List (ℕ × Choice T × ℕ)) (j : ℕ)
        → Only futex (program futex) n (λ c. c ≢ panic) es
        → let r = execute futex n (new id d) es in (r.mem.poisoned ≡ false) × Calm (r.pc j).at
    unfolding step execute
    poison_needs_panic id d es j only =
        let (p, each) =
          run-All futex (program futex) n (λ c. c ≢ panic) (λ m. m.poisoned ≡ false)
            (λ i t. Calm t.at) (λ i c m t ne hm ht. step-Calm c m t t.at ne hm refl ht)
            (λ a i t slept ht. (woken-quiet a t t.at refl slept).1) _ es only refl
            (λ i. ground arith) in
        (p, each j)
