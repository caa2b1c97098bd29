-- ===== src/Condvar/Notifying.antt =====
-- src/condvar.rs: the notifications that a schedule makes, and the counter.
use atomics_for_peace_and_sy.Base.{
  Bool-cases, ℕ, suc, ◌+◌, ◌<◌, ◌≡◌, refl, inl, inr, List, [], ◌∷◌, arith, length, ltb, ltb-lt,
  if◌then◌else◌,
}
use atomics_for_peace_and_sy.Threads.{System, update, sum_over, sum_over-update, sum_over-map}
use atomics_for_peace_and_sy.Futex.{AtomicWait, exec, run, deliver, deliver-Roused}
use atomics_for_peace_and_sy.Condvar.{
  World, Pc, idle, notified_one, notified_all, one_wake, all_look, all_wake, Thread, Choice, Next,
  u32_mod, client, step, step_at, woken, program,
}
use atomics_for_peace_and_sy.Condvar.Inv.{Inv}
use atomics_for_peace_and_sy.Condvar.Wakeups.{Changed, step-Inv, relax-Inv}

-- The thread is in `notify_one` or `notify_all`, and has incremented the counter.
abbrev pub telling : {T : Type 0} → Thread T → ℕ
telling t = elim t.at [ one_wake ↦ 1 | all_look old ↦ 1 | all_wake old ↦ 1 | _ ↦ 0 ]

-- A step from `p` to `q` returns from `notify_one` or `notify_all`.
abbrev pub completes : Pc → Pc → ℕ
completes (idle last) q = 0
completes p (idle notified_one) = 1
completes p (idle (notified_all old)) = 1
completes p q = 0

-- Two stretches of a schedule, one after the other.
chain :
    (first now last before middle after one two : ℕ)
    → now + before ≡ first + one + middle
    → last + middle ≡ now + two + after
    → last + before ≡ first + (one + two) + after
chain first now last before middle after one two e f = omega (arith, e, f)

module _ {T : Type 0} (thread_id : ℕ → ℕ) (futex : AtomicWait) (n : ℕ) where
  -- how many calls of `notify_one` and `notify_all` have returned in a schedule
  unfoldable pub completed : System (World T) (Thread T) → List (ℕ × Choice T × ℕ) → ℕ
  completed s [] = 0
  completed s ((i, c, k) ∷ es) =
      (if ltb i n then completes (s.pc i).at (step thread_id futex i c s.mem (s.pc i)).1.at else 0)
      + completed (if ltb i n then exec futex (program thread_id futex) n s i c k else s) es

  move-telling :
      (w : World T) (t : Thread T) (i : ℕ) (c : Choice T) (p : Pc)
      → t.at ≡ p
      → w.condvar.counter + 1 < u32_mod
      → let next = step_at thread_id futex i c w t p in
        next.0.condvar.counter + telling t
        ≡ w.condvar.counter + completes p next.1.at + telling next.1
  unfolding step_at client
  move-telling w t i c (idle last) e small = ground arith
  move-telling w t i c p e small = ground arith

  rouse-telling : (p p' : Thread T) → Changed thread_id futex n p p' → telling p' ≡ telling p
  rouse-telling p p' (inl same) = rw same refl
  rouse-telling p p' (inr (e, (a, slept))) = rw e (woken_telling p.at refl)
    where
      woken_telling : (q : Pc) → p.at ≡ q → telling (woken p) ≡ telling p
      woken_telling q f = ground arith

  step-telling :
      (s : System (World T) (Thread T)) (i : ℕ) (c : Choice T) (k : ℕ)
      → i < n
      → s.mem.condvar.counter + 1 < u32_mod
      → let t = exec futex (program thread_id futex) n s i c k in
        t.mem.condvar.counter + sum_over telling n s.pc
        ≡ s.mem.condvar.counter
          + completes (s.pc i).at (step thread_id futex i c s.mem (s.pc i)).1.at
          + sum_over telling n t.pc
  unfolding step
  step-telling s i c k lt small = omega (
    arith,
    move-telling s.mem (s.pc i) i c (s.pc i).at refl small,
    sum_over-update telling n s.pc i next.1,
    sum_over-map telling n pc' (deliver futex (program thread_id futex) n k next.2 pc') (λ j.
        rouse-telling (pc' j) _ (deliver-Roused futex (program thread_id futex) n pc' k next.2 j)),
  )
    where
      next : Next T
      next = step_at thread_id futex i c s.mem (s.pc i) (s.pc i).at

      pc' : ℕ → Thread T
      pc' = update s.pc i next.1

  event-telling :
      (few : n < u32_mod) {left : ℕ} (s : System (World T) (Thread T)) (i : ℕ) (c : Choice T)
      (k : ℕ)
      → Inv n (suc left) s.mem s.pc
      → let t = if ltb i n then exec futex (program thread_id futex) n s i c k else s in
        (t.mem.condvar.counter + sum_over telling n s.pc
          ≡ s.mem.condvar.counter
            + (if ltb i n
                then completes (s.pc i).at (step thread_id futex i c s.mem (s.pc i)).1.at
                else 0)
            + sum_over telling n t.pc)
        × Inv n left t.mem t.pc
  event-telling few s i c k inv = elim (Bool-cases (ltb i n)) [
    | inl t ↦ rw t (
      step-telling s i c k (ltb-lt t) (omega (arith, inv.fits)),
      step-Inv thread_id futex n few s i c k (ltb-lt t) inv,
    )
    | inr f ↦ rw f (omega arith, relax-Inv thread_id futex n (omega arith) inv)
  ]

  -- The counter grows with every notification.
  pub run-telling :
      (few : n < u32_mod) (es : List (ℕ × Choice T × ℕ)) (s : System (World T) (Thread T))
      → Inv n (length es) s.mem s.pc
      → let t = run futex (program thread_id futex) n s es in
        t.mem.condvar.counter + sum_over telling n s.pc
        ≡ s.mem.condvar.counter + completed s es + sum_over telling n t.pc
  unfolding run completed
  run-telling few [] s inv = omega arith
  run-telling few ((i, c, k) ∷ es) s inv =
      let (event, inv') = event-telling few s i c k inv in
      chain _ _ _ _ _ _ _ _ event (
        run-telling few es (if ltb i n then exec futex (program thread_id futex) n s i c k else s)
          inv')
