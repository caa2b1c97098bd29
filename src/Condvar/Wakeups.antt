-- ===== src/Condvar/Wakeups.antt =====
-- src/condvar.rs: a step with its wake-up keeps the invariant.
use atomics_for_peace_and_sy.Base.{
  Bool-cases, ℕ, suc, ◌≤◌, ◌<◌, ◌≡◌, ◌≢◌, refl, sym, ◌∙◌, subst, inl, inr, false, arith,
}
use atomics_for_peace_and_sy.Threads.{System, update, sum_over-map}
use atomics_for_peace_and_sy.Futex.{
  AtomicWait, exec, deliver, Roused, deliver-Roused, Wake, silent, one, all,
}
use atomics_for_peace_and_sy.Condvar.{
  World, Pc, Thread, Choice, Next, u32_mod, step, step_at, asleep, program,
}
use atomics_for_peace_and_sy.Condvar.Inv.{waiters, Seen, Later, Inv, awake_Later, woken_lem}
use atomics_for_peace_and_sy.Condvar.Moves.{
  move-counter, move-crowd, wake_all, move-told, move-each,
}

module _ {T : Type 0} (thread_id : ℕ → ℕ) (futex : AtomicWait) (n : ℕ) where
  -- how a wake-up may change a thread
  abbrev pub Changed : Thread T → Thread T → Type 0
  Changed = Roused futex (program thread_id futex) n

  -- the threads after a wake-up
  abbrev roused : ℕ → Wake → (ℕ → Thread T) → ℕ → Thread T
  roused k wake pc = deliver futex (program thread_id futex) n k wake pc

  roused-Later :
      (p p' q q' : Thread T) → Changed p p' → Changed q q' → Later p.at q.at → Later p'.at q'.at
  roused-Later p p' q q' (inr (e, (a, slept))) changed h =
      rw e ((woken_lem a 0 p p.at refl slept).2 q'.at).1
  roused-Later p p' q q' (inl same) (inr (e, (a, slept))) h =
      rw e ((woken_lem a 0 q q.at refl slept).2 p'.at).0
  roused-Later p p' q q' (inl same) (inl still) h = rw (same, still) h

  rouse-Later :
      (wake : Wake) (pc : ℕ → Thread T) (k : ℕ)
      → ((a : ℕ) → wake ≡ all a → a ≡ 0)
      → (wake ≢ all 0 → (j l : ℕ) → j < n → l < n → Later (pc j).at (pc l).at)
      → (j l : ℕ) → j < n
      → l < n
      → Later (roused k wake pc j).at (roused k wake pc l).at
  rouse-Later (all a) pc k zero told j l lj ll =
      let is_zero : a ≡ 0 = zero a refl in
      elim (Bool-cases (asleep a (pc l))) [
        | inl slept ↦ rw slept ((woken_lem a 0 (pc l) (pc l).at refl slept).2 _).0
        | inr awake ↦ rw awake (
            awake_Later (pc l) (pc l).at refl (subst (λ a. asleep a (pc l) ≡ false) is_zero awake)
              _)
      ]
  rouse-Later (one a) pc k zero told j l lj ll =
      roused-Later (pc j) _ (pc l) _
        (deliver-Roused futex (program thread_id futex) n pc k (one a) j)
        (deliver-Roused futex (program thread_id futex) n pc k (one a) l) (told (λ e. cc) j l lj ll)
  rouse-Later silent pc k zero told j l lj ll = told (λ e. cc) j l lj ll

  rouse-waiters : (p p' : Thread T) → Changed p p' → waiters p' ≡ waiters p
  rouse-waiters p p' (inl same) = rw same refl
  rouse-waiters p p' (inr (e, (a, slept))) = rw e ((woken_lem a 0 p p.at refl slept).1)

  rouse-Seen :
      (counter : ℕ) (p p' : Thread T) → Changed p p' → Seen counter p.at → Seen counter p'.at
  rouse-Seen counter p p' (inl same) h = rw same h
  rouse-Seen counter p p' (inr (e, (a, slept))) h = rw e ((woken_lem a counter p p.at refl slept).0)

  module _ {left : ℕ} (few : n < u32_mod) where
    pub step-Inv :
        (s : System (World T) (Thread T)) (i : ℕ) (c : Choice T) (k : ℕ)
        → i < n
        → Inv n (suc left) s.mem s.pc
        → let t = exec futex (program thread_id futex) n s i c k in Inv n left t.mem t.pc
    unfolding step
    step-Inv s i c k lt inv = record {
      fits = omega (arith, inv.fits, move-counter thread_id futex few inv i lt c p);
      crowd =
          move-crowd thread_id futex few inv i lt c p refl
          ∙ sym (
              sum_over-map waiters n pc' (roused k next.2 pc')
                (λ j. rouse-waiters (pc' j) _ (changed j)));
      each = λ j lj.
          rouse-Seen next.0.condvar.counter (pc' j) _ (changed j)
            (move-each thread_id futex few inv i lt c p j refl lj);
      told =
          rouse-Later next.2 pc' k (λ a e. wake_all thread_id futex few inv i lt c p a e)
            (λ quiet j l lj ll. move-told thread_id futex few inv i lt c p j l refl lj ll quiet);
    }
      where
        p : Pc
        p = (s.pc i).at

        next : Next T
        next = step_at thread_id futex i c s.mem (s.pc i) p

        pc' : ℕ → Thread T
        pc' = update s.pc i next.1

        changed : (j : ℕ) → Changed (pc' j) (roused k next.2 pc' j)
        changed j = deliver-Roused futex (program thread_id futex) n pc' k next.2 j

  pub relax-Inv :
      {left fewer : ℕ} {w : World T} {pc : ℕ → Thread T}
      → fewer ≤ left
      → Inv n left w pc
      → Inv n fewer w pc
  relax-Inv le inv = record {
    fits = omega (arith, inv.fits);
    crowd = inv.crowd;
    each = inv.each;
    told = inv.told;
  }
