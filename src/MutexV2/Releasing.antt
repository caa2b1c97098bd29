-- ===== src/MutexV2/Releasing.antt =====
-- src/mutex_v2.rs: how the thread that has the mutex gives it back.
use atomics_for_peace_and_sy.Base.{ℕ, zero, suc, ◌<◌, ◌≡◌, refl, ◌≢◌, arith}
use atomics_for_peace_and_sy.Threads.{System, update, sum_over, sum_over-update}
use atomics_for_peace_and_sy.Futex.{AtomicWait, silent}
use atomics_for_peace_and_sy.MutexV2.{
  Next, Mutex, Pc, outside, viewed, check, enter, leave, swap, wake, Thread, Choice, unlock,
  proceed, client, step, step_at,
}
use atomics_for_peace_and_sy.MutexV2.Inv.{holders, sleepers, Local, Inv}
use atomics_for_peace_and_sy.MutexV2.Arriving.{Can, move}

module _ {T : Type 0} (futex : AtomicWait) {n : ℕ} (i : ℕ) (lt : i < n) where
  -- How far the thread that has the mutex is from giving it back.
  abbrev rank : Pc T → ℕ
  rank p = elim p [
    | enter ↦ 4
    | check try ↦ 3
    | outside last ↦ 2
    | viewed v ↦ 2
    | leave panicking ↦ 1
    | _ ↦ 0
  ]

  abbrev gives_back : Pc T → Choice T
  gives_back p = elim p [ outside last ↦ unlock | viewed v ↦ unlock | _ ↦ proceed ]

  -- Its next step leaves the word alone and comes nearer to the swap.
  step-rank :
      (m : Mutex T) (t : Thread T) (h : ℕ) (p : Pc T)
      → t.at ≡ p
      → Local m t
      → holders t ≡ 1
      → p ≢ swap
      → let x = step futex h (gives_back p) m t in
        (x ≡ (x.0, x.1, silent))
        × (x.0.state ≡ m.state)
        × (holders x.1 ≡ 1)
        × (sleepers x.1 ≡ 0)
        × (rank x.1.at < rank p)
  unfolding step step_at client
  step-rank m t h (outside last) e loc has ne = ground (arith, loc.place, loc.listed)
  step-rank m t h p e loc has ne = ground (arith, loc.place, loc.listed)

  -- After thread `h` has given the mutex back.
  pub record Released (h : ℕ) (s s' : System (Mutex T) (Thread T)) : Type 0 where
    pub inv : Inv n s'.mem s'.pc
    pub free : s'.mem.state ≡ 0
    pub same : s'.pc i ≡ s.pc i
    pub asleep : sum_over sleepers n s'.pc ≡ sum_over sleepers n s.pc
    pub waking : s.mem.state ≡ 2 → (s'.pc h).at ≡ wake

  pub release :
      (r : ℕ) (h : ℕ) (p : Pc T) (s : System (Mutex T) (Thread T))
      → Inv n s.mem s.pc
      → h < n
      → (s.pc h).at ≡ p
      → holders (s.pc h) ≡ 1
      → holders (s.pc i) ≡ 0
      → rank p < r
      → ((s' : System (Mutex T) (Thread T)) → Released h s s' → Can futex i lt s')
      → Can futex i lt s
  unfolding step step_at
  release zero h p s inv lh e has none near go = absurd (omega arith)
  release (suc r) h swap s inv lh e has none near go =
      move futex i lt s h proceed (record s.mem { state = 0 }, t, silent) inv lh (ground arith)
        (ground arith)
        (λ inv'. go _ (record {
          inv = inv';
          free = refl;
          same = ground arith;
          asleep = ground (arith, sum_over-update sleepers n s.pc h t);
          waking = λ two. ground arith;
        }))
    where
      t : Thread T
      t = (step_at futex proceed s.mem (s.pc h) swap).1
  release (suc r) h p s inv lh e has none near go =
      move futex i lt s h (gives_back p) (x.0, x.1, silent) inv lh
        (ground (arith, (inv.safe.each h lh).place)) facts.0
        (λ inv'.
          release r h x.1.at (record { mem = x.0; pc = update s.pc h x.1 }) inv' lh (ground arith)
            (ground (arith, facts)) (ground (arith, facts)) (ground (arith, facts))
            (λ s' rel. go s' (record {
              inv = rel.inv;
              free = rel.free;
              same = ground (arith, rel.same, facts);
              asleep =
                  omega (arith, rel.asleep, sum_over-update sleepers n s.pc h x.1, facts, quiet);
              waking = λ two. rel.waking (omega (arith, facts));
            })))
    where
      x : Next T
      x = step futex h (gives_back p) s.mem (s.pc h)

      facts :
          (x ≡ (x.0, x.1, silent))
          × (x.0.state ≡ s.mem.state)
          × (holders x.1 ≡ 1)
          × (sleepers x.1 ≡ 0)
          × (rank x.1.at < rank p)
      facts = step-rank s.mem (s.pc h) h p e (inv.safe.each h lh) has (ground arith)

      quiet : sleepers (s.pc h) ≡ 0
      quiet = ground (arith, (inv.safe.each h lh).place)
