-- ===== src/MutexV2/Progress.antt =====
-- src/mutex_v2.rs: nobody waits for the futex-based mutex in vain.
use atomics_for_peace_and_sy.Base.{
  Bool-cases, ℕ, zero, suc, ◌+◌, ◌≤◌, ◌<◌, ◌≡◌, refl, sym, subst, inl, inr, List, arith, ◌==◌,
}
use atomics_for_peace_and_sy.Threads.{
  System, update, sum_over, sum_over-update, le-sum_over, sum_over_witness,
}
use atomics_for_peace_and_sy.Futex.{AtomicWait, silent, one, deliver, deliver-keeps}
use atomics_for_peace_and_sy.Futex.Possible.{Possible}
use atomics_for_peace_and_sy.MutexV2.{
  Mutex, new, Pc, outside, slow, wait_call, sleeping, enter, wake, Thread, Choice, proceed, step,
  step_at, asleep, woken, program, no_call,
}
use atomics_for_peace_and_sy.MutexV2.Inv.{holders, sleepers, alarms, Inv}
use atomics_for_peace_and_sy.MutexV2.Exclusion.{execute, execute-Inv}
use atomics_for_peace_and_sy.MutexV2.Arriving.{Inside, Can, move, arrive_enter, arrive}
use atomics_for_peace_and_sy.MutexV2.Releasing.{release}

-- Thread `i` of `n`, if it is in `lock`, can get an unlocked mutex while at most `most` threads sleep.
abbrev Served : (T : Type 0) {n i : ℕ} → i < n → AtomicWait → ℕ → Type 0
Served T {n} {i} lt futex most =
    (s : System (Mutex T) (Thread T))
    → Inv n s.mem s.pc
    → s.mem.state ≡ 0
    → Inside (s.pc i)
    → sum_over sleepers n s.pc ≤ most
    → Possible futex (program futex) n (λ t. 0 < (t.pc i).guards) s

module _ {T : Type 0} (futex : AtomicWait) {n : ℕ} (i : ℕ) (lt : i < n) where
  -- A thread that wakes one sleeper leaves fewer of them.
  served_wake :
      (most : ℕ) (h : ℕ) (s : System (Mutex T) (Thread T))
      → Served T lt futex most
      → Inv n s.mem s.pc
      → s.mem.state ≡ 0
      → (s.pc i).at ≡ sleeping
      → h < n
      → (s.pc h).at ≡ wake
      → sum_over sleepers n s.pc ≤ suc most
      → Can futex i lt s
  unfolding step step_at
  served_wake most h s served inv free e lh f few =
      move futex i lt s h proceed (s.mem, t, one 0) inv lh (ground arith) (ground arith)
        (λ inv'. served _ inv' free facts.1 (omega (arith, facts.0)))
    where
      t : Thread T
      t = record (s.pc h) { at = outside no_call }

      moved : ℕ → Thread T
      moved = update s.pc h t

      Fewer : (ℕ → Thread T) → Type 0
      Fewer pc' = (sum_over sleepers n pc' + 1 ≤ sum_over sleepers n s.pc) × Inside (pc' i)

      facts : Fewer (deliver futex (program futex) n 0 (one 0) moved)
      facts =
          deliver-keeps futex (program futex) n Fewer moved 0 (one 0)
            (λ quiet. absurd (ground arith)) (λ a call nobody. absurd (ground (arith, nobody i)))
            (λ a j call lj slept. ground (
              arith,
              sum_over-update sleepers n s.pc h t,
              sum_over-update sleepers n moved j (woken (moved j)),
            ))
            (λ a call. absurd (ground arith))

  -- A thread that has the mutex unlocks it and wakes one sleeper.
  served_release :
      (most : ℕ) (h : ℕ) (s : System (Mutex T) (Thread T))
      → Served T lt futex most
      → Inv n s.mem s.pc
      → s.mem.state ≡ 2
      → (s.pc i).at ≡ sleeping
      → h < n
      → holders (s.pc h) ≡ 1
      → sum_over sleepers n s.pc ≤ suc most
      → Can futex i lt s
  served_release most h s served inv two e lh has few =
      release futex i lt 5 h (s.pc h).at s inv lh refl has
        (ground (arith, (inv.safe.each i lt).place)) (ground arith)
        (λ s' rel.
          served_wake most h s' served rel.inv rel.free (ground (arith, rel.same)) lh
            (rel.waking two) (omega (arith, rel.asleep)))

  served_slow :
      (most : ℕ) (h : ℕ) (s : System (Mutex T) (Thread T))
      → Served T lt futex most
      → Inv n s.mem s.pc
      → s.mem.state ≡ 0
      → (s.pc i).at ≡ sleeping
      → h < n
      → (s.pc h).at ≡ slow
      → sum_over sleepers n s.pc ≤ suc most
      → Can futex i lt s
  unfolding step step_at
  served_slow most h s served inv free e lh f few =
      move futex i lt s h proceed (record s.mem { state = 2 }, t, silent) inv lh (ground arith)
        (ground arith)
        (λ inv'.
          served_release most h _ served inv' refl (ground arith) lh
            (ground (arith, (inv.safe.each h lh).place))
            (omega (arith, sum_over-update sleepers n s.pc h t, quiet)))
    where
      t : Thread T
      t = record (s.pc h) { at = enter }

      quiet : (sleepers (s.pc h) ≡ 0) × (sleepers t ≡ 0)
      quiet = ground arith

  served_alarm :
      (most : ℕ) (h : ℕ) (p : Pc T) (s : System (Mutex T) (Thread T))
      → Served T lt futex most
      → Inv n s.mem s.pc
      → s.mem.state ≡ 0
      → (s.pc i).at ≡ sleeping
      → h < n
      → (s.pc h).at ≡ p
      → 0 < alarms (s.pc h)
      → sum_over sleepers n s.pc ≤ suc most
      → Can futex i lt s
  unfolding step step_at
  served_alarm most h wake s served inv free e lh f alarm few =
      served_wake most h s served inv free e lh f few
  served_alarm most h slow s served inv free e lh f alarm few =
      served_slow most h s served inv free e lh f few
  served_alarm most h wait_call s served inv free e lh f alarm few =
      move futex i lt s h proceed (s.mem, t, silent) inv lh (ground arith)
        (ground (arith, futex.blocks_iff s.mem.state 2))
        (λ inv'.
          served_slow most h _ served inv' free (ground arith) lh (ground arith)
            (omega (arith, sum_over-update sleepers n s.pc h t, quiet)))
    where
      t : Thread T
      t = record (s.pc h) { at = slow }

      quiet : (sleepers (s.pc h) ≡ 0) × (sleepers t ≡ 0)
      quiet = ground arith
  served_alarm most h p s served inv free e lh f alarm few = absurd (ground arith)

  -- By induction on the number of sleepers.
  unlocked-Served : (most : ℕ) → Served T lt futex most
  unlocked-Served zero s inv free inside few =
      arrive futex i lt s inv free (s.pc i).at refl inside
        (omega (arith, le-sum_over sleepers n s.pc i))
  unlocked-Served (suc most) s inv free inside few = elim (Bool-cases (sleepers (s.pc i) == 0)) [
    | inl awake ↦ arrive futex i lt s inv free (s.pc i).at refl inside (ground arith)
    | inr asleep ↦
        let (h, lh, alarm) =
          sum_over_witness alarms n s.pc
            (ground (arith, inv.alarmed, le-sum_over sleepers n s.pc i)) in
        served_alarm most h (s.pc h).at s (unlocked-Served most) inv free (ground arith) lh refl
          alarm few
  ]

  -- whoever has the mutex
  served : (s : System (Mutex T) (Thread T)) → Inv n s.mem s.pc → Inside (s.pc i) → Can futex i lt s
  served s inv inside = elim (Bool-cases (s.mem.state == 0)) [
    | inl free ↦
        unlocked-Served (sum_over sleepers n s.pc) s inv (ground arith) inside (omega arith)
    | inr taken ↦
        let (h, lh, has) = sum_over_witness holders n s.pc (ground (arith, inv.safe.count)) in
        elim (Bool-cases (holders (s.pc i) == 0)) [
          | inl without ↦
              release futex i lt 5 h (s.pc h).at s inv lh refl
                (ground (arith, inv.safe.count, le-sum_over holders n s.pc h)) (ground arith)
                (ground arith)
                (λ s' rel.
                  unlocked-Served (sum_over sleepers n s'.pc) s' rel.inv rel.free
                    (subst Inside (sym rel.same) inside) (omega arith))
          | inr entering ↦ arrive_enter futex i lt s inv (ground (arith, inv.safe.each i lt))
        ]
  ]

-- Nobody waits for the mutex in vain: in every reachable state, a thread that is in `lock` and has no
-- guard yet, awake or asleep, can still get one. Some continuation of the schedule gives it a guard,
-- in which a thread that sleeps goes on only if a wake-up reaches it.
pub lock-Possible :
    {T : Type 0} (futex : AtomicWait) (n id : ℕ) (d : T) (es : List (ℕ × Choice T × ℕ)) (i : ℕ)
    → i < n
    → let s = execute futex n (new id d) es in
      Inside (s.pc i) → Possible futex (program futex) n (λ t. 0 < (t.pc i).guards) s
lock-Possible futex n id d es i lt inside = served futex i lt _ (execute-Inv futex n id d es) inside
