-- ===== src/MutexV2/Owner.antt =====
-- src/mutex_v2.rs: the lock that the memory and the threads of the mutex stand for.
use mathlib.Core.Path.{fun_ext}
use atomics_for_peace_and_sy.Base.{
  ℕ, ◌<◌, ◌≤◌, ◌≡◌, refl, ap, inl, inr, Option, none, some, arith, ltb,
}
use atomics_for_peace_and_sy.Threads.{System, sum_over, le-sum_over, add-le-sum_over}
use atomics_for_peace_and_sy.Futex.{AtomicWait, Roused}
use atomics_for_peace_and_sy.Futex.Scanning.{first_asleep, first_asleep-some, first_asleep-none}
use atomics_for_peace_and_sy.MutexV2.{Mutex, Pc, Thread, woken, program}
use atomics_for_peace_and_sy.MutexV2.Inv.{holders}
use atomics_for_peace_and_sy.LockSpec.{Lock, free, taken}

module _ {T : Type 0} where
  -- The lock that the memory and the threads stand for: the word does not name the owner.
  abbrev pub owned : T → Option ℕ → Lock T
  owned d none = free d
  owned d (some i) = taken i d

  abbrev pub holder : ℕ → (ℕ → Thread T) → Option ℕ
  holder n pc = first_asleep n (λ j. ltb 0 (holders (pc j)))

  abbrev pub lock_of : ℕ → System (Mutex T) (Thread T) → Lock T
  lock_of n s = owned s.mem.data_cell (holder n s.pc)

  pub holder-some :
      (n : ℕ) (pc : ℕ → Thread T) (i : ℕ)
      → sum_over holders n pc ≤ 1
      → i < n
      → 0 < holders (pc i)
      → holder n pc ≡ some i
  holder-some n pc i one lt has = found (holder n pc) refl
    where
      found : (o : Option ℕ) → holder n pc ≡ o → holder n pc ≡ some i
      found none e =
          absurd (ground (arith, first_asleep-none n (λ j. ltb 0 (holders (pc j))) i e lt))
      found (some j) e = ground (
        arith,
        first_asleep-some n (λ j. ltb 0 (holders (pc j))) j e,
        add-le-sum_over holders n pc i j,
      )

  pub holder-none : (n : ℕ) (pc : ℕ → Thread T) → sum_over holders n pc ≡ 0 → holder n pc ≡ none
  holder-none n pc nobody = found (holder n pc) refl
    where
      found : (o : Option ℕ) → holder n pc ≡ o → holder n pc ≡ none
      found none e = e
      found (some j) e = absurd (
          ground (
            arith,
            first_asleep-some n (λ j. ltb 0 (holders (pc j))) j e,
            le-sum_over holders n pc j,
          ))

  pub holder-eq :
      (n : ℕ) (pc pc' : ℕ → Thread T)
      → ((j : ℕ) → holders (pc' j) ≡ holders (pc j))
      → holder n pc' ≡ holder n pc
  holder-eq n pc pc' same = ap (first_asleep n) (fun_ext (λ j. ap (ltb 0) (same j)))

  pub rouse-holders :
      (futex : AtomicWait) (n : ℕ) (t t' : Thread T)
      → Roused futex (program futex) n t t'
      → holders t' ≡ holders t
  rouse-holders futex n t t' (inl same) = rw same refl
  rouse-holders futex n t t' (inr (e, (a, slept))) = rw e (woken-holders t.at refl)
    where
      woken-holders : (p : Pc T) → t.at ≡ p → holders (woken t) ≡ holders t
      woken-holders p e = ground arith
