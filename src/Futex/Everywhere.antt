-- ===== src/Futex/Everywhere.antt =====
-- Properties of the memory and of each thread that every step keeps, in every schedule.
use atomics_for_peace_and_sy.Base.{
  ℕ, ◌<◌, ◌≡◌, true, List, ◌==◌, Bool-cases, inl, inr, subst, ==_iff,
}
use atomics_for_peace_and_sy.Threads.{System, update}
use atomics_for_peace_and_sy.Futex.{
  AtomicWait, Program, deliver-keeps, exec, run, run-keeps_Only, Only,
}

-- A property of the memory and one of each thread, which every step of a thread keeps for itself,
-- hold at the end of every schedule.
module _ (futex : AtomicWait) {M P C : Type 0} (prog : Program M P C) (n : ℕ) (Allowed : C → Type 0)
    (Mem : M → Type 0) (Each : ℕ → P → Type 0)
    (moves : (i : ℕ) (c : C) (m : M) (p : P)
      → Allowed c
      → Mem m
      → Each i p
      → Mem (prog.step i c m p).0 × Each i (prog.step i c m p).1)
    (wakes : (a j : ℕ) (p : P) → prog.asleep a p ≡ true → Each j p → Each j (prog.woken p)) where
  abbrev All : System M P → Type 0
  All s = Mem s.mem × ((j : ℕ) → Each j (s.pc j))

  update-Each :
      (pc : ℕ → P) (i : ℕ) (p : P)
      → ((j : ℕ) → Each j (pc j))
      → Each i p
      → (j : ℕ) → Each j (update pc i p j)
  update-Each pc i p h hp j = elim (Bool-cases (i == j)) [
    | inl same ↦ rw same (subst (λ k. Each k p) ((==_iff i j).0 same) hp)
    | inr other ↦ rw other (h j)
  ]

  exec-All :
      (s : System M P) (i : ℕ) (c : C) (k : ℕ)
      → i < n
      → Allowed c
      → All s
      → All (exec futex prog n s i c k)
  exec-All s i c k lt ok (hm, hp) = (
    kept.0,
    deliver-keeps futex prog n (λ pc. (j : ℕ) → Each j (pc j)) _ k (prog.step i c s.mem (s.pc i)).2
        (λ e. moved) (λ a e nobody. moved)
        (λ a j e lj slept. update-Each _ j _ moved (wakes a j _ slept (moved j)))
        (λ a e j.
          elim (Bool-cases (prog.asleep a (update s.pc i (prog.step i c s.mem (s.pc i)).1 j))) [
            | inl slept ↦ rw slept (wakes a j _ slept (moved j))
            | inr awake ↦ rw awake (moved j)
          ]),
  )
    where
      kept : Mem (prog.step i c s.mem (s.pc i)).0 × Each i (prog.step i c s.mem (s.pc i)).1
      kept = moves i c s.mem (s.pc i) ok hm (hp i)

      moved : (j : ℕ) → Each j (update s.pc i (prog.step i c s.mem (s.pc i)).1 j)
      moved = update-Each s.pc i (prog.step i c s.mem (s.pc i)).1 hp kept.1

  pub run-All :
      (s : System M P) (es : List (ℕ × C × ℕ))
      → Only futex prog n Allowed es
      → Mem s.mem
      → ((j : ℕ) → Each j (s.pc j))
      → Mem (run futex prog n s es).mem × ((j : ℕ) → Each j ((run futex prog n s es).pc j))
  run-All s es only hm hp = run-keeps_Only futex prog n Allowed All exec-All s es only (hm, hp)
