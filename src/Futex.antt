-- ===== src/Futex.antt =====
-- The crate atomic-wait, which the futex-based primitives call, and threads that wait on atomics.
pub mod Everywhere
pub mod Scanning
pub mod Possible
pub mod Scripted
use atomics_for_peace_and_sy.Base.{
  ◌≢◌, ℕ, zero, suc, ◌<◌, ◌≡◌, refl, ◌↔◌, ◌⊎◌, Bool, true, false, Option, none, some, List, [], ◌∷◌,
  arith, ltb, ◌==◌, if◌then◌else◌, Bool-cases, inl, inr, subst, ==_iff, length,
}
use atomics_for_peace_and_sy.Threads.{System, update}

-- What `wait` and `wake_one` are documented to do. `blocks value expected` says whether `wait` puts
-- the thread to sleep; `pick n asleep k` is the sleeper that `wake_one` wakes, `k` its free choice.
-- `wait` may also return without a wake: a scheduled sleeper is one that does.
pub record AtomicWait : Type 0 where
  pub blocks : ℕ → ℕ → Bool
  pub blocks_iff : (value expected : ℕ) → (blocks value expected ≡ true) ↔ (value ≡ expected)
  pub pick : ℕ → (ℕ → Bool) → ℕ → Option ℕ
  pub pick_asleep :
      (n : ℕ) (asleep : ℕ → Bool) (k : ℕ) {j : ℕ}
      → pick n asleep k ≡ some j
      → (j < n) × (asleep j ≡ true)
  pub pick_none :
      (n : ℕ) (asleep : ℕ → Bool) (k : ℕ)
      → pick n asleep k ≡ none
      → (j : ℕ) → j < n
      → asleep j ≡ false

-- What a step asks of the other threads. The number names the atomic that they wait on.
pub data Wake : Type 0 where
  silent : Wake
  one : ℕ → Wake
  all : ℕ → Wake

-- A program whose threads may sleep: how a step goes, which positions sleep on an atomic, and where
-- a sleeper goes on.
pub record Program (M P C : Type 0) : Type 0 where
  pub step : ℕ → C → M → P → M × P × Wake
  pub asleep : ℕ → P → Bool
  pub woken : P → P

-- thread `i` alone, which nobody else disturbs, for the given choices
unfoldable pub alone : {M P C : Type 0} → Program M P C → ℕ → M × P → List C → M × P
alone prog i s [] = s
alone prog i (m, p) (c ∷ cs) = let (m', p', wake) = prog.step i c m p in alone prog i (m', p') cs

module _ (futex : AtomicWait) {M P C : Type 0} (prog : Program M P C) (n : ℕ) where
  abbrev pub wake_some : (ℕ → P) → Option ℕ → ℕ → P
  wake_some pc none = pc
  wake_some pc (some j) = update pc j (prog.woken (pc j))

  abbrev pub deliver : ℕ → Wake → (ℕ → P) → ℕ → P
  deliver k silent pc = pc
  deliver k (one a) pc = wake_some pc (futex.pick n (λ j. prog.asleep a (pc j)) k)
  deliver k (all a) pc = λ j. if prog.asleep a (pc j) then prog.woken (pc j) else pc j

  -- one step of thread `i`; `k` is the choice of a wake
  abbrev pub exec : System M P → ℕ → C → ℕ → System M P
  exec s i c k =
      let (m, p, wake) = prog.step i c s.mem (s.pc i) in
      record { mem = m; pc = deliver k wake (update s.pc i p) }

  unfoldable pub run : System M P → List (ℕ × C × ℕ) → System M P
  run s [] = s
  run s ((i, c, k) ∷ es) = run (if ltb i n then exec s i c k else s) es

  pub run-keeps {ℓ} :
      (Inv : System M P → Type ℓ)
      → ((s : System M P) (i : ℕ) (c : C) (k : ℕ) → i < n → Inv s → Inv (exec s i c k))
      → (s : System M P) (es : List (ℕ × C × ℕ)) → Inv s
      → Inv (run s es)
  unfolding run
  run-keeps Inv keep s [] h = h
  run-keeps Inv keep s ((i, c, k) ∷ es) h =
      run-keeps Inv keep (if ltb i n then exec s i c k else s) es (elim (Bool-cases (ltb i n)) [
        | inl t ↦ rw t (keep s i c k (ground arith) h)
        | inr f ↦ rw f h
      ])

  -- The same for an invariant that depends on the number of steps that are left.
  pub run-counts {ℓ} :
      (Inv : ℕ → System M P → Type ℓ)
      → ((r : ℕ) (s : System M P) (i : ℕ) (c : C) (k : ℕ)
          → i < n
          → Inv (suc r) s
          → Inv r (exec s i c k))
      → ((r : ℕ) (s : System M P) → Inv (suc r) s → Inv r s)
      → (s : System M P) (es : List (ℕ × C × ℕ)) → Inv (length es) s
      → Inv 0 (run s es)
  unfolding run
  run-counts Inv keep skip s [] h = h
  run-counts Inv keep skip s ((i, c, k) ∷ es) h =
      run-counts Inv keep skip (if ltb i n then exec s i c k else s) es
        (elim (Bool-cases (ltb i n)) [
          | inl t ↦ rw t (keep (length es) s i c k (ground arith) h)
          | inr f ↦ rw f (skip (length es) s h)
        ])

  -- thread `j` is never scheduled
  abbrev pub Spares : ℕ → List (ℕ × C × ℕ) → Type 0
  Spares j [] = Unit
  Spares j ((i, c, k) ∷ es) = (i ≢ j) × Spares j es

  pub run-keeps_Spares {ℓ} :
      (j : ℕ) (Inv : System M P → Type ℓ)
      → ((s : System M P) (i : ℕ) (c : C) (k : ℕ) → i < n → i ≢ j → Inv s → Inv (exec s i c k))
      → (s : System M P) (es : List (ℕ × C × ℕ)) → Spares j es
      → Inv s
      → Inv (run s es)
  unfolding run
  run-keeps_Spares j Inv keep s [] spares h = h
  run-keeps_Spares j Inv keep s ((i, c, k) ∷ es) spares h =
      run-keeps_Spares j Inv keep (if ltb i n then exec s i c k else s) es spares.1
        (elim (Bool-cases (ltb i n)) [
          | inl t ↦ rw t (keep s i c k (ground arith) spares.0 h)
          | inr f ↦ rw f h
        ])

  -- A step of another thread leaves a thread that does not sleep where it is.
  pub exec-other :
      (s : System M P) (i j : ℕ) (c : C) (k : ℕ)
      → i ≢ j
      → ((a : ℕ) → prog.asleep a (s.pc j) ≡ false)
      → (exec s i c k).pc j ≡ s.pc j
  exec-other s i j c k ne awake = go (prog.step i c s.mem (s.pc i)).2
    where
      moved : ℕ → P
      moved = update s.pc i (prog.step i c s.mem (s.pc i)).1

      same : moved j ≡ s.pc j
      same = ground arith

      picked :
          (a : ℕ) (o : Option ℕ)
          → futex.pick n (λ j. prog.asleep a (moved j)) k ≡ o
          → wake_some moved o j ≡ s.pc j
      picked a none e = same
      picked a (some l) e =
          ground (arith, futex.pick_asleep n (λ j. prog.asleep a (moved j)) k e, awake a, same)

      go : (wake : Wake) → deliver k wake moved j ≡ s.pc j
      go silent = same
      go (one a) = picked a (futex.pick n (λ j. prog.asleep a (moved j)) k) refl
      go (all a) = rw (same, awake a)

  -- all choices of the schedule are allowed
  abbrev pub Only : (C → Type 0) → List (ℕ × C × ℕ) → Type 0
  Only Allowed [] = Unit
  Only Allowed ((i, c, k) ∷ es) = Allowed c × Only Allowed es

  pub Only-any : (es : List (ℕ × C × ℕ)) → Only (λ c. Unit) es
  Only-any [] = tt
  Only-any ((i, c, k) ∷ es) = (tt, Only-any es)

  pub run-keeps_Only {ℓ} :
      (Allowed : C → Type 0) (Inv : System M P → Type ℓ)
      → ((s : System M P) (i : ℕ) (c : C) (k : ℕ) → i < n → Allowed c → Inv s → Inv (exec s i c k))
      → (s : System M P) (es : List (ℕ × C × ℕ)) → Only Allowed es
      → Inv s
      → Inv (run s es)
  unfolding run
  run-keeps_Only Allowed Inv keep s [] only h = h
  run-keeps_Only Allowed Inv keep s ((i, c, k) ∷ es) only h =
      run-keeps_Only Allowed Inv keep (if ltb i n then exec s i c k else s) es only.1
        (elim (Bool-cases (ltb i n)) [
          | inl t ↦ rw t (keep s i c k (ground arith) only.0 h)
          | inr f ↦ rw f h
        ])

  -- What is left to show of a step after the thread's own move: nothing is woken, nobody sleeps
  -- on the atomic, one sleeper is woken, or all are.
  pub deliver-keeps {ℓ} :
      (Inv : (ℕ → P) → Type ℓ) (pc : ℕ → P) (k : ℕ) (wake : Wake)
      → (wake ≡ silent → Inv pc)
      → ((a : ℕ) → wake ≡ one a → ((j : ℕ) → j < n → prog.asleep a (pc j) ≡ false) → Inv pc)
      → ((a j : ℕ)
          → wake ≡ one a
          → j < n
          → prog.asleep a (pc j) ≡ true
          → Inv (update pc j (prog.woken (pc j))))
      → ((a : ℕ)
          → wake ≡ all a
          → Inv (λ j. if prog.asleep a (pc j) then prog.woken (pc j) else pc j))
      → Inv (deliver k wake pc)
  deliver-keeps Inv pc k silent still nobody somebody everybody = still refl
  deliver-keeps Inv pc k (one a) still nobody somebody everybody =
      go (futex.pick n (λ j. prog.asleep a (pc j)) k) refl
    where
      go : (o : Option ℕ) → futex.pick n (λ j. prog.asleep a (pc j)) k ≡ o → Inv (wake_some pc o)
      go none e = nobody a refl (futex.pick_none n (λ j. prog.asleep a (pc j)) k e)
      go (some j) e =
          let (lt, asleep) = futex.pick_asleep n (λ j. prog.asleep a (pc j)) k e in
          somebody a j refl lt asleep
  deliver-keeps Inv pc k (all a) still nobody somebody everybody = everybody a refl

  -- A thread that a wake-up reaches was asleep.
  abbrev pub Roused : P → P → Type 0
  Roused p p' = (p' ≡ p) ⊎ ((p' ≡ prog.woken p) × ((a : ℕ) × (prog.asleep a p ≡ true)))

  pub deliver-Roused :
      (pc : ℕ → P) (k : ℕ) (wake : Wake) (j : ℕ) → Roused (pc j) (deliver k wake pc j)
  deliver-Roused pc k wake j =
      deliver-keeps (λ pc'. Roused (pc j) (pc' j)) pc k wake (λ e. inl refl)
        (λ a e nobody. inl refl)
        (λ a l e lt slept. elim (Bool-cases (l == j)) [
          | inl here ↦ rw here (
              subst (λ x. Roused (pc x) (prog.woken (pc l))) ((==_iff l j).0 here)
                (inr (refl, (a, slept))))
          | inr other ↦ rw other (inl refl)
        ])
        (λ a e. elim (Bool-cases (prog.asleep a (pc j))) [
          | inl slept ↦ rw slept (inr (refl, (a, slept)))
          | inr awake ↦ rw awake (inl refl)
        ])
