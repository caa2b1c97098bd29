-- ===== src/Simulation/OverThreads.antt =====
-- Locks whose threads only spin or park, as in src/spinlock.rs and src/mutex_v1.rs.
use atomics_for_peace_and_sy.Base.{
  ℕ, ◌<◌, ◌≡◌, refl, Bool-cases, inl, inr, List, [], ◌∷◌, ltb, ltb-lt, if◌then◌else◌, sym, subst,
}
use atomics_for_peace_and_sy.Threads.{System, exec, run}
use atomics_for_peace_and_sy.Simulation.{Trace, Implementation, finish, history, history-Trace}

-- What a program is to show of its steps, to behave as `Move`.
pub record Steps {S L : Type 0} (Move : ℕ → L → S → S → Type 0) (internal : L) {M P C : Type 0}
    (step : ℕ → C → M → P → M × P) (n : ℕ) : Type 1 where
  pub rest : (i : ℕ) (s : S) → Move i internal s s
  pub thread_id : ℕ → ℕ
  pub label : ℕ → C → System M P → L
  pub view : System M P → S
  pub Inv : System M P → Type 0
  pub keeps : (s : System M P) (i : ℕ) (c : C) → i < n → Inv s → Inv (exec step n s i c)
  pub simulates :
      (s : System M P) (i : ℕ) (c : C)
      → i < n
      → Inv s
      → Move (thread_id i) (label i c s) (view s) (view (exec step n s i c))

module _ {S L : Type 0} {Move : ℕ → L → S → S → Type 0} {internal : L} {M P C : Type 0}
    {step : ℕ → C → M → P → M × P} {n : ℕ} (steps : Steps Move internal step n) where
  open steps use {rest, thread_id, label, view, Inv, keeps, simulates}

  -- An event of a thread that is not there does nothing.
  abbrev pub implementation : Implementation Move M P (ℕ × C)
  implementation = record {
    exec = λ s (i, c). if ltb i n then exec step n s i c else s;
    mover = λ (i, c). thread_id i;
    label = λ s (i, c). if ltb i n then label i c s else internal;
    view = steps.view;
    Inv = steps.Inv;
    keeps = λ s (i, c) h. elim (Bool-cases (ltb i n)) [
      | inl t ↦ rw t (keeps s i c (ltb-lt t) h)
      | inr f ↦ rw f h
    ];
    simulates = λ s (i, c) h. elim (Bool-cases (ltb i n)) [
      | inl t ↦ rw t (simulates s i c (ltb-lt t) h)
      | inr f ↦ rw f (rest _ _)
    ];
  }

  run-finish : (s : System M P) (es : List (ℕ × C)) → run step n s es ≡ finish implementation s es
  unfolding run finish
  run-finish s [] = refl
  run-finish s ((i, c) ∷ es) = run-finish (if ltb i n then exec step n s i c else s) es

  -- What a schedule's steps do is a history of the specification.
  pub run-Trace :
      (s : System M P) (es : List (ℕ × C))
      → Inv s
      → Trace Move (history implementation s es) (view s) (view (run step n s es))
  run-Trace s es inv =
      subst (λ t. Trace Move (history implementation s es) (view s) (view t))
        (sym (run-finish s es)) (history-Trace implementation s es inv)
