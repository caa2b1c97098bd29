-- ===== src/Simulation.antt =====
-- Systems of threads that behave as an abstract specification: a step relation whose steps have a
-- label that says what they do.
pub mod OverThreads
pub mod OverFutex
use atomics_for_peace_and_sy.Base.{ℕ, List, [], ◌∷◌}
use atomics_for_peace_and_sy.Threads.{System}

-- A history of the specification `Move`: which thread does what, one after the other.
pub data Trace {S L : Type 0} (Move : ℕ → L → S → S → Type 0) : List (ℕ × L) → S → S → Type 0 where
  done : {s : S} → Trace Move [] s s
  follow :
      {i : ℕ} {l : L} {ls : List (ℕ × L)} {s t u : S}
      → Move i l s t
      → Trace Move ls t u
      → Trace Move ((i, l) ∷ ls) s u

-- What an implementation is to show of its threads: `exec` is the step of an event, `mover` the
-- identifier of the thread that makes it, `label` what it does, and `view` the abstract state that a
-- state of the system stands for.
pub record Implementation {S L : Type 0} (Move : ℕ → L → S → S → Type 0) (M P E : Type 0)
    : Type 1 where
  pub exec : System M P → E → System M P
  pub mover : E → ℕ
  pub label : System M P → E → L
  pub view : System M P → S
  pub Inv : System M P → Type 0
  pub keeps : (s : System M P) (e : E) → Inv s → Inv (exec s e)
  pub simulates :
      (s : System M P) (e : E) → Inv s → Move (mover e) (label s e) (view s) (view (exec s e))

module _ {S L : Type 0} {Move : ℕ → L → S → S → Type 0} {M P E : Type 0}
    (impl : Implementation Move M P E) where
  -- the state after a schedule, and what its steps did
  unfoldable pub finish : System M P → List E → System M P
  finish s [] = s
  finish s (e ∷ es) = finish (impl.exec s e) es

  unfoldable pub history : System M P → List E → List (ℕ × L)
  history s [] = []
  history s (e ∷ es) = (impl.mover e, impl.label s e) ∷ history (impl.exec s e) es

  -- Every implementation's histories are those of the specification.
  pub history-Trace :
      (s : System M P) (es : List E)
      → impl.Inv s
      → Trace Move (history s es) (impl.view s) (impl.view (finish s es))
  unfolding finish history
  history-Trace s [] h = done
  history-Trace s (e ∷ es) h =
      follow (impl.simulates s e h) (history-Trace (impl.exec s e) es (impl.keeps s e h))
