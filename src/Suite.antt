-- ===== src/Suite.antt =====
-- The repository's unit tests, those in which one thread at a time is in a call: scripts of calls with
-- what the test asserts of them. Every component's tests are in its own file Suite.
use atomics_for_peace_and_sy.Base.{ℕ, ◌≡◌, Bool, true, List, [], ◌∷◌}
use atomics_for_peace_and_sy.Threads.{update}

-- A call of a thread, with the place where it is to end, or an assertion on the memory.
pub data Act (M C O : Type 0) : Type 0 where
  call : (thread : ℕ) → C → (returns : O) → Act M C O
  check : (M → Bool) → Act M C O

pub data Result (O : Type 0) : Type 0 where
  ended : O → Result O
  checked : Bool → Result O

-- `finish i (m, p) c` is the end of the call `c` of thread `i`, `place` what a test sees of a thread.
module _ {M P C O : Type 0} (finish : ℕ → M × P → C → M × P) (place : P → O) where
  abbrev pub results : M → (ℕ → P) → List (Act M C O) → List (Result O)
  results m pc [] = []
  results m pc (call i c returns ∷ acts) =
      let (m', p) = finish i (m, pc i) c in ended (place p) ∷ results m' (update pc i p) acts
  results m pc (check test ∷ acts) = checked (test m) ∷ results m pc acts

  abbrev pub expected : List (Act M C O) → List (Result O)
  expected [] = []
  expected (call i c returns ∷ acts) = ended returns ∷ expected acts
  expected (check test ∷ acts) = checked true ∷ expected acts

  -- Every call ends where the script says, and every assertion holds.
  abbrev pub Passes : M → (ℕ → P) → List (Act M C O) → Type 0
  Passes m pc acts = results m pc acts ≡ expected acts
