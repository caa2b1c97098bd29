-- ===== src/Futex/Possible.antt =====
-- What threads that wait on atomics can still do.
use atomics_for_peace_and_sy.Base.{ℕ, ◌<◌, ◌≡◌, false, sym, subst}
use atomics_for_peace_and_sy.Threads.{System, update}
use atomics_for_peace_and_sy.Futex.{AtomicWait, Program, Wake, exec, deliver}

-- Some continuation of the schedule leads to a state with `Goal`, and schedules no thread while it
-- sleeps: a sleeper goes on only if another thread's wake-up reaches it.
pub data Possible (futex : AtomicWait) {M P C : Type 0} (prog : Program M P C) (n : ℕ)
    (Goal : System M P → Type 0) : System M P → Type 0 where
  now : {s : System M P} → Goal s → Possible futex prog n Goal s
  next :
      {s : System M P} (i : ℕ) (c : C) (k : ℕ)
      → i < n
      → ((a : ℕ) → prog.asleep a (s.pc i) ≡ false)
      → Possible futex prog n Goal (exec futex prog n s i c k)
      → Possible futex prog n Goal s

module _ (futex : AtomicWait) {M P C : Type 0} (prog : Program M P C) (n : ℕ) where
  -- the state that thread `i` leads to by a step with the outcome `x`, with its wake-up
  abbrev pub reach : System M P → ℕ → M × P × Wake → System M P
  reach s i x = record { mem = x.0; pc = deliver futex prog n 0 x.2 (update s.pc i x.1) }

  -- One step of a thread that is awake, in a system with an invariant.
  pub act :
      (Inv Goal : System M P → Type 0)
      → ((s : System M P) (i : ℕ) (c : C) (k : ℕ) → i < n → Inv s → Inv (exec futex prog n s i c k))
      → (s : System M P) (i : ℕ) (c : C) (x : M × P × Wake) → Inv s
      → i < n
      → ((a : ℕ) → prog.asleep a (s.pc i) ≡ false)
      → prog.step i c s.mem (s.pc i) ≡ x
      → (Inv (reach s i x) → Possible futex prog n Goal (reach s i x))
      → Possible futex prog n Goal s
  act Inv Goal keeps s i c x inv lt awake e go = next i c 0 lt awake (
      subst (λ y. Possible futex prog n Goal (reach s i y)) (sym e)
        (go (subst (λ y. Inv (reach s i y)) e (keeps s i c 0 lt inv))))
