-- ===== src/Futex/Scripted.antt =====
-- Threads that make the calls of a script, one after the other, as those that a test spawns.
use mathlib.Core.Path.{fun_ext}
use atomics_for_peace_and_sy.Base.{
  ℕ, ◌<◌, ◌≡◌, refl, sym, subst, ap, ◌∙◌, ==_iff, inl, inr, Bool, true, false, Bool-cases, Option,
  none, some, List, [], ◌∷◌, ◌==◌, if◌then◌else◌,
}
use atomics_for_peace_and_sy.Threads.{System, update}
use atomics_for_peace_and_sy.Futex.{
  AtomicWait, Program, Wake, silent, one, all, exec, deliver, run, run-keeps, wake_some,
}

-- the calls that a thread still has to make, and where it stands
abbrev pub Worker : (P C : Type 0) → Type 0
Worker P C = List C × P

-- `between p` says that the thread is in no call.
module _ {M P C : Type 0} (prog : Program M P C) (between : P → Bool) where
  -- In a call the thread goes on; between calls it makes the next one, if there is one.
  abbrev pub next_call : ℕ → M → P → List C → M × Worker P C × Wake
  next_call i m p [] = (m, ([], p), silent)
  next_call i m p (call ∷ calls) =
      let (m', p', wake) = prog.step i call m p in (m', (calls, p'), wake)

  abbrev pub go_on : ℕ → C → M → P → List C → M × Worker P C × Wake
  go_on i c m p calls = let (m', p', wake) = prog.step i c m p in (m', (calls, p'), wake)

  abbrev pub scripted : Program M (Worker P C) C
  scripted = record {
    step = λ i c m (calls, p). if between p then next_call i m p calls else go_on i c m p calls;
    asleep = λ a (calls, p). prog.asleep a p;
    woken = λ (calls, p). (calls, prog.woken p);
  }

  -- the threads without their scripts
  abbrev pub plain : System M (Worker P C) → System M P
  plain s = record { mem = s.mem; pc = λ i. (s.pc i).1 }

  update-plain :
      (pc : ℕ → Worker P C) (i : ℕ) (w : Worker P C)
      → (λ j. (update pc i w j).1) ≡ update (λ j. (pc j).1) i w.1
  update-plain pc i w =
      fun_ext
        (λ j. elim (Bool-cases (i == j)) [ inl here ↦ rw here refl | inr other ↦ rw other refl ])

  module _ (futex : AtomicWait) (n : ℕ) where
    deliver-plain :
        (k : ℕ) (wake : Wake) (pc : ℕ → Worker P C)
        → (λ j. (deliver futex scripted n k wake pc j).1)
          ≡ deliver futex prog n k wake (λ j. (pc j).1)
    deliver-plain k silent pc = refl
    deliver-plain k (one a) pc = picked (futex.pick n (λ j. prog.asleep a (pc j).1) k)
      where
        picked :
            (o : Option ℕ)
            → (λ j. (wake_some futex scripted n pc o j).1)
              ≡ wake_some futex prog n (λ j. (pc j).1) o
        picked none = refl
        picked (some j) = update-plain pc j (scripted.woken (pc j))
    deliver-plain k (all a) pc = fun_ext (λ j. elim (Bool-cases (prog.asleep a (pc j).1)) [
      | inl slept ↦ rw slept refl
      | inr awake ↦ rw awake refl
    ])

    module _ {ℓ} (Inv : System M P → Type ℓ)
        (keep : (s : System M P) (i : ℕ) (c : C) (k : ℕ)
          → i < n
          → Inv s
          → Inv (exec futex prog n s i c k)) where
      module _ (s : System M (Worker P C)) (i : ℕ) (k : ℕ) (lt : i < n) (h : Inv (plain s)) where
        -- the system after a step with the outcome `x`
        abbrev after : M × Worker P C × Wake → System M P
        after (m, w, wake) =
            plain (record { mem = m; pc = deliver futex scripted n k wake (update s.pc i w) })

        step-after : (c : C) (calls : List C) → Inv (after (go_on i c s.mem (s.pc i).1 calls))
        step-after c calls =
            subst (λ pc. Inv (record { mem = (prog.step i c s.mem (s.pc i).1).0; pc = pc }))
              (sym (
                deliver-plain k wake (update s.pc i (calls, p))
                ∙ ap (deliver futex prog n k wake) (update-plain s.pc i (calls, p))))
              (keep (plain s) i c k lt h)
          where
            p : P
            p = (prog.step i c s.mem (s.pc i).1).1

            wake : Wake
            wake = (prog.step i c s.mem (s.pc i).1).2

        next-after : (calls : List C) → Inv (after (next_call i s.mem (s.pc i).1 calls))
        next-after [] =
            subst (λ pc. Inv (record { mem = s.mem; pc = pc }))
              (fun_ext (λ j. elim (Bool-cases (i == j)) [
                | inl here ↦ rw here (ap (λ l. (s.pc l).1) (sym ((==_iff i j).0 here)))
                | inr other ↦ rw other refl
              ]))
              h
        next-after (call ∷ calls) = step-after call calls

        either-after :
            (free : Bool) (x y : M × Worker P C × Wake)
            → Inv (after x)
            → Inv (after y)
            → Inv (after (if free then x else y))
        either-after true x y hx hy = hx
        either-after false x y hx hy = hy

      -- A scripted step is a step of the program, or changes nothing.
      pub run-plain :
          (s : System M (Worker P C)) (es : List (ℕ × C × ℕ))
          → Inv (plain s)
          → Inv (plain (run futex scripted n s es))
      run-plain s es h =
          run-keeps futex scripted n (λ s. Inv (plain s))
            (λ s i c k lt h.
              either-after s i k lt h (between (s.pc i).1) _ _ (next-after s i k lt h (s.pc i).0)
                (step-after s i k lt h c (s.pc i).0))
            s es h
