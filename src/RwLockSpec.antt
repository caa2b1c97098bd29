-- ===== src/RwLockSpec.antt =====
-- What src/rwlock.rs promises, as an abstract lock: any number of threads share it, or one has it
-- alone. Only then the data changes.
use atomics_for_peace_and_sy.Base.{ℕ, suc, ◌≡◌, List, [], ◌∷◌, refl, sym, subst}
use atomics_for_peace_and_sy.Simulation.{Trace, done, follow}

-- A lock with its data: how many share it, or that one writes.
pub data Shared (T : Type 0) : Type 0 where
  shared : (readers : ℕ) → T → Shared T
  writing : T → Shared T

pub data Label (T : Type 0) : Type 0 where
  internal : Label T
  shares : Label T
  unshares : Label T
  takes : Label T
  gives : Label T
  sees : T → Label T
  writes : T → Label T

pub data Move {T : Type 0} (i : ℕ) : Label T → Shared T → Shared T → Type 0 where
  rest : {s : Shared T} → Move i internal s s
  share : {r : ℕ} {d : T} → Move i shares (shared r d) (shared (suc r) d)
  unshare : {r : ℕ} {d : T} → Move i unshares (shared (suc r) d) (shared r d)
  take : {d : T} → Move i takes (shared 0 d) (writing d)
  give : {d : T} → Move i gives (writing d) (shared 0 d)
  see_shared : {r : ℕ} {d : T} → Move i (sees d) (shared (suc r) d) (shared (suc r) d)
  see_own : {d : T} → Move i (sees d) (writing d) (writing d)
  write : {d v : T} → Move i (writes v) (writing d) (writing v)

module _ {T : Type 0} where
  abbrev pub content : Shared T → T
  content (shared r d) = d
  content (writing d) = d

  -- Every thread sees what was written last.
  abbrev pub Consistent : T → List (ℕ × Label T) → Type 0
  Consistent d [] = Unit
  Consistent d ((i, sees v) ∷ ls) = (v ≡ d) × Consistent d ls
  Consistent d ((i, writes v) ∷ ls) = Consistent v ls
  Consistent d ((i, internal) ∷ ls) = Consistent d ls
  Consistent d ((i, shares) ∷ ls) = Consistent d ls
  Consistent d ((i, unshares) ∷ ls) = Consistent d ls
  Consistent d ((i, takes) ∷ ls) = Consistent d ls
  Consistent d ((i, gives) ∷ ls) = Consistent d ls

  pub Trace-Consistent :
      {ls : List (ℕ × Label T)} {s t : Shared T} → Trace Move ls s t → Consistent (content s) ls
  Trace-Consistent done = tt
  Trace-Consistent (follow rest h) = Trace-Consistent h
  Trace-Consistent (follow share h) = Trace-Consistent h
  Trace-Consistent (follow unshare h) = Trace-Consistent h
  Trace-Consistent (follow take h) = Trace-Consistent h
  Trace-Consistent (follow give h) = Trace-Consistent h
  Trace-Consistent (follow see_shared h) = (refl, Trace-Consistent h)
  Trace-Consistent (follow see_own h) = (refl, Trace-Consistent h)
  Trace-Consistent (follow write h) = Trace-Consistent h

  -- A move whose parts are equal to those of another.
  pub relabel :
      {i : ℕ} {l l' : Label T} {s s' t t' : Shared T}
      → l ≡ l'
      → s ≡ s'
      → t ≡ t'
      → Move i l' s' t'
      → Move i l s t
  relabel {i} {l} {l'} {s} {s'} {t} {t'} g e f h =
      subst (λ x. Move i x s t) (sym g)
        (subst (λ x. Move i l' x t) (sym e) (subst (Move i l' s') (sym f) h))
