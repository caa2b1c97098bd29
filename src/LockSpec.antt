-- ===== src/LockSpec.antt =====
-- What src/spinlock.rs, src/mutex_v1.rs and src/mutex_v2.rs promise, as one abstract lock: it is free
-- or taken by one thread, and only that thread sees or changes the data.
use atomics_for_peace_and_sy.Base.{
  ℕ, ◌≡◌, ◌≢◌, arith, ◌==◌, if◌then◌else◌, refl, sym, subst, Option, none, some, List, [], ◌∷◌,
}
use atomics_for_peace_and_sy.Threads.{System}
use atomics_for_peace_and_sy.Simulation.{
  Trace, done, follow, Implementation, history, history-Trace,
}

-- A lock with its data; `taken` has the identifier of the thread that has it.
pub data Lock (T : Type 0) : Type 0 where
  free : T → Lock T
  taken : ℕ → T → Lock T

-- What a step of a thread does with the lock, seen from outside.
pub data Label (T : Type 0) : Type 0 where
  internal : Label T
  acquires : Label T
  enters : Label T  -- a call returns with a guard
  sees : T → Label T
  writes : T → Label T
  releases : Label T

pub data Move {T : Type 0} (i : ℕ) : Label T → Lock T → Lock T → Type 0 where
  rest : {s : Lock T} → Move i internal s s
  acquire : {d : T} → Move i acquires (free d) (taken i d)
  enter : {d : T} → Move i enters (taken i d) (taken i d)
  see : {d : T} → Move i (sees d) (taken i d) (taken i d)
  write : {d v : T} → Move i (writes v) (taken i d) (taken i v)
  release : {d : T} → Move i releases (taken i d) (free d)

module _ {T : Type 0} where
  abbrev pub owner : Lock T → Option ℕ
  owner (free d) = none
  owner (taken i d) = some i

  abbrev pub content : Lock T → T
  content (free d) = d
  content (taken i d) = d

  -- Threads take the lock in turns, and use it only in their turn.
  abbrev pub Alternates : Option ℕ → List (ℕ × Label T) → Type 0
  Alternates o [] = Unit
  Alternates o ((i, internal) ∷ ls) = Alternates o ls
  Alternates o ((i, acquires) ∷ ls) = (o ≡ none) × Alternates (some i) ls
  Alternates o ((i, enters) ∷ ls) = (o ≡ some i) × Alternates o ls
  Alternates o ((i, sees v) ∷ ls) = (o ≡ some i) × Alternates o ls
  Alternates o ((i, writes v) ∷ ls) = (o ≡ some i) × Alternates o ls
  Alternates o ((i, releases) ∷ ls) = (o ≡ some i) × Alternates none ls

  -- Every thread sees what was written last.
  abbrev pub Consistent : T → List (ℕ × Label T) → Type 0
  Consistent d [] = Unit
  Consistent d ((i, sees v) ∷ ls) = (v ≡ d) × Consistent d ls
  Consistent d ((i, writes v) ∷ ls) = Consistent v ls
  Consistent d ((i, internal) ∷ ls) = Consistent d ls
  Consistent d ((i, acquires) ∷ ls) = Consistent d ls
  Consistent d ((i, enters) ∷ ls) = Consistent d ls
  Consistent d ((i, releases) ∷ ls) = Consistent d ls

  pub Trace-Alternates :
      {ls : List (ℕ × Label T)} {s t : Lock T} → Trace Move ls s t → Alternates (owner s) ls
  Trace-Alternates done = tt
  Trace-Alternates (follow rest h) = Trace-Alternates h
  Trace-Alternates (follow acquire h) = (refl, Trace-Alternates h)
  Trace-Alternates (follow enter h) = (refl, Trace-Alternates h)
  Trace-Alternates (follow see h) = (refl, Trace-Alternates h)
  Trace-Alternates (follow write h) = (refl, Trace-Alternates h)
  Trace-Alternates (follow release h) = (refl, Trace-Alternates h)

  pub Trace-Consistent :
      {ls : List (ℕ × Label T)} {s t : Lock T} → Trace Move ls s t → Consistent (content s) ls
  Trace-Consistent done = tt
  Trace-Consistent (follow rest h) = Trace-Consistent h
  Trace-Consistent (follow acquire h) = Trace-Consistent h
  Trace-Consistent (follow enter h) = Trace-Consistent h
  Trace-Consistent (follow see h) = (refl, Trace-Consistent h)
  Trace-Consistent (follow write h) = Trace-Consistent h
  Trace-Consistent (follow release h) = Trace-Consistent h

  -- A move between locks that are equal to the ends of one.
  pub move_between :
      {i : ℕ} {l : Label T} {s s' t t' : Lock T} → s ≡ s' → t ≡ t' → Move i l s' t' → Move i l s t
  move_between {i} {l} {s} {s'} {t} {t'} e f h =
      subst (λ x. Move i l x t) (sym e) (subst (Move i l s') (sym f) h)

  -- The same with another name for what the move does.
  pub relabel :
      {i : ℕ} {l l' : Label T} {s s' t t' : Lock T}
      → l ≡ l'
      → s ≡ s'
      → t ≡ t'
      → Move i l' s' t'
      → Move i l s t
  relabel {i} {l} {l'} {s} {s'} {t} {t'} g e f h =
      subst (λ x. Move i x s t) (sym g) (move_between e f h)

  pub rest_at : {i : ℕ} {s t : Lock T} → t ≡ s → Move i internal s t
  rest_at e = move_between refl e rest

-- A lock whose word is 0 or the identifier of its owner.
module _ {T : Type 0} where
  abbrev pub lock_word : ℕ → T → Lock T
  lock_word w d = if w == 0 then free d else taken w d

  module _ {i : ℕ} (nonzero : i ≢ 0) where
    word-taken : {w : ℕ} {d : T} → w ≡ i → lock_word w d ≡ taken i d
    word-taken e = ground arith

    pub word_acquire : {w : ℕ} (d : T) → w ≡ 0 → Move i acquires (lock_word w d) (lock_word i d)
    word_acquire d e = move_between (ground arith) (word-taken refl) acquire

    pub word_enter : {w : ℕ} (d : T) → w ≡ i → Move i enters (lock_word w d) (lock_word w d)
    word_enter d e = move_between (word-taken e) (word-taken e) enter

    pub word_see : {w : ℕ} (d : T) → w ≡ i → Move i (sees d) (lock_word w d) (lock_word w d)
    word_see d e = move_between (word-taken e) (word-taken e) see

    pub word_write : {w : ℕ} (d v : T) → w ≡ i → Move i (writes v) (lock_word w d) (lock_word w v)
    word_write d v e = move_between (word-taken e) (word-taken e) write

    pub word_release : {w : ℕ} (d : T) → w ≡ i → Move i releases (lock_word w d) (free d)
    word_release d e = move_between (word-taken e) refl release

-- The threads of every implementation take turns, use the lock in their turn only, and see what was
-- written last.
pub history-turns :
    {T M P E : Type 0} (impl : Implementation (Move {T = T}) M P E) (s : System M P) (es : List E)
    → impl.Inv s
    → Alternates (owner (impl.view s)) (history impl s es)
      × Consistent (content (impl.view s)) (history impl s es)
history-turns impl s es h =
    (Trace-Alternates (history-Trace impl s es h), Trace-Consistent (history-Trace impl s es h))
