-- ===== src/ArcSpec.antt =====
-- What src/arc.rs promises, as an abstract shared pointer: how many handles of each kind there are,
-- and the data.
use atomics_for_peace_and_sy.Base.{ℕ, ◌+◌, ◌<◌, ◌≡◌, List, [], ◌∷◌, arith}
use atomics_for_peace_and_sy.Simulation.{Trace, done, follow}

pub record Pointer (T : Type 0) : Type 0 where
  pub arcs : ℕ
  pub weaks : ℕ
  pub content : T

-- What a step of a thread does with the pointer, seen from outside.
pub data Label (T : Type 0) : Type 0 where
  internal : Label T
  clones : Label T
  downgrades : Label T
  upgrades : Label T
  finds_none : Label T  -- an `upgrade` sees that there is no Arc
  drops : Label T
  drops_weak : Label T
  sees : T → Label T
  writes : T → Label T  -- through the `&mut T` of `get_mut`
  unwraps : T → Label T  -- `into_inner` takes the data and its Arc

module _ {T : Type 0} where
  abbrev pub Becomes : Pointer T → (arcs weaks : ℕ) → T → Type 0
  Becomes t arcs weaks v = (t.arcs ≡ arcs) × (t.weaks ≡ weaks) × (t.content ≡ v)

  -- When each is possible, and what becomes of the pointer.
  abbrev pub Move : ℕ → Label T → Pointer T → Pointer T → Type 0
  Move i internal s t = Becomes t s.arcs s.weaks s.content
  Move i clones s t = (0 < s.arcs) × Becomes t (s.arcs + 1) s.weaks s.content
  Move i downgrades s t = (0 < s.arcs) × Becomes t s.arcs (s.weaks + 1) s.content
  Move i upgrades s t = (0 < s.arcs) × (0 < s.weaks) × Becomes t (s.arcs + 1) s.weaks s.content
  Move i finds_none s t = (s.arcs ≡ 0) × Becomes t s.arcs s.weaks s.content
  Move i drops s t = (s.arcs ≡ t.arcs + 1) × Becomes t t.arcs s.weaks s.content
  Move i drops_weak s t = (s.weaks ≡ t.weaks + 1) × Becomes t s.arcs t.weaks s.content
  Move i (sees v) s t = (0 < s.arcs) × (v ≡ s.content) × Becomes t s.arcs s.weaks s.content
  Move i (writes v) s t = (s.arcs ≡ 1) × (s.weaks ≡ 0) × Becomes t 1 0 v
  Move i (unwraps v) s t = (s.arcs ≡ 1) × (s.weaks ≡ 0) × (v ≡ s.content) × Becomes t 0 0 v

  -- The label does not need an Arc.
  abbrev pub Harmless : Label T → Type 0
  Harmless internal = Unit
  Harmless finds_none = Unit
  Harmless drops_weak = Unit
  Harmless l = ⊥

  abbrev pub Unused : List (ℕ × Label T) → Type 0
  Unused [] = Unit
  Unused ((i, l) ∷ ls) = Harmless l × Unused ls

  move-Harmless :
      (i : ℕ) (l : Label T) (s t : Pointer T)
      → Move i l s t
      → s.arcs ≡ 0
      → Harmless l × (t.arcs ≡ 0)
  move-Harmless i l s t m none = ground arith

  -- Once the last Arc is gone, every `upgrade` fails, and nobody sees the data again.
  pub Trace-Unused :
      {ls : List (ℕ × Label T)} {s t : Pointer T}
      → Trace Move ls s t
      → s.arcs ≡ 0
      → Unused ls × (t.arcs ≡ 0)
  Trace-Unused done none = (tt, none)
  Trace-Unused (follow {i} {l} {ls} {s} {t} {u} m h) none =
      let (harmless, gone) = move-Harmless i l s t m none in
      let (unused, last) = Trace-Unused h gone in ((harmless, unused), last)
