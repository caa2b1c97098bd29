-- ===== src/Arc/Places.antt =====
-- src/arc.rs: what each place in a call tells of the counts stays true; with that, every step of
-- every thread keeps the invariant.
use atomics_for_peace_and_sy.Base.{
  Bool-cases, subst, ℕ, ◌^◌, ◌<◌, ◌≡◌, refl, ◌≢◌, inl, inr, Bool, true, false, arith, ◌==◌,
  if◌then◌else◌,
}
use atomics_for_peace_and_sy.Threads.{
  System, update, sum_over-update, le-sum_over, add-le-sum_over, exec,
}
use atomics_for_peace_and_sy.Arc.{World, Pc, outside, Thread, Choice, Next, client, step, step_at}
use atomics_for_peace_and_sy.Arc.Inv.{
  strongs, weaks_of, lockers, finishing, freers, Place, Live, Gone, Inv,
}
use atomics_for_peace_and_sy.Arc.Ends.{move-Live, move-Gone}

module _ {T : Type 0} {n : ℕ} where
  module _ {m : World T} {pc : ℕ → Thread T} (alive : m.freed ≡ 0) (live : Live n m pc)
      (each : (j : ℕ) → j < n → Place m (pc j) (pc j).at) (i : ℕ) (lt : i < n) (c : Choice T) where
    abbrev after : Pc T → Next T
    after p = step_at c m (pc i) p

    move_self : (p : Pc T) → (pc i).at ≡ p → Place (after p).0 (after p).1 (after p).1.at
    unfolding step_at client
    move_self (outside result) e = ground (arith, each i)
    move_self p e = ground (
      arith,
      each i,
      alive,
      live.strong,
      live.refs,
      le-sum_over strongs n pc i,
      le-sum_over lockers n pc i,
    )

    -- Beside another thread's Arc, nobody is alone.
    move-other :
        (p : Pc T) → (pc i).at ≡ p → (j : ℕ) → j < n → i ≢ j → Place (after p).0 (pc j) (pc j).at
    unfolding step_at client
    move-other (outside result) e j lj ne = ground (
      arith,
      each i,
      each j,
      alive,
      live.strong,
      live.refs,
      add-le-sum_over strongs n pc i j,
      le-sum_over strongs n pc j,
      le-sum_over weaks_of n pc i,
      le-sum_over lockers n pc j,
    )
    move-other p e j lj ne = ground (
      arith,
      each i,
      each j,
      alive,
      live.strong,
      live.last,
      live.refs,
      live.freeing,
      add-le-sum_over strongs n pc i j,
      add-le-sum_over lockers n pc i j,
      le-sum_over strongs n pc j,
      le-sum_over weaks_of n pc i,
      le-sum_over lockers n pc j,
      le-sum_over finishing n pc i,
      le-sum_over freers n pc i,
    )

  -- Once the allocation is freed, no thread has a handle, and no step touches it.
  module _ {m : World T} {pc : ℕ → Thread T} (gone : Gone n m pc)
      (each : (j : ℕ) → j < n → Place m (pc j) (pc j).at) (i : ℕ) (lt : i < n) (c : Choice T) where
    abbrev freed_after : Pc T → Next T
    freed_after p = step_at c m (pc i) p

    still :
        (p : Pc T)
        → (pc i).at ≡ p
        → ((freed_after p).0 ≡ m)
          × ((freed_after p).1.arcs ≡ 0)
          × ((freed_after p).1.weaks ≡ 0)
          × (strongs (freed_after p).1 ≡ 0)
          × (finishing (freed_after p).1 ≡ 0)
          × (freers (freed_after p).1 ≡ 0)
          × Place m (freed_after p).1 (freed_after p).1.at
    unfolding step_at client
    still (outside result) e = ground (
      arith,
      each i,
      gone.no_arc,
      gone.no_weak,
      gone.no_call,
      le-sum_over strongs n pc i,
      le-sum_over weaks_of n pc i,
    )
    still p e = ground (
      arith,
      each i,
      gone.no_arc,
      gone.no_weak,
      gone.no_call,
      gone.once,
      le-sum_over strongs n pc i,
      le-sum_over weaks_of n pc i,
      le-sum_over finishing n pc i,
      le-sum_over freers n pc i,
    )

    still-Gone : (p : Pc T) → (pc i).at ≡ p → Gone n m (update pc i (freed_after p).1)
    still-Gone p e = record {
      no_arc =
          omega (arith, gone.no_arc, still p e, sum_over-update strongs n pc i (freed_after p).1);
      no_weak =
          omega (arith, gone.no_weak, still p e, sum_over-update weaks_of n pc i (freed_after p).1);
      no_call = omega (
        arith,
        gone.no_call,
        still p e,
        sum_over-update finishing n pc i (freed_after p).1,
        sum_over-update freers n pc i (freed_after p).1,
      );
      once = gone.once;
    }

  move-Inv :
      (m : World T) (pc : ℕ → Thread T) (i : ℕ) (c : Choice T)
      → n < 2 ^ 62
      → i < n
      → Inv n m pc
      → let (m', t) = step_at c m (pc i) (pc i).at in Inv n m' (update pc i t)
  move-Inv m pc i c few lt inv = elim (Bool-cases (m.freed == 0)) [
    | inl alive ↦ here (ground arith)
    | inr freed ↦ there (inv.gone (ground arith))
  ]
    where
      p : Pc T
      p = (pc i).at

      m' : World T
      m' = (step_at c m (pc i) p).0

      pc' : ℕ → Thread T
      pc' = update pc i (step_at c m (pc i) p).1

      here : m.freed ≡ 0 → Inv n m' pc'
      here alive = record {
        live = move-Live few alive (inv.live alive) inv.each i lt c p refl;
        gone = move-Gone few alive (inv.live alive) inv.each i lt c p refl;
        each = λ j lj. elim (Bool-cases (i == j)) [
          | inl same ↦ rw same (move_self alive (inv.live alive) inv.each i lt c p refl)
          | inr other ↦
              rw other
                (move-other alive (inv.live alive) inv.each i lt c p refl j lj (ground arith))
        ];
      }

      there : Gone n m pc → Inv n m' pc'
      there g =
          let q = still g inv.each i lt c p refl in
          rw (q.0) (record {
            live = λ z. absurd (omega (arith, g.once));
            gone = λ z. still-Gone g inv.each i lt c p refl;
            each = λ j lj. elim (Bool-cases (i == j)) [
              | inl same ↦ rw same (q.6)
              | inr other ↦ rw other (inv.each j lj)
            ];
          })

  -- A write of a thread's own position changes nothing.
  unmoved :
      (s : System (World T) (Thread T)) (i : ℕ)
      → i < n
      → Inv n s.mem s.pc
      → Inv n s.mem (update s.pc i (s.pc i))
  unmoved s i lt inv = subst (λ f. Inv n s.mem f) (λ k j. same j k) inv
    where
      same : (j : ℕ) → s.pc j ≡ update s.pc i (s.pc i) j
      same j = ground arith

  pub step-Inv :
      (s : System (World T) (Thread T)) (i : ℕ) (c : Choice T)
      → n < 2 ^ 62
      → i < n
      → Inv n s.mem s.pc
      → let t = exec step n s i c in Inv n t.mem t.pc
  unfolding step
  step-Inv s i c few lt inv = go s.mem.aborted
    where
      go :
          (over : Bool)
          → let (m', t) = if over then (s.mem, s.pc i) else step_at c s.mem (s.pc i) (s.pc i).at in
            Inv n m' (update s.pc i t)
      go true = unmoved s i lt inv
      go false = move-Inv s.mem s.pc i c few lt inv
