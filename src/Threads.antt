-- ===== src/Threads.antt =====
-- Threads over one shared memory, one atomic access at a time, in any order.
-- A program is a step function: it takes the thread's number, a choice of the environment, the
-- memory and the thread's position, and returns the new memory and position.
pub mod Sums
use atomics_for_peace_and_sy.Base.{
  ℕ, zero, suc, ◌+◌, ◌≤◌, ◌<◌, ◌≡◌, refl, ◌≢◌, inl, inr, List, [], ◌∷◌, arith, ltb, ◌==◌,
  if◌then◌else◌, Bool-cases, length, Bool, true, ◌&&◌,
}

abbrev pub update {ℓ} : {A : Type ℓ} → (ℕ → A) → ℕ → A → ℕ → A
update f i a j = if i == j then a else f j

-- An index that is not below the number of threads names no thread: it is never scheduled.
pub record System (M P : Type 0) : Type 0 where
  pub mem : M
  pub pc : ℕ → P

-- thread `i` alone, which nobody else disturbs, for the given choices
unfoldable pub alone : {M P C : Type 0} → (ℕ → C → M → P → M × P) → ℕ → M × P → List C → M × P
alone step i s [] = s
alone step i (m, p) (c ∷ cs) = alone step i (step i c m p) cs

pub &&-true : {a b : Bool} → (a && b) ≡ true → (a ≡ true) × (b ≡ true)
&&-true {a} {b} e = ground arith

module _ {M P C : Type 0} (step : ℕ → C → M → P → M × P) (n : ℕ) where
  -- one step of thread `i`
  abbrev pub exec : System M P → ℕ → C → System M P
  exec s i c = let (m, p) = step i c s.mem (s.pc i) in record { mem = m; pc = update s.pc i p }

  -- a schedule: who moves, and what the environment chooses
  unfoldable pub run : System M P → List (ℕ × C) → System M P
  run s [] = s
  run s ((i, c) ∷ es) = run (if ltb i n then exec s i c else s) es

  pub run-keeps {ℓ} :
      (Inv : System M P → Type ℓ)
      → ((s : System M P) (i : ℕ) (c : C) → i < n → Inv s → Inv (exec s i c))
      → (s : System M P) (es : List (ℕ × C)) → Inv s
      → Inv (run s es)
  unfolding run
  run-keeps Inv keep s [] h = h
  run-keeps Inv keep s ((i, c) ∷ es) h =
      run-keeps Inv keep (if ltb i n then exec s i c else s) es (elim (Bool-cases (ltb i n)) [
        | inl t ↦ rw t (keep s i c (ground arith) h)
        | inr f ↦ rw f h
      ])

  -- Every step of the schedule passes the test in the state that it is made in.
  unfoldable pub all_along : (System M P → ℕ → C → Bool) → System M P → List (ℕ × C) → Bool
  all_along test s [] = true
  all_along test s ((i, c) ∷ es) =
      test s i c && all_along test (if ltb i n then exec s i c else s) es

  pub run-keeps_all_along {ℓ} :
      (test : System M P → ℕ → C → Bool) (Inv : System M P → Type ℓ)
      → ((s : System M P) (i : ℕ) (c : C) → i < n → test s i c ≡ true → Inv s → Inv (exec s i c))
      → (s : System M P) (es : List (ℕ × C)) → all_along test s es ≡ true
      → Inv s
      → Inv (run s es)
  unfolding run all_along
  run-keeps_all_along test Inv keep s [] ok h = h
  run-keeps_all_along test Inv keep s ((i, c) ∷ es) ok h =
      run-keeps_all_along test Inv keep (if ltb i n then exec s i c else s) es (&&-true ok).1
        (elim (Bool-cases (ltb i n)) [
          | inl t ↦ rw t (keep s i c (ground arith) (&&-true ok).0 h)
          | inr f ↦ rw f h
        ])

  -- The same for an invariant that depends on the number of steps that are left.
  pub run-counts {ℓ} :
      (Inv : ℕ → System M P → Type ℓ)
      → ((r : ℕ) (s : System M P) (i : ℕ) (c : C) → i < n → Inv (suc r) s → Inv r (exec s i c))
      → ((r : ℕ) (s : System M P) → Inv (suc r) s → Inv r s)
      → (s : System M P) (es : List (ℕ × C)) → Inv (length es) s
      → Inv 0 (run s es)
  unfolding run
  run-counts Inv keep skip s [] h = h
  run-counts Inv keep skip s ((i, c) ∷ es) h =
      run-counts Inv keep skip (if ltb i n then exec s i c else s) es (elim (Bool-cases (ltb i n)) [
        | inl t ↦ rw t (keep (length es) s i c (ground arith) h)
        | inr f ↦ rw f (skip (length es) s h)
      ])

-- A sum over the first `n` threads.
module _ {ℓ} {A : Type ℓ} (w : A → ℕ) where
  unfoldable pub sum_over : ℕ → (ℕ → A) → ℕ
  sum_over zero f = 0
  sum_over (suc n) f = sum_over n f + w (f n)

  sum_over-update_above :
      (n : ℕ) (f : ℕ → A) (i : ℕ) (a : A) → n ≤ i → sum_over n (update f i a) ≡ sum_over n f
  unfolding sum_over
  sum_over-update_above zero f i a h = refl
  sum_over-update_above (suc n) f i a h = ground (arith, sum_over-update_above n f i a)

  -- A write at one thread changes the sum by that thread's share.
  pub sum_over-update :
      (n : ℕ) (f : ℕ → A) (i : ℕ) (a : A)
      → i < n
      → sum_over n (update f i a) + w (f i) ≡ sum_over n f + w a
  unfolding sum_over
  sum_over-update zero f i a h = absurd (omega arith)
  sum_over-update (suc n) f i a h = elim (Bool-cases (ltb i n)) [
    | inl below ↦ ground (arith, sum_over-update n f i a)
    | inr last ↦ ground (arith, sum_over-update_above n f i a)
  ]

  pub le-sum_over : (n : ℕ) (f : ℕ → A) (i : ℕ) → i < n → w (f i) ≤ sum_over n f
  unfolding sum_over
  le-sum_over zero f i h = absurd (omega arith)
  le-sum_over (suc n) f i h = ground (arith, le-sum_over n f i)

  pub add-le-sum_over :
      (n : ℕ) (f : ℕ → A) (i j : ℕ) → i < n → j < n → i ≢ j → w (f i) + w (f j) ≤ sum_over n f
  unfolding sum_over
  add-le-sum_over zero f i j hi hj ne = absurd (omega arith)
  add-le-sum_over (suc n) f i j hi hj ne =
      ground (arith, add-le-sum_over n f i j, le-sum_over n f i, le-sum_over n f j)

  pub sum_over_witness : (n : ℕ) (f : ℕ → A) → 0 < sum_over n f → (i : ℕ) × (i < n) × (0 < w (f i))
  unfolding sum_over
  sum_over_witness zero f h = absurd (omega arith)
  sum_over_witness (suc n) f h = elim (Bool-cases (ltb 0 (w (f n)))) [
    | inl here ↦ (n, omega arith, ground arith)
    | inr below ↦ let (i, lt, pos) = sum_over_witness n f (ground arith) in (i, omega arith, pos)
  ]

  pub sum_over-le : ((a : A) → w a ≤ 1) → (n : ℕ) (f : ℕ → A) → sum_over n f ≤ n
  unfolding sum_over
  sum_over-le small zero f = omega arith
  sum_over-le small (suc n) f = omega (arith, small (f n), sum_over-le small n f)

  pub sum_over-eq-zero : (n : ℕ) (f : ℕ → A) → ((i : ℕ) → i < n → w (f i) ≡ 0) → sum_over n f ≡ 0
  unfolding sum_over
  sum_over-eq-zero zero f h = refl
  sum_over-eq-zero (suc n) f h =
      omega (arith, h n, sum_over-eq-zero n f (λ i lt. h i (omega arith)))

  -- A change of all positions that keeps each thread's share keeps the sum.
  pub sum_over-map :
      (n : ℕ) (f g : ℕ → A) → ((i : ℕ) → w (g i) ≡ w (f i)) → sum_over n g ≡ sum_over n f
  unfolding sum_over
  sum_over-map zero f g h = refl
  sum_over-map (suc n) f g h = omega (arith, h n, sum_over-map n f g h)

  pub sum_over-le_below : (n : ℕ) (f : ℕ → A) → ((i : ℕ) → i < n → w (f i) ≤ 1) → sum_over n f ≤ n
  unfolding sum_over
  sum_over-le_below zero f small = omega arith
  sum_over-le_below (suc n) f small =
      omega (arith, small n, sum_over-le_below n f (λ i lt. small i (omega arith)))

-- A share that is never above another has a sum that is not above the other's.
pub sum_over_mono {ℓ} :
    {A : Type ℓ} (v w : A → ℕ)
    → ((a : A) → v a ≤ w a)
    → (n : ℕ) (f : ℕ → A) → sum_over v n f ≤ sum_over w n f
unfolding sum_over
sum_over_mono v w le zero f = omega arith
sum_over_mono v w le (suc n) f = omega (arith, le (f n), sum_over_mono v w le n f)

-- The same, for shares that compare at the threads in question, with the gap at one thread.
pub sum_over-gap {ℓ} :
    {A : Type ℓ} (v w : A → ℕ) (n : ℕ) (f : ℕ → A)
    → ((j : ℕ) → j < n → v (f j) ≤ w (f j))
    → (sum_over v n f ≤ sum_over w n f)
      × ((i : ℕ) → i < n → sum_over v n f + w (f i) ≤ sum_over w n f + v (f i))
unfolding sum_over
sum_over-gap v w zero f le = (omega arith, λ i lt. absurd (omega arith))
sum_over-gap v w (suc n) f le =
    let (below, gap) = sum_over-gap v w n f (λ j lj. le j (omega arith)) in
    (
      omega (arith, below, le n),
      λ i lt. elim (Bool-cases (ltb i n)) [
        | inl early ↦ omega (arith, le n, gap i (ground arith))
        | inr here ↦ ground (arith, below)
      ],
    )
