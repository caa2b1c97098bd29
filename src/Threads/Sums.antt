-- ===== src/Threads/Sums.antt =====
-- Sums over the first `n` threads whose shares are known.
use atomics_for_peace_and_sy.Base.{ℕ, zero, suc, ◌+◌, ◌*◌, ◌≤◌, ◌<◌, ◌≡◌, arith}
use atomics_for_peace_and_sy.Threads.{sum_over}

module _ {ℓ} {A : Type ℓ} where
  pub sum_over-const :
      (w : A → ℕ) (k n : ℕ) (f : ℕ → A) → ((i : ℕ) → i < n → w (f i) ≡ k) → sum_over w n f ≡ n * k
  unfolding sum_over
  sum_over-const w k zero f h = omega arith
  sum_over-const w k (suc n) f h =
      ground (arith, sum_over-const w k n f (λ i lt. h i (omega arith)), h n)

  pub sum_over-le_const :
      (w : A → ℕ) (k n : ℕ) (f : ℕ → A) → ((i : ℕ) → i < n → w (f i) ≤ k) → sum_over w n f ≤ n * k
  unfolding sum_over
  sum_over-le_const w k zero f h = omega arith
  sum_over-le_const w k (suc n) f h =
      ground (arith, sum_over-le_const w k n f (λ i lt. h i (omega arith)), h n)

  pub sum_over-add :
      (u v w : A → ℕ) (n : ℕ) (f : ℕ → A)
      → ((i : ℕ) → i < n → u (f i) ≡ v (f i) + w (f i))
      → sum_over u n f ≡ sum_over v n f + sum_over w n f
  unfolding sum_over
  sum_over-add u v w zero f h = omega arith
  sum_over-add u v w (suc n) f h =
      omega (arith, sum_over-add u v w n f (λ i lt. h i (omega arith)), h n (omega arith))
