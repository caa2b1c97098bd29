-- ===== src/RingBuffer/Mask.antt =====
-- src/utils/ring_buffer.rs: `idx & (N - 1)` is `idx % N` where N is a power of 2.
use Prim.Native.Nat.{bit_and-bitwise, digits, min}
use native.Mathlib.Nat.{add-mul-mod_self_left, mod-eq_of_lt, div-add-mod, pow-suc, mod-lt}
use atomics_for_peace_and_sy.Base.{
  ℕ, zero, suc, ◌+◌, ◌-◌, ◌*◌, ◌/◌, ◌%◌, ◌^◌, ◌≤◌, ◌<◌, ◌≡◌, arith, ◌∙◌, ap,
}
use atomics_for_peace_and_sy.RingBuffer.{masked, slot_of}

pub pow-pos : (k : ℕ) → 0 < 2 ^ k
pow-pos zero = omega arith
pow-pos (suc k) = omega (arith, pow-pos k, pow-suc 2 k)

mod_twice : (a p : ℕ) → 0 < p → a % (p * 2) ≡ (a / 2 % p) * 2 + a % 2
mod_twice a p h =
    ap (λ x. x % (p * 2)) split
    ∙ add-mul-mod_self_left (a / 2 % p * 2 + a % 2) (p * 2) (a / 2 / p)
    ∙ mod-eq_of_lt below
  where
    below : a / 2 % p * 2 + a % 2 < p * 2
    below = omega (arith, mod-lt (a / 2) h)

    split : a ≡ a / 2 % p * 2 + a % 2 + p * 2 * (a / 2 / p)
    split = omega (arith, div-add-mod (a / 2) p)

-- Masking digit by digit, for any count of digits that covers the number.
and_ones : (n k a : ℕ) → a ≤ n → digits (λ b. zero) min n a (2 ^ k - 1) ≡ a % 2 ^ k
and_ones zero k zero h = omega arith
and_ones (suc n) k zero h = omega arith
and_ones zero k (suc a) h = absurd (omega arith)
and_ones (suc n) zero (suc a) h = omega (arith, and_ones n zero (suc a / 2) (omega arith))
and_ones (suc n) (suc k) (suc a) h =
    rw
      (
        halved,
        and_ones n k (suc a / 2) (omega arith),
        pow-suc,
        mod_twice (suc a) (2 ^ k) (pow-pos k),
      )
      (omega (arith, pow-pos k))
  where
    halved : (2 ^ suc k - 1) / 2 ≡ 2 ^ k - 1
    halved = omega (arith, pow-suc 2 k, pow-pos k)

-- With N = 2 ^ k the slot that `pop` and `drop` compute is the one that `push`, `try_push` and
-- `try_pop` compute, for every index.
pub masked-eq-slot_of : (k idx : ℕ) → masked (2 ^ k) idx ≡ slot_of (2 ^ k) idx
masked-eq-slot_of k idx = bit_and-bitwise idx (2 ^ k - 1) ∙ and_ones idx k idx (omega arith)
