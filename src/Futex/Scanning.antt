-- ===== src/Futex/Scanning.antt =====
-- A concrete futex, as the crate atomic-wait documents one.
use atomics_for_peace_and_sy.Base.{
  ℕ, zero, suc, ◌<◌, ◌≡◌, Bool, true, false, Option, none, some, arith, ◌==◌, if◌then◌else◌, ==_iff,
}
use atomics_for_peace_and_sy.Futex.{AtomicWait}

-- A wait queue that is scanned from the highest thread down: a futex that meets the documentation.
abbrev pub first_asleep : ℕ → (ℕ → Bool) → Option ℕ
first_asleep zero asleep = none
first_asleep (suc n) asleep = if asleep n then some n else first_asleep n asleep

pub first_asleep-some :
    (n : ℕ) (asleep : ℕ → Bool) (j : ℕ)
    → first_asleep n asleep ≡ some j
    → (j < n) × (asleep j ≡ true)
first_asleep-some zero asleep j e = cc
first_asleep-some (suc n) asleep j e = ground (arith, first_asleep-some n asleep j)

pub first_asleep-none :
    (n : ℕ) (asleep : ℕ → Bool) (j : ℕ) → first_asleep n asleep ≡ none → j < n → asleep j ≡ false
first_asleep-none zero asleep j e h = absurd (omega arith)
first_asleep-none (suc n) asleep j e h = ground (arith, first_asleep-none n asleep j)

abbrev pub scanning : AtomicWait
scanning = record {
  blocks = λ value expected. value == expected;
  blocks_iff = λ value expected. ==_iff value expected;
  pick = λ n asleep k. first_asleep n asleep;
  pick_asleep = λ n asleep k {j} e. first_asleep-some n asleep j e;
  pick_none = λ n asleep k e j h. first_asleep-none n asleep j e h;
}
