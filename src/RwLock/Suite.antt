-- ===== src/RwLock/Suite.antt =====
-- src/rwlock.rs: its unit tests, but for the one in which five threads read at the same time and the
-- one of `get_mut` and `into_inner`. The guards that a test still has at its end are not dropped here.
use atomics_for_peace_and_sy.Base.{ℕ, refl, not, List, [], ◌∷◌, replicate}
use atomics_for_peace_and_sy.ThreadLocal.{contains, insert, remove}
use atomics_for_peace_and_sy.Futex.{alone}
use atomics_for_peace_and_sy.Futex.Scanning.{scanning}
use atomics_for_peace_and_sy.Suite.{Act, call, check, Passes}
use atomics_for_peace_and_sy.RwLock.{
  RwLock, new, Pc, Thread, Choice, no_call, acquired_read, acquired_write, would_block,
  poisoned_read, outside, viewed, call_read, call_write, call_try_read, call_try_write, view,
  assign, unlock_read, unlock_write, panic, clear_poison, proceed, client, step, program,
}
use atomics_for_peace_and_sy.RwLock.Exclusion.{fresh_thread}

abbrev Script : Type 0
Script = List (Act (RwLock ℕ) (Choice ℕ) (Pc ℕ))

-- the end of a call that nobody disturbs
finish : ℕ → RwLock ℕ × Thread ℕ → Choice ℕ → RwLock ℕ × Thread ℕ
unfolding alone
finish i s c = alone (program scanning) i s (c ∷ replicate 8 proceed)

place : Thread ℕ → Pc ℕ
place t = t.at

-- The test passes on a new lock of `d`.
abbrev Succeeds : ℕ → Script → Type 0
Succeeds d script = Passes finish place (new 1 d) (λ i. fresh_thread) script

abbrev reads : ℕ → Act (RwLock ℕ) (Choice ℕ) (Pc ℕ)
reads i = call i call_read (outside acquired_read)

abbrev writes : ℕ → Act (RwLock ℕ) (Choice ℕ) (Pc ℕ)
writes i = call i call_write (outside acquired_write)

abbrev sees : ℕ → ℕ → Act (RwLock ℕ) (Choice ℕ) (Pc ℕ)
sees i v = call i view (viewed v)

abbrev assigns : ℕ → ℕ → Act (RwLock ℕ) (Choice ℕ) (Pc ℕ)
assigns i v = call i (assign v) (outside no_call)

abbrev test_basic_read : Script
test_basic_read = reads 0 ∷ sees 0 42 ∷ []

abbrev test_basic_write : Script
test_basic_write = writes 0 ∷ assigns 0 84 ∷ sees 0 84 ∷ []

abbrev test_write_blocks_reads : Script
test_write_blocks_reads = writes 0 ∷ call 1 call_try_read (outside would_block) ∷ []

abbrev test_write_blocks_writes : Script
test_write_blocks_writes = writes 0 ∷ call 1 call_try_write (outside would_block) ∷ []

abbrev test_read_to_write_upgrade_blocked : Script
test_read_to_write_upgrade_blocked = reads 0 ∷ call 0 call_try_write (outside would_block) ∷ []

-- Thread 1 panics while it has a write guard.
abbrev test_poisoning : Script
test_poisoning =
    writes 1
    ∷ assigns 1 42
    ∷ call 1 panic (outside no_call)
    ∷ call 0 call_try_read (outside poisoned_read)
    ∷ []

abbrev test_clear_poison : Script
test_clear_poison =
    writes 1
    ∷ assigns 1 42
    ∷ call 1 panic (outside no_call)
    ∷ check (λ m. m.poisoned)
    ∷ call 0 clear_poison (outside no_call)
    ∷ check (λ m. not m.poisoned)
    ∷ reads 0
    ∷ []

-- A guard is dropped at the end of its block, as `unlock` does.
abbrev test_explicit_unlock : Script
test_explicit_unlock =
    reads 0
    ∷ call 0 unlock_read (outside no_call)
    ∷ call 0 call_try_write (outside acquired_write)
    ∷ call 0 unlock_write (outside no_call)
    ∷ writes 0
    ∷ call 0 unlock_write (outside no_call)
    ∷ call 0 call_try_read (outside acquired_read)
    ∷ call 0 unlock_read (outside no_call)
    ∷ []

suite_passes :
    Succeeds 42 test_basic_read
    × Succeeds 42 test_basic_write
    × Succeeds 0 test_write_blocks_reads
    × Succeeds 0 test_write_blocks_writes
    × Succeeds 42 test_read_to_write_upgrade_blocked
    × Succeeds 0 test_poisoning
    × Succeeds 0 test_clear_poison
    × Succeeds 42 test_explicit_unlock
unfolding finish place step client contains insert remove
suite_passes = (refl, refl, refl, refl, refl, refl, refl, refl)
