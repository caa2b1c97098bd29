-- ===== src/LockErrors.antt =====
-- src/utils/mutex_common.rs and the error type of src/rwlock.rs: the errors of the locks, their
-- equality and their messages.
mod Tests
use Prim.Native.String.{String}
use text.Mathlib.Text.{◌==◌ as str_eq}
use text.Mathlib.TextEquality.{eq_iff}
use atomics_for_peace_and_sy.Base.{ℕ, ◌≡◌, refl, ◌↔◌, ◌≢◌, Bool, true, false, arith}

-- `PoisonedLock<Guard>`
pub record PoisonedLock (Guard : Type 0) : Type 0 where
  pub guard : Guard

-- `LockError<Guard>`
pub data LockError (Guard : Type 0) : Type 0 where
  would_block : LockError Guard
  poisoned : PoisonedLock Guard → LockError Guard

-- `RwLockError<Guard>`
pub data RwLockError (Guard : Type 0) : Type 0 where
  would_block : RwLockError Guard
  too_many_readers : RwLockError Guard
  poisoned : PoisonedLock Guard → RwLockError Guard

texts_differ : (s t : String) → str_eq s t ≡ false → s ≢ t
texts_differ s t h = λ e. cc (h, (eq_iff s t).1 e)

module _ {G : Type 0} where
  is_would_block : LockError G → Bool
  is_would_block LockError.would_block = true
  is_would_block other = false

  -- `PartialEq for LockError`: in the `Poisoned` case the code tests for `WouldBlock`.
  pub lock_error_eq : LockError G → LockError G → Bool
  unfolding is_would_block
  lock_error_eq LockError.would_block other = is_would_block other
  lock_error_eq (LockError.poisoned _) LockError.would_block = false
  lock_error_eq (LockError.poisoned _) other = true

  -- `PartialEq for RwLockError`
  pub rwlock_error_eq : RwLockError G → RwLockError G → Bool
  rwlock_error_eq RwLockError.would_block RwLockError.would_block = true
  rwlock_error_eq RwLockError.would_block other = false
  rwlock_error_eq RwLockError.too_many_readers RwLockError.too_many_readers = true
  rwlock_error_eq RwLockError.too_many_readers other = false
  rwlock_error_eq (RwLockError.poisoned _) (RwLockError.poisoned _) = true
  rwlock_error_eq (RwLockError.poisoned _) other = false

  -- `Display for LockError` and for `RwLockError`
  pub lock_error_message : LockError G → String
  lock_error_message LockError.would_block = "Error: Can cause blocking"
  lock_error_message (LockError.poisoned _) = "Error: Lock is poisoned"

  pub rwlock_error_message : RwLockError G → String
  rwlock_error_message RwLockError.would_block = "Error: Can cause blocking"
  rwlock_error_message RwLockError.too_many_readers = "Error: RwLock has too many readers"
  rwlock_error_message (RwLockError.poisoned _) = "Error: RwLock is poisoned"

  -- Two errors of a mutex are equal for the program exactly if they have the same message: the
  -- guard inside does not count.
  pub lock_error_eq-message :
      (a b : LockError G)
      → (lock_error_eq a b ≡ true) ↔ (lock_error_message a ≡ lock_error_message b)
  unfolding lock_error_eq lock_error_message
  lock_error_eq-message LockError.would_block LockError.would_block = (λ e. refl, λ e. refl)
  lock_error_eq-message (LockError.poisoned _) (LockError.poisoned _) = (λ e. refl, λ e. refl)
  lock_error_eq-message a b =
      (λ e. cc, λ e. absurd (texts_differ (lock_error_message a) (lock_error_message b) refl e))

  -- Likewise for the errors of the read-write lock.
  pub rwlock_error_eq-message :
      (a b : RwLockError G)
      → (rwlock_error_eq a b ≡ true) ↔ (rwlock_error_message a ≡ rwlock_error_message b)
  unfolding rwlock_error_eq rwlock_error_message
  rwlock_error_eq-message RwLockError.would_block RwLockError.would_block = (λ e. refl, λ e. refl)
  rwlock_error_eq-message RwLockError.too_many_readers RwLockError.too_many_readers =
      (λ e. refl, λ e. refl)
  rwlock_error_eq-message (RwLockError.poisoned _) (RwLockError.poisoned _) = (λ e. refl, λ e. refl)
  rwlock_error_eq-message a b =
      (λ e. cc, λ e. absurd (texts_differ (rwlock_error_message a) (rwlock_error_message b) refl e))
