-- ===== src/ThreadLocal.antt =====
-- The thread-local set ACQUIRED_BY_THREAD of src/mutex_v2.rs and src/rwlock.rs (a HashSet<u64>), as
-- the list of the identifiers in it.
use atomics_for_peace_and_sy.Base.{
  ℕ, ◌≡◌, refl, ◌≢◌, Bool, true, false, List, [], ◌∷◌, ◌||◌, arith, ◌==◌, if◌then◌else◌,
}

unfoldable pub contains : List ℕ → ℕ → Bool
contains [] id = false
contains (x ∷ xs) id = x == id || contains xs id

unfoldable pub insert : List ℕ → ℕ → List ℕ
insert xs id = if contains xs id then xs else id ∷ xs

unfoldable pub remove : List ℕ → ℕ → List ℕ
remove [] id = []
remove (x ∷ xs) id = if x == id then remove xs id else x ∷ remove xs id

pub contains-insert : (xs : List ℕ) (id : ℕ) → contains (insert xs id) id ≡ true
unfolding insert contains
contains-insert xs id = ground arith

pub contains-insert_ne :
    (xs : List ℕ) (id other : ℕ) → other ≢ id → contains (insert xs id) other ≡ contains xs other
unfolding insert contains
contains-insert_ne xs id other ne = ground arith

pub contains-remove : (xs : List ℕ) (id : ℕ) → contains (remove xs id) id ≡ false
unfolding remove contains
contains-remove [] id = refl
contains-remove (x ∷ xs) id = ground (arith, contains-remove xs id)

pub contains-remove_ne :
    (xs : List ℕ) (id other : ℕ) → other ≢ id → contains (remove xs id) other ≡ contains xs other
unfolding remove contains
contains-remove_ne [] id other ne = refl
contains-remove_ne (x ∷ xs) id other ne = ground (arith, contains-remove_ne xs id other)

pub contains-nil : (id : ℕ) → contains [] id ≡ false
unfolding contains
contains-nil id = refl

remove_absent : (xs : List ℕ) (id : ℕ) → contains xs id ≡ false → remove xs id ≡ xs
unfolding contains remove
remove_absent [] id h = refl
remove_absent (x ∷ xs) id h = ground (arith, remove_absent xs id)

-- Taking a lock and giving it back leaves the set as it was.
pub remove-insert : (xs : List ℕ) (id : ℕ) → contains xs id ≡ false → remove (insert xs id) id ≡ xs
unfolding insert remove
remove-insert xs id h = ground (arith, remove_absent xs id h)
