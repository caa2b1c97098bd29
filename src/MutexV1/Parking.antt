-- ===== src/MutexV1/Parking.antt =====
-- src/mutex_v1.rs: `enqueue_thread` does not look at the word again before it parks.
use atomics_for_peace_and_sy.Base.{ℕ, ◌≡◌, false, List, [], ◌∷◌, arith}
use atomics_for_peace_and_sy.Threads.{alone}
use atomics_for_peace_and_sy.MutexV1.{
  Mutex, Outcome, no_call, outside, enqueue_load, park, Choice, unlock, proceed, client, step,
  step_at,
}

-- the steps of an unlock with an empty queue, and those of `enqueue_thread` up to `park`
abbrev pub unlock_steps : {T : Type 0} → List (Choice T)
unlock_steps = unlock ∷ proceed ∷ proceed ∷ proceed ∷ proceed ∷ proceed ∷ proceed ∷ []

abbrev pub park_steps : {T : Type 0} → List (Choice T)
park_steps = proceed ∷ proceed ∷ proceed ∷ proceed ∷ proceed ∷ []

module _ {T : Type 0} (thread_id : ℕ → ℕ) where
  -- A thread `j` that has spun long enough goes to sleep without another look at the word. If the
  -- owner `i` unlocks just before, with nobody in the queue or accessing it and no token of `j`,
  -- its wake-up is lost: the mutex is then unlocked, `i` is out of the call, and `j` is parked
  -- without a token, with itself alone in the queue.
  pub parked_beside_free_mutex :
      (m : Mutex T) (i j : ℕ) (last : Outcome)
      → m.queue_is_accessed ≡ false
      → m.queue ≡ []
      → m.tokens j ≡ false
      → let (m1, t1) =
          alone (step thread_id) i (m, record { guards = 1; at = outside last }) unlock_steps in
        let (m2, t2) =
          alone (step thread_id) j (m1, record { guards = 0; at = enqueue_load }) park_steps in
        (m2 ≡ record m { state = 0; queue = j ∷ [] })
        × (t1 ≡ record { guards = 0; at = outside no_call })
        × (t2 ≡ record { guards = 0; at = park })
        × ((step thread_id j proceed m2 t2) ≡ (m2, t2))
  unfolding alone step step_at client
  parked_beside_free_mutex m i j last free empty none = ground arith
