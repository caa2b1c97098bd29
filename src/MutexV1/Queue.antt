-- ===== src/MutexV1/Queue.antt =====
-- src/mutex_v1.rs: the queue of parked threads, in every interleaving.
use atomics_for_peace_and_sy.Base.{
  Bool-cases, ltb, sym, ◌⊎◌, ℕ, ◌+◌, ◌≤◌, ◌<◌, ◌≡◌, refl, inl, inr, true, false, Bool, ◌||◌, not,
  Option, none, some, List, [], ◌∷◌, ◌++◌, arith, ◌==◌, if◌then◌else◌,
}
use atomics_for_peace_and_sy.Threads.{
  System, update, sum_over, sum_over-update, le-sum_over, sum_over-eq-zero, sum_over_witness, exec,
  run-keeps, all_along, run-keeps_all_along,
}
use atomics_for_peace_and_sy.MutexV1.{
  Mutex, new, Pc, outside, enqueue_release, dequeue_pop, dequeue_release, unpark, park, Thread,
  Choice, Next, spurious, client, step, step_at, pop_queue,
}
use atomics_for_peace_and_sy.MutexV1.Exclusion.{execute, fresh_thread}

-- how often a thread is in the queue
abbrev pub times_in : ℕ → List ℕ → ℕ
times_in j [] = 0
times_in j (k ∷ queue) = (if j == k then 1 else 0) + times_in j queue

times_in-append :
    (j : ℕ) (q : List ℕ) (i : ℕ)
    → times_in j (q ++ (i ∷ [])) ≡ times_in j q + (if j == i then 1 else 0)
times_in-append j [] i = ground arith
times_in-append j (k ∷ q) i = ground (arith, times_in-append j q i)

abbrev popped_share : ℕ → Option ℕ → ℕ
popped_share j none = 0
popped_share j (some k) = if j == k then 1 else 0

module _ {T : Type 0} where
  -- The thread is about to unpark thread `j`.
  abbrev pub bringing : ℕ → Thread T → ℕ
  bringing j t = elim t.at [
    | dequeue_release popped ↦ popped_share j popped
    | unpark k ↦ if j == k then 1 else 0
    | _ ↦ 0
  ]

  -- The thread has put itself into the queue and has not gone on since.
  abbrev pub awaiting : Thread T → ℕ
  awaiting t = elim t.at [ enqueue_release ↦ 1 | park ↦ 1 | _ ↦ 0 ]

  awaiting-le_one : (t : Thread T) → awaiting t ≤ 1
  awaiting-le_one t = ground arith

  -- what may let thread `j` go on: its places in the queue, the calls of `unpark` under way, its token
  abbrev pub supply : ℕ → Mutex T → (ℕ → Thread T) → ℕ → ℕ
  supply n m pc j = times_in j m.queue + sum_over (bringing j) n pc + (if m.tokens j then 1 else 0)

  -- The step is not a `park` that returns without a token, as its documentation allows.
  abbrev pub stays_parked : System (Mutex T) (Thread T) → ℕ → Choice T → Bool
  stays_parked s i c = elim (s.pc i).at [ park ↦ s.mem.tokens i || not (spurious c) | _ ↦ true ]

  abbrev start : T → System (Mutex T) (Thread T)
  start d = record { mem = new d; pc = λ _. fresh_thread }

  module _ (thread_id : ℕ → ℕ) {n : ℕ} (m : Mutex T) (pc : ℕ → Thread T) (i : ℕ) (lt : i < n)
      (c : Choice T) where
    abbrev after : Pc T → Next T
    after p = step_at thread_id i c m (pc i) p

    -- A step of thread `i` takes as much from thread `j` as it lets it go on; exactly as much, if
    -- it does not leave `park` without a token.
    abbrev Supplied : Next T → ℕ → Type 0
    Supplied next j =
        (awaiting (update pc i next.1 j) ≤ supply n next.0 (update pc i next.1) j)
        × (stays_parked (record { mem = m; pc = pc }) i c ≡ true
            → awaiting (pc j) ≡ supply n m pc j
            → awaiting (update pc i next.1 j) ≡ supply n next.0 (update pc i next.1) j)

    move-supply :
        (p : Pc T)
        → (pc i).at ≡ p
        → (j : ℕ) → awaiting (pc j) ≤ supply n m pc j
        → Supplied (after p) j
    unfolding step_at client
    move-supply (outside last) e j h =
        ground (arith, sum_over-update (bringing j) n pc i (after (outside last)).1)
    move-supply dequeue_pop e j h = popped m.queue refl
      where
        popped : (q : List ℕ) → m.queue ≡ q → Supplied (pop_queue m (pc i) q) j
        popped [] f = ground (arith, sum_over-update (bringing j) n pc i (pop_queue m (pc i) []).1)
        popped (k ∷ q) f =
            ground (arith, sum_over-update (bringing j) n pc i (pop_queue m (pc i) (k ∷ q)).1)
    move-supply (dequeue_release none) e j h =
        ground (arith, sum_over-update (bringing j) n pc i (after (dequeue_release none)).1)
    move-supply (dequeue_release (some k)) e j h =
        ground (arith, sum_over-update (bringing j) n pc i (after (dequeue_release (some k))).1)
    move-supply (unpark k) e j h = ground (
      arith,
      awaiting-le_one (pc j),
      le-sum_over (bringing j) n pc i,
      sum_over-update (bringing j) n pc i (after (unpark k)).1,
    )
    move-supply p e j h =
        ground (arith, sum_over-update (bringing j) n pc i (after p).1, times_in-append j m.queue i)

  abbrev Supply : ℕ → System (Mutex T) (Thread T) → Type 0
  Supply n s = (j : ℕ) → j < n → awaiting (s.pc j) ≤ supply n s.mem s.pc j

  abbrev Exact : ℕ → System (Mutex T) (Thread T) → Type 0
  Exact n s = (j : ℕ) → j < n → awaiting (s.pc j) ≡ supply n s.mem s.pc j

  init-Exact : (n : ℕ) (d : T) → Exact n (start d)
  init-Exact n d j lt =
      omega (
        arith,
        sum_over-eq-zero {0} {A = Thread T} (bringing j) n (λ _. fresh_thread) (λ i lt. refl),
      )

  module _ (thread_id : ℕ → ℕ) (n : ℕ) where
    step-Supply :
        (s : System (Mutex T) (Thread T)) (i : ℕ) (c : Choice T)
        → i < n
        → Supply n s
        → Supply n (exec (step thread_id) n s i c)
    unfolding step
    step-Supply s i c lt h j lj =
        (move-supply thread_id s.mem s.pc i lt c (s.pc i).at refl j (h j lj)).0

    step-Exact :
        (s : System (Mutex T) (Thread T)) (i : ℕ) (c : Choice T)
        → i < n
        → stays_parked s i c ≡ true
        → Exact n s
        → Exact n (exec (step thread_id) n s i c)
    unfolding step
    step-Exact s i c lt real h j lj =
        (move-supply thread_id s.mem s.pc i lt c (s.pc i).at refl j (omega (arith, h j lj))).1 real
          (h j lj)

    module _ (d : T) (es : List (ℕ × Choice T)) where
      -- the state that the schedule reaches
      abbrev reached : System (Mutex T) (Thread T)
      reached = execute thread_id n d es

      execute-Supply : Supply n reached
      unfolding execute
      execute-Supply =
          run-keeps (step thread_id) n (Supply n) (λ s i c lt h j lj. step-Supply s i c lt h j lj) _
            es (λ j lt. omega (arith, init-Exact n d j lt))

      -- A parked thread is never forgotten: however the threads interleave, and even if `park` returns
      -- without a token, a thread that is at `park` without a token is in the queue, or some thread has
      -- taken it out and is about to unpark it.
      pub parked_listed :
          (j : ℕ)
          → j < n
          → (reached.pc j).at ≡ park
          → reached.mem.tokens j ≡ false
          → (0 < times_in j reached.mem.queue)
            ⊎ ((i : ℕ) × (i < n) × (0 < bringing j (reached.pc i)))
      parked_listed j lt e no_token = elim (Bool-cases (ltb 0 (times_in j reached.mem.queue))) [
        | inl queued ↦ inl (ground arith)
        | inr left ↦
            inr (sum_over_witness (bringing j) n reached.pc (ground (arith, execute-Supply j)))
      ]

      -- If no `park` returns without a token, the queue has exactly the threads that wait, in any
      -- interleaving: a thread that has put itself into the queue and has not gone on since is in the
      -- queue once, or one thread is about to unpark it, or it has its token, and only one of these; of
      -- any other thread there is no entry, no call of `unpark` and no token left over.
      pub queue_exact :
          all_along (step thread_id) n stays_parked (start d) es ≡ true
          → (j : ℕ) → j < n
          → times_in j reached.mem.queue
              + sum_over (bringing j) n reached.pc
              + (if reached.mem.tokens j then 1 else 0)
            ≡ awaiting (reached.pc j)
      unfolding execute
      queue_exact real j lj = sym (
          run-keeps_all_along (step thread_id) n stays_parked (Exact n)
            (λ s i c lt real h j lj. step-Exact s i c lt real h j lj) (start d) es real
            (init-Exact n d) j lj)
