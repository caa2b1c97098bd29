-- ===== src/SemaphoreSpec.antt =====
-- What src/semaphore.rs promises, as an abstract counting semaphore: a number of permits, and what
-- the call of each thread has done with them.
use atomics_for_peace_and_sy.Base.{
  ℕ, ◌+◌, ◌<◌, ◌≡◌, refl, Bool, true, false, List, [], ◌∷◌, arith, ◌==◌, if◌then◌else◌, subst, sym,
}
use atomics_for_peace_and_sy.Simulation.{Trace, done, follow}

-- What the call that a thread is in has done so far.
pub data Progress : Type 0 where
  nothing : Progress
  took : Progress  -- it has taken a permit
  gave : Progress  -- it has added a permit

pub record Permits : Type 0 where
  pub count : ℕ
  pub progress : ℕ → Progress

-- What a step of a thread does with the permits.
pub data Action : Type 0 where
  internal : Action
  takes : Action  -- takes a permit
  finds_none : Action  -- sees that there is no permit
  gives : Action  -- adds a permit

-- What the call returns with the step, if it returns.
pub data Reply : Type 0 where
  no_reply : Reply
  waited : Reply  -- of `wait`
  signalled : Reply  -- of `signal`
  answered : Bool → Reply  -- of `try_wait` and `try_wait_duration`

abbrev pub Label : Type 0
Label = Action × Reply

-- The step leaves thread `i` with the progress `p`, and the other threads with theirs.
abbrev pub Becomes : ℕ → Progress → Permits → Permits → Type 0
Becomes i p s t = (j : ℕ) → t.progress j ≡ (if i == j then p else s.progress j)

-- There are fewer than `limit` permits: one more than `limit - 1` makes 0. `wait` returns only after
-- it has taken a permit, `signal` only after it has added one; `try_wait` answers `true` with the
-- step that takes a permit, and `false` only in a call that took none.
pub data Move (limit : ℕ) (i : ℕ) : Label → Permits → Permits → Type 0 where
  rest :
      {s t : Permits}
      → t.count ≡ s.count
      → Becomes i (s.progress i) s t
      → Move limit i (internal, no_reply) s t
  find_none :
      {s t : Permits}
      → s.count ≡ 0
      → t.count ≡ 0
      → Becomes i (s.progress i) s t
      → Move limit i (finds_none, no_reply) s t
  take :
      {s t : Permits}
      → s.count ≡ t.count + 1
      → s.progress i ≡ nothing
      → Becomes i took s t
      → Move limit i (takes, no_reply) s t
  wait :
      {s t : Permits}
      → t.count ≡ s.count
      → s.progress i ≡ took
      → Becomes i nothing s t
      → Move limit i (internal, waited) s t
  accept :
      {s t : Permits}
      → s.count ≡ t.count + 1
      → s.progress i ≡ nothing
      → Becomes i nothing s t
      → Move limit i (takes, answered true) s t
  refuse :
      {s t : Permits}
      → t.count ≡ s.count
      → s.progress i ≡ nothing
      → Becomes i nothing s t
      → Move limit i (internal, answered false) s t
  refuse_none :
      {s t : Permits}
      → s.count ≡ 0
      → t.count ≡ 0
      → s.progress i ≡ nothing
      → Becomes i nothing s t
      → Move limit i (finds_none, answered false) s t
  give :
      {s t : Permits}
      → t.count ≡ (if s.count + 1 == limit then 0 else s.count + 1)
      → s.progress i ≡ nothing
      → Becomes i gave s t
      → Move limit i (gives, no_reply) s t
  signal :
      {s t : Permits}
      → t.count ≡ s.count
      → s.progress i ≡ gave
      → Becomes i nothing s t
      → Move limit i (internal, signalled) s t

-- A move with another name for what it does.
pub relabel :
    {limit i : ℕ} {l l' : Label} {s t : Permits} → l ≡ l' → Move limit i l' s t → Move limit i l s t
relabel {limit} {i} {l} {l'} {s} {t} e h = subst (λ x. Move limit i x s t) (sym e) h

abbrev pub cost : Label → ℕ
cost (takes, reply) = 1
cost _ = 0

abbrev pub gain : Label → ℕ
gain (gives, reply) = 1
gain _ = 0

-- how many permits a history takes and gives
abbrev pub taken : List (ℕ × Label) → ℕ
taken [] = 0
taken ((i, l) ∷ ls) = cost l + taken ls

abbrev pub given : List (ℕ × Label) → ℕ
given [] = 0
given ((i, l) ∷ ls) = gain l + given ls

move-balance :
    {limit i : ℕ} {l : Label} {s t : Permits}
    → Move limit i l s t
    → s.count + gain l < limit
    → t.count + cost l ≡ s.count + gain l
move-balance (rest e b) small = ground arith
move-balance (find_none e f b) small = ground arith
move-balance (take e p b) small = ground arith
move-balance (wait e p b) small = ground arith
move-balance (accept e p b) small = ground arith
move-balance (refuse e p b) small = ground arith
move-balance (refuse_none e f p b) small = ground arith
move-balance (give e p b) small = ground arith
move-balance (signal e p b) small = ground arith

-- As long as the permits fit, they are those at first and those given, less those taken.
pub Trace-balance :
    {limit : ℕ} {ls : List (ℕ × Label)} {s t : Permits}
    → Trace (Move limit) ls s t
    → s.count + given ls < limit
    → t.count + taken ls ≡ s.count + given ls
Trace-balance done small = refl
Trace-balance (follow m h) small = ground (arith, move-balance m, Trace-balance h)
