-- ===== src/MutexV1.antt =====
-- src/mutex_v1.rs: the parking `Mutex` and its guard, one atomic access (or one access of a plain
-- cell or of the queue) at a time.
pub mod Exclusion
pub mod Parking
pub mod Queue
pub mod Locking
pub mod Refines
pub mod Suite
mod Tests
use atomics_for_peace_and_sy.Base.{
  ℕ, ◌+◌, ◌-◌, Bool, true, false, ◌&&◌, not, Option, none, some, List, [], ◌∷◌, ◌++◌, ltb, ◌==◌,
  if◌then◌else◌,
}
use atomics_for_peace_and_sy.Threads.{update}

-- `Mutex<T>`; the queue holds the numbers of its threads. `tokens` says which threads have the
-- token of `std::thread::park`.
pub record Mutex (T : Type 0) : Type 0 where
  pub data_cell : T
  pub queue_is_accessed : Bool
  pub state : ℕ  -- AtomicUsize: 0, or the owner's `thread_id::get()`
  pub queue : List ℕ
  pub poisoned : Bool
  pub tokens : ℕ → Bool

-- `Mutex::new`
abbrev pub new : {T : Type 0} → T → Mutex T
new d = record {
  data_cell = d;
  queue_is_accessed = false;
  state = 0;
  queue = [];
  poisoned = false;
  tokens = λ _. false;
}

pub data Outcome : Type 0 where
  no_call : Outcome
  acquired : Outcome
  would_block : Outcome
  poisoned_lock : Outcome

pub data Pc (T : Type 0) : Type 0 where
  outside : Outcome → Pc T
  viewed : T → Pc T  -- has read the data through its guard
  check : (try : Bool) → Pc T  -- the first load
  try_exchange : Pc T
  spin : (spin_counter : ℕ) → Pc T  -- the load in the loop
  exchange : (spin_counter : ℕ) → Pc T
  enqueue_load : Pc T  -- `enqueue_thread`
  enqueue_exchange : Pc T
  enqueue_push : Pc T
  enqueue_release : Pc T
  park : Pc T
  enter : Pc T  -- `is_poisoned`, and the new guard
  leave : (panicking : Bool) → Pc T  -- `drop` of the guard
  leave_store : Pc T
  dequeue_load : Pc T  -- `dequeue_thread`
  dequeue_exchange : Pc T
  dequeue_pop : Pc T
  dequeue_release : Option ℕ → Pc T
  unpark : ℕ → Pc T

-- A thread: how many guards of this mutex it has, and where it stands.
pub record Thread (T : Type 0) : Type 0 where
  pub guards : ℕ
  pub at : Pc T

-- `fail_spuriously` is a weak exchange that fails, or a `park` that returns without a token.
pub data Choice (T : Type 0) : Type 0 where
  call_lock : Choice T
  call_try_lock : Choice T
  read : Choice T
  write : T → Choice T
  unlock : Choice T
  panic : Choice T
  clear_poison : Choice T
  proceed : Choice T
  fail_spuriously : Choice T

abbrev pub Next : Type 0 → Type 0
Next T = Mutex T × Thread T

-- The thread is in a call of the mutex.
abbrev pub in_call : {T : Type 0} → Pc T → Bool
in_call (outside last) = false
in_call (viewed v) = false
in_call p = true

module _ {T : Type 0} where
  abbrev pub spurious : Choice T → Bool
  spurious fail_spuriously = true
  spurious _ = false

  abbrev goto : Mutex T → Thread T → Pc T → Next T
  goto m t p = (m, record t { at = p })

  -- What a thread may do outside the calls. It uses and drops only a guard that it has.
  unfoldable pub client : Choice T → Mutex T → Thread T → Next T
  client call_lock m t = goto m t (check false)
  client call_try_lock m t = goto m t (check true)
  client read m t = if ltb 0 t.guards then goto m t (viewed m.data_cell) else (m, t)
  client (write v) m t =
      if ltb 0 t.guards then goto (record m { data_cell = v }) t (outside no_call) else (m, t)
  client unlock m t = if ltb 0 t.guards then goto m t (leave false) else (m, t)
  client panic m t = if ltb 0 t.guards then goto m t (leave true) else (m, t)
  client clear_poison m t = goto (record m { poisoned = false }) t (outside no_call)
  client proceed m t = (m, t)
  client fail_spuriously m t = (m, t)

  -- the exchange of 0 for the thread's identifier
  abbrev claim : Bool → ℕ → Mutex T → Thread T → Pc T → Next T
  claim fails current_thread m t otherwise =
      if m.state == 0 && not fails
      then goto (record m { state = current_thread }) t enter
      else goto m t otherwise

  -- the exchange of `queue_is_accessed`
  abbrev access_queue : Bool → Mutex T → Thread T → (won lost : Pc T) → Next T
  access_queue fails m t won lost =
      if not m.queue_is_accessed && not fails
      then goto (record m { queue_is_accessed = true }) t won
      else goto m t lost

  -- `pop_front`, if the queue is not empty
  abbrev pop_queue : Mutex T → Thread T → List ℕ → Next T
  pop_queue m t [] = goto m t (dequeue_release none)
  pop_queue m t (j ∷ queue) = goto (record m { queue = queue }) t (dequeue_release (some j))

  abbrev after_release : Option ℕ → Pc T
  after_release none = outside no_call
  after_release (some j) = unpark j

  module _ (thread_id : ℕ → ℕ) where
    unfoldable pub step_at : ℕ → Choice T → Mutex T → Thread T → Pc T → Next T
    unfolding client
    step_at i c m t (outside last) = client c m t
    step_at i c m t (viewed v) = client c m t
    step_at i c m t (check try) = goto m t (
        if m.state == thread_id i
        then outside would_block
        else if try
        then try_exchange
        else spin 0)
    step_at i c m t try_exchange = claim false (thread_id i) m t (outside would_block)
    step_at i c m t (spin spin_counter) = goto m t (
        if not (ltb spin_counter 100)
        then enqueue_load
        else if m.state == 0
        then exchange spin_counter
        else spin (spin_counter + 1))
    step_at i c m t (exchange spin_counter) =
        claim (spurious c) (thread_id i) m t (spin spin_counter)
    step_at i c m t enqueue_load =
        goto m t (if m.queue_is_accessed then enqueue_load else enqueue_exchange)
    step_at i c m t enqueue_exchange = access_queue (spurious c) m t enqueue_push enqueue_load
    step_at i c m t enqueue_push = goto (record m { queue = m.queue ++ (i ∷ []) }) t enqueue_release
    step_at i c m t enqueue_release = goto (record m { queue_is_accessed = false }) t park
    step_at i c m t park =
        if m.tokens i
        then goto (record m { tokens = update m.tokens i false }) t (spin 0)
        else goto m t (if spurious c then spin 0 else park)
    step_at i c m t enter = (
      m,
      record {
        guards = t.guards + 1;
        at = outside (if m.poisoned then poisoned_lock else acquired);
      },
    )
    step_at i c m t (leave panicking) =
        goto (if panicking then record m { poisoned = true } else m) t leave_store
    step_at i c m t leave_store =
        (record m { state = 0 }, record { guards = t.guards - 1; at = dequeue_load })
    step_at i c m t dequeue_load =
        goto m t (if m.queue_is_accessed then dequeue_load else dequeue_exchange)
    step_at i c m t dequeue_exchange = access_queue (spurious c) m t dequeue_pop dequeue_load
    step_at i c m t dequeue_pop = pop_queue m t m.queue
    step_at i c m t (dequeue_release popped) =
        goto (record m { queue_is_accessed = false }) t (after_release popped)
    step_at i c m t (unpark j) =
        goto (record m { tokens = update m.tokens j true }) t (outside no_call)

    unfoldable pub step : ℕ → Choice T → Mutex T → Thread T → Next T
    unfolding step_at
    step i c m t = step_at i c m t t.at
