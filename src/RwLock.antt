-- ===== src/RwLock.antt =====
-- src/rwlock.rs: the read-write lock, its two guards, the guard of waiting writers and the
-- thread-local set of acquired locks, one atomic access at a time.
pub mod Inv
pub mod Moves
pub mod Exclusion
pub mod Refines
pub mod Stuck
pub mod Wakeups
pub mod Poison
pub mod Calls
pub mod Suite
mod Tests
use atomics_for_peace_and_sy.Base.{
  ℕ, ◌+◌, ◌-◌, ◌%◌, ◌^◌, Bool, true, false, ◌&&◌, not, List, ltb, leb, ◌==◌, if◌then◌else◌,
}
use atomics_for_peace_and_sy.Futex.{AtomicWait, Wake, silent, one, all, Program}
use atomics_for_peace_and_sy.ThreadLocal.{contains, insert, remove}

-- `RwLock<T>`
pub record RwLock (T : Type 0) : Type 0 where
  pub rwlock_id : ℕ
  pub data_cell : T
  pub writers_number : ℕ  -- AtomicU32
  pub waiting_writers : ℕ  -- AtomicU32
  pub state : ℕ  -- AtomicU32
  pub poisoned : Bool

abbrev pub u32_max : ℕ
u32_max = 2 ^ 32 - 1

-- `fetch_add` and `fetch_sub` of an AtomicU32 wrap.
abbrev pub add_u32 : ℕ → ℕ → ℕ
add_u32 a b = (a + b) % 2 ^ 32

abbrev pub sub_u32 : ℕ → ℕ → ℕ
sub_u32 a b = (a + 2 ^ 32 - b) % 2 ^ 32

-- `RwLock::new`, with the next identifier of NEXT_ID
abbrev pub new : {T : Type 0} → ℕ → T → RwLock T
new next_id d = record {
  rwlock_id = next_id;
  data_cell = d;
  writers_number = 0;
  waiting_writers = 0;
  state = 0;
  poisoned = false;
}

-- What a call returned. A `Poisoned` error holds a guard.
pub data Outcome : Type 0 where
  no_call acquired_read acquired_write would_block too_many_readers : Outcome
  poisoned_read poisoned_write : Outcome

-- Where a thread stands, with its local variable `state` where the code may still use it.
pub data Pc (T : Type 0) : Type 0 where
  outside : Outcome → Pc T
  viewed : T → Pc T  -- has read the data through its guard
  read_check : Pc T
  read_load : Pc T
  read_wait : ℕ → Pc T  -- `wait` in the inner loop of `read`
  read_sleep : Pc T
  read_reload : Pc T
  read_exchange : ℕ → Pc T
  read_block : ℕ → Pc T  -- `wait` in the `else` of `read`
  read_block_sleep : ℕ → Pc T
  read_enter : Pc T
  write_check : Pc T
  write_load : Pc T
  write_claim : ℕ → Pc T  -- the exchange for u32::MAX
  write_mark : ℕ → Pc T  -- the exchange that sets the lowest bit
  write_announce : ℕ → Pc T  -- `WaitingWriterGuard::new`
  write_count : ℕ → Pc T  -- the load of `writers_number`
  write_wait : (state wc : ℕ) → Pc T
  write_sleep : ℕ → Pc T
  write_retire : ℕ → Pc T  -- `drop` of the `WaitingWriterGuard`
  write_enter : Pc T
  try_write_check : Pc T
  try_write_load : Pc T
  try_write_claim : ℕ → Pc T
  try_read_check : Pc T
  try_read_load : Pc T
  try_read_exchange : ℕ → Pc T
  read_leave : Pc T  -- `drop` of a read guard: `remove_acquired`
  read_release : Pc T  -- its `fetch_sub`
  read_wake : Pc T  -- its `wake_one`
  write_leave : (panicking : Bool) → Pc T  -- `drop` of a write guard, up to `remove_acquired`
  write_bump : Pc T  -- its `fetch_add`
  write_store : Pc T
  write_look : Pc T  -- its load of `waiting_writers`
  write_wake_one : Pc T
  write_wake_all : Pc T

-- A thread: its part of ACQUIRED_BY_THREAD, its guards of this lock, where it stands.
pub record Thread (T : Type 0) : Type 0 where
  pub acquired_ids : List ℕ
  pub reads : ℕ
  pub writes : ℕ
  pub at : Pc T

pub data Choice (T : Type 0) : Type 0 where
  call_read call_write call_try_read call_try_write : Choice T
  view : Choice T
  assign : T → Choice T
  unlock_read unlock_write panic clear_poison : Choice T
  proceed fail_spuriously : Choice T

-- the lock, the thread, and whom the step wakes
abbrev pub Next : Type 0 → Type 0
Next T = RwLock T × Thread T × Wake

module _ {T : Type 0} where
  abbrev pub weak_fails : Choice T → Bool
  weak_fails fail_spuriously = true
  weak_fails _ = false

  abbrev goto : RwLock T → Thread T → Pc T → Next T
  goto m t p = (m, record t { at = p }, silent)

  abbrev has_guard : Thread T → Bool
  has_guard t = ltb 0 (t.reads + t.writes)

  -- What a thread may do outside the calls. It uses and drops only guards that it has, and an
  -- unwinding thread drops the one that it has.
  client : Choice T → RwLock T → Thread T → Next T
  client call_read m t = goto m t read_check
  client call_write m t = goto m t write_check
  client call_try_read m t = goto m t try_read_check
  client call_try_write m t = goto m t try_write_check
  client view m t = if has_guard t then goto m t (viewed m.data_cell) else (m, t, silent)
  client (assign v) m t =
      if ltb 0 t.writes
      then goto (record m { data_cell = v }) t (outside no_call)
      else (m, t, silent)
  client unlock_read m t = if ltb 0 t.reads then goto m t read_leave else (m, t, silent)
  client unlock_write m t = if ltb 0 t.writes then goto m t (write_leave false) else (m, t, silent)
  client panic m t =
      if ltb 0 t.writes
      then goto m t (write_leave true)
      else if ltb 0 t.reads
      then goto m t read_leave
      else (m, t, silent)
  client clear_poison m t = goto (record m { poisoned = false }) t (outside no_call)
  client proceed m t = (m, t, silent)
  client fail_spuriously m t = (m, t, silent)

  abbrev pub acquired_check : RwLock T → Thread T → Bool
  acquired_check m t = contains t.acquired_ids m.rwlock_id

  -- The test of the inner loop of `read`, on the local `state`.
  abbrev pub read_inner : ℕ → Pc T
  read_inner state = if state % 2 == 1 then read_wait state else read_exchange state

  -- The head of the loop of `read`, on the local `state`.
  abbrev pub read_loop : ℕ → Pc T
  read_loop state =
      if state == u32_max
      then read_block state
      else if state == u32_max - 1
      then outside too_many_readers
      else read_inner state

  -- The head of the loop of `write`, on the local `state`.
  abbrev pub write_loop : ℕ → Pc T
  write_loop state =
      if leb state 1
      then write_claim state
      else if state % 2 == 0
      then write_mark state
      else write_announce state

  -- `compare_exchange(expected, new_state)`: where it leads, given the word if it fails
  abbrev exchange : Bool → ℕ → ℕ → RwLock T → Thread T → Pc T → (ℕ → Pc T) → Next T
  exchange fails expected new_state m t won lost =
      if m.state == expected && not fails
      then goto (record m { state = new_state }) t won
      else goto m t (lost m.state)

  -- `set_acquired`, and the new guard
  abbrev enter_read : RwLock T → Thread T → Thread T
  enter_read m t = record t {
    acquired_ids = insert t.acquired_ids m.rwlock_id;
    reads = t.reads + 1;
    at = outside (if m.poisoned then poisoned_read else acquired_read);
  }

  abbrev enter_write : RwLock T → Thread T → Thread T
  enter_write m t = record t {
    acquired_ids = insert t.acquired_ids m.rwlock_id;
    writes = t.writes + 1;
    at = outside (if m.poisoned then poisoned_write else acquired_write);
  }

  abbrev remove_acquired : RwLock T → Thread T → List ℕ
  remove_acquired m t = remove t.acquired_ids m.rwlock_id

  -- `WaitingWriterGuard::new`, and its `drop`
  abbrev announce : RwLock T → RwLock T
  announce m = record m { waiting_writers = add_u32 m.waiting_writers 1 }

  abbrev retire : RwLock T → RwLock T
  retire m = record m { waiting_writers = sub_u32 m.waiting_writers 1 }

  -- `drop` of a write guard, up to `remove_acquired`, and its store
  abbrev write_guard_leave : Bool → RwLock T → Thread T → Next T
  write_guard_leave panicking m t = (
    (if panicking then record m { poisoned = true } else m),
    record t { acquired_ids = remove_acquired m t; at = write_bump },
    silent,
  )

  abbrev write_guard_store : RwLock T → Thread T → Next T
  write_guard_store m t =
      (record m { state = 0 }, record t { writes = t.writes - 1; at = write_look }, silent)

  -- the `fetch_sub` of a read guard's `drop`, and what its result asks for
  abbrev read_guard_release : RwLock T → Thread T → Next T
  read_guard_release m t = (
    record m { state = sub_u32 m.state 2 },
    record t { reads = t.reads - 1; at = if m.state == 3 then read_wake else outside no_call },
    silent,
  )

  -- what a thread that returns from `wait` does next
  abbrev pub after_wait : Pc T → Pc T
  after_wait read_sleep = read_reload
  after_wait (read_block_sleep state) = read_loop state
  after_wait (write_sleep state) = write_retire state
  after_wait p = p

  module _ (futex : AtomicWait) where
    step_at : Choice T → RwLock T → Thread T → Pc T → Next T
    unfolding client
    step_at c m t (outside last) = client c m t
    step_at c m t (viewed v) = client c m t
    step_at c m t read_check =
        goto m t (if acquired_check m t then outside would_block else read_load)
    step_at c m t read_load = goto m t (read_loop m.state)
    step_at c m t (read_wait state) =
        goto m t (if futex.blocks m.state state then read_sleep else read_reload)
    step_at c m t read_sleep = goto m t (after_wait read_sleep)
    step_at c m t read_reload = goto m t (read_inner m.state)
    step_at c m t (read_exchange state) =
        exchange (weak_fails c) state (add_u32 state 2) m t read_enter read_loop
    step_at c m t (read_block state) =
        goto m t (if futex.blocks m.state u32_max then read_block_sleep state else read_loop state)
    step_at c m t (read_block_sleep state) = goto m t (after_wait (read_block_sleep state))
    step_at c m t read_enter = (m, enter_read m t, silent)
    step_at c m t write_check =
        goto m t (if acquired_check m t then outside would_block else write_load)
    step_at c m t write_load = goto m t (write_loop m.state)
    step_at c m t (write_claim state) = exchange false state u32_max m t write_enter write_loop
    step_at c m t (write_mark state) =
        exchange false state (add_u32 state 1) m t (write_announce state) write_loop
    step_at c m t (write_announce state) = goto (announce m) t (write_count state)
    step_at c m t (write_count state) = goto m t (write_wait state m.writers_number)
    step_at c m t (write_wait state wc) =
        goto m t
          (if futex.blocks m.writers_number wc then write_sleep state else write_retire state)
    step_at c m t (write_sleep state) = goto m t (after_wait (write_sleep state))
    step_at c m t (write_retire state) = goto (retire m) t (write_loop state)
    step_at c m t write_enter = (m, enter_write m t, silent)
    step_at c m t try_write_check =
        goto m t (if acquired_check m t then outside would_block else try_write_load)
    step_at c m t try_write_load =
        goto m t (if leb m.state 1 then try_write_claim m.state else outside would_block)
    step_at c m t (try_write_claim state) =
        exchange false state u32_max m t write_enter (λ _. outside would_block)
    step_at c m t try_read_check =
        goto m t (if acquired_check m t then outside would_block else try_read_load)
    step_at c m t try_read_load = goto m t (
        if m.state == u32_max - 1
        then outside too_many_readers
        else if m.state % 2 == 1
        then outside would_block
        else try_read_exchange m.state)
    step_at c m t (try_read_exchange state) =
        exchange false state (add_u32 state 2) m t read_enter (λ _. outside would_block)
    step_at c m t read_leave =
        (m, record t { acquired_ids = remove_acquired m t; at = read_release }, silent)
    step_at c m t read_release = read_guard_release m t
    step_at c m t read_wake = (m, record t { at = outside no_call }, one 1)
    step_at c m t (write_leave panicking) = write_guard_leave panicking m t
    step_at c m t write_bump =
        goto (record m { writers_number = add_u32 m.writers_number 1 }) t write_store
    step_at c m t write_store = write_guard_store m t
    step_at c m t write_look =
        goto m t (if m.waiting_writers == 0 then write_wake_all else write_wake_one)
    step_at c m t write_wake_one = (m, record t { at = outside no_call }, one 1)
    step_at c m t write_wake_all = (m, record t { at = outside no_call }, all 0)

    pub step : ℕ → Choice T → RwLock T → Thread T → Next T
    unfolding step_at
    step i c m t = step_at c m t t.at

  -- Threads wait on `state`, atomic 0 here, and on `writers_number`, atomic 1.
  abbrev pub asleep : ℕ → Thread T → Bool
  asleep a t = elim t.at [
    | read_sleep ↦ a == 0
    | read_block_sleep _ ↦ a == 0
    | write_sleep _ ↦ a == 1
    | _ ↦ false
  ]

  abbrev pub woken : Thread T → Thread T
  woken t = record t { at = after_wait t.at }

  abbrev pub program : AtomicWait → Program (RwLock T) (Thread T) (Choice T)
  program futex = record { step = step futex; asleep = asleep; woken = woken }
