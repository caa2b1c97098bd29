-- ===== src/RwLock/Calls.antt =====
-- src/rwlock.rs: calls that a thread makes undisturbed, calls that never wait, re-entry, overflow.
use atomics_for_peace_and_sy.Base.{
  ℕ, ◌+◌, ◌%◌, ◌≤◌, ◌<◌, ◌≡◌, ◌⊎◌, Bool, true, false, List, [], ◌∷◌, arith, ltb, if◌then◌else◌,
}
use atomics_for_peace_and_sy.Threads.{System}
use atomics_for_peace_and_sy.ThreadLocal.{contains, insert, contains-insert, remove-insert}
use atomics_for_peace_and_sy.Futex.{AtomicWait, alone}
use atomics_for_peace_and_sy.RwLock.{
  RwLock, new, Outcome, no_call, acquired_read, acquired_write, would_block, too_many_readers,
  poisoned_read, poisoned_write, Pc, outside, read_check, read_load, write_check, write_load,
  try_read_check, try_read_load, try_write_check, try_write_load, Thread, Choice, call_read,
  call_try_read, call_write, call_try_write, unlock_read, unlock_write, proceed, add_u32, step,
  step_at, client, program, u32_max,
}
use atomics_for_peace_and_sy.RwLock.Inv.{max_threads}
use atomics_for_peace_and_sy.RwLock.Exclusion.{execute, execute-Inv}

-- a thread without a guard, between calls
abbrev pub free_thread : {T : Type 0} → List ℕ → Outcome → Thread T
free_thread ids last = record { acquired_ids = ids; reads = 0; writes = 0; at = outside last }

-- a call with the steps that it takes if nothing disturbs it
abbrev pub lock_steps : {T : Type 0} → Choice T → List (Choice T)
lock_steps call = call ∷ proceed ∷ proceed ∷ proceed ∷ proceed ∷ []

-- the lock and the thread once it has its guard
abbrev pub read_locked : {T : Type 0} → RwLock T → RwLock T
read_locked m = record m { state = m.state + 2 }

abbrev pub reader : {T : Type 0} → RwLock T → List ℕ → Thread T
reader m ids = record {
  acquired_ids = insert ids m.rwlock_id;
  reads = 1;
  writes = 0;
  at = outside (if m.poisoned then poisoned_read else acquired_read);
}

abbrev pub write_locked : {T : Type 0} → RwLock T → RwLock T
write_locked m = record m { state = u32_max }

abbrev pub writer : {T : Type 0} → RwLock T → List ℕ → Thread T
writer m ids = record {
  acquired_ids = insert ids m.rwlock_id;
  reads = 0;
  writes = 1;
  at = outside (if m.poisoned then poisoned_write else acquired_write);
}

abbrev pub write_unlocked : {T : Type 0} → RwLock T → RwLock T
write_unlocked m = record m { state = 0; writers_number = add_u32 m.writers_number 1 }

abbrev pub read_unlock_steps : {T : Type 0} → List (Choice T)
read_unlock_steps = unlock_read ∷ proceed ∷ proceed ∷ []

abbrev pub write_unlock_steps : {T : Type 0} → List (Choice T)
write_unlock_steps = unlock_write ∷ proceed ∷ proceed ∷ proceed ∷ proceed ∷ proceed ∷ []

module _ {T : Type 0} (futex : AtomicWait) (i : ℕ) (m : RwLock T) (ids : List ℕ) where
  read_lock_lem :
      (last : Outcome)
      → m.state % 2 ≡ 0
      → m.state + 2 < u32_max
      → contains ids m.rwlock_id ≡ false
      → alone (program futex) i (m, free_thread ids last) (lock_steps call_read)
        ≡ (read_locked m, reader m ids)
  unfolding alone step step_at client
  read_lock_lem last even room absent = ground arith

  try_read_lock_lem :
      (last : Outcome)
      → m.state % 2 ≡ 0
      → m.state + 2 < u32_max
      → contains ids m.rwlock_id ≡ false
      → alone (program futex) i (m, free_thread ids last) (lock_steps call_try_read)
        ≡ (read_locked m, reader m ids)
  unfolding alone step step_at client
  try_read_lock_lem last even room absent = ground arith

  read_unlock_lem :
      m.state % 2 ≡ 0
      → m.state + 2 < u32_max
      → contains ids m.rwlock_id ≡ false
      → alone (program futex) i (read_locked m, reader m ids) read_unlock_steps
        ≡ (m, free_thread ids no_call)
  unfolding alone step step_at client
  read_unlock_lem even room absent =
      ground (arith, contains-insert ids m.rwlock_id, remove-insert ids m.rwlock_id)

  write_lock_lem :
      (last : Outcome)
      → m.state ≤ 1
      → contains ids m.rwlock_id ≡ false
      → alone (program futex) i (m, free_thread ids last) (lock_steps call_write)
        ≡ (write_locked m, writer m ids)
  unfolding alone step step_at client
  write_lock_lem last free absent = ground arith

  try_write_lock_lem :
      (last : Outcome)
      → m.state ≤ 1
      → contains ids m.rwlock_id ≡ false
      → alone (program futex) i (m, free_thread ids last) (lock_steps call_try_write)
        ≡ (write_locked m, writer m ids)
  unfolding alone step step_at client
  try_write_lock_lem last free absent = ground arith

  write_unlock_lem :
      contains ids m.rwlock_id ≡ false
      → alone (program futex) i (write_locked m, writer m ids) write_unlock_steps
        ≡ (write_unlocked m, free_thread ids no_call)
  unfolding alone step step_at client
  write_unlock_lem absent =
      ground (arith, contains-insert ids m.rwlock_id, remove-insert ids m.rwlock_id)

  -- A thread without the lock that calls `read` or `try_read` while the word is even and has room
  -- for a reader, and is not disturbed, gets a read guard, with `Poisoned` exactly if the lock is
  -- poisoned; the word grows by 2, and dropping the guard leaves lock and set as they were.
  pub read-unlock :
      (last : Outcome) (try : Bool)
      → m.state % 2 ≡ 0
      → m.state + 2 < u32_max
      → contains ids m.rwlock_id ≡ false
      → (alone
            (program futex)
            i
            (m, free_thread ids last)
            (lock_steps (if try then call_try_read else call_read))
          ≡ (read_locked m, reader m ids))
        × (alone (program futex) i (read_locked m, reader m ids) read_unlock_steps
            ≡ (m, free_thread ids no_call))
  read-unlock last true even room absent =
      (try_read_lock_lem last even room absent, read_unlock_lem even room absent)
  read-unlock last false even room absent =
      (read_lock_lem last even room absent, read_unlock_lem even room absent)

  -- A thread without the lock that calls `write` or `try_write` while there is no reader and no
  -- writer (a waiting writer's mark does not stop it), and is not disturbed, gets a write guard,
  -- with `Poisoned` exactly if the lock is poisoned. Dropping the guard clears the word and the
  -- mark, counts the writer, and leaves the thread's set as it was.
  pub write-unlock :
      (last : Outcome) (try : Bool)
      → m.state ≤ 1
      → contains ids m.rwlock_id ≡ false
      → (alone
            (program futex)
            i
            (m, free_thread ids last)
            (lock_steps (if try then call_try_write else call_write))
          ≡ (write_locked m, writer m ids))
        × (alone (program futex) i (write_locked m, writer m ids) write_unlock_steps
            ≡ (write_unlocked m, free_thread ids no_call))
  write-unlock last true free absent =
      (try_write_lock_lem last free absent, write_unlock_lem absent)
  write-unlock last false free absent = (write_lock_lem last free absent, write_unlock_lem absent)

-- where a call of `try_read` or `try_write` begins
abbrev pub try_check : {T : Type 0} → Bool → Pc T
try_check write = if write then try_write_check else try_read_check

module _ {T : Type 0} (futex : AtomicWait) where
  -- `try_read` and `try_write` never wait: whatever the other threads do to the lock in between,
  -- the call has returned after four steps of its thread; with an error that holds no guard, or
  -- with one more guard of the kind asked for.
  pub try_returns :
      (i : ℕ) (m1 m2 m3 m4 : RwLock T) (t : Thread T) (c1 c2 c3 c4 : Choice T) (write : Bool)
      → t.at ≡ try_check write
      → let t1 = (step futex i c1 m1 t).1 in
        let t2 = (step futex i c2 m2 t1).1 in
        let t3 = (step futex i c3 m3 t2).1 in
        let t4 = (step futex i c4 m4 t3).1 in
        (t1.at ≡ outside would_block)
        ⊎ (t2.at ≡ outside would_block)
        ⊎ (t2.at ≡ outside too_many_readers)
        ⊎ (t3.at ≡ outside would_block)
        ⊎ ((t4.reads ≡ (if write then t.reads else t.reads + 1))
            × (t4.writes ≡ (if write then t.writes + 1 else t.writes))
            × (t4.at
                ≡ outside (
                    if write
                    then (if m4.poisoned then poisoned_write else acquired_write)
                    else if m4.poisoned
                    then poisoned_read
                    else acquired_read)))
  unfolding step step_at
  try_returns i m1 m2 m3 m4 t c1 c2 c3 c4 true e = ground arith
  try_returns i m1 m2 m3 m4 t c1 c2 c3 c4 false e = ground arith

-- the first check of each of the four calls, and the load that follows it
pub data Start {T : Type 0} : Pc T → Pc T → Type 0 where
  of_read : Start read_check read_load
  of_write : Start write_check write_load
  of_try_read : Start try_read_check try_read_load
  of_try_write : Start try_write_check try_write_load

module _ {T : Type 0} (futex : AtomicWait) (n id : ℕ) (d : T) (es : List (ℕ × Choice T × ℕ))
    (few : n ≤ max_threads) where
  abbrev reached : System (RwLock T) (Thread T)
  reached = execute futex n (new id d) es

  -- Each of the four calls returns `WouldBlock` from its first check exactly in a thread that has a
  -- guard of the lock, of either kind, and keeps that guard; in any other thread it goes on.
  pub any_reentry_would_block :
      (i : ℕ) (c : Choice T) (p q : Pc T)
      → i < n
      → Start p q
      → (reached.pc i).at ≡ p
      → (step futex i c reached.mem (reached.pc i)).1 ≡ record (reached.pc i) {
        at =
            if ltb 0 ((reached.pc i).reads + (reached.pc i).writes) then outside would_block else q;
      }
  unfolding step step_at
  any_reentry_would_block i c p q lt of_read e =
      ground (arith, (execute-Inv futex n id d es few).each i)
  any_reentry_would_block i c p q lt of_write e =
      ground (arith, (execute-Inv futex n id d es few).each i)
  any_reentry_would_block i c p q lt of_try_read e =
      ground (arith, (execute-Inv futex n id d es few).each i)
  any_reentry_would_block i c p q lt of_try_write e =
      ground (arith, (execute-Inv futex n id d es few).each i)
