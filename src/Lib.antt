-- ===== src/Lib.antt =====
-- Classic synchronization primitives in Rust, each modelled as threads over one shared memory.
--
-- Every primitive is a record of its fields (the atomics as numbers) with a step function of one
-- thread: one step is one atomic access, or one access of a plain cell or of thread-local data. A
-- schedule is a list of events that say which thread moves and what its environment chooses (the
-- client's next call, or whether a weak exchange fails spuriously). The theorems hold for every
-- schedule and every number of threads, within the bounds that they state. Memory is taken to be
-- sequentially consistent: the orderings written in the code are not modelled.
--
-- The parts:
--   Base             names and tests on numbers that the other files share
--   Threads          threads that only spin: systems, schedules, sums over threads
--   Futex            the crate atomic-wait as a parameter with its documented behaviour, and threads
--                    that wait on atomics; Scanning is a concrete futex that meets the documentation,
--                    Possible says what threads can still do, Scripted has threads that make the
--                    calls of a script
--   ThreadLocal      the set ACQUIRED_BY_THREAD of src/mutex_v2.rs and src/rwlock.rs
--   Simulation       histories of a specification given as a step relation with labels, and the
--                    interface that an implementation of it fills; OverThreads and OverFutex fit it to
--                    the two kinds of systems
--   LockSpec         the abstract lock, free or taken by one thread. The files Refines of Spinlock,
--                    MutexV1 and MutexV2 show that the locks are it
--   RwLockSpec       the abstract read-write lock, shared or taken; RwLock/Refines shows that the lock
--                    of src/rwlock.rs is it
--   Spinlock         src/spinlock.rs: `lock` (check, spin, exchange), the guard and its `drop`. The
--                    crate thread-id is the parameter `thread_id`, with distinct numbers, none 0
--   LockErrors       src/utils/mutex_common.rs and `RwLockError`: equality and messages
--   MutexV1          src/mutex_v1.rs: `lock`, `try_lock`, the queue of parked threads, the guard's
--                    `drop`. A thread has the token of `std::thread::park` or not, and `park` may
--                    return without it. Queue is about the queue of parked threads
--   MutexV2          src/mutex_v2.rs: `lock`, `try_lock`, the guard's `drop`, poisoning. Arriving,
--                    Releasing and Progress schedule a thread that waits until it has the mutex
--   RwLock           src/rwlock.rs: `read`, `write`, `try_read`, `try_write`, both guards' `drop`,
--                    `WaitingWriterGuard`, poisoning
--   RingBuffer       src/utils/ring_buffer.rs: `push`, `pop`, `try_push`, `try_pop` and `drop`. Mask and
--                    Queue have one thread against a bounded queue, Calls sequences of calls, Indices
--                    any interleaving, Races what overlapping calls and odd sizes do; Returning and
--                    LockFree count the steps of a call
--   Semaphore        src/semaphore.rs: `wait`, `try_wait`, `try_wait_duration`, `signal`. The clock is
--                    a choice of the environment. Each thread keeps the number of permits that it
--                    took and gave, which the code has not. Arriving and Progress schedule a thread
--                    that waits until it has a permit, Workers has threads that wait and signal in
--                    turns, as the unit tests with several threads do
--   SemaphoreSpec    the abstract counting semaphore, with what its calls return; Semaphore/Refines,
--                    with the names of Labels, shows that the semaphore of src/semaphore.rs is it
--   Arc              src/arc.rs: `Arc` and `Weak` over one allocation. A thread has a number of
--                    handles and sends some to others; the model counts drops of the data and of the
--                    allocation, which the code has not. An abort stops every thread. A single handle
--                    that several threads borrow is not modelled
--   ArcSpec          the abstract shared pointer; Arc/Refines shows that `Arc` and `Weak` are it
--   Channel          src/channel.rs: `send`, `try_send`, `clone`, `recv`, `try_recv` and the drops of
--                    both handles, over the steps of RingBuffer. A handle is handed from thread to
--                    thread; a Sender that several threads borrow at once is not modelled. Inv, Moves
--                    and Handles count the handles, Ring lifts the invariant of the ring, Phases,
--                    Calls and Transfers run one call undisturbed, Promise, Served and Refine compare
--                    sequences of calls with a bounded queue, Asleep and Missed show sleepers that
--                    nobody wakes
--   Condvar          src/condvar.rs: `wait`, `notify_one`, `notify_all`, over the steps of MutexV1. A
--                    step of `wait` inside `unlock`, `lock` or the drop of a poisoned guard is a step
--                    of the mutex. Places and Locked lift the mutex's invariant, Inv, Moves,
--                    Wakeups and Notifying follow the counter of notifications, Notified says who is
--                    woken
--   Suite            scripts of calls. The files Suite of the components have the unit tests of the
--                    repository in which one thread at a time is in a call, and run them
--
-- Not modelled: the `Debug` texts, `Send` and `Sync`, the memory layout of src/utils/ring_buffer.rs,
-- and the accessors `get_mut` and `into_inner` of the locks, which need exclusive access and only hand
-- the data out.
pub mod Arc
pub mod ArcSpec
pub mod Base
pub mod Threads
pub mod Channel
pub mod Condvar
pub mod Futex
pub mod ThreadLocal
pub mod LockErrors
pub mod LockSpec
pub mod MutexV1
pub mod MutexV2
pub mod RingBuffer
pub mod RwLock
pub mod RwLockSpec
pub mod Semaphore
pub mod SemaphoreSpec
pub mod Simulation
pub mod Spinlock
pub mod Suite
