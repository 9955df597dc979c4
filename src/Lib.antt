-- ===== src/Lib.antt =====
-- async-lock: locks for asynchronous code, as they are shared by any number of tasks.
--
-- The repository has five synchronization primitives. `Semaphore` (src/semaphore.rs) is a counter
-- with an event. `Mutex` (src/mutex.rs) is a word with an event; its least bit says that it is
-- locked and the rest counts starved operations, which lock by a fairer loop. `RwLock`
-- (src/rwlock.rs) keeps a value beside a raw lock (src/rwlock/raw.rs), which has a word, a mutex
-- for the one writer or upgradable reader, and two events. `OnceCell` (src/once_cell.rs) has a
-- state word, the memory of its value and two events. `Barrier` (src/barrier.rs) keeps its count
-- under a mutex.
--
-- Files:
--   Base                the names, Boolean tests and machine arithmetic that all files use
--   Event               event_listener's `Event` and `EventListener` as a record of operations, and
--                       the laws that some theorems rest on
--   Tasks, Tasks/Lists  tasks that share a state, schedules, and counts over a list of tasks
--   Arc                 owned calls of the three locks: an `Arc` that is cloned and dropped between
--                       the accesses of a borrowed call; its count in Arc/Count, and in Arc/Replay
--                       what its schedules are for a borrowed call
--   Semaphore           `Semaphore::{new, try_acquire, acquire, add_permits, available_permits}`,
--                       `AcquireInner`, `SemaphoreGuard`; theorems in
--                       Semaphore/Permits, Attempts, Release and Releases; `acquire_arc` and
--                       `SemaphoreGuardArc` in Semaphore/Owned, with the theorems in
--                       Owned/Exact
--   Listeners, Listeners/Runs  tasks that each store one listener of an event at most, and how a
--                       notification reaches it
--   Mutex, Mutex/Acquire  `Mutex::{new, try_lock, lock, unlock_unchecked}`, `LockInner`,
--                       `AcquireSlow`, `MutexGuard`; lemmas on the word in Mutex/Word, theorems in
--                       Mutex/Exclusion, Protection, Release and Wakeup, the last from the counts
--                       of listeners in Mutex/Awake; `lock_arc` and `MutexGuardArc` in Mutex/Owned
--   RwLock/Raw          `RawRwLock` and its futures: data in Raw/Defs, readers in Raw/Reading, writers
--                       in Raw/Writing, each step in Raw; Raw/Counts and Raw/Sound count what a task
--                       has and show that each step keeps the count
--   RwLock              `RwLock` and its guards; theorems in RwLock/Exclusion, Protection, Release,
--                       Wakeup, Stranded and Bounds, from the invariant in RwLock/Invariant, and in
--                       Drain and Readers, from the counts of listeners in Raw/Awake and
--                       Readers/Steps; an abstract lock in RwLock/Spec, and in RwLock/Refine the
--                       act that each step does on it; the guards and futures that own an `Arc`
--                       in RwLock/Owned, with the theorems in Owned/Exact
--   OnceCell            `OnceCell`, `initialize_or_wait` and its guard; its data in
--                       OnceCell/Defs, `State` in OnceCell/Word, the calls with `&mut self` in
--                       OnceCell/Exclusive, as for the locks in Mutex/Exclusive and
--                       RwLock/Exclusive; theorems in OnceCell/Owned, Single, Awake, Dropped and
--                       Passive, the last from the stored listeners in OnceCell/Stored; an
--                       abstract cell in OnceCell/Spec, and in OnceCell/Refine the act that each
--                       step does on it
--   Barrier             `Barrier::{new, wait}`, `BarrierWaitInner` and `WaitState`; theorems in
--                       Barrier/Rounds, Section and Wakeup, from the counts in Barrier/Seats, the
--                       mutex in Barrier/Exclusion and the stored listeners in Barrier/Stored and
--                       Stored/Steps
--   Mutex/Debug, RwLock/Debug, OnceCell/Debug  `fmt` of `Debug`, by one task alone
--   Fixtures, */Tests, */OwnedTests, RwLock/WaitTests
--                       concrete events, and the theorems applied to concrete runs
--
-- How the code is modelled. A task is one call, with the future and the guards that come of it. The
-- type `Pc` of each primitive lists where a task may stand, with the locals that live there, and
-- `step` makes one access to shared memory: an atomic operation, an operation on an event, a read
-- or a write of the value; only what the owner of the barrier's mutex does with the count and the
-- generation, under the mutex, is one step. What a task cannot
-- decide is a `Choice`: a spurious failure of compare_exchange_weak, whether 500 microseconds have
-- passed, the drop of a pending future, what the holder of a guard does, how a closure ends. A
-- schedule is a list of task numbers with choices, so the theorems hold of every interleaving and
-- of every cancellation. Atomic operations take effect in one order, that of the schedule; the
-- memory orderings of the source are not modelled.
--
-- Machine words are natural numbers with the wrap-around of a 64-bit usize written out. The
-- theorems on `Mutex` and `RwLock`, and those on the barrier's critical section and on the calls whose
-- round is over, take at most 2 ^ 62 calls, since each may add 2 to a word and the code aborts above usize::MAX / 2 or isize::MAX; the
-- number of steps is not bounded. No definition takes fuel: a turn of a loop is a step of the
-- schedule.
--
-- The events are a parameter: a record of operations with no law. Where a theorem needs one, it
-- takes `IsQuietable`, which says that an event that nobody has notified makes no listener ready, or
-- `IsCounting`, which counts the listeners that wait and those that are notified, or
-- `IsRegistering`, which says of each listener by itself when it is registered and when notified.
--
-- A task of an owned lock has, beside the place of its call, the `Arc` that it was called through and
-- those that its future and its guard own. `next` of each Owned file says what it does there: a clone,
-- a drop, or the next access of the borrowed call. While a call or
-- its future borrows its caller's `Arc`, the caller keeps it; after that the caller may drop it at any
-- time, whether the call has a reference of its own or not. A future that owns its `Arc` and is
-- dropped drops it before its listener, as the source does. Left out are the second reference that
-- the fast path of `LockArc` makes and drops at once, and the abort of a count that overflows.
--
-- Not modelled: the memory orderings; the blocking calls, which poll the same futures under another
-- strategy of event_listener_strategy; Debug of guards and futures, Display, Default, Send and Sync;
-- src/lib.rs, which holds re-exports and the choice of an atomics library.
pub mod Base
pub mod Event
mod Fixtures
pub mod Tasks
pub mod Arc
pub mod Listeners
pub mod Semaphore
pub mod Mutex
pub mod RwLock
pub mod OnceCell
pub mod Barrier
