-- ===== src/RwLock/Raw/Counts.antt =====
-- src/rwlock/raw.rs: what a task counts for, in the word of the lock and in that of its mutex.
use async_lock.Base.{ℕ, ◌%◌, Bool, true, false, ◌&&◌, if◌then◌else◌, ◌==◌, ltb, isize_max, not}
use async_lock.Mutex.Word.{locked, starving, aborting}
use async_lock.RwLock.Raw.Defs.{
  Guard, reader, upgradable, writer, After, reads_on, downgraded, Pc, try_read_swaps, read_swaps,
  read_done, upgradable_locking, upgradable_loads, upgradable_swaps, upgradable_done,
  try_write_swaps, write_locking, write_ors, write_listens, write_drops, write_fast, drain_loads,
  drain_listens, drain_waits, drain_pending, drain_done, write_announces, readers_notify,
  mutex_unlocks, mutex_notifies, reader_announces, holds, leaked, aborted,
}

abbrev pub one_if : Bool → ℕ
one_if true = 1
one_if false = 0

abbrev pub unfit : ℕ → ℕ
unfit state = if (state % 2 == 0) && not (ltb isize_max state) then 0 else 1

abbrev pub guard_reads : Guard → ℕ
guard_reads reader = 1
guard_reads upgradable = 1
guard_reads writer = 0

abbrev pub guard_writes : Guard → ℕ
guard_writes writer = 1
guard_writes _ = 0

-- Every guard but a reader's comes with the inner mutex.
abbrev pub guard_locks : Guard → ℕ
guard_locks reader = 0
guard_locks _ = 1

module _ {Listener : Type 0} where
  abbrev pub after_reads : After Listener → ℕ
  after_reads reads_on = 1
  after_reads downgraded = 1
  after_reads _ = 0

  -- Readers that the task counts for in the word.
  abbrev pub reading : Pc Listener → ℕ
  reading (read_done _) = 1
  reading (upgradable_done _) = 1
  reading (mutex_unlocks a) = after_reads a
  reading (mutex_notifies a) = after_reads a
  reading (write_announces a) = after_reads a
  reading reader_announces = 1
  reading (holds g) = guard_reads g
  reading (leaked g) = guard_reads g
  reading _ = 0

  -- The task has set `WRITER_BIT`.
  abbrev pub claiming : Pc Listener → ℕ
  claiming (write_listens _) = 1
  claiming (write_drops _ _) = 1
  claiming (write_fast _) = 1
  claiming (drain_loads _) = 1
  claiming drain_listens = 1
  claiming (drain_waits _) = 1
  claiming (drain_pending _) = 1
  claiming (drain_done _) = 1
  claiming (holds g) = guard_writes g
  claiming (leaked g) = guard_writes g
  claiming _ = 0

  -- The task has write access.
  abbrev pub writing : Pc Listener → ℕ
  writing (write_fast _) = 1
  writing (drain_done _) = 1
  writing (holds g) = guard_writes g
  writing (leaked g) = guard_writes g
  writing _ = 0

  -- The task has the inner mutex.
  abbrev pub locking : Pc Listener → ℕ
  locking (upgradable_locking l) = locked l
  locking (upgradable_loads _) = 1
  locking (upgradable_swaps _ _) = 1
  locking (upgradable_done _) = 1
  locking try_write_swaps = 1
  locking (write_locking l) = locked l
  locking (write_ors _) = 1
  locking (write_listens _) = 1
  locking (write_drops _ _) = 1
  locking (write_fast _) = 1
  locking (drain_loads _) = 1
  locking drain_listens = 1
  locking (drain_waits _) = 1
  locking (drain_pending _) = 1
  locking (drain_done _) = 1
  locking (write_announces _) = 1
  locking (readers_notify u) = one_if u
  locking (mutex_unlocks _) = 1
  locking (holds g) = guard_locks g
  locking (leaked g) = guard_locks g
  locking (aborted u) = one_if u
  locking _ = 0

  -- The task is a starved operation on the inner mutex, or has aborted in it.
  abbrev pub starved : Pc Listener → ℕ
  starved (upgradable_locking l) = starving l
  starved (write_locking l) = starving l
  starved _ = 0

  abbrev pub failed : Pc Listener → ℕ
  failed (upgradable_locking l) = aborting l
  failed (write_locking l) = aborting l
  failed _ = 0

  -- The task is past the overflow check of an upgradable read.
  abbrev pub checked : Pc Listener → ℕ
  checked (upgradable_swaps _ _) = 1
  checked _ = 0

  -- The task is about to add a reader to a word with the writer's bit or too many readers.
  abbrev pub wrong : Pc Listener → ℕ
  wrong (try_read_swaps state) = unfit state
  wrong (read_swaps state _) = unfit state
  wrong _ = 0
