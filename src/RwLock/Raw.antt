-- ===== src/RwLock/Raw.antt =====
-- src/rwlock/raw.rs: the word of the lock, the mutex and the two events, and the futures `RawRead`,
-- `RawUpgradableRead`, `RawWrite` and `RawUpgrade`. Each step makes one access to shared memory.
pub mod Defs
pub mod Reading
pub mod Writing
pub mod Counts
pub mod Sound
pub mod Awake
unfoldable pub use Defs.*
unfoldable pub use Reading.*
unfoldable pub use Writing.*
use async_lock.Base.{ℕ, Bool, true, false, if◌then◌else◌, Option, none, some}
use async_lock.Event.{EventOps, direct, in_future}
use async_lock.Mutex.Acquire.{Lock, unpolled, done, gone, try_lock, poll, unlock, notify}

module _ {Listener : Type 0} where
  -- The poll of an embedded `Lock` future: ready, dropped, or still there.
  unfoldable pub then_upgradable : Lock Listener → Pc Listener
  then_upgradable (done l) = upgradable_loads (in_future l)
  then_upgradable gone = ended cancelled
  then_upgradable l = upgradable_locking l

  unfoldable pub then_write : Lock Listener → Pc Listener
  then_write (done l) = write_ors l
  then_write gone = ended cancelled
  then_write l = write_locking l

module _ {Event Listener : Type 0} where
  -- The first step of a call; `read()` loads the word when it makes its future.
  unfoldable pub start : RawRwLock Event → Call → RawRwLock Event × Pc Listener
  unfolding try_lock
  start s tries_read = (s, try_read_loads)
  start s reads = (s, read_pending s.state none)
  start s tries_upgradable_read =
      let (m, guard) = try_lock s.mutex in
      (record s { mutex = m }, if guard then upgradable_loads direct else ended refused)
  start s upgradable_reads = (s, upgradable_locking unpolled)
  start s tries_write =
      let (m, guard) = try_lock s.mutex in
      (record s { mutex = m }, if guard then try_write_swaps else ended refused)
  start s writes = (s, write_locking unpolled)

module _ {Event Listener : Type 0} (E : EventOps Event Listener) where
  -- `late` and `cancel` are for the `Lock` future, and `cancel` says too that a pending future is
  -- dropped. A guard takes no step here.
  unfoldable pub step :
      (late cancel : Bool) → RawRwLock Event → Pc Listener → RawRwLock Event × Pc Listener
  unfolding start try_read poll_read check_upgradable try_read_swap read_swap upgradable_swap
      read_listen read_wait drain finish try_write_swap set_writer write_unlock drain_wait unlock
      notify
  step late cancel s (ready call) = start s call
  step late cancel s try_read_loads = (s, try_read s.state)
  step late cancel s (try_read_swaps state) = try_read_swap s state
  step late cancel s (read_pending state l) =
      (s, if cancel then read_drops l else poll_read state l)
  step late cancel s (read_swaps state l) = read_swap s state l
  step late cancel s read_listens = read_listen E s
  step late cancel s (read_waits state l) = read_wait E s state l
  step late cancel s (read_passes l) =
      (record s { no_writer = E.notify 1 s.no_writer }, read_loads l)
  step late cancel s (read_loads l) = (s, poll_read s.state l)
  step late cancel s (read_done l) = (record s { no_writer = E.drop l s.no_writer }, holds reader)
  step late cancel s (upgradable_locking l) =
      let (m, l') = poll E late cancel s.mutex l in (record s { mutex = m }, then_upgradable l')
  step late cancel s (upgradable_loads k) = (s, check_upgradable k s.state)
  step late cancel s (upgradable_swaps k state) = upgradable_swap s k state
  step late cancel s (upgradable_done l) = (
    record s { mutex = record s.mutex { lock_ops = E.drop l s.mutex.lock_ops } },
    holds upgradable,
  )
  step late cancel s try_write_swaps = try_write_swap s
  step late cancel s (write_locking l) =
      let (m, l') = poll E late cancel s.mutex l in (record s { mutex = m }, then_write l')
  step late cancel s (write_ors l) = set_writer s l
  step late cancel s (write_listens l) =
      let (e, n) = E.listen s.no_readers in (record s { no_readers = e }, write_drops l (some n))
  step late cancel s (write_drops l n) =
      (record s { mutex = record s.mutex { lock_ops = E.drop l s.mutex.lock_ops } }, drain_loads n)
  step late cancel s (write_fast l) =
      (record s { mutex = record s.mutex { lock_ops = E.drop l s.mutex.lock_ops } }, holds writer)
  step late cancel s (drain_loads n) = (s, drain s.state n)
  step late cancel s drain_listens =
      let (e, n) = E.listen s.no_readers in (record s { no_readers = e }, drain_loads (some n))
  step late cancel s (drain_waits n) = drain_wait E s n
  step late cancel s (drain_pending n) =
      if cancel then write_unlock s (cancels n) else (s, drain_loads n)
  step late cancel s (drain_done n) =
      (record s { no_readers = E.drop n s.no_readers }, holds writer)
  step late cancel s (write_announces a) =
      (record s { no_writer = E.notify 1 s.no_writer }, mutex_unlocks a)
  step late cancel s (readers_notify locked) = (
    record s { no_readers = E.notify 1 s.no_readers },
    if locked then mutex_unlocks released else ended dropped,
  )
  step late cancel s (mutex_unlocks a) = (record s { mutex = unlock s.mutex }, mutex_notifies a)
  step late cancel s (mutex_notifies a) = (record s { mutex = notify E s.mutex }, finish a)
  step late cancel s reader_announces =
      (record s { no_writer = E.notify 1 s.no_writer }, holds reader)
  step late cancel s (drops_listener n) =
      (record s { no_readers = E.drop n s.no_readers }, ended cancelled)
  step late cancel s (read_drops l) =
      (record s { no_writer = E.drop l s.no_writer }, ended cancelled)
  step late cancel s (holds g) = (s, holds g)
  step late cancel s (leaked g) = (s, leaked g)
  step late cancel s (ended o) = (s, ended o)
  step late cancel s (aborted locked) = (s, aborted locked)
