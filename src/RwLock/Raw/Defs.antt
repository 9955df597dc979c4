-- ===== src/RwLock/Raw/Defs.antt =====
-- src/rwlock/raw.rs: the state of the lock, and where a task may stand.
use async_lock.Base.{ℕ, Bool, Option}
use async_lock.Event.{EventOps, Caller}
use async_lock.Mutex.Acquire.{Mutex, Lock}

-- The least bit of `state` is `WRITER_BIT`; the rest counts readers, by `ONE_READER`.
pub record RawRwLock (Event : Type 0) : Type 0 where
  pub mutex : Mutex Event (Unit {0})
  pub no_readers : Event
  pub no_writer : Event
  pub state : ℕ

abbrev pub writer_bit : ℕ
writer_bit = 1

abbrev pub one_reader : ℕ
one_reader = 2

unfoldable pub new : {Event Listener : Type 0} → EventOps Event Listener → RawRwLock Event
new E = record {
  mutex = record { state = 0; lock_ops = E.new; value = tt };
  no_readers = E.new;
  no_writer = E.new;
  state = 0;
}

pub data Call : Type 0 where
  tries_read reads tries_upgradable_read upgradable_reads tries_write writes : Call

pub data Guard : Type 0 where
  reader upgradable writer : Guard

-- What follows the release of the inner mutex: nothing, the failure of `try_write`, the read guard
-- that an upgradable guard or a write guard became, or the drop of a future's listener.
pub data After (Listener : Type 0) : Type 0 where
  released refuses reads_on downgraded : After Listener
  cancels : Option Listener → After Listener

pub data Outcome : Type 0 where
  refused cancelled dropped : Outcome

pub data Pc (Listener : Type 0) : Type 0 where
  ready : Call → Pc Listener
  try_read_loads : Pc Listener  -- `try_read`: at the load
  try_read_swaps : ℕ → Pc Listener  -- at the compare-exchange, with the local `state`
  read_pending : ℕ → Option Listener → Pc Listener  -- `RawRead` between two polls
  read_swaps : ℕ → Option Listener → Pc Listener  -- at the compare-exchange
  read_listens : Pc Listener  -- at `no_writer.listen()`
  read_waits : ℕ → Option Listener → Pc Listener  -- at `strategy.poll`
  read_passes : Option Listener → Pc Listener  -- at `no_writer.notify(1)`
  read_loads : Option Listener → Pc Listener  -- at the reload of the word
  read_done : Option Listener → Pc Listener  -- after `Poll::Ready`, not dropped yet
  upgradable_locking : Lock Listener → Pc Listener  -- `RawUpgradableRead`: the mutex's future
  upgradable_loads : Caller Listener → Pc Listener  -- at the load, with the mutex locked
  upgradable_swaps : Caller Listener → ℕ → Pc Listener  -- at the compare-exchange
  upgradable_done : Option Listener → Pc Listener
  try_write_swaps : Pc Listener  -- `try_write`: at the compare-exchange, with the mutex locked
  write_locking : Lock Listener → Pc Listener  -- `RawWrite`: the mutex's future
  write_ors : Option Listener → Pc Listener  -- at `fetch_or(WRITER_BIT)`
  write_listens : Option Listener → Pc Listener  -- at `no_readers.listen()`
  write_drops : Option Listener → Option Listener → Pc Listener  -- at the drop of the mutex's future
  write_fast : Option Listener → Pc Listener  -- the same, after the early return
  drain_loads : Option Listener → Pc Listener  -- `RawWrite` and `RawUpgrade`: at the load
  drain_listens : Pc Listener  -- at `no_readers.listen()`
  drain_waits : Option Listener → Pc Listener  -- at `strategy.poll`
  drain_pending : Option Listener → Pc Listener  -- between two polls
  drain_done : Option Listener → Pc Listener  -- after `Poll::Ready`, not dropped yet
  write_announces : After Listener → Pc Listener  -- `write_unlock`: at `no_writer.notify(1)`
  readers_notify : Bool → Pc Listener  -- at `no_readers.notify(1)`; the flag: upgradable
  mutex_unlocks : After Listener → Pc Listener  -- at the `fetch_sub` of `unlock_unchecked`
  mutex_notifies : After Listener → Pc Listener  -- at its `notify(1)`
  reader_announces : Pc Listener  -- `downgrade_write`: at `no_writer.notify(1)`
  drops_listener : Option Listener → Pc Listener  -- at the drop of the listener on `no_readers`
  read_drops : Option Listener → Pc Listener  -- at the drop of the listener on `no_writer`
  holds : Guard → Pc Listener
  leaked : Guard → Pc Listener  -- a guard given to `mem::forget`
  ended : Outcome → Pc Listener
  aborted : Bool → Pc Listener  -- the flag: with the mutex locked
