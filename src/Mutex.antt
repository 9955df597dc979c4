-- ===== src/Mutex.antt =====
-- src/mutex.rs: the lock word, the value, the future `LockInner` with its slow path `AcquireSlow`,
-- and the guard. A task is one call with its future and its guard; each step makes one access to the
-- lock word, the event or the value.
pub mod Acquire
pub mod Word
pub mod Awake
pub mod Exclusion
pub mod Protection
pub mod Release
pub mod Debug
pub mod Owned
pub mod Exclusive
pub mod Wakeup
mod Tests
mod OwnedTests
use async_lock.Base.{
  ℕ, Bool, true, false, if◌then◌else◌, ◌==◌, Option, none, some, List, map, wrapping_sub,
}
use async_lock.Event.{EventOps}
use async_lock.Tasks.{System}
unfoldable pub use Acquire.{try_lock, unlock, poll}
pub use Acquire.{Mutex, Lock}
use Acquire.{unpolled, gone, taken}

-- `try_lock` and `lock`
pub data Call : Type 0 where
  tries locks : Call

-- What the holder of a guard does with it: an assignment through `DerefMut`, its drop, or
-- `mem::forget`.
pub data Use (T : Type 0) : Type 0 where
  writes : T → Use T
  drops forgets : Use T

pub data Outcome : Type 0 where
  refused cancelled released forgotten : Outcome

pub data Pc (Listener : Type 0) : Type 0 where
  ready : Call → Pc Listener
  locking : Lock Listener → Pc Listener  -- the future of `lock`
  holds : Pc Listener  -- a live guard
  notifies : Pc Listener  -- at `lock_ops.notify(1)` in `unlock_unchecked`
  ended : Outcome → Pc Listener

-- What the environment chooses: whether 500 microseconds have passed, whether a pending future is
-- dropped, and what is done with a guard.
pub record Choice (T : Type 0) : Type 0 where
  pub late : Bool
  pub cancel : Bool
  pub use_guard : Use T

unfoldable pub new : {Event Listener T : Type 0} → EventOps Event Listener → T → Mutex Event T
new E v = record { state = 0; lock_ops = E.new; value = v }

-- What a step of the future leaves: the guard alone, nothing, or the future.
unfoldable pub after_poll : {Listener : Type 0} → Lock Listener → Pc Listener
after_poll gone = ended cancelled
after_poll taken = holds
after_poll l = locking l

module _ {Event Listener T : Type 0} where
  unfoldable pub start : Mutex Event T → Call → Mutex Event T × Pc Listener
  unfolding try_lock
  start s tries = let (s', guard) = try_lock s in (s', if guard then holds else ended refused)
  start s locks = (s, locking unpolled)

  unfoldable pub use_guard : Mutex Event T → Use T → Mutex Event T × Pc Listener
  unfolding unlock
  use_guard s (writes v) = (record s { value = v }, holds)
  use_guard s drops = (unlock s, notifies)
  use_guard s forgets = (s, ended forgotten)

module _ {Event Listener T : Type 0} (E : EventOps Event Listener) where
  unfoldable pub step : Choice T → Mutex Event T → Pc Listener → Mutex Event T × Pc Listener
  unfolding start use_guard after_poll poll
  step c s (ready call) = start s call
  step c s (locking l) = let (s', l') = poll E c.late c.cancel s l in (s', after_poll l')
  step c s holds = use_guard s c.use_guard
  step c s notifies = (record s { lock_ops = E.notify 1 s.lock_ops }, ended released)
  step c s (ended o) = (s, ended o)

  -- A mutex around `v` and the calls that will be made on it.
  unfoldable pub init : T → List Call → System (Mutex Event T) (Pc Listener)
  unfolding new
  init v calls = record { shared = new E v; tasks = map ready calls }
