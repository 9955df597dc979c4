-- ===== src/RwLock.antt =====
-- src/rwlock.rs: the value beside the raw lock, and what each kind of guard can do. A task is one
-- call with the future and the guards that come of it.
pub mod Raw
pub mod Invariant
pub mod Exclusion
pub mod Protection
pub mod Release
pub mod Debug
pub mod Owned
pub mod Exclusive
pub mod Drain
pub mod Bounds
pub mod Spec
pub mod Refine
pub mod Wakeup
pub mod Readers
pub mod Stranded
mod Tests
mod OwnedTests
mod WaitTests
use async_lock.Base.{ℕ, Bool, if◌then◌else◌, List, map}
use async_lock.Event.{EventOps}
use async_lock.Tasks.{System}
use Raw.Defs.{
  RawRwLock, Call, Guard, reader, upgradable, writer, released, Pc, ready, holds, leaked,
}
use Raw.Reading.{read_unlock, upgradable_read_unlock, downgrade_upgradable_read}
use Raw.Writing.{try_upgrade, upgrade, write_unlock, downgrade_write, downgrade_to_upgradable}
use Raw

pub record RwLock (Event T : Type 0) : Type 0 where
  pub raw : RawRwLock Event
  pub value : T

-- What the holder of a guard does with it: an assignment through `DerefMut`, the drop, `mem::forget`,
-- or one of the conversions.
pub data Use (T : Type 0) : Type 0 where
  assigns : T → Use T
  drops forgets downgrades downgrades_to_upgradable upgrades tries_upgrade : Use T

-- What the environment chooses: whether 500 microseconds have passed, whether a pending future is
-- dropped, and what is done with a guard.
pub record Choice (T : Type 0) : Type 0 where
  pub late : Bool
  pub cancel : Bool
  pub use_guard : Use T

unfoldable pub new : {Event Listener T : Type 0} → EventOps Event Listener → T → RwLock Event T
unfolding Raw.Defs.new
new E v = record { raw = Raw.Defs.new E; value = v }

module _ {Event Listener T : Type 0} where
  -- The raw lock after an operation, beside the same value.
  abbrev pub beside : RwLock Event T → RawRwLock Event × Pc Listener → RwLock Event T × Pc Listener
  beside s (raw, p) = (record s { raw = raw }, p)

  unfoldable pub use_read_guard : RwLock Event T → Use T → RwLock Event T × Pc Listener
  unfolding read_unlock
  use_read_guard s drops = beside s (read_unlock s.raw)
  use_read_guard s forgets = (s, leaked reader)
  use_read_guard s _ = (s, holds reader)

  unfoldable pub use_upgradable_guard : RwLock Event T → Use T → RwLock Event T × Pc Listener
  unfolding upgradable_read_unlock downgrade_upgradable_read try_upgrade upgrade
  use_upgradable_guard s drops = beside s (upgradable_read_unlock s.raw)
  use_upgradable_guard s forgets = (s, leaked upgradable)
  use_upgradable_guard s downgrades = beside s (downgrade_upgradable_read s.raw)
  use_upgradable_guard s tries_upgrade = beside s (try_upgrade s.raw)
  use_upgradable_guard s upgrades = beside s (upgrade s.raw)
  use_upgradable_guard s _ = (s, holds upgradable)

  unfoldable pub use_write_guard : RwLock Event T → Use T → RwLock Event T × Pc Listener
  unfolding write_unlock downgrade_write downgrade_to_upgradable
  use_write_guard s (assigns v) = (record s { value = v }, holds writer)
  use_write_guard s drops = beside s (write_unlock s.raw released)
  use_write_guard s forgets = (s, leaked writer)
  use_write_guard s downgrades = beside s (downgrade_write s.raw)
  use_write_guard s downgrades_to_upgradable = beside s (downgrade_to_upgradable s.raw)
  use_write_guard s _ = (s, holds writer)

  unfoldable pub use_guard : Guard → RwLock Event T → Use T → RwLock Event T × Pc Listener
  unfolding use_read_guard use_upgradable_guard use_write_guard
  use_guard reader s u = use_read_guard s u
  use_guard upgradable s u = use_upgradable_guard s u
  use_guard writer s u = use_write_guard s u

module _ {Event Listener T : Type 0} (E : EventOps Event Listener) where
  unfoldable pub step : Choice T → RwLock Event T → Pc Listener → RwLock Event T × Pc Listener
  unfolding use_guard Raw.step
  step c s (holds g) = use_guard g s c.use_guard
  step c s p = beside s (Raw.step E c.late c.cancel s.raw p)

  -- A lock around `v` and the calls that will be made on it.
  unfoldable pub init : T → List Call → System (RwLock Event T) (Pc Listener)
  unfolding new
  init v calls = record { shared = new E v; tasks = map ready calls }
