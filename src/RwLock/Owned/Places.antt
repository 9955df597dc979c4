-- ===== src/RwLock/Owned/Places.antt =====
-- src/rwlock.rs and src/rwlock/futures.rs: how many `Arc`s fit the places that an operation leads to.
use async_lock.Base.{◌<◌, inl, ◌⊎◌, Option, none, ℕ, ◌<◌, ◌≡◌, refl, true, false, some, arith}
use async_lock.Mutex.Acquire.{Lock, done, gone}
use async_lock.RwLock.Raw.Defs.{
  RawRwLock, Call, tries_read, reads, tries_upgradable_read, upgradable_reads, tries_write, writes,
  Guard, reader, upgradable, writer, After, released, refuses, reads_on, downgraded, cancels, Pc,
  ready, try_read_loads, try_read_swaps, read_pending, read_swaps, read_listens, read_waits,
  read_passes, read_loads, read_done, upgradable_locking, upgradable_loads, upgradable_swaps,
  upgradable_done, try_write_swaps, write_locking, write_ors, write_listens, write_drops,
  write_fast, drain_loads, drain_listens, drain_waits, drain_pending, drain_done, write_announces,
  readers_notify, mutex_unlocks, mutex_notifies, reader_announces, drops_listener, read_drops,
  holds, leaked, ended, aborted,
}
use async_lock.RwLock.Raw.Reading.{
  try_read, read_blocked, poll_read, read_unlock, upgradable_read_unlock, downgrade_upgradable_read,
}
use async_lock.RwLock.Raw.Writing.{
  drain_blocked, drain, finish, try_upgrade, upgrade, write_unlock, downgrade_write,
  downgrade_to_upgradable,
}
use async_lock.RwLock.Raw.{start, then_upgradable, then_write}
use async_lock.RwLock.{
  RwLock, Use, assigns, drops, forgets, downgrades, downgrades_to_upgradable, upgrades,
  tries_upgrade, use_guard, use_read_guard, use_upgradable_guard, use_write_guard,
}
use async_lock.RwLock.Owned.{over, borrows, fits, due}

module _ {Listener : Type 0} where
  pub then_upgradable-fits : (l : Lock Listener) → fits (then_upgradable l) 0 ≡ true
  unfolding then_upgradable
  then_upgradable-fits (done l) = refl
  then_upgradable-fits gone = refl
  then_upgradable-fits l = refl

  pub then_write-fits : (l : Lock Listener) → fits (then_write l) 0 ≡ true
  unfolding then_write
  then_write-fits (done l) = refl
  then_write-fits gone = refl
  then_write-fits l = refl

  pub drain-fits : (state : ℕ) (l : Option Listener) (n : ℕ) → n < 2 → fits (drain state l) n ≡ true
  unfolding drain drain_blocked
  drain-fits state none n k = ground arith
  drain-fits state (some l) n k = ground arith

  pub finish-fits : (a : After Listener) (n : ℕ) → n < 2 → fits (finish a) n ≡ true
  unfolding finish
  finish-fits released n k = ground arith
  finish-fits refuses n k = ground arith
  finish-fits reads_on n k = ground arith
  finish-fits downgraded n k = ground arith
  finish-fits (cancels l) n k = ground arith

  pub poll_read-fits : (state : ℕ) (l : Option Listener) → fits (poll_read state l) 0 ≡ true
  unfolding poll_read read_blocked
  poll_read-fits state none = ground arith
  poll_read-fits state (some l) = ground arith

pub try_read-fits :
    (Listener : Type 0) (state : ℕ) → fits (try_read {Listener = Listener} state) 0 ≡ true
unfolding try_read
try_read-fits Listener state = ground arith

pub ready-fits : (Listener : Type 0) (c : Call) → fits {Listener = Listener} (ready c) 0 ≡ true
ready-fits Listener c = refl

pub start-fits :
    {Event : Type 0} (Listener : Type 0) (s : RawRwLock Event) (c : Call)
    → fits (start {Listener = Listener} s c).1 0 ≡ true
unfolding start
start-fits Listener s tries_read = refl
start-fits Listener s reads = refl
start-fits Listener s tries_upgradable_read = ground arith
start-fits Listener s upgradable_reads = refl
start-fits Listener s tries_write = ground arith
start-fits Listener s writes = refl

module _ {Listener : Type 0} where
  pub fits-two : (p : Pc Listener) (n : ℕ) → fits p n ≡ true → over p n ≡ false → (n ≡ 0) ⊎ (n ≡ 1)
  fits-two (drain_loads l) n f o = ground arith
  fits-two drain_listens n f o = ground arith
  fits-two (drain_waits l) n f o = ground arith
  fits-two (drain_pending l) n f o = ground arith
  fits-two (drain_done l) n f o = ground arith
  fits-two (write_announces a) n f o = ground arith
  fits-two (mutex_unlocks a) n f o = ground arith
  fits-two (mutex_notifies a) n f o = ground arith
  fits-two reader_announces n f o = ground arith
  fits-two (drops_listener l) n f o = ground arith
  fits-two (readers_notify b) n f o = ground arith
  fits-two (read_done l) n f o = ground arith
  fits-two (upgradable_done l) n f o = ground arith
  fits-two (write_fast l) n f o = ground arith
  fits-two (ready call) n f o = ground arith
  fits-two try_read_loads n f o = ground arith
  fits-two (try_read_swaps state) n f o = ground arith
  fits-two (read_pending state l) n f o = ground arith
  fits-two (read_swaps state l) n f o = ground arith
  fits-two read_listens n f o = ground arith
  fits-two (read_waits state l) n f o = ground arith
  fits-two (read_passes l) n f o = ground arith
  fits-two (read_loads l) n f o = ground arith
  fits-two (upgradable_locking l) n f o = ground arith
  fits-two (upgradable_loads k) n f o = ground arith
  fits-two (upgradable_swaps k state) n f o = ground arith
  fits-two try_write_swaps n f o = ground arith
  fits-two (write_locking l) n f o = ground arith
  fits-two (write_ors l) n f o = ground arith
  fits-two (write_listens l) n f o = ground arith
  fits-two (write_drops l m) n f o = ground arith
  fits-two (read_drops l) n f o = ground arith
  fits-two (leaked g) n f o = ground arith
  fits-two (ended v) n f o = ground arith
  fits-two (aborted b) n f o = ground arith
  fits-two (holds g) n f o = ground arith

  pub due-fits : (p : Pc Listener) → due p ≡ true → fits p 1 ≡ true
  due-fits (drain_loads l) d = ground arith
  due-fits drain_listens d = ground arith
  due-fits (drain_waits l) d = ground arith
  due-fits (drain_pending l) d = ground arith
  due-fits (drain_done l) d = ground arith
  due-fits (write_announces a) d = ground arith
  due-fits (mutex_unlocks a) d = ground arith
  due-fits (mutex_notifies a) d = ground arith
  due-fits reader_announces d = ground arith
  due-fits (drops_listener l) d = ground arith
  due-fits (readers_notify b) d = ground arith
  due-fits (read_done l) d = ground arith
  due-fits (upgradable_done l) d = ground arith
  due-fits (write_fast l) d = ground arith
  due-fits (ready call) d = ground arith
  due-fits try_read_loads d = ground arith
  due-fits (try_read_swaps state) d = ground arith
  due-fits (read_pending state l) d = ground arith
  due-fits (read_swaps state l) d = ground arith
  due-fits read_listens d = ground arith
  due-fits (read_waits state l) d = ground arith
  due-fits (read_passes l) d = ground arith
  due-fits (read_loads l) d = ground arith
  due-fits (upgradable_locking l) d = ground arith
  due-fits (upgradable_loads k) d = ground arith
  due-fits (upgradable_swaps k state) d = ground arith
  due-fits try_write_swaps d = ground arith
  due-fits (write_locking l) d = ground arith
  due-fits (write_ors l) d = ground arith
  due-fits (write_listens l) d = ground arith
  due-fits (write_drops l m) d = ground arith
  due-fits (read_drops l) d = ground arith
  due-fits (leaked g) d = ground arith
  due-fits (ended v) d = ground arith
  due-fits (aborted b) d = ground arith
  due-fits (holds g) d = ground arith

  -- A place without an `Arc` clones one or has its caller's.
  pub zero-borrows :
      (p : Pc Listener) → fits p 0 ≡ true → over p 0 ≡ false → (due p ≡ true) ⊎ (borrows p 0 ≡ true)
  zero-borrows (drain_loads l) f o = ground arith
  zero-borrows drain_listens f o = ground arith
  zero-borrows (drain_waits l) f o = ground arith
  zero-borrows (drain_pending l) f o = ground arith
  zero-borrows (drain_done l) f o = ground arith
  zero-borrows (write_announces a) f o = ground arith
  zero-borrows (mutex_unlocks a) f o = ground arith
  zero-borrows (mutex_notifies a) f o = ground arith
  zero-borrows reader_announces f o = ground arith
  zero-borrows (drops_listener l) f o = ground arith
  zero-borrows (readers_notify b) f o = ground arith
  zero-borrows (read_done l) f o = ground arith
  zero-borrows (upgradable_done l) f o = ground arith
  zero-borrows (write_fast l) f o = ground arith
  zero-borrows (ready call) f o = ground arith
  zero-borrows try_read_loads f o = ground arith
  zero-borrows (try_read_swaps state) f o = ground arith
  zero-borrows (read_pending state l) f o = ground arith
  zero-borrows (read_swaps state l) f o = ground arith
  zero-borrows read_listens f o = ground arith
  zero-borrows (read_waits state l) f o = ground arith
  zero-borrows (read_passes l) f o = ground arith
  zero-borrows (read_loads l) f o = ground arith
  zero-borrows (upgradable_locking l) f o = ground arith
  zero-borrows (upgradable_loads k) f o = ground arith
  zero-borrows (upgradable_swaps k state) f o = ground arith
  zero-borrows try_write_swaps f o = ground arith
  zero-borrows (write_locking l) f o = ground arith
  zero-borrows (write_ors l) f o = ground arith
  zero-borrows (write_listens l) f o = ground arith
  zero-borrows (write_drops l m) f o = ground arith
  zero-borrows (read_drops l) f o = ground arith
  zero-borrows (leaked g) f o = ground arith
  zero-borrows (ended v) f o = ground arith
  zero-borrows (aborted b) f o = ground arith
  zero-borrows (holds reader) f o = inl refl
  zero-borrows (holds upgradable) f o = inl refl
  zero-borrows (holds writer) f o = inl refl

pub use-fits :
    {Event T : Type 0} (Listener : Type 0) (g : Guard) (s : RwLock Event T) (u : Use T)
    → fits (use_guard {Listener = Listener} g s u).1 1 ≡ true
unfolding use_guard use_read_guard use_upgradable_guard use_write_guard read_unlock
    upgradable_read_unlock downgrade_upgradable_read try_upgrade upgrade write_unlock
    downgrade_write downgrade_to_upgradable
use-fits Listener reader s (assigns v) = refl
use-fits Listener reader s drops = ground arith
use-fits Listener reader s forgets = refl
use-fits Listener reader s downgrades = refl
use-fits Listener reader s downgrades_to_upgradable = refl
use-fits Listener reader s upgrades = refl
use-fits Listener reader s tries_upgrade = refl
use-fits Listener upgradable s (assigns v) = refl
use-fits Listener upgradable s drops = ground arith
use-fits Listener upgradable s forgets = refl
use-fits Listener upgradable s downgrades = refl
use-fits Listener upgradable s downgrades_to_upgradable = refl
use-fits Listener upgradable s upgrades = refl
use-fits Listener upgradable s tries_upgrade = ground arith
use-fits Listener writer s (assigns v) = refl
use-fits Listener writer s drops = refl
use-fits Listener writer s forgets = refl
use-fits Listener writer s downgrades = refl
use-fits Listener writer s downgrades_to_upgradable = refl
use-fits Listener writer s upgrades = refl
use-fits Listener writer s tries_upgrade = refl
