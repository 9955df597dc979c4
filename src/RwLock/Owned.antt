-- ===== src/RwLock/Owned.antt =====
-- src/rwlock.rs and src/rwlock/futures.rs: `try_read_arc`, `read_arc`, `try_upgradable_read_arc`,
-- `upgradable_read_arc`, `try_write_arc`, `write_arc`, their futures and `UpgradeArc`, and the guards
-- that own an `Arc`.
pub mod Places
pub mod Steps
pub mod Exact
use async_lock.Base.{
  subst, sym, ltb, ◌<◌, zero, suc, inl, inr, ◌⊎◌, ◌-◌, Option, none, not, Bool-cases, ℕ, ◌^◌, ◌≤◌,
  ◌<◌, ◌≡◌, ◌≢◌, refl, ap, ◌∙◌, Bool, true, false, ◌||◌, if◌then◌else◌, ◌==◌, is_none, some, List,
  arith,
}
use async_lock.Event.{EventOps, direct, in_future}
use async_lock.Tasks.{
  All, All-map, All-mono, run, total, length, length-map, get_elem?, get_elem?-map,
}
use async_lock.Arc
use async_lock.Arc.{
  Heap, Owner, owns, dangles, Action, drops_handle, rests, leave, proceed, location, owned_step,
  share,
}
use async_lock.Arc.Count.{
  refs, dangling, IsHeld, HasRefs, IsHeld-HasRefs, IsLegal, leave-IsLegal, proceed-IsLegal,
  run-Shared,
}
use async_lock.Arc.Replay.{replay-live}
use async_lock.Mutex.Acquire.{Lock, done, gone, poll}
use async_lock.RwLock.Raw.Defs.{
  RawRwLock, Call, tries_read, reads, tries_upgradable_read, upgradable_reads, tries_write, writes,
  Guard, reader, upgradable, writer, After, released, refuses, reads_on, downgraded, cancels,
  Outcome, refused, cancelled, dropped, Pc, ready, try_read_loads, try_read_swaps, read_pending,
  read_swaps, read_listens, read_waits, read_passes, read_loads, read_done, upgradable_locking,
  upgradable_loads, upgradable_swaps, upgradable_done, try_write_swaps, write_locking, write_ors,
  write_listens, write_drops, write_fast, drain_loads, drain_listens, drain_waits, drain_pending,
  drain_done, write_announces, readers_notify, mutex_unlocks, mutex_notifies, reader_announces,
  drops_listener, read_drops, holds, leaked, ended, aborted,
}
use async_lock.RwLock.Raw.Reading.{
  try_read, read_blocked, poll_read, check_upgradable, upgradable_succeed, try_read_swap, read_swap,
  upgradable_swap, read_unlock, upgradable_read_unlock, downgrade_upgradable_read, read_listen,
  read_wait,
}
use async_lock.RwLock.Raw.Writing.{
  drain_blocked, drain, finish, try_write_swap, set_writer, try_upgrade, upgrade, write_unlock,
  downgrade_write, downgrade_to_upgradable, drain_wait,
}
use async_lock.RwLock.Raw.{start, then_upgradable, then_write}
use async_lock.RwLock.Raw
use async_lock.RwLock.Exclusion.{compatible, guards_exclude}
use async_lock.RwLock.{
  RwLock, Choice, Use, assigns, drops, forgets, downgrades, downgrades_to_upgradable, upgrades,
  tries_upgrade, use_guard, use_read_guard, use_upgradable_guard, use_write_guard, step, init,
}

-- The drop of a guard, and that of a pending `UpgradeArc`: the `Arc` goes after the lock.
abbrev pub drop_arc : {I P : Type 0} → Bool → ℕ → Action I P
drop_arc h n = leave h n

module _ {Listener : Type 0} where
  abbrev pub over : Pc Listener → ℕ → Bool
  over (leaked _) n = true
  over (ended _) n = true
  over (aborted _) n = true
  over _ n = false

  -- `ReadArcInner`, after the raw future: `self.clone()` is due.
  abbrev pub read_arc : Pc Listener → Bool
  read_arc (read_done _) = true
  read_arc _ = false

  -- `UpgradableReadArcInner`
  abbrev pub upgradable_read_arc : Pc Listener → Bool
  upgradable_read_arc (upgradable_done _) = true
  upgradable_read_arc _ = false

  -- `WriteArcInner`; where it stands for `UpgradeArcInner`, the call has its `Arc`, which moves.
  abbrev pub write_arc : Pc Listener → Bool
  write_arc (write_fast _) = true
  write_arc (drain_done _) = true
  write_arc _ = false

  abbrev pub try_read_arc : Pc Listener → Bool
  try_read_arc (holds reader) = true
  try_read_arc _ = false

  abbrev pub try_upgradable_read_arc : Pc Listener → Bool
  try_upgradable_read_arc (holds upgradable) = true
  try_upgradable_read_arc _ = false

  abbrev pub try_write_arc : Pc Listener → Bool
  try_write_arc (holds writer) = true
  try_write_arc _ = false

  -- The guard of a future or of a direct call clones the `Arc`.
  abbrev pub due : Pc Listener → Bool
  due p =
      read_arc p
      || upgradable_read_arc p
      || write_arc p
      || try_read_arc p
      || try_upgradable_read_arc p
      || try_write_arc p

  -- The call or the future borrows its caller's `Arc`: until it is over or its guard has the `Arc`
  -- of its own. The upgrade and the release of a guard stand at places that the future of a writer
  -- and the failure of `try_write` also stand at, and have one.
  abbrev pub borrows : Pc Listener → ℕ → Bool
  borrows (holds _) n = false
  borrows (readers_notify _) n = false
  borrows _ n = n == 0

  -- How many `Arc`s a call owns: none in a direct call and in a future, and one with a guard and with
  -- what becomes of it; 0 where the clone is due or the drop is done.
  abbrev pub fits : Pc Listener → ℕ → Bool
  fits (holds _) n = ltb n 2
  fits (read_done _) n = ltb n 2
  fits (upgradable_done _) n = ltb n 2
  fits (write_fast _) n = ltb n 2
  fits (drain_loads _) n = ltb n 2
  fits drain_listens n = ltb n 2
  fits (drain_waits _) n = ltb n 2
  fits (drain_pending _) n = ltb n 2
  fits (drain_done _) n = ltb n 2
  fits (write_announces _) n = ltb n 2
  fits (mutex_unlocks _) n = ltb n 2
  fits (mutex_notifies _) n = ltb n 2
  fits reader_announces n = ltb n 2
  fits (drops_listener _) n = ltb n 2
  fits (ended _) n = ltb n 2
  fits (leaked _) n = n == 1
  fits (readers_notify _) n = n == 1
  fits _ n = n == 0

  -- The conversions of a guard move its `Arc`; `mem::forget` of a guard leaks it.
  unfoldable pub next :
      {T : Type 0}
      → Arc.Choice (Choice T)
      → Pc Listener
      → Bool
      → ℕ
      → Action (Choice T) (Pc Listener)
  unfolding leave proceed
  next c (ended _) h n = drop_arc h n
  next c (leaked _) h n = if h then drops_handle else rests
  next c (aborted _) h n = rests
  next c p h n = proceed (due p) (borrows p n) c h n

module _ {Event Listener T : Type 0} (E : EventOps Event Listener) where
  -- One step of an owned call.
  unfoldable pub step_arc :
      Arc.Choice (Choice T)
      → Heap (RwLock Event T)
      → Owner (Pc Listener)
      → Heap (RwLock Event T) × Owner (Pc Listener)
  unfolding owned_step
  step_arc = owned_step (step E) next
