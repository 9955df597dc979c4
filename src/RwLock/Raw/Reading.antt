-- ===== src/RwLock/Raw/Reading.antt =====
-- src/rwlock/raw.rs: `try_read`, `RawRead`, `RawUpgradableRead` and the unlocks of readers.
use async_lock.Base.{
  ℕ, ◌%◌, true, false, if◌then◌else◌, ◌==◌, ltb, Option, none, some, isize_max, wrapping_add,
  wrapping_sub, and_not_one,
}
use async_lock.Event.{EventOps, Caller, direct, in_future}
use async_lock.Mutex.Acquire.{unlock}
use async_lock.RwLock.Raw.Defs.{
  RawRwLock, one_reader, reader, upgradable, released, reads_on, refused, dropped, Pc,
  try_read_swaps, read_pending, read_swaps, read_listens, read_waits, read_passes, read_loads,
  read_done, upgradable_swaps, upgradable_done, readers_notify, mutex_unlocks, mutex_notifies,
  holds, ended, aborted,
}

module _ {Listener : Type 0} where
  -- The head of the loop in `try_read`, with the local `state`.
  unfoldable pub try_read : ℕ → Pc Listener
  try_read state =
      if state % 2 == 0
      then (if ltb isize_max state then aborted false else try_read_swaps state)
      else ended refused

  unfoldable pub read_blocked : ℕ → Option Listener → Pc Listener
  read_blocked state none = read_listens
  read_blocked state (some l) = read_waits state (some l)

  -- The head of the loop in `RawRead`'s poll.
  unfoldable pub poll_read : ℕ → Option Listener → Pc Listener
  unfolding read_blocked
  poll_read state l =
      if state % 2 == 0
      then (if ltb isize_max state then aborted false else read_swaps state l)
      else read_blocked state l

  -- The overflow check before the loop of `try_upgradable_read` and of `RawUpgradableRead`'s poll.
  unfoldable pub check_upgradable : Caller Listener → ℕ → Pc Listener
  check_upgradable k state = if ltb isize_max state then aborted true else upgradable_swaps k state

  unfoldable pub upgradable_succeed : Caller Listener → Pc Listener
  upgradable_succeed direct = holds upgradable
  upgradable_succeed (in_future l) = upgradable_done l

module _ {Event Listener : Type 0} where
  unfoldable pub try_read_swap : RawRwLock Event → ℕ → RawRwLock Event × Pc Listener
  unfolding try_read
  try_read_swap s state =
      if s.state == state
      then (record s { state = wrapping_add state one_reader }, holds reader)
      else (s, try_read s.state)

  unfoldable pub read_swap : RawRwLock Event → ℕ → Option Listener → RawRwLock Event × Pc Listener
  unfolding poll_read
  read_swap s state l =
      if s.state == state
      then (record s { state = wrapping_add state one_reader }, read_done l)
      else (s, poll_read s.state l)

  -- The loop of `try_upgradable_read` and of `RawUpgradableRead`'s poll.
  unfoldable pub upgradable_swap :
      RawRwLock Event → Caller Listener → ℕ → RawRwLock Event × Pc Listener
  unfolding upgradable_succeed
  upgradable_swap s k state =
      if s.state == state
      then (record s { state = wrapping_add state one_reader }, upgradable_succeed k)
      else (s, upgradable_swaps k s.state)

  unfoldable pub read_unlock : RawRwLock Event → RawRwLock Event × Pc Listener
  read_unlock s = (
    record s { state = wrapping_sub s.state one_reader },
    if and_not_one s.state == one_reader then readers_notify false else ended dropped,
  )

  unfoldable pub upgradable_read_unlock : RawRwLock Event → RawRwLock Event × Pc Listener
  upgradable_read_unlock s = (
    record s { state = wrapping_sub s.state one_reader },
    if and_not_one s.state == one_reader then readers_notify true else mutex_unlocks released,
  )

  unfoldable pub downgrade_upgradable_read : RawRwLock Event → RawRwLock Event × Pc Listener
  unfolding unlock
  downgrade_upgradable_read s = (record s { mutex = unlock s.mutex }, mutex_notifies reads_on)

module _ {Event Listener : Type 0} (E : EventOps Event Listener) where
  unfoldable pub read_listen : RawRwLock Event → RawRwLock Event × Pc Listener
  read_listen s =
      let (e, l) = E.listen s.no_writer in (record s { no_writer = e }, read_loads (some l))

  unfoldable pub read_wait : RawRwLock Event → ℕ → Option Listener → RawRwLock Event × Pc Listener
  read_wait s state l =
      let (e, l', woken) = E.poll s.no_writer l in
      (record s { no_writer = e }, if woken then read_passes l' else read_pending state l')
