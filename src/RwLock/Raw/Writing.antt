-- ===== src/RwLock/Raw/Writing.antt =====
-- src/rwlock/raw.rs: `try_write`, `RawWrite`, `RawUpgrade`, the upgrades and downgrades, and the unlock
-- of a writer.
use async_lock.Base.{
  ℕ, if◌then◌else◌, ◌==◌, Option, none, some, wrapping_add, wrapping_sub, or_one, and_not_one,
}
use async_lock.Event.{EventOps}
use async_lock.RwLock.Raw.Defs.{
  RawRwLock, writer_bit, one_reader, reader, upgradable, writer, After, released, refuses, reads_on,
  downgraded, cancels, refused, dropped, Pc, write_listens, write_fast, drain_loads, drain_listens,
  drain_waits, drain_pending, drain_done, write_announces, mutex_unlocks, reader_announces,
  drops_listener, holds, ended,
}

module _ {Listener : Type 0} where
  unfoldable pub drain_blocked : Option Listener → Pc Listener
  drain_blocked none = drain_listens
  drain_blocked (some l) = drain_waits (some l)

  -- The loop that waits for readers, in `RawWrite`'s poll and in `RawUpgrade`'s, after its load.
  unfoldable pub drain : ℕ → Option Listener → Pc Listener
  unfolding drain_blocked
  drain state l = if state == writer_bit then drain_done l else drain_blocked l

  -- What follows the release of the inner mutex.
  unfoldable pub finish : After Listener → Pc Listener
  finish released = ended dropped
  finish refuses = ended refused
  finish reads_on = holds reader
  finish downgraded = reader_announces
  finish (cancels l) = drops_listener l

module _ {Event Listener : Type 0} where
  -- A failure drops the mutex's guard.
  unfoldable pub try_write_swap : RawRwLock Event → RawRwLock Event × Pc Listener
  try_write_swap s =
      if s.state == 0
      then (record s { state = writer_bit }, holds writer)
      else (s, mutex_unlocks refuses)

  -- `new_state` is the word before `fetch_or`.
  unfoldable pub set_writer : RawRwLock Event → Option Listener → RawRwLock Event × Pc Listener
  set_writer s l =
      let new_state = s.state in
      (
        record s { state = or_one s.state },
        if new_state == writer_bit then write_fast l else write_listens l,
      )

  unfoldable pub try_upgrade : RawRwLock Event → RawRwLock Event × Pc Listener
  try_upgrade s =
      if s.state == one_reader
      then (record s { state = writer_bit }, holds writer)
      else (s, holds upgradable)

  -- `ONE_READER - WRITER_BIT` is 1.
  unfoldable pub upgrade : RawRwLock Event → RawRwLock Event × Pc Listener
  upgrade s = (record s { state = wrapping_sub s.state 1 }, drain_pending none)

  unfoldable pub write_unlock : RawRwLock Event → After Listener → RawRwLock Event × Pc Listener
  write_unlock s a = (record s { state = and_not_one s.state }, write_announces a)

  unfoldable pub downgrade_write : RawRwLock Event → RawRwLock Event × Pc Listener
  downgrade_write s = (record s { state = wrapping_add s.state 1 }, mutex_unlocks downgraded)

  unfoldable pub downgrade_to_upgradable : RawRwLock Event → RawRwLock Event × Pc Listener
  downgrade_to_upgradable s = (record s { state = wrapping_add s.state 1 }, holds upgradable)

module _ {Event Listener : Type 0} (E : EventOps Event Listener) where
  unfoldable pub drain_wait : RawRwLock Event → Option Listener → RawRwLock Event × Pc Listener
  drain_wait s l =
      let (e, l', woken) = E.poll s.no_readers l in
      (record s { no_readers = e }, if woken then drain_loads l' else drain_pending l')
