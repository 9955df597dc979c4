-- ===== src/Mutex/Acquire.antt =====
-- src/mutex.rs: the lock word and the future `LockInner`, with `AcquireSlow` inside.
use async_lock.Base.{
  ℕ, ◌%◌, Bool, true, false, if◌then◌else◌, ◌==◌, ltb, Option, none, some, usize_max, ◌/◌,
  wrapping_add, wrapping_sub, or_one,
}
use async_lock.Event.{EventOps}

-- `state` holds the locked bit and twice the number of starved lock operations.
pub record Mutex (Event T : Type 0) : Type 0 where
  pub state : ℕ
  pub lock_ops : Event
  pub value : T

-- Where the future stands. `AcquireSlow` is made when the fast path fails; the option is its
-- listener. From `starves` on, the operation counts itself as starved in the lock word.
pub data Lock (Listener : Type 0) : Type 0 where
  unpolled : Lock Listener  -- the future, before its first poll; then at `try_lock`
  listens : Lock Listener  -- at `lock_ops.listen()` in the first loop
  tries_first : Option Listener → Lock Listener  -- at the compare-exchange (0, 1) after it
  waits : Option Listener → Lock Listener  -- at `strategy.poll` in the first loop
  tries_again : Option Listener → Lock Listener  -- at the compare-exchange (0, 1) after it
  passes_on : Option Listener → Lock Listener  -- at `notify(1)` before leaving the first loop
  starves : Option Listener → Lock Listener  -- at `fetch_add(2)`
  fair_listens : Lock Listener  -- at `lock_ops.listen()` in the second loop
  fair_tries : Option Listener → Lock Listener  -- at the compare-exchange (2, 3)
  fair_passes : Option Listener → Lock Listener  -- at `notify(1)` in the second loop
  fair_waits : Option Listener → Lock Listener  -- at `strategy.poll` in the second loop
  fair_locks : Option Listener → Lock Listener  -- at `fetch_or(1)`
  pending : Bool → Option Listener → Lock Listener  -- between two polls; the flag is `starved`
  takes : Option Listener → Lock Listener  -- at `fetch_sub(2)` of `take_mutex`, locked
  done : Option Listener → Lock Listener  -- after `Poll::Ready`, not dropped yet
  taken : Lock Listener  -- the guard alone is left
  leaves : Option Listener → Lock Listener  -- dropped while starved, at `fetch_sub(2)`
  drops_listener : Option Listener → Lock Listener  -- dropped, at the drop of its listener
  gone : Lock Listener
  aborted : Lock Listener

module _ {Listener : Type 0} where
  -- The head of the first loop, and of the second.
  unfoldable pub hot_loop : Option Listener → Lock Listener
  hot_loop none = listens
  hot_loop (some l) = waits (some l)

  unfoldable pub fair_loop : Option Listener → Lock Listener
  fair_loop none = fair_listens
  fair_loop (some l) = fair_waits (some l)

  -- `take_mutex` of an operation that has the lock.
  unfoldable pub take_mutex : Bool → Option Listener → Lock Listener
  take_mutex starved l = if starved then takes l else done l

  -- The entry of `AcquireSlow`'s poll.
  unfoldable pub resume : Bool → Option Listener → Lock Listener
  unfolding hot_loop fair_loop
  resume starved l = if starved then fair_loop l else hot_loop l

  -- The drop of the future between two polls.
  unfoldable pub drop_pending : Bool → Option Listener → Lock Listener
  drop_pending starved l = if starved then leaves l else drops_listener l

-- `unlock_unchecked` up to its `notify`.
unfoldable pub unlock : {Event T : Type 0} → Mutex Event T → Mutex Event T
unlock s = record s { state = wrapping_sub s.state 1 }

-- Whether it gave a guard.
unfoldable pub try_lock : {Event T : Type 0} → Mutex Event T → Mutex Event T × Bool
try_lock s = if s.state == 0 then (record s { state = 1 }, true) else (s, false)

module _ {Event Listener T : Type 0} where
  -- The fast path of `LockInner`'s poll; `listens` is where a new `AcquireSlow` begins.
  unfoldable pub try_fast : Mutex Event T → Mutex Event T × Lock Listener
  unfolding try_lock
  try_fast s = let (s', guard) = try_lock s in (s', if guard then done none else listens)

  -- The compare-exchange (0, 1) of the first loop, after `listen`.
  unfoldable pub try_first : Mutex Event T → Option Listener → Mutex Event T × Lock Listener
  unfolding take_mutex hot_loop
  try_first s l =
      if s.state == 0
      then (record s { state = 1 }, take_mutex false l)
      else (s, if s.state == 1 then hot_loop l else starves l)

  -- The same after a notification.
  unfoldable pub try_again : Bool → Mutex Event T → Option Listener → Mutex Event T × Lock Listener
  unfolding take_mutex hot_loop
  try_again late s l =
      if s.state == 0
      then (record s { state = 1 }, take_mutex false l)
      else (s, if s.state == 1 then (if late then starves l else hot_loop l) else passes_on l)

  -- `fetch_add(2)`, with its abort.
  unfoldable pub starve : Mutex Event T → Option Listener → Mutex Event T × Lock Listener
  unfolding fair_loop
  starve s l = (
    record s { state = wrapping_add s.state 2 },
    if ltb (usize_max / 2) s.state then aborted else fair_loop l,
  )

  -- The compare-exchange (2, 3) of the second loop, after `listen`.
  unfoldable pub fair_try : Mutex Event T → Option Listener → Mutex Event T × Lock Listener
  unfolding take_mutex fair_loop
  fair_try s l =
      if s.state == 2
      then (record s { state = 3 }, take_mutex true l)
      else (s, if s.state % 2 == 1 then fair_loop l else fair_passes l)

  -- `fetch_or(1)` of the second loop, after a notification.
  unfoldable pub fair_lock : Mutex Event T → Option Listener → Mutex Event T × Lock Listener
  unfolding take_mutex fair_loop
  fair_lock s l = (
    record s { state = or_one s.state },
    if s.state % 2 == 0 then take_mutex true l else fair_loop l,
  )

module _ {Event Listener T : Type 0} (E : EventOps Event Listener) where
  unfoldable pub listen :
      Mutex Event T → (Option Listener → Lock Listener) → Mutex Event T × Lock Listener
  listen s next = let (e, l) = E.listen s.lock_ops in (record s { lock_ops = e }, next (some l))

  unfoldable pub wait :
      Mutex Event T
      → Bool
      → Option Listener
      → (Option Listener → Lock Listener)
      → Mutex Event T × Lock Listener
  wait s starved l next =
      let (e, l', ready) = E.poll s.lock_ops l in
      (record s { lock_ops = e }, if ready then next l' else pending starved l')

  unfoldable pub notify : Mutex Event T → Mutex Event T
  notify s = record s { lock_ops = E.notify 1 s.lock_ops }

  -- One step of the future, at its poll or at its drop: `late` says that 500 microseconds have
  -- passed, `cancel` that a pending future is dropped.
  unfoldable pub poll :
      (late cancel : Bool) → Mutex Event T → Lock Listener → Mutex Event T × Lock Listener
  unfolding resume drop_pending unlock try_fast try_first try_again starve fair_try fair_lock listen
      wait notify
  poll late cancel s unpolled = if cancel then (s, gone) else try_fast s
  poll late cancel s listens = listen s tries_first
  poll late cancel s (tries_first l) = try_first s l
  poll late cancel s (waits l) = wait s false l tries_again
  poll late cancel s (tries_again l) = try_again late s l
  poll late cancel s (passes_on l) = (notify s, starves l)
  poll late cancel s (starves l) = starve s l
  poll late cancel s fair_listens = listen s fair_tries
  poll late cancel s (fair_tries l) = fair_try s l
  poll late cancel s (fair_passes l) = (notify s, fair_loop l)
  poll late cancel s (fair_waits l) = wait s true l fair_locks
  poll late cancel s (fair_locks l) = fair_lock s l
  poll late cancel s (pending starved l) =
      if cancel then (s, drop_pending starved l) else (s, resume starved l)
  poll late cancel s (takes l) = (record s { state = wrapping_sub s.state 2 }, done l)
  poll late cancel s (done l) = (record s { lock_ops = E.drop l s.lock_ops }, taken)
  poll late cancel s taken = (s, taken)
  poll late cancel s (leaves l) = (record s { state = wrapping_sub s.state 2 }, drops_listener l)
  poll late cancel s (drops_listener l) = (record s { lock_ops = E.drop l s.lock_ops }, gone)
  poll late cancel s gone = (s, gone)
  poll late cancel s aborted = (s, aborted)
