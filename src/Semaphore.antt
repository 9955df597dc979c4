-- ===== src/Semaphore.antt =====
-- src/semaphore.rs: the counter, the calls on it, the future `AcquireInner` and the guard.
-- A task is one call with the future and the guard that it gives; `Pc` says where it stands, with
-- the locals that are live there, and each `step` makes one access to the counter or the event.
pub mod Permits
pub mod Attempts
pub mod Release
pub mod Releases
pub mod Owned
mod Tests
mod OwnedTests
use async_lock.Base.{
  ℕ, ◌-◌, Bool, true, false, not, ◌&&◌, if◌then◌else◌, ◌==◌, Option, none, some, List, map,
  wrapping_add,
}
use async_lock.Event.{EventOps, Caller, direct, in_future}
use async_lock.Tasks.{System}

pub record Semaphore (Event : Type 0) : Type 0 where
  pub count : ℕ
  pub event : Event

-- `try_acquire`, `acquire`, `add_permits` and `available_permits`
pub data Call : Type 0 where
  tries acquires : Call
  adds : ℕ → Call
  reads : Call

pub data Outcome : Type 0 where
  refused cancelled released forgotten : Outcome
  added permits : ℕ → Outcome

pub data Pc (Listener : Type 0) : Type 0 where
  ready : Call → Pc Listener
  loads : Caller Listener → Pc Listener  -- at the load of `try_acquire`
  swaps : Caller Listener → ℕ → Pc Listener  -- at its compare_exchange_weak, with the local `count`
  listens : Pc Listener  -- at `event.listen()`
  waits : Option Listener → Pc Listener  -- at `strategy.poll`
  pending : Option Listener → Pc Listener  -- the future, between two polls
  finished : Option Listener → Pc Listener  -- the future after `Poll::Ready`, not dropped yet
  holds : Pc Listener  -- a live guard
  notifies : Pc Listener  -- at `event.notify(1)` in the guard's drop
  announces : ℕ → Pc Listener  -- at `event.notify(n)` in `add_permits`
  ended : Outcome → Pc Listener

-- What the environment chooses: a spurious failure of the weak compare-exchange, the drop of a
-- pending future, and `forget` in place of the guard's drop.
pub record Choice : Type 0 where
  pub spurious : Bool
  pub cancel : Bool
  pub forget : Bool

unfoldable pub new : {Event Listener : Type 0} → EventOps Event Listener → ℕ → Semaphore Event
new E n = record { count = n; event = E.new }

module _ {Listener : Type 0} where
  -- The poll of `AcquireInner` after `try_acquire` gave `None`; a direct call returns `None`.
  unfoldable pub refuse : Caller Listener → Pc Listener
  refuse direct = ended refused
  refuse (in_future none) = listens
  refuse (in_future (some l)) = waits (some l)

  -- The guard: returned by a direct call, or by a future that is dropped after it.
  unfoldable pub succeed : Caller Listener → Pc Listener
  succeed direct = holds
  succeed (in_future l) = finished l

  -- The head of the loop in `try_acquire`, with the local `count`.
  unfoldable pub try_acquire : Caller Listener → ℕ → Pc Listener
  unfolding refuse
  try_acquire k count = if count == 0 then refuse k else swaps k count

unfoldable pub available_permits : {Event : Type 0} → Semaphore Event → ℕ
available_permits s = s.count

module _ {Event Listener : Type 0} where
  -- The compare-exchange of the same loop.
  unfoldable pub exchange :
      Choice → Semaphore Event → Caller Listener → ℕ → Semaphore Event × Pc Listener
  unfolding try_acquire succeed
  exchange c s k count =
      if not c.spurious && s.count == count
      then (record s { count = count - 1 }, succeed k)
      else (s, try_acquire k s.count)

  unfoldable pub add_permits : Semaphore Event → ℕ → Semaphore Event × Pc Listener
  add_permits s n = (record s { count = wrapping_add s.count n }, announces n)

  unfoldable pub start : Semaphore Event → Call → Semaphore Event × Pc Listener
  unfolding add_permits available_permits
  start s tries = (s, loads direct)
  start s acquires = (s, pending none)
  start s (adds n) = add_permits s n
  start s reads = (s, ended (permits (available_permits s)))

  -- `SemaphoreGuard::drop` up to its `notify`.
  unfoldable pub drop_guard : Semaphore Event → Semaphore Event × Pc Listener
  drop_guard s = (record s { count = wrapping_add s.count 1 }, notifies)

module _ {Event Listener : Type 0} (E : EventOps Event Listener) where
  unfoldable pub listen : Semaphore Event → Semaphore Event × Pc Listener
  listen s = let (e, l) = E.listen s.event in (record s { event = e }, loads (in_future (some l)))

  unfoldable pub poll_listener : Semaphore Event → Option Listener → Semaphore Event × Pc Listener
  poll_listener s l =
      let (e, l', done) = E.poll s.event l in
      (record s { event = e }, if done then loads (in_future l') else pending l')

  unfoldable pub step : Choice → Semaphore Event → Pc Listener → Semaphore Event × Pc Listener
  unfolding start try_acquire exchange listen poll_listener drop_guard
  step c s (ready call) = start s call
  step c s (loads k) = (s, try_acquire k s.count)
  step c s (swaps k count) = exchange c s k count
  step c s listens = listen s
  step c s (waits l) = poll_listener s l
  step c s (pending l) =
      if c.cancel
      then (record s { event = E.drop l s.event }, ended cancelled)
      else (s, loads (in_future l))
  step c s (finished l) = (record s { event = E.drop l s.event }, holds)
  step c s holds = if c.forget then (s, ended forgotten) else drop_guard s
  step c s notifies = (record s { event = E.notify 1 s.event }, ended released)
  step c s (announces n) = (record s { event = E.notify n s.event }, ended (added n))
  step c s (ended o) = (s, ended o)

  -- A semaphore with `n` permits and the calls that will be made on it.
  unfoldable pub init : ℕ → List Call → System (Semaphore Event) (Pc Listener)
  unfolding new
  init n calls = record { shared = new E n; tasks = map ready calls }
