-- ===== src/Barrier.antt =====
-- src/barrier.rs: the barrier, its state under a mutex, and the future `BarrierWaitInner`. A task is
-- one call of `wait`. Each step makes one access to the mutex or the event; what the owner of the
-- mutex's guard does with the count and the generation is one step.
pub mod Seats
pub mod Rounds
pub mod Exclusion
pub mod Section
pub mod Stored
pub mod Wakeup
mod Tests
use async_lock.Base.{
  ℕ, Bool, true, false, ◌&&◌, if◌then◌else◌, ◌==◌, ltb, Option, none, some, List, map, usize_max,
  wrapping_add,
}
use async_lock.Event.{EventOps}
use async_lock.Tasks.{System}
use async_lock.Mutex.Acquire.{Mutex, Lock, unpolled, taken, gone, poll, unlock, notify}

pub record State : Type 0 where
  pub count : ℕ
  pub generation_id : ℕ

pub record Barrier (Event : Type 0) : Type 0 where
  pub n : ℕ
  pub state : Mutex Event State
  pub event : Event

-- The flag of a cancelled call says whether it had been counted.
pub data Outcome : Type 0 where
  leader follower : Outcome
  cancelled : Bool → Outcome

-- What follows the release of the mutex: the wait for the event, with `local_gen`, or the return.
pub data After (Listener : Type 0) : Type 0 where
  wait_next : ℕ → Option Listener → After Listener
  return_next : Outcome → Option Listener → After Listener

pub data Pc (Listener : Type 0) : Type 0 where
  initial : Lock Listener → Pc Listener  -- `WaitState::Initial`: the mutex's future
  arrives : Pc Listener  -- with the guard, at the count
  listens : ℕ → Option Listener → Pc Listener  -- at `event.listen()`, with the old `evl`
  replaces : ℕ → Option Listener → Option Listener → Pc Listener  -- at the drop of the old `evl`
  announces : Pc Listener  -- the leader, at `event.notify(usize::MAX)`
  unlocks : After Listener → Pc Listener  -- at the `fetch_sub` of the guard's drop
  notifies : After Listener → Pc Listener  -- at its `notify(1)`
  waits : ℕ → Option Listener → Pc Listener  -- `WaitState::Waiting`: at `strategy.poll`
  pending : ℕ → Option Listener → Pc Listener  -- the same, between two polls
  reacquiring : ℕ → Option Listener → Lock Listener → Pc Listener  -- `WaitState::Reacquiring`
  checks : ℕ → Option Listener → Pc Listener  -- with the guard, at the check
  leaves : Outcome → Option Listener → Pc Listener  -- at the drop of `evl`
  ended : Outcome → Pc Listener

-- What the environment chooses: whether 500 microseconds have passed in the mutex's future, and
-- whether a pending future is dropped. The mutex's future that `Waiting` makes is polled at once.
pub record Choice : Type 0 where
  pub late : Bool
  pub cancel : Bool

unfoldable pub new : {Event Listener : Type 0} → EventOps Event Listener → ℕ → Barrier Event
new E n = record {
  n = n;
  state = record { state = 0; lock_ops = E.new; value = record { count = 0; generation_id = 0 } };
  event = E.new;
}

module _ {Listener : Type 0} where
  -- `Barrier::wait`
  abbrev pub wait : Pc Listener
  wait = initial unpolled

  -- The poll of the mutex's future: ready and dropped, dropped before, or still there.
  unfoldable pub then_arrive : Lock Listener → Pc Listener
  then_arrive taken = arrives
  then_arrive gone = ended (cancelled false)
  then_arrive l = initial l

  unfoldable pub then_check : ℕ → Option Listener → Lock Listener → Pc Listener
  then_check g evl taken = checks g evl
  then_check g evl gone = leaves (cancelled true) evl
  then_check g evl l = reacquiring g evl l

  unfoldable pub continue : After Listener → Pc Listener
  continue (wait_next g evl) = waits g evl
  continue (return_next o evl) = leaves o evl

unfoldable pub set_state : {Event : Type 0} → Barrier Event → State → Barrier Event
set_state s v = record s { state = record s.state { value = v } }

module _ {Event Listener : Type 0} where
  -- `WaitState::Initial` with the guard.
  unfoldable pub arrive : Barrier Event → Barrier Event × Pc Listener
  unfolding set_state
  arrive s =
      let local_gen = s.state.value.generation_id in
      let count = wrapping_add s.state.value.count 1 in
      if ltb count s.n
      then (
        set_state s (record { count = count; generation_id = local_gen }),
        listens local_gen none,
      )
      else (set_state s (record { count = 0; generation_id = wrapping_add local_gen 1 }), announces)

  -- `WaitState::Reacquiring` with the guard.
  unfoldable pub check : Barrier Event → ℕ → Option Listener → Pc Listener
  check s local_gen evl =
      if local_gen == s.state.value.generation_id && ltb s.state.value.count s.n
      then listens local_gen evl
      else unlocks (return_next follower evl)

module _ {Event Listener : Type 0} (E : EventOps Event Listener) where
  -- `WaitState::Waiting`; a ready listener makes a new future of the mutex.
  unfoldable pub wait_event : Barrier Event → ℕ → Option Listener → Barrier Event × Pc Listener
  wait_event s g evl =
      let (e, evl', woken) = E.poll s.event evl in
      (record s { event = e }, if woken then reacquiring g evl' unpolled else pending g evl')

  unfoldable pub step : Choice → Barrier Event → Pc Listener → Barrier Event × Pc Listener
  unfolding then_arrive then_check continue arrive check wait_event poll unlock notify
  step c s (initial l) =
      let (m, l') = poll E c.late c.cancel s.state l in (record s { state = m }, then_arrive l')
  step c s arrives = arrive s
  step c s (listens g evl) =
      let (e, l) = E.listen s.event in (record s { event = e }, replaces g evl (some l))
  step c s (replaces g old evl) =
      (record s { event = E.drop old s.event }, unlocks (wait_next g evl))
  step c s announces =
      (record s { event = E.notify usize_max s.event }, unlocks (return_next leader none))
  step c s (unlocks a) = (record s { state = unlock s.state }, notifies a)
  step c s (notifies a) = (record s { state = notify E s.state }, continue a)
  step c s (waits g evl) = wait_event s g evl
  step c s (pending g evl) = (s, if c.cancel then leaves (cancelled true) evl else waits g evl)
  step c s (reacquiring g evl unpolled) =
      let (m, l') = poll E c.late false s.state unpolled in
      (record s { state = m }, then_check g evl l')
  step c s (reacquiring g evl l) =
      let (m, l') = poll E c.late c.cancel s.state l in
      (record s { state = m }, then_check g evl l')
  step c s (checks g evl) = (s, check s g evl)
  step c s (leaves o evl) = (record s { event = E.drop evl s.event }, ended o)
  step c s (ended o) = (s, ended o)

  -- A barrier of `n` and `calls` calls of `wait`.
  unfoldable pub init : ℕ → List (Unit {0}) → System (Barrier Event) (Pc Listener)
  unfolding new
  init n calls = record { shared = new E n; tasks = map (λ _. wait) calls }
