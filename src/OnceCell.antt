-- ===== src/OnceCell.antt =====
-- src/once_cell.rs: the cell, its state word, the calls that share it and the futures they make. A
-- task is one call; each step makes one access to the state, the value or an event.
pub mod Defs
pub mod Word
pub mod Owned
pub mod Single
pub mod Exclusive
pub mod Dropped
pub mod Spec
pub mod Refine
pub mod Debug
pub mod Awake
pub mod Stored
pub mod Passive
mod Tests
pub use Defs.*
use async_lock.Base.{
  ℕ, Bool, true, false, if◌then◌else◌, ◌==◌, Option, none, some, List, map, usize_max,
}
use async_lock.Event.{EventOps}
use async_lock.Tasks.{System}
use Word.{State, uninitialized, initializing, initialized, from_usize, to_usize}

unfoldable pub new : {Event Listener T : Type 0} → EventOps Event Listener → OnceCell Event T
unfolding to_usize
new E = record {
  active_initializers = E.new;
  passive_waiters = E.new;
  state = to_usize uninitialized;
  value = none;
}

-- `From<T>`
unfoldable pub from : {Event Listener T : Type 0} → EventOps Event Listener → T → OnceCell Event T
unfolding to_usize
from E v = record {
  active_initializers = E.new;
  passive_waiters = E.new;
  state = to_usize initialized;
  value = some v;
}

module _ {Listener T Error : Type 0} where
  -- A fast path: `get`, with what follows if the cell is initialized and if it is not.
  unfoldable pub if_initialized :
      ℕ → Pc Listener T Error → Pc Listener T Error → Pc Listener T Error
  unfolding from_usize
  if_initialized state yes_pc no_pc = elim (from_usize state) [
    | none ↦ ended unreachable
    | some uninitialized ↦ no_pc
    | some initializing ↦ no_pc
    | some initialized ↦ yes_pc
  ]

  -- What `get_or_try_init` returns when another task has initialized the cell: the value, and for
  -- `set` the value that it was given.
  unfoldable pub found : Job T → Pc Listener T Error
  found computes = reads
  found (gives v) = rejects v

  unfoldable pub init_blocked : Job T → Option Listener → Pc Listener T Error
  init_blocked job none = init_listens job
  init_blocked job (some l) = init_waits job (some l)

  -- The match in the loop of `initialize_or_wait`.
  unfoldable pub initialize_or_wait : Job T → ℕ → Option Listener → Pc Listener T Error
  unfolding from_usize init_blocked
  initialize_or_wait job state l = elim (from_usize state) [
    | none ↦ ended unreachable
    | some uninitialized ↦ init_swaps job l
    | some initializing ↦ init_blocked job l
    | some initialized ↦ init_drops job false l
  ]

  -- The end of the closure's await, or the drop of the future there.
  unfoldable pub run_closure : Choice T Error → Job T → Option Listener → Pc Listener T Error
  run_closure c (gives v) l = writes v (by_init (gives v) l)
  run_closure c computes l = if c.cancel then guard_stores l cancelled else elim c.closure [
    | returns v ↦ writes v (by_init computes l)
    | fails e ↦ guard_stores l (failed e)
    | panics ↦ guard_stores l panicked
  ]

  -- What follows the last notification of an initializer.
  unfoldable pub finish : Caller Listener T → Pc Listener T Error
  finish by_try_set = ended accepted
  finish (by_init job l) = init_drops job true l

  unfoldable pub start : Call T → Pc Listener T Error
  start gets = get_loads
  start waits = wait_loads
  start (initializes job) = init_gets job
  start (tries_set v) = try_set_swaps v

module _ {Event Listener T Error : Type 0} where
  unfoldable pub get_unchecked : OnceCell Event T → (T → Outcome T Error) → Pc Listener T Error
  get_unchecked s o = elim s.value [ none ↦ ended undefined | some v ↦ ended (o v) ]

  unfoldable pub try_set : OnceCell Event T → T → OnceCell Event T × Pc Listener T Error
  unfolding to_usize
  try_set s v =
      if s.state == to_usize uninitialized
      then (record s { state = to_usize initializing }, writes v by_try_set)
      else (s, ended (rejected v))

  unfoldable pub init_swap :
      OnceCell Event T → Job T → Option Listener → OnceCell Event T × Pc Listener T Error
  unfolding to_usize
  init_swap s job l =
      if s.state == to_usize uninitialized
      then (record s { state = to_usize initializing }, runs job l)
      else (s, init_loads job l)

module _ {Event Listener T : Type 0} (E : EventOps Event Listener) where
  unfoldable pub drop_active : OnceCell Event T → Option Listener → OnceCell Event T
  drop_active s l = record s { active_initializers = E.drop l s.active_initializers }

  unfoldable pub drop_passive : OnceCell Event T → Option Listener → OnceCell Event T
  drop_passive s l = record s { passive_waiters = E.drop l s.passive_waiters }

module _ {Event Listener T Error : Type 0} (E : EventOps Event Listener) where
  unfoldable pub wait_poll :
      OnceCell Event T → Option Listener → OnceCell Event T × Pc Listener T Error
  wait_poll s l =
      let (e, l', woken) = E.poll s.passive_waiters l in
      (record s { passive_waiters = e }, if woken then reads else wait_pending l')

  unfoldable pub init_poll :
      OnceCell Event T → Job T → Option Listener → OnceCell Event T × Pc Listener T Error
  init_poll s job l =
      let (e, l', woken) = E.poll s.active_initializers l in
      (
        record s { active_initializers = e },
        if woken then init_loads job none else init_pending job l',
      )

  unfoldable pub step :
      Choice T Error
      → OnceCell Event T
      → Pc Listener T Error
      → OnceCell Event T × Pc Listener T Error
  unfolding start if_initialized found initialize_or_wait run_closure finish get_unchecked try_set
      init_swap wait_poll init_poll drop_active drop_passive to_usize
  step c s (ready call) = (s, start call)
  step c s get_loads = (s, if_initialized s.state reads (ended empty))
  step c s reads = (s, get_unchecked s gave)
  step c s wait_loads = (s, if_initialized s.state reads wait_listens)
  step c s wait_listens =
      let (e, l) = E.listen s.passive_waiters in
      (record s { passive_waiters = e }, wait_reloads (some l))
  step c s (wait_reloads l) = (s, if_initialized s.state (wait_drops l) (wait_waits l))
  step c s (wait_waits l) = wait_poll s l
  step c s (wait_pending l) = (s, if c.cancel then wait_leaves l else wait_waits l)
  step c s (wait_drops l) = (drop_passive E s l, reads)
  step c s (wait_leaves l) = (drop_passive E s l, ended cancelled)
  step c s (init_gets job) = (s, if_initialized s.state (found job) (init_loads job none))
  step c s (init_loads job l) = (s, initialize_or_wait job s.state l)
  step c s (init_listens job) =
      let (e, l) = E.listen s.active_initializers in
      (record s { active_initializers = e }, init_loads job (some l))
  step c s (init_waits job l) = init_poll s job l
  step c s (init_pending job l) =
      (s, if c.cancel then init_leaves l cancelled else init_waits job l)
  step c s (init_leaves l o) = (drop_active E s l, ended o)
  step c s (init_swaps job l) = init_swap s job l
  step c s (runs job l) = (s, run_closure c job l)
  step c s (writes v k) = (record s { value = some v }, stores k)
  step c s (stores k) = (record s { state = to_usize initialized }, wakes_active k)
  step c s (wakes_active k) = (
    record s { active_initializers = E.notify_additional usize_max s.active_initializers },
    wakes_passive k,
  )
  step c s (wakes_passive k) =
      (record s { passive_waiters = E.notify_additional usize_max s.passive_waiters }, finish k)
  step c s (init_drops job own l) = (drop_active E s l, if own then reads else found job)
  step c s (rejects v) = (s, get_unchecked s (λ _. rejected v))
  step c s (guard_stores l o) = (record s { state = to_usize uninitialized }, guard_notifies l o)
  step c s (guard_notifies l o) =
      (record s { active_initializers = E.notify 1 s.active_initializers }, init_leaves l o)
  step c s (try_set_swaps v) = try_set s v
  step c s (ended o) = (s, ended o)

  -- A new cell and the calls that will be made on it.
  unfoldable pub init : List (Call T) → System (OnceCell Event T) (Pc Listener T Error)
  unfolding new
  init calls = record { shared = new E; tasks = map ready calls }
