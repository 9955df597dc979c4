-- ===== src/OnceCell/Defs.antt =====
-- src/once_cell.rs: the state of the cell, the calls, and where a task may stand.
use async_lock.Base.{ℕ, Bool, Option}

-- `value` is `none` while the memory is uninitialized.
pub record OnceCell (Event T : Type 0) : Type 0 where
  pub active_initializers : Event
  pub passive_waiters : Event
  pub state : ℕ
  pub value : Option T

-- The closure of `get_or_try_init` and `get_or_init`, or that of `set`, which gives its value.
pub data Job (T : Type 0) : Type 0 where
  computes : Job T
  gives : T → Job T

pub data Call (T : Type 0) : Type 0 where
  gets waits : Call T
  initializes : Job T → Call T
  tries_set : T → Call T

-- How a closure ends, where it is the caller's.
pub data Closure (T Error : Type 0) : Type 0 where
  returns : T → Closure T Error
  fails : Error → Closure T Error
  panics : Closure T Error

-- `undefined` stands for the read of uninitialized memory, and `unreachable` for the panic of
-- `From<usize>`.
pub data Outcome (T Error : Type 0) : Type 0 where
  empty accepted panicked cancelled undefined unreachable : Outcome T Error
  gave rejected : T → Outcome T Error
  failed : Error → Outcome T Error

-- Who initializes the cell: `try_set`, or `initialize_or_wait` with its listener and its job.
pub data Caller (Listener T : Type 0) : Type 0 where
  by_try_set : Caller Listener T
  by_init : Job T → Option Listener → Caller Listener T

pub data Pc (Listener T Error : Type 0) : Type 0 where
  ready : Call T → Pc Listener T Error
  get_loads : Pc Listener T Error  -- `get`: at the load
  reads : Pc Listener T Error  -- at `get_unchecked`
  wait_loads : Pc Listener T Error  -- `wait`: at the first `get`
  wait_listens : Pc Listener T Error  -- at `passive_waiters.listen()`
  wait_reloads : Option Listener → Pc Listener T Error  -- at the second `get`
  wait_waits : Option Listener → Pc Listener T Error  -- at the poll of the listener
  wait_pending : Option Listener → Pc Listener T Error  -- between two polls
  wait_drops : Option Listener → Pc Listener T Error  -- at the listener's drop, to return
  wait_leaves : Option Listener → Pc Listener T Error  -- at the listener's drop, cancelled
  init_gets : Job T → Pc Listener T Error  -- `get_or_try_init`: at the first `get`
  init_loads : Job T → Option Listener → Pc Listener T Error  -- at the load in the loop
  init_listens : Job T → Pc Listener T Error  -- at `active_initializers.listen()`
  init_waits : Job T → Option Listener → Pc Listener T Error  -- at `strategy.wait`
  init_pending : Job T → Option Listener → Pc Listener T Error  -- between two polls
  init_leaves : Option Listener → Outcome T Error → Pc Listener T Error  -- at the listener's drop
  init_swaps : Job T → Option Listener → Pc Listener T Error  -- at the compare-exchange
  runs : Job T → Option Listener → Pc Listener T Error  -- at the closure's await, with the guard
  writes : T → Caller Listener T → Pc Listener T Error  -- at `ptr::write`
  stores : Caller Listener T → Pc Listener T Error  -- at the store of `Initialized`
  wakes_active : Caller Listener T → Pc Listener T Error
  wakes_passive : Caller Listener T → Pc Listener T Error
  init_drops : Job T → Bool → Option Listener → Pc Listener T Error  -- at the listener's drop
  rejects : T → Pc Listener T Error  -- `set` with its value left, after the read
  guard_stores : Option Listener → Outcome T Error → Pc Listener T Error  -- the guard's drop
  guard_notifies : Option Listener → Outcome T Error → Pc Listener T Error
  try_set_swaps : T → Pc Listener T Error  -- `try_set`: at the compare-exchange
  ended : Outcome T Error → Pc Listener T Error

-- What the environment chooses: the drop of a future, and how the caller's closure ends.
pub record Choice (T Error : Type 0) : Type 0 where
  pub cancel : Bool
  pub closure : Closure T Error
