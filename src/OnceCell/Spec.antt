-- ===== src/OnceCell/Spec.antt =====
-- src/once_cell.rs: what the cell promises, without words, memory and events: it is empty, somebody is
-- filling it, or it has a value, which then stays.
use async_lock.Base.{Option, none, some}

pub data Cell (T : Type 0) : Type 0 where
  empty busy : Cell T
  full : T → Cell T

pub data Act (T : Type 0) : Type 0 where
  stays : Act T
  starts gives_up : Act T  -- a call that initializes the cell
  fills : T → Act T

-- The cell after an act, if the act is allowed.
unfoldable pub perform : {T : Type 0} → Act T → Cell T → Option (Cell T)
perform stays x = some x
perform starts empty = some busy
perform gives_up busy = some empty
perform (fills v) busy = some (full v)
perform _ _ = none
