-- ===== src/RwLock/Spec.antt =====
-- src/rwlock.rs: what the lock promises, without words, mutex and events: how many tasks read, whether
-- a task claims write access, and whether it has it. No reader enters once a writer has claimed.
use async_lock.Base.{ℕ, ◌+◌, ◌-◌, ◌&&◌, if◌then◌else◌, ◌==◌, Option, none, some}

pub record Access : Type 0 where
  pub readers : ℕ
  pub claimed : ℕ
  pub written : ℕ

pub data Act : Type 0 where
  stays : Act
  enters leaves : Act  -- a reader
  claims gives_up : Act  -- a writer that waits for readers
  admits : Act  -- the waiting writer gets write access
  takes : Act  -- a writer that need not wait
  releases : Act  -- the end of write access
  upgrades : Act  -- a reader becomes a waiting writer
  takes_over : Act  -- the only reader becomes the writer
  downgrades : Act  -- the writer becomes a reader

-- The state after an act, if the act is allowed.
unfoldable pub perform : Act → Access → Option Access
perform stays a = some a
perform enters a = if a.claimed == 0 then some (record a { readers = a.readers + 1 }) else none
perform leaves a = if a.readers == 0 then none else some (record a { readers = a.readers - 1 })
perform claims a = if a.claimed == 0 then some (record a { claimed = 1 }) else none
perform gives_up a =
    if a.claimed == 1 && a.written == 0 then some (record a { claimed = 0 }) else none
perform admits a =
    if a.claimed == 1 && a.readers == 0 && a.written == 0
    then some (record a { written = 1 })
    else none
perform takes a =
    if a.claimed == 0 && a.readers == 0
    then some (record { readers = 0; claimed = 1; written = 1 })
    else none
perform releases a = if a.written == 1 then some (record a { claimed = 0; written = 0 }) else none
perform upgrades a =
    if a.readers == 0
    then none
    else if a.claimed == 0
    then some (record a { readers = a.readers - 1; claimed = 1 })
    else none
perform takes_over a =
    if a.claimed == 0 && a.readers == 1
    then some (record { readers = 0; claimed = 1; written = 1 })
    else none
perform downgrades a =
    if a.written == 1
    then some (record { readers = a.readers + 1; claimed = 0; written = 0 })
    else none
