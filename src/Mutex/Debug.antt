-- ===== src/Mutex/Debug.antt =====
-- src/mutex.rs: `Debug`, which locks the mutex if it can; no other task takes a step in between.
use async_lock.Base.{ℕ, ◌+◌, ◌^◌, ◌≤◌, ◌≡◌, if◌then◌else◌, ◌==◌, List, arith}
use async_lock.Event.{EventOps}
use async_lock.Tasks.{run, total, length}
use async_lock.Mutex.Acquire.{try_lock, unlock, notify}
use async_lock.Mutex.{Mutex, Call, Choice, init, step}
use async_lock.Mutex.Exclusion.{holding, starved, run-Counted}

-- What is shown for `data`.
pub data Field (T : Type 0) : Type 0 where
  locked : Field T
  data_is : T → Field T

module _ {Event Listener T : Type 0} (E : EventOps Event Listener) where
  unfoldable pub fmt : Mutex Event T → Mutex Event T × Field T
  unfolding try_lock unlock notify
  fmt s =
      let (t, taken) = try_lock s in
      if taken then (notify E (unlock t), data_is t.value) else (t, locked)

  -- `Debug` leaves the word and the value as they are, and shows the value exactly where no task has
  -- the lock and none is starved; at most 2 ^ 62 calls are made.
  fmt_lem :
      (v : T) (calls : List Call) (schedule : List (ℕ × Choice T))
      → length calls ≤ 2 ^ 62
      → let y = run (step E) (init E v calls) schedule in
        let (t, shown) = fmt y.shared in
        (t.state ≡ y.shared.state)
        × (t.value ≡ y.shared.value)
        × (shown ≡ (
            if total holding y.tasks + total starved y.tasks == 0
            then data_is y.shared.value
            else locked))
  unfolding fmt
  fmt_lem v calls schedule n =
      let i = (run-Counted E v calls schedule n).0 in
      (ground (arith, i.exact), ground (arith, i.exact), ground (arith, i.exact))
