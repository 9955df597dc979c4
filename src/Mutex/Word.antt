-- ===== src/Mutex/Word.antt =====
-- src/mutex.rs: what the lock word counts. A step of a `Lock` future, wherever it is embedded, and an
-- unlock keep the word equal to the locked bit plus twice the number of starved operations.
use async_lock.Base.{ℕ, ◌+◌, ◌*◌, ◌^◌, ◌≤◌, ◌<◌, ◌≡◌, Bool, true, false, arith}
use async_lock.Event.{EventOps}
use async_lock.Mutex.Acquire.{
  Mutex, Lock, fair_listens, fair_tries, fair_passes, fair_waits, fair_locks, pending, takes, done,
  taken, leaves, aborted, poll, unlock,
}

module _ {Listener : Type 0} where
  -- The future has set the locked bit.
  abbrev pub locked : Lock Listener → ℕ
  locked (takes _) = 1
  locked (done _) = 1
  locked taken = 1
  locked _ = 0

  -- The future has counted itself as starved.
  abbrev pub starving : Lock Listener → ℕ
  starving fair_listens = 1
  starving (fair_tries _) = 1
  starving (fair_passes _) = 1
  starving (fair_waits _) = 1
  starving (fair_locks _) = 1
  starving (pending true _) = 1
  starving (pending false _) = 0
  starving (takes _) = 1
  starving (leaves _) = 1
  starving aborted = 1
  starving _ = 0

  abbrev pub aborting : Lock Listener → ℕ
  aborting aborted = 1
  aborting _ = 0

-- The word, with `holders` locked bits and `starved` operations; no operation has aborted.
pub record IsCounted (state holders starved failed : ℕ) : Type 0 where
  pub exact : state ≡ holders + 2 * starved
  pub exclusive : holders ≤ 1
  pub running : failed ≡ 0

-- The drop of a guard clears the locked bit.
pub unlock-IsCounted :
    {Event T : Type 0} (s : Mutex Event T) (h v a : ℕ)
    → v < 2 ^ 62
    → IsCounted s.state (1 + h) v a
    → IsCounted (unlock s).state h v a
unfolding unlock
unlock-IsCounted s h v a few i = ground arith

module _ {Event Listener T : Type 0} (E : EventOps Event Listener) where
  -- `h`, `v` and `a` count the other tasks; fewer than 2 ^ 62 of them are starved.
  pub poll-IsCounted :
      (late cancel : Bool) (s : Mutex Event T) (p : Lock Listener) (h v a : ℕ)
      → v < 2 ^ 62
      → IsCounted s.state (locked p + h) (starving p + v) (aborting p + a)
      → let y = poll E late cancel s p in
        IsCounted y.0.state (locked y.1 + h) (starving y.1 + v) (aborting y.1 + a)
  unfolding poll
  poll-IsCounted late cancel s (pending true l) h v a few i = ground arith
  poll-IsCounted late cancel s (pending false l) h v a few i = ground arith
  poll-IsCounted late cancel s p h v a few i = ground arith
