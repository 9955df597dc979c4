-- ===== src/OnceCell/Stored.antt =====
-- src/once_cell.rs: the listener of `passive_waiters` that a call of `wait` stores, step by step.
use async_lock.Base.{
  ℕ, ◌≤◌, ◌≡◌, ◌≢◌, ◌⊎◌, inl, inr, refl, false, Bool-cases, Option, none, some, arith, usize_max,
}
use async_lock.Event.{EventOps, IsRegistering}
use async_lock.Listeners.{Uses}
use async_lock.OnceCell.{
  OnceCell, computes, gives, gets, waits, initializes, tries_set, by_try_set, by_init, Pc, ready,
  wait_listens, wait_reloads, wait_waits, wait_pending, wait_drops, wait_leaves, init_gets, runs,
  wakes_active, wakes_passive, init_drops, Choice, step,
}

module _ {Listener T Error : Type 0} where
  -- The listener of `passive_waiters` that the task stores.
  abbrev pub listener : Pc Listener T Error → Option Listener
  listener (wait_reloads l) = l
  listener (wait_waits l) = l
  listener (wait_pending l) = l
  listener (wait_drops l) = l
  listener (wait_leaves l) = l
  listener _ = none

  -- The listener that it waits for.
  abbrev pub waits_for : Pc Listener T Error → Option Listener
  waits_for (wait_waits l) = l
  waits_for (wait_pending l) = l
  waits_for _ = none

  -- It has stored `Initialized` and is about to notify.
  abbrev pub announcing : Pc Listener T Error → ℕ
  announcing (wakes_active _) = 1
  announcing (wakes_passive _) = 1
  announcing _ = 0

  pub waits_for-listener :
      (p : Pc Listener T Error) (l : Listener) → waits_for p ≡ some l → listener p ≡ some l
  waits_for-listener (wait_waits k) l e = e
  waits_for-listener (wait_pending k) l e = e
  waits_for-listener p l e = absurd cc

  -- It waits without a listener.
  abbrev pub deaf : Pc Listener T Error → ℕ
  deaf (wait_reloads none) = 1
  deaf (wait_waits none) = 1
  deaf (wait_pending none) = 1
  deaf _ = 0

module _ {Event Listener T Error : Type 0} (E : EventOps Event Listener)
    (Listening Notified : Event → Listener → Type 0) (R : IsRegistering E Listening Notified) where
  pub step-deaf :
      (c : Choice T Error) (s : OnceCell Event T) (p : Pc Listener T Error)
      → deaf p ≡ 0
      → deaf (step E c s p).1 ≡ 0
  unfolding step
  step-deaf c s (ready gets) h = refl
  step-deaf c s (ready waits) h = refl
  step-deaf c s (ready (initializes job)) h = refl
  step-deaf c s (ready (tries_set v)) h = refl
  step-deaf c s (wait_reloads (some l)) h = ground arith
  step-deaf c s (wait_waits (some l)) h = ground (arith, R.poll_unready s.passive_waiters l)
  step-deaf c s (wait_pending (some l)) h = ground arith
  step-deaf c s (init_gets computes) h = ground arith
  step-deaf c s (init_gets (gives v)) h = ground arith
  step-deaf c s (runs computes l) h = ground arith
  step-deaf c s (runs (gives v) l) h = ground arith
  step-deaf c s (wakes_passive by_try_set) h = ground arith
  step-deaf c s (wakes_passive (by_init job l)) h = ground arith
  step-deaf c s (init_drops computes own l) h = ground arith
  step-deaf c s (init_drops (gives v) own l) h = ground arith
  step-deaf c s p h = ground arith

  pub step-Uses :
      (c : Choice T Error) (s : OnceCell Event T) (p : Pc Listener T Error)
      → deaf p ≡ 0
      → let y = step E c s p in
        Uses E s.passive_waiters (listener p) y.0.passive_waiters (listener y.1)
  unfolding step
  step-Uses c s (ready gets) h = ground arith
  step-Uses c s (ready waits) h = ground arith
  step-Uses c s (ready (initializes job)) h = ground arith
  step-Uses c s (ready (tries_set v)) h = ground arith
  step-Uses c s wait_listens h = inr (inl (refl, refl, refl))
  step-Uses c s (wait_reloads (some l)) h = ground arith
  step-Uses c s (wait_waits (some l)) h =
      inr (inr (inr (inl (l, refl, refl, ground (arith, R.poll_ready s.passive_waiters l)))))
  step-Uses c s (wait_pending (some l)) h = ground arith
  step-Uses c s (wait_drops l) h = inr (inr (inr (inr (refl, refl))))
  step-Uses c s (wait_leaves l) h = inr (inr (inr (inr (refl, refl))))
  step-Uses c s (init_gets computes) h = ground arith
  step-Uses c s (init_gets (gives v)) h = ground arith
  step-Uses c s (runs computes l) h = ground arith
  step-Uses c s (runs (gives v) l) h = ground arith
  step-Uses c s (wakes_passive by_try_set) h = inr (inr (inl (usize_max, inr refl, refl)))
  step-Uses c s (wakes_passive (by_init job l)) h = inr (inr (inl (usize_max, inr refl, refl)))
  step-Uses c s (init_drops computes own l) h = ground arith
  step-Uses c s (init_drops (gives v) own l) h = ground arith
  step-Uses c s p h = ground arith

  -- A step that initializes the cell is about to notify; one that is no longer about to has notified.
  pub step-announcing :
      (c : Choice T Error) (s : OnceCell Event T) (p : Pc Listener T Error)
      → let y = step E c s p in
        ((s.state ≢ 2) → (y.0.state ≢ 2) ⊎ (announcing y.1 ≡ 1))
        × ((announcing p ≤ announcing y.1)
            ⊎ (y.0.passive_waiters ≡ E.notify_additional usize_max s.passive_waiters))
  unfolding step
  step-announcing c s (ready gets) = ground arith
  step-announcing c s (ready waits) = ground arith
  step-announcing c s (ready (initializes job)) = ground arith
  step-announcing c s (ready (tries_set v)) = ground arith
  step-announcing c s (init_gets computes) = ground arith
  step-announcing c s (init_gets (gives v)) = ground arith
  step-announcing c s (runs computes l) = ground arith
  step-announcing c s (runs (gives v) l) = ground arith
  step-announcing c s (wakes_passive k) = (λ d. inl d, inr refl)
  step-announcing c s (init_drops computes own l) = ground arith
  step-announcing c s (init_drops (gives v) own l) = ground arith
  step-announcing c s p = ground arith

  -- A task waits after a step only if it found the cell not initialized, or waited before for the same
  -- listener, which was not ready.
  pub step-waits_for :
      (c : Choice T Error) (s : OnceCell Event T) (p : Pc Listener T Error)
      → deaf p ≡ 0
      → let y = step E c s p in
        (waits_for y.1 ≡ none)
        ⊎ ((y.0.state ≢ 2)
            ⊎ ((waits_for p ≡ listener p)
                × (listener y.1 ≡ listener p)
                × (y.0.state ≡ s.state)
                × (announcing p ≡ announcing y.1)
                × ((y.0.passive_waiters ≡ s.passive_waiters)
                    ⊎ ((k : Listener) × (listener p ≡ some k)
                        × ((E.poll s.passive_waiters (some k)).2 ≡ false)))))
  unfolding step
  step-waits_for c s (ready gets) h = inl refl
  step-waits_for c s (ready waits) h = inl refl
  step-waits_for c s (ready (initializes job)) h = inl refl
  step-waits_for c s (ready (tries_set v)) h = inl refl
  step-waits_for c s (wait_reloads (some l)) h = ground arith
  step-waits_for c s (wait_waits (some l)) h =
      elim (Bool-cases (E.poll s.passive_waiters (some l)).2) [
        | inl e ↦ inl (rw e refl)
        | inr e ↦ inr (
            inr (
              refl,
              rw e (R.poll_unready s.passive_waiters l e).0,
              refl,
              rw e refl,
              inr (l, refl, e),
            ))
      ]
  step-waits_for c s (wait_pending (some l)) h = ground arith
  step-waits_for c s (init_gets computes) h = ground arith
  step-waits_for c s (init_gets (gives v)) h = ground arith
  step-waits_for c s (runs computes l) h = ground arith
  step-waits_for c s (runs (gives v) l) h = ground arith
  step-waits_for c s (wakes_passive by_try_set) h = inl refl
  step-waits_for c s (wakes_passive (by_init job l)) h = inl refl
  step-waits_for c s (init_drops computes own l) h = ground arith
  step-waits_for c s (init_drops (gives v) own l) h = ground arith
  step-waits_for c s p h = ground arith
