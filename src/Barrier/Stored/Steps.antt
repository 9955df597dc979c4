-- ===== src/Barrier/Stored/Steps.antt =====
-- src/barrier.rs: what one step does with the stored listener and the round.
use async_lock.Base.{
  ◌≤◌, ◌≡◌, ◌⊎◌, inl, inr, refl, ap, Bool, false, Bool-cases, none, some, arith, usize_max,
}
use async_lock.Event.{EventOps, IsRegistering}
use async_lock.Mutex.Acquire.{Lock, unpolled, poll}
use async_lock.Mutex.Protection.{poll-value}
use async_lock.Listeners.{Uses}
use async_lock.Barrier.{
  Barrier, wait_next, return_next, Pc, initial, arrives, listens, replaces, announces, unlocks,
  notifies, waits, pending, reacquiring, checks, leaves, Choice, step,
}
use async_lock.Barrier.Exclusion.{holding}
use async_lock.Barrier.Stored.{
  generation, listener, waits_in, announcing, stray, lost, bare-then_arrive, bare-then_check,
  then_arrive-lost, then_check-lost, then_arrive-waits_in, then_check-waits_in, stray-then_arrive,
  stray-then_check,
}

module _ {Event Listener : Type 0} (E : EventOps Event Listener)
    (Listening Notified : Event → Listener → Type 0) (R : IsRegistering E Listening Notified) where
  pub step-stray :
      (c : Choice) (s : Barrier Event) (p : Pc Listener) → stray p ≡ 0 → stray (step E c s p).1 ≡ 0
  unfolding step
  step-stray c s (initial l) h = stray-then_arrive (poll E c.late c.cancel s.state l).1
  step-stray c s (listens g none) h = ground arith
  step-stray c s (replaces g none (some l)) h = ground arith
  step-stray c s (unlocks (wait_next g (some l))) h = ground arith
  step-stray c s (unlocks (return_next o l)) h = ground arith
  step-stray c s (notifies (wait_next g (some l))) h = ground arith
  step-stray c s (notifies (return_next o l)) h = ground arith
  step-stray c s (waits g (some l)) h =
      ground (arith, R.poll_unready s.event l, R.poll_ready s.event l)
  step-stray c s (pending g (some l)) h = ground arith
  step-stray c s (reacquiring g none unpolled) h =
      stray-then_check g (poll E c.late false s.state unpolled).1
  step-stray c s (reacquiring g none l) h = stray-then_check g (poll E c.late c.cancel s.state l).1
  step-stray c s (checks g none) h = ground arith
  step-stray c s p h = ground arith

  pub step-Uses :
      (c : Choice) (s : Barrier Event) (p : Pc Listener)
      → stray p ≡ 0
      → let y = step E c s p in Uses E s.event (listener p) y.0.event (listener y.1)
  unfolding step
  step-Uses c s (initial l) h =
      inl (refl, inl (bare-then_arrive (poll E c.late c.cancel s.state l).1))
  step-Uses c s (listens g none) h = inr (inl (refl, refl, refl))
  step-Uses c s (replaces g none (some l)) h = inl (R.drop_none s.event, inl refl)
  step-Uses c s announces h = inr (inr (inl (usize_max, inl refl, refl)))
  step-Uses c s (unlocks a) h = inl (refl, inl refl)
  step-Uses c s (notifies (wait_next g l)) h = inl (refl, inl refl)
  step-Uses c s (notifies (return_next o l)) h = inl (refl, inl refl)
  step-Uses c s (waits g (some l)) h =
      inr (inr (inr (inl (l, refl, refl, ground (arith, R.poll_ready s.event l)))))
  step-Uses c s (pending g (some l)) h = ground arith
  step-Uses c s (reacquiring g none unpolled) h =
      inl (refl, inl (bare-then_check g (poll E c.late false s.state unpolled).1))
  step-Uses c s (reacquiring g none l) h =
      inl (refl, inl (bare-then_check g (poll E c.late c.cancel s.state l).1))
  step-Uses c s (checks g none) h = ground arith
  step-Uses c s (leaves o l) h = inr (inr (inr (inr (refl, refl))))
  step-Uses c s p h = ground arith

  -- What the mutex's future leaves alone.
  poll-generation :
      (late cancel : Bool) (s : Barrier Event) (l : Lock Listener)
      → (poll E late cancel s.state l).0.value.generation_id ≡ generation s
  poll-generation late cancel s l = ap (λ v. v.generation_id) (poll-value E late cancel s.state l)

  -- A new round is about to be announced; a leader that is no longer about to has notified.
  pub step-generation :
      (c : Choice) (s : Barrier Event) (p : Pc Listener)
      → let y = step E c s p in
        ((generation y.0 ≡ generation s) ⊎ ((holding p ≡ 1) × (announcing y.1 ≡ 1)))
        × ((announcing p ≤ announcing y.1) ⊎ (y.0.event ≡ E.notify usize_max s.event))
  unfolding step
  step-generation c s (initial l) = (inl (poll-generation c.late c.cancel s l), inl (omega arith))
  step-generation c s arrives = ground arith
  step-generation c s announces = (inl refl, inr refl)
  step-generation c s (reacquiring g evl unpolled) =
      (inl (poll-generation c.late false s unpolled), inl (omega arith))
  step-generation c s (reacquiring g evl l) =
      (inl (poll-generation c.late c.cancel s l), inl (omega arith))
  step-generation c s p = (inl refl, inl (omega arith))

  pub step-lost :
      (c : Choice) (s : Barrier Event) (p : Pc Listener)
      → lost (generation s) p ≡ 0
      → lost (generation (step E c s p).0) (step E c s p).1 ≡ 0
  unfolding step
  step-lost c s (initial l) h = then_arrive-lost _ (poll E c.late c.cancel s.state l).1
  step-lost c s arrives h = ground arith
  step-lost c s (unlocks a) h = ground arith
  step-lost c s (notifies (wait_next g l)) h = refl
  step-lost c s (notifies (return_next o l)) h = refl
  step-lost c s (waits g l) h = ground arith
  step-lost c s (pending g l) h = ground arith
  step-lost c s (reacquiring g evl unpolled) h =
      then_check-lost (poll E c.late false s.state unpolled).0.value.generation_id g evl
        (poll E c.late false s.state unpolled).1
  step-lost c s (reacquiring g evl l) h =
      then_check-lost (poll E c.late c.cancel s.state l).0.value.generation_id g evl
        (poll E c.late c.cancel s.state l).1
  step-lost c s (checks g l) h = ground arith
  step-lost c s p h = refl

  pub step-waits_in :
      (c : Choice) (s : Barrier Event) (p : Pc Listener)
      → stray p ≡ 0
      → lost (generation s) p ≡ 0
      → let y = step E c s p in
        (waits_in y.1 ≡ none)
        ⊎ ((waits_in y.1 ≡ some (generation y.0))
            ⊎ ((waits_in y.1 ≡ waits_in p)
                × (listener y.1 ≡ listener p)
                × (generation y.0 ≡ generation s)
                × (announcing p ≡ announcing y.1)
                × ((y.0.event ≡ s.event)
                    ⊎ ((k : Listener) × (listener p ≡ some k)
                        × ((E.poll s.event (some k)).2 ≡ false)))))
  unfolding step
  step-waits_in c s (initial l) h f =
      inl (then_arrive-waits_in (poll E c.late c.cancel s.state l).1)
  step-waits_in c s arrives h f = inl (ground arith)
  step-waits_in c s (listens g l) h f = inr (inl (ap some (ground arith)))
  step-waits_in c s (replaces g none (some l)) h f =
      inr (inr (refl, refl, refl, refl, inl (R.drop_none s.event)))
  step-waits_in c s (replaces g old l) h f = ground arith
  step-waits_in c s (unlocks (wait_next g l)) h f = inr (inr (refl, refl, refl, refl, inl refl))
  step-waits_in c s (unlocks (return_next o l)) h f = inl refl
  step-waits_in c s (notifies (wait_next g l)) h f = inr (inr (refl, refl, refl, refl, inl refl))
  step-waits_in c s (notifies (return_next o l)) h f = inl refl
  step-waits_in c s (waits g (some l)) h f = elim (Bool-cases (E.poll s.event (some l)).2) [
    | inl e ↦ inl (rw e refl)
    | inr e ↦
        inr
          (inr (rw e refl, rw e (R.poll_unready s.event l e).0, refl, rw e refl, inr (l, refl, e)))
  ]
  step-waits_in c s (waits g none) h f = absurd (omega (arith, h))
  step-waits_in c s (pending g l) h f = ground arith
  step-waits_in c s (reacquiring g evl unpolled) h f =
      inl (then_check-waits_in g evl (poll E c.late false s.state unpolled).1)
  step-waits_in c s (reacquiring g evl l) h f =
      inl (then_check-waits_in g evl (poll E c.late c.cancel s.state l).1)
  step-waits_in c s (checks g l) h f = inl (ground arith)
  step-waits_in c s p h f = inl refl
