-- ===== src/Mutex/Wakeup.antt =====
-- src/mutex.rs: a mutex that is free and that somebody waits for.
use async_lock.Base.{
  ℕ, ◌+◌, ◌%◌, ◌^◌, ◌≤◌, ◌<◌, ◌≡◌, inl, inr, refl, true, false, List, [], ◌∷◌, ◌++◌, arith,
}
use async_lock.Event.{EventOps, IsCounting}
use async_lock.Tasks.{
  run, run-keeps, total, total-split, total-map_zero, length, length-split, length-map,
  total-le_length,
}
use async_lock.Mutex.Acquire.{Mutex, Lock, gone, taken, pending, poll}
use async_lock.Mutex.Word.{locked, starving, aborting}
use async_lock.Mutex.Awake.{listening, waiting, active, deaf, IsAwake, Others, poll-Awake}
use async_lock.Mutex.{
  Call, tries, locks, Pc, ready, locking, holds, notifies, ended, Choice, after_poll, step, init,
  new,
}
use async_lock.Mutex.Exclusion.{holding, starved, failed, starved-le-one, after_poll-counts}

module _ {Listener : Type 0} where
  abbrev pub has_listener : Pc Listener → ℕ
  has_listener (locking l) = listening l
  has_listener _ = 0

  -- The task waits for a notification of the mutex.
  abbrev pub waits : Pc Listener → ℕ
  waits (locking l) = waiting l
  waits _ = 0

  -- The task is about to take the free mutex or to notify.
  abbrev pub acts : Pc Listener → ℕ
  acts (locking l) = active l
  acts notifies = 1
  acts _ = 0

  abbrev pub hears_nothing : Pc Listener → ℕ
  hears_nothing (locking l) = deaf l
  hears_nothing _ = 0

  waiting-le-listening : (l : Lock Listener) → waiting l ≤ listening l + deaf l
  waiting-le-listening (pending b l) = ground arith
  waiting-le-listening l = ground arith

  starving-le-active :
      (l : Lock Listener) → starving l ≤ active l + listening l + locked l + aborting l + deaf l
  starving-le-active (pending true l) = ground arith
  starving-le-active (pending false l) = ground arith
  starving-le-active l = ground arith

  waits_le : (p : Pc Listener) → waits p ≤ has_listener p + hears_nothing p
  waits_le (locking l) = waiting-le-listening l
  waits_le p = omega arith

  starved_le :
      (p : Pc Listener)
      → starved p ≤ acts p + has_listener p + holding p + failed p + hears_nothing p
  starved_le (locking l) = starving-le-active l
  starved_le p = omega arith

  after_poll-acts :
      (l : Lock Listener)
      → (has_listener (after_poll l) ≡ listening l)
        × (waits (after_poll l) ≡ waiting l)
        × (acts (after_poll l) ≡ active l)
        × (hears_nothing (after_poll l) ≡ deaf l)
  unfolding after_poll
  after_poll-acts gone = (refl, refl, refl, refl)
  after_poll-acts taken = (refl, refl, refl, refl)
  after_poll-acts l = (refl, refl, refl, refl)

  total-starved :
      (ts : List (Pc Listener))
      → (total waits ts ≤ total has_listener ts + total hears_nothing ts)
        × (total starved ts
            ≤ total acts ts
              + total has_listener ts
              + total holding ts
              + total failed ts
              + total hears_nothing ts)
  unfolding total
  total-starved [] = omega arith
  total-starved (p ∷ ts) = omega (arith, waits_le p, starved_le p, total-starved ts)

module _ {Event Listener T : Type 0} (E : EventOps Event Listener) (unheard heard_by : Event → ℕ)
    (C : IsCounting E unheard heard_by) where
  step-Awake :
      (c : Choice T) (s : Mutex Event T) (p : Pc Listener) (h v f r w a d : ℕ)
      → Others h v f r w a d
      → IsAwake s.state
          (unheard s.lock_ops)
          (heard_by s.lock_ops)
          (holding p + h)
          (starved p + v)
          (failed p + f)
          (has_listener p + r)
          (waits p + w)
          (acts p + a)
          (hears_nothing p + d)
      → let y = step E c s p in
        IsAwake y.0.state
          (unheard y.0.lock_ops)
          (heard_by y.0.lock_ops)
          (holding y.1 + h)
          (starved y.1 + v)
          (failed y.1 + f)
          (has_listener y.1 + r)
          (waits y.1 + w)
          (acts y.1 + a)
          (hears_nothing y.1 + d)
  unfolding step
  step-Awake c s (ready tries) h v f r w a d o i = ground arith
  step-Awake c s (ready locks) h v f r w a d o i = ground arith
  step-Awake c s (locking l) h v f r w a d o i =
      let (e0, e1, e2) = after_poll-counts (poll E c.late c.cancel s l).1 in
      let (e3, e4, e5, e6) = after_poll-acts (poll E c.late c.cancel s l).1 in
      rw (e0, e1, e2, e3, e4, e5, e6)
        (poll-Awake E unheard heard_by C c.late c.cancel s l h v f r w a d o i)
  step-Awake c s holds h v f r w a d o i = ground arith
  step-Awake c s notifies h v f r w a d o i = ground (arith, C.notify_counts 1 s.lock_ops)
  step-Awake c s (ended x) h v f r w a d o i = ground arith

  abbrev AllAwake : Mutex Event T → List (Pc Listener) → Type 0
  AllAwake s ts =
      IsAwake s.state (unheard s.lock_ops) (heard_by s.lock_ops) (total holding ts)
        (total starved ts) (total failed ts) (total has_listener ts) (total waits ts)
        (total acts ts) (total hears_nothing ts)
      × (length ts ≤ 2 ^ 62)

  -- The sums around one task.
  split-Awake :
      (s : Mutex Event T) (before : List (Pc Listener)) (p : Pc Listener)
      (after : List (Pc Listener))
      → IsAwake s.state
          (unheard s.lock_ops)
          (heard_by s.lock_ops)
          (total holding (before ++ p ∷ after))
          (total starved (before ++ p ∷ after))
          (total failed (before ++ p ∷ after))
          (total has_listener (before ++ p ∷ after))
          (total waits (before ++ p ∷ after))
          (total acts (before ++ p ∷ after))
          (total hears_nothing (before ++ p ∷ after))
        ≡ IsAwake s.state
            (unheard s.lock_ops)
            (heard_by s.lock_ops)
            (holding p + (total holding before + total holding after))
            (starved p + (total starved before + total starved after))
            (failed p + (total failed before + total failed after))
            (has_listener p + (total has_listener before + total has_listener after))
            (waits p + (total waits before + total waits after))
            (acts p + (total acts before + total acts after))
            (hears_nothing p + (total hears_nothing before + total hears_nothing after))
  split-Awake s before p after = rw (
    total-split holding before p after,
    total-split starved before p after,
    total-split failed before p after,
    total-split has_listener before p after,
    total-split waits before p after,
    total-split acts before p after,
    total-split hears_nothing before p after,
  )

  keeps-AllAwake :
      (c : Choice T) (s : Mutex Event T) (before : List (Pc Listener)) (p : Pc Listener)
      (after : List (Pc Listener))
      → AllAwake s (before ++ p ∷ after)
      → AllAwake (step E c s p).0 (before ++ (step E c s p).1 ∷ after)
  keeps-AllAwake c s before p after (i, n) =
      let q : Pc Listener = (step E c s p).1 in
      (
        rw (split-Awake (step E c s p).0 before q after) (
            step-Awake c s p _ _ _ _ _ _ _
              (record {
                few = omega (
                  arith,
                  n,
                  length-split before p after,
                  total-le_length starved 1 starved-le-one before,
                  total-le_length starved 1 starved-le-one after,
                );
                waits_le = omega (arith, total-starved before, total-starved after);
                starved_le = omega (arith, total-starved before, total-starved after);
              })
              (rw (split-Awake s before p after) at i)),
        omega (arith, n, length-split before p after, length-split before q after),
      )

  init-AllAwake :
      (v : T) (calls : List Call)
      → length calls ≤ 2 ^ 62
      → AllAwake (init E v calls).shared (init E v calls).tasks
  unfolding init new
  init-AllAwake v calls n =
      let none_yet = λ (w : Pc Listener → ℕ) (e : (c : Call) → w (ready c) ≡ 0).
        total-map_zero w ready e calls in
      (
        record {
          counted = record {
            exact = omega (arith, none_yet holding (λ _. refl), none_yet starved (λ _. refl));
            exclusive = omega (arith, none_yet holding (λ _. refl));
            running = none_yet failed (λ _. refl);
          };
          heard = omega (arith, C.new_counts, none_yet has_listener (λ _. refl));
          hears = none_yet hears_nothing (λ _. refl);
          awake =
              inr (inl (omega (arith, none_yet waits (λ _. refl), none_yet starved (λ _. refl))));
        },
        omega (arith, length-map {A = Pc Listener} ready calls),
      )

  -- No wakeup is lost: where the mutex is free and some operation waits or is starved, a listener of
  -- `lock_ops` is notified, or some task is about to take the mutex or to notify. It holds after every
  -- schedule of at most 2 ^ 62 calls, dropped futures included, and rests on what event_listener says
  -- of the listeners of an event.
  pub no_lost_wakeup :
      (v : T) (calls : List Call) (schedule : List (ℕ × Choice T))
      → length calls ≤ 2 ^ 62
      → (run (step E) (init E v calls) schedule).shared.state % 2 ≡ 0
      → 0
        < total waits (run (step E) (init E v calls) schedule).tasks
          + total starved (run (step E) (init E v calls) schedule).tasks
      → let y = run (step E) (init E v calls) schedule in
        0 < heard_by y.shared.lock_ops + total acts y.tasks
  no_lost_wakeup v calls schedule n free waited =
      let (i, _) =
        run-keeps (step E) AllAwake keeps-AllAwake (init E v calls) schedule
          (init-AllAwake v calls n) in
      ground (arith, i.counted.exact, i.counted.exclusive, i.awake, free, waited)
