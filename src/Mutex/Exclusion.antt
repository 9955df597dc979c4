-- ===== src/Mutex/Exclusion.antt =====
-- src/mutex.rs: what holds of a mutex under every schedule of at most 2 ^ 62 calls.
use async_lock.Base.{
  ℕ, ◌+◌, ◌*◌, ◌^◌, ◌≤◌, ◌<◌, ◌≡◌, ◌↔◌, refl, true, false, some, List, ◌∷◌, ◌++◌, arith, ℕ_discrete,
}
use async_lock.Event.{EventOps}
use async_lock.Tasks.{
  run, run-keeps, total, total-split, total-map_zero, length, length-split, length-map, get_elem?,
  add-le-total, total-le_length,
}
use async_lock.Mutex.Acquire.{Mutex, Lock, gone, taken, pending, poll, try_lock}
use async_lock.Mutex.Word.{locked, starving, aborting, IsCounted, poll-IsCounted, unlock-IsCounted}
use async_lock.Mutex.{
  Call, tries, locks, forgotten, Pc, ready, locking, holds, ended, Choice, after_poll, step, init,
  new,
}

module _ {Listener : Type 0} where
  -- Tasks that have the lock; a forgotten guard keeps it.
  abbrev pub holding : Pc Listener → ℕ
  holding (locking l) = locked l
  holding holds = 1
  holding (ended forgotten) = 1
  holding _ = 0

  abbrev pub starved : Pc Listener → ℕ
  starved (locking l) = starving l
  starved _ = 0

  abbrev pub failed : Pc Listener → ℕ
  failed (locking l) = aborting l
  failed _ = 0

  pub starved-le-one : (p : Pc Listener) → starved p ≤ 1
  starved-le-one (locking (pending true l)) = omega arith
  starved-le-one (locking (pending false l)) = omega arith
  starved-le-one (locking l) = ground arith
  starved-le-one p = omega arith

  -- What `after_poll` makes of a future counts as the future does.
  pub after_poll-counts :
      (l : Lock Listener)
      → (holding (after_poll l) ≡ locked l)
        × (starved (after_poll l) ≡ starving l)
        × (failed (after_poll l) ≡ aborting l)
  unfolding after_poll
  after_poll-counts gone = (refl, refl, refl)
  after_poll-counts taken = (refl, refl, refl)
  after_poll-counts l = (refl, refl, refl)

module _ {Event Listener T : Type 0} (E : EventOps Event Listener) where
  step-IsCounted :
      (c : Choice T) (s : Mutex Event T) (p : Pc Listener) (h v a : ℕ)
      → v < 2 ^ 62
      → IsCounted s.state (holding p + h) (starved p + v) (failed p + a)
      → let y = step E c s p in
        IsCounted y.0.state (holding y.1 + h) (starved y.1 + v) (failed y.1 + a)
  unfolding step
  step-IsCounted c s (ready tries) h v a few i = ground arith
  step-IsCounted c s (ready locks) h v a few i = ground arith
  step-IsCounted c s (locking l) h v a few i =
      let (e, f, g) = after_poll-counts (poll E c.late c.cancel s l).1 in
      rw (e, f, g) (poll-IsCounted E c.late c.cancel s l h v a few i)
  step-IsCounted c s holds h v a few i = ground (arith, unlock-IsCounted s h v a)
  step-IsCounted c s p h v a few i = ground arith

  abbrev pub Counted : Mutex Event T → List (Pc Listener) → Type 0
  Counted s ts =
      IsCounted s.state (total holding ts) (total starved ts) (total failed ts)
      × (length ts ≤ 2 ^ 62)

  pub keeps-Counted :
      (c : Choice T) (s : Mutex Event T) (before : List (Pc Listener)) (p : Pc Listener)
      (after : List (Pc Listener))
      → Counted s (before ++ p ∷ after)
      → Counted (step E c s p).0 (before ++ (step E c s p).1 ∷ after)
  keeps-Counted c s before p after (i, n) =
      let q : Pc Listener = (step E c s p).1 in
      let few : total starved before + total starved after < 2 ^ 62 = omega (
        arith,
        length-split before p after,
        total-le_length starved 1 starved-le-one before,
        total-le_length starved 1 starved-le-one after,
      ) in
      (
        rw
            (
              total-split holding before q after,
              total-split starved before q after,
              total-split failed before q after,
            )
            (step-IsCounted c s p (total holding before + total holding after)
              (total starved before + total starved after)
              (total failed before + total failed after) few
              (rw
                (
                  total-split holding before p after,
                  total-split starved before p after,
                  total-split failed before p after,
                )
                at i)),
        omega (arith, length-split before p after, length-split before q after),
      )

  init-Counted :
      (v : T) (calls : List Call)
      → length calls ≤ 2 ^ 62
      → Counted (init E v calls).shared (init E v calls).tasks
  unfolding init new
  init-Counted v calls n = (
    record {
      exact = omega (
        arith,
        total-map_zero (holding {Listener = Listener}) ready (λ _. refl) calls,
        total-map_zero (starved {Listener = Listener}) ready (λ _. refl) calls,
      );
      exclusive =
          omega (arith, total-map_zero (holding {Listener = Listener}) ready (λ _. refl) calls);
      running = total-map_zero (failed {Listener = Listener}) ready (λ _. refl) calls;
    },
    omega (arith, length-map {A = Pc Listener} ready calls),
  )

  pub run-Counted :
      (v : T) (calls : List Call) (schedule : List (ℕ × Choice T))
      → length calls ≤ 2 ^ 62
      → let y = run (step E) (init E v calls) schedule in Counted y.shared y.tasks
  run-Counted v calls schedule n =
      run-keeps (step E) Counted keeps-Counted (init E v calls) schedule (init-Counted v calls n)

  -- The lock word is the number of tasks that have the lock, at most one, plus twice the number of
  -- starved tasks, and no task aborts, after every schedule of at most 2 ^ 62 calls.
  pub word_exact :
      (v : T) (calls : List Call) (schedule : List (ℕ × Choice T))
      → length calls ≤ 2 ^ 62
      → let y = run (step E) (init E v calls) schedule in
        (y.shared.state ≡ total holding y.tasks + 2 * total starved y.tasks)
        × (total holding y.tasks ≤ 1)
        × (total failed y.tasks ≡ 0)
  word_exact v calls schedule n =
      let i = (run-Counted v calls schedule n).0 in (i.exact, i.exclusive, i.running)

  -- Two tasks never have a guard at the same time, after any schedule of at most 2 ^ 62 calls.
  pub mutual_exclusion :
      (v : T) (calls : List Call) (schedule : List (ℕ × Choice T)) (i j : ℕ)
      → length calls ≤ 2 ^ 62
      → get_elem? (run (step E) (init E v calls) schedule).tasks i ≡ some holds
      → get_elem? (run (step E) (init E v calls) schedule).tasks j ≡ some holds
      → i ≡ j
  mutual_exclusion v calls schedule i j n p q = elim (ℕ_discrete i j) [
    | yes e ↦ e
    | no d ↦ absurd (
        omega (
          arith,
          (run-Counted v calls schedule n).0.exclusive,
          add-le-total holding _ i j holds holds d p q,
        ))
  ]

  -- `try_lock` gives a guard exactly when no task has the lock and none is starved; at most 2 ^ 62
  -- calls are made.
  pub try_lock_iff :
      (v : T) (calls : List Call) (schedule : List (ℕ × Choice T))
      → length calls ≤ 2 ^ 62
      → let y = run (step E) (init E v calls) schedule in
        (try_lock y.shared).1 ≡ true ↔ total holding y.tasks + total starved y.tasks ≡ 0
  unfolding try_lock
  try_lock_iff v calls schedule n =
      let i = (run-Counted v calls schedule n).0 in (λ e. ground (arith, i), λ e. ground (arith, i))
