-- ===== src/Barrier/Exclusion.antt =====
-- src/barrier.rs: the mutex of the barrier. A call holds it from the count or the check up to the
-- release.
use async_lock.Base.{ℕ, ◌+◌, ◌^◌, ◌≤◌, ◌<◌, ◌≡◌, refl, true, false, Option, List, ◌∷◌, ◌++◌, arith}
use async_lock.Event.{EventOps}
use async_lock.Tasks.{
  run, run-keeps, total, total-split, total-map_zero, length, length-split, length-map,
  total-le_length,
}
use async_lock.Mutex.Acquire.{Lock, unpolled, taken, gone, pending, poll}
use async_lock.Mutex.Word.{locked, starving, aborting, IsCounted, poll-IsCounted, unlock-IsCounted}
use async_lock.Barrier.{
  Barrier, Pc, initial, arrives, listens, replaces, announces, unlocks, reacquiring, checks, Choice,
  then_arrive, then_check, step, init, new,
}

module _ {Listener : Type 0} where
  -- Tasks that have the mutex.
  abbrev pub holding : Pc Listener → ℕ
  holding (initial l) = locked l
  holding arrives = 1
  holding (listens _ _) = 1
  holding (replaces _ _ _) = 1
  holding announces = 1
  holding (unlocks _) = 1
  holding (reacquiring _ _ l) = locked l
  holding (checks _ _) = 1
  holding _ = 0

  abbrev pub starved : Pc Listener → ℕ
  starved (initial l) = starving l
  starved (reacquiring _ _ l) = starving l
  starved _ = 0

  abbrev pub failed : Pc Listener → ℕ
  failed (initial l) = aborting l
  failed (reacquiring _ _ l) = aborting l
  failed _ = 0

  starving-le-one : (l : Lock Listener) → starving l ≤ 1
  starving-le-one (pending true l) = omega arith
  starving-le-one (pending false l) = omega arith
  starving-le-one l = ground arith

  starved-le-one : (p : Pc Listener) → starved p ≤ 1
  starved-le-one (initial l) = starving-le-one l
  starved-le-one (reacquiring g evl l) = starving-le-one l
  starved-le-one p = omega arith

  -- A call counts as the mutex's future that it polls.
  then_arrive-holds :
      (l : Lock Listener)
      → (holding (then_arrive l) ≡ locked l)
        × (starved (then_arrive l) ≡ starving l)
        × (failed (then_arrive l) ≡ aborting l)
  unfolding then_arrive
  then_arrive-holds gone = (refl, refl, refl)
  then_arrive-holds taken = (refl, refl, refl)
  then_arrive-holds l = (refl, refl, refl)

  then_check-holds :
      (g : ℕ) (evl : Option Listener) (l : Lock Listener)
      → (holding (then_check g evl l) ≡ locked l)
        × (starved (then_check g evl l) ≡ starving l)
        × (failed (then_check g evl l) ≡ aborting l)
  unfolding then_check
  then_check-holds g evl gone = (refl, refl, refl)
  then_check-holds g evl taken = (refl, refl, refl)
  then_check-holds g evl l = (refl, refl, refl)

module _ {Event Listener : Type 0} (E : EventOps Event Listener) where
  step-IsCounted :
      (c : Choice) (s : Barrier Event) (p : Pc Listener) (h v a : ℕ)
      → v < 2 ^ 62
      → IsCounted s.state.state (holding p + h) (starved p + v) (failed p + a)
      → let y = step E c s p in
        IsCounted y.0.state.state (holding y.1 + h) (starved y.1 + v) (failed y.1 + a)
  unfolding step
  step-IsCounted c s (initial l) h v a few i =
      let (e0, e1, e2) = then_arrive-holds (poll E c.late c.cancel s.state l).1 in
      rw (e0, e1, e2) (poll-IsCounted E c.late c.cancel s.state l h v a few i)
  step-IsCounted c s (reacquiring g evl unpolled) h v a few i =
      let (e0, e1, e2) = then_check-holds g evl (poll E c.late false s.state unpolled).1 in
      rw (e0, e1, e2) (poll-IsCounted E c.late false s.state unpolled h v a few i)
  step-IsCounted c s (reacquiring g evl l) h v a few i =
      let (e0, e1, e2) = then_check-holds g evl (poll E c.late c.cancel s.state l).1 in
      rw (e0, e1, e2) (poll-IsCounted E c.late c.cancel s.state l h v a few i)
  step-IsCounted c s (unlocks next) h v a few i = ground (arith, unlock-IsCounted s.state h v a)
  step-IsCounted c s p h v a few i = ground arith

  abbrev pub Counted : Barrier Event → List (Pc Listener) → Type 0
  Counted s ts =
      IsCounted s.state.state (total holding ts) (total starved ts) (total failed ts)
      × (length ts ≤ 2 ^ 62)

  pub keeps-Counted :
      (c : Choice) (s : Barrier Event) (before : List (Pc Listener)) (p : Pc Listener)
      (after : List (Pc Listener))
      → Counted s (before ++ p ∷ after)
      → Counted (step E c s p).0 (before ++ (step E c s p).1 ∷ after)
  keeps-Counted c s before p after (i, n) =
      let q : Pc Listener = (step E c s p).1 in
      let few : total starved before + total starved after < 2 ^ 62 = omega (
        arith,
        length-split before p after,
        total-le_length starved 1 starved-le-one before,
        total-le_length starved 1 starved-le-one after,
      ) in
      (
        rw
            (
              total-split holding before q after,
              total-split starved before q after,
              total-split failed before q after,
            )
            (step-IsCounted c s p (total holding before + total holding after)
              (total starved before + total starved after)
              (total failed before + total failed after) few
              (rw
                (
                  total-split holding before p after,
                  total-split starved before p after,
                  total-split failed before p after,
                )
                at i)),
        omega (arith, length-split before p after, length-split before q after),
      )

  pub run-Counted :
      (n : ℕ) (calls : List (Unit {0})) (schedule : List (ℕ × Choice))
      → length calls ≤ 2 ^ 62
      → let y = run (step E) (init E n calls) schedule in Counted y.shared y.tasks
  unfolding init new
  run-Counted n calls schedule few =
      let zero : (w : Pc Listener → ℕ)
          → w (initial unpolled) ≡ 0
          → total w (init E n calls).tasks ≡ 0 =
        λ w e. total-map_zero w (λ _. initial unpolled) (λ _. e) calls in
      run-keeps (step E) Counted keeps-Counted (init E n calls) schedule (
        record {
          exact = omega (arith, zero holding refl, zero starved refl);
          exclusive = omega (arith, zero holding refl);
          running = zero failed refl;
        },
        omega (arith, length-map {A = Pc Listener} (λ _. initial unpolled) calls),
      )
