-- ===== src/Barrier/Section.antt =====
-- src/barrier.rs: the critical section, from the count or the check of the generation up to the
-- release of the mutex.
use async_lock.Base.{
  ℕ, ◌^◌, ◌≤◌, ◌≡◌, ◌≢◌, refl, ◌∙◌, false, some, List, [], ◌∷◌, arith, Option-cases, inl, inr,
}
use async_lock.Event.{EventOps}
use async_lock.Tasks.{
  Without, System, run, turn, turn-keeps, run-keeps, total, le-total, length, get_elem?,
  get_elem?-set_ne, add-le-total,
}
use async_lock.Mutex.Acquire.{unpolled}
use async_lock.Mutex.Protection.{poll-value}
use async_lock.Barrier.{Barrier, Pc, initial, reacquiring, Choice, step, init}
use async_lock.Barrier.Exclusion.{holding, Counted, keeps-Counted, run-Counted}

module _ {Event Listener : Type 0} (E : EventOps Event Listener) where
  -- Only the owner of the mutex writes the count and the generation.
  step-value :
      (c : Choice) (s : Barrier Event) (p : Pc Listener)
      → holding p ≡ 0
      → (step E c s p).0.state.value ≡ s.state.value
  unfolding step
  step-value c s (initial l) h = poll-value E c.late c.cancel s.state l
  step-value c s (reacquiring g evl unpolled) h = poll-value E c.late false s.state unpolled
  step-value c s (reacquiring g evl l) h = poll-value E c.late c.cancel s.state l
  step-value c s p h = ground arith

  turn-kept :
      (y : System (Barrier Event) (Pc Listener)) (i j : ℕ) (p : Pc Listener) (c : Choice)
      → Counted E y.shared y.tasks
      → get_elem? y.tasks i ≡ some p
      → holding p ≡ 1
      → i ≢ j
      → let z = turn (step E) y (j, c) in
        (z.shared.state.value ≡ y.shared.state.value) × (get_elem? z.tasks i ≡ some p)
  unfolding turn
  turn-kept y i j p c k h one d = elim (Option-cases (get_elem? y.tasks j)) [
    | inl e ↦ rw (e, turn) (refl, h)
    | inr (t, e) ↦
        rw (e, turn)
          (
            step-value c y.shared t
                (omega (arith, one, k.0.exclusive, add-le-total holding y.tasks i j p t d h e)),
            get_elem?-set_ne y.tasks i j _ d ∙ h,
          )
  ]

  run-kept :
      (y : System (Barrier Event) (Pc Listener)) (i : ℕ) (p : Pc Listener) (ms : List (ℕ × Choice))
      → Counted E y.shared y.tasks
      → get_elem? y.tasks i ≡ some p
      → holding p ≡ 1
      → Without i ms
      → let z = run (step E) y ms in
        (z.shared.state.value ≡ y.shared.state.value) × (get_elem? z.tasks i ≡ some p)
  unfolding run
  run-kept y i p [] k h one w = (refl, h)
  run-kept y i p ((j, c) ∷ ms) k h one w =
      let (e, f) = turn-kept y i j p c k h one w.0 in
      let (e', f') =
        run-kept (turn (step E) y (j, c)) i p ms
          (turn-keeps (step E) (Counted E) (keeps-Counted E) y (j, c) k) f one w.1 in
      (e' ∙ e, f')

  -- While a call of `wait` has the mutex, between its count or check and the release, and takes no
  -- step itself, no schedule of the other calls changes the count or the generation, and no other
  -- call gets the mutex; at most 2 ^ 62 calls are made.
  pub critical_section :
      (n : ℕ) (calls : List (Unit {0})) (schedule later : List (ℕ × Choice)) (i : ℕ)
      (p : Pc Listener)
      → length calls ≤ 2 ^ 62
      → get_elem? (run (step E) (init E n calls) schedule).tasks i ≡ some p
      → holding p ≡ 1
      → Without i later
      → let y = run (step E) (init E n calls) schedule in
        let z = run (step E) y later in
        (z.shared.state.value ≡ y.shared.state.value)
        × (get_elem? z.tasks i ≡ some p)
        × (total holding z.tasks ≡ 1)
  critical_section n calls schedule later i p few h one w =
      let k = run-Counted E n calls schedule few in
      let (e, f) = run-kept _ i p later k h one w in
      let k' =
        run-keeps (step E) (Counted E) (keeps-Counted E) (run (step E) (init E n calls) schedule)
          later k in
      (e, f, omega (arith, k'.0.exclusive, le-total holding _ i p f, one))
