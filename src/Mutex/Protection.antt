-- ===== src/Mutex/Protection.antt =====
-- src/mutex.rs: the value under a guard, and the fast path while an operation is starved.
use async_lock.Base.{
  ℕ, ◌+◌, ◌*◌, ◌^◌, ◌≤◌, ◌<◌, ◌≡◌, ◌≢◌, refl, ◌∙◌, ap, Bool, true, false, some, List, [], ◌∷◌,
  arith, Option-cases, inl, inr,
}
use async_lock.Event.{EventOps}
use async_lock.Tasks.{
  Without, System, run, turn, turn-keeps, total, length, get_elem?, get_elem?-set_ne, add-le-total,
}
use async_lock.Mutex.Acquire.{Mutex, Lock, unpolled, pending, poll}
use async_lock.Mutex.{Call, tries, locks, Pc, ready, locking, holds, Choice, step, init}
use async_lock.Mutex.Exclusion.{
  holding, starved, Counted, keeps-Counted, run-Counted, after_poll-counts,
}

module _ {Event Listener T : Type 0} (E : EventOps Event Listener) where
  pub poll-value :
      (late cancel : Bool) (s : Mutex Event T) (l : Lock Listener)
      → (poll E late cancel s l).0.value ≡ s.value
  unfolding poll
  poll-value late cancel s unpolled = ground arith
  poll-value late cancel s l = ground arith

  -- Only the holder of a guard writes the value.
  step-value :
      (c : Choice T) (s : Mutex Event T) (p : Pc Listener)
      → p ≢ holds
      → (step E c s p).0.value ≡ s.value
  unfolding step
  step-value c s (ready tries) h = ground arith
  step-value c s (ready locks) h = ground arith
  step-value c s (locking l) h = poll-value c.late c.cancel s l
  step-value c s holds h = absurd (h refl)
  step-value c s p h = ground arith

  -- A turn of another task.
  turn-guarded :
      (y : System (Mutex Event T) (Pc Listener)) (i j : ℕ) (c : Choice T)
      → Counted E y.shared y.tasks
      → get_elem? y.tasks i ≡ some holds
      → i ≢ j
      → let z = turn (step E) y (j, c) in
        (z.shared.value ≡ y.shared.value) × (get_elem? z.tasks i ≡ some holds)
  unfolding turn
  turn-guarded y i j c k h d = elim (Option-cases (get_elem? y.tasks j)) [
    | inl e ↦ rw (e, turn) (refl, h)
    | inr (t, e) ↦
        rw (e, turn)
          (
            step-value c y.shared t (λ f. absurd (
                omega (
                  arith,
                  k.0.exclusive,
                  add-le-total holding y.tasks i j holds holds d h (e ∙ ap some f),
                ))),
            get_elem?-set_ne y.tasks i j _ d ∙ h,
          )
  ]

  run-guarded :
      (y : System (Mutex Event T) (Pc Listener)) (i : ℕ) (ms : List (ℕ × Choice T))
      → Counted E y.shared y.tasks
      → get_elem? y.tasks i ≡ some holds
      → Without i ms
      → let z = run (step E) y ms in
        (z.shared.value ≡ y.shared.value) × (get_elem? z.tasks i ≡ some holds)
  unfolding run
  run-guarded y i [] k h w = (refl, h)
  run-guarded y i ((j, c) ∷ ms) k h w =
      let (e, f) = turn-guarded y i j c k h w.0 in
      let (e', f') =
        run-guarded (turn (step E) y (j, c)) i ms
          (turn-keeps (step E) (Counted E) (keeps-Counted E) y (j, c) k) f w.1 in
      (e' ∙ e, f')

  -- While a task has a guard and takes no step itself, no schedule of the other tasks changes the
  -- value or takes the guard away; at most 2 ^ 62 calls are made.
  pub guard_protects :
      (v : T) (calls : List Call) (schedule later : List (ℕ × Choice T)) (i : ℕ)
      → length calls ≤ 2 ^ 62
      → get_elem? (run (step E) (init E v calls) schedule).tasks i ≡ some holds
      → Without i later
      → let y = run (step E) (init E v calls) schedule in
        let z = run (step E) y later in
        (z.shared.value ≡ y.shared.value) × (get_elem? z.tasks i ≡ some holds)
  guard_protects v calls schedule later i n h w =
      run-guarded _ i later (run-Counted E v calls schedule n) h w

  -- With `v` starved operations the word is at least 2, and only a starved one takes the lock.
  poll-fair :
      (late cancel : Bool) (s : Mutex Event T) (l : Lock Listener) (h v : ℕ)
      → s.state ≡ h + 2 * v
      → 0 < v
      → holding (locking l) ≡ 0
      → starved (locking l) ≡ 0
      → holding (locking (poll E late cancel s l).1) ≡ 0
  unfolding poll
  poll-fair late cancel s (pending true l) h v e w x z = ground arith
  poll-fair late cancel s (pending false l) h v e w x z = ground arith
  poll-fair late cancel s l h v e w x z = ground arith

  step-fair :
      (c : Choice T) (s : Mutex Event T) (p : Pc Listener) (h v : ℕ)
      → s.state ≡ h + 2 * v
      → 0 < v
      → holding p ≡ 0
      → starved p ≡ 0
      → holding (step E c s p).1 ≡ 0
  unfolding step
  step-fair c s (ready tries) h v e w x z = ground arith
  step-fair c s (ready locks) h v e w x z = ground arith
  step-fair c s (locking l) h v e w x z =
      (after_poll-counts (poll E c.late c.cancel s l).1).0
      ∙ poll-fair c.late c.cancel s l h v e w x z
  step-fair c s p h v e w x z = ground arith

  -- While some operation is starved, a step of a task that is not starved and has no lock does not
  -- get it one, neither by `try_lock` nor by a future's fast path or first loop; at most 2 ^ 62 calls
  -- are made.
  pub no_barging :
      (v : T) (calls : List Call) (schedule : List (ℕ × Choice T)) (c : Choice T) (p : Pc Listener)
      → length calls ≤ 2 ^ 62
      → 0 < total starved (run (step E) (init E v calls) schedule).tasks
      → holding p ≡ 0
      → starved p ≡ 0
      → holding (step E c (run (step E) (init E v calls) schedule).shared p).1 ≡ 0
  no_barging v calls schedule c p n w x z =
      step-fair c _ p _ _ (run-Counted E v calls schedule n).0.exact w x z
