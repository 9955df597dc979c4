-- ===== src/RwLock/Protection.antt =====
-- src/rwlock.rs: the value under a guard, and which steps write it.
use async_lock.Base.{
  ℕ, ◌^◌, ◌≤◌, ◌≡◌, ◌≢◌, refl, ◌∙◌, ap, some, List, [], ◌∷◌, arith, Option-cases, inl, inr,
}
use async_lock.Event.{EventOps}
use async_lock.Tasks.{Without, System, run, turn, turn-keeps, length, get_elem?, get_elem?-set_ne}
use async_lock.RwLock.Raw.Defs.{Call, Guard, reader, upgradable, writer, Pc, holds}
use async_lock.RwLock.{RwLock, Use, Choice, use_guard, step, init}
use async_lock.RwLock.Invariant.{AllSound, keeps-AllSound, run-AllSound}
use async_lock.RwLock.Exclusion.{guards-compatible}

module _ {Event Listener T : Type 0} (E : EventOps Event Listener) where
  guard-value :
      (g : Guard) (s : RwLock Event T) (u : Use T)
      → g ≢ writer
      → (use_guard {Listener = Listener} g s u).0.value ≡ s.value
  unfolding use_guard
  guard-value reader s u h = ground arith
  guard-value upgradable s u h = ground arith
  guard-value writer s u h = absurd (h refl)

  -- Only the owner of a write guard writes the value.
  step-value :
      (c : Choice T) (s : RwLock Event T) (p : Pc Listener)
      → p ≢ holds writer
      → (step E c s p).0.value ≡ s.value
  unfolding step
  step-value c s (holds g) h = guard-value g s c.use_guard (λ e. h (ap holds e))
  step-value c s p h = refl

  -- A turn of another task.
  turn-guarded :
      (y : System (RwLock Event T) (Pc Listener)) (g : Guard) (i j : ℕ) (c : Choice T)
      → AllSound y.shared y.tasks
      → get_elem? y.tasks i ≡ some (holds g)
      → i ≢ j
      → let z = turn (step E) y (j, c) in
        (z.shared.value ≡ y.shared.value) × (get_elem? z.tasks i ≡ some (holds g))
  unfolding turn
  turn-guarded y g i j c k h d = elim (Option-cases (get_elem? y.tasks j)) [
    | inl e ↦ rw (e, turn) (refl, h)
    | inr (t, e) ↦
        rw (e, turn)
          (
            step-value c y.shared t (λ f.
                ground
                  (arith, guards-compatible g writer y.shared y.tasks i j k d h (e ∙ ap some f))),
            get_elem?-set_ne y.tasks i j _ d ∙ h,
          )
  ]

  run-guarded :
      (y : System (RwLock Event T) (Pc Listener)) (g : Guard) (i : ℕ) (ms : List (ℕ × Choice T))
      → AllSound y.shared y.tasks
      → get_elem? y.tasks i ≡ some (holds g)
      → Without i ms
      → let z = run (step E) y ms in
        (z.shared.value ≡ y.shared.value) × (get_elem? z.tasks i ≡ some (holds g))
  unfolding run
  run-guarded y g i [] k h w = (refl, h)
  run-guarded y g i ((j, c) ∷ ms) k h w =
      let (e, f) = turn-guarded y g i j c k h w.0 in
      let (e', f') =
        run-guarded (turn (step E) y (j, c)) g i ms
          (turn-keeps (step E) AllSound (keeps-AllSound E) y (j, c) k) f w.1 in
      (e' ∙ e, f')

  -- While a task has a guard of any kind and takes no step itself, no schedule of the other tasks
  -- changes the value or takes the guard away; at most 2 ^ 62 calls are made.
  pub rwlock_guard_protects :
      (v : T) (calls : List Call) (schedule later : List (ℕ × Choice T)) (i : ℕ) (g : Guard)
      → length calls ≤ 2 ^ 62
      → get_elem? (run (step E) (init E v calls) schedule).tasks i ≡ some (holds g)
      → Without i later
      → let y = run (step E) (init E v calls) schedule in
        let z = run (step E) y later in
        (z.shared.value ≡ y.shared.value) × (get_elem? z.tasks i ≡ some (holds g))
  rwlock_guard_protects v calls schedule later i g n h w =
      run-guarded _ g i later (run-AllSound E v calls schedule n) h w
