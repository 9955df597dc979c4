-- ===== src/OnceCell/Single.antt =====
-- src/once_cell.rs: when the value is written, and which value the calls are given.
use async_lock.Base.{ℕ, ◌≡◌, ◌⊎◌, inl, inr, refl, ◌∙◌, some, List, [], ◌∷◌, ◌++◌, arith}
use async_lock.Event.{EventOps, IsQuietable}
use async_lock.Tasks.{
  run, run-keeps, total-split, All, All-split, All-join, All-mono, All-map, All-get, get_elem?,
}
use async_lock.OnceCell.{
  OnceCell, Call, Outcome, gave, Pc, ready, init_leaves, writes, guard_stores, guard_notifies,
  ended, Choice, new, init, step,
}
use async_lock.OnceCell.Owned.{owning, knowing, AllOwned, keeps-AllOwned, run-AllOwned}

module _ {Event T : Type 0} where
  -- A value that a task was given is the value of an initialized cell.
  abbrev IsGiven : {Error : Type 0} → OnceCell Event T → Outcome T Error → Type 0
  IsGiven s (gave v) = (s.state ≡ 2) × (s.value ≡ some v)
  IsGiven s _ = Unit {0}

  abbrev Agrees : {Listener Error : Type 0} → OnceCell Event T → Pc Listener T Error → Type 0
  Agrees s (init_leaves _ o) = IsGiven s o
  Agrees s (guard_stores _ o) = IsGiven s o
  Agrees s (guard_notifies _ o) = IsGiven s o
  Agrees s (ended o) = IsGiven s o
  Agrees s _ = Unit {0}

  -- The state stays `Initialized` and the value stays what it is.
  abbrev IsKept : OnceCell Event T → OnceCell Event T → Type 0
  IsKept s t = s.state ≡ 2 → (t.state ≡ 2) × (t.value ≡ s.value)

  IsGiven-kept :
      {Error : Type 0} (s t : OnceCell Event T) (o : Outcome T Error)
      → IsKept s t
      → IsGiven s o
      → IsGiven t o
  IsGiven-kept s t (gave v) k (e, f) = ((k e).0, (k e).1 ∙ f)
  IsGiven-kept s t o k g = tt

  Agrees-kept :
      {Listener Error : Type 0} (s t : OnceCell Event T) (p : Pc Listener T Error)
      → IsKept s t
      → Agrees s p
      → Agrees t p
  Agrees-kept s t (init_leaves _ o) k g = IsGiven-kept s t o k g
  Agrees-kept s t (guard_stores _ o) k g = IsGiven-kept s t o k g
  Agrees-kept s t (guard_notifies _ o) k g = IsGiven-kept s t o k g
  Agrees-kept s t (ended o) k g = IsGiven-kept s t o k g
  Agrees-kept s t p k g = tt

module _ {Event Listener T Error : Type 0} (E : EventOps Event Listener) (Quiet : Event → Type 0)
    (laws : IsQuietable E Quiet) where
  -- A step of a task that does not initialize the cell keeps an initialized cell.
  step-IsKept :
      (c : Choice T Error) (s : OnceCell Event T) (p : Pc Listener T Error)
      → owning p ≡ 0
      → IsKept s (step E c s p).0
  unfolding step
  step-IsKept c s (writes v k) h e = absurd (omega arith)
  step-IsKept c s p h e = ground arith

  -- What a step leaves behind agrees with the cell.
  step-Agrees :
      (c : Choice T Error) (s : OnceCell Event T) (p : Pc Listener T Error)
      → (owning p ≡ 0) ⊎ (s.state ≡ 1)
      → (knowing p ≡ 0) ⊎ (s.state ≡ 2)
      → Agrees s p
      → Agrees (step E c s p).0 (step E c s p).1
  unfolding step
  step-Agrees c s (init_leaves l o) h k g =
      IsGiven-kept s (step E c s (init_leaves l o)).0 o (λ e. (e, refl)) g
  step-Agrees c s (guard_notifies l o) h k g =
      IsGiven-kept s (step E c s (guard_notifies l o)).0 o (λ e. (e, refl)) g
  step-Agrees c s (ended o) h k g = g
  step-Agrees c s (guard_stores l o) h k g =
      IsGiven-kept s (step E c s (guard_stores l o)).0 o (λ e. absurd (ground arith)) g
  step-Agrees c s p o k g = ground arith

  -- The invariant of `Owned`, and every task agrees with the cell.
  abbrev AllAgree : OnceCell Event T → List (Pc Listener T Error) → Type 0
  AllAgree s ts = AllOwned E Quiet laws s ts × All (Agrees s) ts

  -- The task that takes a step, beside the others.
  owner_state :
      (s : OnceCell Event T) (before : List (Pc Listener T Error)) (p : Pc Listener T Error)
      (after : List (Pc Listener T Error))
      → AllOwned E Quiet laws s (before ++ p ∷ after)
      → ((owning p ≡ 0) ⊎ (s.state ≡ 1)) × ((knowing p ≡ 0) ⊎ (s.state ≡ 2))
  owner_state s before p after i = ground (
    arith,
    i.owned,
    i.known,
    total-split owning before p after,
    total-split knowing before p after,
  )

  any-IsKept :
      (c : Choice T Error) (s : OnceCell Event T) (p : Pc Listener T Error)
      → (owning p ≡ 0) ⊎ (s.state ≡ 1)
      → IsKept s (step E c s p).0
  any-IsKept c s p (inl h) = step-IsKept c s p h
  any-IsKept c s p (inr h) = λ e. absurd (omega arith)

  keeps-AllAgree :
      (c : Choice T Error) (s : OnceCell Event T) (before : List (Pc Listener T Error))
      (p : Pc Listener T Error) (after : List (Pc Listener T Error))
      → AllAgree s (before ++ p ∷ after)
      → AllAgree (step E c s p).0 (before ++ (step E c s p).1 ∷ after)
  keeps-AllAgree c s before p after (i, a) =
      let (o, k) = owner_state s before p after i in
      let (a₁, g, a₂) = All-split (Agrees s) before p after a in
      let t : OnceCell Event T = (step E c s p).0 in
      let keep = λ (q : Pc Listener T Error). Agrees-kept s t q (any-IsKept c s p o) in
      (
        keeps-AllOwned E Quiet laws c s before p after i,
        All-join (Agrees t) before (step E c s p).1 after
            (All-mono (Agrees s) (Agrees t) keep before a₁) (step-Agrees c s p o k g)
            (All-mono (Agrees s) (Agrees t) keep after a₂),
      )

  run-AllAgree :
      (todo : List (Call T)) (schedule : List (ℕ × Choice T Error))
      → let y = run (step E) (init E todo) schedule in AllAgree y.shared y.tasks
  unfolding init run
  run-AllAgree todo schedule =
      run-keeps (step E) AllAgree keeps-AllAgree (init E todo) schedule
        (run-AllOwned E Quiet laws todo [], All-map (Agrees (new E)) ready (λ _. tt) todo)

  -- Whoever gets a value from `get`, `wait`, `get_or_init` or `get_or_try_init` gets the value of the
  -- cell, which is initialized from then on: two tasks are never given different values. It
  -- rests on what event_listener says of an event that nobody has notified.
  pub results_agree :
      (todo : List (Call T)) (schedule : List (ℕ × Choice T Error)) (i j : ℕ) (v w : T)
      → get_elem? (run (step E) (init E todo) schedule).tasks i ≡ some (ended (gave v))
      → get_elem? (run (step E) (init E todo) schedule).tasks j ≡ some (ended (gave w))
      → (v ≡ w)
        × ((run (step E) (init E todo) schedule).shared.value ≡ some v)
        × ((run (step E) (init E todo) schedule).shared.state ≡ 2)
  results_agree todo schedule i j v w p q =
      let y = run (step E) (init E todo) schedule in
      let a = (run-AllAgree todo schedule).1 in
      let (e, f) = All-get (Agrees y.shared) y.tasks i (ended (gave v)) a p in
      let (e', f') = All-get (Agrees y.shared) y.tasks j (ended (gave w)) a q in (cc, f, e)

  -- Once the cell is initialized, no later schedule of the calls that share it changes its state or
  -- its value. It rests on what event_listener says of an event that nobody has notified.
  value_fixed :
      (todo : List (Call T)) (schedule later : List (ℕ × Choice T Error))
      → (run (step E) (init E todo) schedule).shared.state ≡ 2
      → let y = run (step E) (init E todo) schedule in
        let z = run (step E) y later in (z.shared.state ≡ 2) × (z.shared.value ≡ y.shared.value)
  value_fixed todo schedule later e =
      let y = run (step E) (init E todo) schedule in
      let k =
        run-keeps (step E)
          (λ s ts. AllOwned E Quiet laws s ts × (s.state ≡ 2) × (s.value ≡ y.shared.value))
          (λ c s before p after h.
            let (o, _) = owner_state s before p after h.0 in
            let (e', f) = any-IsKept c s p o h.1 in
            (keeps-AllOwned E Quiet laws c s before p after h.0, e', f ∙ h.2))
          y later (run-AllOwned E Quiet laws todo schedule, e, refl) in
      (k.1, k.2)
