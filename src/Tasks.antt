-- ===== src/Tasks.antt =====
-- Tasks that share one lock, interleaved in any order, one access to shared memory at a time.
-- A task is one activity: a call, the future it makes and the guard that the future gives.
mod Lists
unfoldable pub use Lists.*
use async_lock.Base.{
  ℕ, Option, none, some, List, [], ◌∷◌, ◌++◌, ◌≡◌, ◌≢◌, refl, subst, Option-cases, inl, inr,
}

pub record System (S T : Type 0) : Type 0 where
  pub shared : S
  pub tasks : List T

-- A schedule in which task `i` takes no step.
abbrev pub Without : {I : Type 0} → ℕ → List (ℕ × I) → Type 0
Without i [] = Unit {0}
Without i ((j, _) ∷ ms) = (i ≢ j) × Without i ms

-- A schedule of choices that are allowed.
abbrev pub AllChoices {μ} : {I : Type 0} → (I → Type μ) → List (ℕ × I) → Type μ
AllChoices Allowed [] = Unit
AllChoices Allowed ((_, c) ∷ ms) = Allowed c × AllChoices Allowed ms

-- `step` is what one task does next; its first argument is what the environment chooses.
module _ {I S T : Type 0} (step : I → S → T → S × T) where
  -- Task number `j` takes one step. A number that names no task changes nothing.
  unfoldable pub turn : System S T → ℕ × I → System S T
  turn y (j, c) = elim (get_elem? y.tasks j) [
    | none ↦ y
    | some t ↦ record {
      shared = (step c y.shared t).0;
      tasks = set y.tasks j (step c y.shared t).1;
    }
  ]

  unfoldable pub run : System S T → List (ℕ × I) → System S T
  unfolding turn
  run y [] = y
  run y (c ∷ cs) = run (turn y c) cs

  pub run-append : (y : System S T) (ms ns : List (ℕ × I)) → run y (ms ++ ns) ≡ run (run y ms) ns
  unfolding run
  run-append y [] ns = refl
  run-append y (m ∷ ms) ns = run-append (turn y m) ms ns

  pub turn-none : (y : System S T) (j : ℕ) (c : I) → get_elem? y.tasks j ≡ none → turn y (j, c) ≡ y
  unfolding turn
  turn-none y j c e = rw (e, turn) refl

  pub turn-some :
      (y : System S T) (j : ℕ) (c : I) (t : T)
      → get_elem? y.tasks j ≡ some t
      → turn y (j, c)
        ≡ record { shared = (step c y.shared t).0; tasks = set y.tasks j (step c y.shared t).1 }
  unfolding turn
  turn-some y j c t e = rw (e, turn) refl

  -- A turn of a task that is there.
  pub turn-own :
      (y : System S T) (j : ℕ) (c : I) (t : T)
      → get_elem? y.tasks j ≡ some t
      → ((turn y (j, c)).shared ≡ (step c y.shared t).0)
        × (get_elem? (turn y (j, c)).tasks j ≡ some (step c y.shared t).1)
  unfolding turn
  turn-own y j c t e = rw (e, turn) (refl, get_elem?-set_self y.tasks j t _ e)

  -- What a step of any task keeps under a choice, a turn with that choice keeps.
  pub turn-keeps_choice {κ} :
      (P : S → List T → Type κ) (c : I)
      → ((s : S) (before : List T) (t : T) (after : List T)
          → P s (before ++ t ∷ after)
          → P (step c s t).0 (before ++ (step c s t).1 ∷ after))
      → (y : System S T) (j : ℕ) → P y.shared y.tasks
      → P (turn y (j, c)).shared (turn y (j, c)).tasks
  unfolding turn
  turn-keeps_choice P c keep y j h = elim (Option-cases (get_elem? y.tasks j)) [
    | inl e ↦ rw (e, turn) h
    | inr (t, e) ↦
        let (before, after, p, q) = set-split y.tasks j t e in
        rw (e, turn, q) (keep y.shared before t after (subst (P y.shared) p h))
  ]

  -- What a step of any task keeps, a turn keeps.
  pub turn-keeps {κ} :
      (P : S → List T → Type κ)
      → ((c : I) (s : S) (before : List T) (t : T) (after : List T)
          → P s (before ++ t ∷ after)
          → P (step c s t).0 (before ++ (step c s t).1 ∷ after))
      → (y : System S T) (m : ℕ × I) → P y.shared y.tasks
      → P (turn y m).shared (turn y m).tasks
  turn-keeps P keep y (j, c) h = turn-keeps_choice P c (keep c) y j h

  -- So does a run.
  pub run-keeps {κ} :
      (P : S → List T → Type κ)
      → ((c : I) (s : S) (before : List T) (t : T) (after : List T)
          → P s (before ++ t ∷ after)
          → P (step c s t).0 (before ++ (step c s t).1 ∷ after))
      → (y : System S T) (ms : List (ℕ × I)) → P y.shared y.tasks
      → P (run y ms).shared (run y ms).tasks
  unfolding run
  run-keeps P keep y [] h = h
  run-keeps P keep y (m ∷ ms) h = run-keeps P keep (turn y m) ms (turn-keeps P keep y m h)

  -- What a step keeps under some choices, a run with those choices keeps.
  pub run-keeps_choices {κ μ} :
      (P : S → List T → Type κ) (Allowed : I → Type μ)
      → ((c : I)
          → Allowed c
          → (s : S) (before : List T) (t : T) (after : List T) → P s (before ++ t ∷ after)
          → P (step c s t).0 (before ++ (step c s t).1 ∷ after))
      → (y : System S T) (ms : List (ℕ × I)) → AllChoices Allowed ms
      → P y.shared y.tasks
      → P (run y ms).shared (run y ms).tasks
  unfolding run
  run-keeps_choices P Allowed keep y [] a h = h
  run-keeps_choices P Allowed keep y ((j, c) ∷ ms) a h =
      run-keeps_choices P Allowed keep (turn y (j, c)) ms a.1
        (turn-keeps_choice P c (keep c a.0) y j h)
