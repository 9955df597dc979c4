-- ===== src/Listeners/Runs.antt =====
-- Runs of tasks that store listeners of one event.
use async_lock.Base.{ℕ, ◌≡◌, ◌⊎◌, Option, some, none, inl, inr, List, [], ◌∷◌, Option-cases}
use async_lock.Event.{EventOps, IsRegistering}
use async_lock.Tasks.{System, run, turn, get_elem?, set, All, All-get}
use async_lock.Listeners.{Uses, IsTidy, Heard, set-IsTidy, set-Heard}

module _ {Event L : Type 0} (E : EventOps Event L) (Listening Notified : Event → L → Type 0)
    (R : IsRegistering E Listening Notified) {I S P : Type 0} (step : I → S → P → S × P)
    (listener : P → Option L) (event : S → Event) (Good : S → List P → P → Type 0)
    (Known : S → List P → Type 0)
    (knows : (y : System S P) (m : ℕ × I)
      → Known y.shared y.tasks
      → Known (turn step y m).shared (turn step y m).tasks)
    (uses : (c : I) (s : S) (ts : List P) (j : ℕ) (p : P)
      → Known s ts
      → get_elem? ts j ≡ some p
      → Uses E (event s) (listener p) (event (step c s p).0) (listener (step c s p).1))
    (others : (c : I) (s : S) (ts : List P) (j : ℕ) (p : P)
      → get_elem? ts j ≡ some p
      → (r : P) (l : L) → Good s ts r
      → Listening (event s) l
      → Good (step c s p).0 (set ts j (step c s p).1) r ⊎ Notified (event (step c s p).0) l)
    (own : (c : I) (s : S) (ts : List P) (j : ℕ) (p : P)
      → Known s ts
      → get_elem? ts j ≡ some p
      → (l : L) → listener (step c s p).1 ≡ some l
      → (listener p ≡ some l → Good s ts p ⊎ Notified (event s) l)
      → Good (step c s p).0 (set ts j (step c s p).1) (step c s p).1
        ⊎ Notified (event (step c s p).0) l) where
  -- What is known, and the listeners that are stored.
  abbrev Tended : System S P → Type 0
  Tended y =
      Known y.shared y.tasks
      × IsTidy E Listening Notified R listener (event y.shared) y.tasks
      × Heard E Listening Notified R listener event Good y.shared y.tasks

  turn-Tended : (y : System S P) (j : ℕ) (c : I) → Tended y → Tended (turn step y (j, c))
  unfolding turn
  turn-Tended y j c (k, tidy, heard) = elim (Option-cases (get_elem? y.tasks j)) [
    | inl e ↦ rw (e, turn) (k, tidy, heard)
    | inr (p, e) ↦
        let k' = knows y (j, c) k in
        let u = uses c y.shared y.tasks j p k e in
        rw (e, turn)
          (
            rw (e, turn) at k',
            set-IsTidy E Listening Notified R listener _ _ y.tasks j p _ e tidy u,
            set-Heard E Listening Notified R listener event Good y.shared _ y.tasks j p _ e tidy u
                (others c y.shared y.tasks j p e) (own c y.shared y.tasks j p k e) heard,
          )
  ]

  run-Tended : (y : System S P) (ms : List (ℕ × I)) → Tended y → Tended (run step y ms)
  unfolding run
  run-Tended y [] h = h
  run-Tended y ((j, c) ∷ ms) h = run-Tended (turn step y (j, c)) ms (turn-Tended y j c h)

  -- From a start where no task stores a listener, every stored listener is in a good place or notified.
  pub run-Heard :
      (y : System S P) (ms : List (ℕ × I))
      → Known y.shared y.tasks
      → All (λ p. listener p ≡ none) y.tasks
      → let z = run step y ms in
        Known z.shared z.tasks × Heard E Listening Notified R listener event Good z.shared z.tasks
  run-Heard y ms k start =
      let bare = λ (i : ℕ) (p : P) (e : get_elem? y.tasks i ≡ some p).
        All-get (λ p. listener p ≡ none) y.tasks i p start e in
      let (k', _, heard) = run-Tended y ms (
        k,
        record {
          registered = λ i p l e f. absurd (let g = bare i p e in cc);
          distinct = λ i j p q l e f g h. absurd (let b = bare i p e in cc);
        },
        λ i p l e f. absurd (let g = bare i p e in cc),
      ) in
      (k', heard)
