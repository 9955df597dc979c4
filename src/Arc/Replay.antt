-- ===== src/Arc/Replay.antt =====
-- `std::sync::Arc`: what the owned calls do to a lock, as steps of borrowed calls.
use async_lock.Base.{
  ℕ, ◌<◌, ◌≡◌, ◌⊎◌, inl, inr, refl, ap, ap₂, sym, ◌∙◌, Bool, true, false, some, Option-cases, List,
  [], ◌∷◌, ◌++◌, map, arith,
}
use async_lock.Tasks.{
  System, run, length, All, le-total, All-get, run-append, turn, turn-none, turn-some, get_elem?,
  set, map-set, get_elem?-map, set-get_elem?,
}
use async_lock.Arc.{
  Heap, Owner, owns, dangles, Action, clones, drops_arc, drops_handle, accesses, drops_and_accesses,
  rests, lets_go, Choice, location, release, access, act, owned_step, share,
}
use async_lock.Arc.Count.{refs, over_at, IsHeld, IsLegal, held-refs, run-Shared}

module _ {I S P : Type 0} (step : I → S → P → S × P) where
  -- An action on a lock that is still there leaves it and the call's place, or is an access.
  act-replays :
      (a : Action I P) (c : I) (s : Heap S) (p : P) (h : Bool) (n : ℕ) (x' : S)
      → (act step a c s p h n).0.object ≡ some x'
      → (x : S) × (s.object ≡ some x)
        × (((x' ≡ x) × (location (act step a c s p h n).1 ≡ p))
            ⊎ ((j : I) × (x' ≡ (step j x p).0)
                × (location (act step a c s p h n).1 ≡ (step j x p).1)))
  unfolding act release access
  act-replays clones c s p h n x' e = (x', e, inl (refl, refl))
  act-replays drops_arc c s p h n x' e = (x', ground arith, inl (refl, refl))
  act-replays drops_handle c s p h n x' e = (x', ground arith, inl (refl, refl))
  act-replays accesses c s p h n x' e = elim (Option-cases s.object) [
    | inl f ↦ absurd (ground arith)
    | inr (x, f) ↦ (x, f, inr (c, ground arith, ground arith))
  ]
  act-replays drops_and_accesses c s p h n x' e = elim (Option-cases (release s).object) [
    | inl f ↦ absurd (ground arith)
    | inr (x, f) ↦ (x, ground arith, inr (c, ground arith, ground arith))
  ]
  act-replays rests c s p h n x' e = (x', e, inl (refl, refl))
  act-replays (lets_go j q) c s p h n x' e = elim (Option-cases s.object) [
    | inl f ↦ absurd (ground arith)
    | inr (x, f) ↦ (x, f, inr (j, ground arith, ground arith))
  ]

module _ {I S P : Type 0} (step : I → S → P → S × P)
    (next : Choice I → P → Bool → ℕ → Action I P) where
  abbrev at_rest : S → List P → System S P
  at_rest x ts = record { shared = x; tasks = ts }

  -- The borrowed calls, with the lock as `x`.
  abbrev pub borrowed : S → List (Owner P) → System S P
  borrowed x ts = at_rest x (map location ts)

  step-replays :
      (c : Choice I) (s : Heap S) (o : Owner P) (x' : S)
      → (owned_step step next c s o).0.object ≡ some x'
      → let q = location (owned_step step next c s o).1 in
        (x : S) × (s.object ≡ some x)
        × (((x' ≡ x) × (q ≡ location o))
            ⊎ ((i : I) × (x' ≡ (step i x (location o)).0) × (q ≡ (step i x (location o)).1)))
  unfolding owned_step
  step-replays c s (owns p h n) x' e = act-replays step (next c p h n) c.access s p h n x' e
  step-replays c s (dangles p) x' e = (x', e, inl (refl, refl))

  location-owns : (ts : List P) → map location (map (λ p. owns p true 0) ts) ≡ ts
  location-owns [] = refl
  location-owns (t ∷ ts) = ap (◌∷◌ t) (location-owns ts)

  -- A turn of an owned call is a turn of the borrowed call, or changes nothing for it.
  turn-replays :
      (y : System (Heap S) (Owner P)) (j : ℕ) (c : Choice I) (x' : S)
      → (turn (owned_step step next) y (j, c)).shared.object ≡ some x'
      → let z = turn (owned_step step next) y (j, c) in
        (x : S) × (y.shared.object ≡ some x)
        × ((borrowed x' z.tasks ≡ borrowed x y.tasks)
            ⊎ ((i : I) × (borrowed x' z.tasks ≡ turn step (borrowed x y.tasks) (j, i))))
  turn-replays y j c x' e = elim (Option-cases (get_elem? y.tasks j)) [
    | inl f ↦
        let same = turn-none (owned_step step next) y j c f in
        (x', rw same at e, inl (ap (λ z. borrowed x' z.tasks) same))
    | inr (o, f) ↦
        let moved = turn-some (owned_step step next) y j c o f in
        let (x, live, d) = step-replays c y.shared o x' (rw moved at e) in
        let q : Owner P = (owned_step step next c y.shared o).1 in
        let there = get_elem?-map location y.tasks j o f in
        let after = ap (λ z. map location z.tasks) moved ∙ map-set location y.tasks j q in
        (
          x,
          live,
          elim d [
            | inl (p, r) ↦ inl (
                ap₂ at_rest p (
                  after
                  ∙ ap (set (map location y.tasks) j) r
                  ∙ set-get_elem? _ j (location o) there))
            | inr (i, p, r) ↦ inr (
              i,
              ap₂ at_rest p (after ∙ ap (set (map location y.tasks) j) r)
                  ∙ sym (turn-some step (borrowed x y.tasks) j i (location o) there),
            )
          ],
        )
  ]

  replay-more :
      (y : System S P) (z : System (Heap S) (Owner P)) (ms : List (ℕ × Choice I))
      → ((x : S)
          → z.shared.object ≡ some x
          → (s : List (ℕ × I)) × (run step y s ≡ borrowed x z.tasks))
      → (x : S) → (run (owned_step step next) z ms).shared.object ≡ some x
      → (s : List (ℕ × I)) × (run step y s ≡ borrowed x (run (owned_step step next) z ms).tasks)
  unfolding run
  replay-more y z [] h x e = h x e
  replay-more y z ((j, c) ∷ ms) h x e =
      replay-more y (turn (owned_step step next) z (j, c)) ms
        (λ x' e'.
          let (x0, live, d) = turn-replays z j c x' e' in
          let (s, f) = h x0 live in
          elim d [
            | inl p ↦ (s, f ∙ sym p)
            | inr (i, p) ↦ (
              s ++ (j, i) ∷ [],
              run-append step y s ((j, i) ∷ []) ∙ ap (λ w. turn step w (j, i)) f ∙ sym p,
            )
          ])
        x e

  -- As long as the lock is there, the owned calls have done to it what some schedule of the borrowed
  -- calls does, and stand where those stand.
  pub replay :
      (y : System S P) (schedule : List (ℕ × Choice I)) (x : S)
      → let z = run (owned_step step next) (share y) schedule in
        z.shared.object ≡ some x → (s : List (ℕ × I)) × (run step y s ≡ borrowed x z.tasks)
  unfolding share run
  replay y schedule x e =
      replay-more y (share y) schedule
        (λ x' e'.
          let same : y.shared ≡ x' = cc in ([], ap₂ at_rest same (sym (location-owns y.tasks))))
        x e

module _ {I S P : Type 0} (step : I → S → P → S × P) (over fits : P → ℕ → Bool)
    (next : Choice I → P → Bool → ℕ → Action I P)
    (legal : (c : Choice I) (p : P) (h : Bool) (n : ℕ)
      → IsHeld over fits (owns p h n)
      → IsLegal over fits step c.access p h n (next c p h n)) where
  -- While a call goes on, or a guard lives, the lock is there.
  pub replay-live :
      (y : System S P) (schedule : List (ℕ × Choice I)) (i : ℕ) (o : Owner P)
      → 0 < length y.tasks
      → get_elem? (run (owned_step step next) (share y) schedule).tasks i ≡ some o
      → All (λ p. fits p 0 ≡ true) y.tasks
      → over_at over fits o ≡ false
      → let z = run (owned_step step next) (share y) schedule in
        (x : S) × (z.shared.object ≡ some x)
        × ((s : List (ℕ × I)) × (run step y s ≡ borrowed step next x z.tasks))
  replay-live y schedule i o few e f goes =
      let z = run (owned_step step next) (share y) schedule in
      let (shared, held) = run-Shared step over fits next legal y schedule few f in
      let one = held-refs over fits o (All-get (IsHeld over fits) z.tasks i o held e) goes in
      elim (Option-cases z.shared.object) [
        | inl gone ↦
            absurd
              (ground (arith, shared.exact, shared.freed, one, le-total refs z.tasks i o e, gone))
        | inr (x, live) ↦ (x, live, replay step next y schedule x live)
      ]
