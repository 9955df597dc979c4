-- ===== src/OnceCell/Refine.antt =====
-- src/once_cell.rs: each step of a call as an act on the abstract cell.
use async_lock.Base.{
  ℕ, ◌≤◌, ◌≡◌, ◌≢◌, ◌⊎◌, inl, inr, refl, Bool-cases, sym, ap, ap₂, subst, ◌∙◌, false, is_none,
  if◌then◌else◌, ◌==◌, Option, none, some, Option-cases, List, arith,
}
use async_lock.Event.{EventOps, IsQuietable}
use async_lock.Tasks.{run, turn, turn-none, turn-some, turn-keeps_choice, le-total, get_elem?}
use async_lock.OnceCell.{
  OnceCell, computes, gives, Call, gets, waits, initializes, tries_set, Pc, ready, init_gets,
  init_swaps, stores, writes, guard_stores, try_set_swaps, Choice, init, step,
}
use async_lock.OnceCell.Owned.{owning, filling, AllOwned, keeps-AllOwned, run-AllOwned}
use async_lock.OnceCell.Spec.{Cell, empty, busy, full, Act, stays, starts, gives_up, fills, perform}

abbrev view_of : {T : Type 0} → ℕ → Option T → Option (Cell T)
view_of state value =
    if state == 0
    then some empty
    else if state == 1
    then some busy
    else elim value [ none ↦ none | some v ↦ some (full v) ]

module _ {Event T : Type 0} where
  -- The abstract state: `none` is an initialized cell without a value.
  unfoldable pub view : OnceCell Event T → Option (Cell T)
  view s = view_of s.state s.value

  -- The act that a step carries out.
  unfoldable act_of : {Listener Error : Type 0} → OnceCell Event T → Pc Listener T Error → Act T
  act_of s (init_swaps _ _) = if s.state == 0 then starts else stays
  act_of s (try_set_swaps _) = if s.state == 0 then starts else stays
  act_of s (stores _) = elim s.value [ none ↦ stays | some v ↦ fills v ]
  act_of s (guard_stores _ _) = gives_up
  act_of s p = stays

  -- How an act shows in the state word and in the memory.
  abbrev Performs : Act T → OnceCell Event T → OnceCell Event T → Type 0
  Performs a s t =
      ((a ≡ stays) × (t.state ≡ s.state) × ((t.value ≡ s.value) ⊎ (s.state ≡ 1)))
      ⊎ (((a ≡ starts) × (s.state ≡ 0) × (t.state ≡ 1))
          ⊎ (((a ≡ gives_up) × (s.state ≡ 1) × (t.state ≡ 0))
              ⊎ ((v : T) × (a ≡ fills v) × (s.state ≡ 1) × (t.state ≡ 2) × (t.value ≡ some v))))

module _ {Event Listener T Error : Type 0} (E : EventOps Event Listener) where
  step-Performs :
      (c : Choice T Error) (s : OnceCell Event T) (p : Pc Listener T Error)
      → (owning p ≡ 0) ⊎ (s.state ≡ 1)
      → (filling p ≡ 0) ⊎ (is_none s.value ≡ false)
      → Performs (act_of s p) s (step E c s p).0
  unfolding step act_of
  step-Performs c s (ready gets) o f = inl (refl, refl, inl refl)
  step-Performs c s (ready waits) o f = inl (refl, refl, inl refl)
  step-Performs c s (ready (initializes job)) o f = inl (refl, refl, inl refl)
  step-Performs c s (ready (tries_set v)) o f = inl (refl, refl, inl refl)
  step-Performs c s (init_gets computes) o f = inl (refl, refl, inl refl)
  step-Performs c s (init_gets (gives v)) o f = inl (refl, refl, inl refl)
  step-Performs c s (init_swaps job l) o f = elim (Bool-cases (s.state == 0)) [
    | inl e ↦ inr (inl (rw e refl, ground arith, rw e refl))
    | inr e ↦ inl (rw e refl, rw e refl, inl (rw e refl))
  ]
  step-Performs c s (try_set_swaps v) o f = elim (Bool-cases (s.state == 0)) [
    | inl e ↦ inr (inl (rw e refl, ground arith, rw e refl))
    | inr e ↦ inl (rw e refl, rw e refl, inl (rw e refl))
  ]
  step-Performs c s (stores k) o f = elim (Option-cases s.value) [
    | inl e ↦ absurd (ground arith)
    | inr (v, e) ↦ inr (inr (inr (v, rw e refl, ground arith, refl, e)))
  ]
  step-Performs c s (writes v k) o f = inl (refl, refl, inr (ground arith))
  step-Performs c s (guard_stores l r) o f = inr (inr (inl (refl, ground arith, refl)))
  step-Performs c s p o f = inl (refl, refl, inl refl)

module _ {Event T : Type 0} where
  -- A cell in a valid state, with a value if it is initialized, has a view.
  pub view-known :
      (s : OnceCell Event T)
      → s.state ≤ 2
      → (s.state ≢ 2) ⊎ (is_none s.value ≡ false)
      → (x : Cell T) × (view s ≡ some x)
  unfolding view
  view-known s r f = elim (Option-cases (view s)) [
    | inl e ↦ absurd (elim (Option-cases s.value) [
      | inl n ↦ ground arith
      | inr (v, k) ↦ let g = rw k at e in ground arith
    ])
    | inr known ↦ known
  ]

  -- The abstract act is allowed, and gives the view of the cell afterwards.
  Performs-perform :
      (a : Act T) (s t : OnceCell Event T) (x : Cell T)
      → s.state ≤ 2
      → Performs a s t
      → view s ≡ some x
      → perform a x ≡ view t
  unfolding view perform
  Performs-perform a s t x r (inl (p, q, inl w)) e =
      ap (λ b. perform b x) p ∙ sym e ∙ sym (ap₂ view_of q w)
  Performs-perform a s t x r (inl (p, q, inr one)) e =
      let is_busy : busy ≡ x = let g = rw one at e in cc in
      ap (λ b. perform b x) p ∙ subst (λ y. perform stays y ≡ view t) is_busy (rw (q ∙ one) refl)
  Performs-perform a s t x r (inr (inl (p, q, w))) e =
      let is_empty : empty ≡ x = let g = rw q at e in cc in
      ap (λ b. perform b x) p ∙ subst (λ y. perform starts y ≡ view t) is_empty (rw w refl)
  Performs-perform a s t x r (inr (inr (inl (p, q, w)))) e =
      let is_busy : busy ≡ x = let g = rw q at e in cc in
      ap (λ b. perform b x) p ∙ subst (λ y. perform gives_up y ≡ view t) is_busy (rw w refl)
  Performs-perform a s t x r (inr (inr (inr (v, p, q, w, k)))) e =
      let is_busy : busy ≡ x = let g = rw q at e in cc in
      ap (λ b. perform b x) p ∙ subst (λ y. perform (fills v) y ≡ view t) is_busy (rw (w, k) refl)

module _ {Event Listener T Error : Type 0} (E : EventOps Event Listener) (Quiet : Event → Type 0)
    (laws : IsQuietable E Quiet) where
  -- What an invariant says of one of the tasks.
  step-performs :
      (c : Choice T Error) (s : OnceCell Event T) (ts : List (Pc Listener T Error)) (j : ℕ)
      (p : Pc Listener T Error)
      → AllOwned E Quiet laws s ts
      → get_elem? ts j ≡ some p
      → (x : Cell T) → view s ≡ some x
      → perform (act_of s p) x ≡ view (step E c s p).0
  step-performs c s ts j p i e x f =
      let owns = le-total owning ts j p e in
      let fills_it = le-total filling ts j p e in
      Performs-perform (act_of s p) s (step E c s p).0 x i.range
        (step-Performs E c s p (ground (arith, i.owned, owns)) (ground (arith, i.filled, fills_it)))
        f

  -- After every schedule the cell shows as an abstract cell of OnceCell/Spec, and every turn of every
  -- task does to it what an act does that is allowed there: a call starts only on an empty cell, gives
  -- up or fills one that a call has started, and a full cell keeps its value. It rests on what
  -- event_listener says of an event that nobody has notified.
  pub once_cell_refines :
      (calls : List (Call T)) (schedule : List (ℕ × Choice T Error)) (j : ℕ) (c : Choice T Error)
      → let y = run (step E) (init E calls) schedule in
        let z = turn (step E) y (j, c) in
        (x : Cell T) × (view y.shared ≡ some x)
        × ((a : Act T) × (x' : Cell T) × (perform a x ≡ some x') × (view z.shared ≡ some x'))
  unfolding perform
  once_cell_refines calls schedule j c =
      let y = run (step E) (init E calls) schedule in
      let i = run-AllOwned E Quiet laws calls schedule in
      let (x, known) = view-known y.shared i.range i.full in
      let z = turn (step E) y (j, c) in
      let i' =
        turn-keeps_choice (step E) (AllOwned E Quiet laws) c (keeps-AllOwned E Quiet laws c) y j
          i in
      let (x', known') = view-known z.shared i'.range i'.full in
      (
        x,
        known,
        elim (Option-cases (get_elem? y.tasks j)) [
          | inl e ↦ (
            stays,
            x',
            sym known ∙ ap (λ w. view w.shared) (sym (turn-none (step E) y j c e)) ∙ known',
            known',
          )
          | inr (p, e) ↦ (
            act_of y.shared p,
            x',
            step-performs c y.shared y.tasks j p i e x known
                ∙ ap (λ w. view w.shared) (sym (turn-some (step E) y j c p e))
                ∙ known',
            known',
          )
        ],
      )
