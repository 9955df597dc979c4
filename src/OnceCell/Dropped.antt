-- ===== src/OnceCell/Dropped.antt =====
-- src/once_cell.rs: the memory of the value, up to the drop of the cell.
use async_lock.Base.{
  false, ℕ, ◌+◌, ◌≤◌, ◌≡◌, ◌≢◌, ◌⊎◌, inl, refl, true, is_none, if◌then◌else◌, ◌==◌, Option, none,
  some, List, [], ◌∷◌, ◌++◌, arith,
}
use async_lock.Event.{EventOps, IsQuietable}
use async_lock.Tasks.{run, run-keeps, total, total-split, total_mono}
use async_lock.OnceCell.{
  OnceCell, computes, gives, Call, gets, waits, initializes, tries_set, by_try_set, by_init, Pc,
  ready, init_gets, runs, wakes_passive, init_drops, Choice, new, init, step,
}
use async_lock.OnceCell.Owned.{
  owning, filling, filling-le-owning, AllOwned, keeps-AllOwned, run-AllOwned,
}
use async_lock.OnceCell.Exclusive.{
  dropped_in_place, drops_nothing, drops_value, take, into_inner, drop,
}

-- The memory holds a value only if the cell is initialized or a task has just written it.
abbrev Accounted : {T : Type 0} → (state : ℕ) → Option T → (filled : ℕ) → Type 0
Accounted state value filled = (is_none value ≡ true) ⊎ ((state ≡ 2) ⊎ (1 ≤ filled))

module _ {Event T : Type 0} where
  abbrev IsDroppedOnce : OnceCell Event T → Type 0
  IsDroppedOnce s =
      (drop s ≡ some (elim s.value [ none ↦ drops_nothing | some v ↦ drops_value v ]))
      × (into_inner s ≡ some s.value)
      × ((t : OnceCell Event T) × (take s ≡ some (t, s.value))
          × (drop t ≡ some drops_nothing)
          × (into_inner t ≡ some none))

  Accounted-IsDroppedOnce :
      (s : OnceCell Event T)
      → s.state ≤ 2
      → s.state ≢ 1
      → (s.state ≢ 2) ⊎ (is_none s.value ≡ false)
      → Accounted s.state s.value 0
      → IsDroppedOnce s
  unfolding drop into_inner take dropped_in_place
  Accounted-IsDroppedOnce s r u f a = (
    ground arith,
    ground arith,
    (
      if s.state == 2 then record s { state = 0; value = none } else s,
      ground arith,
      ground arith,
      ground arith,
    ),
  )

module _ {Event Listener T Error : Type 0} (E : EventOps Event Listener) (Quiet : Event → Type 0)
    (laws : IsQuietable E Quiet) where
  -- `o` other tasks initialize the cell, `f` of them have written it.
  step-Accounted :
      (c : Choice T Error) (s : OnceCell Event T) (p : Pc Listener T Error) (o f : ℕ)
      → f ≤ o
      → (owning p + o ≡ 0) ⊎ ((owning p + o ≡ 1) × (s.state ≡ 1))
      → Accounted s.state s.value (filling p + f)
      → let y = step E c s p in Accounted y.0.state y.0.value (filling y.1 + f)
  unfolding step
  step-Accounted c s (ready gets) o f h i a = ground arith
  step-Accounted c s (ready waits) o f h i a = ground arith
  step-Accounted c s (ready (initializes job)) o f h i a = ground arith
  step-Accounted c s (ready (tries_set v)) o f h i a = ground arith
  step-Accounted c s (init_gets computes) o f h i a = ground arith
  step-Accounted c s (init_gets (gives v)) o f h i a = ground arith
  step-Accounted c s (runs computes l) o f h i a = ground arith
  step-Accounted c s (runs (gives v) l) o f h i a = ground arith
  step-Accounted c s (wakes_passive by_try_set) o f h i a = ground arith
  step-Accounted c s (wakes_passive (by_init job l)) o f h i a = ground arith
  step-Accounted c s (init_drops computes own l) o f h i a = ground arith
  step-Accounted c s (init_drops (gives v) own l) o f h i a = ground arith
  step-Accounted c s p o f h i a = ground arith

  abbrev AllAccounted : OnceCell Event T → List (Pc Listener T Error) → Type 0
  AllAccounted s ts = AllOwned E Quiet laws s ts × Accounted s.state s.value (total filling ts)

  keeps-AllAccounted :
      (c : Choice T Error) (s : OnceCell Event T) (before : List (Pc Listener T Error))
      (p : Pc Listener T Error) (after : List (Pc Listener T Error))
      → AllAccounted s (before ++ p ∷ after)
      → AllAccounted (step E c s p).0 (before ++ (step E c s p).1 ∷ after)
  keeps-AllAccounted c s before p after (i, a) =
      let owners = total-split owning before p after in
      (
        keeps-AllOwned E Quiet laws c s before p after i,
        rw (total-split filling before (step E c s p).1 after) (
            step-Accounted c s p (total owning before + total owning after)
              (total filling before + total filling after)
              (omega (
                arith,
                total_mono filling owning filling-le-owning before,
                total_mono filling owning filling-le-owning after,
              ))
              (ground (arith, owners, i.owned)) (rw (total-split filling before p after) at a)),
      )

  -- Wherever no call is initializing the cell, so that it can be dropped or borrowed mutably, the drop
  -- of the cell drops a value exactly if its memory holds one, `take` and `into_inner` move the same
  -- value out, and the drop of the cell that `take` leaves drops nothing: after every schedule the value
  -- that was written is dropped or moved once, never leaked. It rests on what event_listener says of an
  -- event that nobody has notified.
  pub dropped_once :
      (todo : List (Call T)) (schedule : List (ℕ × Choice T Error))
      → total owning (run (step E) (init E todo) schedule).tasks ≡ 0
      → let s = (run (step E) (init E todo) schedule).shared in
        (drop s ≡ some (elim s.value [ none ↦ drops_nothing | some v ↦ drops_value v ]))
        × (into_inner s ≡ some s.value)
        × ((t : OnceCell Event T) × (take s ≡ some (t, s.value))
            × (drop t ≡ some drops_nothing)
            × (into_inner t ≡ some none))
  unfolding init new run
  dropped_once todo schedule nobody =
      let y = run (step E) (init E todo) schedule in
      let (i, a) =
        run-keeps (step E) AllAccounted keeps-AllAccounted (init E todo) schedule
          (run-AllOwned E Quiet laws todo [], inl refl) in
      let written = total_mono filling owning filling-le-owning y.tasks in
      let unwritten : total filling y.tasks ≡ 0 = omega (arith, written, nobody) in
      Accounted-IsDroppedOnce y.shared i.range (λ e. absurd (ground (arith, i.owned))) i.full
        (rw unwritten at a)
