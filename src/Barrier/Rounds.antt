-- ===== src/Barrier/Rounds.antt =====
-- src/barrier.rs: how many calls arrive, how many are leaders and how many may return.
use async_lock.Base.{
  ℕ, ◌+◌, ◌*◌, ◌^◌, ◌≤◌, ◌<◌, ◌≡◌, ◌⊎◌, ◌%◌, inl, inr, refl, ap, false, wrapping_add, Option, List,
  [], ◌∷◌, ◌++◌, arith,
}
use async_lock.Event.{EventOps}
use async_lock.Tasks.{run, run-keeps, total, total-split, total-map_zero, total_mono}
use async_lock.Mutex.Acquire.{Lock, unpolled, taken, gone, poll}
use async_lock.Mutex.Protection.{poll-value}
use async_lock.Barrier.{
  Barrier, Pc, initial, arrives, wait_next, return_next, unlocks, notifies, reacquiring,
  then_arrive, then_check, Choice, step, new, init,
}
use async_lock.Barrier.Seats.{
  waiting, waiting_in, leading, seats, returning, abandoned, waiting_in-le-waiting, seats-leading,
  IsSeated, step-IsSeated,
}

module _ {Listener : Type 0} where
  then_arrive-leads : (l : Lock Listener) → leading (then_arrive l) ≡ 0
  unfolding then_arrive
  then_arrive-leads gone = refl
  then_arrive-leads taken = refl
  then_arrive-leads l = refl

  then_check-leads :
      (g : ℕ) (evl : Option Listener) (l : Lock Listener) → leading (then_check g evl l) ≡ 0
  unfolding then_check
  then_check-leads g evl gone = refl
  then_check-leads g evl taken = refl
  then_check-leads g evl l = refl

module _ {Event Listener : Type 0} (E : EventOps Event Listener) where
  abbrev Seated : ℕ → Barrier Event → List (Pc Listener) → Type 0
  Seated n s ts =
      IsSeated n s.n s.state.value.count (total waiting ts)
        (total (waiting_in s.state.value.generation_id) ts) (total (seats n) ts)
        (total returning ts) (total abandoned ts)

  keeps-Seated :
      (n : ℕ) (c : Choice) (s : Barrier Event) (before : List (Pc Listener)) (p : Pc Listener)
      (after : List (Pc Listener))
      → Seated n s (before ++ p ∷ after)
      → Seated n (step E c s p).0 (before ++ (step E c s p).1 ∷ after)
  keeps-Seated n c s before p after i =
      let q : Pc Listener = (step E c s p).1 in
      rw
        (
          total-split waiting before q after,
          total-split (waiting_in (step E c s p).0.state.value.generation_id) before q after,
          total-split (seats n) before q after,
          total-split returning before q after,
          total-split abandoned before q after,
        )
        (step-IsSeated E c s p n (total waiting before + total waiting after)
          (λ g. total (waiting_in g) before + total (waiting_in g) after)
          (total (seats n) before + total (seats n) after)
          (total returning before + total returning after)
          (total abandoned before + total abandoned after)
          (rw
            (
              total-split waiting before p after,
              total-split (waiting_in s.state.value.generation_id) before p after,
              total-split (seats n) before p after,
              total-split returning before p after,
              total-split abandoned before p after,
            )
            at i))

  init-Seated :
      (n : ℕ) (calls : List (Unit {0}))
      → 0 < n
      → n < 2 ^ 64
      → Seated n (init E n calls).shared (init E n calls).tasks
  unfolding init new
  init-Seated n calls pos fits =
      let none_yet : (w : Pc Listener → ℕ)
          → w (initial unpolled) ≡ 0
          → total w (init E n calls).tasks ≡ 0 =
        λ w e. total-map_zero w (λ _. initial unpolled) (λ _. e) calls in
      record {
        same = refl;
        fits = fits;
        balance = omega (
          arith,
          none_yet waiting refl,
          none_yet (seats n) refl,
          none_yet returning refl,
          none_yet abandoned refl,
        );
        room = pos;
        present = omega arith;
      }

  -- The seats of the rounds that the leaders complete are `n` for each leader.
  total-seats : (n : ℕ) (ts : List (Pc Listener)) → total (seats n) ts ≡ n * total leading ts
  unfolding total
  total-seats n [] = omega arith
  total-seats n (p ∷ ts) = grind (arith, seats-leading n p, total-seats n ts)

  -- The generation counts the leaders.
  step-leads :
      (c : Choice) (s : Barrier Event) (p : Pc Listener)
      → let y = step E c s p in
        ((leading y.1 ≡ leading p) × (y.0.state.value.generation_id ≡ s.state.value.generation_id))
        ⊎ ((leading y.1 ≡ leading p + 1)
            × (y.0.state.value.generation_id ≡ wrapping_add s.state.value.generation_id 1))
  unfolding step
  step-leads c s (initial l) = inl (
    then_arrive-leads (poll E c.late c.cancel s.state l).1,
    ap (λ v. v.generation_id) (poll-value E c.late c.cancel s.state l),
  )
  step-leads c s (reacquiring g evl unpolled) = inl (
    then_check-leads g evl (poll E c.late false s.state unpolled).1,
    ap (λ v. v.generation_id) (poll-value E c.late false s.state unpolled),
  )
  step-leads c s (reacquiring g evl l) = inl (
    then_check-leads g evl (poll E c.late c.cancel s.state l).1,
    ap (λ v. v.generation_id) (poll-value E c.late c.cancel s.state l),
  )
  step-leads c s arrives = ground arith
  step-leads c s (unlocks (wait_next g evl)) = inl (refl, refl)
  step-leads c s (unlocks (return_next o evl)) = inl (refl, refl)
  step-leads c s (notifies (wait_next g evl)) = inl (refl, refl)
  step-leads c s (notifies (return_next o evl)) = inl (refl, refl)
  step-leads c s p = ground arith

  abbrev Led : Barrier Event → List (Pc Listener) → Type 0
  Led s ts = s.state.value.generation_id ≡ total leading ts % 2 ^ 64

  keeps-Led :
      (c : Choice) (s : Barrier Event) (before : List (Pc Listener)) (p : Pc Listener)
      (after : List (Pc Listener))
      → Led s (before ++ p ∷ after)
      → Led (step E c s p).0 (before ++ (step E c s p).1 ∷ after)
  keeps-Led c s before p after i =
      let a = total-split leading before p after in
      let b = total-split leading before (step E c s p).1 after in
      elim (step-leads c s p) [
        | inl (e, f) ↦ omega (arith, i, a, b, e, f)
        | inr (e, f) ↦ omega (arith, i, a, b, e, f)
      ]

  run-Seated :
      (n : ℕ) (calls : List (Unit {0})) (schedule : List (ℕ × Choice))
      → 0 < n
      → n < 2 ^ 64
      → let y = run (step E) (init E n calls) schedule in Seated n y.shared y.tasks
  run-Seated n calls schedule pos fits =
      run-keeps (step E) (Seated n) (keeps-Seated n) (init E n calls) schedule
        (init-Seated n calls pos fits)

  -- The calls that have been counted, which wait, return or were dropped, are `n` for each leader
  -- and fewer than `n` more, which is the count: each `n`th call and no other is a leader. The
  -- generation is the number of leaders, as a usize. No more calls return than the rounds that leaders
  -- have completed have seats. It holds for every `n` from 1 on that fits a usize, every number of
  -- calls and every schedule of their steps, dropped futures included.
  pub rounds_complete :
      (n : ℕ) (calls : List (Unit {0})) (schedule : List (ℕ × Choice))
      → 0 < n
      → n < 2 ^ 64
      → let y = run (step E) (init E n calls) schedule in
        (total waiting y.tasks + total returning y.tasks + total abandoned y.tasks
          ≡ n * total leading y.tasks + y.shared.state.value.count)
        × (y.shared.state.value.count < n)
        × (y.shared.state.value.generation_id ≡ total leading y.tasks % 2 ^ 64)
        × (total returning y.tasks ≤ n * total leading y.tasks)
  unfolding init new
  rounds_complete n calls schedule pos fits =
      let y = run (step E) (init E n calls) schedule in
      let i = run-Seated n calls schedule pos fits in
      let none_yet =
        total-map_zero (leading {Listener = Listener}) (λ _. initial unpolled) (λ _. refl) calls in
      let led =
        run-keeps (step E) Led keeps-Led (init E n calls) schedule (omega (arith, none_yet)) in
      let e = total-seats n y.tasks in
      let few =
        total_mono (waiting_in y.shared.state.value.generation_id) waiting
          (waiting_in-le-waiting y.shared.state.value.generation_id) y.tasks in
      (omega (arith, i.balance, e), i.room, led, omega (arith, i.balance, i.present, e, few))
