-- ===== src/OnceCell/Passive.antt =====
-- src/once_cell.rs: the notifications of `passive_waiters`, and the calls of `wait`.
use async_lock.Base.{
  ℕ, ◌≤◌, ◌≡◌, ◌≢◌, ◌⊎◌, inl, inr, refl, sym, ◌∙◌, subst, true, false, none, some, List, arith,
}
use async_lock.Event.{EventOps, IsRegistering}
use async_lock.Tasks.{
  System, run, turn, turn-keeps, total, total-split, total-map_zero, total-set, le-total, get_elem?,
  set, get_elem?-set_self, All-map,
}
use async_lock.Listeners.Runs.{run-Heard}
use async_lock.OnceCell.{OnceCell, Call, Pc, ready, Choice, init, step}
use async_lock.OnceCell.Stored.{
  listener, waits_for, announcing, waits_for-listener, deaf, step-deaf, step-Uses, step-announcing,
  step-waits_for,
}

module _ {Event Listener T Error : Type 0} (E : EventOps Event Listener)
    (Listening Notified : Event → Listener → Type 0) (R : IsRegistering E Listening Notified) where
  -- Nothing is owed to the task: it does not wait, or the cell is not initialized, or somebody is about
  -- to notify.
  abbrev Good : OnceCell Event T → List (Pc Listener T Error) → Pc Listener T Error → Type 0
  Good s ts p = (waits_for p ≡ none) ⊎ ((s.state ≢ 2) ⊎ (1 ≤ total announcing ts))

  abbrev Known : OnceCell Event T → List (Pc Listener T Error) → Type 0
  Known s ts = total deaf ts ≡ 0

  others-Good :
      (c : Choice T Error) (s : OnceCell Event T) (ts : List (Pc Listener T Error)) (j : ℕ)
      (p : Pc Listener T Error)
      → get_elem? ts j ≡ some p
      → (r : Pc Listener T Error) (l : Listener) → Good s ts r
      → Listening s.passive_waiters l
      → let y = step E c s p in Good y.0 (set ts j y.1) r ⊎ Notified y.0.passive_waiters l
  others-Good c s ts j p e r l good heard =
      let y = step E c s p in
      let (starts, ends) = step-announcing E Listening Notified R c s p in
      let sum = total-set announcing ts j p y.1 e in
      let mine = le-total announcing (set ts j y.1) j y.1 (get_elem?-set_self ts j p y.1 e) in
      elim good [
        | inl a ↦ inl (inl a)
        | inr (inl d) ↦ elim (starts d) [
          | inl d' ↦ inl (inr (inl d'))
          | inr one ↦ inl (inr (inr (omega (arith, mine, one))))
        ]
        | inr (inr n) ↦ elim ends [
          | inl more ↦ inl (inr (inr (omega (arith, sum, more, n))))
          | inr told ↦
              inr
                (subst (λ x. Notified x l) (sym told) (R.additional_all s.passive_waiters l heard))
        ]
      ]

  own-Good :
      (c : Choice T Error) (s : OnceCell Event T) (ts : List (Pc Listener T Error)) (j : ℕ)
      (p : Pc Listener T Error)
      → Known s ts
      → get_elem? ts j ≡ some p
      → (l : Listener) → listener (step E c s p).1 ≡ some l
      → (listener p ≡ some l → Good s ts p ⊎ Notified s.passive_waiters l)
      → let y = step E c s p in Good y.0 (set ts j y.1) y.1 ⊎ Notified y.0.passive_waiters l
  own-Good c s ts j p k e l f before =
      let y = step E c s p in
      let sum = total-set announcing ts j p y.1 e in
      elim (step-waits_for E Listening Notified R c s p
        (omega (arith, k, le-total deaf ts j p e))) [
          | inl a ↦ inl (inl a)
          | inr (inl d) ↦ inl (inr (inl d))
          | inr (inr (w, same, state, same_n, how)) ↦ elim (before (sym same ∙ f)) [
            | inl (inl a) ↦ absurd (let g = sym same ∙ f in cc)
            | inl (inr (inl d)) ↦ inl (inr (inl (λ g. d (sym state ∙ g))))
            | inl (inr (inr n)) ↦ inl (inr (inr (omega (arith, sum, same_n, n))))
            | inr told ↦ elim how [
              | inl x ↦ inr (subst (λ x. Notified x l) (sym x) told)
              | inr (m, g, u) ↦
                  let is_l : m ≡ l = cc in
                  absurd (
                    let t = R.poll_notified s.passive_waiters l told in
                    let u' = subst (λ z. (E.poll s.passive_waiters (some z)).2 ≡ false) is_l u in
                    cc)
            ]
          ]
        ]

  turn-Known :
      (y : System (OnceCell Event T) (Pc Listener T Error)) (m : ℕ × Choice T Error)
      → Known y.shared y.tasks
      → Known (turn (step E) y m).shared (turn (step E) y m).tasks
  turn-Known y m =
      turn-keeps (step E) Known
        (λ c s before p after k.
          let i = total-split deaf before p after in
          omega (
            arith,
            k,
            i,
            total-split deaf before (step E c s p).1 after,
            step-deaf E Listening Notified R c s p (omega (arith, k, i)),
          ))
        y m

  -- Once the cell is initialized and no call is about to notify, every call of `wait` that still waits
  -- has been notified: the next poll of its listener is ready. It holds after every schedule, with
  -- closures that fail or panic and futures that are dropped, and rests on what event_listener says of
  -- one listener of an event.
  pub waiters_ready :
      (calls : List (Call T)) (schedule : List (ℕ × Choice T Error)) (i : ℕ)
      (p : Pc Listener T Error) (l : Listener)
      → get_elem? (run (step E) (init E calls) schedule).tasks i ≡ some p
      → waits_for p ≡ some l
      → (run (step E) (init E calls) schedule).shared.state ≡ 2
      → total announcing (run (step E) (init E calls) schedule).tasks ≡ 0
      → (E.poll (run (step E) (init E calls) schedule).shared.passive_waiters (some l)).2 ≡ true
  unfolding init
  waiters_ready calls schedule i p l e w full none_left =
      let y = run (step E) (init E calls) schedule in
      let (_, heard) =
        run-Heard E Listening Notified R (step E) listener (λ s. s.passive_waiters) Good Known
          turn-Known
          (λ c s ts j q k at_j.
            step-Uses E Listening Notified R c s q (omega (arith, k, le-total deaf ts j q at_j)))
          others-Good own-Good (init E calls) schedule (total-map_zero deaf ready (λ _. refl) calls)
          (All-map (λ p. listener p ≡ none) ready (λ _. refl) calls) in
      elim (heard i p l e (waits_for-listener p l w)) [
        | inl (inl a) ↦ absurd cc
        | inl (inr (inl d)) ↦ absurd (d full)
        | inl (inr (inr n)) ↦ absurd (omega (arith, n, none_left))
        | inr told ↦ R.poll_notified y.shared.passive_waiters l told
      ]
