-- ===== src/Barrier/Wakeup.antt =====
-- src/barrier.rs: the notifications of the barrier's event, and the calls that wait for their round.
use async_lock.Base.{
  ℕ, ◌^◌, ◌≤◌, ◌≡◌, ◌≢◌, ◌⊎◌, inl, inr, refl, ap, sym, ◌∙◌, subst, true, false, none, some, List,
  [], ◌∷◌, ◌++◌, arith,
}
use async_lock.Event.{EventOps, IsRegistering}
use async_lock.Tasks.{
  System, run, turn, turn-keeps, total, total-split, total-map_zero, total_mono, total-set,
  le-total, length, get_elem?, set, get_elem?-set_self, All-map,
}
use async_lock.Mutex.Acquire.{unpolled}
use async_lock.Listeners.Runs.{run-Heard}
use async_lock.Barrier.{Barrier, Pc, initial, Choice, new, init, step}
use async_lock.Barrier.Exclusion.{holding, Counted, run-Counted, keeps-Counted}
use async_lock.Barrier.Stored.{
  generation, listener, waits_in, announcing, stray, lost, lost-le-holding,
}
use async_lock.Barrier.Stored.Steps.{
  step-stray, step-Uses, step-generation, step-lost, step-waits_in,
}

module _ {Event Listener : Type 0} (E : EventOps Event Listener)
    (Listening Notified : Event → Listener → Type 0) (R : IsRegistering E Listening Notified) where
  -- Nothing is owed to the task: it does not wait, or its round is the current one, or the leader of a
  -- round is about to notify.
  abbrev Good : Barrier Event → List (Pc Listener) → Pc Listener → Type 0
  Good s ts p =
      (waits_in p ≡ none) ⊎ ((waits_in p ≡ some (generation s)) ⊎ (1 ≤ total announcing ts))

  abbrev Known : Barrier Event → List (Pc Listener) → Type 0
  Known s ts = Counted E s ts × (total stray ts ≡ 0) × (total (lost (generation s)) ts ≡ 0)

  others-Good :
      (c : Choice) (s : Barrier Event) (ts : List (Pc Listener)) (j : ℕ) (p : Pc Listener)
      → get_elem? ts j ≡ some p
      → (r : Pc Listener) (l : Listener) → Good s ts r
      → Listening s.event l
      → let y = step E c s p in Good y.0 (set ts j y.1) r ⊎ Notified y.0.event l
  others-Good c s ts j p e r l good heard =
      let y = step E c s p in
      let (starts, ends) = step-generation E Listening Notified R c s p in
      let sum = total-set announcing ts j p y.1 e in
      let mine = le-total announcing (set ts j y.1) j y.1 (get_elem?-set_self ts j p y.1 e) in
      elim good [
        | inl a ↦ inl (inl a)
        | inr (inl now) ↦ elim starts [
          | inl same ↦ inl (inr (inl (now ∙ ap some (sym same))))
          | inr (_, one) ↦ inl (inr (inr (omega (arith, mine, one))))
        ]
        | inr (inr n) ↦ elim ends [
          | inl more ↦ inl (inr (inr (omega (arith, sum, more, n))))
          | inr told ↦ inr (subst (λ x. Notified x l) (sym told) (R.notify_all s.event l heard))
        ]
      ]

  own-Good :
      (c : Choice) (s : Barrier Event) (ts : List (Pc Listener)) (j : ℕ) (p : Pc Listener)
      → Known s ts
      → get_elem? ts j ≡ some p
      → (l : Listener) → listener (step E c s p).1 ≡ some l
      → (listener p ≡ some l → Good s ts p ⊎ Notified s.event l)
      → let y = step E c s p in Good y.0 (set ts j y.1) y.1 ⊎ Notified y.0.event l
  own-Good c s ts j p (_, tidy, found) e l f before =
      let y = step E c s p in
      let sum = total-set announcing ts j p y.1 e in
      elim (step-waits_in E Listening Notified R c s p
        (omega (arith, tidy, le-total stray ts j p e))
        (omega (arith, found, le-total (lost (generation s)) ts j p e))) [
          | inl a ↦ inl (inl a)
          | inr (inl now) ↦ inl (inr (inl now))
          | inr (inr (w, same, gen, same_n, how)) ↦ elim (before (sym same ∙ f)) [
            | inl (inl a) ↦ inl (inl (w ∙ a))
            | inl (inr (inl now)) ↦ inl (inr (inl (w ∙ now ∙ ap some (sym gen))))
            | inl (inr (inr n)) ↦ inl (inr (inr (omega (arith, sum, same_n, n))))
            | inr told ↦ elim how [
              | inl x ↦ inr (subst (λ x. Notified x l) (sym x) told)
              | inr (m, g, u) ↦
                  let is_l : m ≡ l = cc in
                  absurd (
                    let t = R.poll_notified s.event l told in
                    let u' = subst (λ z. (E.poll s.event (some z)).2 ≡ false) is_l u in cc)
            ]
          ]
        ]

  -- Where nobody holds the mutex, nobody is lost, whatever the round.
  unheld-lost :
      (generation : ℕ) (ts : List (Pc Listener)) → total (lost generation) ts ≤ total holding ts
  unheld-lost generation ts = total_mono (lost generation) holding (lost-le-holding generation) ts

  turn-Known :
      (y : System (Barrier Event) (Pc Listener)) (m : ℕ × Choice)
      → Known y.shared y.tasks
      → Known (turn (step E) y m).shared (turn (step E) y m).tasks
  turn-Known y m =
      turn-keeps (step E) Known
        (λ c s before p after (counted, tidy, found).
          let q : Pc Listener = (step E c s p).1 in
          let g = generation s in
          let g' = generation (step E c s p).0 in
          let i = total-split stray before p after in
          let o = total-split (lost g) before p after in
          let o' = total-split (lost g') before q after in
          let mine = step-lost E Listening Notified R c s p (omega (arith, found, o)) in
          (
            keeps-Counted E c s before p after counted,
            omega (
              arith,
              tidy,
              i,
              total-split stray before q after,
              step-stray E Listening Notified R c s p (omega (arith, tidy, i)),
            ),
            elim (step-generation E Listening Notified R c s p).0 [
              | inl same ↦
                  subst (λ n. total (lost n) (before ++ q ∷ after) ≡ 0) (sym same)
                    (omega (
                      arith,
                      found,
                      o,
                      total-split (lost g) before q after,
                      subst (λ n. lost n q ≡ 0) same mine,
                    ))
              | inr (one, _) ↦ omega (
                arith,
                one,
                mine,
                o',
                counted.0.exclusive,
                total-split holding before p after,
                unheld-lost g' before,
                unheld-lost g' after,
              )
            ],
          ))
        y m

  -- A call that has its listener and waits, or is about to wait, for a round that is over has been
  -- notified: unless the leader of a round is still about to notify, the next poll of its listener is
  -- ready. It holds after every schedule of at most 2 ^ 62 calls, with futures that are dropped, and
  -- rests on what event_listener says of one listener of an event.
  pub round_is_over :
      (n : ℕ) (calls : List (Unit {0})) (schedule : List (ℕ × Choice)) (i g : ℕ) (p : Pc Listener)
      (l : Listener)
      → length calls ≤ 2 ^ 62
      → get_elem? (run (step E) (init E n calls) schedule).tasks i ≡ some p
      → waits_in p ≡ some g
      → listener p ≡ some l
      → g ≢ generation (run (step E) (init E n calls) schedule).shared
      → total announcing (run (step E) (init E n calls) schedule).tasks ≡ 0
      → (E.poll (run (step E) (init E n calls) schedule).shared.event (some l)).2 ≡ true
  unfolding init new run
  round_is_over n calls schedule i g p l few e w f old none_left =
      let y = run (step E) (init E n calls) schedule in
      let (_, heard) =
        run-Heard E Listening Notified R (step E) listener (λ s. s.event) Good Known turn-Known
          (λ c s ts j q k at_j.
            step-Uses E Listening Notified R c s q (omega (arith, k.1, le-total stray ts j q at_j)))
          others-Good own-Good (init E n calls) schedule
          (
            run-Counted E n calls [] few,
            total-map_zero stray (λ _. initial unpolled) (λ _. refl) calls,
            total-map_zero (lost 0) (λ _. initial unpolled) (λ _. refl) calls,
          )
          (All-map (λ p. listener p ≡ none) (λ _. initial unpolled) (λ _. refl) calls) in
      elim (heard i p l e f) [
        | inl (inl a) ↦ absurd cc
        | inl (inr (inl now)) ↦ absurd (old cc)
        | inl (inr (inr m)) ↦ absurd (omega (arith, m, none_left))
        | inr told ↦ R.poll_notified y.shared.event l told
      ]
