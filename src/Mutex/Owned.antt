-- ===== src/Mutex/Owned.antt =====
-- src/mutex.rs: `try_lock_arc`, `lock_arc`, the future `LockArcInnards` and the guard `MutexGuardArc`.
-- The second reference that the future's fast path makes and drops at once is left out.
use async_lock.Base.{
  subst, sym, ltb, zero, suc, inl, inr, ℕ, ◌-◌, ◌^◌, ◌≤◌, ◌<◌, ◌≡◌, refl, ap, ◌∙◌, Bool, true,
  false, if◌then◌else◌, ◌==◌, is_none, some, List, arith,
}
use async_lock.Event.{EventOps}
use async_lock.Tasks.{
  All, All-map, All-mono, run, total, length, length-map, get_elem?, get_elem?-map,
}
use async_lock.Arc
use async_lock.Arc.{
  Heap, Owner, owns, dangles, Action, drops_handle, rests, leave, proceed, location, owned_step,
  share,
}
use async_lock.Arc.Count.{
  refs, dangling, IsHeld, HasRefs, IsHeld-HasRefs, IsLegal, leave-IsLegal, proceed-IsLegal,
  run-Shared,
}
use async_lock.Arc.Replay.{replay-live}
use async_lock.Mutex.Acquire.{Lock, poll, drops_listener, gone, taken}
use async_lock.Mutex.{
  Mutex, Call, tries, locks, cancelled, notifies, locking, after_poll, forgotten, Pc, ready, holds,
  ended, Choice, step, init,
}
use async_lock.Mutex.Exclusion.{mutual_exclusion}

-- The clone for the future, which moves it to the guard.
abbrev pub lock_arc : {I P : Type 0} → Arc.Choice I → Bool → ℕ → Action I P
lock_arc c h n = proceed true true c h n

-- The clone for the guard.
abbrev pub try_lock_arc : {I P : Type 0} → Arc.Choice I → Bool → ℕ → Action I P
try_lock_arc c h n = proceed true false c h n

-- The drop of the guard after the unlock, and of a future after its count.
abbrev pub drop_arc : {I P : Type 0} → Bool → ℕ → Action I P
drop_arc h n = leave h n

module _ {Listener : Type 0} where
  -- The call asks for nothing of the mutex any more: it is over, or its future is at the drop of its
  -- listener and has dropped its `Arc`.
  abbrev pub over : Pc Listener → ℕ → Bool
  over (ended _) n = true
  over (locking (drops_listener _)) n = n == 0
  over _ n = false

  -- How many `Arc`s a call owns: one from `lock_arc` on, and one with a guard; 0 where the clone is due
  -- or the drop is done.
  abbrev pub fits : Pc Listener → ℕ → Bool
  fits (ready tries) n = n == 0
  fits (ready locks) n = ltb n 2
  fits (locking (drops_listener _)) n = ltb n 2
  fits (locking _) n = n == 1
  fits holds n = ltb n 2
  fits notifies n = n == 1
  fits (ended _) n = ltb n 2

  -- `mem::forget` of a guard leaks its `Arc`. A future that is dropped takes its `Arc` out and drops it
  -- before its listener, which is a field.
  unfoldable pub next :
      {T : Type 0}
      → Arc.Choice (Choice T)
      → Pc Listener
      → Bool
      → ℕ
      → Action (Choice T) (Pc Listener)
  unfolding leave proceed
  next c (ended forgotten) h n = if h then drops_handle else rests
  next c (ended _) h n = drop_arc h n
  next c (ready locks) h n = lock_arc c h n
  next c (ready tries) h n = proceed false true c h n
  next c (locking (drops_listener _)) h n =
      if n == 0 then Arc.lets_go c.access (ended cancelled) else Arc.drops_arc
  next c holds h n = try_lock_arc c h n
  next c p h n = proceed false false c h n

  after_poll-fits : (l : Lock Listener) → fits (after_poll l) 1 ≡ true
  unfolding after_poll
  after_poll-fits gone = refl
  after_poll-fits taken = refl
  after_poll-fits (drops_listener l) = refl
  after_poll-fits l = refl

ready-fits : (Listener : Type 0) (c : Call) → fits {Listener = Listener} (ready c) 0 ≡ true
ready-fits Listener tries = refl
ready-fits Listener locks = refl

module _ {Event Listener T : Type 0} (E : EventOps Event Listener) where
  next-IsLegal :
      (c : Arc.Choice (Choice T)) (p : Pc Listener) (h : Bool) (n : ℕ)
      → IsHeld over fits (owns p h n)
      → IsLegal over fits (step {T = T} E) c.access p h n (next c p h n)
  unfolding next step
  next-IsLegal c (ended forgotten) h n k = ground arith
  next-IsLegal c (ended o) h n k =
      leave-IsLegal over fits (step E) c.access (ended o) h n refl (λ e. (refl, ground arith))
  next-IsLegal c (ready locks) h n k =
      proceed-IsLegal over fits (step E) true true c (ready locks) h n refl (λ a b. ground arith)
        (inr (inl refl)) (λ a x. ground arith)
  next-IsLegal c (ready tries) h n k =
      proceed-IsLegal over fits (step E) false true c (ready tries) h n refl (λ a b. absurd cc)
        (inr (inr refl)) (λ a x. ground arith)
  next-IsLegal c (locking (drops_listener l)) h zero k = (refl, refl, λ x. refl)
  next-IsLegal c (locking (drops_listener l)) h (suc n) k = ground arith
  next-IsLegal c holds h n k =
      proceed-IsLegal over fits (step E) true false c holds h n refl (λ a b. ground arith)
        (inr (inl refl)) (λ a x. ground arith)
  next-IsLegal c notifies h n k =
      proceed-IsLegal over fits (step E) false false c notifies h n refl (λ a b. absurd cc)
        (inl (ground arith)) (λ a x. ground arith)
  next-IsLegal c (locking l) h n k =
      let one : n ≡ 1 = ground arith in
      proceed-IsLegal over fits (step E) false false c (locking l) h n refl (λ a b. absurd cc)
        (inl (omega (arith, one)))
        (λ a x.
          subst (λ m. fits (step E c.access x (locking l)).1 m ≡ true) (sym one)
            (after_poll-fits (poll E c.access.late c.access.cancel x l).1))

  -- One step of an owned call.
  unfoldable pub step_arc :
      Arc.Choice (Choice T)
      → Heap (Mutex Event T)
      → Owner (Pc Listener)
      → Heap (Mutex Event T) × Owner (Pc Listener)
  unfolding owned_step next step
  step_arc = owned_step (step E) next

  -- A call that is over, or that has leaked its guard and with it an `Arc`, and its next step.
  abbrev pub Ebbs : Arc.Choice (Choice T) → Heap (Mutex Event T) → Owner (Pc Listener) → Type 0
  Ebbs c s (owns (ended forgotten) h n) = refs (step_arc c s (owns (ended forgotten) h n)).1 ≡ n
  Ebbs c s (owns (ended o) h n) =
      refs (step_arc c s (owns (ended o) h n)).1 ≡ refs {P = Pc Listener} (owns (ended o) h n) - 1
  Ebbs c s o = Unit {0}

  ebbs :
      (c : Arc.Choice (Choice T)) (s : Heap (Mutex Event T)) (o : Owner (Pc Listener)) → Ebbs c s o
  unfolding step_arc owned_step next leave Arc.act
  ebbs c s (owns (ended forgotten) true n) = refl
  ebbs c s (owns (ended forgotten) false n) = refl
  ebbs c s (owns (ended o) true n) = ground arith
  ebbs c s (owns (ended o) false n) = ground arith
  ebbs c s o = tt

  init-fits : (v : T) (calls : List Call) → All (λ p. fits p 0 ≡ true) (init E v calls).tasks
  unfolding init
  init-fits v calls = All-map (λ p. fits p 0 ≡ true) ready (ready-fits Listener) calls

  some_task : (v : T) (calls : List Call) → 0 < length calls → 0 < length (init E v calls).tasks
  unfolding init
  some_task v calls h = omega (arith, length-map {A = Pc Listener} ready calls)

  -- The strong count is the number of references that the calls, their futures and their guards
  -- have, the mutex is dropped exactly when there is none left, and no call ever accesses a mutex
  -- that is gone. Every future in progress has exactly one `Arc` of its own, a direct call
  -- that has no guard none, and a guard at most one (none until the clone). Each turn of a call that is over drops
  -- one more of its references, its caller's last, and a guard that was forgotten keeps its own. For
  -- every list of calls that is not empty, every schedule and every further choice.
  pub mutex_arc_exact :
      (v : T) (calls : List Call) (schedule : List (ℕ × Arc.Choice (Choice T)))
      (c : Arc.Choice (Choice T))
      → 0 < length calls
      → let y = run step_arc (share (init E v calls)) schedule in
        (y.shared.strong ≡ total refs y.tasks)
        × (is_none y.shared.object ≡ (y.shared.strong == 0))
        × (total dangling y.tasks ≡ 0)
        × All (λ o. HasRefs over fits o × Ebbs c y.shared o) y.tasks
  unfolding step_arc
  mutex_arc_exact v calls schedule c h =
      let y = run step_arc (share (init E v calls)) schedule in
      let (i, held) =
        run-Shared (step E) over fits next next-IsLegal (init E v calls) schedule
          (some_task v calls h) (init-fits v calls) in
      (
        i.exact,
        i.freed,
        i.safe,
        All-mono (IsHeld over fits) (λ o. HasRefs over fits o × Ebbs c y.shared o)
            (λ o k. (IsHeld-HasRefs over fits o k, ebbs c y.shared o)) y.tasks held,
      )

  -- Two tasks never have an owned guard at the same time, and the mutex of an owned guard is there;
  -- at most 2 ^ 62 calls are made.
  pub owned_mutual_exclusion :
      (v : T) (calls : List Call) (schedule : List (ℕ × Arc.Choice (Choice T))) (i j : ℕ)
      (a b : Bool) (m n : ℕ)
      → 0 < length calls
      → length calls ≤ 2 ^ 62
      → get_elem? (run step_arc (share (init E v calls)) schedule).tasks i ≡ some (owns holds a m)
      → get_elem? (run step_arc (share (init E v calls)) schedule).tasks j ≡ some (owns holds b n)
      → (i ≡ j) × (is_none (run step_arc (share (init E v calls)) schedule).shared.object ≡ false)
  unfolding step_arc
  owned_mutual_exclusion v calls schedule i j a b m n some_call few p q =
      let (x, live, (s, e)) =
        replay-live (step E) over fits next next-IsLegal (init E v calls) schedule i
          (owns holds a m) (some_task v calls some_call) p (init-fits v calls) refl in
      (
        mutual_exclusion E v calls s i j few
            (ap (λ z. get_elem? z.tasks i) e ∙ get_elem?-map location _ i _ p)
            (ap (λ z. get_elem? z.tasks j) e ∙ get_elem?-map location _ j _ q),
        ap is_none live,
      )
