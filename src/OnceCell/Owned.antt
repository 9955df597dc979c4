-- ===== src/OnceCell/Owned.antt =====
-- src/once_cell.rs: who may write the cell, and when it may be read.
use async_lock.Base.{
  ℕ, ◌+◌, ◌≤◌, ◌≡◌, ◌≢◌, ◌⊎◌, inl, inr, refl, false, if◌then◌else◌, ◌==◌, is_none, Option, List,
  ◌∷◌, ◌++◌, arith,
}
use async_lock.Event.{EventOps, IsQuietable}
use async_lock.Tasks.{run, run-keeps, total, total-split, total-map_zero, total_mono}
use async_lock.OnceCell.{
  OnceCell, computes, gives, Call, gets, waits, initializes, tries_set, Outcome, undefined,
  unreachable, by_try_set, by_init, Pc, ready, reads, wait_listens, wait_waits, wait_drops,
  wait_leaves, init_gets, init_leaves, runs, writes, stores, wakes_active, wakes_passive,
  init_drops, rejects, guard_stores, guard_notifies, ended, Choice, new, init, step,
}

abbrev pub wrong_outcome : {T Error : Type 0} → Outcome T Error → ℕ
wrong_outcome undefined = 1
wrong_outcome unreachable = 1
wrong_outcome _ = 0

module _ {Listener T Error : Type 0} where
  -- The task is the one that initializes the cell.
  abbrev pub owning : Pc Listener T Error → ℕ
  owning (runs _ _) = 1
  owning (writes _ _) = 1
  owning (stores _) = 1
  owning (guard_stores _ _) = 1
  owning _ = 0

  -- It has written the value.
  abbrev pub filling : Pc Listener T Error → ℕ
  filling (stores _) = 1
  filling _ = 0

  -- The task knows that the cell is initialized.
  abbrev pub knowing : Pc Listener T Error → ℕ
  knowing reads = 1
  knowing (wait_drops _) = 1
  knowing (wakes_active _) = 1
  knowing (wakes_passive _) = 1
  knowing (init_drops _ _ _) = 1
  knowing (rejects _) = 1
  knowing _ = 0

  -- The task has read uninitialized memory or a state that is none, or is about to say so.
  abbrev pub wrong : Pc Listener T Error → ℕ
  wrong (init_leaves _ o) = wrong_outcome o
  wrong (guard_stores _ o) = wrong_outcome o
  wrong (guard_notifies _ o) = wrong_outcome o
  wrong (ended o) = wrong_outcome o
  wrong _ = 0

  pub filling-le-owning : (p : Pc Listener T Error) → filling p ≤ owning p
  filling-le-owning (stores k) = omega arith
  filling-le-owning p = omega arith

-- `o` tasks initialize the cell, `f` of them have written it, `r` tasks know that it is initialized.
pub record IsOwned {T : Type 0} (Quiet : Type 0) (state : ℕ) (value : Option T) (o f r b : ℕ)
    : Type 0 where
  pub range : state ≤ 2
  pub owned : o ≡ (if state == 1 then 1 else 0)
  pub filled : (f ≡ 0) ⊎ (is_none value ≡ false)
  pub full : (state ≢ 2) ⊎ (is_none value ≡ false)
  pub known : (r ≡ 0) ⊎ (state ≡ 2)
  pub right : b ≡ 0
  pub quiet : (state ≡ 2) ⊎ Quiet

abbrev pub Owned : {Event T : Type 0} → (Event → Type 0) → OnceCell Event T → (o f r b : ℕ) → Type 0
Owned Quiet s o f r b = IsOwned (Quiet s.passive_waiters) s.state s.value o f r b

module _ {Event Listener T Error : Type 0} (E : EventOps Event Listener) (Quiet : Event → Type 0)
    (laws : IsQuietable E Quiet) where
  step-Owned :
      (c : Choice T Error) (s : OnceCell Event T) (p : Pc Listener T Error) (o f r b : ℕ)
      → f ≤ o
      → Owned Quiet s (owning p + o) (filling p + f) (knowing p + r) (wrong p + b)
      → let y = step E c s p in
        Owned Quiet y.0 (owning y.1 + o) (filling y.1 + f) (knowing y.1 + r) (wrong y.1 + b)
  unfolding step
  step-Owned c s (ready gets) o f r b h i = ground arith
  step-Owned c s (ready waits) o f r b h i = ground arith
  step-Owned c s (ready (initializes job)) o f r b h i = ground arith
  step-Owned c s (ready (tries_set v)) o f r b h i = ground arith
  step-Owned c s wait_listens o f r b h i = ground (arith, laws.listen_quiet s.passive_waiters)
  step-Owned c s (wait_waits l) o f r b h i =
      ground (arith, laws.poll_quiet s.passive_waiters l, laws.poll_unready s.passive_waiters l)
  step-Owned c s (wait_drops l) o f r b h i = ground (arith, laws.drop_quiet s.passive_waiters l)
  step-Owned c s (wait_leaves l) o f r b h i = ground (arith, laws.drop_quiet s.passive_waiters l)
  step-Owned c s (init_gets computes) o f r b h i = ground arith
  step-Owned c s (init_gets (gives v)) o f r b h i = ground arith
  step-Owned c s (runs computes l) o f r b h i = ground arith
  step-Owned c s (runs (gives v) l) o f r b h i = ground arith
  step-Owned c s (wakes_passive by_try_set) o f r b h i = ground arith
  step-Owned c s (wakes_passive (by_init job l)) o f r b h i = ground arith
  step-Owned c s (init_drops computes own l) o f r b h i = ground arith
  step-Owned c s (init_drops (gives v) own l) o f r b h i = ground arith
  step-Owned c s p o f r b h i = ground arith

  abbrev pub AllOwned : OnceCell Event T → List (Pc Listener T Error) → Type 0
  AllOwned s ts =
      Owned Quiet s (total owning ts) (total filling ts) (total knowing ts) (total wrong ts)

  pub keeps-AllOwned :
      (c : Choice T Error) (s : OnceCell Event T) (before : List (Pc Listener T Error))
      (p : Pc Listener T Error) (after : List (Pc Listener T Error))
      → AllOwned s (before ++ p ∷ after)
      → AllOwned (step E c s p).0 (before ++ (step E c s p).1 ∷ after)
  keeps-AllOwned c s before p after i =
      let q : Pc Listener T Error = (step E c s p).1 in
      rw
        (
          total-split owning before q after,
          total-split filling before q after,
          total-split knowing before q after,
          total-split wrong before q after,
        )
        (step-Owned c s p (total owning before + total owning after)
          (total filling before + total filling after) (total knowing before + total knowing after)
          (total wrong before + total wrong after)
          (omega (
            arith,
            total_mono filling owning filling-le-owning before,
            total_mono filling owning filling-le-owning after,
          ))
          (rw
            (
              total-split owning before p after,
              total-split filling before p after,
              total-split knowing before p after,
              total-split wrong before p after,
            )
            at i))

  pub run-AllOwned :
      (todo : List (Call T)) (schedule : List (ℕ × Choice T Error))
      → let y = run (step E) (init E todo) schedule in AllOwned y.shared y.tasks
  unfolding init new
  run-AllOwned todo schedule =
      let none_of = λ (w : Pc Listener T Error → ℕ) (e : (c : Call T) → w (ready c) ≡ 0).
        total-map_zero w ready e todo in
      run-keeps (step E) AllOwned keeps-AllOwned (init E todo) schedule (record {
        range = omega arith;
        owned = none_of owning (λ _. refl);
        filled = inl (none_of filling (λ _. refl));
        full = inl (omega arith);
        known = inl (none_of knowing (λ _. refl));
        right = none_of wrong (λ _. refl);
        quiet = inr laws.new_quiet;
      })

  -- After every schedule, no task has read uninitialized memory or an invalid state, the state is
  -- `Initializing` exactly when one task is initializing the cell, and the cell has a value when its
  -- state is `Initialized`. For `wait` this rests on what event_listener says: a listener of an event
  -- that nobody has notified is not ready.
  pub no_undefined_read :
      (todo : List (Call T)) (schedule : List (ℕ × Choice T Error))
      → let y = run (step E) (init E todo) schedule in
        (total wrong y.tasks ≡ 0)
        × (total owning y.tasks ≡ (if y.shared.state == 1 then 1 else 0))
        × (y.shared.state ≤ 2)
        × (y.shared.state ≡ 2 → is_none y.shared.value ≡ false)
  no_undefined_read todo schedule =
      let i = run-AllOwned todo schedule in (i.right, i.owned, i.range, λ e. ground (arith, i.full))
