-- ===== src/OnceCell/Awake.antt =====
-- src/once_cell.rs: the notifications of `active_initializers`, and the calls that wait for another
-- call to initialize the cell.
use async_lock.Base.{
  ℕ, ◌+◌, ◌≤◌, ◌<◌, ◌≡◌, ◌⊎◌, refl, inl, Option, none, some, List, [], ◌∷◌, ◌++◌, arith, usize_max,
}
use async_lock.Event.{EventOps, IsCounting}
use async_lock.Tasks.{run, run-keeps, total, total-split, total-map_zero}
use async_lock.OnceCell.{
  OnceCell, computes, gives, Call, gets, waits, initializes, tries_set, Caller, by_try_set, by_init,
  Pc, ready, init_gets, init_loads, init_listens, init_waits, init_pending, init_leaves, init_swaps,
  runs, writes, stores, wakes_active, wakes_passive, init_drops, guard_stores, guard_notifies,
  Choice, new, init, step,
}

abbrev one_if_some : {A : Type 0} → Option A → ℕ
one_if_some none = 0
one_if_some (some _) = 1

abbrev one_if_none : {A : Type 0} → Option A → ℕ
one_if_none none = 1
one_if_none (some _) = 0

abbrev caller_listens : {Listener T : Type 0} → Caller Listener T → ℕ
caller_listens by_try_set = 0
caller_listens (by_init _ l) = one_if_some l

module _ {Listener T Error : Type 0} where
  -- The task has a listener of `active_initializers`.
  abbrev has_listener : Pc Listener T Error → ℕ
  has_listener (init_loads _ l) = one_if_some l
  has_listener (init_waits _ l) = one_if_some l
  has_listener (init_pending _ l) = one_if_some l
  has_listener (init_leaves l _) = one_if_some l
  has_listener (init_swaps _ l) = one_if_some l
  has_listener (runs _ l) = one_if_some l
  has_listener (writes _ k) = caller_listens k
  has_listener (stores k) = caller_listens k
  has_listener (wakes_active k) = caller_listens k
  has_listener (wakes_passive k) = caller_listens k
  has_listener (init_drops _ _ l) = one_if_some l
  has_listener (guard_stores l _) = one_if_some l
  has_listener (guard_notifies l _) = one_if_some l
  has_listener _ = 0

  -- The task waits for a notification of it.
  abbrev pub sleeps : Pc Listener T Error → ℕ
  sleeps (init_waits _ _) = 1
  sleeps (init_pending _ _) = 1
  sleeps _ = 0

  -- The task is about to look at the state, to take the cell or to notify.
  abbrev pub acts : Pc Listener T Error → ℕ
  acts (init_loads _ _) = 1
  acts (init_swaps _ _) = 1
  acts (guard_notifies _ _) = 1
  acts _ = 0

  -- The task waits without a listener.
  abbrev hears_nothing : Pc Listener T Error → ℕ
  hears_nothing (init_waits _ l) = one_if_none l
  hears_nothing (init_pending _ l) = one_if_none l
  hears_nothing _ = 0

  sleeps_le : (p : Pc Listener T Error) → sleeps p ≤ has_listener p + hears_nothing p
  sleeps_le (init_waits _ none) = omega arith
  sleeps_le (init_waits _ (some l)) = omega arith
  sleeps_le (init_pending _ none) = omega arith
  sleeps_le (init_pending _ (some l)) = omega arith
  sleeps_le p = omega arith

  total-sleeps_le :
      (ts : List (Pc Listener T Error))
      → total sleeps ts ≤ total has_listener ts + total hears_nothing ts
  unfolding total
  total-sleeps_le [] = omega arith
  total-sleeps_le (p ∷ ts) = omega (arith, sleeps_le p, total-sleeps_le ts)

-- `h` tasks have a listener, `d` wait, `n` act and `f` wait in vain. An uninitialized cell for which
-- somebody waits has a notified listener or a task that acts.
record IsAwake (state waiting notified h d n f : ℕ) : Type 0 where
  range : state ≤ 2
  heard : waiting + notified ≡ h
  hears : f ≡ 0
  awake : (d ≡ 0) ⊎ ((1 ≤ state) ⊎ (1 ≤ notified + n))

module _ {Event Listener T Error : Type 0} (E : EventOps Event Listener)
    (unheard heard_by : Event → ℕ) (C : IsCounting E unheard heard_by) where
  -- The cell with a task at `p`, and the other tasks.
  abbrev Awake : OnceCell Event T → Pc Listener T Error → (h d n f : ℕ) → Type 0
  Awake s p h d n f =
      IsAwake s.state (unheard s.active_initializers) (heard_by s.active_initializers)
        (has_listener p + h) (sleeps p + d) (acts p + n) (hears_nothing p + f)

  step-Awake :
      (c : Choice T Error) (s : OnceCell Event T) (p : Pc Listener T Error) (h d n f : ℕ)
      → d ≤ h + f
      → Awake s p h d n f
      → let y = step E c s p in Awake y.0 y.1 h d n f
  unfolding step
  step-Awake c s (ready gets) h d n f o k = ground arith
  step-Awake c s (ready waits) h d n f o k = ground arith
  step-Awake c s (ready (initializes job)) h d n f o k = ground arith
  step-Awake c s (ready (tries_set v)) h d n f o k = ground arith
  step-Awake c s (init_gets computes) h d n f o k = ground arith
  step-Awake c s (init_gets (gives v)) h d n f o k = ground arith
  step-Awake c s (init_loads job none) h d n f o k = ground arith
  step-Awake c s (init_loads job (some l)) h d n f o k = ground arith
  step-Awake c s (init_listens job) h d n f o k =
      ground (arith, C.listen_counts s.active_initializers)
  step-Awake c s (init_waits job none) h d n f o k = ground arith
  step-Awake c s (init_waits job (some l)) h d n f o k =
      ground (arith, C.poll_counts s.active_initializers l)
  step-Awake c s (init_leaves none r) h d n f o k =
      ground (arith, C.drop_none s.active_initializers)
  step-Awake c s (init_leaves (some l) r) h d n f o k =
      ground (arith, C.drop_counts s.active_initializers l)
  step-Awake c s (runs computes l) h d n f o k = ground arith
  step-Awake c s (runs (gives v) l) h d n f o k = ground arith
  step-Awake c s (wakes_active k) h d n f o j =
      ground (arith, C.additional_counts usize_max s.active_initializers)
  step-Awake c s (wakes_passive by_try_set) h d n f o k = ground arith
  step-Awake c s (wakes_passive (by_init job l)) h d n f o k = ground arith
  step-Awake c s (init_drops computes own none) h d n f o k =
      ground (arith, C.drop_none s.active_initializers)
  step-Awake c s (init_drops computes own (some l)) h d n f o k =
      ground (arith, C.drop_counts s.active_initializers l)
  step-Awake c s (init_drops (gives v) own none) h d n f o k =
      ground (arith, C.drop_none s.active_initializers)
  step-Awake c s (init_drops (gives v) own (some l)) h d n f o k =
      ground (arith, C.drop_counts s.active_initializers l)
  step-Awake c s (guard_notifies l r) h d n f o k =
      ground (arith, C.notify_counts 1 s.active_initializers)
  step-Awake c s p h d n f o k = ground arith

  abbrev AllAwake : OnceCell Event T → List (Pc Listener T Error) → Type 0
  AllAwake s ts =
      IsAwake s.state (unheard s.active_initializers) (heard_by s.active_initializers)
        (total has_listener ts) (total sleeps ts) (total acts ts) (total hears_nothing ts)

  keeps-AllAwake :
      (c : Choice T Error) (s : OnceCell Event T) (before : List (Pc Listener T Error))
      (p : Pc Listener T Error) (after : List (Pc Listener T Error))
      → AllAwake s (before ++ p ∷ after)
      → AllAwake (step E c s p).0 (before ++ (step E c s p).1 ∷ after)
  keeps-AllAwake c s before p after k =
      let q : Pc Listener T Error = (step E c s p).1 in
      rw
        (
          total-split has_listener before q after,
          total-split sleeps before q after,
          total-split acts before q after,
          total-split hears_nothing before q after,
        )
        (step-Awake c s p (total has_listener before + total has_listener after)
          (total sleeps before + total sleeps after) (total acts before + total acts after)
          (total hears_nothing before + total hears_nothing after)
          (omega (arith, total-sleeps_le before, total-sleeps_le after))
          (rw
            (
              total-split has_listener before p after,
              total-split sleeps before p after,
              total-split acts before p after,
              total-split hears_nothing before p after,
            )
            at k))

  -- Where the cell is uninitialized and some call waits for another to initialize it, a listener of
  -- `active_initializers` is notified or some call is about to try the cell or to notify. It holds
  -- after every schedule, with closures that fail or panic and futures that are dropped, and rests on
  -- what event_listener says of the listeners of an event.
  pub waiting_initializer_woken :
      (calls : List (Call T)) (schedule : List (ℕ × Choice T Error))
      → 0 < total sleeps (run (step E) (init E calls) schedule).tasks
      → (run (step E) (init E calls) schedule).shared.state ≡ 0
      → let y = run (step E) (init E calls) schedule in
        0 < heard_by y.shared.active_initializers + total acts y.tasks
  unfolding init new
  waiting_initializer_woken calls schedule waited free =
      let none_yet = λ (w : Pc Listener T Error → ℕ) (e : (c : Call T) → w (ready c) ≡ 0).
        total-map_zero w ready e calls in
      let k = run-keeps (step E) AllAwake keeps-AllAwake (init E calls) schedule (record {
        range = omega arith;
        heard = omega (arith, C.new_counts, none_yet has_listener (λ _. refl));
        hears = none_yet hears_nothing (λ _. refl);
        awake = inl (none_yet sleeps (λ _. refl));
      }) in
      ground (arith, k.awake, waited, free)
