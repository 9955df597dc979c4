-- ===== src/RwLock/Drain.antt =====
-- src/rwlock.rs and src/rwlock/raw.rs: a writer that waits for readers, when the last of them is gone.
use async_lock.Base.{ℕ, ◌+◌, ◌^◌, ◌≤◌, ◌<◌, ◌≡◌, refl, inl, none, some, List, ◌∷◌, ◌++◌, arith}
use async_lock.Event.{EventOps, IsCounting}
use async_lock.Tasks.{run, run-keeps, total, total-split, total-map_zero, total_mono, length}
use async_lock.RwLock.Raw.Defs.{
  Call, Guard, reader, upgradable, writer, Pc, ready, drain_waits, drain_pending, holds,
}
use async_lock.RwLock.Raw.Counts.{claiming}
use async_lock.RwLock.Raw.Sound.{Others, Sound}
use async_lock.RwLock.Raw.Awake.{
  has_listener, sleeps, wakes, hears_nothing, IsAwake, Sleepers, Awake, step-Awake,
}
use async_lock.RwLock.{RwLock, Use, Choice, new, use_guard, step, init}
use async_lock.RwLock.Invariant.{AllSound, split-Sound, keeps-AllSound, init-AllSound, rest-Others}

module _ {Listener : Type 0} where
  sleeps-le-claiming : (p : Pc Listener) → sleeps p ≤ claiming p
  sleeps-le-claiming (drain_waits none) = omega arith
  sleeps-le-claiming (drain_waits (some l)) = omega arith
  sleeps-le-claiming (drain_pending none) = omega arith
  sleeps-le-claiming (drain_pending (some l)) = omega arith
  sleeps-le-claiming p = omega arith

  sleeps-le-has_listener : (p : Pc Listener) → sleeps p ≤ has_listener p
  sleeps-le-has_listener (drain_waits l) = omega arith
  sleeps-le-has_listener (drain_pending l) = omega arith
  sleeps-le-has_listener p = omega arith

  rest-Sleepers :
      (before after : List (Pc Listener)) (f : ℕ)
      → Sleepers
          (total claiming before + total claiming after)
          (total has_listener before + total has_listener after)
          (total sleeps before + total sleeps after)
          f
  rest-Sleepers before after f = record {
    claimed = omega (
      arith,
      total_mono sleeps claiming sleeps-le-claiming before,
      total_mono sleeps claiming sleeps-le-claiming after,
    );
    listen = omega (
      arith,
      total_mono sleeps has_listener sleeps-le-has_listener before,
      total_mono sleeps has_listener sleeps-le-has_listener after,
    );
  }

module _ {Event Listener T : Type 0} (E : EventOps Event Listener) (unheard heard_by : Event → ℕ)
    (C : IsCounting E unheard heard_by) where
  guard-Awake :
      (g : Guard) (u : Use T) (s : RwLock Event T) (r b x m v a q w h d n f : ℕ)
      → Others b x m v q
      → Sound {Listener = Listener} s.raw (holds g) r b x m v a q w
      → Sleepers b h d f
      → Awake E unheard heard_by C s.raw (holds g) h d n f
      → let y = use_guard {Listener = Listener} g s u in
        Awake E unheard heard_by C y.0.raw y.1 h d n f
  unfolding use_guard
  guard-Awake reader u s r b x m v a q w h d n f o i z k = ground arith
  guard-Awake upgradable u s r b x m v a q w h d n f o i z k = ground arith
  guard-Awake writer u s r b x m v a q w h d n f o i z k = ground arith

  whole-step-Awake :
      (c : Choice T) (s : RwLock Event T) (p : Pc Listener) (r b x m v a q w h d n f : ℕ)
      → Others b x m v q
      → Sound s.raw p r b x m v a q w
      → Sleepers b h d f
      → Awake E unheard heard_by C s.raw p h d n f
      → let y = step E c s p in Awake E unheard heard_by C y.0.raw y.1 h d n f
  unfolding step
  whole-step-Awake c s (holds g) r b x m v a q w h d n f o i z k =
      guard-Awake g c.use_guard s r b x m v a q w h d n f o i z k
  whole-step-Awake c s p r b x m v a q w h d n f o i z k =
      step-Awake E unheard heard_by C c.late c.cancel s.raw p r b x m v a q w h d n f o i z k

  abbrev AllAwake : RwLock Event T → List (Pc Listener) → Type 0
  AllAwake s ts =
      AllSound s ts
      × IsAwake s.raw.state (unheard s.raw.no_readers) (heard_by s.raw.no_readers)
          (total has_listener ts) (total sleeps ts) (total wakes ts) (total hears_nothing ts)

  -- The sums around one task.
  split-Awake :
      (s : RwLock Event T) (before : List (Pc Listener)) (p : Pc Listener)
      (after : List (Pc Listener))
      → IsAwake s.raw.state
          (unheard s.raw.no_readers)
          (heard_by s.raw.no_readers)
          (total has_listener (before ++ p ∷ after))
          (total sleeps (before ++ p ∷ after))
          (total wakes (before ++ p ∷ after))
          (total hears_nothing (before ++ p ∷ after))
        ≡ Awake E unheard heard_by C s.raw p
            (total has_listener before + total has_listener after)
            (total sleeps before + total sleeps after)
            (total wakes before + total wakes after)
            (total hears_nothing before + total hears_nothing after)
  split-Awake s before p after = rw (
    total-split has_listener before p after,
    total-split sleeps before p after,
    total-split wakes before p after,
    total-split hears_nothing before p after,
  )

  keeps-AllAwake :
      (c : Choice T) (s : RwLock Event T) (before : List (Pc Listener)) (p : Pc Listener)
      (after : List (Pc Listener))
      → AllAwake s (before ++ p ∷ after)
      → AllAwake (step E c s p).0 (before ++ (step E c s p).1 ∷ after)
  keeps-AllAwake c s before p after ((i, n), k) =
      let q : Pc Listener = (step E c s p).1 in
      (
        keeps-AllSound E c s before p after (i, n),
        rw (split-Awake (step E c s p).0 before q after) (
            whole-step-Awake c s p _ _ _ _ _ _ _ _ _ _ _ _ (rest-Others before p after n)
              (rw (split-Sound s before p after) at i) (rest-Sleepers before after _)
              (rw (split-Awake s before p after) at k)),
      )

  init-AllAwake :
      (v : T) (calls : List Call)
      → length calls ≤ 2 ^ 62
      → AllAwake (init E v calls).shared (init E v calls).tasks
  unfolding init new
  init-AllAwake v calls n =
      let none_yet = λ (w : Pc Listener → ℕ) (e : (c : Call) → w (ready c) ≡ 0).
        total-map_zero w ready e calls in
      (
        init-AllSound E v calls n,
        record {
          heard = omega (arith, C.new_counts, none_yet has_listener (λ _. refl));
          hears = none_yet hears_nothing (λ _. refl);
          awake = inl (none_yet sleeps (λ _. refl));
        },
      )

  -- Where a writer, or an upgrade, waits for readers and there are none left, a listener of
  -- `no_readers` is notified or some task is about to notify it. It holds after every schedule of at
  -- most 2 ^ 62 calls, dropped futures included, and rests on what event_listener says of the listeners
  -- of an event.
  pub waiting_writer_woken :
      (v : T) (calls : List Call) (schedule : List (ℕ × Choice T))
      → length calls ≤ 2 ^ 62
      → 0 < total sleeps (run (step E) (init E v calls) schedule).tasks
      → (run (step E) (init E v calls) schedule).shared.raw.state ≤ 1
      → let y = run (step E) (init E v calls) schedule in
        0 < heard_by y.shared.raw.no_readers + total wakes y.tasks
  waiting_writer_woken v calls schedule n waited gone =
      let (_, k) =
        run-keeps (step E) AllAwake keeps-AllAwake (init E v calls) schedule
          (init-AllAwake v calls n) in
      ground (arith, k.awake, waited, gone)
