-- ===== src/RwLock/Readers.antt =====
-- src/rwlock.rs and src/rwlock/raw.rs: the readers that wait for a writer, where no guard is downgraded
-- to an upgradable one.
pub mod Steps
use async_lock.Base.{
  ℕ, ◌+◌, ◌%◌, ◌^◌, ◌≤◌, ◌<◌, ◌≡◌, ◌⊎◌, refl, inl, Bool, true, false, none, some, List, ◌∷◌, ◌++◌,
  arith, isize_max,
}
use async_lock.Event.{EventOps, IsCounting}
use async_lock.Tasks.{
  run, run-keeps_choices, AllChoices, total, total-split, total-map_zero, total_mono, length,
}
use async_lock.Mutex.Acquire.{Lock, poll, done, gone}
use async_lock.RwLock.Raw.{then_upgradable, then_write}
use async_lock.RwLock.Raw.Defs.{
  tries_read, reads, tries_upgradable_read, upgradable_reads, tries_write, writes, Call, reader,
  upgradable, writer, Pc, ready, read_pending, read_listens, read_waits, read_passes, read_loads,
  read_swaps, read_done, read_drops, upgradable_locking, write_locking, write_announces,
  reader_announces, holds,
}
use async_lock.RwLock.Raw.Sound.{Others, Sound}
use async_lock.RwLock.{RwLock, Use, downgrades_to_upgradable, Choice, new, step, init}
use async_lock.RwLock.Invariant.{split-Sound, rest-Others}
use async_lock.RwLock.Wakeup.{announcing, then_upgradable-silent, then_write-silent}
use async_lock.RwLock.Raw.Awake.{one_if_some}
use async_lock.RwLock.Bounds.{doomed, Bounded, state_le, keeps-Bounded, init-Bounded}
use async_lock.RwLock.Readers.Steps.{
  IsLoud, has_listener, reader_waits, hears_nothing, waits-le-has_listener, IsAwake, Awake,
  step-Awake,
}

module _ {Event Listener T : Type 0} (E : EventOps Event Listener) (unheard heard_by : Event → ℕ)
    (C : IsCounting E unheard heard_by) where
  abbrev AllAwake : ℕ → RwLock Event T → List (Pc Listener) → Type 0
  AllAwake n s ts =
      Bounded E n s ts
      × IsAwake s.raw.state (unheard s.raw.no_writer) (heard_by s.raw.no_writer)
          (total has_listener ts) (total reader_waits ts) (total announcing ts)
          (total hears_nothing ts)

  -- The sums around one task.
  split-Awake :
      (s : RwLock Event T) (before : List (Pc Listener)) (p : Pc Listener)
      (after : List (Pc Listener))
      → IsAwake s.raw.state
          (unheard s.raw.no_writer)
          (heard_by s.raw.no_writer)
          (total has_listener (before ++ p ∷ after))
          (total reader_waits (before ++ p ∷ after))
          (total announcing (before ++ p ∷ after))
          (total hears_nothing (before ++ p ∷ after))
        ≡ Awake E unheard heard_by C s p
            (total has_listener before + total has_listener after)
            (total reader_waits before + total reader_waits after)
            (total announcing before + total announcing after)
            (total hears_nothing before + total hears_nothing after)
  split-Awake s before p after = rw (
    total-split has_listener before p after,
    total-split reader_waits before p after,
    total-split announcing before p after,
    total-split hears_nothing before p after,
  )

  keeps-AllAwake :
      (n : ℕ)
      → n < 2 ^ 62
      → (c : Choice T) → IsLoud c
      → (s : RwLock Event T) (before : List (Pc Listener)) (p : Pc Listener)
        (after : List (Pc Listener))
      → AllAwake n s (before ++ p ∷ after)
      → AllAwake n (step E c s p).0 (before ++ (step E c s p).1 ∷ after)
  keeps-AllAwake n few c loud s before p after (b, k) =
      let q : Pc Listener = (step E c s p).1 in
      (
        keeps-Bounded E n few c s before p after b,
        rw (split-Awake (step E c s p).0 before q after) (
            step-Awake E unheard heard_by C c s p _ _ _ _ _ _ _ _ _ _ _ _ loud
              (rest-Others before p after b.0.1) (rw (split-Sound s before p after) at (b.0.0))
              (omega (
                arith,
                total_mono reader_waits has_listener waits-le-has_listener before,
                total_mono reader_waits has_listener waits-le-has_listener after,
              ))
              (state_le E n s (before ++ p ∷ after) few b).1
              (omega (arith, b.2, total-split doomed before p after))
              (rw (split-Awake s before p after) at k)),
      )

  init-AllAwake :
      (v : T) (calls : List Call)
      → length calls < 2 ^ 62
      → AllAwake (length calls) (init E v calls).shared (init E v calls).tasks
  unfolding init new
  init-AllAwake v calls few =
      let none_yet = λ (w : Pc Listener → ℕ) (e : (c : Call) → w (ready c) ≡ 0).
        total-map_zero w ready e calls in
      (
        init-Bounded E v calls few,
        record {
          heard = omega (arith, C.new_counts, none_yet has_listener (λ _. refl));
          hears = none_yet hears_nothing (λ _. refl);
          awake = inl (none_yet reader_waits (λ _. refl));
        },
      )

  -- Where no writer has or claims access and some reader waits for one to go, a listener of
  -- `no_writer` is notified or some task is about to notify it. It holds after every schedule of fewer
  -- than 2 ^ 62 calls in which no guard is downgraded by `downgrade_to_upgradable`, dropped futures
  -- included, and rests on what event_listener says of the listeners of an event.
  pub waiting_reader_woken :
      (v : T) (calls : List Call) (schedule : List (ℕ × Choice T))
      → length calls < 2 ^ 62
      → AllChoices IsLoud schedule
      → 0 < total reader_waits (run (step E) (init E v calls) schedule).tasks
      → (run (step E) (init E v calls) schedule).shared.raw.state % 2 ≡ 0
      → let y = run (step E) (init E v calls) schedule in
        0 < heard_by y.shared.raw.no_writer + total announcing y.tasks
  waiting_reader_woken v calls schedule few loud waited free =
      let (_, k) =
        run-keeps_choices (step E) (AllAwake (length calls)) IsLoud
          (keeps-AllAwake (length calls) few) (init E v calls) schedule loud
          (init-AllAwake v calls few) in
      ground (arith, k.awake, waited, free)
