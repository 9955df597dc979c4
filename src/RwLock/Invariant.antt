-- ===== src/RwLock/Invariant.antt =====
-- src/rwlock.rs and src/rwlock/raw.rs: the two words after every schedule of the tasks.
use async_lock.Base.{ℕ, ◌+◌, ◌^◌, ◌≤◌, ◌≡◌, refl, inl, true, false, List, ◌∷◌, ◌++◌, arith}
use async_lock.Event.{EventOps}
use async_lock.Tasks.{
  run, run-keeps, total, total-split, total-map_zero, total_mono, length, length-split, length-map,
  total-le_length,
}
use async_lock.Mutex.Acquire.{pending, unlock}
use async_lock.RwLock.Raw.Defs.{
  Call, Guard, Pc, reader, upgradable, writer, ready, upgradable_locking, write_locking, holds,
  leaked,
}
use async_lock.RwLock.Raw.Counts.{
  reading, claiming, writing, locking, starved, failed, checked, wrong,
}
use async_lock.RwLock.Raw.Sound.{IsSound, Others, Sound, step-Sound}
use async_lock.RwLock.{RwLock, Use, Choice, new, use_guard, step, init}

module _ {Listener : Type 0} where
  starved-le-one : (p : Pc Listener) → starved p ≤ 1
  starved-le-one (upgradable_locking (pending true l)) = omega arith
  starved-le-one (upgradable_locking (pending false l)) = omega arith
  starved-le-one (upgradable_locking l) = ground arith
  starved-le-one (write_locking (pending true l)) = omega arith
  starved-le-one (write_locking (pending false l)) = omega arith
  starved-le-one (write_locking l) = ground arith
  starved-le-one p = omega arith

  pub claiming-le-locking : (p : Pc Listener) → claiming p ≤ locking p
  claiming-le-locking (holds g) = ground arith
  claiming-le-locking (leaked g) = ground arith
  claiming-le-locking p = omega arith

  pub writing-le-claiming : (p : Pc Listener) → writing p ≤ claiming p
  writing-le-claiming (holds g) = omega arith
  writing-le-claiming p = omega arith

  checked-le-locking : (p : Pc Listener) → checked p ≤ locking p
  checked-le-locking (holds g) = omega arith
  checked-le-locking p = omega arith

  pub rest-Others :
      (before : List (Pc Listener)) (p : Pc Listener) (after : List (Pc Listener))
      → length (before ++ p ∷ after) ≤ 2 ^ 62
      → Others
          (total claiming before + total claiming after)
          (total writing before + total writing after)
          (total locking before + total locking after)
          (total starved before + total starved after)
          (total checked before + total checked after)
  rest-Others before p after n = record {
    few = omega (
      arith,
      length-split before p after,
      total-le_length starved 1 starved-le-one before,
      total-le_length starved 1 starved-le-one after,
    );
    claims = omega (
      arith,
      total_mono claiming locking claiming-le-locking before,
      total_mono claiming locking claiming-le-locking after,
    );
    writes_le = omega (
      arith,
      total_mono writing claiming writing-le-claiming before,
      total_mono writing claiming writing-le-claiming after,
    );
    checks = omega (
      arith,
      total_mono checked locking checked-le-locking before,
      total_mono checked locking checked-le-locking after,
    );
  }

module _ {Event Listener T : Type 0} where
  -- The invariant of the lock and its tasks.
  abbrev pub AllSound : RwLock Event T → List (Pc Listener) → Type 0
  AllSound s ts =
      IsSound s.raw.state s.raw.mutex.state (total reading ts) (total claiming ts)
        (total writing ts) (total locking ts) (total starved ts) (total failed ts)
        (total checked ts) (total wrong ts)
      × (length ts ≤ 2 ^ 62)

  -- The sums around one task.
  pub split-Sound :
      (s : RwLock Event T) (before : List (Pc Listener)) (p : Pc Listener)
      (after : List (Pc Listener))
      → IsSound s.raw.state s.raw.mutex.state
          (total reading (before ++ p ∷ after))
          (total claiming (before ++ p ∷ after))
          (total writing (before ++ p ∷ after))
          (total locking (before ++ p ∷ after))
          (total starved (before ++ p ∷ after))
          (total failed (before ++ p ∷ after))
          (total checked (before ++ p ∷ after))
          (total wrong (before ++ p ∷ after))
        ≡ Sound s.raw p
            (total reading before + total reading after)
            (total claiming before + total claiming after)
            (total writing before + total writing after)
            (total locking before + total locking after)
            (total starved before + total starved after)
            (total failed before + total failed after)
            (total checked before + total checked after)
            (total wrong before + total wrong after)
  split-Sound s before p after = rw (
    total-split reading before p after,
    total-split claiming before p after,
    total-split writing before p after,
    total-split locking before p after,
    total-split starved before p after,
    total-split failed before p after,
    total-split checked before p after,
    total-split wrong before p after,
  )

module _ {Event Listener T : Type 0} (E : EventOps Event Listener) where
  guard-Sound :
      (g : Guard) (u : Use T) (s : RwLock Event T) (r b x m v a q w : ℕ)
      → Others b x m v q
      → Sound {Listener = Listener} s.raw (holds g) r b x m v a q w
      → let y = use_guard {Listener = Listener} g s u in Sound y.0.raw y.1 r b x m v a q w
  unfolding use_guard unlock
  guard-Sound reader u s r b x m v a q w o i = ground arith
  guard-Sound upgradable u s r b x m v a q w o i = ground arith
  guard-Sound writer u s r b x m v a q w o i = ground arith

  whole-step-Sound :
      (c : Choice T) (s : RwLock Event T) (p : Pc Listener) (r b x m v a q w : ℕ)
      → Others b x m v q
      → Sound s.raw p r b x m v a q w
      → let y = step E c s p in Sound y.0.raw y.1 r b x m v a q w
  unfolding step
  whole-step-Sound c s (holds g) r b x m v a q w o i =
      guard-Sound g c.use_guard s r b x m v a q w o i
  whole-step-Sound c s p r b x m v a q w o i =
      step-Sound E c.late c.cancel s.raw p r b x m v a q w o i

  pub keeps-AllSound :
      (c : Choice T) (s : RwLock Event T) (before : List (Pc Listener)) (p : Pc Listener)
      (after : List (Pc Listener))
      → AllSound s (before ++ p ∷ after)
      → AllSound (step E c s p).0 (before ++ (step E c s p).1 ∷ after)
  keeps-AllSound c s before p after (i, n) =
      let q : Pc Listener = (step E c s p).1 in
      (
        rw (split-Sound (step E c s p).0 before q after) (
            whole-step-Sound c s p _ _ _ _ _ _ _ _ (rest-Others before p after n)
              (rw (split-Sound s before p after) at i)),
        omega (arith, length-split before p after, length-split before q after),
      )

  pub init-AllSound :
      (v : T) (calls : List Call)
      → length calls ≤ 2 ^ 62
      → AllSound (init E v calls).shared (init E v calls).tasks
  unfolding init new
  init-AllSound v calls n =
      let none = λ (w : Pc Listener → ℕ) (e : (c : Call) → w (ready c) ≡ 0).
        total-map_zero w ready e calls in
      (
        record {
          mutex_word = record {
            exact = omega (arith, none locking (λ _. refl), none starved (λ _. refl));
            exclusive = omega (arith, none locking (λ _. refl));
            running = none failed (λ _. refl);
          };
          exact = omega (arith, none reading (λ _. refl), none claiming (λ _. refl));
          exclusive = inl (none writing (λ _. refl));
          bounded = omega arith;
          calm = inl (none checked (λ _. refl));
          fresh = none wrong (λ _. refl);
        },
        omega (arith, length-map {A = Pc Listener} ready calls),
      )

  pub run-AllSound :
      (v : T) (calls : List Call) (schedule : List (ℕ × Choice T))
      → length calls ≤ 2 ^ 62
      → let y = run (step E) (init E v calls) schedule in AllSound y.shared y.tasks
  run-AllSound v calls schedule n =
      run-keeps (step E) AllSound (keeps-AllSound) (init E v calls) schedule
        (init-AllSound v calls n)
