-- ===== src/RwLock/Release.antt =====
-- src/rwlock.rs and src/rwlock/raw.rs: what is left of the two words when every call is over.
use async_lock.Base.{ℕ, ◌^◌, ◌≤◌, ◌≡◌, refl, List, arith}
use async_lock.Event.{EventOps}
use async_lock.Tasks.{run, total-All_zero, All, length}
use async_lock.RwLock.Raw.Defs.{Call, Pc, ended}
use async_lock.RwLock.Raw.Counts.{reading, claiming, locking, starved}
use async_lock.RwLock.{Choice, step, init}
use async_lock.RwLock.Exclusion.{words_exact}

-- The call gave nothing, was dropped, or its guard was dropped.
abbrev pub IsOver : {Listener : Type 0} → Pc Listener → Type 0
IsOver (ended _) = Unit {0}
IsOver _ = ⊥

over-counts :
    {Listener : Type 0} (p : Pc Listener)
    → IsOver p
    → (reading p ≡ 0) × (claiming p ≡ 0) × (locking p ≡ 0) × (starved p ≡ 0)
over-counts (ended o) h = (refl, refl, refl, refl)
over-counts p h = absurd h

module _ {Event Listener T : Type 0} (E : EventOps Event Listener) where
  -- Where every call is over and no guard was forgotten, the word of the lock and that of its mutex
  -- are 0, as in a new lock, whatever was dropped while it waited; at most 2 ^ 62 calls are made.
  pub rwlock_free_when_over :
      (v : T) (calls : List Call) (schedule : List (ℕ × Choice T))
      → length calls ≤ 2 ^ 62
      → All IsOver (run (step E) (init E v calls) schedule).tasks
      → let y = run (step E) (init E v calls) schedule in
        (y.shared.raw.state ≡ 0) × (y.shared.raw.mutex.state ≡ 0)
  rwlock_free_when_over v calls schedule n over =
      let (word, _, _, mutex, _) = words_exact E v calls schedule n in
      (
        omega (
          arith,
          word,
          total-All_zero IsOver reading (λ p h. (over-counts p h).0) _ over,
          total-All_zero IsOver claiming (λ p h. (over-counts p h).1) _ over,
        ),
        omega (
          arith,
          mutex,
          total-All_zero IsOver locking (λ p h. (over-counts p h).2) _ over,
          total-All_zero IsOver starved (λ p h. (over-counts p h).3) _ over,
        ),
      )
