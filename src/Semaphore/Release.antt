-- ===== src/Semaphore/Release.antt =====
-- src/semaphore.rs: what is left of the counter when every call is over.
use async_lock.Base.{ℕ, ◌+◌, ◌^◌, ◌<◌, ◌≡◌, refl, List, arith}
use async_lock.Event.{EventOps}
use async_lock.Tasks.{run, total, total-All_zero, All}
use async_lock.Semaphore.{Call, forgotten, Pc, ended, Choice, step, init}
use async_lock.Semaphore.Permits.{owned, granted, requested, permits_conserved}

-- The call is over, and no guard of it was forgotten.
abbrev pub IsOver : {Listener : Type 0} → Pc Listener → Type 0
IsOver (ended forgotten) = ⊥
IsOver (ended _) = Unit {0}
IsOver _ = ⊥

over-owned : {Listener : Type 0} (p : Pc Listener) → IsOver p → owned p ≡ 0
over-owned (ended forgotten) h = absurd h
over-owned (ended o) h = refl
over-owned p h = absurd h

module _ {Event Listener : Type 0} (E : EventOps Event Listener) where
  -- Where every call is over and no guard was forgotten, the counter is the initial permits and
  -- those added since, whatever was dropped while it waited, if all the permits that are ever asked
  -- for fit a usize.
  permits_back_when_over :
      (n : ℕ) (calls : List Call) (schedule : List (ℕ × Choice))
      → n + total requested (init E n calls).tasks < 2 ^ 64
      → All IsOver (run (step E) (init E n calls) schedule).tasks
      → (run (step E) (init E n calls) schedule).shared.count
        ≡ n + total granted (run (step E) (init E n calls) schedule).tasks
  permits_back_when_over n calls schedule h over = omega (
    arith,
    (permits_conserved E n calls schedule h).0,
    total-All_zero IsOver owned over-owned _ over,
  )
