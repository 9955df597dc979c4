-- ===== src/Mutex/Release.antt =====
-- src/mutex.rs: what is left of the lock word when every call is over.
use async_lock.Base.{ℕ, ◌^◌, ◌≤◌, ◌≡◌, refl, List, arith}
use async_lock.Event.{EventOps}
use async_lock.Tasks.{run, total-All_zero, All, length}
use async_lock.Mutex.{Call, forgotten, Pc, ended, Choice, step, init}
use async_lock.Mutex.Exclusion.{holding, starved, run-Counted}

-- The call gave nothing, was dropped, or its guard was dropped.
abbrev pub IsOver : {Listener : Type 0} → Pc Listener → Type 0
IsOver (ended forgotten) = ⊥
IsOver (ended _) = Unit {0}
IsOver _ = ⊥

over-holding : {Listener : Type 0} (p : Pc Listener) → IsOver p → holding p ≡ 0
over-holding (ended forgotten) h = absurd h
over-holding (ended o) h = refl
over-holding p h = absurd h

over-starved : {Listener : Type 0} (p : Pc Listener) → IsOver p → starved p ≡ 0
over-starved (ended o) h = refl
over-starved p h = absurd h

module _ {Event Listener T : Type 0} (E : EventOps Event Listener) where
  -- Where every call is over and no guard was forgotten, the lock word is 0, as in a new mutex,
  -- whatever was dropped while it waited; at most 2 ^ 62 calls are made.
  mutex_free_when_over :
      (v : T) (calls : List Call) (schedule : List (ℕ × Choice T))
      → length calls ≤ 2 ^ 62
      → All IsOver (run (step E) (init E v calls) schedule).tasks
      → (run (step E) (init E v calls) schedule).shared.state ≡ 0
  mutex_free_when_over v calls schedule n over = omega (
    arith,
    (run-Counted E v calls schedule n).0.exact,
    total-All_zero IsOver holding over-holding _ over,
    total-All_zero IsOver starved over-starved _ over,
  )
