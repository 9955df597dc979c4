-- ===== src/Semaphore/Owned/Exact.antt =====
-- src/semaphore.rs: the references of owned calls are counted exactly, and their permits conserved.
use async_lock.Base.{ℕ, ◌+◌, ◌-◌, ◌^◌, ◌≤◌, ◌<◌, ◌≡◌, some, List, map}
use async_lock.Event.{EventOps}
use async_lock.Tasks.{run, total}
use async_lock.Arc
use async_lock.Arc.{
  Heap, Owner, owns, dangles, Action, clones, drops_arc, accesses, proceed, location, share,
}
use async_lock.Arc.Count.{refs}
use async_lock.Arc.Replay.{replay}
use async_lock.Semaphore.{Semaphore, Call, Pc, ended, Choice, step, init}
use async_lock.Semaphore.Permits.{owned, guards, granted, requested, permits_conserved}
use async_lock.Semaphore.Owned.{fits, next, step_arc}

module _ {Event Listener : Type 0} (E : EventOps Event Listener) where
  -- A call that is over, and its next step.
  abbrev pub Ebbs : Arc.Choice Choice → Heap (Semaphore Event) → Owner (Pc Listener) → Type 0
  Ebbs c s (owns (ended o) h n) =
      refs (step_arc E c s (owns (ended o) h n)).1 ≡ refs {P = Pc Listener} (owns (ended o) h n) - 1
  Ebbs c s o = Unit {0}

  -- As long as an owned semaphore is there, its counter and the permits that owned guards hold, or
  -- held when they were forgotten, add up to the initial permits and those added since, if all the
  -- permits that are ever asked for fit a usize.
  pub owned_permits_conserved :
      (k : ℕ) (calls : List Call) (schedule : List (ℕ × Arc.Choice Choice)) (x : Semaphore Event)
      → k + total requested (init E k calls).tasks < 2 ^ 64
      → (run (step_arc E) (share (init E k calls)) schedule).shared.object ≡ some x
      → let at = map location (run (step_arc E) (share (init E k calls)) schedule).tasks in
        (x.count + total owned at ≡ k + total granted at) × (total guards at ≤ k + total granted at)
  unfolding step_arc
  owned_permits_conserved k calls schedule x fits live =
      let (s, e) = replay (step E) next (init E k calls) schedule x live in
      rw e at (permits_conserved E k calls s fits)
