-- ===== src/Semaphore/OwnedTests.antt =====
-- src/semaphore.rs: runs of owned calls, and the theorems at concrete inputs.
use async_lock.Base.{ℕ, zero, suc, ◌≡◌, refl, true, false, none, some, List, [], ◌∷◌, ◌++◌}
use async_lock.Tasks.{run, get_elem?}
use async_lock.Fixtures.{latch}
use async_lock.Arc
use async_lock.Arc.{owns, location, share}
use async_lock.Semaphore.{Call, tries, acquires, Choice, holds, ended, released, init, step}
use async_lock.Semaphore.Owned
use async_lock.Semaphore.Owned.{next, step_arc}

abbrev two_calls : List Call
two_calls = tries ∷ acquires ∷ []

abbrev plain : Arc.Choice Choice
plain = record {
  access = record { spurious = false; cancel = false; forget = false };
  drop_handle = false;
}

abbrev leaving : Arc.Choice Choice
leaving = record {
  access = record { spurious = false; cancel = false; forget = false };
  drop_handle = true;
}

-- So many steps of one task.
abbrev steps : Arc.Choice Choice → ℕ → ℕ → List (ℕ × Arc.Choice Choice)
steps c i zero = []
steps c i (suc k) = (i, c) ∷ steps c i k

-- Both calls get a permit; the future has two references until it is dropped.
abbrev both_held : List (ℕ × Arc.Choice Choice)
both_held = steps plain 0 4 ++ steps plain 1 7

-- Then the callers go, the guards are dropped, and the semaphore with the last reference.
abbrev over : List (ℕ × Arc.Choice Choice)
over = both_held ++ steps leaving 0 1 ++ steps leaving 1 1 ++ steps plain 0 3 ++ steps plain 1 3

both_held_result :
    let y = run (step_arc latch) (share (init latch 3 two_calls)) both_held in
    (get_elem? y.tasks 0 ≡ some (owns holds true 1))
    × (get_elem? y.tasks 1 ≡ some (owns holds true 1))
    × (y.shared.strong ≡ 4)
unfolding run step_arc share init next step
both_held_result = (refl, refl, refl)

over_result :
    let y = run (step_arc latch) (share (init latch 3 two_calls)) over in
    (get_elem? y.tasks 1 ≡ some (owns (ended released) false 0)) × (y.shared.object ≡ none)
unfolding run step_arc share init next step
over_result = (refl, refl)
