-- ===== src/Mutex/OwnedTests.antt =====
-- src/mutex.rs: runs of owned calls, and the theorems at concrete inputs.
use async_lock.Base.{
  ℕ, zero, suc, ◌≡◌, refl, true, false, is_none, none, some, List, [], ◌∷◌, ◌++◌, ◌==◌, arith,
}
use async_lock.Tasks.{All, run, total, get_elem?}
use async_lock.Fixtures.{latch}
use async_lock.Arc
use async_lock.Arc.{owns, share}
use async_lock.Arc.Count.{HasRefs, refs, dangling}
use async_lock.Mutex.{Call, tries, locks, Choice, drops, holds, ended, cancelled, init, step}
use async_lock.Mutex.Owned
use async_lock.Mutex.Owned.{Ebbs, fits, next, step_arc, mutex_arc_exact}

abbrev two_calls : List Call
two_calls = tries ∷ locks ∷ []

abbrev plain : Arc.Choice (Choice ℕ)
plain = record {
  access = record { late = false; cancel = false; use_guard = drops };
  drop_handle = false;
}

abbrev leaving : Arc.Choice (Choice ℕ)
leaving = record {
  access = record { late = false; cancel = true; use_guard = drops };
  drop_handle = true;
}

-- So many steps of one task.
abbrev steps : Arc.Choice (Choice ℕ) → ℕ → ℕ → List (ℕ × Arc.Choice (Choice ℕ))
steps c i zero = []
steps c i (suc k) = (i, c) ∷ steps c i k

-- Call 0 has the guard, call 1 waits with a reference of its own, and both callers go.
abbrev waiting : List (ℕ × Arc.Choice (Choice ℕ))
waiting = steps plain 0 2 ++ steps plain 1 6 ++ steps leaving 0 1 ++ steps leaving 1 1

-- Then the future is dropped, and the guard; the mutex goes with the last reference.
abbrev over : List (ℕ × Arc.Choice (Choice ℕ))
over = waiting ++ steps leaving 1 3 ++ steps plain 0 3

waiting_result :
    let y = run (step_arc latch) (share (init latch 3 two_calls)) waiting in
    (get_elem? y.tasks 0 ≡ some (owns holds false 1)) × (y.shared.strong ≡ 2)
unfolding run step_arc share init next step
waiting_result = (refl, refl)

over_result :
    let y = run (step_arc latch) (share (init latch 3 two_calls)) over in
    (get_elem? y.tasks 1 ≡ some (owns (ended cancelled) false 0)) × (y.shared.object ≡ none)
unfolding run step_arc share init next step
over_result = (refl, refl)

mutex_arc_exact_example :
    let y = run (step_arc latch) (share (init latch 3 two_calls)) over in
    (y.shared.strong ≡ total refs y.tasks)
    × (is_none y.shared.object ≡ (y.shared.strong == 0))
    × (total dangling y.tasks ≡ 0)
    × All (λ o. HasRefs Owned.over fits o × Ebbs latch plain y.shared o) y.tasks
mutex_arc_exact_example = mutex_arc_exact latch 3 two_calls over plain (omega arith)
