-- ===== src/RwLock/OwnedTests.antt =====
-- src/rwlock.rs: runs of owned calls, and the theorems at concrete inputs.
use async_lock.Base.{ℕ, zero, suc, ◌≡◌, refl, true, false, none, some, List, [], ◌∷◌, ◌++◌}
use async_lock.Tasks.{run, get_elem?}
use async_lock.Fixtures.{latch}
use async_lock.Arc
use async_lock.Arc.{owns, share}
use async_lock.RwLock.Raw.Defs.{
  Call, tries_read, tries_upgradable_read, reader, upgradable, holds, ended, dropped,
}
use async_lock.RwLock.{Choice, drops, init, step}
use async_lock.RwLock.Owned.{next, step_arc}
use async_lock.RwLock.Owned

abbrev readers : List Call
readers = tries_read ∷ tries_upgradable_read ∷ []

abbrev plain : Arc.Choice (Choice ℕ)
plain = record {
  access = record { late = false; cancel = false; use_guard = drops };
  drop_handle = false;
}

abbrev leaving : Arc.Choice (Choice ℕ)
leaving = record {
  access = record { late = false; cancel = false; use_guard = drops };
  drop_handle = true;
}

-- So many steps of one task.
abbrev steps : Arc.Choice (Choice ℕ) → ℕ → ℕ → List (ℕ × Arc.Choice (Choice ℕ))
steps c i zero = []
steps c i (suc k) = (i, c) ∷ steps c i k

-- Both get their guards, with a clone each, and the callers drop their references.
abbrev both_read : List (ℕ × Arc.Choice (Choice ℕ))
both_read = steps plain 0 4 ++ steps plain 1 4 ++ steps leaving 0 1 ++ steps leaving 1 1

-- Then both drop their guards, and the lock goes with the last reference.
abbrev both_drop : List (ℕ × Arc.Choice (Choice ℕ))
both_drop = both_read ++ steps plain 0 2 ++ steps plain 1 6

both_read_result :
    let y = run (step_arc latch) (share (init latch 3 readers)) both_read in
    (get_elem? y.tasks 0 ≡ some (owns (holds reader) false 1))
    × (get_elem? y.tasks 1 ≡ some (owns (holds upgradable) false 1))
    × (y.shared.strong ≡ 2)
unfolding run step_arc share init next step
both_read_result = (refl, refl, refl)

both_drop_result :
    let y = run (step_arc latch) (share (init latch 3 readers)) both_drop in
    (get_elem? y.tasks 1 ≡ some (owns (ended dropped) false 0)) × (y.shared.object ≡ none)
unfolding run step_arc share init next step
both_drop_result = (refl, refl)
