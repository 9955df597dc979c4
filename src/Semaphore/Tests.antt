-- ===== src/Semaphore/Tests.antt =====
-- src/semaphore.rs: runs of the model, and the theorems at concrete inputs.
use async_lock.Base.{
  ℕ, ◌+◌, ◌≡◌, ◌⊎◌, ◌≤◌, ◌↔◌, refl, Bool, true, false, List, [], ◌∷◌, ◌++◌, zero, suc, some, arith,
}
use async_lock.Event.{direct}
use async_lock.Tasks.{run, total, get_elem?}
use async_lock.Fixtures.{counter, counter-IsCounting, latch}
use async_lock.Semaphore.{
  Semaphore, Call, tries, acquires, adds, Choice, loads, pending, waits, swaps, holds, ended,
  refused, forgotten, succeed, refuse, init, step,
}
use async_lock.Semaphore.Permits.{owned, guards, granted, permits_conserved}
use async_lock.Semaphore.Attempts.{refused_iff_zero, attempt, disturbances, attempt_terminates}
use async_lock.Semaphore.Releases.{alone, release_all, releases_strand_waiters}

abbrev plain : Choice
plain = record { spurious = false; cancel = false; forget = false }

abbrev weak : Choice
weak = record { spurious = true; cancel = false; forget = false }

abbrev forgetful : Choice
forgetful = record { spurious = false; cancel = false; forget = true }

-- One permit: a direct attempt, a future and two more permits.
abbrev three_calls : List Call
three_calls = tries ∷ acquires ∷ adds 2 ∷ []

-- The attempt fails spuriously once and then takes the permit; the future finds none and waits until
-- permits are added; the first guard is forgotten.
abbrev busy : List (ℕ × Choice)
busy =
    (0, plain)
    ∷ (1, plain)
    ∷ (0, plain)
    ∷ (0, weak)
    ∷ (0, plain)
    ∷ (1, plain)
    ∷ (1, plain)
    ∷ (1, plain)
    ∷ (1, plain)
    ∷ (1, plain)
    ∷ (1, plain)
    ∷ (2, plain)
    ∷ (2, plain)
    ∷ (1, plain)
    ∷ (1, plain)
    ∷ (1, plain)
    ∷ (0, forgetful)
    ∷ []

busy_result :
    ((run (step latch) (init latch 1 three_calls) busy).shared.count ≡ 1)
    × (get_elem? (run (step latch) (init latch 1 three_calls) busy).tasks 0
        ≡ some (ended forgotten))
    × (get_elem? (run (step latch) (init latch 1 three_calls) busy).tasks 1 ≡ some holds)
unfolding run step init
busy_result = (refl, refl, refl)

permits_conserved_example :
    let y = run (step latch) (init latch 1 three_calls) busy in
    (y.shared.count + total owned y.tasks ≡ 1 + total granted y.tasks)
    × (total guards y.tasks ≤ 1 + total granted y.tasks)
unfolding init total
permits_conserved_example = permits_conserved latch 1 three_calls busy (omega arith)

abbrev one_left : Semaphore Bool
one_left = record { count = 1; event = false }

refused_iff_zero_example :
    ((step latch plain one_left (loads direct)).1 ≡ ended refused ↔ one_left.count ≡ 0)
    × ((step latch plain one_left (swaps direct 3)).1 ≡ ended refused ↔ one_left.count ≡ 0)
refused_iff_zero_example = refused_iff_zero latch plain one_left 3 (omega arith)

-- A spurious failure, one because of another task, and one turn more.
abbrev three_turns : List (Choice × ℕ)
three_turns = (weak, 3) ∷ (plain, 2) ∷ (plain, 2) ∷ []

attempt_terminates_example :
    let p = attempt latch three_turns one_left (swaps direct 3) in
    (p ≡ succeed direct) ⊎ (p ≡ refuse direct)
unfolding disturbances
attempt_terminates_example = attempt_terminates latch three_turns one_left direct 3 (omega arith)

abbrev dropping : Choice
dropping = record { spurious = false; cancel = true; forget = false }

-- The future waits behind the first guard and is dropped, the guard is dropped, permits are added.
abbrev all_over : List (ℕ × Choice)
all_over =
    (0, plain)
    ∷ (0, plain)
    ∷ (0, plain)
    ∷ (1, plain)
    ∷ (1, plain)
    ∷ (1, plain)
    ∷ (1, plain)
    ∷ (1, plain)
    ∷ (1, plain)
    ∷ (1, dropping)
    ∷ (0, plain)
    ∷ (0, plain)
    ∷ (2, plain)
    ∷ (2, plain)
    ∷ []

all_over_result :
    (run (step latch) (init latch 1 three_calls) all_over).shared.count
    ≡ 1 + total granted (run (step latch) (init latch 1 three_calls) all_over).tasks
unfolding run step init total
all_over_result = refl

-- So many steps of one task.
abbrev steps : ℕ → ℕ → List (ℕ × Choice)
steps i zero = []
steps i (suc k) = (i, plain) ∷ steps i k

-- Two permits: two guards, and two futures that wait; one is polled again and stands before the poll
-- of its listener.
abbrev two_of_each : List Call
two_of_each = tries ∷ tries ∷ acquires ∷ acquires ∷ []

abbrev both_wait : List (ℕ × Choice)
both_wait = steps 0 3 ++ steps 1 3 ++ steps 2 8 ++ steps 3 6

-- Both guards are dropped, and that future goes on.
abbrev one_runs : List (ℕ × Choice)
one_runs = both_wait ++ steps 0 2 ++ steps 1 2 ++ steps 2 4

-- The other future sleeps on, beside a free permit.
left_asleep_result :
    let y = run (step counter) (init counter 2 two_of_each) one_runs in
    (y.shared.count ≡ 1)
    × (y.shared.event.waiting ≡ 1)
    × (y.shared.event.notified ≡ 0)
    × (get_elem? y.tasks 2 ≡ some holds)
    × (get_elem? y.tasks 3 ≡ some (pending (some tt)))
unfolding run step init
left_asleep_result = (refl, refl, refl, refl, refl)

releases_strand_waiters_example :
    let s = (run (step counter) (init counter 2 two_of_each) (both_wait ++ steps 0 2)).shared in
    let y = alone counter 4 (release_all counter 1 s, waits (some tt)) in
    (y.1 ≡ holds)
    × (y.0.count + 1 ≡ s.count + 1)
    × (y.0.event.notified + 1 ≡ s.event.notified)
    × (y.0.event.waiting ≡ s.event.waiting)
unfolding run step init release_all
releases_strand_waiters_example =
    releases_strand_waiters counter (λ e. e.waiting) (λ e. e.notified) counter-IsCounting 1
      ((run (step counter) (init counter 2 two_of_each) (both_wait ++ steps 0 2)).shared) tt
      (omega arith) (omega arith) (omega arith) refl
