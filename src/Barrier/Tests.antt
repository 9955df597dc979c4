-- ===== src/Barrier/Tests.antt =====
-- src/barrier.rs: runs of the model, and the theorems at concrete inputs.
use async_lock.Base.{
  ℕ, zero, suc, ◌+◌, ◌*◌, ◌≡◌, ◌%◌, ◌^◌, ◌≢◌, ◌≤◌, ◌<◌, refl, true, false, none, some, List, [],
  ◌∷◌, ◌++◌, arith,
}
use async_lock.Tasks.{System, run, total, get_elem?}
use async_lock.Fixtures.{Line, latch, line, line-IsRegistering, InLine, CalledUp}
use async_lock.Barrier.Wakeup.{round_is_over}
use async_lock.Barrier.Stored.{announcing, generation}
use async_lock.Barrier.{
  Barrier, Pc, pending, Choice, leader, follower, cancelled, listens, ended, init, step,
}
use async_lock.Barrier.Seats.{waiting, returning, abandoned, leading}
use async_lock.Barrier.Rounds.{rounds_complete}
use async_lock.Barrier.Exclusion.{holding}
use async_lock.Barrier.Section.{critical_section}

abbrev plain : Choice
plain = record { late = false; cancel = false }

abbrev dropping : Choice
dropping = record { late = false; cancel = true }

-- So many steps of one task.
abbrev steps : ℕ → ℕ → List (ℕ × Choice)
steps i zero = []
steps i (suc k) = (i, plain) ∷ steps i k

abbrev three_calls : List (Unit {0})
three_calls = tt ∷ tt ∷ tt ∷ []

-- Call 0 waits, call 1 completes the round and leads it, call 0 returns, call 2 waits for the next
-- round.
abbrev full_round : List (ℕ × Choice)
full_round = steps 0 8 ++ steps 1 7 ++ steps 0 8 ++ steps 2 8

-- Call 0 is counted and dropped, and call 1 leads.
abbrev dropped_round : List (ℕ × Choice)
dropped_round = steps 0 8 ++ (0, dropping) ∷ (0, plain) ∷ steps 1 7

full_round_result :
    let y = run (step latch) (init latch 2 three_calls) full_round in
    (get_elem? y.tasks 0 ≡ some (ended follower))
    × (get_elem? y.tasks 1 ≡ some (ended leader))
    × (y.shared.state.value.count ≡ 1)
    × (y.shared.state.value.generation_id ≡ 1)
unfolding run step init
full_round_result = (refl, refl, refl, refl)

dropped_round_result :
    let y = run (step latch) (init latch 2 three_calls) dropped_round in
    (get_elem? y.tasks 0 ≡ some (ended (cancelled true)))
    × (get_elem? y.tasks 1 ≡ some (ended leader))
unfolding run step init
dropped_round_result = (refl, refl)

rounds_complete_example :
    let y = run (step latch) (init latch 2 three_calls) full_round in
    (total waiting y.tasks + total returning y.tasks + total abandoned y.tasks
      ≡ 2 * total leading y.tasks + y.shared.state.value.count)
    × (y.shared.state.value.count < 2)
    × (y.shared.state.value.generation_id ≡ total leading y.tasks % 2 ^ 64)
    × (total returning y.tasks ≤ 2 * total leading y.tasks)
rounds_complete_example = rounds_complete latch 2 three_calls full_round (omega arith) (omega arith)

-- Call 0 has the mutex after three steps, at `listen`, when call 1 tries to arrive.
critical_section_example :
    let y = run (step latch) (init latch 2 three_calls) (steps 0 3) in
    let z = run (step latch) y (steps 1 4) in
    (z.shared.state.value ≡ y.shared.state.value)
    × (get_elem? z.tasks 0 ≡ some (listens 0 none))
    × (total holding z.tasks ≡ 1)
unfolding run step init
critical_section_example =
    critical_section latch 2 three_calls (steps 0 3) (steps 1 4) 0 (listens 0 none) (omega arith)
      refl refl (omega arith)

-- Call 0 waits, and call 1 completes the round and has notified.
abbrev announced : List (ℕ × Choice)
announced = steps 0 8 ++ steps 1 4

abbrev announced_system : System (Barrier Line) (Pc ℕ)
announced_system = run (step line) (init line 2 three_calls) announced

announced_result :
    (get_elem? announced_system.tasks 0 ≡ some (pending 0 (some 0)))
    × (0 ≢ generation announced_system.shared)
    × (total announcing announced_system.tasks ≡ 0)
unfolding run step init total
announced_result = (refl, λ e. omega (arith, e), refl)

round_is_over_example : (line.poll announced_system.shared.event (some 0)).2 ≡ true
round_is_over_example =
    let (at_0, over, none_left) = announced_result in
    round_is_over line InLine CalledUp line-IsRegistering 2 three_calls announced 0 0
      (pending 0 (some 0)) 0 (omega arith) at_0 refl refl over none_left

-- Call 0 was woken, and has the mutex again.
abbrev woken : List (ℕ × Choice)
woken = steps 0 8 ++ steps 1 7 ++ steps 0 4
