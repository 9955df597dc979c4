-- ===== src/Mutex/Tests.antt =====
-- src/mutex.rs: runs of the model, and the theorems at concrete inputs.
use async_lock.Base.{ℕ, ◌+◌, ◌*◌, ◌≡◌, ◌≤◌, ◌<◌, ◌↔◌, refl, true, false, List, [], ◌∷◌, some, arith}
use async_lock.Tasks.{run, total, get_elem?}
use async_lock.Fixtures.{latch, counter, counter-IsCounting}
use async_lock.Mutex.{Call, tries, locks, Choice, writes, drops, ready, holds, init, step, try_lock}
use async_lock.Mutex.Exclusion.{
  holding, starved, failed, word_exact, mutual_exclusion, try_lock_iff,
}
use async_lock.Mutex.Protection.{guard_protects, no_barging}
use async_lock.Mutex.Wakeup.{acts, no_lost_wakeup}

abbrev plain : Choice ℕ
plain = record { late = false; cancel = false; use_guard = drops }

abbrev late : Choice ℕ
late = record { late = true; cancel = false; use_guard = drops }

abbrev store : Choice ℕ
store = record { late = false; cancel = false; use_guard = writes 7 }

abbrev three_calls : List Call
three_calls = tries ∷ locks ∷ tries ∷ []

-- Task 0 has the lock and stores 7 under it.
abbrev owned : List (ℕ × Choice ℕ)
owned = (0, plain) ∷ (0, store) ∷ []

-- Task 1 waits for the lock on the slow path; task 0 unlocks and notifies, task 2 gets in first, and
-- task 1 is late: it counts itself as starved.
abbrev overtaken : List (ℕ × Choice ℕ)
overtaken =
    (0, plain)
    ∷ (1, plain)
    ∷ (1, plain)
    ∷ (1, plain)
    ∷ (1, plain)
    ∷ (1, plain)
    ∷ (0, plain)
    ∷ (0, plain)
    ∷ (1, plain)
    ∷ (1, plain)
    ∷ (2, plain)
    ∷ (1, late)
    ∷ (1, plain)
    ∷ []

owned_result :
    let y = run (step latch) (init latch 3 three_calls) owned in
    (y.shared.state ≡ 1) × (y.shared.value ≡ 7) × (get_elem? y.tasks 0 ≡ some holds)
unfolding run step init
owned_result = (refl, refl, refl)

overtaken_result :
    let y = run (step latch) (init latch 3 three_calls) overtaken in
    (y.shared.state ≡ 3) × (get_elem? y.tasks 2 ≡ some holds)
unfolding run step init
overtaken_result = (refl, refl)

word_exact_example :
    let y = run (step latch) (init latch 3 three_calls) overtaken in
    (y.shared.state ≡ total holding y.tasks + 2 * total starved y.tasks)
    × (total holding y.tasks ≤ 1)
    × (total failed y.tasks ≡ 0)
word_exact_example = word_exact latch 3 three_calls overtaken (omega arith)

mutual_exclusion_example : ◌≡◌ {A = ℕ} 2 2
unfolding run step init
mutual_exclusion_example =
    mutual_exclusion latch 3 three_calls overtaken 2 2 (omega arith) refl refl

try_lock_iff_example :
    let y = run (step latch) (init latch 3 three_calls) overtaken in
    (try_lock y.shared).1 ≡ true ↔ total holding y.tasks + total starved y.tasks ≡ 0
try_lock_iff_example = try_lock_iff latch 3 three_calls overtaken (omega arith)

guard_protects_example :
    let y = run (step latch) (init latch 3 three_calls) owned in
    let z = run (step latch) y ((1, plain) ∷ (2, store) ∷ []) in
    (z.shared.value ≡ y.shared.value) × (get_elem? z.tasks 0 ≡ some holds)
unfolding run step init
guard_protects_example =
    guard_protects latch 3 three_calls owned ((1, plain) ∷ (2, store) ∷ []) 0 (omega arith) refl
      (omega arith)

no_barging_example :
    holding
      (step latch plain
        (run (step latch) (init latch 3 three_calls) overtaken).shared
        (ready tries)).1
    ≡ 0
unfolding run step init total
no_barging_example =
    no_barging latch 3 three_calls overtaken plain (ready tries) (omega arith) (omega arith) refl
      refl

abbrev dropping : Choice ℕ
dropping = record { late = false; cancel = true; use_guard = drops }

-- Task 1 waits behind task 0 and is dropped, task 0 unlocks, and task 2 locks and unlocks.
abbrev all_over : List (ℕ × Choice ℕ)
all_over =
    (0, plain)
    ∷ (1, plain)
    ∷ (1, plain)
    ∷ (1, plain)
    ∷ (1, plain)
    ∷ (1, plain)
    ∷ (1, dropping)
    ∷ (1, plain)
    ∷ (0, plain)
    ∷ (0, plain)
    ∷ (2, plain)
    ∷ (2, plain)
    ∷ (2, plain)
    ∷ []

all_over_result : (run (step latch) (init latch 3 three_calls) all_over).shared.state ≡ 0
unfolding run step init
all_over_result = refl

-- Task 1 waits behind task 0, which unlocks and has yet to notify.
abbrev handed_on : List (ℕ × Choice ℕ)
handed_on =
    (0, plain) ∷ (1, plain) ∷ (1, plain) ∷ (1, plain) ∷ (1, plain) ∷ (1, plain) ∷ (0, plain) ∷ []

no_lost_wakeup_example :
    let y = run (step counter) (init counter 3 three_calls) handed_on in
    0 < y.shared.lock_ops.notified + total acts y.tasks
unfolding run step init total
no_lost_wakeup_example =
    no_lost_wakeup counter (λ e. e.waiting) (λ e. e.notified) counter-IsCounting 3 three_calls
      handed_on (omega arith) refl (omega arith)
