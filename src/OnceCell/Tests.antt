-- ===== src/OnceCell/Tests.antt =====
-- src/once_cell.rs: runs of the model, and the theorems at concrete inputs.
use async_lock.Base.{
  ℕ, ◌+◌, ◌<◌, ◌≡◌, ◌≤◌, refl, Bool, true, false, if◌then◌else◌, ◌==◌, is_none, List, [], ◌∷◌, none,
  some, arith,
}
use async_lock.Tasks.{System, run, turn, total, get_elem?}
use async_lock.OnceCell.Passive.{waiters_ready}
use async_lock.Fixtures.{
  Line, line, line-IsRegistering, InLine, CalledUp, counter, counter-IsCounting, latch, Unset,
  latch-IsQuietable,
}
use async_lock.OnceCell.Stored.{announcing}
use async_lock.OnceCell.{
  wait_waits, OnceCell, Call, waits, initializes, computes, gives, Closure, returns, fails, panics,
  Choice, Pc, ended, gave, rejected, failed, init, step,
}
use async_lock.OnceCell.Owned.{owning, wrong, no_undefined_read}
use async_lock.OnceCell.Single.{results_agree}
use async_lock.OnceCell.Awake.{sleeps, acts, waiting_initializer_woken}
use async_lock.OnceCell.Exclusive.{drops_nothing, drops_value, take, into_inner, drop}
use async_lock.OnceCell.Spec.{Cell, busy, full, Act, perform}
use async_lock.OnceCell.Refine.{view, once_cell_refines}
use async_lock.OnceCell.Dropped.{dropped_once}

abbrev closes : Closure ℕ ℕ → Choice ℕ ℕ
closes f = record { cancel = false; closure = f }

abbrev turns_of : ℕ → List (Closure ℕ ℕ) → List (ℕ × Choice ℕ ℕ) → List (ℕ × Choice ℕ ℕ)
turns_of i [] ms = ms
turns_of i (f ∷ fs) ms = (i, closes f) ∷ turns_of i fs ms

abbrev six : Closure ℕ ℕ → List (Closure ℕ ℕ)
six f = f ∷ f ∷ f ∷ f ∷ f ∷ f ∷ []

-- A closure that fails, one that gives 5, a `set` that comes late, and a `wait`.
abbrev four_calls : List (Call ℕ)
four_calls = initializes computes ∷ initializes computes ∷ initializes (gives 8) ∷ waits ∷ []

abbrev failing : List (ℕ × Choice ℕ ℕ)
failing = turns_of 0 (six (fails 1)) (turns_of 0 (six (fails 1)) [])

abbrev filling : List (ℕ × Choice ℕ ℕ)
filling = turns_of 0 (six (fails 1)) (
    turns_of 0 (six (fails 1)) (
      turns_of 3 (six panics) (
        turns_of 1 (six (returns 5))
          (turns_of 1 (six (returns 5)) (turns_of 2 (six panics) (turns_of 3 (six panics) []))))))

abbrev filled : System (OnceCell Bool ℕ) (Pc (Unit {0}) ℕ ℕ)
filled = run (step latch) (init latch four_calls) filling

filled_result :
    (filled.shared.value ≡ some 5)
    × (filled.shared.state ≡ 2)
    × (get_elem? filled.tasks 0 ≡ some (ended (failed 1)))
    × (get_elem? filled.tasks 1 ≡ some (ended (gave 5)))
    × (get_elem? filled.tasks 2 ≡ some (ended (rejected 8)))
    × (get_elem? filled.tasks 3 ≡ some (ended (gave 5)))
unfolding run step init
filled_result = (refl, refl, refl, refl, refl, refl)

no_undefined_read_example :
    let y = run (step latch) (init latch four_calls) filling in
    (total wrong y.tasks ≡ 0)
    × (total owning y.tasks ≡ (if y.shared.state == 1 then 1 else 0))
    × (y.shared.state ≤ 2)
    × (y.shared.state ≡ 2 → is_none y.shared.value ≡ false)
no_undefined_read_example = no_undefined_read latch Unset latch-IsQuietable four_calls filling

results_agree_example :
    ◌≡◌ {A = ℕ} 5 5
    × ((run (step latch) (init latch four_calls) filling).shared.value ≡ some 5)
    × ((run (step latch) (init latch four_calls) filling).shared.state ≡ 2)
unfolding run step init
results_agree_example =
    results_agree latch Unset latch-IsQuietable four_calls filling 1 3 5 5 refl refl

-- The turn of call 1 that stores the state makes a cell that is being filled a full one.
abbrev written : List (ℕ × Choice ℕ ℕ)
written = turns_of 1 (six (returns 5)) []

written_result :
    let y = run (step latch) (init latch four_calls) written in
    let z = turn (step latch) y (1, closes panics) in
    (view y.shared ≡ some busy) × (view z.shared ≡ some (full 5))
unfolding run step init turn view
written_result = (refl, refl)

once_cell_refines_example :
    let y = run (step latch) (init latch four_calls) written in
    let z = turn (step latch) y (1, closes panics) in
    (x : Cell ℕ) × (view y.shared ≡ some x)
    × ((a : Act ℕ) × (x' : Cell ℕ) × (perform a x ≡ some x') × (view z.shared ≡ some x'))
once_cell_refines_example =
    once_cell_refines latch Unset latch-IsQuietable four_calls written 1 (closes panics)

nobody_initializes : total owning (run (step latch) (init latch four_calls) filling).tasks ≡ 0
unfolding run step init total
nobody_initializes = refl

dropped_once_example :
    let s = (run (step latch) (init latch four_calls) filling).shared in
    (drop s ≡ some (elim s.value [ none ↦ drops_nothing | some v ↦ drops_value v ]))
    × (into_inner s ≡ some s.value)
    × ((t : OnceCell Bool ℕ) × (take s ≡ some (t, s.value))
        × (drop t ≡ some drops_nothing)
        × (into_inner t ≡ some none))
dropped_once_example =
    dropped_once latch Unset latch-IsQuietable four_calls filling nobody_initializes

-- Call 1 waits for call 0, whose closure fails, and which has yet to notify.
abbrev given_up : List (ℕ × Choice ℕ ℕ)
given_up =
    turns_of 0 (panics ∷ panics ∷ panics ∷ panics ∷ [])
      (turns_of 1 (six panics) (turns_of 0 (fails 1 ∷ fails 1 ∷ []) []))

given_up_result :
    let y = run (step counter) (init counter four_calls) given_up in
    (total sleeps y.tasks ≡ 1) × (y.shared.state ≡ 0) × (total acts y.tasks ≡ 1)
unfolding run step init total
given_up_result = (refl, refl, refl)

waiting_initializer_woken_example :
    let y = run (step counter) (init counter four_calls) given_up in
    0 < y.shared.active_initializers.notified + total acts y.tasks
waiting_initializer_woken_example =
    waiting_initializer_woken counter (λ e. e.waiting) (λ e. e.notified) counter-IsCounting
      four_calls given_up (omega (arith, given_up_result)) given_up_result.1

-- Call 3 waits, and call 1 initializes the cell and has notified.
abbrev waited : List (ℕ × Choice ℕ ℕ)
waited = turns_of 3 (six panics) (turns_of 1 (six (returns 5)) (turns_of 1 (six (returns 5)) []))

abbrev waited_system : System (OnceCell Line ℕ) (Pc ℕ ℕ ℕ)
waited_system = run (step line) (init line four_calls) waited

waited_result :
    (get_elem? waited_system.tasks 3 ≡ some (wait_waits (some 0)))
    × (waited_system.shared.state ≡ 2)
    × (total announcing waited_system.tasks ≡ 0)
unfolding run step init total
waited_result = (refl, refl, refl)

waiters_ready_example : (line.poll waited_system.shared.passive_waiters (some 0)).2 ≡ true
waiters_ready_example =
    let (at_3, filled_up, none_left) = waited_result in
    waiters_ready line InLine CalledUp line-IsRegistering four_calls waited 3 (wait_waits (some 0))
      0 at_3 refl filled_up none_left
