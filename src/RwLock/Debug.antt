-- ===== src/RwLock/Debug.antt =====
-- src/rwlock.rs: `Debug`, which reads the lock if it can; no other task takes a step in between.
use async_lock.Base.{
  ℕ, ◌^◌, ◌≤◌, ◌≡◌, refl, if◌then◌else◌, ◌==◌, false, Option, none, some, List, arith, Bool-cases,
  inl, inr, wrapping_sub, and_not_one, isize_max, ◌%◌, wrapping_add, ap, sym, ◌<◌, ◌∙◌,
}
use async_lock.Event.{EventOps}
use async_lock.Tasks.{run, total, length}
use async_lock.RwLock.Raw
use async_lock.RwLock.Raw.Defs.{one_reader, Call, Pc, try_read_swaps, ended, refused}
use async_lock.RwLock.Raw.Reading.{try_read, try_read_swap, read_unlock}
use async_lock.RwLock.Raw.Counts.{claiming}
use async_lock.RwLock.{RwLock, Choice, init, step}
use async_lock.RwLock.Exclusion.{words_exact}
use async_lock.RwLock.Bounds.{never_aborts}

-- What is shown for `value`.
pub data Field (T : Type 0) : Type 0 where
  locked : Field T
  value_is : T → Field T

module _ {Event Listener T : Type 0} (E : EventOps Event Listener) where
  -- The value and the drop of the guard, at `read_unlock` and at the notification that may follow.
  unfoldable pub fmt_guard : RwLock Event T → RwLock Event T × Field T
  unfolding read_unlock
  fmt_guard s =
      let (raw, p) = read_unlock {Listener = Listener} s.raw in
      (record s { raw = (Raw.step E false false raw p).0 }, value_is s.value)

  -- `try_read`, step by step; `none` is the abort at its overflow check.
  unfoldable pub fmt_at : RwLock Event T → Pc Listener → Option (RwLock Event T × Field T)
  unfolding try_read_swap fmt_guard
  fmt_at s (try_read_swaps state) =
      some (fmt_guard (record s { raw = (try_read_swap {Listener = Listener} s.raw state).0 }))
  fmt_at s (ended refused) = some (s, locked)
  fmt_at s p = none

  unfoldable pub fmt : RwLock Event T → Option (RwLock Event T × Field T)
  unfolding try_read fmt_at
  fmt s = fmt_at s (try_read s.raw.state)

  fmt_guard-state :
      (s : RwLock Event T)
      → ((fmt_guard s).0.raw.state ≡ wrapping_sub s.raw.state one_reader)
        × ((fmt_guard s).0.value ≡ s.value)
        × ((fmt_guard s).1 ≡ value_is s.value)
  unfolding fmt_guard read_unlock Raw.step
  fmt_guard-state s = elim (Bool-cases (and_not_one s.raw.state == one_reader)) [
    | inl e ↦ (rw e refl, refl, refl)
    | inr e ↦ (rw e refl, refl, refl)
  ]

  -- On a lock that is far from an overflow.
  fmt_at-read :
      (s : RwLock Event T)
      → s.raw.state ≤ isize_max
      → (t : RwLock Event T) × (fmt s
          ≡ some (t, if s.raw.state % 2 == 0 then value_is s.value else locked))
        × (t.raw.state ≡ s.raw.state)
        × (t.value ≡ s.value)
  unfolding fmt fmt_at try_read try_read_swap
  fmt_at-read s few = elim (Bool-cases (s.raw.state % 2 == 0)) [
    | inl e ↦
        let guard : RwLock Event T = record s {
          raw = (try_read_swap {Listener = Listener} s.raw s.raw.state).0;
        } in
        let (a, b, d) = fmt_guard-state guard in
        let swapped : guard.raw.state ≡ wrapping_add s.raw.state one_reader = ground arith in
        let read : try_read {Listener = Listener} s.raw.state ≡ try_read_swaps s.raw.state =
          ground arith in
        (
          (fmt_guard guard).0,
          ap (fmt_at s) read
              ∙ ap (λ shown. some ((fmt_guard guard).0, shown)) d
              ∙ ap (λ b. some ((fmt_guard guard).0, if b then value_is s.value else locked))
                  (sym e),
          ground (arith, a, swapped),
          b,
        )
    | inr e ↦ (s, rw e refl, refl, refl)
  ]

  -- Where fewer than 2 ^ 62 calls are made, `Debug` never aborts, leaves the word and the value as they
  -- are, and shows the value exactly where no task has or claims write access.
  fmt_lem :
      (v : T) (calls : List Call) (schedule : List (ℕ × Choice T))
      → length calls < 2 ^ 62
      → let y = run (step E) (init E v calls) schedule in
        (t : RwLock Event T) × (fmt y.shared
          ≡ some (t, if total claiming y.tasks == 0 then value_is y.shared.value else locked))
        × (t.raw.state ≡ y.shared.raw.state)
        × (t.value ≡ y.shared.value)
  fmt_lem v calls schedule n =
      let y = run (step E) (init E v calls) schedule in
      let few = (never_aborts E v calls schedule n).0 in
      let (exact, one, _, _, _) = words_exact E v calls schedule (omega (arith, n)) in
      let (t, shows, same, value) = fmt_at-read y.shared (omega (arith, few, n)) in
      (
        t,
        shows
            ∙ ap (λ b. some (t, if b then value_is y.shared.value else locked))
                (ground (arith, exact, one)),
        same,
        value,
      )
