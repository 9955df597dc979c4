-- ===== src/OnceCell/Debug.antt =====
-- src/once_cell.rs: `Debug`, from one load of the state.
use async_lock.Base.{ℕ, ◌≤◌, ◌≡◌, Option, none, some, Option-cases, List, arith, inl, inr}
use async_lock.Event.{EventOps, IsQuietable}
use async_lock.Tasks.{run}
use async_lock.OnceCell.Word.{uninitialized, initializing, initialized, from_usize}
use async_lock.OnceCell.{OnceCell, Call, Choice, init, step}
use async_lock.OnceCell.Owned.{run-AllOwned}
use async_lock.OnceCell.Spec.{Cell, empty, busy, full}
use async_lock.OnceCell.Refine.{view, view-known}

-- The text that is written, or the value.
pub data Inner (T : Type 0) : Type 0 where
  uninitialized_text initializing_text : Inner T
  value_text : T → Inner T

-- `none` is the panic of `From<usize>`, and a read of memory that holds no value.
unfoldable pub fmt : {Event T : Type 0} → OnceCell Event T → Option (Inner T)
unfolding from_usize
fmt s = elim (from_usize s.state) [
  | none ↦ none
  | some uninitialized ↦ some uninitialized_text
  | some initializing ↦ some initializing_text
  | some initialized ↦ elim s.value [ none ↦ none | some v ↦ some (value_text v) ]
]

text_of : {T : Type 0} → Cell T → Inner T
text_of empty = uninitialized_text
text_of busy = initializing_text
text_of (full v) = value_text v

view-fmt :
    {Event T : Type 0} (s : OnceCell Event T) (x : Cell T)
    → s.state ≤ 2
    → view s ≡ some x
    → fmt s ≡ some (text_of x)
unfolding fmt view text_of
view-fmt s empty r e = elim (Option-cases s.value) [
  | inl n ↦ let g = rw n at e in ground arith
  | inr (w, n) ↦ let g = rw n at e in ground arith
]
view-fmt s busy r e = elim (Option-cases s.value) [
  | inl n ↦ let g = rw n at e in ground arith
  | inr (w, n) ↦ let g = rw n at e in ground arith
]
view-fmt s (full v) r e = elim (Option-cases s.value) [
  | inl n ↦ let g = rw n at e in ground arith
  | inr (w, n) ↦ let g = rw n at e in ground arith
]

module _ {Event Listener T Error : Type 0} (E : EventOps Event Listener) (Quiet : Event → Type 0)
    (laws : IsQuietable E Quiet) where
  -- After every schedule `Debug` shows the abstract cell of OnceCell/Spec, and never reads memory that
  -- holds no value. It rests on what event_listener says of an event that nobody has notified.
  fmt_lem :
      (calls : List (Call T)) (schedule : List (ℕ × Choice T Error))
      → let y = run (step E) (init E calls) schedule in
        (x : Cell T) × (view y.shared ≡ some x) × (fmt y.shared ≡ some (text_of x))
  fmt_lem calls schedule =
      let s = (run (step E) (init E calls) schedule).shared in
      let i = run-AllOwned E Quiet laws calls schedule in
      let (x, known) = view-known s i.range i.full in (x, known, view-fmt s x i.range known)
