-- ===== src/OnceCell/Exclusive.antt =====
-- src/once_cell.rs: the operations that borrow the cell mutably or consume it, so that no other task
-- takes a step in between.
use async_lock.Base.{◌≤◌, ◌≡◌, refl, if◌then◌else◌, ◌==◌, Option, none, some, arith}
use async_lock.Event.{EventOps}
use async_lock.OnceCell.Word.{uninitialized, initializing, initialized, from_usize, to_usize}
use async_lock.OnceCell.{OnceCell, from}

-- What the drop of the cell does to the memory of its value: `drops_uninit` is `drop_in_place` where no
-- value is, or was moved out.
pub data Dropped (T : Type 0) : Type 0 where
  drops_nothing drops_uninit : Dropped T
  drops_value : T → Dropped T

unfoldable pub dropped_in_place : {T : Type 0} → Option T → Dropped T
dropped_in_place none = drops_uninit
dropped_in_place (some v) = drops_value v

module _ {Event T : Type 0} where
  -- `none` is the panic of `From<usize>`; the value is moved out of its memory.
  unfoldable pub take : OnceCell Event T → Option (OnceCell Event T × Option T)
  unfolding from_usize to_usize
  take s = elim (from_usize s.state) [
    | none ↦ none
    | some uninitialized ↦ some (s, none)
    | some initializing ↦ some (s, none)
    | some initialized ↦ some (record s { state = to_usize uninitialized; value = none }, s.value)
  ]

  unfoldable pub into_inner : OnceCell Event T → Option (Option T)
  unfolding take
  into_inner s = elim (take s) [ none ↦ none | some (_, v) ↦ some v ]

  -- An assignment through the reference that `get_mut` gives, if it gives one.
  unfoldable pub set_by_get_mut : OnceCell Event T → T → Option (OnceCell Event T)
  unfolding from_usize
  set_by_get_mut s v = elim (from_usize s.state) [
    | none ↦ none
    | some uninitialized ↦ some s
    | some initializing ↦ some s
    | some initialized ↦ some (record s { value = some v })
  ]

  unfoldable pub drop : OnceCell Event T → Option (Dropped T)
  unfolding from_usize dropped_in_place
  drop s = elim (from_usize s.state) [
    | none ↦ none
    | some uninitialized ↦ some drops_nothing
    | some initializing ↦ some drops_nothing
    | some initialized ↦ some (dropped_in_place s.value)
  ]

  -- On a cell with a valid state, `take` gives the value if the cell is initialized and nothing
  -- otherwise, a second `take` gives nothing, and `into_inner` gives what `take` gives.
  take_once :
      (s : OnceCell Event T)
      → s.state ≤ 2
      → let v = if s.state == 2 then s.value else none in
        (t : OnceCell Event T) × (take s ≡ some (t, v))
        × (take t ≡ some (t, none))
        × (into_inner s ≡ some v)
  unfolding into_inner take
  take_once s h = (
    if s.state == 2 then record s { state = 0; value = none } else s,
    ground arith,
    ground arith,
    ground arith,
  )

-- An assignment through `get_mut` on a cell made by `from` is what `into_inner` gives.
set_by_get_mut-into_inner :
    {Event Listener T : Type 0} (E : EventOps Event Listener) (v w : T)
    → (t : OnceCell Event T) × (set_by_get_mut (from E v) w ≡ some t)
      × (into_inner t ≡ some (some w))
unfolding set_by_get_mut into_inner from
set_by_get_mut-into_inner E v w = (record (from E v) { value = some w }, refl, refl)
