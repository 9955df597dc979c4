-- ===== src/OnceCell/Word.antt =====
-- src/once_cell.rs: the enum `State` and its conversions.
use async_lock.Base.{ℕ, ◌≡◌, refl, if◌then◌else◌, ◌==◌, Option, none, some, arith}

pub data State : Type 0 where
  uninitialized initializing initialized : State

-- `From<usize>`; any other number panics.
unfoldable pub from_usize : ℕ → Option State
from_usize n =
    if n == 0
    then some uninitialized
    else if n == 1
    then some initializing
    else if n == 2
    then some initialized
    else none

unfoldable pub to_usize : State → ℕ
to_usize uninitialized = 0
to_usize initializing = 1
to_usize initialized = 2

-- Each state is read back from its number, and a number that is read as a state is that state's.
pub state_roundtrip :
    ((s : State) → from_usize (to_usize s) ≡ some s)
    × ((n : ℕ) (s : State) → from_usize n ≡ some s → to_usize s ≡ n)
unfolding from_usize to_usize
state_roundtrip = (there, back)
  where
    there : (s : State) → from_usize (to_usize s) ≡ some s
    there uninitialized = refl
    there initializing = refl
    there initialized = refl

    back : (n : ℕ) (s : State) → from_usize n ≡ some s → to_usize s ≡ n
    back n s e = ground arith
