-- ===== src/RwLock/Exclusive.antt =====
-- src/rwlock.rs: the operations that borrow the lock mutably or consume it, whatever its word is, and
-- `From`.
use async_lock.Base.{◌≡◌, refl}
use async_lock.Event.{EventOps}
use async_lock.RwLock.{RwLock, new}

unfoldable pub into_inner : {Event T : Type 0} → RwLock Event T → T
into_inner s = s.value

-- An assignment through the reference that `get_mut` gives.
unfoldable pub set_by_get_mut : {Event T : Type 0} → RwLock Event T → T → RwLock Event T
set_by_get_mut s v = record s { value = v }

unfoldable pub from : {Event Listener T : Type 0} → EventOps Event Listener → T → RwLock Event T
unfolding new
from E v = new E v

-- The assigned value is what is taken out.
get_mut-into_inner :
    {Event T : Type 0} (s : RwLock Event T) (v : T) → into_inner (set_by_get_mut s v) ≡ v
unfolding into_inner set_by_get_mut
get_mut-into_inner s v = refl
