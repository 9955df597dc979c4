-- ===== src/Arc.antt =====
-- Locks that are shared through `std::sync::Arc`: the owned futures and guards of src/semaphore.rs,
-- src/mutex.rs and src/rwlock.rs. An owned call makes the accesses of the borrowed call, and clones
-- and drops references in between.
pub mod Count
pub mod Replay
use async_lock.Base.{
  ℕ, ◌+◌, ◌-◌, Bool, true, false, if◌then◌else◌, ◌==◌, ◌&&◌, not, Option, none, some, List, map,
}
use async_lock.Tasks.{System, length}

-- The allocation: its strong count, and the lock until the last reference is dropped.
pub record Heap (S : Type 0) : Type 0 where
  pub strong : ℕ
  pub object : Option S

-- A task: where its call stands, whether its caller still has the `Arc` that it called through, and
-- how many `Arc`s its future and its guard own. `dangles` is an access to a lock that is gone.
pub data Owner (P : Type 0) : Type 0 where
  owns : P → Bool → ℕ → Owner P
  dangles : P → Owner P

-- What an owned call does next: a clone, the drop of its own reference or of its caller's, the next
-- access of the borrowed call, or nothing. `drops_and_accesses` is the drop of one of its own
-- references and then the access. `lets_go` is the drop of a listener, which keeps its event alive by
-- itself: it is an access under the given choice where the lock is still there, and the call stands at
-- the given place where it is gone.
pub data Action (I P : Type 0) : Type 0 where
  clones drops_arc drops_handle accesses drops_and_accesses rests : Action I P
  lets_go : I → P → Action I P

-- The environment chooses for the borrowed call, and when the caller drops its `Arc`.
pub record Choice (I : Type 0) : Type 0 where
  pub access : I
  pub drop_handle : Bool

-- A call that is over drops its own reference, and its caller may drop the `Arc`.
unfoldable pub leave : {I P : Type 0} → Bool → ℕ → Action I P
leave h n = if n == 0 then (if h then drops_handle else rests) else drops_arc

-- A call that goes on clones the `Arc` where that is due. Its caller may drop the `Arc` once it is not
-- borrowed any more, whether the call has a reference of its own or not.
unfoldable pub proceed : {I P : Type 0} → (due borrowed : Bool) → Choice I → Bool → ℕ → Action I P
proceed due borrowed c h n =
    if due && n == 0
    then clones
    else if c.drop_handle && h && not borrowed
    then drops_handle
    else accesses

abbrev pub location : {P : Type 0} → Owner P → P
location (owns p _ _) = p
location (dangles p) = p

-- The drop of one reference; the last one drops the lock.
unfoldable pub release : {S : Type 0} → Heap S → Heap S
release s = record { strong = s.strong - 1; object = if s.strong == 1 then none else s.object }

module _ {I S P : Type 0} (step : I → S → P → S × P) where
  unfoldable pub access : I → Heap S → P → Bool → ℕ → Heap S × Owner P
  access c s p h n = elim s.object [
    | none ↦ (s, dangles p)
    | some x ↦ (record s { object = some (step c x p).0 }, owns (step c x p).1 h n)
  ]

  unfoldable pub act : Action I P → I → Heap S → P → Bool → ℕ → Heap S × Owner P
  unfolding release access
  act clones c s p h n = (record s { strong = s.strong + 1 }, owns p h (n + 1))
  act drops_arc c s p h n = (release s, owns p h (n - 1))
  act drops_handle c s p h n = (release s, owns p false n)
  act accesses c s p h n = access c s p h n
  act drops_and_accesses c s p h n = access c (release s) p h (n - 1)
  act rests c s p h n = (s, owns p h n)
  act (lets_go i q) c s p h n = elim s.object [ none ↦ (s, owns q h n) | some x ↦ access i s p h n ]

  module _ (next : Choice I → P → Bool → ℕ → Action I P) where
    unfoldable pub owned_step : Choice I → Heap S → Owner P → Heap S × Owner P
    unfolding act
    owned_step c s (owns p h n) = act (next c p h n) c.access s p h n
    owned_step c s (dangles p) = (s, dangles p)

-- A lock and the calls that will be made on it, each through an `Arc` of its own.
unfoldable pub share : {S P : Type 0} → System S P → System (Heap S) (Owner P)
share y = record {
  shared = record { strong = length y.tasks; object = some y.shared };
  tasks = map (λ p. owns p true 0) y.tasks;
}
