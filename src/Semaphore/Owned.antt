-- ===== src/Semaphore/Owned.antt =====
-- src/semaphore.rs: `try_acquire_arc`, `acquire_arc`, the future `AcquireArcInner` and the guard
-- `SemaphoreGuardArc`. A future that is dropped drops its `Arc` before its listener, in the order of
-- its fields.
pub mod Steps
pub mod Exact
use async_lock.Base.{
  Bool-cases, Option, none, ltb, ◌||◌, zero, suc, inl, inr, ℕ, ◌+◌, ◌-◌, ◌^◌, ◌≤◌, ◌<◌, ◌≡◌, refl,
  Bool, true, false, if◌then◌else◌, ◌==◌, is_none, some, List, map, arith,
}
use async_lock.Event.{EventOps, direct, in_future}
use async_lock.Tasks.{All, All-map, All-mono, run, total, length, length-map}
use async_lock.Arc
use async_lock.Arc.{
  Heap, Owner, owns, dangles, Action, clones, drops_arc, drops_and_accesses, leave, proceed,
  location, owned_step, share,
}
use async_lock.Arc.Count.{
  refs, dangling, IsHeld, HasRefs, IsHeld-HasRefs, IsLegal, leave-IsLegal, proceed-IsLegal,
  run-Shared,
}
use async_lock.Arc.Replay.{replay}
use async_lock.Semaphore.{
  Semaphore, Call, tries, acquires, adds, reads, start, exchange, listen, add_permits, drop_guard,
  poll_listener, Pc, ready, loads, swaps, listens, waits, pending, announces, finished, notifies,
  holds, ended, cancelled, Choice, step, init, refuse, succeed, try_acquire,
}
use async_lock.Semaphore.Permits.{owned, guards, granted, requested, permits_conserved}

-- The clone for the future.
abbrev pub acquire_arc : {I P : Type 0} → Arc.Choice I → Bool → ℕ → Action I P
acquire_arc c h n = proceed true true c h n

-- The clone for the guard, where the attempt of a future has succeeded. A finished future has two
-- references until it is dropped: its `Arc` goes, and then its listener.
abbrev pub poll_arc : {I P : Type 0} → ℕ → Action I P
poll_arc n = if n == 1 then clones else drops_and_accesses

-- The clone for the guard, where a direct attempt has succeeded; that of a future is made in its poll.
abbrev pub try_acquire_arc : {I P : Type 0} → Arc.Choice I → Bool → ℕ → Action I P
try_acquire_arc c h n = proceed true false c h n

-- The drop of the `Arc` after the permit has been given back; `forget` drops the `Arc` alone.
abbrev pub drop_arc : {I P : Type 0} → Bool → ℕ → Action I P
drop_arc h n = leave h n

module _ {Listener : Type 0} where
  -- The call asks for nothing of the semaphore any more: it is over, or its future is dropped and has
  -- dropped its `Arc`.
  abbrev pub over : Pc Listener → ℕ → Bool
  over (ended _) n = true
  over (pending _) n = n == 0
  over _ n = false

  -- How many `Arc`s a call owns: none in a direct call, one in a future, a second one from the end of
  -- its last poll to its drop, and one with a guard; 0 where the clone is due or the drop is done.
  abbrev pub fits : Pc Listener → ℕ → Bool
  fits (ready acquires) n = ltb n 2
  fits (ready _) n = n == 0
  fits (loads direct) n = n == 0
  fits (loads (in_future _)) n = n == 1
  fits (swaps direct _) n = n == 0
  fits (swaps (in_future _) _) n = n == 1
  fits (announces _) n = n == 0
  fits (pending _) n = ltb n 2
  fits (finished _) n = n == 1 || n == 2
  fits holds n = ltb n 2
  fits (ended _) n = ltb n 2
  fits _ n = n == 1

  unfoldable pub next : Arc.Choice Choice → Pc Listener → Bool → ℕ → Action Choice (Pc Listener)
  unfolding leave proceed
  next c (ended _) h n = drop_arc h n
  next c (ready acquires) h n = acquire_arc c h n
  next c (ready _) h n = proceed false true c h n
  next c (loads direct) h n = proceed false true c h n
  next c (swaps direct _) h n = proceed false true c h n
  next c (announces _) h n = proceed false true c h n
  next c (pending _) h n =
      if n == 0
      then Arc.lets_go (record c.access { cancel = true }) (ended cancelled)
      else if c.access.cancel
      then drops_arc
      else proceed false false c h n
  next c (finished _) h n = poll_arc n
  next c holds h n = try_acquire_arc c h n
  next c p h n = proceed false false c h n

module _ {Event Listener : Type 0} (E : EventOps Event Listener) where
  -- One step of an owned call.
  unfoldable pub step_arc :
      Arc.Choice Choice
      → Heap (Semaphore Event)
      → Owner (Pc Listener)
      → Heap (Semaphore Event) × Owner (Pc Listener)
  unfolding owned_step
  step_arc = owned_step (step E) next
