-- ===== src/RwLock/Readers/Steps.antt =====
-- src/rwlock.rs and src/rwlock/raw.rs: the notifications of `no_writer`, and the readers that wait for
-- one.
use async_lock.Base.{
  ℕ, ◌+◌, ◌%◌, ◌≤◌, ◌≡◌, ◌⊎◌, refl, Bool, true, false, none, some, arith, isize_max,
}
use async_lock.Event.{EventOps, IsCounting}
use async_lock.Mutex.Acquire.{Lock, poll, done, gone}
use async_lock.RwLock.Raw.{then_upgradable, then_write}
use async_lock.RwLock.Raw.Defs.{
  tries_read, reads, tries_upgradable_read, upgradable_reads, tries_write, writes, reader,
  upgradable, writer, Pc, ready, read_pending, read_listens, read_waits, read_passes, read_loads,
  read_swaps, read_done, read_drops, upgradable_locking, write_locking, write_announces,
  reader_announces, holds,
}
use async_lock.RwLock.Raw.Sound.{Others, Sound}
use async_lock.RwLock.{RwLock, Use, downgrades_to_upgradable, Choice, step}
use async_lock.RwLock.Wakeup.{announcing, then_upgradable-silent, then_write-silent}
use async_lock.RwLock.Raw.Awake.{one_if_some}
use async_lock.RwLock.Bounds.{doomed}

abbrev pub quietly : {T : Type 0} → Use T → Bool
quietly downgrades_to_upgradable = true
quietly _ = false

-- The choice is not `downgrade_to_upgradable`.
abbrev pub IsLoud : {T : Type 0} → Choice T → Type 0
IsLoud c = quietly c.use_guard ≡ false

module _ {Listener : Type 0} where
  -- The task has a listener of `no_writer`.
  abbrev pub has_listener : Pc Listener → ℕ
  has_listener (read_pending _ l) = one_if_some l
  has_listener (read_waits _ l) = one_if_some l
  has_listener (read_passes l) = one_if_some l
  has_listener (read_loads l) = one_if_some l
  has_listener (read_swaps _ l) = one_if_some l
  has_listener (read_done l) = one_if_some l
  has_listener (read_drops l) = one_if_some l
  has_listener _ = 0

  -- The task waits for a notification of it.
  abbrev pub reader_waits : Pc Listener → ℕ
  reader_waits (read_pending _ l) = one_if_some l
  reader_waits (read_waits _ l) = one_if_some l
  reader_waits _ = 0

  -- The task waits without a listener.
  abbrev pub hears_nothing : Pc Listener → ℕ
  hears_nothing (read_waits _ none) = 1
  hears_nothing _ = 0

  pub waits-le-has_listener : (p : Pc Listener) → reader_waits p ≤ has_listener p
  waits-le-has_listener (read_pending _ l) = omega arith
  waits-le-has_listener (read_waits _ l) = omega arith
  waits-le-has_listener p = omega arith

  -- A task at a `Lock` future, and where its poll leads, has no part in this.
  abbrev IsApart : Pc Listener → Type 0
  IsApart p = (has_listener p ≡ 0) × (reader_waits p ≡ 0) × (hears_nothing p ≡ 0)

  then_upgradable-IsApart : (l : Lock Listener) → IsApart (then_upgradable l)
  unfolding then_upgradable
  then_upgradable-IsApart (done l) = (refl, refl, refl)
  then_upgradable-IsApart gone = (refl, refl, refl)
  then_upgradable-IsApart l = (refl, refl, refl)

  then_write-IsApart : (l : Lock Listener) → IsApart (then_write l)
  unfolding then_write
  then_write-IsApart (done l) = (refl, refl, refl)
  then_write-IsApart gone = (refl, refl, refl)
  then_write-IsApart l = (refl, refl, refl)

-- `h` tasks have a listener, `d` wait, `n` are about to notify and `f` wait in vain. A word without the
-- writer's bit for which somebody waits has a notified listener or a task that is about to notify.
pub record IsAwake (state waiting notified h d n f : ℕ) : Type 0 where
  pub heard : waiting + notified ≡ h
  pub hears : f ≡ 0
  pub awake : (d ≡ 0) ⊎ ((state % 2 ≡ 1) ⊎ (1 ≤ notified + n))

module _ {Event Listener T : Type 0} (E : EventOps Event Listener) (unheard heard_by : Event → ℕ)
    (C : IsCounting E unheard heard_by) where
  -- The lock with a task at `p`, and the other tasks.
  abbrev pub Awake : RwLock Event T → Pc Listener → (h d n f : ℕ) → Type 0
  Awake s p h d n f =
      IsAwake s.raw.state (unheard s.raw.no_writer) (heard_by s.raw.no_writer) (has_listener p + h)
        (reader_waits p + d) (announcing p + n) (hears_nothing p + f)

  pub step-Awake :
      (c : Choice T) (s : RwLock Event T) (p : Pc Listener) (r b x m v a q w h d n f : ℕ)
      → IsLoud c
      → Others b x m v q
      → Sound s.raw p r b x m v a q w
      → d ≤ h
      → s.raw.state ≤ isize_max
      → doomed p ≡ 0
      → Awake s p h d n f
      → let y = step E c s p in Awake y.0 y.1 h d n f
  unfolding step
  step-Awake c s (ready tries_read) r b x m v a q w h d n f u o i z g j k = ground arith
  step-Awake c s (ready reads) r b x m v a q w h d n f u o i z g j k = ground arith
  step-Awake c s (ready tries_upgradable_read) r b x m v a q w h d n f u o i z g j k = ground arith
  step-Awake c s (ready upgradable_reads) r b x m v a q w h d n f u o i z g j k = ground arith
  step-Awake c s (ready tries_write) r b x m v a q w h d n f u o i z g j k = ground arith
  step-Awake c s (ready writes) r b x m v a q w h d n f u o i z g j k = ground arith
  step-Awake c s (upgradable_locking l) r b x m v a q w h d n f u o i z g j k =
      let l' = (poll E c.late c.cancel s.raw.mutex l).1 in
      ground (arith, then_upgradable-IsApart l', then_upgradable-silent l')
  step-Awake c s (write_locking l) r b x m v a q w h d n f u o i z g j k =
      let l' = (poll E c.late c.cancel s.raw.mutex l).1 in
      ground (arith, then_write-IsApart l', then_write-silent l')
  step-Awake c s (read_pending e none) r b x m v a q w h d n f u o i z g j k = ground arith
  step-Awake c s (read_pending e (some l)) r b x m v a q w h d n f u o i z g j k = ground arith
  step-Awake c s read_listens r b x m v a q w h d n f u o i z g j k =
      ground (arith, C.listen_counts s.raw.no_writer)
  step-Awake c s (read_waits e none) r b x m v a q w h d n f u o i z g j k = ground arith
  step-Awake c s (read_waits e (some l)) r b x m v a q w h d n f u o i z g j k =
      ground (arith, C.poll_counts s.raw.no_writer l)
  step-Awake c s (read_passes l) r b x m v a q w h d n f u o i z g j k =
      ground (arith, C.notify_counts 1 s.raw.no_writer)
  step-Awake c s (read_loads none) r b x m v a q w h d n f u o i z g j k = ground arith
  step-Awake c s (read_loads (some l)) r b x m v a q w h d n f u o i z g j k = ground arith
  step-Awake c s (read_swaps e none) r b x m v a q w h d n f u o i z g j k = ground arith
  step-Awake c s (read_swaps e (some l)) r b x m v a q w h d n f u o i z g j k = ground arith
  step-Awake c s (read_done none) r b x m v a q w h d n f u o i z g j k =
      ground (arith, C.drop_none s.raw.no_writer)
  step-Awake c s (read_done (some l)) r b x m v a q w h d n f u o i z g j k =
      ground (arith, C.drop_counts s.raw.no_writer l)
  step-Awake c s (read_drops none) r b x m v a q w h d n f u o i z g j k =
      ground (arith, C.drop_none s.raw.no_writer)
  step-Awake c s (read_drops (some l)) r b x m v a q w h d n f u o i z g j k =
      ground (arith, C.drop_counts s.raw.no_writer l)
  step-Awake c s (write_announces e) r b x m v a q w h d n f u o i z g j k =
      ground (arith, C.notify_counts 1 s.raw.no_writer)
  step-Awake c s reader_announces r b x m v a q w h d n f u o i z g j k =
      ground (arith, C.notify_counts 1 s.raw.no_writer)
  step-Awake c s (holds reader) r b x m v a q w h d n f u o i z g j k = ground arith
  step-Awake c s (holds upgradable) r b x m v a q w h d n f u o i z g j k = ground arith
  step-Awake c s (holds writer) r b x m v a q w h d n f u o i z g j k = ground arith
  step-Awake c s p r b x m v a q w h d n f u o i z g j k = ground arith
