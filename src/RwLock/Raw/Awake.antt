-- ===== src/RwLock/Raw/Awake.antt =====
-- src/rwlock/raw.rs: the notifications of `no_readers`, and the writer that waits for one.
use async_lock.Base.{ℕ, ◌+◌, ◌≤◌, ◌≡◌, ◌⊎◌, refl, Bool, Option, none, some, arith}
use async_lock.Event.{EventOps, IsCounting}
use async_lock.Mutex.Acquire.{Lock, poll, done, gone}
use async_lock.RwLock.Raw.Defs.{
  RawRwLock, After, cancels, released, refuses, reads_on, downgraded, tries_read, reads,
  tries_upgradable_read, upgradable_reads, tries_write, writes, Pc, ready, upgradable_locking,
  write_locking, write_listens, write_drops, drain_loads, drain_listens, drain_waits, drain_pending,
  drain_done, write_announces, readers_notify, mutex_unlocks, mutex_notifies, drops_listener,
}
use async_lock.RwLock.Raw.Sound.{Others, Sound}
use async_lock.RwLock.Raw.{step, then_upgradable, then_write}

abbrev pub one_if_some : {A : Type 0} → Option A → ℕ
one_if_some none = 0
one_if_some (some _) = 1

module _ {Listener : Type 0} where
  abbrev pub after_has_listener : After Listener → ℕ
  after_has_listener (cancels l) = one_if_some l
  after_has_listener _ = 0

  -- The task has a listener of `no_readers`.
  abbrev pub has_listener : Pc Listener → ℕ
  has_listener (write_drops _ l) = one_if_some l
  has_listener (drain_loads l) = one_if_some l
  has_listener (drain_waits l) = one_if_some l
  has_listener (drain_pending l) = one_if_some l
  has_listener (drain_done l) = one_if_some l
  has_listener (write_announces a) = after_has_listener a
  has_listener (mutex_unlocks a) = after_has_listener a
  has_listener (mutex_notifies a) = after_has_listener a
  has_listener (drops_listener l) = one_if_some l
  has_listener _ = 0

  -- The task waits for a notification of it.
  abbrev pub sleeps : Pc Listener → ℕ
  sleeps (drain_waits l) = one_if_some l
  sleeps (drain_pending l) = one_if_some l
  sleeps _ = 0

  -- The task is about to notify it.
  abbrev pub wakes : Pc Listener → ℕ
  wakes (readers_notify _) = 1
  wakes _ = 0

  -- The task waits without a listener.
  abbrev pub hears_nothing : Pc Listener → ℕ
  hears_nothing (drain_waits none) = 1
  hears_nothing _ = 0

  -- A task at a `Lock` future, and where its poll leads, has no part in this.
  abbrev IsApart : Pc Listener → Type 0
  IsApart p = (has_listener p ≡ 0) × (sleeps p ≡ 0) × (wakes p ≡ 0) × (hears_nothing p ≡ 0)

  pub then_upgradable-IsApart : (l : Lock Listener) → IsApart (then_upgradable l)
  unfolding then_upgradable
  then_upgradable-IsApart (done l) = (refl, refl, refl, refl)
  then_upgradable-IsApart gone = (refl, refl, refl, refl)
  then_upgradable-IsApart l = (refl, refl, refl, refl)

  pub then_write-IsApart : (l : Lock Listener) → IsApart (then_write l)
  unfolding then_write
  then_write-IsApart (done l) = (refl, refl, refl, refl)
  then_write-IsApart gone = (refl, refl, refl, refl)
  then_write-IsApart l = (refl, refl, refl, refl)

-- `h` tasks have a listener, `d` wait, `n` are about to notify and `f` wait in vain. A word without
-- readers under which somebody waits has a notified listener or a task that is about to notify.
pub record IsAwake (state waiting notified h d n f : ℕ) : Type 0 where
  pub heard : waiting + notified ≡ h
  pub hears : f ≡ 0
  pub awake : (d ≡ 0) ⊎ ((2 ≤ state) ⊎ (1 ≤ notified + n))

-- The other tasks that wait have claimed write access, and have a listener.
pub record Sleepers (b h d f : ℕ) : Type 0 where
  pub claimed : d ≤ b
  pub listen : d ≤ h

module _ {Event Listener : Type 0} (E : EventOps Event Listener) (unheard heard_by : Event → ℕ)
    (C : IsCounting E unheard heard_by) where
  -- The lock with a task at `p`, and the other tasks.
  abbrev pub Awake : RawRwLock Event → Pc Listener → (h d n f : ℕ) → Type 0
  Awake s p h d n f =
      IsAwake s.state (unheard s.no_readers) (heard_by s.no_readers) (has_listener p + h)
        (sleeps p + d) (wakes p + n) (hears_nothing p + f)

  pub step-Awake :
      (late cancel : Bool) (s : RawRwLock Event) (p : Pc Listener) (r b x m v a q w h d n f : ℕ)
      → Others b x m v q
      → Sound s p r b x m v a q w
      → Sleepers b h d f
      → Awake s p h d n f
      → let y = step E late cancel s p in Awake y.0 y.1 h d n f
  unfolding step
  step-Awake late cancel s (ready tries_read) r b x m v a q w h d n f o i z k = ground arith
  step-Awake late cancel s (ready reads) r b x m v a q w h d n f o i z k = ground arith
  step-Awake late cancel s (ready tries_upgradable_read) r b x m v a q w h d n f o i z k =
      ground arith
  step-Awake late cancel s (ready upgradable_reads) r b x m v a q w h d n f o i z k = ground arith
  step-Awake late cancel s (ready tries_write) r b x m v a q w h d n f o i z k = ground arith
  step-Awake late cancel s (ready writes) r b x m v a q w h d n f o i z k = ground arith
  step-Awake late cancel s (upgradable_locking l) r b x m v a q w h d n f o i z k =
      ground (arith, then_upgradable-IsApart (poll E late cancel s.mutex l).1)
  step-Awake late cancel s (write_locking l) r b x m v a q w h d n f o i z k =
      ground (arith, then_write-IsApart (poll E late cancel s.mutex l).1)
  step-Awake late cancel s (write_listens l) r b x m v a q w h d n f o i z k =
      ground (arith, C.listen_counts s.no_readers)
  step-Awake late cancel s (write_drops k none) r b x m v a q w h d n f o i z j = ground arith
  step-Awake late cancel s (write_drops k (some l)) r b x m v a q w h d n f o i z j = ground arith
  step-Awake late cancel s (drain_loads none) r b x m v a q w h d n f o i z k = ground arith
  step-Awake late cancel s (drain_loads (some l)) r b x m v a q w h d n f o i z k = ground arith
  step-Awake late cancel s drain_listens r b x m v a q w h d n f o i z k =
      ground (arith, C.listen_counts s.no_readers)
  step-Awake late cancel s (drain_waits none) r b x m v a q w h d n f o i z k = ground arith
  step-Awake late cancel s (drain_waits (some l)) r b x m v a q w h d n f o i z k =
      ground (arith, C.poll_counts s.no_readers l)
  step-Awake late cancel s (drain_pending none) r b x m v a q w h d n f o i z k = ground arith
  step-Awake late cancel s (drain_pending (some l)) r b x m v a q w h d n f o i z k = ground arith
  step-Awake late cancel s (drain_done none) r b x m v a q w h d n f o i z k =
      ground (arith, C.drop_none s.no_readers)
  step-Awake late cancel s (drain_done (some l)) r b x m v a q w h d n f o i z k =
      ground (arith, C.drop_counts s.no_readers l)
  step-Awake late cancel s (readers_notify u) r b x m v a q w h d n f o i z k =
      ground (arith, C.notify_counts 1 s.no_readers)
  step-Awake late cancel s (mutex_notifies released) r b x m v a q w h d n f o i z k = ground arith
  step-Awake late cancel s (mutex_notifies refuses) r b x m v a q w h d n f o i z k = ground arith
  step-Awake late cancel s (mutex_notifies reads_on) r b x m v a q w h d n f o i z k = ground arith
  step-Awake late cancel s (mutex_notifies downgraded) r b x m v a q w h d n f o i z k =
      ground arith
  step-Awake late cancel s (mutex_notifies (cancels l)) r b x m v a q w h d n f o i z k =
      ground arith
  step-Awake late cancel s (drops_listener none) r b x m v a q w h d n f o i z k =
      ground (arith, C.drop_none s.no_readers)
  step-Awake late cancel s (drops_listener (some l)) r b x m v a q w h d n f o i z k =
      ground (arith, C.drop_counts s.no_readers l)
  step-Awake late cancel s p r b x m v a q w h d n f o i z k = ground arith
