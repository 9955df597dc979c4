-- ===== src/Mutex/Awake.antt =====
-- src/mutex.rs: the notifications of `lock_ops`, and which operations wait for one.
use async_lock.Base.{ℕ, ◌+◌, ◌^◌, ◌≤◌, ◌<◌, ◌≡◌, ◌⊎◌, Bool, true, false, Option, none, some, arith}
use async_lock.Event.{EventOps, IsCounting}
use async_lock.Mutex.Acquire.{
  Mutex, Lock, unpolled, listens, tries_first, waits, tries_again, passes_on, starves, fair_listens,
  fair_tries, fair_passes, fair_waits, fair_locks, pending, takes, done, leaves, drops_listener,
  poll,
}
use async_lock.Mutex.Word.{locked, starving, aborting, IsCounted}

abbrev pub one_if_some : {A : Type 0} → Option A → ℕ
one_if_some none = 0
one_if_some (some _) = 1

abbrev pub one_if_none : {A : Type 0} → Option A → ℕ
one_if_none none = 1
one_if_none (some _) = 0

module _ {Listener : Type 0} where
  -- The operation has a listener.
  abbrev pub listening : Lock Listener → ℕ
  listening (tries_first l) = one_if_some l
  listening (waits l) = one_if_some l
  listening (tries_again l) = one_if_some l
  listening (passes_on l) = one_if_some l
  listening (starves l) = one_if_some l
  listening (fair_tries l) = one_if_some l
  listening (fair_passes l) = one_if_some l
  listening (fair_waits l) = one_if_some l
  listening (fair_locks l) = one_if_some l
  listening (pending _ l) = one_if_some l
  listening (takes l) = one_if_some l
  listening (done l) = one_if_some l
  listening (leaves l) = one_if_some l
  listening (drops_listener l) = one_if_some l
  listening _ = 0

  -- It waits for a notification, or will do so whatever the lock word is.
  abbrev pub waiting : Lock Listener → ℕ
  waiting (waits _) = 1
  waiting (starves l) = one_if_some l
  waiting (fair_waits _) = 1
  waiting (pending _ _) = 1
  waiting _ = 0

  -- It is about to take a free mutex or to notify.
  abbrev pub active : Lock Listener → ℕ
  active (tries_again _) = 1
  active (passes_on _) = 1
  active fair_listens = 1
  active (fair_tries _) = 1
  active (fair_passes _) = 1
  active (fair_locks _) = 1
  active _ = 0

  -- It waits and has no listener.
  abbrev pub deaf : Lock Listener → ℕ
  deaf (tries_first l) = one_if_none l
  deaf (waits l) = one_if_none l
  deaf (fair_tries l) = one_if_none l
  deaf (fair_passes l) = one_if_none l
  deaf (fair_waits l) = one_if_none l
  deaf (pending _ l) = one_if_none l
  deaf (leaves l) = one_if_none l
  deaf _ = 0

-- `h` tasks have the mutex, `v` are starved, `f` have aborted; `r` have a listener, `w` wait, `a` are
-- active and `d` are deaf. A free mutex that somebody waits for has a notified listener or an active
-- task.
pub record IsAwake (state waiting notified h v f r w a d : ℕ) : Type 0 where
  pub counted : IsCounted state h v f
  pub heard : waiting + notified ≡ r
  pub hears : d ≡ 0
  pub awake : (1 ≤ h) ⊎ ((w + v ≡ 0) ⊎ (1 ≤ notified + a))

-- What the other tasks count for.
pub record Others (h v f r w a d : ℕ) : Type 0 where
  pub few : v < 2 ^ 62
  pub waits_le : w ≤ r + d
  pub starved_le : v ≤ a + r + h + f + d

module _ {Event Listener T : Type 0} (E : EventOps Event Listener) (unheard heard_by : Event → ℕ)
    (C : IsCounting E unheard heard_by) where
  -- The mutex with a task at `p`, and the other tasks.
  abbrev pub Awake : Mutex Event T → Lock Listener → (h v f r w a d : ℕ) → Type 0
  Awake s p h v f r w a d =
      IsAwake s.state (unheard s.lock_ops) (heard_by s.lock_ops) (locked p + h) (starving p + v)
        (aborting p + f) (listening p + r) (waiting p + w) (active p + a) (deaf p + d)

  pub poll-Awake :
      (late cancel : Bool) (s : Mutex Event T) (p : Lock Listener) (h v f r w a d : ℕ)
      → Others h v f r w a d
      → Awake s p h v f r w a d
      → let y = poll E late cancel s p in Awake y.0 y.1 h v f r w a d
  unfolding poll
  poll-Awake late cancel s unpolled h v f r w a d o i = ground arith
  poll-Awake late cancel s listens h v f r w a d o i = ground (arith, C.listen_counts s.lock_ops)
  poll-Awake late cancel s (tries_first none) h v f r w a d o i = ground arith
  poll-Awake late cancel s (tries_first (some l)) h v f r w a d o i = ground arith
  poll-Awake late cancel s (waits none) h v f r w a d o i = ground arith
  poll-Awake late cancel s (waits (some l)) h v f r w a d o i =
      ground (arith, C.poll_counts s.lock_ops l)
  poll-Awake late cancel s (tries_again none) h v f r w a d o i = ground arith
  poll-Awake late cancel s (tries_again (some l)) h v f r w a d o i = ground arith
  poll-Awake late cancel s (passes_on none) h v f r w a d o i =
      ground (arith, C.notify_counts 1 s.lock_ops)
  poll-Awake late cancel s (passes_on (some l)) h v f r w a d o i =
      ground (arith, C.notify_counts 1 s.lock_ops)
  poll-Awake late cancel s (starves none) h v f r w a d o i = ground arith
  poll-Awake late cancel s (starves (some l)) h v f r w a d o i = ground arith
  poll-Awake late cancel s fair_listens h v f r w a d o i =
      ground (arith, C.listen_counts s.lock_ops)
  poll-Awake late cancel s (fair_tries none) h v f r w a d o i = ground arith
  poll-Awake late cancel s (fair_tries (some l)) h v f r w a d o i = ground arith
  poll-Awake late cancel s (fair_passes none) h v f r w a d o i = ground arith
  poll-Awake late cancel s (fair_passes (some l)) h v f r w a d o i =
      ground (arith, C.notify_counts 1 s.lock_ops)
  poll-Awake late cancel s (fair_waits none) h v f r w a d o i = ground arith
  poll-Awake late cancel s (fair_waits (some l)) h v f r w a d o i =
      ground (arith, C.poll_counts s.lock_ops l)
  poll-Awake late cancel s (fair_locks none) h v f r w a d o i = ground arith
  poll-Awake late cancel s (fair_locks (some l)) h v f r w a d o i = ground arith
  poll-Awake late cancel s (pending true none) h v f r w a d o i = ground arith
  poll-Awake late cancel s (pending true (some l)) h v f r w a d o i = ground arith
  poll-Awake late cancel s (pending false none) h v f r w a d o i = ground arith
  poll-Awake late cancel s (pending false (some l)) h v f r w a d o i = ground arith
  poll-Awake late cancel s (takes none) h v f r w a d o i = ground arith
  poll-Awake late cancel s (takes (some l)) h v f r w a d o i = ground arith
  poll-Awake late cancel s (done none) h v f r w a d o i = ground (arith, C.drop_none s.lock_ops)
  poll-Awake late cancel s (done (some l)) h v f r w a d o i =
      ground (arith, C.drop_counts s.lock_ops l)
  poll-Awake late cancel s (leaves none) h v f r w a d o i = ground arith
  poll-Awake late cancel s (leaves (some l)) h v f r w a d o i = ground arith
  poll-Awake late cancel s (drops_listener none) h v f r w a d o i =
      ground (arith, C.drop_none s.lock_ops)
  poll-Awake late cancel s (drops_listener (some l)) h v f r w a d o i =
      ground (arith, C.drop_counts s.lock_ops l)
  poll-Awake late cancel s p h v f r w a d o i = ground arith
