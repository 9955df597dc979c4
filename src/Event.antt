-- ===== src/Event.antt =====
-- The crate event_listener, which is not part of this repository: its operations are an argument
-- of every definition that calls them.
use async_lock.Base.{ℕ, ◌+◌, ◌≤◌, ◌≡◌, ◌≢◌, ◌⊎◌, Bool, true, false, Option, none, some, usize_max}

-- `Event::new`, `listen`, `notify` and `notify_additional`; `Strategy::poll` on a stored listener,
-- which gives the event, the stored listener afterwards and whether it was ready; and the drop of
-- a stored listener.
pub record EventOps (Event Listener : Type 0) : Type 0 where
  pub new : Event
  pub listen : Event → Event × Listener
  pub notify : ℕ → Event → Event
  pub notify_additional : ℕ → Event → Event
  pub poll : Event → Option Listener → Event × Option Listener × Bool
  pub drop : Option Listener → Event → Event

-- An operation with a `try_` form is called directly, or by the poll of a future that stores a
-- listener.
pub data Caller (Listener : Type 0) : Type 0 where
  direct : Caller Listener
  in_future : Option Listener → Caller Listener

-- What the documentation of event_listener says of an event on which nobody has called `notify`: no
-- listener of it is ready, and polling leaves the listener where it is stored.
pub record IsQuietable {Event Listener : Type 0} (E : EventOps Event Listener)
    (Quiet : Event → Type 0) : Type 0 where
  pub new_quiet : Quiet E.new
  pub listen_quiet : (e : Event) → Quiet e → Quiet (E.listen e).0
  pub poll_quiet : (e : Event) (l : Option Listener) → Quiet e → Quiet (E.poll e l).0
  pub poll_unready : (e : Event) (l : Option Listener) → Quiet e → (E.poll e l).2 ≡ false
  pub poll_keeps : (e : Event) (l : Option Listener) → Quiet e → (E.poll e l).1 ≡ l
  pub drop_quiet : (e : Event) (l : Option Listener) → Quiet e → Quiet (E.drop l e)

-- What the documentation of event_listener says of the listeners of an event, counted: those that
-- wait and those that are notified and have not been polled since. `notify(n)` sees to it that `n`
-- listeners are notified, or all, and does nothing where that is so; `notify_additional(n)` notifies `n`
-- more, or all. A listener that is dropped after it was notified passes the notification on, where it
-- is the last one that was notified by `notify`, and in any case where it was by `notify_additional`, so
-- that some listener is still notified after the drop or none waits. A listener that is polled or
-- dropped is one of them.
pub record IsCounting {Event Listener : Type 0} (E : EventOps Event Listener)
    (waiting notified : Event → ℕ) : Type 0 where
  pub new_counts : (waiting E.new ≡ 0) × (notified E.new ≡ 0)
  pub listen_counts :
      (e : Event)
      → (waiting (E.listen e).0 ≡ waiting e + 1) × (notified (E.listen e).0 ≡ notified e)
  pub notify_counts :
      (n : ℕ) (e : Event)
      → (waiting (E.notify n e) + notified (E.notify n e) ≡ waiting e + notified e)
        × (notified e ≤ notified (E.notify n e))
        × ((n ≤ notified (E.notify n e)) ⊎ (waiting (E.notify n e) ≡ 0))
        × (n ≤ notified e → notified (E.notify n e) ≡ notified e)
  pub additional_counts :
      (n : ℕ) (e : Event)
      → (waiting (E.notify_additional n e) + notified (E.notify_additional n e)
          ≡ waiting e + notified e)
        × (notified e ≤ notified (E.notify_additional n e))
        × ((notified (E.notify_additional n e) ≡ notified e + n)
            ⊎ (waiting (E.notify_additional n e) ≡ 0))
  pub poll_counts :
      (e : Event) (l : Listener)
      → 1 ≤ waiting e + notified e
      → ((E.poll e (some l)).2 ≡ true)
          × ((E.poll e (some l)).1 ≡ none)
          × (waiting (E.poll e (some l)).0 ≡ waiting e)
          × (notified (E.poll e (some l)).0 + 1 ≡ notified e)
        ⊎ ((E.poll e (some l)).2 ≡ false)
          × ((E.poll e (some l)).1 ≡ some l)
          × (waiting (E.poll e (some l)).0 ≡ waiting e)
          × (notified (E.poll e (some l)).0 ≡ notified e)
  pub drop_none : (e : Event) → E.drop none e ≡ e
  pub drop_counts :
      (e : Event) (l : Listener)
      → 1 ≤ waiting e + notified e
      → (waiting (E.drop (some l) e) + notified (E.drop (some l) e) + 1 ≡ waiting e + notified e)
        × ((notified e ≡ 0)
            ⊎ ((1 ≤ notified (E.drop (some l) e)) ⊎ (waiting (E.drop (some l) e) ≡ 0)))

-- What the documentation of event_listener says of one listener of an event: it is registered from
-- `listen` on, no other call on the event removes it or takes its notification away, `usize::MAX`
-- notifies all that are registered, and a notified listener is ready when it is polled. A program has
-- fewer than `usize::MAX` listeners.
pub record IsRegistering {Event Listener : Type 0} (E : EventOps Event Listener)
    (Listening Notified : Event → Listener → Type 0) : Type 0 where
  pub listen_new : (e : Event) → Listening (E.listen e).0 (E.listen e).1
  pub listen_fresh : (e : Event) → ¬ Listening e (E.listen e).1
  pub listen_keeps :
      (e : Event) (l : Listener)
      → Listening e l
      → Listening (E.listen e).0 l × (Notified e l → Notified (E.listen e).0 l)
  pub notify_keeps :
      (n : ℕ) (e : Event) (l : Listener)
      → Listening e l
      → Listening (E.notify n e) l × (Notified e l → Notified (E.notify n e) l)
  pub additional_keeps :
      (n : ℕ) (e : Event) (l : Listener)
      → Listening e l
      → Listening (E.notify_additional n e) l
        × (Notified e l → Notified (E.notify_additional n e) l)
  pub notify_all : (e : Event) (l : Listener) → Listening e l → Notified (E.notify usize_max e) l
  pub additional_all :
      (e : Event) (l : Listener) → Listening e l → Notified (E.notify_additional usize_max e) l
  pub poll_keeps :
      (e : Event) (k l : Listener)
      → k ≢ l
      → Listening e l
      → Listening (E.poll e (some k)).0 l × (Notified e l → Notified (E.poll e (some k)).0 l)
  pub poll_unready :
      (e : Event) (l : Listener)
      → (E.poll e (some l)).2 ≡ false
      → ((E.poll e (some l)).1 ≡ some l) × (Listening e l → Listening (E.poll e (some l)).0 l)
  pub poll_ready :
      (e : Event) (l : Listener) → (E.poll e (some l)).2 ≡ true → (E.poll e (some l)).1 ≡ none
  pub poll_notified : (e : Event) (l : Listener) → Notified e l → (E.poll e (some l)).2 ≡ true
  pub drop_none : (e : Event) → E.drop none e ≡ e
  pub drop_keeps :
      (e : Event) (k l : Listener)
      → k ≢ l
      → Listening e l
      → Listening (E.drop (some k) e) l × (Notified e l → Notified (E.drop (some k) e) l)
