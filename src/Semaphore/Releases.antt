-- ===== src/Semaphore/Releases.antt =====
-- src/semaphore.rs: guards that are dropped one after the other, before a waiter runs again.
use async_lock.Base.{ℕ, zero, suc, ◌+◌, ◌^◌, ◌≤◌, ◌<◌, ◌≡◌, true, false, some, arith}
use async_lock.Event.{EventOps, IsCounting}
use async_lock.Semaphore.{Semaphore, Pc, waits, holds, notifies, Choice, step}

abbrev plain : Choice
plain = record { spurious = false; cancel = false; forget = false }

module _ {Event Listener : Type 0} (E : EventOps Event Listener) where
  -- The two steps of a guard's drop.
  unfoldable pub release : Semaphore Event → Semaphore Event
  unfolding step
  release s = (step E plain (step E plain s holds).0 notifies).0

  -- `k` guards are dropped.
  unfoldable pub release_all : ℕ → Semaphore Event → Semaphore Event
  unfolding release
  release_all zero s = s
  release_all (suc k) s = release_all k (release s)

  -- So many steps of one task, undisturbed.
  unfoldable pub alone : ℕ → Semaphore Event × Pc Listener → Semaphore Event × Pc Listener
  alone zero y = y
  alone (suc n) y = alone n (step E plain y.0 y.1)

  module _ (unheard heard_by : Event → ℕ) (C : IsCounting E unheard heard_by) where
    release-counts :
        (s : Semaphore Event)
        → s.count + 1 < 2 ^ 64
        → ((release s).count ≡ s.count + 1)
          × (unheard (release s).event + heard_by (release s).event
              ≡ unheard s.event + heard_by s.event)
          × (1 ≤ heard_by s.event → heard_by (release s).event ≡ heard_by s.event)
    unfolding release
    release-counts s fits = ground (arith, C.notify_counts 1 s.event)

    release_all-counts :
        (k : ℕ) (s : Semaphore Event)
        → s.count + k < 2 ^ 64
        → 1 ≤ heard_by s.event
        → ((release_all k s).count ≡ s.count + k)
          × (heard_by (release_all k s).event ≡ heard_by s.event)
          × (unheard (release_all k s).event ≡ unheard s.event)
    unfolding release_all
    release_all-counts zero s fits woken = omega arith
    release_all-counts (suc k) s fits woken =
        let r = release-counts s (omega (arith, fits)) in
        let i =
          release_all-counts k (release s) (omega (arith, r, fits)) (omega (arith, r, woken)) in
        omega (arith, r, i, woken)

    -- A waiter that is at the poll of its listener, undisturbed.
    waiter-takes :
        (s : Semaphore Event) (l : Listener)
        → 1 ≤ s.count
        → 1 ≤ heard_by s.event
        → (E.poll s.event (some l)).2 ≡ true
        → let y = alone 4 (s, waits (some l)) in
          (y.0.count + 1 ≡ s.count)
          × (heard_by y.0.event + 1 ≡ heard_by s.event)
          × (unheard y.0.event ≡ unheard s.event)
          × (y.1 ≡ holds)
    unfolding alone step
    waiter-takes s l some_permit woken woke =
        ground (arith, C.poll_counts s.event l, C.drop_none (E.poll s.event (some l)).0)

    -- Releases that come together wake one waiter. Where a listener is notified and not polled yet, `k`
    -- more drops of guards give back `k` permits and notify nobody. A waiter that is then at the poll
    -- of its listener, and finds it ready, uses that notification up and takes one permit: the others
    -- stay free, one listener fewer is notified, and as many wait as before. The permits fit a usize,
    -- there was one to begin with, the waiter is undisturbed and its compare-exchange does not fail
    -- spuriously; what event_listener says of the listeners of an event is assumed.
    pub releases_strand_waiters :
        (k : ℕ) (s : Semaphore Event) (l : Listener)
        → s.count + k < 2 ^ 64
        → 1 ≤ s.count
        → 1 ≤ heard_by s.event
        → (E.poll (release_all k s).event (some l)).2 ≡ true
        → let y = alone 4 (release_all k s, waits (some l)) in
          (y.1 ≡ holds)
          × (y.0.count + 1 ≡ s.count + k)
          × (heard_by y.0.event + 1 ≡ heard_by s.event)
          × (unheard y.0.event ≡ unheard s.event)
    releases_strand_waiters k s l fits some_permit woken woke =
        let r = release_all-counts k s fits woken in
        let t =
          waiter-takes (release_all k s) l (omega (arith, r, some_permit)) (omega (arith, r, woken))
            woke in
        (t.3, omega (arith, r, t), omega (arith, r, t), omega (arith, r, t))
