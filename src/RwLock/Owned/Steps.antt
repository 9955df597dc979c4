-- ===== src/RwLock/Owned/Steps.antt =====
-- src/rwlock.rs and src/rwlock/futures.rs: every step of an owned call keeps as many `Arc`s as fit its
-- place, and what it does next is legal.
use async_lock.Base.{subst, inl, inr, ℕ, ◌≡◌, refl, Bool, true, false, arith}
use async_lock.Event.{EventOps, direct, in_future}
use async_lock.Arc
use async_lock.Arc.{
  Heap, Owner, owns, dangles, Action, drops_handle, rests, leave, proceed, location, owned_step,
  share,
}
use async_lock.Arc.Count.{IsHeld, IsLegal, leave-IsLegal, proceed-IsLegal}
use async_lock.Mutex.Acquire.{poll}
use async_lock.RwLock.Raw.Defs.{
  Pc, ready, try_read_loads, try_read_swaps, read_pending, read_swaps, read_listens, read_waits,
  read_passes, read_loads, read_done, upgradable_locking, upgradable_loads, upgradable_swaps,
  upgradable_done, try_write_swaps, write_locking, write_ors, write_listens, write_drops,
  write_fast, drain_loads, drain_listens, drain_waits, drain_pending, drain_done, write_announces,
  readers_notify, mutex_unlocks, mutex_notifies, reader_announces, drops_listener, read_drops,
  holds, leaked, ended, aborted,
}
use async_lock.RwLock.Raw.Reading.{
  try_read, read_blocked, poll_read, check_upgradable, upgradable_succeed, try_read_swap, read_swap,
  upgradable_swap, read_listen, read_wait,
}
use async_lock.RwLock.Raw.Writing.{try_write_swap, set_writer, write_unlock, drain_wait}
use async_lock.RwLock.{RwLock, Choice, step}
use async_lock.RwLock.Owned.{over, borrows, fits, due, next}
use async_lock.RwLock.Owned.Places.{
  then_upgradable-fits, then_write-fits, drain-fits, finish-fits, poll_read-fits, try_read-fits,
  start-fits, use-fits, fits-two, due-fits, zero-borrows,
}

module _ {Event Listener T : Type 0} (E : EventOps Event Listener) where
  -- A step in a direct call or a future keeps it without an `Arc`.
  step-fits_zero :
      (c : Choice T) (s : RwLock Event T) (p : Pc Listener)
      → fits p 0 ≡ true
      → due p ≡ false
      → over p 0 ≡ false
      → fits (step E c s p).1 0 ≡ true
  unfolding step poll_read try_read read_blocked check_upgradable upgradable_succeed try_read_swap
      read_swap upgradable_swap read_listen read_wait try_write_swap set_writer drain_wait
      write_unlock
  step-fits_zero c s (ready call) f d o = ground (arith, start-fits Listener s.raw call)
  step-fits_zero c s try_read_loads f d o = ground (arith, try_read-fits Listener s.raw.state)
  step-fits_zero c s (try_read_swaps state) f d o =
      ground (arith, try_read-fits Listener s.raw.state)
  step-fits_zero c s (read_pending state l) f d o = ground (arith, poll_read-fits state l)
  step-fits_zero c s (read_swaps state l) f d o = ground (arith, poll_read-fits s.raw.state l)
  step-fits_zero c s read_listens f d o = ground arith
  step-fits_zero c s (read_waits state l) f d o = ground arith
  step-fits_zero c s (read_passes l) f d o = ground arith
  step-fits_zero c s (read_loads l) f d o = ground (arith, poll_read-fits s.raw.state l)
  step-fits_zero c s (upgradable_locking l) f d o =
      ground (arith, then_upgradable-fits (poll E c.late c.cancel s.raw.mutex l).1)
  step-fits_zero c s (upgradable_loads k) f d o = ground arith
  step-fits_zero c s (upgradable_swaps direct state) f d o = ground arith
  step-fits_zero c s (upgradable_swaps (in_future l) state) f d o = ground arith
  step-fits_zero c s try_write_swaps f d o = ground arith
  step-fits_zero c s (write_locking l) f d o =
      ground (arith, then_write-fits (poll E c.late c.cancel s.raw.mutex l).1)
  step-fits_zero c s (write_ors l) f d o = ground arith
  step-fits_zero c s (write_listens l) f d o = ground arith
  step-fits_zero c s (write_drops l m) f d o = ground arith
  step-fits_zero c s (read_drops l) f d o = ground arith
  step-fits_zero c s (drain_loads l) f d o = drain-fits s.raw.state l 0 (omega arith)
  step-fits_zero c s drain_listens f d o = ground arith
  step-fits_zero c s (drain_waits l) f d o = ground arith
  step-fits_zero c s (drain_pending l) f d o = ground arith
  step-fits_zero c s (drain_done l) f d o = ground arith
  step-fits_zero c s (write_announces a) f d o = ground arith
  step-fits_zero c s (mutex_unlocks a) f d o = ground arith
  step-fits_zero c s (mutex_notifies a) f d o = finish-fits a 0 (omega arith)
  step-fits_zero c s reader_announces f d o = ground arith
  step-fits_zero c s (drops_listener l) f d o = ground arith
  step-fits_zero c s (readers_notify b) f d o = ground arith
  step-fits_zero c s (read_done l) f d o = ground arith
  step-fits_zero c s (upgradable_done l) f d o = ground arith
  step-fits_zero c s (write_fast l) f d o = ground arith
  step-fits_zero c s (leaked g) f d o = ground arith
  step-fits_zero c s (holds g) f d o = ground arith
  step-fits_zero c s (ended v) f d o = ground arith
  step-fits_zero c s (aborted b) f d o = ground arith

  -- A step of a guard, and of what becomes of it, keeps its `Arc`.
  step-fits_one :
      (c : Choice T) (s : RwLock Event T) (p : Pc Listener)
      → fits p 1 ≡ true
      → over p 1 ≡ false
      → fits (step E c s p).1 1 ≡ true
  unfolding step drain_wait write_unlock
  step-fits_one c s (drain_loads l) f o = drain-fits s.raw.state l 1 (omega arith)
  step-fits_one c s drain_listens f o = ground arith
  step-fits_one c s (drain_waits l) f o = ground arith
  step-fits_one c s (drain_pending l) f o = ground arith
  step-fits_one c s (drain_done l) f o = ground arith
  step-fits_one c s (write_announces a) f o = ground arith
  step-fits_one c s (mutex_unlocks a) f o = ground arith
  step-fits_one c s (mutex_notifies a) f o = finish-fits a 1 (omega arith)
  step-fits_one c s reader_announces f o = ground arith
  step-fits_one c s (drops_listener l) f o = ground arith
  step-fits_one c s (readers_notify b) f o = ground arith
  step-fits_one c s (read_done l) f o = ground arith
  step-fits_one c s (upgradable_done l) f o = ground arith
  step-fits_one c s (write_fast l) f o = ground arith
  step-fits_one c s (holds g) f o = use-fits Listener g s c.use_guard
  step-fits_one c s (ready call) f o = absurd (ground arith)
  step-fits_one c s try_read_loads f o = absurd (ground arith)
  step-fits_one c s (try_read_swaps state) f o = absurd (ground arith)
  step-fits_one c s (read_pending state l) f o = absurd (ground arith)
  step-fits_one c s (read_swaps state l) f o = absurd (ground arith)
  step-fits_one c s read_listens f o = absurd (ground arith)
  step-fits_one c s (read_waits state l) f o = absurd (ground arith)
  step-fits_one c s (read_passes l) f o = absurd (ground arith)
  step-fits_one c s (read_loads l) f o = absurd (ground arith)
  step-fits_one c s (upgradable_locking l) f o = absurd (ground arith)
  step-fits_one c s (upgradable_loads k) f o = absurd (ground arith)
  step-fits_one c s (upgradable_swaps k state) f o = absurd (ground arith)
  step-fits_one c s try_write_swaps f o = absurd (ground arith)
  step-fits_one c s (write_locking l) f o = absurd (ground arith)
  step-fits_one c s (write_ors l) f o = absurd (ground arith)
  step-fits_one c s (write_listens l) f o = absurd (ground arith)
  step-fits_one c s (write_drops l m) f o = absurd (ground arith)
  step-fits_one c s (read_drops l) f o = absurd (ground arith)
  step-fits_one c s (leaked g) f o = absurd (ground arith)
  step-fits_one c s (ended v) f o = absurd (ground arith)
  step-fits_one c s (aborted b) f o = absurd (ground arith)

  goes_on-IsLegal :
      (c : Arc.Choice (Choice T)) (p : Pc Listener) (h : Bool) (n : ℕ)
      → fits p n ≡ true
      → over p n ≡ false
      → IsLegal over fits (step E) c.access p h n (proceed (due p) (borrows p n) c h n)
  goes_on-IsLegal c p h n f o = elim (fits-two p n f o) [
    | inl e ↦
        let f0 : fits p 0 ≡ true = subst (λ m. fits p m ≡ true) e f in
        let o0 : over p 0 ≡ false = subst (λ m. over p m ≡ false) e o in
        proceed-IsLegal over fits (step E) (due p) (borrows p n) c p h n o
          (λ d z. rw z (due-fits p d)) (rw e (inr (zero-borrows p f0 o0)))
          (λ d x. rw e (step-fits_zero c.access x p f0 (ground (arith, d, e)) o0))
    | inr e ↦
        proceed-IsLegal over fits (step E) (due p) (borrows p n) c p h n o
          (λ d z. absurd (omega (arith, e, z))) (inl (omega (arith, e)))
          (λ d x. rw e (
            step-fits_one c.access x p (subst (λ m. fits p m ≡ true) e f)
              (subst (λ m. over p m ≡ false) e o)))
  ]

  pub next-IsLegal :
      (c : Arc.Choice (Choice T)) (p : Pc Listener) (h : Bool) (n : ℕ)
      → IsHeld over fits (owns p h n)
      → IsLegal over fits (step {T = T} E) c.access p h n (next c p h n)
  unfolding next
  next-IsLegal c (ended o) h n k =
      leave-IsLegal over fits (step E) c.access (ended o) h n refl (λ e. (refl, ground arith))
  next-IsLegal c (leaked g) h n k = ground arith
  next-IsLegal c (aborted b) h n k = tt
  next-IsLegal c p h n k = goes_on-IsLegal c p h n k.0 refl
