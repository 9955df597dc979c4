-- ===== src/RwLock/Bounds.antt =====
-- src/rwlock/raw.rs: the overflow checks of the readers, which abort the process.
use async_lock.Base.{
  ℕ, ◌+◌, ◌*◌, ◌^◌, ◌≤◌, ◌<◌, ◌≡◌, refl, Bool, if◌then◌else◌, ltb, isize_max, List, [], ◌∷◌, ◌++◌,
  arith,
}
use async_lock.Event.{EventOps}
use async_lock.Tasks.{
  run, run-keeps, total, total-split, total-map_zero, total_mono, length, length-split, length-map,
}
use async_lock.Mutex.Acquire.{Lock, poll, done, gone}
use async_lock.RwLock.Raw.Defs.{
  RawRwLock, tries_read, reads, tries_upgradable_read, upgradable_reads, tries_write, writes, Call,
  Guard, reader, upgradable, writer, Pc, ready, read_pending, read_waits, upgradable_locking,
  write_locking, holds, leaked, aborted,
}
use async_lock.RwLock.Raw.Counts.{reading, claiming}
use async_lock.RwLock.Raw
use async_lock.RwLock.Raw.{then_upgradable, then_write}
use async_lock.RwLock.{RwLock, Use, Choice, new, use_guard, step, init}
use async_lock.RwLock.Invariant.{AllSound, keeps-AllSound, init-AllSound}

module _ {Listener : Type 0} where
  -- The task has aborted.
  abbrev pub aborts : Pc Listener → ℕ
  aborts (aborted _) = 1
  aborts _ = 0

  -- It has, or has read a word that it will abort for.
  abbrev pub doomed : Pc Listener → ℕ
  doomed (aborted _) = 1
  doomed (read_pending state _) = if ltb isize_max state then 1 else 0
  doomed (read_waits state _) = if ltb isize_max state then 1 else 0
  doomed _ = 0

  aborts-le-doomed : (p : Pc Listener) → aborts p ≤ doomed p
  aborts-le-doomed (aborted b) = omega arith
  aborts-le-doomed p = omega arith

  then_upgradable-doomed : (l : Lock Listener) → doomed (then_upgradable l) ≡ 0
  unfolding then_upgradable
  then_upgradable-doomed (done l) = refl
  then_upgradable-doomed gone = refl
  then_upgradable-doomed l = refl

  then_write-doomed : (l : Lock Listener) → doomed (then_write l) ≡ 0
  unfolding then_write
  then_write-doomed (done l) = refl
  then_write-doomed gone = refl
  then_write-doomed l = refl

  -- A task counts for one reader at most, or for the writer's bit.
  weight_le : (p : Pc Listener) → 2 * reading p + claiming p ≤ 2
  weight_le (holds g) = ground arith
  weight_le (leaked g) = ground arith
  weight_le p = ground arith

  total-weight_le :
      (ts : List (Pc Listener)) → 2 * total reading ts + total claiming ts ≤ 2 * length ts
  unfolding total
  total-weight_le [] = omega arith
  total-weight_le (p ∷ ts) = omega (arith, weight_le p, total-weight_le ts)

module _ {Event Listener : Type 0} (E : EventOps Event Listener) where
  raw-doomed :
      (late cancel : Bool) (s : RawRwLock Event) (p : Pc Listener)
      → s.state ≤ isize_max
      → doomed p ≡ 0
      → doomed (Raw.step E late cancel s p).1 ≡ 0
  unfolding Raw.step
  raw-doomed late cancel s (ready tries_read) b d = ground arith
  raw-doomed late cancel s (ready reads) b d = ground arith
  raw-doomed late cancel s (ready tries_upgradable_read) b d = ground arith
  raw-doomed late cancel s (ready upgradable_reads) b d = ground arith
  raw-doomed late cancel s (ready tries_write) b d = ground arith
  raw-doomed late cancel s (ready writes) b d = ground arith
  raw-doomed late cancel s (upgradable_locking l) b d =
      then_upgradable-doomed (poll E late cancel s.mutex l).1
  raw-doomed late cancel s (write_locking l) b d =
      then_write-doomed (poll E late cancel s.mutex l).1
  raw-doomed late cancel s p b d = ground arith

module _ {Event Listener T : Type 0} (E : EventOps Event Listener) where
  guard-doomed :
      (g : Guard) (u : Use T) (s : RwLock Event T)
      → doomed (use_guard {Listener = Listener} g s u).1 ≡ 0
  unfolding use_guard
  guard-doomed reader u s = ground arith
  guard-doomed upgradable u s = ground arith
  guard-doomed writer u s = ground arith

  step-doomed :
      (c : Choice T) (s : RwLock Event T) (p : Pc Listener)
      → s.raw.state ≤ isize_max
      → doomed p ≡ 0
      → doomed (step E c s p).1 ≡ 0
  unfolding step
  step-doomed c s (holds g) b d = guard-doomed g c.use_guard s
  step-doomed c s p b d = raw-doomed E c.late c.cancel s.raw p b d

  -- A lock on which `n` calls are made.
  abbrev pub Bounded : ℕ → RwLock Event T → List (Pc Listener) → Type 0
  Bounded n s ts = AllSound s ts × (length ts ≡ n) × (total doomed ts ≡ 0)

  -- Its word passes the overflow checks.
  pub state_le :
      (n : ℕ) (s : RwLock Event T) (ts : List (Pc Listener))
      → n < 2 ^ 62
      → Bounded n s ts
      → (s.raw.state ≤ 2 * n) × (s.raw.state ≤ isize_max)
  state_le n s ts few (k, e, d) = omega (arith, few, e, k.0.exact, total-weight_le ts)

  pub keeps-Bounded :
      (n : ℕ)
      → n < 2 ^ 62
      → (c : Choice T) (s : RwLock Event T) (before : List (Pc Listener)) (p : Pc Listener)
        (after : List (Pc Listener))
      → Bounded n s (before ++ p ∷ after)
      → Bounded n (step E c s p).0 (before ++ (step E c s p).1 ∷ after)
  keeps-Bounded n few c s before p after (k, e, d) =
      let q : Pc Listener = (step E c s p).1 in
      let i = total-split doomed before p after in
      (
        keeps-AllSound E c s before p after k,
        omega (arith, e, length-split before p after, length-split before q after),
        omega (
          arith,
          d,
          i,
          total-split doomed before q after,
          step-doomed c s p
              (omega (arith, few, e, k.0.exact, total-weight_le (before ++ p ∷ after)))
              (omega (arith, d, i)),
        ),
      )

  pub init-Bounded :
      (v : T) (calls : List Call)
      → length calls < 2 ^ 62
      → Bounded (length calls) (init E v calls).shared (init E v calls).tasks
  unfolding init new
  init-Bounded v calls few = (
    init-AllSound E v calls (omega (arith, few)),
    length-map {A = Pc Listener} ready calls,
    total-map_zero doomed ready (λ _. refl) calls,
  )

  -- Where fewer than 2 ^ 62 calls are made, the word of the lock is at most twice their number, and no
  -- task ever aborts at an overflow check, whatever old word it compares; after every schedule.
  pub never_aborts :
      (v : T) (calls : List Call) (schedule : List (ℕ × Choice T))
      → length calls < 2 ^ 62
      → let y = run (step E) (init E v calls) schedule in
        (y.shared.raw.state ≤ 2 * length calls) × (total aborts y.tasks ≡ 0)
  never_aborts v calls schedule few =
      let y = run (step E) (init E v calls) schedule in
      let k =
        run-keeps (step E) (Bounded (length calls)) (keeps-Bounded (length calls) few)
          (init E v calls) schedule (init-Bounded v calls few) in
      (
        (state_le (length calls) y.shared y.tasks few k).0,
        omega (arith, k.2, total_mono aborts doomed aborts-le-doomed y.tasks),
      )
