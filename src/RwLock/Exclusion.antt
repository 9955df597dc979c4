-- ===== src/RwLock/Exclusion.antt =====
-- src/rwlock.rs and src/rwlock/raw.rs: which guards may live together, and when the attempts succeed,
-- under every schedule of at most 2 ^ 62 calls.
use async_lock.Base.{
  ℕ, ◌+◌, ◌*◌, ◌^◌, ◌≤◌, ◌<◌, ◌≡◌, ◌≢◌, ◌↔◌, refl, Bool, true, false, Option, some, List, arith, ap,
  usize_mod,
}
use async_lock.Event.{EventOps}
use async_lock.Tasks.{
  run, total, total-split, total_mono, length, get_elem?, set-split, add-le-total, le-total,
}
use async_lock.RwLock.Raw.Defs.{
  Call, Guard, reader, upgradable, writer, Pc, try_write_swaps, write_ors, write_listens, holds,
  ended, refused,
}
use async_lock.RwLock.Raw.Reading.{try_read}
use async_lock.RwLock.Raw.Writing.{try_write_swap, set_writer, try_upgrade}
use async_lock.RwLock.Raw.Counts.{reading, claiming, writing, locking, starved}
use async_lock.RwLock.{RwLock, Choice, step, init}
use async_lock.RwLock.Invariant.{AllSound, run-AllSound, claiming-le-locking}

-- Which guards may live at the same time.
abbrev pub compatible : Guard → Guard → Bool
compatible reader reader = true
compatible reader upgradable = true
compatible upgradable reader = true
compatible _ _ = false

module _ {Event Listener T : Type 0} where
  -- The totals of a sound state.
  claiming-le-one :
      (s : RwLock Event T) (ts : List (Pc Listener)) → AllSound s ts → total claiming ts ≤ 1
  claiming-le-one s ts k =
      omega (arith, k.0.mutex_word.exclusive, total_mono claiming locking claiming-le-locking ts)

  -- A task that has the mutex and has not set the writer's bit: nobody has.
  unclaimed :
      (s : RwLock Event T) (ts : List (Pc Listener)) (i : ℕ) (p : Pc Listener)
      → AllSound s ts
      → get_elem? ts i ≡ some p
      → locking p ≡ 1
      → claiming p ≡ 0
      → total claiming ts ≡ 0
  unclaimed s ts i p k e l c =
      let (before, after, f, _) = set-split ts i p e in
      omega (
        arith,
        k.0.mutex_word.exclusive,
        ap (total locking) f,
        ap (total claiming) f,
        total-split locking before p after,
        total-split claiming before p after,
        total_mono claiming locking claiming-le-locking before,
        total_mono claiming locking claiming-le-locking after,
      )

  -- Two tasks with guards have compatible guards.
  pub guards-compatible :
      (g h : Guard) (s : RwLock Event T) (ts : List (Pc Listener)) (i j : ℕ)
      → AllSound s ts
      → i ≢ j
      → get_elem? ts i ≡ some (holds g)
      → get_elem? ts j ≡ some (holds h)
      → compatible g h ≡ true
  guards-compatible g h s ts i j k d p q = ground (
    arith,
    k.0.exclusive,
    k.0.mutex_word.exclusive,
    le-total reading ts i (holds g) p,
    le-total reading ts j (holds h) q,
    le-total writing ts i (holds g) p,
    le-total writing ts j (holds h) q,
    add-le-total locking ts i j (holds g) (holds h) d p q,
  )

module _ {Event Listener T : Type 0} (E : EventOps Event Listener) where
  -- The word of the lock counts the readers and the one task that has or claims write access, and
  -- never overflows a usize; the word of the mutex counts the one task that has it and the starved; at
  -- most 2 ^ 62 calls are made.
  pub words_exact :
      (v : T) (calls : List Call) (schedule : List (ℕ × Choice T))
      → length calls ≤ 2 ^ 62
      → let y = run (step E) (init E v calls) schedule in
        (y.shared.raw.state ≡ 2 * total reading y.tasks + total claiming y.tasks)
        × (total claiming y.tasks ≤ 1)
        × (y.shared.raw.state < usize_mod)
        × (y.shared.raw.mutex.state ≡ total locking y.tasks + 2 * total starved y.tasks)
        × (total locking y.tasks ≤ 1)
  words_exact v calls schedule n =
      let y = run (step E) (init E v calls) schedule in
      let k = run-AllSound E v calls schedule n in
      (
        k.0.exact,
        claiming-le-one y.shared y.tasks k,
        omega (arith, k.0.bounded),
        k.0.mutex_word.exact,
        k.0.mutex_word.exclusive,
      )

  -- Two guards that live at the same time are two readers, or one reader and the one upgradable
  -- reader: a writer excludes every other guard, and an upgradable reader another upgradable reader;
  -- at most 2 ^ 62 calls are made.
  pub guards_exclude :
      (v : T) (calls : List Call) (schedule : List (ℕ × Choice T)) (i j : ℕ) (g h : Guard)
      → length calls ≤ 2 ^ 62
      → i ≢ j
      → get_elem? (run (step E) (init E v calls) schedule).tasks i ≡ some (holds g)
      → get_elem? (run (step E) (init E v calls) schedule).tasks j ≡ some (holds h)
      → compatible g h ≡ true
  guards_exclude v calls schedule i j g h n d p q =
      let y = run (step E) (init E v calls) schedule in
      guards-compatible g h y.shared y.tasks i j (run-AllSound E v calls schedule n) d p q

  -- `try_read` gives `None`, from a load of the word, exactly when some task has write access or
  -- claims it; at most 2 ^ 62 calls are made.
  try_read-refused_iff :
      (v : T) (calls : List Call) (schedule : List (ℕ × Choice T))
      → length calls ≤ 2 ^ 62
      → let y = run (step E) (init E v calls) schedule in
        try_read {Listener = Listener} y.shared.raw.state ≡ ended refused
        ↔ total claiming y.tasks ≡ 1
  unfolding try_read
  try_read-refused_iff v calls schedule n =
      let y = run (step E) (init E v calls) schedule in
      let k = run-AllSound E v calls schedule n in
      let one = claiming-le-one y.shared y.tasks k in
      (λ e. ground (arith, k.0.exact, one), λ e. ground (arith, k.0.exact, one))

  -- `try_write`, once it has the mutex, gives a guard exactly when there is no reader; at most 2 ^ 62
  -- calls are made.
  pub try_write_iff :
      (v : T) (calls : List Call) (schedule : List (ℕ × Choice T)) (i : ℕ)
      → length calls ≤ 2 ^ 62
      → get_elem? (run (step E) (init E v calls) schedule).tasks i ≡ some try_write_swaps
      → let y = run (step E) (init E v calls) schedule in
        (try_write_swap {Listener = Listener} y.shared.raw).1 ≡ holds writer
        ↔ total reading y.tasks ≡ 0
  unfolding try_write_swap
  try_write_iff v calls schedule i n p =
      let y = run (step E) (init E v calls) schedule in
      let k = run-AllSound E v calls schedule n in
      let free = unclaimed y.shared y.tasks i try_write_swaps k p refl refl in
      (λ e. ground (arith, k.0.exact, free), λ e. ground (arith, k.0.exact, free))

  -- `try_upgrade` of an upgradable guard gives a write guard exactly when that guard is the only
  -- reader; at most 2 ^ 62 calls are made.
  try_upgrade_iff :
      (v : T) (calls : List Call) (schedule : List (ℕ × Choice T)) (i : ℕ)
      → length calls ≤ 2 ^ 62
      → get_elem? (run (step E) (init E v calls) schedule).tasks i ≡ some (holds upgradable)
      → let y = run (step E) (init E v calls) schedule in
        (try_upgrade {Listener = Listener} y.shared.raw).1 ≡ holds writer
        ↔ total reading y.tasks ≡ 1
  unfolding try_upgrade
  try_upgrade_iff v calls schedule i n p =
      let y = run (step E) (init E v calls) schedule in
      let k = run-AllSound E v calls schedule n in
      let free = unclaimed y.shared y.tasks i (holds upgradable) k p refl refl in
      (λ e. ground (arith, k.0.exact, free), λ e. ground (arith, k.0.exact, free))

  -- The early return of `RawWrite`'s poll is never taken: `fetch_or` gives the word as it was before,
  -- whose writer's bit is clear, and the code compares that with `WRITER_BIT`; at most 2 ^ 62
  -- calls are made.
  pub write_fast_path_dead :
      (v : T) (calls : List Call) (schedule : List (ℕ × Choice T)) (i : ℕ) (l : Option Listener)
      → length calls ≤ 2 ^ 62
      → get_elem? (run (step E) (init E v calls) schedule).tasks i ≡ some (write_ors l)
      → (set_writer (run (step E) (init E v calls) schedule).shared.raw l).1 ≡ write_listens l
  unfolding set_writer
  write_fast_path_dead v calls schedule i l n p =
      let y = run (step E) (init E v calls) schedule in
      let k = run-AllSound E v calls schedule n in
      let free = unclaimed y.shared y.tasks i (write_ors l) k p refl refl in
      ground (arith, k.0.exact, free)
