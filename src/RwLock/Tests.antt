-- ===== src/RwLock/Tests.antt =====
-- src/rwlock.rs and src/rwlock/raw.rs: runs of the model, and the theorems at concrete inputs.
use async_lock.Base.{
  ℕ, ◌+◌, ◌*◌, ◌≡◌, ◌≤◌, ◌<◌, ◌↔◌, refl, Bool, true, false, List, [], ◌∷◌, Option, none, some,
  arith, usize_mod,
}
use async_lock.Tasks.{System, run, turn, total, get_elem?}
use async_lock.Fixtures.{latch, Unset, latch-IsQuietable}
use async_lock.Mutex.Acquire.{poll}
use async_lock.RwLock.Raw.{then_write}
use async_lock.RwLock.Raw.Defs.{
  Call, tries_read, tries_upgradable_read, tries_write, reads, writes, reader, upgradable, writer,
  Pc, read_pending, write_listens, holds, ended, dropped,
}
use async_lock.RwLock.Raw.Writing.{try_write_swap, set_writer}
use async_lock.RwLock.Raw.Counts.{reading, claiming, locking, starved}
use async_lock.RwLock.{RwLock, Choice, Use, assigns, drops, init, step}
use async_lock.RwLock.Exclusion.{
  compatible, words_exact, guards_exclude, try_write_iff, write_fast_path_dead,
}
use async_lock.RwLock.Protection.{rwlock_guard_protects}
use async_lock.RwLock.Release.{rwlock_free_when_over}
use async_lock.RwLock.Spec.{Act, perform}
use async_lock.RwLock.Refine.{access, rwlock_refines}
use async_lock.RwLock.Wakeup.{asleep}
use async_lock.RwLock.Stranded.{give_back, downgrade_strands_reader}

abbrev uses : Use ℕ → Choice ℕ
uses u = record { late = false; cancel = false; use_guard = u }

abbrev plain : Choice ℕ
plain = uses drops

-- A reader and an upgradable reader.
abbrev readers : List Call
readers = tries_read ∷ tries_upgradable_read ∷ []

abbrev both_read : List (ℕ × Choice ℕ)
both_read = (0, plain) ∷ (0, plain) ∷ (0, plain) ∷ (1, plain) ∷ (1, plain) ∷ (1, plain) ∷ []

-- A writer, and a reader that waits for it.
abbrev writer_reader : List Call
writer_reader = tries_write ∷ reads ∷ []

abbrev waiting : List (ℕ × Choice ℕ)
waiting =
    (0, plain) ∷ (0, plain) ∷ (1, plain) ∷ (1, plain) ∷ (1, plain) ∷ (1, plain) ∷ (1, plain) ∷ []

abbrev waiting_state : System (RwLock Bool ℕ) (Pc (Unit {0}))
waiting_state = run (step latch) (init latch 3 writer_reader) waiting

both_read_result :
    let y = run (step latch) (init latch 3 readers) both_read in
    (y.shared.raw.state ≡ 4)
    × (get_elem? y.tasks 0 ≡ some (holds reader))
    × (get_elem? y.tasks 1 ≡ some (holds upgradable))
unfolding run step init
both_read_result = (refl, refl, refl)

-- After the downgrade and the drop the lock is free, and the reader still waits.
stranded_result :
    let z = run (step latch) waiting_state (give_back 0) in
    (z.shared.raw.state ≡ 0)
    × (z.shared.raw.mutex.state ≡ 0)
    × (get_elem? z.tasks 1 ≡ some (read_pending 1 (some tt)))
unfolding run step init
stranded_result = (refl, refl, refl)

words_exact_example :
    let y = run (step latch) (init latch 3 readers) both_read in
    (y.shared.raw.state ≡ 2 * total reading y.tasks + total claiming y.tasks)
    × (total claiming y.tasks ≤ 1)
    × (y.shared.raw.state < usize_mod)
    × (y.shared.raw.mutex.state ≡ total locking y.tasks + 2 * total starved y.tasks)
    × (total locking y.tasks ≤ 1)
words_exact_example = words_exact latch 3 readers both_read (omega arith)

guards_exclude_example : compatible reader upgradable ≡ true
unfolding run step init
guards_exclude_example =
    guards_exclude latch 3 readers both_read 0 1 reader upgradable (omega arith) (omega arith) refl
      refl

try_write_iff_example :
    let y = run (step latch) (init latch 3 writer_reader) ((0, plain) ∷ []) in
    (try_write_swap {Listener = Unit {0}} y.shared.raw).1 ≡ holds writer ↔ total reading y.tasks ≡ 0
unfolding run step init
try_write_iff_example = try_write_iff latch 3 writer_reader ((0, plain) ∷ []) 0 (omega arith) refl

write_fast_path_dead_example :
    let l : Option (Unit {0}) = none in
    (set_writer
      (run (step latch) (init latch 3 (writes ∷ [])) ((0, plain) ∷ (0, plain) ∷ [])).shared.raw
      l).1
    ≡ write_listens l
unfolding run step init then_write poll
write_fast_path_dead_example =
    write_fast_path_dead latch 3 (writes ∷ []) ((0, plain) ∷ (0, plain) ∷ []) 0 none (omega arith)
      refl

rwlock_guard_protects_example :
    let y = run (step latch) (init latch 3 readers) both_read in
    let z = run (step latch) y ((1, uses (assigns 9)) ∷ (1, plain) ∷ []) in
    (z.shared.value ≡ y.shared.value) × (get_elem? z.tasks 0 ≡ some (holds reader))
unfolding run step init
rwlock_guard_protects_example =
    rwlock_guard_protects latch 3 readers both_read ((1, uses (assigns 9)) ∷ (1, plain) ∷ []) 0
      reader (omega arith) refl (omega arith)

downgrade_strands_reader_example :
    let z = run (step latch) waiting_state (give_back 0) in
    (z.shared.raw.state ≡ 0)
    × (z.shared.raw.mutex.state ≡ 0)
    × (get_elem? z.tasks 0 ≡ some (ended dropped))
    × ((q : Pc (Unit {0})) × (get_elem? z.tasks 1 ≡ some q)
        × (asleep q ≡ true)
        × Unset z.shared.raw.no_writer)
unfolding run step init total
downgrade_strands_reader_example =
    downgrade_strands_reader latch 0 Unset latch-IsQuietable 1 waiting_state
      (read_pending 1 (some tt)) refl refl refl refl refl refl refl

-- The upgradable reader, and then the reader, drop their guards.
abbrev both_drop : List (ℕ × Choice ℕ)
both_drop =
    (0, plain)
    ∷ (0, plain)
    ∷ (0, plain)
    ∷ (1, plain)
    ∷ (1, plain)
    ∷ (1, plain)
    ∷ (1, plain)
    ∷ (1, plain)
    ∷ (1, plain)
    ∷ (0, plain)
    ∷ (0, plain)
    ∷ []

rwlock_free_when_over_example :
    let y = run (step latch) (init latch 3 readers) both_drop in
    (y.shared.raw.state ≡ 0) × (y.shared.raw.mutex.state ≡ 0)
unfolding run step init
rwlock_free_when_over_example =
    rwlock_free_when_over latch 3 readers both_drop (omega arith) (tt, (tt, tt))

rwlock_refines_example :
    let y = run (step latch) (init latch 3 readers) both_read in
    (a : Act) × (perform a (access y.tasks) ≡ some (access (turn (step latch) y (1, plain)).tasks))
rwlock_refines_example = rwlock_refines latch 3 readers both_read 1 plain (omega arith)
