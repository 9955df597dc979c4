-- ===== src/RwLock/WaitTests.antt =====
-- src/rwlock.rs and src/rwlock/raw.rs: writers and readers that wait, and the theorems on them at
-- concrete inputs.
use async_lock.Base.{ℕ, ◌+◌, ◌≡◌, ◌≤◌, ◌<◌, refl, false, List, [], ◌∷◌, ◌++◌, zero, suc, arith}
use async_lock.Tasks.{run, total}
use async_lock.RwLock.Wakeup.{announcing}
use async_lock.RwLock.Readers.Steps.{reader_waits}
use async_lock.RwLock.Readers.{waiting_reader_woken}
use async_lock.Fixtures.{counter, counter-IsCounting}
use async_lock.Mutex.Acquire.{poll}
use async_lock.RwLock.Raw.{then_write}
use async_lock.RwLock.Raw.Defs.{Call, tries_read, tries_write, reads, writes}
use async_lock.RwLock.{Choice, Use, drops, init, step}
use async_lock.RwLock.Drain.{waiting_writer_woken}
use async_lock.RwLock.Bounds.{aborts, never_aborts}
use async_lock.RwLock.Raw.Awake.{sleeps, wakes}

abbrev uses : Use ℕ → Choice ℕ
uses u = record { late = false; cancel = false; use_guard = u }

abbrev plain : Choice ℕ
plain = uses drops

-- A reader, and a writer that waits for it; the reader leaves and has yet to notify.
abbrev reader_writer : List Call
reader_writer = tries_read ∷ writes ∷ []

abbrev steps : ℕ → ℕ → List (ℕ × Choice ℕ)
steps i zero = []
steps i (suc k) = (i, plain) ∷ steps i k

abbrev reader_left : List (ℕ × Choice ℕ)
reader_left = steps 0 3 ++ steps 1 10 ++ steps 0 1

reader_left_result :
    let y = run (step counter) (init counter 3 reader_writer) reader_left in
    (total sleeps y.tasks ≡ 1) × (y.shared.raw.state ≡ 1) × (total wakes y.tasks ≡ 1)
unfolding run step init total then_write poll
reader_left_result = (refl, refl, refl)

waiting_writer_woken_example :
    let y = run (step counter) (init counter 3 reader_writer) reader_left in
    0 < y.shared.raw.no_readers.notified + total wakes y.tasks
waiting_writer_woken_example =
    waiting_writer_woken counter (λ e. e.waiting) (λ e. e.notified) counter-IsCounting 3
      reader_writer reader_left (omega arith) (omega (arith, reader_left_result))
      (omega (arith, reader_left_result))

never_aborts_example :
    let y = run (step counter) (init counter 3 reader_writer) reader_left in
    (y.shared.raw.state ≤ 4) × (total aborts y.tasks ≡ 0)
never_aborts_example = never_aborts counter 3 reader_writer reader_left (omega arith)

-- A writer, and a reader that waits for it; the writer has left and has yet to notify.
abbrev writer_reader : List Call
writer_reader = tries_write ∷ reads ∷ []

abbrev writer_left : List (ℕ × Choice ℕ)
writer_left = steps 0 2 ++ steps 1 6 ++ steps 0 1

writer_left_result :
    let y = run (step counter) (init counter 3 writer_reader) writer_left in
    (total reader_waits y.tasks ≡ 1) × (y.shared.raw.state ≡ 0) × (total announcing y.tasks ≡ 1)
unfolding run step init total
writer_left_result = (refl, refl, refl)

waiting_reader_woken_example :
    let y = run (step counter) (init counter 3 writer_reader) writer_left in
    0 < y.shared.raw.no_writer.notified + total announcing y.tasks
waiting_reader_woken_example =
    waiting_reader_woken counter (λ e. e.waiting) (λ e. e.notified) counter-IsCounting 3
      writer_reader writer_left (omega arith)
      (refl, (refl, (refl, (refl, (refl, (refl, (refl, (refl, (refl, tt)))))))))
      (omega (arith, writer_left_result)) (omega (arith, writer_left_result))
