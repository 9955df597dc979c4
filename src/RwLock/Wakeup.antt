-- ===== src/RwLock/Wakeup.antt =====
-- src/rwlock/raw.rs: who wakes the readers that wait for a writer. `write_unlock` and
-- `downgrade_write` notify `no_writer`; `downgrade_to_upgradable` clears the writer's bit and does not.
use async_lock.Base.{
  ℕ, ◌%◌, ◌≡◌, inl, inr, refl, sym, ◌∙◌, Bool, true, false, ◌==◌, none, some, List, [], ◌∷◌, arith,
  Option-cases, ℕ_discrete, subst,
}
use async_lock.Event.{EventOps, IsQuietable}
use async_lock.Tasks.{
  System, run, turn, total, total-set, le-total, get_elem?, set, get_elem?-set_ne,
  get_elem?-set_self,
}
use async_lock.Mutex.Acquire.{Lock, done, gone, poll}
use async_lock.RwLock.Raw.{then_upgradable, then_write}
use async_lock.RwLock.Raw.Defs.{
  tries_read, reads, tries_upgradable_read, upgradable_reads, tries_write, writes, reader,
  upgradable, writer, downgraded, Pc, ready, read_pending, read_listens, read_waits, read_passes,
  read_done, upgradable_locking, write_locking, drain_pending, write_announces, mutex_unlocks,
  mutex_notifies, reader_announces, read_drops, holds,
}
use async_lock.RwLock.{RwLock, drops, downgrades, Choice, step}

module _ {Listener : Type 0} where
  -- The task is about to notify `no_writer`.
  abbrev pub announcing : Pc Listener → ℕ
  announcing (write_announces _) = 1
  announcing (mutex_unlocks downgraded) = 1
  announcing (mutex_notifies downgraded) = 1
  announcing reader_announces = 1
  announcing (read_passes _) = 1
  announcing _ = 0

  -- A reader that waits for the writer to go: it has a listener, and the word that it saw last has
  -- the writer's bit.
  abbrev pub asleep : Pc Listener → Bool
  asleep (read_pending state (some _)) = state % 2 == 1
  asleep (read_waits state (some _)) = state % 2 == 1
  asleep _ = false

  -- The task ends its write access by a drop or by `downgrade`, or gives up a future that waits for
  -- readers, or one that waits for the writer.
  abbrev pub releases : {T : Type 0} → Choice T → Pc Listener → Bool
  releases c (holds writer) = elim c.use_guard [ drops ↦ true | downgrades ↦ true | _ ↦ false ]
  releases c (drain_pending _) = c.cancel
  releases c (read_pending _ _) = c.cancel
  releases c _ = false

pub then_upgradable-silent :
    {Listener : Type 0} (l : Lock Listener) → announcing (then_upgradable l) ≡ 0
unfolding then_upgradable
then_upgradable-silent (done l) = refl
then_upgradable-silent gone = refl
then_upgradable-silent l = refl

pub then_write-silent : {Listener : Type 0} (l : Lock Listener) → announcing (then_write l) ≡ 0
unfolding then_write
then_write-silent (done l) = refl
then_write-silent gone = refl
then_write-silent l = refl

module _ {Event Listener T : Type 0} (E : EventOps Event Listener) where
  -- No turn of the schedule releases write access in one of those ways.
  abbrev pub Keeping : System (RwLock Event T) (Pc Listener) → List (ℕ × Choice T) → Type 0
  Keeping y [] = Unit {0}
  Keeping y ((j, c) ∷ ms) =
      ((t : Pc Listener) → get_elem? y.tasks j ≡ some t → releases c t ≡ false)
      × Keeping (turn (step E) y (j, c)) ms

module _ {Event Listener T : Type 0} (E : EventOps Event Listener) (Quiet : Event → Type 0)
    (laws : IsQuietable E Quiet) where
  step-quiet :
      (c : Choice T) (s : RwLock Event T) (p : Pc Listener)
      → Quiet s.raw.no_writer
      → announcing p ≡ 0
      → releases c p ≡ false
      → Quiet (step E c s p).0.raw.no_writer × (announcing (step E c s p).1 ≡ 0)
  unfolding step
  step-quiet c s (ready tries_read) q a k = (q, refl)
  step-quiet c s (ready reads) q a k = (q, refl)
  step-quiet c s (ready tries_upgradable_read) q a k = ground arith
  step-quiet c s (ready upgradable_reads) q a k = (q, refl)
  step-quiet c s (ready tries_write) q a k = ground arith
  step-quiet c s (ready writes) q a k = (q, refl)
  step-quiet c s read_listens q a k = ground (arith, laws.listen_quiet s.raw.no_writer)
  step-quiet c s (read_waits state l) q a k =
      ground (arith, laws.poll_quiet s.raw.no_writer l, laws.poll_unready s.raw.no_writer l)
  step-quiet c s (read_drops l) q a k = (laws.drop_quiet s.raw.no_writer l q, refl)
  step-quiet c s (read_done l) q a k = (laws.drop_quiet s.raw.no_writer l q, refl)
  step-quiet c s (upgradable_locking l) q a k =
      (q, then_upgradable-silent (poll E c.late c.cancel s.raw.mutex l).1)
  step-quiet c s (write_locking l) q a k =
      (q, then_write-silent (poll E c.late c.cancel s.raw.mutex l).1)
  step-quiet c s (holds reader) q a k = ground arith
  step-quiet c s (holds upgradable) q a k = ground arith
  step-quiet c s (holds writer) q a k = ground arith
  step-quiet c s p q a k = ground arith

  step-asleep :
      (c : Choice T) (s : RwLock Event T) (p : Pc Listener)
      → Quiet s.raw.no_writer
      → releases c p ≡ false
      → asleep p ≡ true
      → asleep (step E c s p).1 ≡ true
  unfolding step
  step-asleep c s (read_pending state (some l)) q k a = ground arith
  step-asleep c s (read_pending state none) q k a = cc
  step-asleep c s (read_waits state none) q k a = cc
  step-asleep c s (read_waits state (some l)) q k a =
      ground (
        arith,
        laws.poll_unready s.raw.no_writer (some l),
        laws.poll_keeps s.raw.no_writer (some l),
      )
  step-asleep c s (holds g) q k a = cc
  step-asleep c s p q k a = cc

  -- A task asleep, an event that nobody has notified, and nobody about to notify it.
  abbrev IsStuck : ℕ → System (RwLock Event T) (Pc Listener) → Type 0
  IsStuck i y =
      (p : Pc Listener) × (get_elem? y.tasks i ≡ some p)
      × (asleep p ≡ true)
      × Quiet y.shared.raw.no_writer
      × (total announcing y.tasks ≡ 0)

  turn-IsStuck :
      (i : ℕ) (y : System (RwLock Event T) (Pc Listener)) (j : ℕ) (c : Choice T)
      → ((t : Pc Listener) → get_elem? y.tasks j ≡ some t → releases c t ≡ false)
      → IsStuck i y
      → IsStuck i (turn (step E) y (j, c))
  unfolding turn
  turn-IsStuck i y j c k (p, e, a, q, n) = elim (Option-cases (get_elem? y.tasks j)) [
    | inl f ↦ rw (f, turn) (p, e, a, q, n)
    | inr (t, f) ↦
        let s : RwLock Event T = y.shared in
        let v : Pc Listener = (step E c s t).1 in
        let (q', n') =
          step-quiet c s t q (omega (arith, n, le-total announcing y.tasks j t f)) (k t f) in
        let n'' : total announcing (set y.tasks j v) ≡ 0 =
          omega (arith, total-set announcing y.tasks j t v f) in
        rw (f, turn)
          (elim (ℕ_discrete i j) [
            | yes d ↦
                let at_j : get_elem? y.tasks j ≡ some p =
                  subst (λ m. get_elem? y.tasks m ≡ some p) d e in
                let same : p ≡ t = cc in
                (
                  v,
                  subst (λ m. get_elem? (set y.tasks j v) m ≡ some v) (sym d)
                      (get_elem?-set_self y.tasks j t v f),
                  step-asleep c s t q (k t f) (subst (λ r. asleep r ≡ true) same a),
                  q',
                  n'',
                )
            | no d ↦ (p, get_elem?-set_ne y.tasks i j v d ∙ e, a, q', n'')
          ])
  ]

  run-IsStuck :
      (i : ℕ) (y : System (RwLock Event T) (Pc Listener)) (ms : List (ℕ × Choice T))
      → Keeping E y ms
      → IsStuck i y
      → IsStuck i (run (step E) y ms)
  unfolding run
  run-IsStuck i y [] k h = h
  run-IsStuck i y ((j, c) ∷ ms) k h =
      run-IsStuck i (turn (step E) y (j, c)) ms k.1 (turn-IsStuck i y j c k.0 h)

  -- A reader that waits for a writer sleeps on, and `no_writer` is not notified, through every
  -- schedule in which nobody drops a write guard, downgrades one to a read guard or gives up a
  -- pending future; `downgrade_to_upgradable`, and the drop of the guard that it gives, are allowed.
  -- It starts from a `no_writer` that nobody has notified or is about to notify, and rests on what
  -- event_listener says of such an event.
  pub reader_sleeps_on :
      (i : ℕ) (y : System (RwLock Event T) (Pc Listener)) (p : Pc Listener)
      (later : List (ℕ × Choice T))
      → get_elem? y.tasks i ≡ some p
      → asleep p ≡ true
      → Quiet y.shared.raw.no_writer
      → total announcing y.tasks ≡ 0
      → Keeping E y later
      → let z = run (step E) y later in
        (q : Pc Listener) × (get_elem? z.tasks i ≡ some q)
        × (asleep q ≡ true)
        × Quiet z.shared.raw.no_writer
  reader_sleeps_on i y p later e a q n k =
      let (p', e', a', q', _) = run-IsStuck i y later k (p, e, a, q, n) in (p', e', a', q')
