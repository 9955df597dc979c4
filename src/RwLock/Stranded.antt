-- ===== src/RwLock/Stranded.antt =====
-- src/rwlock/raw.rs: `downgrade_to_upgradable` and the drop of the guard that it gives, while a reader
-- waits.
use async_lock.Base.{ℕ, ◌≡◌, refl, ◌∙◌, ap, true, false, some, List, [], ◌∷◌, arith, subst}
use async_lock.Event.{EventOps, IsQuietable}
use async_lock.Tasks.{System, run, turn, turn-own, total, get_elem?}
use async_lock.RwLock.Raw.Defs.{
  Pc, holds, writer, upgradable, readers_notify, mutex_unlocks, mutex_notifies, released, ended,
  dropped,
}
use async_lock.RwLock.{RwLock, Use, drops, forgets, downgrades_to_upgradable, Choice, step}
use async_lock.RwLock.Wakeup.{announcing, asleep, releases, Keeping, reader_sleeps_on}

abbrev does : {T : Type 0} → Use T → Choice T
does u = record { late = false; cancel = false; use_guard = u }

-- The owner of a write guard downgrades it to an upgradable guard, and drops that: the word, the two
-- notifications and the mutex. Where no guard is held the use of guards plays no part.
abbrev pub give_back : {T : Type 0} → ℕ → List (ℕ × Choice T)
give_back j =
    (j, does downgrades_to_upgradable)
    ∷ (j, does drops)
    ∷ (j, does forgets)
    ∷ (j, does forgets)
    ∷ (j, does forgets)
    ∷ []

module _ {Event Listener T : Type 0} (E : EventOps Event Listener) (j : ℕ) where
  -- Where task `j` stands, and the two words.
  record At (y : System (RwLock Event T) (Pc Listener)) (p : Pc Listener) (n m : ℕ) : Type 0 where
    here : get_elem? y.tasks j ≡ some p
    word : y.shared.raw.state ≡ n
    mutex_word : y.shared.raw.mutex.state ≡ m

  -- A step of task `j`, known from the words.
  abbrev Goes : Choice T → (p p' : Pc Listener) → (n n' m m' : ℕ) → Type 0
  Goes c p p' n n' m m' =
      (s : RwLock Event T)
      → s.raw.state ≡ n
      → s.raw.mutex.state ≡ m
      → ((step E c s p).0.raw.state ≡ n')
        × ((step E c s p).0.raw.mutex.state ≡ m')
        × ((step E c s p).1 ≡ p')

  go :
      {y : System (RwLock Event T) (Pc Listener)} {p p' : Pc Listener} {n n' m m' : ℕ}
      (c : Choice T)
      → Goes c p p' n n' m m'
      → At y p n m
      → At (turn (step E) y (j, c)) p' n' m'
  go {y} {p} c g a =
      let (s, h) = turn-own (step E) y j c p a.here in
      let (w, x, q) = g y.shared a.word a.mutex_word in
      record {
        here = h ∙ ap some q;
        word = ap (λ (t : RwLock Event T). t.raw.state) s ∙ w;
        mutex_word = ap (λ (t : RwLock Event T). t.raw.mutex.state) s ∙ x;
      }

  no_release :
      {y : System (RwLock Event T) (Pc Listener)} {p : Pc Listener} {n m : ℕ} (c : Choice T)
      → releases c p ≡ false
      → At y p n m
      → (t : Pc Listener) → get_elem? y.tasks j ≡ some t
      → releases c t ≡ false
  no_release {p} c r a t e =
      let same : p ≡ t = cc (a.here) in subst (λ q. releases c q ≡ false) same r

  Goes-down : Goes (does downgrades_to_upgradable) (holds writer) (holds upgradable) 1 2 1 1
  unfolding step
  Goes-down s e f = ground arith

  Goes-out : Goes (does drops) (holds upgradable) (readers_notify true) 2 0 1 1
  unfolding step
  Goes-out s e f = ground arith

  Goes-on : Goes (does forgets) (readers_notify true) (mutex_unlocks released) 0 0 1 1
  unfolding step
  Goes-on s e f = ground arith

  Goes-free : Goes (does forgets) (mutex_unlocks released) (mutex_notifies released) 0 0 1 0
  unfolding step
  Goes-free s e f = ground arith

  Goes-home : Goes (does forgets) (mutex_notifies released) (ended dropped) 0 0 0 0
  unfolding step
  Goes-home s e f = ground arith

  -- If a reader waits for a writer and that writer downgrades its guard to an upgradable one and drops
  -- it, the words of the lock and of its mutex are 0, as in a new lock, the writer's task has ended, and
  -- the reader still sleeps on an event that nobody has notified. It starts with the word and the
  -- mutex of a lock that the writer alone has, where nobody has notified `no_writer` or is about to,
  -- and rests on what event_listener says of such an event.
  pub downgrade_strands_reader :
      (Quiet : Event → Type 0)
      → IsQuietable E Quiet
      → (i : ℕ) (y : System (RwLock Event T) (Pc Listener)) (p : Pc Listener)
      → get_elem? y.tasks i ≡ some p
      → asleep p ≡ true
      → Quiet y.shared.raw.no_writer
      → total announcing y.tasks ≡ 0
      → get_elem? y.tasks j ≡ some (holds writer)
      → y.shared.raw.state ≡ 1
      → y.shared.raw.mutex.state ≡ 1
      → let z = run (step E) y (give_back j) in
        (z.shared.raw.state ≡ 0)
        × (z.shared.raw.mutex.state ≡ 0)
        × (get_elem? z.tasks j ≡ some (ended dropped))
        × ((q : Pc Listener) × (get_elem? z.tasks i ≡ some q)
            × (asleep q ≡ true)
            × Quiet z.shared.raw.no_writer)
  unfolding run
  downgrade_strands_reader Quiet laws i y p e a q n f w m =
      let a₀ : At y (holds writer) 1 1 = record { here = f; word = w; mutex_word = m } in
      let a₁ = go _ Goes-down a₀ in
      let a₂ = go _ Goes-out a₁ in
      let a₃ = go _ Goes-on a₂ in
      let a₄ = go _ Goes-free a₃ in
      let a₅ = go _ Goes-home a₄ in
      let keeping : Keeping E y (give_back j) = (
        no_release (does downgrades_to_upgradable) refl a₀,
        (
          no_release (does drops) refl a₁,
          (
            no_release (does forgets) refl a₂,
            (no_release (does forgets) refl a₃, (no_release (does forgets) refl a₄, tt)),
          ),
        ),
      ) in
      (
        a₅.word,
        a₅.mutex_word,
        a₅.here,
        reader_sleeps_on E Quiet laws i y p (give_back j) e a q n keeping,
      )
