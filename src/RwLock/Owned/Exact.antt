-- ===== src/RwLock/Owned/Exact.antt =====
-- src/rwlock.rs and src/rwlock/futures.rs: the references of owned calls are counted exactly, and their
-- guards exclude each other.
use async_lock.Base.{
  ◌<◌, ◌-◌, ℕ, ◌^◌, ◌≤◌, ◌<◌, ◌≡◌, ◌≢◌, refl, ap, ◌∙◌, Bool, true, false, is_none, some, List,
  arith,
}
use async_lock.Event.{EventOps}
use async_lock.Tasks.{All, All-map, run, length, length-map, get_elem?, get_elem?-map}
use async_lock.Arc
use async_lock.Arc.{
  Heap, Owner, owns, dangles, Action, drops_handle, rests, proceed, location, share,
}
use async_lock.Arc.Count.{refs}
use async_lock.Arc.Replay.{replay-live}
use async_lock.RwLock.Raw.Defs.{Call, Guard, Pc, ready, holds, leaked, ended}
use async_lock.RwLock.Exclusion.{compatible, guards_exclude}
use async_lock.RwLock.{RwLock, Choice, step, init}
use async_lock.RwLock.Owned.{over, fits, next, step_arc}
use async_lock.RwLock.Owned.Places.{ready-fits}
use async_lock.RwLock.Owned.Steps.{next-IsLegal}

module _ {Event Listener T : Type 0} (E : EventOps Event Listener) where
  -- A call that is over, or that has leaked its guard and with it an `Arc`, and its next step.
  abbrev pub Ebbs : Arc.Choice (Choice T) → Heap (RwLock Event T) → Owner (Pc Listener) → Type 0
  Ebbs c s (owns (leaked g) h n) = refs (step_arc E c s (owns (leaked g) h n)).1 ≡ n
  Ebbs c s (owns (ended o) h n) =
      refs (step_arc E c s (owns (ended o) h n)).1 ≡ refs {P = Pc Listener} (owns (ended o) h n) - 1
  Ebbs c s o = Unit {0}

  init-fits : (v : T) (calls : List Call) → All (λ p. fits p 0 ≡ true) (init E v calls).tasks
  unfolding init
  init-fits v calls = All-map (λ p. fits p 0 ≡ true) ready (ready-fits Listener) calls

  some_task : (v : T) (calls : List Call) → 0 < length calls → 0 < length (init E v calls).tasks
  unfolding init
  some_task v calls h = omega (arith, length-map {A = Pc Listener} ready calls)

  -- Two owned guards that live at the same time are two readers, or one reader and the one
  -- upgradable reader, as borrowed guards are, and their lock is there; at most 2 ^ 62 calls are
  -- made.
  pub owned_guards_exclude :
      (v : T) (calls : List Call) (schedule : List (ℕ × Arc.Choice (Choice T))) (i j : ℕ)
      (g h : Guard) (a b : Bool) (m n : ℕ)
      → 0 < length calls
      → length calls ≤ 2 ^ 62
      → i ≢ j
      → get_elem? (run (step_arc E) (share (init E v calls)) schedule).tasks i
        ≡ some (owns (holds g) a m)
      → get_elem? (run (step_arc E) (share (init E v calls)) schedule).tasks j
        ≡ some (owns (holds h) b n)
      → (compatible g h ≡ true)
        × (is_none (run (step_arc E) (share (init E v calls)) schedule).shared.object ≡ false)
  unfolding step_arc
  owned_guards_exclude v calls schedule i j g h a b m n some_call few d p q =
      let (x, live, (s, e)) =
        replay-live (step E) over fits next (next-IsLegal E) (init E v calls) schedule i
          (owns (holds g) a m) (some_task v calls some_call) p (init-fits v calls) refl in
      (
        guards_exclude E v calls s i j g h few d
            (ap (λ z. get_elem? z.tasks i) e ∙ get_elem?-map location _ i _ p)
            (ap (λ z. get_elem? z.tasks j) e ∙ get_elem?-map location _ j _ q),
        ap is_none live,
      )
