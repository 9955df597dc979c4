-- ===== src/RwLock/Refine.antt =====
-- src/rwlock.rs and src/rwlock/raw.rs: each step of a task as an act on the abstract lock.
use async_lock.Base.{
  ℕ, ◌+◌, ◌^◌, ◌≤◌, ◌≡◌, refl, sym, ap, ◌∙◌, subst, if◌then◌else◌, ◌==◌, some, List, ◌∷◌, ◌++◌,
  arith, Option-cases, inl, inr,
}
use async_lock.Event.{EventOps}
use async_lock.Tasks.{
  System, run, turn, turn-none, turn-some, total, total-split, length, get_elem?, set-split,
}
use async_lock.Mutex.Acquire.{poll}
use async_lock.RwLock.Raw.Defs.{
  Call, Guard, reader, upgradable, writer, Pc, ready, tries_read, reads, tries_upgradable_read,
  upgradable_reads, tries_write, writes, try_read_swaps, read_swaps, upgradable_swaps,
  upgradable_locking, write_locking, try_write_swaps, write_ors, drain_loads, drain_pending, holds,
}
use async_lock.RwLock.Raw.Counts.{reading, claiming, writing}
use async_lock.RwLock.Raw.Sound.{Others, Sound, then_upgradable-CountsAs, then_write-CountsAs}
use async_lock.RwLock.{
  RwLock, Use, drops, downgrades, downgrades_to_upgradable, tries_upgrade, upgrades, Choice,
  use_guard, step, init,
}
use async_lock.RwLock.Spec
use async_lock.RwLock.Spec.{
  Access, Act, stays, enters, leaves, claims, gives_up, admits, takes, releases, takes_over,
  perform,
}
use async_lock.RwLock.Invariant.{AllSound, run-AllSound, split-Sound, rest-Others}

unfoldable act_of_guard : {Event T : Type 0} → Guard → RwLock Event T → Use T → Act
act_of_guard reader s drops = leaves
act_of_guard upgradable s drops = leaves
act_of_guard upgradable s tries_upgrade = if s.raw.state == 2 then takes_over else stays
act_of_guard upgradable s upgrades = Spec.upgrades
act_of_guard writer s drops = releases
act_of_guard writer s downgrades = Spec.downgrades
act_of_guard writer s downgrades_to_upgradable = Spec.downgrades
act_of_guard _ s u = stays

module _ {Event Listener T : Type 0} where
  -- The act that a step carries out.
  unfoldable act_of : Choice T → RwLock Event T → Pc Listener → Act
  unfolding act_of_guard
  act_of c s (try_read_swaps state) = if s.raw.state == state then enters else stays
  act_of c s (read_swaps state _) = if s.raw.state == state then enters else stays
  act_of c s (upgradable_swaps _ state) = if s.raw.state == state then enters else stays
  act_of c s try_write_swaps = if s.raw.state == 0 then takes else stays
  act_of c s (write_ors _) = claims
  act_of c s (drain_loads _) = if s.raw.state == 1 then admits else stays
  act_of c s (drain_pending _) = if c.cancel then gives_up else stays
  act_of c s (holds g) = act_of_guard g s c.use_guard
  act_of c s p = stays

-- The abstract state of a list of tasks.
abbrev pub access : {Listener : Type 0} → List (Pc Listener) → Access
access ts = record {
  readers = total reading ts;
  claimed = total claiming ts;
  written = total writing ts;
}

access-split :
    {Listener : Type 0} (before : List (Pc Listener)) (p : Pc Listener) (after : List (Pc Listener))
    → access (before ++ p ∷ after) ≡ record {
      readers = reading p + (total reading before + total reading after);
      claimed = claiming p + (total claiming before + total claiming after);
      written = writing p + (total writing before + total writing after);
    }
access-split before p after =
    rw
      (
        total-split reading before p after,
        total-split claiming before p after,
        total-split writing before p after,
      )
      refl

module _ {Event Listener T : Type 0} (E : EventOps Event Listener) where
  guard-performs :
      (g : Guard) (u : Use T) (s : RwLock Event T) (r b x m v a q w : ℕ)
      → Others b x m v q
      → Sound {Listener = Listener} s.raw (holds g) r b x m v a q w
      → let y = (use_guard {Listener = Listener} g s u).1 in
        perform (act_of_guard g s u) (record {
          readers = reading {Listener = Listener} (holds g) + r;
          claimed = claiming {Listener = Listener} (holds g) + b;
          written = writing {Listener = Listener} (holds g) + x;
        })
        ≡ some
            (record { readers = reading y + r; claimed = claiming y + b; written = writing y + x })
  unfolding use_guard perform act_of_guard
  guard-performs reader u s r b x m v a q w o i = ground arith
  guard-performs upgradable u s r b x m v a q w o i = ground arith
  guard-performs writer u s r b x m v a q w o i = ground arith

  step-performs :
      (c : Choice T) (s : RwLock Event T) (p : Pc Listener) (r b x m v a q w : ℕ)
      → Others b x m v q
      → Sound s.raw p r b x m v a q w
      → let y = (step E c s p).1 in
        perform
          (act_of c s p)
          (record { readers = reading p + r; claimed = claiming p + b; written = writing p + x })
        ≡ some
            (record { readers = reading y + r; claimed = claiming y + b; written = writing y + x })
  unfolding step perform act_of
  step-performs c s (ready tries_read) r b x m v a q w o i = ground arith
  step-performs c s (ready reads) r b x m v a q w o i = ground arith
  step-performs c s (ready tries_upgradable_read) r b x m v a q w o i = ground arith
  step-performs c s (ready upgradable_reads) r b x m v a q w o i = ground arith
  step-performs c s (ready tries_write) r b x m v a q w o i = ground arith
  step-performs c s (ready writes) r b x m v a q w o i = ground arith
  step-performs c s (upgradable_locking l) r b x m v a q w o i =
      let k = then_upgradable-CountsAs (poll E c.late c.cancel s.raw.mutex l).1 in
      rw (k.0, k.1, k.2) refl
  step-performs c s (write_locking l) r b x m v a q w o i =
      let k = then_write-CountsAs (poll E c.late c.cancel s.raw.mutex l).1 in
      rw (k.0, k.1, k.2) refl
  step-performs c s (holds g) r b x m v a q w o i =
      guard-performs g c.use_guard s r b x m v a q w o i
  step-performs c s p r b x m v a q w o i = ground arith

  turn-performs :
      (y : System (RwLock Event T) (Pc Listener)) (j : ℕ) (c : Choice T)
      → AllSound y.shared y.tasks
      → (a : Act) × (perform a (access y.tasks) ≡ some (access (turn (step E) y (j, c)).tasks))
  unfolding perform
  turn-performs y j c k = elim (Option-cases (get_elem? y.tasks j)) [
    | inl e ↦ (stays, ap (λ z. some (access z.tasks)) (sym (turn-none (step E) y j c e)))
    | inr (p, e) ↦
        let (before, after, f, g) = set-split y.tasks j p e in
        let (i, n) = subst (AllSound y.shared) f k in
        let q : Pc Listener = (step E c y.shared p).1 in
        let moved = ap (λ z. access z.tasks) (turn-some (step E) y j c p e) ∙ ap access (g q) in
        (
          act_of c y.shared p,
          ap (perform (act_of c y.shared p)) (ap access f ∙ access-split before p after)
              ∙ step-performs c y.shared p _ _ _ _ _ _ _ _ (rest-Others before p after n)
                  (rw (split-Sound y.shared before p after) at i)
              ∙ ap some (sym (moved ∙ access-split before q after)),
        )
  ]

  -- Every turn of every task does to the readers, the claim and the write access what an act of the
  -- abstract lock does, and the act is allowed there: no reader enters while a writer waits or writes,
  -- a writer gets access only where there is no reader, and an upgrade is that of a reader. At most
  -- 2 ^ 62 calls are made.
  pub rwlock_refines :
      (v : T) (calls : List Call) (schedule : List (ℕ × Choice T)) (j : ℕ) (c : Choice T)
      → length calls ≤ 2 ^ 62
      → let y = run (step E) (init E v calls) schedule in
        (a : Act) × (perform a (access y.tasks) ≡ some (access (turn (step E) y (j, c)).tasks))
  rwlock_refines v calls schedule j c n = turn-performs _ j c (run-AllSound E v calls schedule n)
