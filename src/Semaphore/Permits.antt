-- ===== src/Semaphore/Permits.antt =====
-- src/semaphore.rs: the permits in the counter and those that tasks hold, under every schedule.
use async_lock.Base.{ℕ, ◌+◌, ◌^◌, ◌≤◌, ◌<◌, ◌≡◌, refl, List, ◌∷◌, ◌++◌, arith, if◌then◌else◌, ◌==◌}
use async_lock.Event.{EventOps}
use async_lock.Tasks.{run, run-keeps, total, total-split, total_mono, total-map_zero}
use async_lock.Semaphore.{
  Semaphore, Call, tries, acquires, adds, reads, forgotten, added, Pc, ready, swaps, finished,
  holds, announces, ended, Choice, step, init,
}

module _ {Listener : Type 0} where
  -- Permits that a task has taken and not given back; a forgotten guard keeps its permit.
  abbrev pub owned : Pc Listener → ℕ
  owned (finished _) = 1
  owned holds = 1
  owned (ended forgotten) = 1
  owned _ = 0

  -- Live guards.
  abbrev pub guards : Pc Listener → ℕ
  guards (finished _) = 1
  guards holds = 1
  guards _ = 0

  -- Permits that a task has added.
  abbrev pub granted : Pc Listener → ℕ
  granted (announces n) = n
  granted (ended (added n)) = n
  granted _ = 0

  -- Permits that a task has added or will add.
  abbrev pub requested : Pc Listener → ℕ
  requested (ready (adds n)) = n
  requested p = granted p

  -- A task that is about to take a permit from 0. There is none.
  abbrev pub underflows : Pc Listener → ℕ
  underflows (swaps _ count) = if count == 0 then 1 else 0
  underflows _ = 0

  guards-le-owned : (p : Pc Listener) → guards p ≤ owned p
  guards-le-owned (ended forgotten) = omega arith
  guards-le-owned p = omega arith

  granted-le-requested : (p : Pc Listener) → granted p ≤ requested p
  granted-le-requested (ready (adds n)) = omega arith
  granted-le-requested p = omega arith

-- Permits at hand and permits taken make up those there were at first and those added.
pub record IsBalanced (n count taken given asked wrong : ℕ) : Type 0 where
  pub balance : count + taken ≡ n + given
  pub fits : n + asked < 2 ^ 64
  pub covers : given ≤ asked
  pub safe : wrong ≡ 0

module _ {Event Listener : Type 0} (E : EventOps Event Listener) where
  -- One step of a task, the other tasks' totals being fixed.
  step-IsBalanced :
      (c : Choice) (s : Semaphore Event) (p : Pc Listener) (n o g r u : ℕ)
      → g ≤ r
      → IsBalanced n s.count (owned p + o) (granted p + g) (requested p + r) (underflows p + u)
      → let y = step E c s p in
        IsBalanced n y.0.count
          (owned y.1 + o)
          (granted y.1 + g)
          (requested y.1 + r)
          (underflows y.1 + u)
  unfolding step
  step-IsBalanced c s (ready tries) n o g r u h b = ground arith
  step-IsBalanced c s (ready acquires) n o g r u h b = ground arith
  step-IsBalanced c s (ready (adds m)) n o g r u h b = ground arith
  step-IsBalanced c s (ready reads) n o g r u h b = ground arith
  step-IsBalanced c s p n o g r u h b = ground arith

  abbrev Balanced : ℕ → Semaphore Event → List (Pc Listener) → Type 0
  Balanced n s ts =
      IsBalanced n s.count (total owned ts) (total granted ts) (total requested ts)
        (total underflows ts)

  keeps-Balanced :
      (n : ℕ) (c : Choice) (s : Semaphore Event) (before : List (Pc Listener)) (p : Pc Listener)
      (after : List (Pc Listener))
      → Balanced n s (before ++ p ∷ after)
      → Balanced n (step E c s p).0 (before ++ (step E c s p).1 ∷ after)
  keeps-Balanced n c s before p after b =
      let q : Pc Listener = (step E c s p).1 in
      rw
        (
          total-split owned before q after,
          total-split granted before q after,
          total-split requested before q after,
          total-split underflows before q after,
        )
        (step-IsBalanced c s p n (total owned before + total owned after)
          (total granted before + total granted after)
          (total requested before + total requested after)
          (total underflows before + total underflows after)
          (omega (
            arith,
            total_mono granted requested granted-le-requested before,
            total_mono granted requested granted-le-requested after,
          ))
          (rw
            (
              total-split owned before p after,
              total-split granted before p after,
              total-split requested before p after,
              total-split underflows before p after,
            )
            at b))

  init-Balanced :
      (n : ℕ) (calls : List Call)
      → n + total requested (init E n calls).tasks < 2 ^ 64
      → Balanced n (init E n calls).shared (init E n calls).tasks
  unfolding init
  init-Balanced n calls h = record {
    balance = omega (
      arith,
      total-map_zero (owned {Listener = Listener}) ready (λ _. refl) calls,
      total-map_zero (granted {Listener = Listener}) ready (λ _. refl) calls,
    );
    fits = h;
    covers = total_mono granted requested granted-le-requested _;
    safe = total-map_zero (underflows {Listener = Listener}) ready (λ _. refl) calls;
  }

  -- The counter and the permits that guards hold, or held when they were forgotten, add up to the
  -- initial permits and those added since, so there are never more live guards than permits given
  -- out. It holds for every list of calls and every schedule of their steps, spurious failures and
  -- dropped futures included, if all the permits that are ever asked for fit a usize.
  pub permits_conserved :
      (n : ℕ) (calls : List Call) (schedule : List (ℕ × Choice))
      → n + total requested (init E n calls).tasks < 2 ^ 64
      → let y = run (step E) (init E n calls) schedule in
        (y.shared.count + total owned y.tasks ≡ n + total granted y.tasks)
        × (total guards y.tasks ≤ n + total granted y.tasks)
  permits_conserved n calls schedule h =
      let y = run (step E) (init E n calls) schedule in
      let b =
        (run-keeps (step E) (Balanced n) (keeps-Balanced n) (init E n calls) schedule
          (init-Balanced n calls h)).balance in
      (b, omega (arith, b, total_mono guards owned guards-le-owned y.tasks))
