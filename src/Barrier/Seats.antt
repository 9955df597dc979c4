-- ===== src/Barrier/Seats.antt =====
-- src/barrier.rs: what a call of `wait` counts for, and what each step keeps of the counts.
use async_lock.Base.{
  ℕ, ◌+◌, ◌*◌, ◌^◌, ◌≤◌, ◌<◌, ◌≡◌, refl, Bool, true, false, if◌then◌else◌, ◌==◌, Option, none, some,
  arith, Option-cases, inl, inr,
}
use async_lock.Event.{EventOps}
use async_lock.Mutex.Acquire.{Lock, unpolled, taken, gone, poll}
use async_lock.Mutex.Protection.{poll-value}
use async_lock.Barrier.{
  Barrier, Outcome, leader, follower, cancelled, arrives, wait_next, return_next, Pc, initial,
  listens, replaces, announces, unlocks, notifies, waits, pending, reacquiring, checks, leaves,
  ended, Choice, then_arrive, then_check, step,
}

module _ {Listener : Type 0} where
  -- The generation in which a call was counted, until it returns or is dropped.
  abbrev pub local_gen : Pc Listener → Option ℕ
  local_gen (listens g _) = some g
  local_gen (replaces g _ _) = some g
  local_gen (unlocks (wait_next g _)) = some g
  local_gen (notifies (wait_next g _)) = some g
  local_gen (waits g _) = some g
  local_gen (pending g _) = some g
  local_gen (reacquiring g _ _) = some g
  local_gen (checks g _) = some g
  local_gen _ = none

  abbrev pub outcome : Pc Listener → Option Outcome
  outcome announces = some leader
  outcome (unlocks (return_next o _)) = some o
  outcome (notifies (return_next o _)) = some o
  outcome (leaves o _) = some o
  outcome (ended o) = some o
  outcome _ = none

  -- Calls that wait, and those of them that were counted in generation `g`.
  abbrev pub waiting : Pc Listener → ℕ
  waiting p = elim (local_gen p) [ none ↦ 0 | some _ ↦ 1 ]

  abbrev pub waiting_in : ℕ → Pc Listener → ℕ
  waiting_in g p = elim (local_gen p) [ none ↦ 0 | some h ↦ if h == g then 1 else 0 ]

  abbrev pub leading : Pc Listener → ℕ
  leading p = elim (outcome p) [ some leader ↦ 1 | _ ↦ 0 ]

  -- The seats of the round that a leader completes.
  abbrev pub seats : ℕ → Pc Listener → ℕ
  seats n p = elim (outcome p) [ some leader ↦ n | _ ↦ 0 ]

  pub seats-leading : (n : ℕ) (p : Pc Listener) → seats n p ≡ n * leading p
  seats-leading n p = elim (Option-cases (outcome p)) [
    | inl e ↦ rw (e, seats, leading) (omega arith)
    | inr (leader, e) ↦ rw (e, seats, leading) (omega arith)
    | inr (follower, e) ↦ rw (e, seats, leading) (omega arith)
    | inr (cancelled _, e) ↦ rw (e, seats, leading) (omega arith)
  ]

  -- Calls that return or have returned.
  abbrev pub returning : Pc Listener → ℕ
  returning p = elim (outcome p) [ some leader ↦ 1 | some follower ↦ 1 | _ ↦ 0 ]

  -- Calls that were counted and then dropped.
  abbrev pub abandoned : Pc Listener → ℕ
  abandoned p = elim (outcome p) [ some (cancelled true) ↦ 1 | _ ↦ 0 ]

  pub waiting_in-le-waiting : (g : ℕ) (p : Pc Listener) → waiting_in g p ≤ waiting p
  waiting_in-le-waiting g p = elim (Option-cases (local_gen p)) [
    | inl e ↦ rw (e, waiting, waiting_in) (omega arith)
    | inr (h, e) ↦ rw (e, waiting, waiting_in) (ground arith)
  ]

  -- The mutex's future of a call that arrives counts for nothing.
  then_arrive-counts :
      (n g : ℕ) (l : Lock Listener)
      → let p = then_arrive l in
        (waiting p ≡ 0)
        × (waiting_in g p ≡ 0)
        × (seats n p ≡ 0)
        × (returning p ≡ 0)
        × (abandoned p ≡ 0)
  unfolding then_arrive
  then_arrive-counts n g taken = (refl, refl, refl, refl, refl)
  then_arrive-counts n g gone = (refl, refl, refl, refl, refl)
  then_arrive-counts n g l = (refl, refl, refl, refl, refl)

  -- That of a call that waits counts as the call, or as one that is dropped.
  then_check-counts :
      (n g h : ℕ) (evl : Option Listener) (l : Lock Listener)
      → let p = then_check h evl l in
        (waiting p + abandoned p ≡ 1)
        × ((if h == g then 1 else 0) ≤ waiting_in g p + abandoned p)
        × (seats n p ≡ 0)
        × (returning p ≡ 0)
  unfolding then_check
  then_check-counts n g h evl taken = ground arith
  then_check-counts n g h evl gone = ground arith
  then_check-counts n g h evl l = ground arith

-- `w`, `k`, `r` and `a` are the calls that wait, those of them in the present generation, those that
-- return and those that were dropped after they had been counted.
pub record IsSeated (n size count w k seated r a : ℕ) : Type 0 where
  pub same : size ≡ n
  pub fits : n < 2 ^ 64
  pub balance : w + r + a ≡ seated + count
  pub room : count < n
  pub present : count ≤ k + a

module _ {Event Listener : Type 0} (E : EventOps Event Listener) where
  relock-IsSeated :
      (late cancel : Bool) (s : Barrier Event) (g : ℕ) (evl : Option Listener) (l : Lock Listener)
      (n w : ℕ) (k : ℕ → ℕ) (t r a : ℕ)
      → IsSeated n s.n s.state.value.count
          (1 + w)
          ((if g == s.state.value.generation_id then 1 else 0) + k s.state.value.generation_id)
          (0 + t)
          (0 + r)
          (0 + a)
      → let (m, l') = poll E late cancel s.state l in
        let q = then_check g evl l' in
        IsSeated n s.n m.value.count
          (waiting q + w)
          (waiting_in m.value.generation_id q + k m.value.generation_id)
          (seats n q + t)
          (returning q + r)
          (abandoned q + a)
  relock-IsSeated late cancel s g evl l n w k t r a i =
      let (e0, e1, e2, e3) =
        then_check-counts n s.state.value.generation_id g evl (poll E late cancel s.state l).1 in
      rw (poll-value E late cancel s.state l, e2, e3)
        (record {
          same = i.same;
          fits = i.fits;
          balance = omega (arith, i.balance, e0);
          room = i.room;
          present = omega (arith, i.present, e1);
        })

  pub step-IsSeated :
      (c : Choice) (s : Barrier Event) (p : Pc Listener) (n w : ℕ) (k : ℕ → ℕ) (t r a : ℕ)
      → IsSeated n s.n s.state.value.count
          (waiting p + w)
          (waiting_in s.state.value.generation_id p + k s.state.value.generation_id)
          (seats n p + t)
          (returning p + r)
          (abandoned p + a)
      → let y = step E c s p in
        IsSeated n y.0.n y.0.state.value.count
          (waiting y.1 + w)
          (waiting_in y.0.state.value.generation_id y.1 + k y.0.state.value.generation_id)
          (seats n y.1 + t)
          (returning y.1 + r)
          (abandoned y.1 + a)
  unfolding step
  step-IsSeated c s (initial l) n w k t r a i =
      let (e0, e1, e2, e3, e4) =
        then_arrive-counts n s.state.value.generation_id (poll E c.late c.cancel s.state l).1 in
      rw (poll-value E c.late c.cancel s.state l, e0, e1, e2, e3, e4) i
  step-IsSeated c s arrives n w k t r a i = ground arith
  step-IsSeated c s (listens g evl) n w k t r a i = ground arith
  step-IsSeated c s (replaces g old evl) n w k t r a i = ground arith
  step-IsSeated c s announces n w k t r a i = ground arith
  step-IsSeated c s (unlocks (wait_next g evl)) n w k t r a i = ground arith
  step-IsSeated c s (unlocks (return_next o evl)) n w k t r a i = ground arith
  step-IsSeated c s (notifies (wait_next g evl)) n w k t r a i = ground arith
  step-IsSeated c s (notifies (return_next o evl)) n w k t r a i = ground arith
  step-IsSeated c s (waits g evl) n w k t r a i = ground arith
  step-IsSeated c s (pending g evl) n w k t r a i = ground arith
  step-IsSeated c s (reacquiring g evl unpolled) n w k t r a i =
      relock-IsSeated c.late false s g evl unpolled n w k t r a i
  step-IsSeated c s (reacquiring g evl l) n w k t r a i =
      relock-IsSeated c.late c.cancel s g evl l n w k t r a i
  step-IsSeated c s (checks g evl) n w k t r a i = ground arith
  step-IsSeated c s (leaves o evl) n w k t r a i = ground arith
  step-IsSeated c s (ended o) n w k t r a i = ground arith
