-- ===== src/Barrier/Stored.antt =====
-- src/barrier.rs: the listener of the barrier's event that a call of `wait` stores, step by step.
pub mod Steps
use async_lock.Base.{
  ℕ, ◌≤◌, ◌≡◌, ◌⊎◌, inl, inr, refl, ap, Bool, false, Bool-cases, Option, none, some, arith,
  usize_max, if◌then◌else◌, ◌==◌,
}
use async_lock.Event.{EventOps, IsRegistering}
use async_lock.Mutex.Acquire.{Lock, unpolled, taken, gone, poll}
use async_lock.Mutex.Protection.{poll-value}
use async_lock.Listeners.{Uses}
use async_lock.Barrier.{
  Barrier, After, wait_next, return_next, Pc, initial, arrives, listens, replaces, announces,
  unlocks, notifies, waits, pending, reacquiring, checks, leaves, Choice, then_arrive, then_check,
  step,
}
use async_lock.Barrier.Exclusion.{holding}

abbrev pub generation : {Event : Type 0} → Barrier Event → ℕ
generation s = s.state.value.generation_id

module _ {Listener : Type 0} where
  abbrev after_listener : After Listener → Option Listener
  after_listener (wait_next _ l) = l
  after_listener (return_next _ l) = l

  -- The listener of the event that the task stores.
  abbrev pub listener : Pc Listener → Option Listener
  listener (listens _ l) = l
  listener (replaces _ _ l) = l
  listener (unlocks a) = after_listener a
  listener (notifies a) = after_listener a
  listener (waits _ l) = l
  listener (pending _ l) = l
  listener (reacquiring _ l _) = l
  listener (checks _ l) = l
  listener (leaves _ l) = l
  listener _ = none

  -- It waits, or is going to, for the end of the round `local_gen`.
  abbrev pub waits_in : Pc Listener → Option ℕ
  waits_in (replaces g _ _) = some g
  waits_in (unlocks (wait_next g _)) = some g
  waits_in (notifies (wait_next g _)) = some g
  waits_in (waits g _) = some g
  waits_in (pending g _) = some g
  waits_in _ = none

  -- The leader of a round, about to notify.
  abbrev pub announcing : Pc Listener → ℕ
  announcing announces = 1
  announcing _ = 0

  -- A stored listener where there should be none, and none where there should be one.
  abbrev pub stray : Pc Listener → ℕ
  stray (listens _ (some _)) = 1
  stray (replaces _ (some _) _) = 1
  stray (replaces _ none none) = 1
  stray (unlocks (wait_next _ none)) = 1
  stray (notifies (wait_next _ none)) = 1
  stray (waits _ none) = 1
  stray (pending _ none) = 1
  stray (reacquiring _ (some _) _) = 1
  stray (checks _ (some _)) = 1
  stray _ = 0

  -- It is about to listen in a round that is not the current one.
  abbrev pub lost : ℕ → Pc Listener → ℕ
  lost generation (listens g _) = if g == generation then 0 else 1
  lost _ _ = 0

  pub lost-le-holding : (generation : ℕ) (p : Pc Listener) → lost generation p ≤ holding p
  lost-le-holding generation (listens g l) = ground arith
  lost-le-holding generation p = omega arith

  pub bare-then_arrive : (l : Lock Listener) → listener (then_arrive l) ≡ none
  unfolding then_arrive
  bare-then_arrive gone = refl
  bare-then_arrive taken = refl
  bare-then_arrive l = refl

  pub bare-then_check : (g : ℕ) (l : Lock Listener) → listener (then_check g none l) ≡ none
  unfolding then_check
  bare-then_check g gone = refl
  bare-then_check g taken = refl
  bare-then_check g l = refl

  pub then_arrive-lost : (generation : ℕ) (l : Lock Listener) → lost generation (then_arrive l) ≡ 0
  unfolding then_arrive
  then_arrive-lost generation gone = refl
  then_arrive-lost generation taken = refl
  then_arrive-lost generation l = refl

  pub then_check-lost :
      (generation g : ℕ) (evl : Option Listener) (l : Lock Listener)
      → lost generation (then_check g evl l) ≡ 0
  unfolding then_check
  then_check-lost generation g evl gone = refl
  then_check-lost generation g evl taken = refl
  then_check-lost generation g evl l = refl

  pub then_arrive-waits_in : (l : Lock Listener) → waits_in (then_arrive l) ≡ none
  unfolding then_arrive
  then_arrive-waits_in gone = refl
  then_arrive-waits_in taken = refl
  then_arrive-waits_in l = refl

  pub then_check-waits_in :
      (g : ℕ) (evl : Option Listener) (l : Lock Listener) → waits_in (then_check g evl l) ≡ none
  unfolding then_check
  then_check-waits_in g evl gone = refl
  then_check-waits_in g evl taken = refl
  then_check-waits_in g evl l = refl

  pub stray-then_arrive : (l : Lock Listener) → stray (then_arrive l) ≡ 0
  unfolding then_arrive
  stray-then_arrive gone = refl
  stray-then_arrive taken = refl
  stray-then_arrive l = refl

  pub stray-then_check : (g : ℕ) (l : Lock Listener) → stray (then_check g none l) ≡ 0
  unfolding then_check
  stray-then_check g gone = refl
  stray-then_check g taken = refl
  stray-then_check g l = refl
