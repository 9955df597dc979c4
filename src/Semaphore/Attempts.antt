-- ===== src/Semaphore/Attempts.antt =====
-- src/semaphore.rs: when an attempt fails and when it succeeds.
use async_lock.Base.{
  ℕ, ◌+◌, ◌<◌, ◌≤◌, ◌≡◌, ◌⊎◌, ◌↔◌, inl, inr, refl, false, ◌==◌, if◌then◌else◌, none, some, List, [],
  ◌∷◌, ap, ◌∙◌, arith,
}
use async_lock.Tasks.{length}
use async_lock.Event.{EventOps, Caller, direct, in_future}
use async_lock.Semaphore.{
  Semaphore, refused, Pc, loads, swaps, ended, Choice, refuse, succeed, exchange, step,
}

-- A compare-exchange with the local `count` on a counter `n` fails spuriously, or because of another
-- task.
abbrev failures : Choice → ℕ → ℕ → ℕ
failures c n count = if c.spurious then 1 else if n == count then 0 else 1

-- How often an attempt's compare-exchange fails, from its local `count` on.
unfoldable pub disturbances : ℕ → List (Choice × ℕ) → ℕ
disturbances count [] = 0
disturbances count ((c, n) ∷ ms) = failures c n count + disturbances n ms

module _ {Event Listener : Type 0} (E : EventOps Event Listener) where
  -- `try_acquire` gives `None` exactly when the counter is 0 at the access that decides: at the load,
  -- and at a compare-exchange whose local count is not 0, whether it fails spuriously or not.
  pub refused_iff_zero :
      (c : Choice) (s : Semaphore Event) (count : ℕ)
      → 0 < count
      → ((step E c s (loads direct)).1 ≡ ended refused ↔ s.count ≡ 0)
        × ((step E c s (swaps direct count)).1 ≡ ended refused ↔ s.count ≡ 0)
  unfolding step
  refused_iff_zero c s count h =
      ((λ e. ground arith, λ e. ground arith), (λ e. ground arith, λ e. ground arith))

  -- Undisturbed, on a positive counter, an attempt takes one permit in two steps, unless the compare-exchange fails
  -- spuriously.
  attempt_succeeds :
      (c d : Choice) (s : Semaphore Event) (k : Caller Listener)
      → 0 < s.count
      → d.spurious ≡ false
      → (b : Semaphore Event × Pc Listener) × (b ≡ step E c s (loads k))
        × ((step E d b.0 b.1).0.count + 1 ≡ s.count)
        × ((step E d b.0 b.1).1 ≡ succeed k)
  unfolding step
  attempt_succeeds c d s k h f = (_, refl, ground arith, ground arith)

  -- The turns of one attempt's loop. Before each of them the other tasks have made the counter what the
  -- list says.
  unfoldable pub attempt : List (Choice × ℕ) → Semaphore Event → Pc Listener → Pc Listener
  attempt ((c, n) ∷ ms) s (swaps k count) =
      attempt ms s (step E c (record s { count = n }) (swaps k count)).1
  attempt _ s p = p

  attempt-succeed :
      (ms : List (Choice × ℕ)) (s : Semaphore Event) (k : Caller Listener)
      → attempt ms s (succeed k) ≡ succeed k
  unfolding attempt succeed
  attempt-succeed [] s direct = refl
  attempt-succeed [] s (in_future l) = refl
  attempt-succeed (m ∷ ms) s direct = refl
  attempt-succeed (m ∷ ms) s (in_future l) = refl

  attempt-refuse :
      (ms : List (Choice × ℕ)) (s : Semaphore Event) (k : Caller Listener)
      → attempt ms s (refuse k) ≡ refuse k
  unfolding attempt refuse
  attempt-refuse [] s direct = refl
  attempt-refuse [] s (in_future none) = refl
  attempt-refuse [] s (in_future (some l)) = refl
  attempt-refuse (m ∷ ms) s direct = refl
  attempt-refuse (m ∷ ms) s (in_future none) = refl
  attempt-refuse (m ∷ ms) s (in_future (some l)) = refl

  -- One turn of the loop.
  turn-cases :
      (c : Choice) (n count : ℕ) (s : Semaphore Event) (k : Caller Listener)
      → let p = (step E c (record s { count = n }) (swaps k count)).1 in
        (p ≡ succeed k) ⊎ ((p ≡ refuse k) ⊎ ((p ≡ swaps k n) × (1 ≤ failures c n count)))
  unfolding step exchange
  turn-cases c n count s k = ground arith

  -- The loop of `try_acquire` terminates: an attempt that has more turns than its compare-exchange fails
  -- spuriously or loses against another task is over, with a permit or with none, whatever the
  -- counter was before each turn. It starts at a compare-exchange with any local count.
  pub attempt_terminates :
      (ms : List (Choice × ℕ)) (s : Semaphore Event) (k : Caller Listener) (count : ℕ)
      → disturbances count ms < length ms
      → let p = attempt ms s (swaps k count) in (p ≡ succeed k) ⊎ (p ≡ refuse k)
  unfolding attempt disturbances
  attempt_terminates [] s k count few = absurd (omega (arith, few))
  attempt_terminates ((c, n) ∷ ms) s k count few = elim (turn-cases c n count s k) [
    | inl e ↦ inl (ap (attempt ms s) e ∙ attempt-succeed ms s k)
    | inr (inl e) ↦ inr (ap (attempt ms s) e ∙ attempt-refuse ms s k)
    | inr (inr (e, f)) ↦ rw (e) (attempt_terminates ms s k n (omega (arith, few, f)))
  ]
