-- ===== src/Semaphore/Owned/Steps.antt =====
-- src/semaphore.rs: every step of an owned call keeps as many `Arc`s as fit its place, and what it does
-- next is legal.
use async_lock.Base.{
  Bool-cases, Option, none, zero, suc, inl, inr, ℕ, ◌≡◌, refl, Bool, true, false, some, arith,
}
use async_lock.Event.{EventOps, direct, in_future}
use async_lock.Arc
use async_lock.Arc.{
  Heap, Owner, owns, dangles, Action, clones, drops_arc, accesses, leave, proceed, location,
  owned_step, share,
}
use async_lock.Arc.Count.{IsHeld, IsLegal, leave-IsLegal, proceed-IsLegal}
use async_lock.Semaphore.{
  Semaphore, Call, tries, acquires, adds, reads, start, exchange, listen, add_permits, drop_guard,
  poll_listener, Pc, ready, loads, swaps, listens, waits, pending, announces, finished, notifies,
  holds, ended, Choice, step, refuse, succeed, try_acquire,
}
use async_lock.Semaphore.Owned.{over, fits, next}

module _ {Listener : Type 0} where
  try_acquire-fits :
      (l : Option Listener) (count : ℕ) → fits (try_acquire (in_future l) count) 1 ≡ true
  unfolding try_acquire refuse
  try_acquire-fits none count = ground arith
  try_acquire-fits (some l) count = ground arith

pub ready-fits : (Listener : Type 0) (c : Call) → fits {Listener = Listener} (ready c) 0 ≡ true
ready-fits Listener tries = refl
ready-fits Listener acquires = refl
ready-fits Listener (adds _) = refl
ready-fits Listener reads = refl

try_acquire-fits_direct :
    (Listener : Type 0) (count : ℕ) → fits (try_acquire {Listener = Listener} direct count) 0 ≡ true
unfolding try_acquire refuse
try_acquire-fits_direct Listener count = ground arith

exchange-fits_direct :
    {Event : Type 0} (Listener : Type 0) (c : Choice) (s : Semaphore Event) (count : ℕ)
    → fits (exchange {Listener = Listener} c s direct count).1 0 ≡ true
unfolding exchange succeed
exchange-fits_direct Listener c s count = ground (arith, try_acquire-fits_direct Listener s.count)

module _ {Event Listener : Type 0} where
  exchange-fits :
      (c : Choice) (s : Semaphore Event) (l : Option Listener) (count : ℕ)
      → fits (exchange c s (in_future l) count).1 1 ≡ true
  unfolding exchange succeed
  exchange-fits c s l count = ground (arith, try_acquire-fits l s.count)

module _ {Event Listener : Type 0} (E : EventOps Event Listener) where
  -- A direct call goes on with its caller's `Arc`.
  direct-IsLegal :
      (c : Arc.Choice Choice) (p : Pc Listener) (h : Bool) (n : ℕ)
      → n ≡ 0
      → over p n ≡ false
      → ((s : Semaphore Event) → fits (step E c.access s p).1 0 ≡ true)
      → IsLegal over fits (step E) c.access p h n (proceed false true c h n)
  direct-IsLegal c p h n e going next_fits =
      proceed-IsLegal over fits (step E) false true c p h n going (λ a b. absurd cc)
        (inr (inr refl)) (λ a x. rw e (next_fits x))

  -- A future goes on with its own.
  future-IsLegal :
      (c : Arc.Choice Choice) (p : Pc Listener) (h : Bool) (n : ℕ)
      → n ≡ 1
      → over p n ≡ false
      → ((s : Semaphore Event) → fits (step E c.access s p).1 1 ≡ true)
      → IsLegal over fits (step E) c.access p h n (proceed false false c h n)
  future-IsLegal c p h n e going next_fits =
      proceed-IsLegal over fits (step E) false false c p h n going (λ a b. absurd cc)
        (inl (omega (arith, e))) (λ a x. rw e (next_fits x))

  waits-fits :
      (c : Choice) (l : Option Listener) (s : Semaphore Event)
      → fits (step E c s (waits l)).1 1 ≡ true
  unfolding step poll_listener
  waits-fits c l s = ground arith

  pub next-IsLegal :
      (c : Arc.Choice Choice) (p : Pc Listener) (h : Bool) (n : ℕ)
      → IsHeld over fits (owns p h n)
      → IsLegal over fits (step E) c.access p h n (next c p h n)
  unfolding next step start listen add_permits drop_guard
  next-IsLegal c (ended o) h n k =
      leave-IsLegal over fits (step E) c.access (ended o) h n refl (λ e. (refl, ground arith))
  next-IsLegal c (ready acquires) h n k =
      proceed-IsLegal over fits (step E) true true c (ready acquires) h n refl (λ a b. ground arith)
        (inr (inl refl)) (λ a x. ground arith)
  next-IsLegal c (ready tries) h n k =
      direct-IsLegal c (ready tries) h n (ground arith) refl (λ x. refl)
  next-IsLegal c (ready (adds m)) h n k =
      direct-IsLegal c (ready (adds m)) h n (ground arith) refl (λ x. refl)
  next-IsLegal c (ready reads) h n k =
      direct-IsLegal c (ready reads) h n (ground arith) refl (λ x. refl)
  next-IsLegal c (announces m) h n k =
      direct-IsLegal c (announces m) h n (ground arith) refl (λ x. refl)
  next-IsLegal c (loads direct) h n k =
      direct-IsLegal c (loads direct) h n (ground arith) refl
        (λ x. try_acquire-fits_direct Listener x.count)
  next-IsLegal c (swaps direct count) h n k =
      direct-IsLegal c (swaps direct count) h n (ground arith) refl
        (λ x. exchange-fits_direct Listener c.access x count)
  next-IsLegal c (loads (in_future l)) h n k =
      future-IsLegal c (loads (in_future l)) h n (ground arith) refl
        (λ x. try_acquire-fits l x.count)
  next-IsLegal c (swaps (in_future l) count) h n k =
      future-IsLegal c (swaps (in_future l) count) h n (ground arith) refl
        (λ x. exchange-fits c.access x l count)
  next-IsLegal c listens h n k = future-IsLegal c listens h n (ground arith) refl (λ x. refl)
  next-IsLegal c (waits l) h n k =
      future-IsLegal c (waits l) h n (ground arith) refl (waits-fits c.access l)
  next-IsLegal c notifies h n k = future-IsLegal c notifies h n (ground arith) refl (λ x. refl)
  next-IsLegal c (pending l) h zero k = (refl, refl, λ x. refl)
  next-IsLegal c (pending l) h (suc n) k =
      let one : suc n ≡ 1 = ground arith in
      elim (Bool-cases c.access.cancel) [
        | inl e ↦ ground arith
        | inr e ↦
            let goes_on =
              future-IsLegal c (pending l) h (suc n) one (ground arith) (λ x. ground arith) in
            ground (arith, goes_on)
      ]
  next-IsLegal c (finished l) h n k = ground arith
  next-IsLegal c holds h n k =
      proceed-IsLegal over fits (step E) true false c holds h n refl (λ a b. ground arith)
        (inr (inl refl)) (λ a x. ground arith)
