-- ===== src/Arc/Count.antt =====
-- `std::sync::Arc`: the strong count of a lock, and the references that its calls have.
use async_lock.Base.{
  ◌-◌, map, [], Bool-cases, ◌&&◌, not, ℕ, ◌+◌, ◌≤◌, ◌<◌, ◌≡◌, ◌⊎◌, inl, inr, refl, sym, Bool, true,
  false, is_none, Option-cases, List, ◌∷◌, ◌++◌, arith, ◌==◌,
}
use async_lock.Tasks.{
  System, run, run-keeps, total, total-split, total-map_zero, total-map_one, length, All, All-split,
  All-join,
}
use async_lock.Arc.{
  Heap, Owner, owns, dangles, Action, clones, drops_arc, drops_handle, accesses, drops_and_accesses,
  rests, lets_go, leave, proceed, Choice, release, access, act, owned_step, share,
}

abbrev pub refs : {P : Type 0} → Owner P → ℕ
refs (owns _ true n) = 1 + n
refs (owns _ false n) = n
refs (dangles _) = 0

abbrev pub dangling : {P : Type 0} → Owner P → ℕ
dangling (owns _ _ _) = 0
dangling (dangles _) = 1

-- The count is that of the references, the lock is gone when there is none, and `d` accesses dangle.
pub record IsShared (strong refs d : ℕ) (gone : Bool) : Type 0 where
  pub exact : strong ≡ refs
  pub freed : gone ≡ (strong == 0)
  pub safe : d ≡ 0

module _ {P : Type 0} (over fits : P → ℕ → Bool) where
  abbrev pub over_at : Owner P → Bool
  over_at (owns p _ n) = over p n
  over_at (dangles _) = false

  -- A call has as many references as fit its place, and one that is not over has a reference, its own
  -- or its caller's.
  abbrev pub IsHeld : Owner P → Type 0
  IsHeld (owns p h n) = (fits p n ≡ true) × ((over p n ≡ true) ⊎ (1 ≤ refs (owns p h n)))
  IsHeld (dangles p) = ⊥

  -- What `IsHeld` says of the place.
  abbrev pub HasRefs : Owner P → Type 0
  HasRefs (owns p h n) = fits p n ≡ true
  HasRefs (dangles p) = ⊥

  pub IsHeld-HasRefs : (o : Owner P) → IsHeld o → HasRefs o
  IsHeld-HasRefs (owns p h n) k = k.0
  IsHeld-HasRefs (dangles p) k = k

  pub held-refs : (o : Owner P) → IsHeld o → over_at o ≡ false → 1 ≤ refs o
  held-refs (owns p h n) k e = ground arith
  held-refs (dangles p) k e = absurd k

  module _ {I S : Type 0} (step : I → S → P → S × P) where
    -- What an action asks for: a call that goes on has a reference after it.
    abbrev pub IsLegal : I → P → Bool → ℕ → Action I P → Type 0
    IsLegal c p h n clones = (over p n ≡ false) × (fits p (n + 1) ≡ true)
    IsLegal c p h n drops_arc =
        (fits p (n - 1) ≡ true) × ((2 ≤ n) ⊎ ((over p (n - 1) ≡ true) × (1 ≤ n)))
    IsLegal c p h n drops_handle = (h ≡ true) × ((1 ≤ n) ⊎ (over p n ≡ true))
    IsLegal c p h n accesses = (over p n ≡ false) × ((x : S) → fits (step c x p).1 n ≡ true)
    IsLegal c p h n drops_and_accesses = (2 ≤ n) × ((x : S) → fits (step c x p).1 (n - 1) ≡ true)
    IsLegal c p h n rests = Unit {0}
    IsLegal c p h n (lets_go i q) =
        (fits q n ≡ true) × (over q n ≡ true) × ((x : S) → (step i x p).1 ≡ q)

    pub leave-IsLegal :
        (c : I) (p : P) (h : Bool) (n : ℕ)
        → over p n ≡ true
        → (1 ≤ n → (over p (n - 1) ≡ true) × (fits p (n - 1) ≡ true))
        → IsLegal c p h n (leave h n)
    unfolding leave
    leave-IsLegal c p true n e f = ground arith
    leave-IsLegal c p false n e f = ground arith

    pub proceed-IsLegal :
        (due borrowed : Bool) (c : Choice I) (p : P) (h : Bool) (n : ℕ)
        → over p n ≡ false
        → (due ≡ true → n ≡ 0 → fits p (n + 1) ≡ true)
        → (1 ≤ n) ⊎ ((due ≡ true) ⊎ (borrowed ≡ true))
        → ((1 ≤ n) ⊎ (due ≡ false) → (x : S) → fits (step c.access x p).1 n ≡ true)
        → IsLegal c.access p h n (proceed due borrowed c h n)
    unfolding proceed
    proceed-IsLegal due borrowed c p h n e clone free go = elim (Bool-cases (due && n == 0)) [
      | inl q ↦ rw q (e, clone (ground arith) (ground arith))
      | inr q ↦ elim (Bool-cases (c.drop_handle && h && not borrowed)) [
        | inl r ↦ rw (q, r) (ground arith, inl (ground arith))
        | inr r ↦ rw (q, r) (e, go (ground arith))
      ]
    ]

module _ {I S P : Type 0} (step : I → S → P → S × P) (over fits : P → ℕ → Bool) where
  act-IsShared :
      (a : Action I P) (c : I) (s : Heap S) (p : P) (h : Bool) (n r : ℕ)
      → IsLegal over fits step c p h n a
      → IsHeld over fits (owns p h n)
      → IsShared s.strong (refs (owns p h n) + r) 0 (is_none s.object)
      → let y = act step a c s p h n in
        IsShared y.0.strong (refs y.1 + r) (dangling y.1) (is_none y.0.object)
        × IsHeld over fits y.1
  unfolding act access release
  act-IsShared clones c s p true n r l k i = ground arith
  act-IsShared clones c s p false n r l k i = ground arith
  act-IsShared drops_arc c s p true n r l k i = ground arith
  act-IsShared drops_arc c s p false n r l k i = ground arith
  act-IsShared drops_handle c s p true n r l k i = ground arith
  act-IsShared drops_handle c s p false n r l k i = ground arith
  act-IsShared accesses c s p true n r l k i = elim (Option-cases s.object) [
    | inl e ↦ ground arith
    | inr (x, e) ↦ ground (arith, l.1 x)
  ]
  act-IsShared accesses c s p false n r l k i = elim (Option-cases s.object) [
    | inl e ↦ ground arith
    | inr (x, e) ↦ ground (arith, l.1 x)
  ]
  act-IsShared drops_and_accesses c s p true n r l k i = elim (Option-cases s.object) [
    | inl e ↦ ground arith
    | inr (x, e) ↦ ground (arith, l.1 x)
  ]
  act-IsShared drops_and_accesses c s p false n r l k i = elim (Option-cases s.object) [
    | inl e ↦ ground arith
    | inr (x, e) ↦ ground (arith, l.1 x)
  ]
  act-IsShared rests c s p h n r l k i = (i, k)
  act-IsShared (lets_go j q) c s p true n r l k i = elim (Option-cases s.object) [
    | inl e ↦ ground arith
    | inr (x, e) ↦ ground (arith, l.2 x)
  ]
  act-IsShared (lets_go j q) c s p false n r l k i = elim (Option-cases s.object) [
    | inl e ↦ ground arith
    | inr (x, e) ↦ ground (arith, l.2 x)
  ]

module _ {I S P : Type 0} (step : I → S → P → S × P) (over fits : P → ℕ → Bool)
    (next : Choice I → P → Bool → ℕ → Action I P)
    (legal : (c : Choice I) (p : P) (h : Bool) (n : ℕ)
      → IsHeld over fits (owns p h n)
      → IsLegal over fits step c.access p h n (next c p h n)) where
  abbrev pub Shared : Heap S → List (Owner P) → Type 0
  Shared s ts =
      IsShared s.strong (total refs ts) (total dangling ts) (is_none s.object)
      × All (IsHeld over fits) ts

  pub keeps-Shared :
      (c : Choice I) (s : Heap S) (before : List (Owner P)) (o : Owner P) (after : List (Owner P))
      → Shared s (before ++ o ∷ after)
      → Shared (owned_step step next c s o).0 (before ++ (owned_step step next c s o).1 ∷ after)
  unfolding owned_step
  keeps-Shared c s before (dangles p) after (i, k) =
      absurd (All-split (IsHeld over fits) before (dangles p) after k).1
  keeps-Shared c s before (owns p h n) after (i, k) =
      let (kb, ko, ka) = All-split (IsHeld over fits) before (owns p h n) after k in
      let y : Heap S × Owner P = act step (next c p h n) c.access s p h n in
      let i' =
        rw
          (
            total-split refs before (owns p h n) after,
            total-split dangling before (owns p h n) after,
          )
          at i in
      let none_dangles : total dangling before + total dangling after ≡ 0 =
        omega (arith, i'.safe) in
      let (j, kq) =
        act-IsShared step over fits (next c p h n) c.access s p h n
          (total refs before + total refs after) (legal c p h n ko) ko
          (record { exact = i'.exact; freed = i'.freed; safe = refl }) in
      (
        rw (total-split refs before y.1 after, total-split dangling before y.1 after)
            (record {
              exact = j.exact;
              freed = j.freed;
              safe = omega (arith, j.safe, none_dangles);
            }),
        All-join (IsHeld over fits) before y.1 after kb kq ka,
      )

  held :
      (ts : List P)
      → All (λ p. fits p 0 ≡ true) ts
      → All (IsHeld over fits) (map (λ p. owns p true 0) ts)
  held [] f = tt
  held (t ∷ ts) f = ((f.0, inr (omega arith)), held ts f.1)

  share-Shared :
      (y : System S P)
      → 0 < length y.tasks
      → All (λ p. fits p 0 ≡ true) y.tasks
      → Shared (share y).shared (share y).tasks
  unfolding share
  share-Shared y h f = (
    record {
      exact = sym (total-map_one refs (λ p. owns p true 0) (λ _. refl) y.tasks);
      freed = ground arith;
      safe = total-map_zero dangling (λ p. owns p true 0) (λ _. refl) y.tasks;
    },
    held y.tasks f,
  )

  -- After every schedule of the owned calls.
  pub run-Shared :
      (y : System S P) (schedule : List (ℕ × Choice I))
      → 0 < length y.tasks
      → All (λ p. fits p 0 ≡ true) y.tasks
      → let z = run (owned_step step next) (share y) schedule in Shared z.shared z.tasks
  run-Shared y schedule h f =
      run-keeps (owned_step step next) Shared keeps-Shared (share y) schedule (share-Shared y h f)
