-- ===== src/Tasks/Lists.antt =====
-- Lists of tasks: one task by its number, and sums of a weight over all of them.
use async_lock.Base.{
  ℕ, zero, suc, ◌+◌, ◌*◌, ◌≤◌, ◌≡◌, ◌≢◌, refl, ap, Option, none, some, List, [], ◌∷◌, ◌++◌, map,
  arith, subst,
}

module _ {ℓ} {A : Type ℓ} where
  abbrev pub length : List A → ℕ
  length [] = 0
  length (x ∷ xs) = suc (length xs)

  abbrev pub get_elem? : List A → ℕ → Option A
  get_elem? [] i = none
  get_elem? (x ∷ xs) zero = some x
  get_elem? (x ∷ xs) (suc i) = get_elem? xs i

  abbrev pub set : List A → ℕ → A → List A
  set [] i v = []
  set (x ∷ xs) zero v = v ∷ xs
  set (x ∷ xs) (suc i) v = x ∷ set xs i v

  pub get_elem?-set_ne :
      (xs : List A) (i j : ℕ) (v : A) → i ≢ j → get_elem? (set xs j v) i ≡ get_elem? xs i
  get_elem?-set_ne [] i j v h = refl
  get_elem?-set_ne (x ∷ xs) zero zero v h = absurd (h refl)
  get_elem?-set_ne (x ∷ xs) zero (suc j) v h = refl
  get_elem?-set_ne (x ∷ xs) (suc i) zero v h = refl
  get_elem?-set_ne (x ∷ xs) (suc i) (suc j) v h = get_elem?-set_ne xs i j v (omega arith)

  -- The list around an element, and what writing there does.
  pub set-split :
      (xs : List A) (i : ℕ) (x : A)
      → get_elem? xs i ≡ some x
      → (before : List A) × (after : List A) × (xs ≡ before ++ x ∷ after)
        × ((v : A) → set xs i v ≡ before ++ v ∷ after)
  set-split [] i x e = cc
  set-split (y ∷ xs) zero x e = ([], xs, ground arith, λ v. refl)
  set-split (y ∷ xs) (suc i) x e =
      let (before, after, p, q) = set-split xs i x e in
      (y ∷ before, after, ap (◌∷◌ y) p, λ v. ap (◌∷◌ y) (q v))

  pub length-split :
      (xs : List A) (y : A) (ys : List A) → length (xs ++ y ∷ ys) ≡ suc (length xs + length ys)
  length-split [] y ys = omega arith
  length-split (x ∷ xs) y ys = omega (arith, length-split xs y ys)

  unfoldable pub total : (A → ℕ) → List A → ℕ
  total w [] = 0
  total w (x ∷ xs) = w x + total w xs

  pub total-append : (w : A → ℕ) (xs ys : List A) → total w (xs ++ ys) ≡ total w xs + total w ys
  unfolding total
  total-append w [] ys = omega arith
  total-append w (x ∷ xs) ys = omega (arith, total-append w xs ys)

  -- The sum, around one element.
  pub total-split :
      (w : A → ℕ) (xs : List A) (y : A) (ys : List A)
      → total w (xs ++ y ∷ ys) ≡ w y + (total w xs + total w ys)
  unfolding total
  total-split w xs y ys = omega (arith, total-append w xs (y ∷ ys))

  -- What writing one element does to the sum.
  pub total-set :
      (w : A → ℕ) (xs : List A) (i : ℕ) (x v : A)
      → get_elem? xs i ≡ some x
      → total w (set xs i v) + w x ≡ total w xs + w v
  unfolding total
  total-set w [] i x v e = cc
  total-set w (y ∷ xs) zero x v e = ground arith
  total-set w (y ∷ xs) (suc i) x v e = omega (arith, total-set w xs i x v e)

  pub get_elem?-set_self :
      (xs : List A) (i : ℕ) (x v : A) → get_elem? xs i ≡ some x → get_elem? (set xs i v) i ≡ some v
  get_elem?-set_self [] i x v e = cc
  get_elem?-set_self (y ∷ xs) zero x v e = refl
  get_elem?-set_self (y ∷ xs) (suc i) x v e = get_elem?-set_self xs i x v e

  pub le-total :
      (w : A → ℕ) (xs : List A) (i : ℕ) (x : A) → get_elem? xs i ≡ some x → w x ≤ total w xs
  unfolding total
  le-total w [] i x e = cc
  le-total w (y ∷ xs) zero x e = ground arith
  le-total w (y ∷ xs) (suc i) x e = omega (arith, le-total w xs i x e)

  -- Two elements at different numbers are both counted.
  pub add-le-total :
      (w : A → ℕ) (xs : List A) (i j : ℕ) (x y : A)
      → i ≢ j
      → get_elem? xs i ≡ some x
      → get_elem? xs j ≡ some y
      → w x + w y ≤ total w xs
  unfolding total
  add-le-total w [] i j x y h p q = cc
  add-le-total w (z ∷ xs) zero zero x y h p q = absurd (h refl)
  add-le-total w (z ∷ xs) zero (suc j) x y h p q = ground (arith, le-total w xs j y q)
  add-le-total w (z ∷ xs) (suc i) zero x y h p q = ground (arith, le-total w xs i x p)
  add-le-total w (z ∷ xs) (suc i) (suc j) x y h p q =
      omega (arith, add-le-total w xs i j x y (λ e. h (ap suc e)) p q)

  -- A bound on the sum.
  pub total-le_length :
      (w : A → ℕ) (k : ℕ) → ((x : A) → w x ≤ k) → (xs : List A) → total w xs ≤ length xs * k
  unfolding total
  total-le_length w k h [] = omega arith
  total-le_length w k h (x ∷ xs) = grind (arith, total-le_length w k h xs, h x)

  -- A bound on the sum of one weight by that of another.
  pub total_mono : (v w : A → ℕ) → ((x : A) → v x ≤ w x) → (xs : List A) → total v xs ≤ total w xs
  unfolding total
  total_mono v w h [] = omega arith
  total_mono v w h (x ∷ xs) = omega (arith, total_mono v w h xs, h x)

-- A weight that is 0 on every new task sums to 0.
pub total-map_zero :
    {A B : Type 0} (w : A → ℕ) (f : B → A)
    → ((b : B) → w (f b) ≡ 0)
    → (bs : List B) → total w (map f bs) ≡ 0
unfolding total
total-map_zero w f h [] = refl
total-map_zero w f h (b ∷ bs) = omega (arith, h b, total-map_zero w f h bs)

pub length-map : {A B : Type 0} (f : B → A) (bs : List B) → length (map f bs) ≡ length bs
length-map f [] = refl
length-map f (b ∷ bs) = ap suc (length-map f bs)

-- Every task has the property.
abbrev pub All {ℓ κ} : {A : Type ℓ} → (A → Type κ) → List A → Type κ
All P [] = Unit
All P (x ∷ xs) = P x × All P xs

pub All-split {ℓ κ} :
    {A : Type ℓ} (P : A → Type κ) (xs : List A) (y : A) (ys : List A)
    → All P (xs ++ y ∷ ys)
    → All P xs × P y × All P ys
All-split P [] y ys h = (tt, h.0, h.1)
All-split P (x ∷ xs) y ys h = let (a, b, c) = All-split P xs y ys h.1 in ((h.0, a), b, c)

pub All-join {ℓ κ} :
    {A : Type ℓ} (P : A → Type κ) (xs : List A) (y : A) (ys : List A)
    → All P xs
    → P y
    → All P ys
    → All P (xs ++ y ∷ ys)
All-join P [] y ys a b c = (b, c)
All-join P (x ∷ xs) y ys a b c = (a.0, All-join P xs y ys a.1 b c)

pub All-mono {ℓ κ μ} :
    {A : Type ℓ} (P : A → Type κ) (Q : A → Type μ)
    → ((x : A) → P x → Q x)
    → (xs : List A) → All P xs
    → All Q xs
All-mono P Q f [] h = tt
All-mono P Q f (x ∷ xs) h = (f x h.0, All-mono P Q f xs h.1)

pub All-map {ℓ κ μ} :
    {A : Type ℓ} {B : Type κ} (P : A → Type μ) (f : B → A)
    → ((b : B) → P (f b))
    → (bs : List B) → All P (map f bs)
All-map P f h [] = tt
All-map P f h (b ∷ bs) = (h b, All-map P f h bs)

pub All-get {ℓ κ} :
    {A : Type ℓ} (P : A → Type κ) (xs : List A) (i : ℕ) (x : A)
    → All P xs
    → get_elem? xs i ≡ some x
    → P x
All-get P [] i x h e = cc
All-get P (y ∷ xs) zero x h e = let f : y ≡ x = cc in subst P f h.0
All-get P (y ∷ xs) (suc i) x h e = All-get P xs i x h.1 e

-- A weight that is 0 on every task with a property sums to 0 where all have it.
pub total-All_zero {ℓ κ} :
    {A : Type ℓ} (P : A → Type κ) (w : A → ℕ)
    → ((x : A) → P x → w x ≡ 0)
    → (xs : List A) → All P xs
    → total w xs ≡ 0
unfolding total
total-All_zero P w h [] a = refl
total-All_zero P w h (x ∷ xs) a = omega (arith, h x a.0, total-All_zero P w h xs a.1)

-- A weight that is 1 on every new task counts them.
pub total-map_one :
    {A B : Type 0} (w : A → ℕ) (f : B → A)
    → ((b : B) → w (f b) ≡ 1)
    → (bs : List B) → total w (map f bs) ≡ length bs
unfolding total
total-map_one w f h [] = refl
total-map_one w f h (b ∷ bs) = omega (arith, h b, total-map_one w f h bs)

pub map-set :
    {A B : Type 0} (f : A → B) (xs : List A) (i : ℕ) (v : A)
    → map f (set xs i v) ≡ set (map f xs) i (f v)
map-set f [] i v = refl
map-set f (x ∷ xs) zero v = refl
map-set f (x ∷ xs) (suc i) v = ap (◌∷◌ (f x)) (map-set f xs i v)

pub get_elem?-map :
    {A B : Type 0} (f : A → B) (xs : List A) (i : ℕ) (x : A)
    → get_elem? xs i ≡ some x
    → get_elem? (map f xs) i ≡ some (f x)
get_elem?-map f [] i x e = cc
get_elem?-map f (y ∷ xs) zero x e = let e' : y ≡ x = cc in ap (λ z. some (f z)) e'
get_elem?-map f (y ∷ xs) (suc i) x e = get_elem?-map f xs i x e

pub set-get_elem? :
    {A : Type 0} (xs : List A) (i : ℕ) (x : A) → get_elem? xs i ≡ some x → set xs i x ≡ xs
set-get_elem? [] i x e = refl
set-get_elem? (y ∷ xs) zero x e = ground arith
set-get_elem? (y ∷ xs) (suc i) x e = ap (◌∷◌ y) (set-get_elem? xs i x e)
