-- ===== src/Listeners.antt =====
-- The listeners of one event that tasks store: each task has one at most, and no two have the same.
pub mod Runs
use async_lock.Base.{
  ℕ, ◌≡◌, ◌≢◌, ◌⊎◌, inl, inr, refl, ap, sym, ◌∙◌, subst, Bool, true, false, Bool-cases, Option,
  none, some, Option-cases, List, arith, ℕ_discrete,
}
use async_lock.Event.{EventOps, IsRegistering}
use async_lock.Tasks.{
  System, run, turn, turn-none, turn-some, get_elem?, set, get_elem?-set_self, get_elem?-set_ne,
}

module _ {Event L : Type 0} (E : EventOps Event L) where
  -- What one step does with the event, and with the listener that its task stores: nothing, its
  -- loss, `listen`, a notification, a poll of the listener, or its drop.
  abbrev pub Uses : Event → Option L → Event → Option L → Type 0
  Uses e o e' o' =
      ((e' ≡ e) × ((o' ≡ o) ⊎ (o' ≡ none)))
      ⊎ (((o ≡ none) × (e' ≡ (E.listen e).0) × (o' ≡ some (E.listen e).1))
          ⊎ (((n : ℕ) × ((e' ≡ E.notify n e) ⊎ (e' ≡ E.notify_additional n e)) × (o' ≡ o))
              ⊎ (((l : L) × (o ≡ some l)
                    × (e' ≡ (E.poll e (some l)).0)
                    × (o' ≡ (E.poll e (some l)).1))
                  ⊎ ((e' ≡ E.drop o e) × (o' ≡ none)))))

module _ {Event L : Type 0} (E : EventOps Event L) (Listening Notified : Event → L → Type 0)
    (R : IsRegistering E Listening Notified) where
  -- The listener is still registered, and notified if it was.
  abbrev Keeps : Event → L → Event → Type 0
  Keeps e l e' = Listening e' l × (Notified e l → Notified e' l)

  drop-Keeps :
      (e : Event) (o : Option L) (l : L) → o ≢ some l → Listening e l → Keeps e l (E.drop o e)
  drop-Keeps e none l d h = subst (Keeps e l) (sym (R.drop_none e)) (h, λ n. n)
  drop-Keeps e (some k) l d h = R.drop_keeps e k l (λ g. d (ap some g)) h

  -- A step of another task.
  pub other-Keeps :
      (e e' : Event) (o o' : Option L) (l : L)
      → Uses E e o e' o'
      → o ≢ some l
      → Listening e l
      → Listening e' l × (Notified e l → Notified e' l)
  other-Keeps e e' o o' l (inl (p, q)) d h = subst (Keeps e l) (sym p) (h, λ n. n)
  other-Keeps e e' o o' l (inr (inl (n, p, q))) d h =
      subst (Keeps e l) (sym p) (R.listen_keeps e l h)
  other-Keeps e e' o o' l (inr (inr (inl (n, inl p, q)))) d h =
      subst (Keeps e l) (sym p) (R.notify_keeps n e l h)
  other-Keeps e e' o o' l (inr (inr (inl (n, inr p, q)))) d h =
      subst (Keeps e l) (sym p) (R.additional_keeps n e l h)
  other-Keeps e e' o o' l (inr (inr (inr (inl (k, f, p, q))))) d h =
      subst (Keeps e l) (sym p) (R.poll_keeps e k l (λ g. d (f ∙ ap some g)) h)
  other-Keeps e e' o o' l (inr (inr (inr (inr (p, q))))) d h =
      subst (Keeps e l) (sym p) (drop-Keeps e o l d h)

  -- A poll leaves the listener or nothing.
  poll-own :
      (e : Event) (k l : L)
      → (E.poll e (some k)).1 ≡ some l
      → Listening e k
      → (k ≡ l) × Listening (E.poll e (some k)).0 l
  poll-own e k l f h = elim (Bool-cases (E.poll e (some k)).2) [
    | inl r ↦ absurd (let g = R.poll_ready e k r in cc)
    | inr u ↦
        let (g, keeps) = R.poll_unready e k u in
        let same : k ≡ l = cc in (same, subst (Listening (E.poll e (some k)).0) same (keeps h))
  ]

  -- The stored listener after a step of its task: the same, or a new one.
  pub own-cases :
      (e e' : Event) (o o' : Option L) (l : L)
      → Uses E e o e' o'
      → o' ≡ some l
      → ((k : L) → o ≡ some k → Listening e k)
      → Listening e' l × ((o ≡ some l) ⊎ ((k : L) → Listening e k → k ≢ l))
  own-cases e e' o o' l (inl (p, inr q)) f h = absurd cc
  own-cases e e' o o' l (inl (p, inl q)) f h =
      (subst (λ x. Listening x l) (sym p) (h l (sym q ∙ f)), inl (sym q ∙ f))
  own-cases e e' o o' l (inr (inl (n, p, q))) f h =
      let new : (E.listen e).1 ≡ l = cc in
      (
        subst (λ x. Listening x l) (sym p) (subst (Listening (E.listen e).0) new (R.listen_new e)),
        inr (λ k heard same. R.listen_fresh e (subst (Listening e) (same ∙ sym new) heard)),
      )
  own-cases e e' o o' l (inr (inr (inl (n, inl p, q)))) f h = (
    subst (λ x. Listening x l) (sym p) (R.notify_keeps n e l (h l (sym q ∙ f))).0,
    inl (sym q ∙ f),
  )
  own-cases e e' o o' l (inr (inr (inl (n, inr p, q)))) f h = (
    subst (λ x. Listening x l) (sym p) (R.additional_keeps n e l (h l (sym q ∙ f))).0,
    inl (sym q ∙ f),
  )
  own-cases e e' o o' l (inr (inr (inr (inl (k, g, p, q))))) f h =
      let (same, heard) = poll-own e k l (sym q ∙ f) (h k g) in
      (subst (λ x. Listening x l) (sym p) heard, inl (g ∙ ap some same))
  own-cases e e' o o' l (inr (inr (inr (inr (p, q))))) f h = absurd cc

  module _ {P : Type 0} (listener : P → Option L) where
    -- Every stored listener is registered, and no two tasks store the same.
    pub record IsTidy (e : Event) (ts : List P) : Type 0 where
      pub registered :
          (i : ℕ) (p : P) (l : L) → get_elem? ts i ≡ some p → listener p ≡ some l → Listening e l
      pub distinct :
          (i j : ℕ) (p q : P) (l : L)
          → get_elem? ts i ≡ some p
          → get_elem? ts j ≡ some q
          → listener p ≡ some l
          → listener q ≡ some l
          → i ≡ j

    -- The task that takes the step, or another.
    set-cases :
        (ts : List P) (i j : ℕ) (p q r : P)
        → get_elem? ts j ≡ some p
        → get_elem? (set ts j q) i ≡ some r
        → ((i ≡ j) × (q ≡ r)) ⊎ ((i ≢ j) × (get_elem? ts i ≡ some r))
    set-cases ts i j p q r e f = elim (ℕ_discrete i j) [
      | yes d ↦
          let at_j = subst (λ m. get_elem? (set ts j q) m ≡ some r) d f in
          let same = get_elem?-set_self ts j p q e in inl (d, cc)
      | no d ↦ inr (d, sym (get_elem?-set_ne ts i j q d) ∙ f)
    ]

    pub set-IsTidy :
        (e e' : Event) (ts : List P) (j : ℕ) (p q : P)
        → get_elem? ts j ≡ some p
        → IsTidy e ts
        → Uses E e (listener p) e' (listener q)
        → IsTidy e' (set ts j q)
    set-IsTidy e e' ts j p q at_j tidy u =
        let own = λ (l : L) (f : listener q ≡ some l).
          own-cases e e' (listener p) (listener q) l u f (λ k. tidy.registered j p k at_j) in
        let meets =
          λ (k : ℕ) (r : P) (l : L) (f : get_elem? ts k ≡ some r) (g : listener q ≡ some l)
              (h : listener r ≡ some l).
            elim (own l g).1 as (λ _. j ≡ k) [
              | inl same ↦ tidy.distinct j k p r l at_j f same h
              | inr fresh ↦ absurd (fresh l (tidy.registered k r l f h) refl)
            ] in
        record {
          registered = λ i r l f g. elim (set-cases ts i j p q r at_j f) [
            | inl (_, same) ↦ (own l (ap listener same ∙ g)).0
            | inr (d, at_i) ↦
                (other-Keeps e e' (listener p) (listener q) l u
                  (λ h. d (tidy.distinct i j r p l at_i at_j g h)) (tidy.registered i r l at_i g)).0
          ];
          distinct = λ i k r t l f g x z. elim (set-cases ts i j p q r at_j f) [
            | inl (a, same) ↦ elim (set-cases ts k j p q t at_j g) [
              | inl (b, _) ↦ a ∙ sym b
              | inr (_, at_k) ↦ a ∙ meets k t l at_k (ap listener same ∙ x) z
            ]
            | inr (_, at_i) ↦ elim (set-cases ts k j p q t at_j g) [
              | inl (b, same) ↦ sym (meets i r l at_i (ap listener same ∙ z) x) ∙ sym b
              | inr (_, at_k) ↦ tidy.distinct i k r t l at_i at_k x z
            ]
          ];
        }

    module _ {S : Type 0} (event : S → Event) (Good : S → List P → P → Type 0) where
      -- Whoever stores a listener is in a good place, or the listener is notified.
      abbrev pub Heard : S → List P → Type 0
      Heard s ts =
          (i : ℕ) (p : P) (l : L)
          → get_elem? ts i ≡ some p
          → listener p ≡ some l
          → Good s ts p ⊎ Notified (event s) l

      pub set-Heard :
          (s s' : S) (ts : List P) (j : ℕ) (p q : P)
          → get_elem? ts j ≡ some p
          → IsTidy (event s) ts
          → Uses E (event s) (listener p) (event s') (listener q)
          → ((r : P) (l : L)
              → Good s ts r
              → Listening (event s) l
              → Good s' (set ts j q) r ⊎ Notified (event s') l)
          → ((l : L)
              → listener q ≡ some l
              → (listener p ≡ some l → Good s ts p ⊎ Notified (event s) l)
              → Good s' (set ts j q) q ⊎ Notified (event s') l)
          → Heard s ts
          → Heard s' (set ts j q)
      set-Heard s s' ts j p q at_j tidy u others own heard i r l f g =
          elim (set-cases ts i j p q r at_j f) [
            | inl (_, same) ↦
                subst (λ x. Good s' (set ts j q) x ⊎ Notified (event s') l) same
                  (own l (ap listener same ∙ g) (heard j p l at_j))
            | inr (d, at_i) ↦
                let registered = tidy.registered i r l at_i g in
                elim (heard i r l at_i g) [
                  | inl good ↦ others r l good registered
                  | inr told ↦ inr (
                      (other-Keeps (event s) (event s') (listener p) (listener q) l u
                          (λ h. d (tidy.distinct i j r p l at_i at_j g h)) registered).1
                        told)
                ]
          ]
