-- ===== src/Dict/Laws.antt =====
-- The laws of dictionaries by which clients reason.
use vcse.Prelude.{
  none, some, [], ◌∷◌, ◌++◌, ◌≡◌, ◌≢◌, ◌⊎◌, refl, arith, Eq, subst, some_eq, ◌==◌, if◌then◌else◌,
  All, Bool-cases, inl, inr,
}
use vcse.Dict.{Dict, get, set, values}

module _ {ℓ κ} {K : Type ℓ} {V : Type κ} ⦃e : Eq K⦄ where
  pub get-set :
      (d : Dict K V) (k j : K) (v : V) → get (set d k v) j ≡ (if k == j then some v else get d j)
  unfolding get set
  get-set [] k j v = refl
  get-set ((i, w) ∷ d) k j v =
      ground (arith, e.beq_iff i k, e.beq_iff i j, e.beq_iff k j, get-set d k j v)

  pub get-set_self : (d : Dict K V) (k : K) (v : V) → get (set d k v) k ≡ some v
  get-set_self d k v = ground (arith, get-set d k k v, e.beq_iff k k)

  pub get-set_ne : (d : Dict K V) (k j : K) (v : V) → k ≢ j → get (set d k v) j ≡ get d j
  get-set_ne d k j v h = ground (arith, get-set d k j v, e.beq_iff k j)

  -- What is read after an assignment was assigned, or was there before under another key.
  pub get-set_cases :
      (d : Dict K V) (k j : K) (v x : V)
      → get (set d k v) j ≡ some x
      → ((k ≡ j) × (v ≡ x)) ⊎ ((k ≢ j) × (get d j ≡ some x))
  get-set_cases d k j v x h = elim (Bool-cases (k == j)) [
    | inl same ↦ inl ((e.beq_iff k j).0 same, ground (arith, get-set d k j v))
    | inr other ↦ inr (λ eq. cc ((e.beq_iff k j).1 eq, other), ground (arith, get-set d k j v))
  ]

  -- A new key goes to the end.
  pub set-append : (d : Dict K V) (k : K) (v : V) → get d k ≡ none → set d k v ≡ d ++ (k, v) ∷ []
  unfolding get set
  set-append [] k v h = refl
  set-append ((i, w) ∷ d) k v h = ground (arith, set-append d k v)

  -- What holds of every stored value and of the new one holds after an assignment.
  pub values-set-All {μ} :
      (P : V → Type μ) (d : Dict K V) (k : K) (v : V)
      → All P (values d)
      → P v
      → All P (values (set d k v))
  unfolding set
  values-set-All P [] k v h p = (p, tt)
  values-set-All P ((i, w) ∷ d) k v h p = elim (Bool-cases (i == k)) [
    | inl same ↦ rw (same, All) (p, h.1)
    | inr other ↦ rw (other, All) (h.0, values-set-All P d k v h.1 p)
  ]

  pub get-All {μ} :
      (P : V → Type μ) (d : Dict K V) (k : K) (v : V) → All P (values d) → get d k ≡ some v → P v
  unfolding get
  get-All P [] k v h g = cc
  get-All P ((i, w) ∷ d) k v h g = elim (Bool-cases (i == k)) [
    | inl same ↦ subst P (some_eq (rw same at g)) h.0
    | inr other ↦ get-All P d k v h.1 (rw other at g)
  ]
