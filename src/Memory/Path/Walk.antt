-- ===== src/Memory/Path/Walk.antt =====
-- The walk of src/vcse/memory/world_state.py's `dependency_path_for_claim` returns, and collects
-- exactly the claims that the given one rests on.
use vcse.Prelude.{
  ℕ, zero, suc, ◌<◌, String, false, ◌≡◌, ◌≢◌, refl, sym, ap, ◌∙◌, ◌⊎◌, inl, inr, Option, none, some,
  List, [], ◌∷◌, ◌++◌, arith, contains, string_eq, All, Member, here, there, Bool-cases,
  Option-cases, eq_cases, some_eq, subst,
}
use text.Mathlib.TextEquality.{eq_iff}
use vcse.Dict.{Dict, get}
use vcse.Memory.Model.{Claim}
use vcse.Memory.Path.{Visit, mark, visit_each, visit}
use vcse.Memory.Path.Unseen.{In, contains-append, unseen, unseen-le, unseen-mark}

-- `x` is a claim that `id` rests on: itself, or one that a dependency rests on.
pub data RestsOn (claims : Dict String Claim) (x : String) : String → Type 0 where
  itself : (id : String) (c : Claim) → id ≡ x → get claims id ≡ some c → RestsOn claims x id
  through :
      (id d : String) (c : Claim)
      → get claims id ≡ some c
      → Member d c.dependencies
      → RestsOn claims x d
      → RestsOn claims x id

pub record Visited (claims : Dict String Claim) (ids : List String) (v v' : Visit) : Type 0 where
  pub grows : (x : String) → In x v.seen → In x v'.seen
  pub keeps : (x : String) → In x v.ordered → In x v'.ordered
  pub reached : All (λ d. In d v'.seen) ids
  -- What was marked on the way is listed, with all of its dependencies marked.
  pub done :
      (x : String) (c : Claim)
      → In x v'.seen
      → contains x v.seen ≡ false
      → get claims x ≡ some c
      → In x v'.ordered × All (λ d. In d v'.seen) c.dependencies
  pub sound :
      (x : String)
      → In x v'.ordered
      → In x v.ordered ⊎ ((d : String) × Member d ids × RestsOn claims x d)

All-map {ℓ κ μ} :
    {A : Type ℓ} {P : A → Type κ} {Q : A → Type μ} (xs : List A)
    → ((a : A) → P a → Q a)
    → All P xs
    → All Q xs
All-map [] f h = tt
All-map (x ∷ xs) f h = (f x h.0, All-map xs f h.1)

module _ (fuel : ℕ) (claims : Dict String Claim) (id : String) (v : Visit) where
  visit_seen : In id v.seen → visit (suc fuel) claims id v ≡ some v
  unfolding visit
  visit_seen e = rw (e, visit)

  module _ (new : contains id v.seen ≡ false) where
    visit_absent : get claims id ≡ none → visit (suc fuel) claims id v ≡ some (mark id v)
    unfolding visit
    visit_absent absent = rw (new, visit) (rw absent)

    visit_entered :
        (c : Claim)
        → get claims id ≡ some c
        → (u : Visit) → visit_each (visit fuel claims) c.dependencies (mark id v) ≡ some u
        → visit (suc fuel) claims id v ≡ some (record u { ordered = u.ordered ++ id ∷ [] })
    unfolding visit
    visit_entered c stored u e = rw (new, visit) (rw (stored, e))

module _ (claims : Dict String Claim) where
  Visited-none : (v : Visit) → Visited claims [] v v
  Visited-none v = record {
    grows = λ x h. h;
    keeps = λ x h. h;
    reached = tt;
    done = λ x c h n g. cc;
    sound = λ x h. inl h;
  }

  Visited-cons :
      (d : String) (ds : List String) (u v w : Visit)
      → Visited claims (d ∷ []) u v
      → Visited claims ds v w
      → Visited claims (d ∷ ds) u w
  Visited-cons d ds u v w a b = record {
    grows = λ x h. b.grows x (a.grows x h);
    keeps = λ x h. b.keeps x (a.keeps x h);
    reached = (b.grows d a.reached.0, b.reached);
    done = λ x c h n g. elim (Bool-cases (contains x v.seen)) [
      | inl early ↦
          let (listed, marked) = a.done x c early n g in
          (b.keeps x listed, All-map c.dependencies b.grows marked)
      | inr late ↦ b.done x c h late g
    ];
    sound = λ x h. elim (b.sound x h) [
      | inl before ↦ elim (a.sound x before) [
        | inl first ↦ inl first
        | inr (e, here y ys same, r) ↦ inr (e, here d ds same, r)
        | inr (e, there y ys more, r) ↦ elim more [ ]
      ]
      | inr (e, m, r) ↦ inr (e, there d ds m, r)
    ];
  }

  abbrev pub Total : (String → Visit → Option Visit) → ℕ → Type 0
  Total go n =
      (id : String) (v : Visit)
      → unseen claims v.seen < n
      → (v' : Visit) × (go id v ≡ some v') × Visited claims (id ∷ []) v v'

  each_terminates :
      (go : String → Visit → Option Visit) (n : ℕ)
      → Total go n
      → (ds : List String) (v : Visit) → unseen claims v.seen < n
      → (v' : Visit) × (visit_each go ds v ≡ some v') × Visited claims ds v v'
  unfolding visit_each
  each_terminates go n t [] v h = (v, refl, Visited-none v)
  each_terminates go n t (d ∷ ds) v h =
      let (v', e, a) = t d v h in
      let (v2, e2, b) =
        each_terminates go n t ds v' (omega (arith, unseen-le claims v.seen v'.seen a.grows)) in
      (v2, rw (e, visit_each) e2, Visited-cons d ds v v' v2 a b)

  module _ (id : String) (v : Visit) where
    Visited-seen : In id v.seen → Visited claims (id ∷ []) v v
    Visited-seen h = record {
      grows = λ x k. k;
      keeps = λ x k. k;
      reached = (h, tt);
      done = λ x c k n g. cc;
      sound = λ x k. inl k;
    }

    In-mark : (x : String) → In x (id ∷ v.seen) → contains x v.seen ≡ false → id ≡ x
    unfolding contains
    In-mark x h n = ground (arith, eq_iff id x)

    Visited-absent : get claims id ≡ none → Visited claims (id ∷ []) v (mark id v)
    unfolding contains
    Visited-absent absent = record {
      grows = λ x k. ground arith;
      keeps = λ x k. k;
      reached = (ground (arith, eq_iff id id), tt);
      done = λ x c k n g. cc (In-mark x k n, absent, g);
      sound = λ x k. inl k;
    }

    module _ (c : Claim) (here' : get claims id ≡ some c) (u : Visit)
        (a : Visited claims c.dependencies (mark id v) u) where
      abbrev closed : Visit
      closed = record u { ordered = u.ordered ++ id ∷ [] }

      In-closed : (x : String) → In x closed.ordered → In x u.ordered ⊎ (id ≡ x)
      unfolding contains
      In-closed x h = ground (arith, contains-append x u.ordered (id ∷ []), eq_iff id x)

      In-closed_left : (x : String) → In x u.ordered → In x closed.ordered
      In-closed_left x h = ground (arith, contains-append x u.ordered (id ∷ []))

      In-closed_self : In id closed.ordered
      unfolding contains
      In-closed_self = ground (arith, contains-append id u.ordered (id ∷ []), eq_iff id id)

      marked_self : In id (id ∷ v.seen)
      unfolding contains
      marked_self = ground (arith, eq_iff id id)

      marked_old : (x : String) → In x v.seen → In x (id ∷ v.seen)
      unfolding contains
      marked_old x h = ground arith

      not-marked :
          (x : String) → id ≢ x → contains x v.seen ≡ false → contains x (id ∷ v.seen) ≡ false
      unfolding contains
      not-marked x ne h = ground (arith, eq_iff id x)

      Visited-entered : Visited claims (id ∷ []) v closed
      Visited-entered = record {
        grows = λ x k. a.grows x (marked_old x k);
        keeps = λ x k. In-closed_left x (a.keeps x k);
        reached = (a.grows id marked_self, tt);
        done = λ x b k n g. elim (eq_cases id x) [
          | inl same ↦
              let e : c ≡ b = some_eq (sym here' ∙ ap (get claims) same ∙ g) in
              (
                subst (λ y. In y closed.ordered) same In-closed_self,
                subst (λ (b : Claim). All (λ d. In d u.seen) b.dependencies) e a.reached,
              )
          | inr ne ↦
              let (listed, marked) = a.done x b k (not-marked x ne n) g in
              (In-closed_left x listed, marked)
        ];
        sound = λ x k. elim (In-closed x k) [
          | inl before ↦ elim (a.sound x before) [
            | inl first ↦ inl first
            | inr (d, m, r) ↦ inr (id, here id [] refl, through id d c here' m r)
          ]
          | inr same ↦ inr (id, here id [] refl, itself id c same here')
        ];
      }

  pub visit_terminates : (fuel : ℕ) → Total (visit fuel claims) fuel
  visit_terminates zero id v h = absurd (omega arith)
  visit_terminates (suc fuel) id v h = elim (Bool-cases (contains id v.seen)) [
    | inl marked ↦ (v, visit_seen fuel claims id v marked, Visited-seen id v marked)
    | inr new ↦ elim (Option-cases (get claims id)) [
      | inl absent ↦
          (mark id v, visit_absent fuel claims id v new absent, Visited-absent id v absent)
      | inr (c, stored) ↦
          let (u, e, a) =
            each_terminates (visit fuel claims) fuel (visit_terminates fuel) c.dependencies
              (mark id v) (omega (arith, unseen-mark claims v.seen id c stored new)) in
          (
            closed id v c stored u a,
            visit_entered fuel claims id v new c stored u e,
            Visited-entered id v c stored u a,
          )
    ]
  ]
