-- ===== src/Memory/Path/Correct.antt =====
-- What `dependency_path_for_claim` and `proof_trace_for_claim` of src/vcse/memory/world_state.py
-- promise.
use vcse.Prelude.{
  ◌+◌, String, ◌≡◌, sym, ◌↔◌, inl, inr, some, List, [], ◌∷◌, arith, string_eq, length, All, Member,
  here, there, subst,
}
use vcse.Dict.{Dict}
use vcse.Memory.Model.{State, Claim}
use vcse.Memory.Path.{Visit, walk, fresh_visit, dependency_path_for_claim}
use vcse.Memory.Path.Unseen.{In, In_nil, unseen-length}
use vcse.Memory.Path.Walk.{RestsOn, itself, through, Visited, visit_terminates}

-- The fuel suffices for every claim table, cyclic dependencies included.
pub walk_total :
    (claims : Dict String Claim) (id : String)
    → (v : Visit) × (walk claims id ≡ some v) × Visited claims (id ∷ []) fresh_visit v
unfolding walk
walk_total claims id =
    visit_terminates claims (length claims + 1) id fresh_visit
      (omega (arith, unseen-length claims []))

All-Member {ℓ κ} :
    {A : Type ℓ} (P : A → Type κ) (x : A) (xs : List A) → All P xs → Member x xs → P x
All-Member P x _ h (here y ys e) = subst P e h.0
All-Member P x _ h (there y ys m) = All-Member P x ys h.1 m

module _ (claims : Dict String Claim) (id : String) (v : Visit)
    (a : Visited claims (id ∷ []) fresh_visit v) where
  complete : (x i : String) → In i v.seen → RestsOn claims x i → In x v.ordered
  complete x i h (itself j c same stored) =
      subst (λ y. In y v.ordered) same (a.done j c h (In_nil j) stored).0
  complete x i h (through j d c stored m r) =
      complete x d
        (All-Member (λ d. In d v.seen) d c.dependencies (a.done j c h (In_nil j) stored).1 m) r

  sound : (x : String) → In x v.ordered → RestsOn claims x id
  sound x h = elim (a.sound x h) [
    | inl before ↦ cc (In_nil x, before)
    | inr (d, here y ys same, r) ↦ subst (RestsOn claims x) (sym same) r
    | inr (d, there y ys more, r) ↦ elim more [ ]
  ]

-- The dependency path of an id holds exactly the claims that the id rests on: a text stands on it
-- if and only if it names a stored claim that is the given one or that one of its dependencies,
-- followed through stored claims, rests on.
pub dependency_path_iff :
    (s : State) (id x : String) → In x (dependency_path_for_claim s id) ↔ RestsOn s.claims x id
unfolding dependency_path_for_claim
dependency_path_iff s id x =
    let (v, e, a) = walk_total s.claims id in
    rw e ((λ h. sound s.claims id v a x h), (λ r. complete s.claims id v a x id a.reached.0 r))
