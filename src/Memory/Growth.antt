-- ===== src/Memory/Growth.antt =====
-- `record_contradiction` of src/vcse/memory/world_state.py only adds to the recorded contradictions.
use text.Mathlib.TextEquality.{eq_iff}
use vcse.Prelude.{
  string_eq, String, Bool, true, false, ◌≡◌, refl, sym, ap, ◌∙◌, append-nil, append_assoc, ◌++◌,
  some, List, [], ◌∷◌, ◌==◌, if◌then◌else◌,
}
use vcse.Dict.{Dict, get}
use vcse.Dict.Laws.{get-set}
use vcse.Memory.Model.{Contradiction}
use vcse.Memory.{or_nil, append_contradiction, append_all}

-- Under each element id, the contradictions of `d` stand first among those of `e`.
abbrev pub Grows : Dict String (List Contradiction) → Dict String (List Contradiction) → Type 0
Grows d e =
    (id : String) → (extra : List Contradiction) × (or_nil (get e id) ≡ or_nil (get d id) ++ extra)

append_contradiction-Grows :
    (d : Dict String (List Contradiction)) (item : String) (c : Contradiction)
    → Grows d (append_contradiction d item c)
unfolding append_contradiction
append_contradiction-Grows d item c id =
    let (extra, e) = by_key (item == id) refl in
    (extra, ap or_nil (get-set d item id (or_nil (get d item) ++ c ∷ [])) ∙ e)
  where
    by_key :
        (b : Bool)
        → (item == id) ≡ b
        → (extra : List Contradiction) × (or_nil
              (if b then some (or_nil (get d item) ++ c ∷ []) else get d id)
            ≡ or_nil (get d id) ++ extra)
    by_key true e = (c ∷ [], ap (λ k. or_nil (get d k) ++ c ∷ []) ((eq_iff item id).0 e))
    by_key false e = ([], sym (append-nil (or_nil (get d id))))

pub Grows-trans : (d e f : Dict String (List Contradiction)) → Grows d e → Grows e f → Grows d f
Grows-trans d e f h k id =
    let (xs, p) = h id in
    let (ys, q) = k id in
    (xs ++ ys, q ∙ ap (λ zs. zs ++ ys) p ∙ append_assoc (or_nil (get d id)) xs ys)

pub append_all-Grows :
    (d : Dict String (List Contradiction)) (items : List String) (c : Contradiction)
    → Grows d (append_all d items c)
unfolding append_all
append_all-Grows d [] c = λ id. ([], sym (append-nil (or_nil (get d id))))
append_all-Grows d (item ∷ items) c =
    Grows-trans d (append_contradiction d item c)
      (append_all (append_contradiction d item c) items c) (append_contradiction-Grows d item c)
      (append_all-Grows (append_contradiction d item c) items c)
