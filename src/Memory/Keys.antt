-- ===== src/Memory/Keys.antt =====
-- The canonical keys of claims: `_norm_qualifiers` and `canonical_claim_key` of
-- src/vcse/memory/world_state.py.
use Prim.Native.Nat.{Ordering}
use Prim.Native.String.{compare, then as first_of_both, ◌++◌ as append, [] as nil}
use vcse.Prelude.{
  String, Bool, true, false, ◌&&◌, ◌≡◌, ◌↔◌, arith, Eq, ◌==◌, string_eq, pair_eq, list_eq, List, [],
  ◌∷◌, map, list_beq_iff, if◌then◌else◌,
}
use text.Mathlib.TextEquality.{eq_iff}
use vcse.Dict.{Dict, set}
use vcse.Text.Norm.{norm}

-- f"{a}{b}…"
abbrev pub concat : List String → String
concat [] = nil
concat (s ∷ []) = s
concat (s ∷ t ∷ ts) = append s (concat (t ∷ ts))

-- ", ".join(names)
unfoldable pub join_comma : List String → String
join_comma [] = ""
join_comma (w ∷ []) = w
join_comma (w ∷ v ∷ ws) = concat (w ∷ ", " ∷ join_comma (v ∷ ws) ∷ [])

pub record Key : Type 0 where
  pub subject : String
  pub relation : String
  pub object : String
  pub qualifiers : List (String × String)

unfoldable pub key_beq : Key → Key → Bool
key_beq a b =
    a.subject == b.subject
    && a.relation == b.relation
    && a.object == b.object
    && a.qualifiers == b.qualifiers

pub key_beq_iff : (a b : Key) → (key_beq a b ≡ true) ↔ (a ≡ b)
unfolding key_beq
key_beq_iff a b = ground (
  arith,
  eq_iff a.subject b.subject,
  eq_iff a.relation b.relation,
  eq_iff a.object b.object,
  list_beq_iff a.qualifiers b.qualifiers,
)

instance abbrev pub key_eq : Eq Key
key_eq = record { beq = key_beq; beq_iff = key_beq_iff }

-- The order of pairs of texts, by which `sorted` goes.
abbrev pair_le : String × String → String × String → Bool
pair_le (a, b) (c, d) = elim (first_of_both (compare a c) (compare b d)) [
  | Ordering.gt ↦ false
  | _ ↦ true
]

unfoldable pub insert_sorted : String × String → List (String × String) → List (String × String)
insert_sorted p [] = p ∷ []
insert_sorted p (q ∷ qs) = if pair_le p q then p ∷ q ∷ qs else q ∷ insert_sorted p qs

-- `sorted(pairs)`
unfoldable pub sort_pairs : List (String × String) → List (String × String)
unfolding insert_sorted
sort_pairs [] = []
sort_pairs (p ∷ ps) = insert_sorted p (sort_pairs ps)

-- `_norm_qualifiers`, on the texts of the keys and values
unfoldable pub norm_qualifiers : List (String × String) → List (String × String)
unfolding norm sort_pairs
norm_qualifiers qs = sort_pairs (map (λ (k, v). (norm k, norm v)) qs)

-- `dict(pairs)`: of two pairs with one key the later stays.
unfoldable pub dict_of : Dict String String → List (String × String) → Dict String String
unfolding set
dict_of d [] = d
dict_of d ((k, v) ∷ ps) = dict_of (set d k v) ps

-- `_qualifiers_dict`
unfoldable pub qualifiers_dict : List (String × String) → Dict String String
unfolding norm_qualifiers dict_of
qualifiers_dict qs = dict_of [] (norm_qualifiers qs)

-- `canonical_claim_key`
unfoldable pub canonical_claim_key : String → String → String → List (String × String) → Key
unfolding norm norm_qualifiers
canonical_claim_key s r o qs = record {
  subject = norm s;
  relation = norm r;
  object = norm o;
  qualifiers = norm_qualifiers qs;
}
