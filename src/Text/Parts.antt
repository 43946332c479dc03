-- ===== src/Text/Parts.antt =====
-- Python's `split(sep)` and `join` with a separator of one character, `in` for a character,
-- `startswith` and the order of texts.
use Prim.Native.Char.{Char}
use Prim.Native.Nat.{Ordering}
use Prim.Native.String.{compare, [] as nil, ◌∷◌ as cons, ◌++◌}
use vcse.Prelude.{
  ℕ, zero, suc, String, Bool, true, false, ◌&&◌, Option, none, some, List, [], ◌∷◌, ◌==◌, string_eq,
  if◌then◌else◌,
}

abbrev same_char : Char → Char → Bool
same_char c d = cons c nil == cons d nil

abbrev put_first : Char → List String → List String
put_first c [] = cons c nil ∷ []
put_first c (w ∷ ws) = cons c w ∷ ws

-- `s.split(sep)`
unfoldable pub split_on : Char → String → List String
split_on sep nil = nil ∷ []
split_on sep (cons c s) =
    let rest = split_on sep s in if same_char c sep then nil ∷ rest else put_first c rest

-- `sep.join(words)`
unfoldable pub join_with : Char → List String → String
join_with sep [] = nil
join_with sep (w ∷ []) = w
join_with sep (w ∷ v ∷ ws) = w ++ cons sep (join_with sep (v ∷ ws))

-- `s.split(sep, 1)`, where `sep` is in `s`
unfoldable pub split_once : Char → String → Option (String × String)
split_once sep nil = none
split_once sep (cons c s) =
    let rest = split_once sep s in
    if same_char c sep
    then some (nil, s)
    else elim rest [ none ↦ none | some (a, b) ↦ some (cons c a, b) ]

-- `s.startswith(prefix)`
unfoldable pub starts_with : (prefix s : String) → Bool
starts_with nil s = true
starts_with (cons c p) nil = false
starts_with (cons c p) (cons d s) = same_char c d && starts_with p s

-- `s[n:]`
unfoldable pub drop_chars : ℕ → String → String
drop_chars zero s = s
drop_chars (suc n) nil = nil
drop_chars (suc n) (cons c s) = drop_chars n s

-- `a < b`
unfoldable pub str_lt : String → String → Bool
str_lt a b = elim (compare a b) [ Ordering.lt ↦ true | _ ↦ false ]
