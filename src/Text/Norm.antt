-- ===== src/Text/Norm.antt =====
-- `_norm` of src/vcse/memory/world_state.py: `" ".join(str(value).strip().split())`, on the text
-- that `str(value)` gives. `strip`, `split` and `join` are Python's, written out over characters.
pub mod Laws
use Prim.Native.Char.{Char, code}
use Prim.Native.String.{[] as nil, ◌∷◌ as cons, ◌++◌}
use vcse.Prelude.{
  ℕ, String, Bool, true, false, ◌&&◌, ◌||◌, ◌≡◌, refl, List, [], ◌∷◌, leb, ◌==◌, nat_eq,
  if◌then◌else◌,
}

-- `str.isspace` of one character
unfoldable pub is_space : Char → Bool
is_space c =
    let n = code c in
    (leb 9 n && leb n 13)
    || (leb 28 n && leb n 32)
    || n == 133
    || n == 160
    || n == 5760
    || (leb 8192 n && leb n 8202)
    || n == 8232
    || n == 8233
    || n == 8239
    || n == 8287
    || n == 12288

abbrev pub is_blank : String → Bool
is_blank nil = true
is_blank (cons c s) = false

unfoldable pub lstrip : String → String
lstrip nil = nil
lstrip (cons c s) = let rest = lstrip s in if is_space c then rest else cons c s

unfoldable pub rstrip : String → String
rstrip nil = nil
rstrip (cons c s) = let rest = rstrip s in if is_space c && is_blank rest then nil else cons c rest

-- `s.strip()`
unfoldable pub strip : String → String
unfolding lstrip rstrip
strip s = rstrip (lstrip s)

abbrev pub put_word : String → List String → List String
put_word nil ws = ws
put_word (cons c w) ws = cons c w ∷ ws

-- `s.split()`: `word` is the word that is being read.
unfoldable pub split_from : String → String → List String
split_from word nil = put_word word []
split_from word (cons c s) = elim (is_space c) [
  | true ↦ put_word word (split_from nil s)
  | false ↦ split_from (word ++ cons c nil) s
]

pub split_from-blank :
    (w : String) (c : Char) (s : String)
    → is_space c ≡ true
    → split_from w (cons c s) ≡ put_word w (split_from nil s)
unfolding split_from
split_from-blank w c s e = rw (e, split_from)

pub split_from-solid :
    (w : String) (c : Char) (s : String)
    → is_space c ≡ false
    → split_from w (cons c s) ≡ split_from (w ++ cons c nil) s
unfolding split_from
split_from-solid w c s e = rw (e, split_from)

unfoldable pub split : String → List String
unfolding split_from
split s = split_from nil s

-- `" ".join(words)`
unfoldable pub join : List String → String
join [] = nil
join (w ∷ []) = w
join (w ∷ v ∷ ws) = w ++ (" " ++ join (v ∷ ws))

unfoldable pub norm : String → String
unfolding is_space strip split join
norm s = join (split (strip s))

norm_test : norm "  is \t a\n" ≡ "is a"
unfolding norm
norm_test = refl
