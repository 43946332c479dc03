-- ===== src/Interner.antt =====
-- `Interner` of src/vcse/compression/interner.py.
pub mod Laws
use vcse.Prelude.{ℕ, String, Option, none, some, List, [], ◌≡◌, length, string_eq, nat_eq, Bool}
use vcse.Dict.{Dict, get, set, has}

pub record Interner : Type 0 where
  pub s2i : Dict String ℕ
  pub i2s : Dict ℕ String

abbrev pub empty_interner : Interner
empty_interner = record { s2i = []; i2s = [] }

-- `intern` from its test on
unfoldable pub intern_at : Interner → String → Option ℕ → Interner × ℕ
intern_at t value (some id) = (t, id)
intern_at t value none =
    let next_id = length t.s2i in
    (record { s2i = set t.s2i value next_id; i2s = set t.i2s next_id value }, next_id)

unfoldable pub intern : Interner → String → Interner × ℕ
unfolding intern_at
intern t value = intern_at t value (get t.s2i value)

-- `resolve`; `none` is the InterningError.
unfoldable pub resolve : Interner → ℕ → Option String
resolve t id = get t.i2s id

-- `contains` and `size`
unfoldable pub is_interned : Interner → String → Bool
is_interned t value = has t.s2i value

unfoldable pub size : Interner → ℕ
size t = length t.s2i
