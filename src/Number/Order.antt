-- ===== src/Number/Order.antt =====
-- The order of numbers (`int | float` as src/vcse/verifier compares them): what bounds can hold
-- together.
use native.Mathlib.Nat.{
  mul-le-mul_right, mul-lt-mul_of_pos_right, le_of_mul-le-mul_right, lt_of_mul-lt-mul_right,
  pow-suc, pow-zero, add-zero, add-suc,
}
use vcse.Prelude.{ℕ, zero, suc, ◌+◌, ◌*◌, ◌^◌, ◌≤◌, ◌<◌, Bool, true, false, ◌≡◌, ap, arith}
use vcse.Number.{Number, finite, lt, equal, le}

pow_pos : (k : ℕ) → 0 < 2 ^ k
pow_pos zero = rw pow-zero (omega arith)
pow_pos (suc k) = rw pow-suc (omega (arith, pow_pos k))

pow_add : (k l : ℕ) → 2 ^ (k + l) ≡ 2 ^ k * 2 ^ l
pow_add k zero = rw (add-zero, pow-zero) (omega arith)
pow_add k (suc l) =
    rw (add-suc, pow-suc) (rw pow-suc (grind (arith, ap (λ (t : ℕ). t * 2) (pow_add k l))))

-- The cross-multiplied orders of three fractions, with their denominators.
module _ (pl nl a px nx c pu nu b : ℕ) (ha : 0 < a) (hb : 0 < b) (hc : 0 < c) where
  le_le :
      pl * c + nx * a ≤ px * a + nl * c
      → px * b + nu * c ≤ pu * c + nx * b
      → pl * b + nu * a ≤ pu * a + nl * b
  le_le h k =
      le_of_mul-le-mul_right {k = c} (omega (arith, mul-le-mul_right b h, mul-le-mul_right a k)) hc

  lt_le :
      pl * c + nx * a < px * a + nl * c
      → px * b + nu * c ≤ pu * c + nx * b
      → pl * b + nu * a < pu * a + nl * b
  lt_le h k =
      lt_of_mul-lt-mul_right c
        (omega (arith, mul-lt-mul_of_pos_right {k = b} h hb, mul-le-mul_right a k))

  le_lt :
      pl * c + nx * a ≤ px * a + nl * c
      → px * b + nu * c < pu * c + nx * b
      → pl * b + nu * a < pu * a + nl * b
  le_lt h k =
      lt_of_mul-lt-mul_right c
        (omega (arith, mul-le-mul_right b h, mul-lt-mul_of_pos_right {k = a} k ha))

-- Between two bounds: what lies above `l` and below `u` orders them.
pub le-lt-false : (l x u : Number) → le l x ≡ true → le x u ≡ true → lt u l ≡ false
unfolding le lt equal
le-lt-false (finite pl nl k) (finite px nx m) (finite pu nu o) h g =
    ground
      (arith, le_le pl nl (2 ^ k) px nx (2 ^ m) pu nu (2 ^ o) (pow_pos k) (pow_pos o) (pow_pos m))
le-lt-false l x u h g = ground arith

-- A strict bound on one side keeps the two bounds apart.
pub lt-le_apart : (l x u : Number) → lt l x ≡ true → le x u ≡ true → equal l u ≡ false
unfolding le lt equal
lt-le_apart (finite pl nl k) (finite px nx m) (finite pu nu o) h g =
    ground
      (arith, lt_le pl nl (2 ^ k) px nx (2 ^ m) pu nu (2 ^ o) (pow_pos k) (pow_pos o) (pow_pos m))
lt-le_apart l x u h g = ground arith

pub le-lt_apart : (l x u : Number) → le l x ≡ true → lt x u ≡ true → equal l u ≡ false
unfolding le lt equal
le-lt_apart (finite pl nl k) (finite px nx m) (finite pu nu o) h g =
    ground
      (arith, le_lt pl nl (2 ^ k) px nx (2 ^ m) pu nu (2 ^ o) (pow_pos k) (pow_pos o) (pow_pos m))
le-lt_apart l x u h g = ground arith

abbrev pub is_finite : Number → Bool
is_finite (finite p n k) = true
is_finite _ = false

-- (l + u) / 2
pub midpoint : Number → Number → Number
midpoint (finite pl nl k) (finite pu nu o) =
    finite (pl * 2 ^ o + pu * 2 ^ k) (nl * 2 ^ o + nu * 2 ^ k) (suc (k + o))
midpoint l u = l

module _ (pl nl a pu nu b : ℕ) (ha : 0 < a) (hb : 0 < b)
    (h : pl * b + nu * a < pu * a + nl * b) where
  above_lower : pl * (a * b * 2) + (nl * b + nu * a) * a < (pl * b + pu * a) * a + nl * (a * b * 2)
  above_lower = omega (arith, mul-lt-mul_of_pos_right {k = a} h ha)

  below_upper : (pl * b + pu * a) * b + nu * (a * b * 2) < pu * (a * b * 2) + (nl * b + nu * a) * b
  below_upper = omega (arith, mul-lt-mul_of_pos_right {k = b} h hb)

two_pow : (k o : ℕ) → 2 ^ suc (k + o) ≡ 2 ^ k * 2 ^ o * 2
two_pow k o = rw (pow-suc, pow_add)

pub midpoint_between :
    (l u : Number)
    → is_finite l ≡ true
    → is_finite u ≡ true
    → lt l u ≡ true
    → (lt l (midpoint l u) ≡ true) × (lt (midpoint l u) u ≡ true)
unfolding lt midpoint
midpoint_between (finite pl nl k) (finite pu nu o) f g h = (
  ground (arith, two_pow k o, above_lower pl nl (2 ^ k) pu nu (2 ^ o) (pow_pos k) (pow_pos o)),
  ground (arith, two_pow k o, below_upper pl nl (2 ^ k) pu nu (2 ^ o) (pow_pos k) (pow_pos o)),
)
midpoint_between l u f g h = ground arith

pub finite_total :
    (l u : Number)
    → is_finite l ≡ true
    → is_finite u ≡ true
    → lt u l ≡ false
    → equal l u ≡ false
    → lt l u ≡ true
unfolding lt equal
finite_total (finite pl nl k) (finite pu nu o) f g h e = ground arith
finite_total l u f g h e = ground arith

pub equal_refl : (l : Number) → is_finite l ≡ true → equal l l ≡ true
unfolding equal
equal_refl (finite p n k) f = ground arith
equal_refl _ f = ground arith
