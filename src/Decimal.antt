-- ===== src/Decimal.antt =====
-- Python's `decimal.Decimal` over finite values: an integer coefficient and a number of decimal
-- places. Sums, differences and products are exact, as they are in the default context while
-- the result has at most 28 digits. A quotient is kept as a fraction of natural numbers.
pub mod Order
pub mod Ratio
use Prim.Native.Nat.{max}
use portfolio_project.Prelude.{
  ℕ, zero, ◌+◌, ◌-◌, ◌*◌, ◌^◌, Bool, not, ◌&&◌, List, [], ◌∷◌, leb, ltb, if◌then◌else◌,
}
use portfolio_project.Prelude.Int.{ℤ, pos, pos_part, neg_part, ◌+ℤ◌, ◌-ℤ◌, ◌*ℤ◌, magnitude}

-- The value is `coef` divided by 10 ^ `places`.
pub record Decimal : Type 0 where
  pub coef : ℤ
  pub places : ℕ

abbrev pub decimal : ℕ → ℕ → Decimal
decimal c p = record { coef = pos c; places = p }

abbrev pub zero_decimal : Decimal
zero_decimal = decimal 0 0

abbrev pub one_decimal : Decimal
one_decimal = decimal 1 0

-- Two values are compared over a common denominator.
unfoldable pub leb_decimal : Decimal → Decimal → Bool
leb_decimal a b =
    leb (pos_part a.coef * 10 ^ b.places + neg_part b.coef * 10 ^ a.places)
      (pos_part b.coef * 10 ^ a.places + neg_part a.coef * 10 ^ b.places)

unfoldable pub ltb_decimal : Decimal → Decimal → Bool
unfolding leb_decimal
ltb_decimal a b = not (leb_decimal b a)

unfoldable pub eq_decimal : Decimal → Decimal → Bool
unfolding leb_decimal
eq_decimal a b = leb_decimal a b && leb_decimal b a

-- The coefficient of `a` at `p` places, for `p` at least those of `a`.
unfoldable pub align : ℕ → Decimal → ℤ
unfolding ◌*ℤ◌
align p a = a.coef *ℤ pos (10 ^ (p - a.places))

unfoldable pub add : Decimal → Decimal → Decimal
unfolding align ◌+ℤ◌
add a b = let p = max a.places b.places in record { coef = align p a +ℤ align p b; places = p }

unfoldable pub sub : Decimal → Decimal → Decimal
unfolding align ◌-ℤ◌
sub a b = let p = max a.places b.places in record { coef = align p a -ℤ align p b; places = p }

unfoldable pub mul : Decimal → Decimal → Decimal
unfolding ◌*ℤ◌
mul a b = record { coef = a.coef *ℤ b.coef; places = a.places + b.places }

-- Python's `abs`.
unfoldable pub abs : Decimal → Decimal
abs a = record { coef = pos (magnitude a.coef); places = a.places }

-- Python's `max(a, b)`: the first argument when the two are equal.
unfoldable pub max_decimal : Decimal → Decimal → Decimal
unfolding ltb_decimal
max_decimal a b = if ltb_decimal a b then b else a

-- `sum(xs, Decimal("0"))` adds from the left.
unfoldable pub sum_from : Decimal → List Decimal → Decimal
unfolding add
sum_from acc [] = acc
sum_from acc (x ∷ xs) = sum_from (add acc x) xs
