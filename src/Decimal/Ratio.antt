-- ===== src/Decimal/Ratio.antt =====
-- Quotients of decimals as fractions of natural numbers, ordered by cross multiplication.
use portfolio_project.Prelude.{ℕ, ◌*◌, Bool, List, [], ◌∷◌, ltb, if◌then◌else◌}

-- The value is `num` divided by `den`.
pub record Ratio : Type 0 where
  pub num : ℕ
  pub den : ℕ

abbrev pub zero_ratio : Ratio
zero_ratio = record { num = 0; den = 1 }

abbrev pub one_ratio : Ratio
one_ratio = record { num = 1; den = 1 }

unfoldable pub ltb_ratio : Ratio → Ratio → Bool
ltb_ratio a b = ltb (a.num * b.den) (b.num * a.den)

-- Python's `min(a, b)`: the first argument when the two are equal.
unfoldable pub min_ratio : Ratio → Ratio → Ratio
unfolding ltb_ratio
min_ratio a b = if ltb_ratio b a then b else a

-- Python's `max` of a list that is not empty keeps the first of the largest values.
unfoldable pub max_from : Ratio → List Ratio → Ratio
unfolding ltb_ratio
max_from best [] = best
max_from best (r ∷ rs) = max_from (if ltb_ratio best r then r else best) rs

-- `max(rs, default=Decimal("0"))`.
unfoldable pub max_ratio : List Ratio → Ratio
unfolding max_from
max_ratio [] = zero_ratio
max_ratio (r ∷ rs) = max_from r rs
