-- ===== src/Float.antt =====
-- The floating-point numbers that the program computes with, taken as a parameter. The laws are
-- those of IEEE 754 arithmetic on numbers that are not NaN: rounding is monotone, so the operations
-- are, and the operations named below are exact at 0 and 1.
pub mod Order
pub mod Fixed
use portfolio_project.Prelude.{ℕ, ◌≡◌, ◌⊎◌, Bool, true, List, [], All, not, if◌then◌else◌}
use portfolio_project.Decimal.Ratio.{Ratio}

pub record FloatOps : Type 1 where
  pub Float : Type 0
  -- The literal `c * 10 ^ -p`.
  pub literal : ℕ → ℕ → Float
  pub plus : Float → Float → Float
  pub minus : Float → Float → Float
  pub times : Float → Float → Float
  -- Python's `sum` of a list.
  pub total : List Float → Float
  pub leb_float : Float → Float → Bool
  -- `round(x, n)`.
  pub round_to : ℕ → Float → Float
  -- `float` of an exact quotient.
  pub of_ratio : Ratio → Float

module _ (O : FloatOps) where
  open O use {Float, literal, leb_float}

  abbrev pub zero_float : Float
  zero_float = literal 0 0

  abbrev pub one_float : Float
  one_float = literal 1 0

  abbrev pub ltb_float : Float → Float → Bool
  ltb_float a b = not (leb_float b a)

  -- Python's `max(a, b)` and `min(a, b)`: the first argument when the two are equal.
  unfoldable pub max_float : Float → Float → Float
  max_float a b = if ltb_float a b then b else a

  unfoldable pub min_float : Float → Float → Float
  min_float a b = if ltb_float b a then b else a

-- The laws that the proofs rely on.
pub record FloatLaws (O : FloatOps) : Type 0 where
  pub leb_refl : (a : O.Float) → O.leb_float a a ≡ true
  pub leb_trans :
      (a b c : O.Float) → O.leb_float a b ≡ true → O.leb_float b c ≡ true → O.leb_float a c ≡ true
  pub leb_total : (a b : O.Float) → (O.leb_float a b ≡ true) ⊎ (O.leb_float b a ≡ true)
  pub zero_le_one : O.leb_float (zero_float O) (one_float O) ≡ true
  pub plus_mono :
      (a b c d : O.Float)
      → O.leb_float a b ≡ true
      → O.leb_float c d ≡ true
      → O.leb_float (O.plus a c) (O.plus b d) ≡ true
  pub times_mono :
      (k a b : O.Float)
      → O.leb_float (zero_float O) k ≡ true
      → O.leb_float a b ≡ true
      → O.leb_float (O.times k a) (O.times k b) ≡ true
  pub minus_anti :
      (k a b : O.Float) → O.leb_float a b ≡ true → O.leb_float (O.minus k b) (O.minus k a) ≡ true
  pub minus_zero : (a : O.Float) → O.minus a (zero_float O) ≡ a
  pub total_none : O.total [] ≡ zero_float O
  pub total_nonneg :
      (xs : List O.Float)
      → All (λ x. O.leb_float (zero_float O) x ≡ true) xs
      → O.leb_float (zero_float O) (O.total xs) ≡ true
  pub literal_nonneg : (c p : ℕ) → O.leb_float (zero_float O) (O.literal c p) ≡ true
