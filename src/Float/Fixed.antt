-- ===== src/Float/Fixed.antt =====
-- Numbers with six decimal places, which satisfy the laws: the interface can be met.
use portfolio_project.Prelude.{
  ℕ, ◌+◌, ◌-◌, ◌*◌, ◌/◌, ◌^◌, ◌≤◌, refl, List, [], ◌∷◌, arith, leb, leb→le, le→leb,
}
use portfolio_project.Float.{FloatOps, FloatLaws}

abbrev scale : ℕ
scale = 1000000

abbrev sum_all : List ℕ → ℕ
sum_all [] = 0
sum_all (x ∷ xs) = x + sum_all xs

unfoldable pub fixed : FloatOps
fixed = record {
  Float = ℕ;
  literal = λ c p. c * scale / 10 ^ p;
  plus = λ a b. a + b;
  minus = λ a b. a - b;
  times = λ a b. a * b / scale;
  total = sum_all;
  leb_float = leb;
  round_to = λ n a. a;
  of_ratio = λ r. r.num * scale / r.den;
}

times_le : (k a b : ℕ) → a ≤ b → k * a / scale ≤ k * b / scale
times_le k a b h = grind arith

pub fixed_laws : FloatLaws fixed
unfolding fixed
fixed_laws = record {
  leb_refl = λ a. le→leb a a (omega arith);
  leb_trans = λ a b c h k. ground arith;
  leb_total = λ a b. ground arith;
  zero_le_one = refl;
  plus_mono = λ a b c d h k. ground arith;
  times_mono = λ k a b p h. le→leb _ _ (times_le k a b (leb→le a b h));
  minus_anti = λ k a b h. ground arith;
  minus_zero = λ a. omega arith;
  total_none = refl;
  total_nonneg = λ xs h. le→leb 0 _ (omega arith);
  literal_nonneg = λ c p. le→leb 0 _ (omega arith);
}
