-- ===== src/Decimal/Order.antt =====
-- The order of decimals.
use native.Mathlib.Nat.{pow-suc}
use portfolio_project.Prelude.{
  ℕ, zero, suc, ◌+◌, ◌*◌, ◌^◌, ◌≤◌, ◌<◌, ◌≡◌, sym, true, false, inl, inr, arith, leb, leb→le,
  le→leb, leb_false→lt, Bool-cases,
}
use portfolio_project.Prelude.Int.{ℤ, pos_part, neg_part}
use portfolio_project.Decimal.{Decimal, leb_decimal}

pub pow10_pos : (n : ℕ) → 0 < 10 ^ n
pow10_pos zero = omega arith
pow10_pos (suc n) = rw pow-suc (omega (arith, pow10_pos n))

-- A common positive factor can be cancelled.
pub cancel_factor : (k a b : ℕ) → 0 < k → k * a ≤ k * b → a ≤ b
cancel_factor k a b p h = grind arith

pub mul_le : (k a b : ℕ) → a ≤ b → k * a ≤ k * b
mul_le k a b h = grind arith

pub leb_decimal_refl : (a : Decimal) → leb_decimal a a ≡ true
unfolding leb_decimal
leb_decimal_refl a = le→leb _ _ (omega arith)

cross :
    (A B C pa na pb nb pc nc : ℕ)
    → pa * B + nb * A ≤ pb * A + na * B
    → pb * C + nc * B ≤ pc * B + nb * C
    → B * (pa * C + nc * A) ≤ B * (pc * A + na * C)
cross A B C pa na pb nb pc nc h k = omega (
  arith,
  mul_le C (pa * B + nb * A) (pb * A + na * B) h,
  mul_le A (pb * C + nc * B) (pc * B + nb * C) k,
)

pub leb_decimal_trans :
    (a b c : Decimal) → leb_decimal a b ≡ true → leb_decimal b c ≡ true → leb_decimal a c ≡ true
unfolding leb_decimal
leb_decimal_trans a b c h k = le→leb _ _ (
    cancel_factor (10 ^ b.places) _ _ (pow10_pos b.places) (
      cross (10 ^ a.places) (10 ^ b.places) (10 ^ c.places) (pos_part a.coef) (neg_part a.coef)
        (pos_part b.coef) (neg_part b.coef) (pos_part c.coef) (neg_part c.coef) (leb→le _ _ h)
        (leb→le _ _ k)))

pub leb_decimal_total : (a b : Decimal) → leb_decimal a b ≡ false → leb_decimal b a ≡ true
unfolding leb_decimal
leb_decimal_total a b h = ground arith

pub leb_cong : (a b c d : ℕ) → (a ≤ b → c ≤ d) → (c ≤ d → a ≤ b) → leb a b ≡ leb c d
leb_cong a b c d f g = elim (Bool-cases (leb a b)) [
  | inl t ↦ rw t (sym (le→leb c d (f (leb→le a b t))))
  | inr n ↦ elim (Bool-cases (leb c d)) [
    | inl t ↦ absurd (omega (arith, leb_false→lt a b n, g (leb→le c d t)))
    | inr m ↦ rw (n, m)
  ]
]

leb_scale : (k x y z w : ℕ) → 0 < k → leb (x * k + y * k) (z * k + w * k) ≡ leb (x + y) (z + w)
leb_scale k x y z w p =
    leb_cong (x * k + y * k) (z * k + w * k) (x + y) (z + w)
      (λ h. cancel_factor k (x + y) (z + w) p (omega arith))
      (λ h. omega (arith, mul_le k (x + y) (z + w) h))

-- Over the same number of places the coefficients decide.
pub leb_decimal-same_places :
    (c d : ℤ) (p : ℕ)
    → leb_decimal (record { coef = c; places = p }) (record { coef = d; places = p })
      ≡ leb (pos_part c + neg_part d) (pos_part d + neg_part c)
unfolding leb_decimal
leb_decimal-same_places c d p =
    leb_scale (10 ^ p) (pos_part c) (neg_part d) (pos_part d) (neg_part c) (pow10_pos p)
