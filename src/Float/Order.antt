-- ===== src/Float/Order.antt =====
-- `max` and `min` of floating-point numbers.
use portfolio_project.Prelude.{◌≡◌, true, false, inl, inr, arith, Bool-cases}
use portfolio_project.Float.{FloatOps, FloatLaws, max_float, min_float}

module _ (O : FloatOps) (L : FloatLaws O) where
  open O use {Float, leb_float}

  pub le-max_left : (a b : Float) → leb_float a (max_float O a b) ≡ true
  unfolding max_float
  le-max_left a b = elim (Bool-cases (leb_float b a)) [
    | inl h ↦ rw h (L.leb_refl a)
    | inr h ↦ elim (L.leb_total a b) [ inl k ↦ rw h k | inr k ↦ absurd (ground arith) ]
  ]

  pub le-max_right : (a b : Float) → leb_float b (max_float O a b) ≡ true
  unfolding max_float
  le-max_right a b = elim (Bool-cases (leb_float b a)) [
    | inl h ↦ rw h h
    | inr h ↦ rw h (L.leb_refl b)
  ]

  pub max-le :
      (a b c : Float)
      → leb_float a c ≡ true
      → leb_float b c ≡ true
      → leb_float (max_float O a b) c ≡ true
  unfolding max_float
  max-le a b c h k = elim (Bool-cases (leb_float b a)) [ inl e ↦ rw e h | inr e ↦ rw e k ]

  pub min-le_left : (a b : Float) → leb_float (min_float O a b) a ≡ true
  unfolding min_float
  min-le_left a b = elim (Bool-cases (leb_float a b)) [
    | inl h ↦ rw h (L.leb_refl a)
    | inr h ↦ elim (L.leb_total a b) [ inl k ↦ absurd (ground arith) | inr k ↦ rw h k ]
  ]

  pub min-le_right : (a b : Float) → leb_float (min_float O a b) b ≡ true
  unfolding min_float
  min-le_right a b = elim (Bool-cases (leb_float a b)) [
    | inl h ↦ rw h h
    | inr h ↦ rw h (L.leb_refl b)
  ]

  pub le-min :
      (a b c : Float)
      → leb_float c a ≡ true
      → leb_float c b ≡ true
      → leb_float c (min_float O a b) ≡ true
  unfolding min_float
  le-min a b c h k = elim (Bool-cases (leb_float a b)) [ inl e ↦ rw e h | inr e ↦ rw e k ]

  -- What lies below a number that `t` does not reach, `t` does not reach.
  pub not_le_of_le :
      (t x s : Float) → leb_float x s ≡ true → leb_float t s ≡ false → leb_float t x ≡ false
  not_le_of_le t x s h k = elim (Bool-cases (leb_float t x)) [
    | inl e ↦ cc (k, L.leb_trans t x s e h)
    | inr e ↦ e
  ]

  pub not_le-max :
      (t a b : Float)
      → leb_float t a ≡ false
      → leb_float t b ≡ false
      → leb_float t (max_float O a b) ≡ false
  unfolding max_float
  not_le-max t a b h k = elim (Bool-cases (leb_float b a)) [ inl e ↦ rw e h | inr e ↦ rw e k ]
