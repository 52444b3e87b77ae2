-- ===== src/Queue/Values.antt =====
-- The values of the columns by which the listing of api/services/queue.py is ordered.
use portfolio_project.Prelude.{
  ℕ, ◌≡◌, ◌≤◌, ◌⊎◌, refl, true, false, Option, none, some, arith, leb, ltb, leb→le, leb_false→lt,
  Bool-cases, inl, inr,
}
use portfolio_project.Decimal.{Decimal, leb_decimal, ltb_decimal}
use portfolio_project.Decimal.Order.{leb_decimal_total}
use portfolio_project.Queue.{before_option}

-- An absent value is the largest.
abbrev pub Within : {A : Type 0} → (A → A → Type 0) → Option A → Option A → Type 0
Within R x none = Unit
Within R none (some y) = ⊥
Within R (some x) (some y) = R x y

abbrev pub AtMostDecimal : Decimal → Decimal → Type 0
AtMostDecimal x y = leb_decimal x y ≡ true

pub Within-trans :
    {A : Type 0} (R : A → A → Type 0)
    → ((x y z : A) → R x y → R y z → R x z)
    → (x y z : Option A) → Within R x y
    → Within R y z
    → Within R x z
Within-trans R t x y none h k = tt
Within-trans R t none none (some z) h k = absurd k
Within-trans R t none (some y) (some z) h k = absurd h
Within-trans R t (some x) none (some z) h k = absurd k
Within-trans R t (some x) (some y) (some z) h k = t x y z h k

pub Within-total :
    {A : Type 0} (R : A → A → Type 0)
    → ((x y : A) → R x y ⊎ R y x)
    → (x y : Option A) → Within R x y ⊎ Within R y x
Within-total R t x none = inl tt
Within-total R t none (some y) = inr tt
Within-total R t (some x) (some y) = t x y

pub total_ℕ : (x y : ℕ) → (x ≤ y) ⊎ (y ≤ x)
total_ℕ x y = elim (Bool-cases (leb x y)) [
  | inl t ↦ inl (leb→le x y t)
  | inr f ↦ inr (omega (arith, leb_false→lt x y f))
]

pub total_decimal : (x y : Decimal) → AtMostDecimal x y ⊎ AtMostDecimal y x
total_decimal x y = elim (Bool-cases (leb_decimal x y)) [
  | inl t ↦ inl t
  | inr f ↦ inr (leb_decimal_total x y f)
]

pub amounts_not_before :
    (x y : Option Decimal) → before_option ltb_decimal y x ≡ false → Within AtMostDecimal x y
unfolding before_option ltb_decimal
amounts_not_before x none h = tt
amounts_not_before none (some y) h = absurd (ground arith)
amounts_not_before (some x) (some y) h = ground arith

pub dates_not_before :
    (x y : Option ℕ) → before_option ltb y x ≡ false → Within (λ (x y : ℕ). x ≤ y) x y
unfolding before_option
dates_not_before x none h = tt
dates_not_before none (some y) h = absurd (ground arith)
dates_not_before (some x) (some y) h = ground arith

pub amounts_at_most :
    (x y : Option Decimal) → Within AtMostDecimal x y → before_option ltb_decimal y x ≡ false
unfolding before_option ltb_decimal
amounts_at_most none none h = refl
amounts_at_most (some x) none h = refl
amounts_at_most none (some y) h = absurd h
amounts_at_most (some x) (some y) h = rw h refl

pub dates_at_most :
    (x y : Option ℕ) → Within (λ (x y : ℕ). x ≤ y) x y → before_option ltb y x ≡ false
unfolding before_option
dates_at_most none none h = refl
dates_at_most (some x) none h = refl
dates_at_most none (some y) h = absurd h
dates_at_most (some x) (some y) h = ground arith
