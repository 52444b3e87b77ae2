-- ===== src/Taxonomy/Precedence.antt =====
-- What `primary_code` chooses.
use portfolio_project.Prelude.{
  ℕ, ◌≤◌, ◌≡◌, ◌≢◌, ◌↔◌, refl, inl, inr, true, none, some, List, [], ◌∷◌, arith, Bool-cases,
}
use portfolio_project.Taxonomy.{
  ExceptionCode, dup_exact, dup_near, price_mm, qty_mm, missing_po, bank_change, ccy_mm, tax_err,
  math_err, stale_po, approval_required, ExceptionSeverity, low, medium, high, critical,
  code_precedence, code_in, first_present, primary_code, severity_of,
}

-- The severities in increasing order.
abbrev pub severity_rank : ExceptionSeverity → ℕ
severity_rank low = 0
severity_rank medium = 1
severity_rank high = 2
severity_rank critical = 3

-- The place of a code in the business order, the most urgent first.
abbrev pub urgency : ExceptionCode → ℕ
urgency dup_exact = 0
urgency dup_near = 1
urgency bank_change = 2
urgency missing_po = 3
urgency price_mm = 4
urgency qty_mm = 5
urgency approval_required = 6
urgency stale_po = 7
urgency ccy_mm = 8
urgency tax_err = 9
urgency math_err = 10

urgent_is_severe :
    (c d : ExceptionCode)
    → urgency c ≤ urgency d
    → severity_rank (severity_of d) ≤ severity_rank (severity_of c)
unfolding severity_of
urgent_is_severe c d h = ground arith

module _ (codes : List ExceptionCode) where
  first_present-mem :
      (cs : List ExceptionCode) {c : ExceptionCode}
      → first_present cs codes ≡ some c
      → code_in c codes ≡ true
  unfolding first_present
  first_present-mem [] h = cc
  first_present-mem (x ∷ cs) h = elim (Bool-cases (code_in x codes)) [
    | inl t ↦ ground arith
    | inr f ↦ first_present-mem cs (ground arith)
  ]

  first_present_ahead :
      (d c : ExceptionCode)
      → code_in d codes ≡ true
      → primary_code codes ≡ some c
      → urgency c ≤ urgency d
  unfolding primary_code
  first_present_ahead dup_exact c m h = ground arith
  first_present_ahead d c m h = ground arith

  -- The primary code is one of the codes, and of those the first in the business order and of the
  -- highest severity.
  pub primary_code_most_urgent :
      (c : ExceptionCode)
      → primary_code codes ≡ some c
      → (code_in c codes ≡ true)
        × ((d : ExceptionCode)
            → code_in d codes ≡ true
            → (urgency c ≤ urgency d)
              × (severity_rank (severity_of d) ≤ severity_rank (severity_of c)))
  primary_code_most_urgent c h = (
    first_present-mem code_precedence (unfold primary_code in h),
    λ d m. (first_present_ahead d c m h, urgent_is_severe c d (first_present_ahead d c m h)),
  )

code_in-head : (c : ExceptionCode) (cs : List ExceptionCode) → code_in c (c ∷ cs) ≡ true
unfolding code_in
code_in-head dup_exact cs = refl
code_in-head c cs = refl

chosen :
    (c : ExceptionCode) (codes : List ExceptionCode)
    → code_in c codes ≡ true
    → primary_code codes ≢ none
unfolding primary_code
chosen dup_exact codes m = ground arith
chosen c codes m = ground arith

-- `primary_code` raises exactly when there are no codes.
pub primary_code-none_iff :
    (codes : List ExceptionCode) → (primary_code codes ≡ none) ↔ (codes ≡ [])
primary_code-none_iff [] = (λ e. refl, λ e. unfold primary_code code_in in refl)
primary_code-none_iff (c ∷ cs) = (λ e. absurd (chosen c (c ∷ cs) (code_in-head c cs) e), λ e. cc)
