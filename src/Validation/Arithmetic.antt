-- ===== src/Validation/Arithmetic.antt =====
-- The arithmetic of an invoice that tools/validation.py passes.
use portfolio_project.Prelude.{
  String, ◌≡◌, refl, ap, true, false, Option, none, some, List, [], ◌∷◌, ◌++◌, map, any, present,
  All, arith, Bool-cases, inl, inr, any-append, present-append,
}
use portfolio_project.Decimal.{
  Decimal, zero_decimal, leb_decimal, ltb_decimal, sub, mul, abs, sum_from,
}
use portfolio_project.Validation.{
  CheckResult, Severity, is_error_check, ExtractionLine, InvoiceExtraction, passed,
  line_math_tolerance, required_error_fields, required_warn_fields,
}
use portfolio_project.Validation.Engine.{
  exceeds, line_math, check_lines, check_total, check_line_math, line_totals, missing_fields,
  field_is_none, validate_extraction, check_required_fields, check_currency, check_tax,
}
use portfolio_project.Validation.Iban.{check_iban}

-- Two amounts differ by no more than the configured tolerance, which is 0.00.
abbrev pub IsWithinTolerance : Decimal → Decimal → Type 0
IsWithinTolerance a b = leb_decimal (abs (sub a b)) line_math_tolerance ≡ true

-- The total of a line is its quantity times its unit price, where all three are given.
abbrev pub LineAddsUp : Option Decimal → Option Decimal → Option Decimal → Type 0
LineAddsUp (some qty) (some unit_price) (some line_total) =
    IsWithinTolerance line_total (mul qty unit_price)
LineAddsUp _ _ _ = Unit

-- The total of the invoice is the sum of the totals of its lines, where there are any.
abbrev pub TotalAddsUp : Option Decimal → List Decimal → Type 0
TotalAddsUp (some total_amount) (t ∷ ts) =
    IsWithinTolerance total_amount (sum_from zero_decimal (t ∷ ts))
TotalAddsUp _ _ = Unit

abbrev NoError : List CheckResult → Type 0
NoError cs = any is_error_check cs ≡ false

NoError-append : (cs ds : List CheckResult) → NoError (cs ++ ds) → NoError cs × NoError ds
NoError-append cs ds h = ground (arith, any-append is_error_check cs ds)

within : (a b : Decimal) → exceeds (sub a b) line_math_tolerance ≡ false → IsWithinTolerance a b
unfolding exceeds ltb_decimal
within a b h = ground arith

line_adds_up : (q p t : Option Decimal) → NoError (line_math q p t) → LineAddsUp q p t
unfolding line_math any is_error_check
line_adds_up (some q) (some p) (some t) h = within t (mul q p) (ground arith)
line_adds_up none p t h = tt
line_adds_up (some q) none t h = tt
line_adds_up (some q) (some p) none h = tt

lines_add_up :
    (ls : List ExtractionLine)
    → NoError (check_lines ls)
    → All (λ (l : ExtractionLine). LineAddsUp l.qty l.unit_price l.line_total) ls
unfolding check_lines
lines_add_up [] h = tt
lines_add_up (l ∷ ls) h =
    let (here, rest) =
      NoError-append (line_math l.qty l.unit_price l.line_total) (check_lines ls) h in
    (line_adds_up l.qty l.unit_price l.line_total here, lines_add_up ls rest)

total_adds_up :
    (t : Option Decimal) (ts : List Decimal) → NoError (check_total t ts) → TotalAddsUp t ts
unfolding check_total any is_error_check
total_adds_up (some a) (t ∷ ts) h = within a (sum_from zero_decimal (t ∷ ts)) (ground arith)
total_adds_up (some a) [] h = tt
total_adds_up none [] h = tt
total_adds_up none (t ∷ ts) h = tt

fields_present :
    {F : Type 0} (e : InvoiceExtraction F) (names : List String)
    → NoError (missing_fields e Severity.error names)
    → All (λ name. field_is_none e name ≡ false) names
unfolding missing_fields any is_error_check
fields_present e [] h = tt
fields_present e (n ∷ ns) h = elim (Bool-cases (field_is_none e n)) [
  | inl b ↦ absurd (ground arith)
  | inr b ↦ (b, fields_present e ns (rw b at h))
]

present-some : {A : Type 0} (xs : List A) → present (map some xs) ≡ xs
unfolding present
present-some [] = refl
present-some (x ∷ xs) = ap (λ t. x ∷ t) (present-some xs)

NoError-present :
    (o : Option CheckResult) (os : List (Option CheckResult))
    → NoError (present (o ∷ os))
    → NoError (present os)
unfolding any present
NoError-present none os h = h
NoError-present (some f) os h = ground arith

NoError-split :
    (cs : List CheckResult) (os : List (Option CheckResult))
    → NoError (present (map some cs ++ os))
    → NoError cs × NoError (present os)
NoError-split cs os h =
    NoError-append cs (present os) (rw (present-append (map some cs) os, present-some cs) at h)

no_errors :
    {F : Type 0} (e : InvoiceExtraction F)
    → passed (validate_extraction e) ≡ true
    → NoError (validate_extraction e).checks
unfolding passed
no_errors e h = ground arith

-- An invoice that passes validation has its required fields, each of its lines adds up, and so does
-- its total.
pub validate_extraction-passed :
    {F : Type 0} (e : InvoiceExtraction F)
    → passed (validate_extraction e) ≡ true
    → All (λ name. field_is_none e name ≡ false) required_error_fields
      × All (λ (l : ExtractionLine). LineAddsUp l.qty l.unit_price l.line_total) e.lines
      × TotalAddsUp e.total_amount (line_totals e.lines)
unfolding validate_extraction check_required_fields check_line_math
validate_extraction-passed e h =
    let (required, rest) =
      NoError-split (check_required_fields e)
        (check_currency e.currency ∷ check_iban e.iban ∷ map some (check_line_math e)
          ++ check_tax e ∷ [])
        (no_errors e h) in
    let after_currency = NoError-present (check_currency e.currency) _ rest in
    let after_iban = NoError-present (check_iban e.iban) _ after_currency in
    let (maths, tax) = NoError-split (check_line_math e) (check_tax e ∷ []) after_iban in
    let (lines, total) =
      NoError-append (check_lines e.lines) (check_total e.total_amount (line_totals e.lines))
        maths in
    let (errors, warnings) =
      NoError-append (missing_fields e Severity.error required_error_fields)
        (missing_fields e Severity.warn required_warn_fields) required in
    (
      fields_present e required_error_fields errors,
      lines_add_up e.lines lines,
      total_adds_up e.total_amount (line_totals e.lines) total,
    )
