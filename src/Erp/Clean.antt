-- ===== src/Erp/Clean.antt =====
-- The clean invoice of data/erp.py against the arithmetic checks of tools/validation.py.
use portfolio_project.Prelude.{
  ℕ, ◌≡◌, refl, ap, String, true, false, none, List, [], ◌∷◌, map, arith, any, present, get,
  is_none, All,
}
use portfolio_project.Prelude.Int.{ℤ, pos, ◌-ℤ◌, magnitude}
use portfolio_project.Decimal.{Decimal, ltb_decimal, leb_decimal, sub, align, mul, abs}
use portfolio_project.Validation.{tax_rates}
use portfolio_project.Validation.Engine.{
  exceeds, line_math, check_lines, check_total, line_totals, check_line_math, check_tax,
  check_tax_of, tax_finding, taxed, line_taxes, unknown_code, has_unknown_code,
}
use portfolio_project.Erp.{
  Randomness, ErpPoLine, CleanInvoiceSpec, line_total, line_tax, net_total, tax_total,
  extraction_line, extraction_dict,
}

self_difference : (z : ℤ) → magnitude (z -ℤ z) ≡ 0
unfolding ◌-ℤ◌
self_difference (pos n) = ground arith
self_difference (ℤ.negsuc n) = ground arith

nothing_exceeds :
    (p q c : ℕ)
    → leb_decimal (record { coef = pos 0; places = p }) (record { coef = pos c; places = q }) ≡ true
unfolding leb_decimal
nothing_exceeds p q c = ground arith

-- A value minus itself exceeds no tolerance that is not negative.
no_excess :
    (a : Decimal) (c q : ℕ) → exceeds (sub a a) (record { coef = pos c; places = q }) ≡ false
unfolding exceeds sub abs ltb_decimal
no_excess a c q = rw (self_difference (align _ a), nothing_exceeds _ q c) refl

no_line_error : (ls : List ErpPoLine) → check_lines (map extraction_line ls) ≡ []
unfolding check_lines extraction_line line_math line_total
no_line_error [] = refl
no_line_error (l ∷ ls) =
    rw (line_math, no_excess (mul l.qty l.unit_price) 0 2, no_line_error ls) refl

totals_of : (ls : List ErpPoLine) → line_totals (map extraction_line ls) ≡ map line_total ls
unfolding line_totals extraction_line present
totals_of [] = refl
totals_of (l ∷ ls) = ap (λ (t : List Decimal). line_total l ∷ t) (totals_of ls)

taxes_of : (ls : List ErpPoLine) → line_taxes (map extraction_line ls) ≡ map line_tax ls
unfolding line_taxes extraction_line present taxed
taxes_of [] = refl
taxes_of (l ∷ ls) = ap (λ (t : List Decimal). line_tax l ∷ t) (taxes_of ls)

-- The tax code is in the table of the rates.
abbrev pub HasKnownCode : ErpPoLine → Type 0
HasKnownCode l = is_none (get l.tax_code tax_rates) ≡ false

known_codes :
    (ls : List ErpPoLine) → All HasKnownCode ls → has_unknown_code (map extraction_line ls) ≡ false
unfolding has_unknown_code any unknown_code extraction_line
known_codes [] h = refl
known_codes (l ∷ ls) (k, h) = rw (k, known_codes ls h) refl

-- A clean invoice for an order with at least one line, whose tax codes are known, has no arithmetic
-- error in a line or in the total, and its tax reconciles.
pub clean_invoice_reconciles :
    (F : Type 0) (R : Randomness) (iso : ℕ → String) (s : CleanInvoiceSpec) (l : ErpPoLine)
    (ls : List ErpPoLine)
    → s.lines ≡ l ∷ ls
    → All HasKnownCode s.lines
    → (check_line_math (extraction_dict R {F = F} iso s) ≡ [])
      × (check_tax (extraction_dict R {F = F} iso s) ≡ none)
unfolding check_line_math check_tax check_tax_of tax_finding extraction_dict check_total net_total
    tax_total
clean_invoice_reconciles F R iso s l ls e h = (
  rw (no_line_error s.lines, totals_of s.lines, e) (rw (check_total, no_excess _ 0 2) refl),
  rw (taxes_of s.lines, known_codes s.lines h, e) (rw (no_excess _ 1 2) refl),
)
