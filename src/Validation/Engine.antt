-- ===== src/Validation/Engine.antt =====
-- The checks of tools/validation.py, and `validate_extraction`.
use portfolio_project.Prelude.{
  ℕ, String, Bool, true, false, ◌&&◌, Option, none, some, List, [], ◌∷◌, ◌++◌, map, ◌==◌, str_eq,
  if◌then◌else◌, length, present, is_none, is_empty, any, get, codes, is_upper,
}
use portfolio_project.Decimal.{Decimal, zero_decimal, ltb_decimal, sub, mul, abs, sum_from}
use portfolio_project.Validation.{
  Severity, error, warn, ReasonCode, schema_missing_field, schema_bad_currency, math_err,
  math_line_err, tax_err, tax_unknown_code, tax_missing_code, CheckResult, ValidationReport,
  ExtractionLine, InvoiceExtraction, required_error_fields, required_warn_fields,
  line_math_tolerance, tax_tolerance, tax_rates,
}
use portfolio_project.Validation.Iban.{check_iban}

abbrev finding : ReasonCode → Severity → CheckResult
finding code severity = record { code = code; severity = severity; field = none }

-- `abs(delta) > tolerance`.
unfoldable pub exceeds : Decimal → Decimal → Bool
unfolding ltb_decimal abs
exceeds delta tolerance = ltb_decimal tolerance (abs delta)

module _ {F : Type 0} where
  -- `_field(extraction, name) is None`, over the fields that may be missing.
  unfoldable pub field_is_none : InvoiceExtraction F → String → Bool
  field_is_none e name =
      if str_eq name "vendor_name"
      then is_none e.vendor_name
      else if str_eq name "invoice_number"
      then is_none e.invoice_number
      else if str_eq name "issue_date"
      then is_none e.issue_date
      else if str_eq name "due_date"
      then is_none e.due_date
      else if str_eq name "currency"
      then is_none e.currency
      else if str_eq name "total_amount"
      then is_none e.total_amount
      else if str_eq name "iban"
      then is_none e.iban
      else true

  -- One of the two loops of `_check_required_fields`.
  unfoldable pub missing_fields : InvoiceExtraction F → Severity → List String → List CheckResult
  unfolding field_is_none
  missing_fields e severity [] = []
  missing_fields e severity (name ∷ names) =
      let rest = missing_fields e severity names in
      if field_is_none e name
      then (record { code = schema_missing_field; severity = severity; field = some name }) ∷ rest
      else rest

  unfoldable pub check_required_fields : InvoiceExtraction F → List CheckResult
  unfolding missing_fields
  check_required_fields e =
      missing_fields e error required_error_fields ++ missing_fields e warn required_warn_fields

all_upper : List ℕ → Bool
all_upper [] = true
all_upper (c ∷ cs) = is_upper c && all_upper cs

-- `len(currency) == 3 and currency.isalpha() and currency.isupper()`.
unfoldable pub is_currency_shaped : String → Bool
unfolding all_upper
is_currency_shaped currency = length (codes currency) == 3 && all_upper (codes currency)

unfoldable pub check_currency : Option String → Option CheckResult
unfolding is_currency_shaped
check_currency none = none
check_currency (some currency) =
    if is_currency_shaped currency then none else some (finding schema_bad_currency error)

-- The body of the loop over the lines.
unfoldable pub line_math : Option Decimal → Option Decimal → Option Decimal → List CheckResult
unfolding exceeds sub mul
line_math (some qty) (some unit_price) (some line_total) =
    if exceeds (sub line_total (mul qty unit_price)) line_math_tolerance
    then finding math_line_err error ∷ []
    else []
line_math _ _ _ = []

unfoldable pub check_lines : List ExtractionLine → List CheckResult
unfolding line_math
check_lines [] = []
check_lines (l ∷ ls) = line_math l.qty l.unit_price l.line_total ++ check_lines ls

unfoldable pub line_totals : List ExtractionLine → List Decimal
unfolding present
line_totals ls = present (map (λ (l : ExtractionLine). l.line_total) ls)

unfoldable pub check_total : Option Decimal → List Decimal → List CheckResult
unfolding exceeds sub sum_from
check_total none totals = []
check_total (some total_amount) [] = []
check_total (some total_amount) (t ∷ ts) =
    if exceeds (sub total_amount (sum_from zero_decimal (t ∷ ts))) line_math_tolerance
    then finding math_err error ∷ []
    else []

unfoldable pub check_line_math : {F : Type 0} → InvoiceExtraction F → List CheckResult
unfolding check_lines check_total line_totals
check_line_math e = check_lines e.lines ++ check_total e.total_amount (line_totals e.lines)

-- `cfg.TAX_RATES.get(line.tax_code or "", Decimal("0"))`.
unfoldable pub rate_of : String → Decimal
unfolding get
rate_of code = elim (get code tax_rates) [ none ↦ zero_decimal | some r ↦ r ]

-- The tax of each line that has a tax code and a total.
unfoldable pub taxed : Option String → Option Decimal → Option Decimal
unfolding rate_of mul
taxed (some code) (some line_total) = some (mul line_total (rate_of code))
taxed _ _ = none

unfoldable pub line_taxes : List ExtractionLine → List Decimal
unfolding taxed present
line_taxes ls = present (map (λ (l : ExtractionLine). taxed l.tax_code l.line_total) ls)

unfoldable pub unknown_code : Option String → Bool
unfolding get
unknown_code none = false
unknown_code (some code) = is_none (get code tax_rates)

unfoldable pub has_unknown_code : List ExtractionLine → Bool
unfolding unknown_code any
has_unknown_code ls = any (λ (l : ExtractionLine). unknown_code l.tax_code) ls

-- The tests once both totals are there.
unfoldable pub tax_finding : Decimal → List ExtractionLine → Option CheckResult
unfolding line_taxes has_unknown_code exceeds sub sum_from
tax_finding tax_total ls =
    if is_empty (line_taxes ls)
    then some (finding tax_missing_code warn)
    else if has_unknown_code ls
    then some (finding tax_unknown_code warn)
    else if exceeds (sub tax_total (sum_from zero_decimal (line_taxes ls))) tax_tolerance
    then some (finding tax_err error)
    else none

unfoldable pub check_tax_of :
    Option Decimal → Option Decimal → List ExtractionLine → Option CheckResult
unfolding tax_finding
check_tax_of (some total_amount) (some tax_total) ls = tax_finding tax_total ls
check_tax_of _ _ ls = none

unfoldable pub check_tax : {F : Type 0} → InvoiceExtraction F → Option CheckResult
unfolding check_tax_of
check_tax e = check_tax_of e.total_amount e.tax_total e.lines

unfoldable pub validate_extraction : {F : Type 0} → InvoiceExtraction F → ValidationReport
unfolding check_required_fields check_currency check_iban check_line_math check_tax present
validate_extraction e = record {
  checks = present (
      map some (check_required_fields e)
      ++ (check_currency e.currency ∷ check_iban e.iban ∷ map some (check_line_math e)
          ++ check_tax e ∷ []));
}
