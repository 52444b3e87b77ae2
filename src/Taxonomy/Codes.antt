-- ===== src/Taxonomy/Codes.antt =====
-- The mapping of tools/exception_taxonomy.py from the findings of the engines to its codes.
use portfolio_project.Prelude.{
  String, Option, none, some, List, [], ◌∷◌, get, str_eq, if◌then◌else◌,
}
use portfolio_project.Taxonomy.{
  ExceptionCode, price_mm, qty_mm, missing_po, bank_change, ccy_mm, tax_err, math_err,
}
use portfolio_project.Validation
use portfolio_project.Validation.{CheckResult}
use portfolio_project.Matching
use portfolio_project.Matching.{MatchFinding}

abbrev pub missing_field_code : List (String × ExceptionCode)
missing_field_code =
    ("po_number", missing_po)
    ∷ ("currency", ccy_mm)
    ∷ ("total_amount", math_err)
    ∷ ("tax_total", tax_err)
    ∷ ("iban", bank_change)
    ∷ ("vendor_name", bank_change)
    ∷ []

abbrev pub missing_field_fallback : ExceptionCode
missing_field_fallback = math_err

-- The dictionary `_VALIDATION_CODE`.
unfoldable pub validation_code : Validation.ReasonCode → ExceptionCode
validation_code Validation.schema_missing_field = math_err
validation_code Validation.schema_bad_currency = ccy_mm
validation_code Validation.schema_bad_iban = bank_change
validation_code Validation.math_err = math_err
validation_code Validation.math_line_err = math_err
validation_code Validation.tax_err = tax_err
validation_code Validation.tax_unknown_code = tax_err
validation_code Validation.tax_missing_code = tax_err

-- The dictionary `_MATCHING_CODE`.
unfoldable pub matching_code : Matching.ReasonCode → ExceptionCode
matching_code Matching.missing_po = missing_po
matching_code Matching.price_mm = price_mm
matching_code Matching.price_drift = price_mm
matching_code Matching.qty_mm = qty_mm
matching_code Matching.ccy_mm = ccy_mm
matching_code Matching.vendor_mm = bank_change
matching_code Matching.uom_mm = qty_mm
matching_code Matching.line_not_on_po = qty_mm
matching_code Matching.gr_line_missing = qty_mm

-- `MISSING_FIELD_CODE.get(field, fallback)`.
missing_field : String → ExceptionCode
unfolding get
missing_field name = elim (get name missing_field_code) [
  | some c ↦ c
  | none ↦ missing_field_fallback
]

-- An empty field name counts as none.
code_for : Validation.ReasonCode → Option String → ExceptionCode
unfolding missing_field validation_code
code_for Validation.schema_missing_field (some name) =
    if str_eq name "" then validation_code Validation.schema_missing_field else missing_field name
code_for code _ = validation_code code

unfoldable pub code_for_validation : CheckResult → ExceptionCode
unfolding code_for
code_for_validation check = code_for check.code check.field

unfoldable pub code_for_matching : MatchFinding → ExceptionCode
unfolding matching_code
code_for_matching f = matching_code f.code
