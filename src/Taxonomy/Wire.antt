-- ===== src/Taxonomy/Wire.antt =====
-- The string values of the enumerations of tools/exception_taxonomy.py, and the finding's
-- dictionary of tools/policy.py, whose codes are those of the taxonomy.
use portfolio_project.Prelude.{String, ◌≡◌, refl, Option, none, some, str_eq, if◌then◌else◌}
use portfolio_project.Taxonomy.{
  ExceptionCode, dup_exact, dup_near, price_mm, qty_mm, missing_po, bank_change, ccy_mm, tax_err,
  math_err, stale_po, approval_required, ExceptionSeverity, low, medium, high, critical,
}
use portfolio_project.Policy.{Evidence, PolicyFinding, version}

abbrev pub code_value : ExceptionCode → String
code_value dup_exact = "DUP_EXACT"
code_value dup_near = "DUP_NEAR"
code_value price_mm = "PRICE_MM"
code_value qty_mm = "QTY_MM"
code_value missing_po = "MISSING_PO"
code_value bank_change = "BANK_CHANGE"
code_value ccy_mm = "CCY_MM"
code_value tax_err = "TAX_ERR"
code_value math_err = "MATH_ERR"
code_value stale_po = "STALE_PO"
code_value approval_required = "APPROVAL_REQUIRED"

abbrev pub severity_value : ExceptionSeverity → String
severity_value low = "LOW"
severity_value medium = "MEDIUM"
severity_value high = "HIGH"
severity_value critical = "CRITICAL"

pub record PolicyDict (F : Type 0) : Type 0 where
  pub rule_id : String
  pub code : String
  pub severity : String
  pub evidence : Evidence F
  pub policy_version : String

unfoldable pub as_dict : {F : Type 0} → PolicyFinding F → PolicyDict F
as_dict f = record {
  rule_id = f.rule_id;
  code = code_value f.code;
  severity = severity_value f.severity;
  evidence = f.evidence;
  policy_version = version;
}

-- `ExceptionCode(value)`; `none` is its `ValueError`.
unfoldable pub code_of_value : String → Option ExceptionCode
code_of_value s =
    if str_eq s "DUP_EXACT"
    then some dup_exact
    else if str_eq s "DUP_NEAR"
    then some dup_near
    else if str_eq s "PRICE_MM"
    then some price_mm
    else if str_eq s "QTY_MM"
    then some qty_mm
    else if str_eq s "MISSING_PO"
    then some missing_po
    else if str_eq s "BANK_CHANGE"
    then some bank_change
    else if str_eq s "CCY_MM"
    then some ccy_mm
    else if str_eq s "TAX_ERR"
    then some tax_err
    else if str_eq s "MATH_ERR"
    then some math_err
    else if str_eq s "STALE_PO"
    then some stale_po
    else if str_eq s "APPROVAL_REQUIRED"
    then some approval_required
    else none

-- Every code is read back from its text, so that a policy finding keeps its code in the state.
pub code_of_value-code_value : (c : ExceptionCode) → code_of_value (code_value c) ≡ some c
unfolding code_of_value
code_of_value-code_value dup_exact = refl
code_of_value-code_value c = refl
