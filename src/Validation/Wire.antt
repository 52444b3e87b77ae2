-- ===== src/Validation/Wire.antt =====
-- `CheckResult.as_dict` of tools/validation.py, and the reading of such a dictionary back into a
-- `CheckResult` by `exception_triage` of graph/nodes/pipeline.py.
use portfolio_project.Prelude.{String, ◌≡◌, refl, Option, none, some, str_eq, if◌then◌else◌}
use portfolio_project.Validation.{
  Severity, error, warn, ReasonCode, schema_missing_field, schema_bad_currency, schema_bad_iban,
  math_err, math_line_err, tax_err, tax_unknown_code, tax_missing_code, CheckResult,
}

-- The dictionary; `field` is a key only where it is not `None`.
pub record CheckDict : Type 0 where
  pub code : String
  pub severity : String
  pub field : Option String

abbrev pub severity_value : Severity → String
severity_value error = "ERROR"
severity_value warn = "WARN"

abbrev pub reason_value : ReasonCode → String
reason_value schema_missing_field = "SCHEMA_MISSING_FIELD"
reason_value schema_bad_currency = "SCHEMA_BAD_CURRENCY"
reason_value schema_bad_iban = "SCHEMA_BAD_IBAN"
reason_value math_err = "MATH_ERR"
reason_value math_line_err = "MATH_LINE_ERR"
reason_value tax_err = "TAX_ERR"
reason_value tax_unknown_code = "TAX_UNKNOWN_CODE"
reason_value tax_missing_code = "TAX_MISSING_CODE"

unfoldable pub as_dict : CheckResult → CheckDict
as_dict c = record {
  code = reason_value c.code;
  severity = severity_value c.severity;
  field = c.field;
}

-- The enumeration's constructor on a value; `none` is its `ValueError`.
unfoldable pub severity_of_value : String → Option Severity
severity_of_value s =
    if str_eq s "ERROR" then some error else if str_eq s "WARN" then some warn else none

unfoldable pub reason_of_value : String → Option ReasonCode
reason_of_value s =
    if str_eq s "SCHEMA_MISSING_FIELD"
    then some schema_missing_field
    else if str_eq s "SCHEMA_BAD_CURRENCY"
    then some schema_bad_currency
    else if str_eq s "SCHEMA_BAD_IBAN"
    then some schema_bad_iban
    else if str_eq s "MATH_ERR"
    then some math_err
    else if str_eq s "MATH_LINE_ERR"
    then some math_line_err
    else if str_eq s "TAX_ERR"
    then some tax_err
    else if str_eq s "TAX_UNKNOWN_CODE"
    then some tax_unknown_code
    else if str_eq s "TAX_MISSING_CODE"
    then some tax_missing_code
    else none

check_of : Option ReasonCode → Option Severity → Option String → Option CheckResult
check_of (some c) (some s) field = some (record { code = c; severity = s; field = field })
check_of _ _ field = none

unfoldable pub of_dict : CheckDict → Option CheckResult
unfolding check_of severity_of_value reason_of_value
of_dict d = check_of (reason_of_value d.code) (severity_of_value d.severity) d.field

reason_back : (c : ReasonCode) → reason_of_value (reason_value c) ≡ some c
unfolding reason_of_value
reason_back schema_missing_field = refl
reason_back c = refl

severity_back : (s : Severity) → severity_of_value (severity_value s) ≡ some s
unfolding severity_of_value
severity_back error = refl
severity_back warn = refl

-- What is written is read back.
pub of_dict-as_dict : (c : CheckResult) → of_dict (as_dict c) ≡ some c
unfolding of_dict as_dict
of_dict-as_dict c = rw (reason_back c.code, severity_back c.severity, check_of)
