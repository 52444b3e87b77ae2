-- ===== src/Validation.antt =====
-- tools/validation.py and tools/validation_config.py: the findings and the configuration. The
-- text of a finding (`detail`) is left out here and in every other component: no code reads it.
pub mod Iban
pub mod Engine
pub mod Arithmetic
pub mod Wire
use portfolio_project.Prelude.{
  ℕ, ◌≡◌, String, Bool, true, false, not, Option, none, some, List, [], ◌∷◌, any, keep,
}
use portfolio_project.Decimal.{Decimal, decimal}

pub data Severity : Type 0 where
  error warn : Severity

pub data ReasonCode : Type 0 where
  schema_missing_field schema_bad_currency schema_bad_iban math_err math_line_err tax_err
        tax_unknown_code tax_missing_code :
      ReasonCode

pub record CheckResult : Type 0 where
  pub code : ReasonCode
  pub severity : Severity
  pub field : Option String

abbrev pub is_error : Severity → Bool
is_error error = true
is_error warn = false

unfoldable pub is_error_check : CheckResult → Bool
is_error_check c = is_error c.severity

pub record ValidationReport : Type 0 where
  pub checks : List CheckResult

-- The properties of a report.
unfoldable pub passed : ValidationReport → Bool
unfolding any is_error_check
passed r = not (any is_error_check r.checks)

unfoldable pub errors : ValidationReport → List CheckResult
unfolding keep is_error_check
errors r = keep is_error_check r.checks

-- agents/extraction.py: what the extraction agent read from the document. `F` is the type of
-- floating-point numbers.
pub record ExtractionLine : Type 0 where
  pub line_no : String
  pub description : Option String
  pub qty : Option Decimal
  pub uom : Option String
  pub unit_price : Option Decimal
  pub tax_code : Option String
  pub line_total : Option Decimal

pub record InvoiceExtraction (F : Type 0) : Type 0 where
  pub vendor_name : Option String
  pub vendor_tax_id : Option String
  pub invoice_number : Option String
  pub po_number : Option String
  pub issue_date : Option String
  pub due_date : Option String
  pub currency : Option String
  pub total_amount : Option Decimal
  pub tax_total : Option Decimal
  pub iban : Option String
  pub lines : List ExtractionLine
  pub confidences : List (String × F)

abbrev pub required_error_fields : List String
required_error_fields =
    "vendor_name" ∷ "invoice_number" ∷ "issue_date" ∷ "currency" ∷ "total_amount" ∷ []

abbrev pub required_warn_fields : List String
required_warn_fields = "due_date" ∷ "iban" ∷ []

abbrev pub line_math_tolerance : Decimal
line_math_tolerance = decimal 0 2

abbrev pub tax_tolerance : Decimal
tax_tolerance = decimal 1 2

abbrev pub tax_rates : List (String × Decimal)
tax_rates = ("S", decimal 19 2) ∷ ("R", decimal 7 2) ∷ ("Z", decimal 0 2) ∷ []

abbrev pub iban_lengths : List (String × ℕ)
iban_lengths = ("DE", 22) ∷ ("FR", 27) ∷ ("NL", 18) ∷ ("GB", 22) ∷ ("US", 34) ∷ []
