-- ===== src/Matching.antt =====
-- tools/matching.py and tools/matching_config.py: the data of the three-way matcher.
pub mod Checks
pub mod Engine
pub mod Wire
pub mod Agreement
use portfolio_project.Prelude.{ℕ, String, Bool, true, false, Option, List, [], ◌∷◌}
use portfolio_project.Decimal.{Decimal, decimal, zero_decimal}
use portfolio_project.Decimal.Ratio.{Ratio}

pub data MatchOutcome : Type 0 where
  matches tolerable mismatch : MatchOutcome

pub data Severity : Type 0 where
  error warn : Severity

pub data ReasonCode : Type 0 where
  missing_po vendor_mm ccy_mm uom_mm line_not_on_po gr_line_missing qty_mm price_mm price_drift :
      ReasonCode

pub record InvoiceLineForMatch : Type 0 where
  pub line_no : String
  pub qty : Decimal
  pub uom : Option String
  pub unit_price : Decimal

-- A date is its day number, `date.toordinal`.
pub record InvoiceForMatch : Type 0 where
  pub vendor_name : Option String
  pub invoice_number : Option String
  pub po_number : Option String
  pub currency : Option String
  pub issue_date : Option ℕ
  pub lines : List InvoiceLineForMatch

pub record PoLineForMatch : Type 0 where
  pub line_no : String
  pub qty : Decimal
  pub uom : Option String
  pub unit_price : Decimal

pub record PoForMatch : Type 0 where
  pub po_number : String
  pub vendor_name : Option String
  pub currency : Option String
  pub status : String
  pub ordered_at : Option ℕ
  pub lines : List PoLineForMatch

pub record GrForMatch : Type 0 where
  pub gr_number : String
  pub po_number : String
  pub received_qty : List (String × Decimal)

-- A value in a finding's `delta` or in the evidence; a decimal stands for its text.
pub data Cell : Type 0 where
  absent : Cell
  text : String → Cell
  characters : List ℕ → Cell
  number : Decimal → Cell
  day : ℕ → Cell

abbrev pub text_or_absent : Option String → Cell
text_or_absent Option.none = absent
text_or_absent (Option.some s) = text s

abbrev pub day_or_absent : Option ℕ → Cell
day_or_absent Option.none = absent
day_or_absent (Option.some n) = day n

pub record MatchFinding : Type 0 where
  pub code : ReasonCode
  pub severity : Severity
  pub line_no : Option String
  pub delta : List (String × Cell)

-- `normalized_delta` is the fraction that `float` is applied to.
pub record MatchResult : Type 0 where
  pub outcome : MatchOutcome
  pub findings : List MatchFinding
  pub normalized_delta : Ratio
  pub evidence : List (String × Cell)

abbrev pub config_version : String
config_version = "matching@v1"

abbrev pub price_pct_tolerance : Decimal
price_pct_tolerance = decimal 2 2

abbrev pub price_abs_tolerance : Decimal
price_abs_tolerance = decimal 50 2

abbrev pub qty_tolerance : Decimal
qty_tolerance = zero_decimal

abbrev pub is_error : Severity → Bool
is_error error = true
is_error warn = false

abbrev pub is_warn : Severity → Bool
is_warn error = false
is_warn warn = true
