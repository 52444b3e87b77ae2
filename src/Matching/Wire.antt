-- ===== src/Matching/Wire.antt =====
-- `MatchFinding.as_dict` and `MatchResult.as_dict` of tools/matching.py, and the reading of a
-- finding's dictionary by `exception_triage` of graph/nodes/pipeline.py.
use portfolio_project.Prelude.{
  String, ◌≡◌, refl, Option, none, some, List, map, str_eq, if◌then◌else◌,
}
use portfolio_project.Decimal.Ratio.{Ratio}
use portfolio_project.Matching.{
  MatchOutcome, matches, tolerable, mismatch, Severity, error, warn, ReasonCode, missing_po,
  vendor_mm, ccy_mm, uom_mm, line_not_on_po, gr_line_missing, qty_mm, price_mm, price_drift, Cell,
  MatchFinding, MatchResult, config_version,
}

pub record FindingDict : Type 0 where
  pub code : String
  pub severity : String
  pub line_no : Option String
  pub delta : List (String × Cell)

pub record MatchDict : Type 0 where
  pub outcome : String
  pub findings : List FindingDict
  pub normalized_delta : Ratio
  pub evidence : List (String × Cell)
  pub version : String

abbrev pub severity_value : Severity → String
severity_value error = "ERROR"
severity_value warn = "WARN"

abbrev pub outcome_value : MatchOutcome → String
outcome_value matches = "MATCH"
outcome_value tolerable = "TOLERABLE"
outcome_value mismatch = "MISMATCH"

abbrev pub reason_value : ReasonCode → String
reason_value missing_po = "MISSING_PO"
reason_value vendor_mm = "VENDOR_MM"
reason_value ccy_mm = "CCY_MM"
reason_value uom_mm = "UOM_MM"
reason_value line_not_on_po = "LINE_NOT_ON_PO"
reason_value gr_line_missing = "GR_LINE_MISSING"
reason_value qty_mm = "QTY_MM"
reason_value price_mm = "PRICE_MM"
reason_value price_drift = "PRICE_DRIFT"

unfoldable pub as_dict : MatchFinding → FindingDict
as_dict f = record {
  code = reason_value f.code;
  severity = severity_value f.severity;
  line_no = f.line_no;
  delta = f.delta;
}

unfoldable pub result_as_dict : MatchResult → MatchDict
unfolding as_dict
result_as_dict r = record {
  outcome = outcome_value r.outcome;
  findings = map as_dict r.findings;
  normalized_delta = r.normalized_delta;
  evidence = r.evidence;
  version = config_version;
}

unfoldable pub severity_of_value : String → Option Severity
severity_of_value s =
    if str_eq s "ERROR" then some error else if str_eq s "WARN" then some warn else none

unfoldable pub reason_of_value : String → Option ReasonCode
reason_of_value s =
    if str_eq s "MISSING_PO"
    then some missing_po
    else if str_eq s "VENDOR_MM"
    then some vendor_mm
    else if str_eq s "CCY_MM"
    then some ccy_mm
    else if str_eq s "UOM_MM"
    then some uom_mm
    else if str_eq s "LINE_NOT_ON_PO"
    then some line_not_on_po
    else if str_eq s "GR_LINE_MISSING"
    then some gr_line_missing
    else if str_eq s "QTY_MM"
    then some qty_mm
    else if str_eq s "PRICE_MM"
    then some price_mm
    else if str_eq s "PRICE_DRIFT"
    then some price_drift
    else none

finding_of :
    Option ReasonCode → Option Severity → Option String → List (String × Cell) → Option MatchFinding
finding_of (some c) (some s) line_no delta =
    some (record { code = c; severity = s; line_no = line_no; delta = delta })
finding_of _ _ line_no delta = none

unfoldable pub of_dict : FindingDict → Option MatchFinding
unfolding finding_of severity_of_value reason_of_value
of_dict d = finding_of (reason_of_value d.code) (severity_of_value d.severity) d.line_no d.delta

reason_back : (c : ReasonCode) → reason_of_value (reason_value c) ≡ some c
unfolding reason_of_value
reason_back missing_po = refl
reason_back c = refl

severity_back : (s : Severity) → severity_of_value (severity_value s) ≡ some s
unfolding severity_of_value
severity_back error = refl
severity_back warn = refl

-- What is written is read back.
pub of_dict-as_dict : (f : MatchFinding) → of_dict (as_dict f) ≡ some f
unfolding of_dict as_dict
of_dict-as_dict f = rw (reason_back f.code, severity_back f.severity, finding_of)
