-- ===== src/Agents.antt =====
-- agents/triage.py. The prompts and the reading of JSON are outside the program.
pub mod Abstention
pub mod Readings
use portfolio_project.Prelude.{
  ℕ, String, Bool, true, false, not, ◌&&◌, ◌||◌, Option, none, some, List, [], ◌∷◌, map, any,
  str_eq, take, codes, is_none, is_empty, is_space, if◌then◌else◌,
}
use portfolio_project.Decimal.{Decimal}
use portfolio_project.Float.{FloatOps, zero_float, one_float, ltb_float, min_float}
use portfolio_project.Validation.{ExtractionLine, InvoiceExtraction}
use portfolio_project.Matching.{Cell}
use portfolio_project.Matching.Wire.{MatchDict, FindingDict}
use portfolio_project.Taxonomy.{
  ExceptionCode, dup_exact, dup_near, bank_change, missing_po, price_mm, qty_mm, ccy_mm, stale_po,
  approval_required, tax_err, math_err, taxonomy,
}
use portfolio_project.Taxonomy.Wire.{code_of_value, code_value, severity_value}
use portfolio_project.Gateway.{Text, Message, Result, ok, err}
use portfolio_project.Gateway.Json.{strip}
use portfolio_project.Gateway.Transport.{Client, Reply, World}
use portfolio_project.Gateway.Completion.{Parsed, valid, invalid, complete_as}

abbrev pub needs_human : String
needs_human = "NEEDS_HUMAN"

pub record TriageOutput (F : Type 0) : Type 0 where
  pub classification : String
  pub confidence : F
  pub suggested_action : String
  pub recommendation : String
  pub rationale : String
  pub evidence_cited : List String
  pub abstained : Bool
  pub prompt_version : String
  pub config_version : String

unfoldable pub known_classification : String → Bool
unfolding code_of_value
known_classification value = not (is_none (code_of_value value)) || str_eq value needs_human

abbrev known_actions : List String
known_actions = "APPROVE" ∷ "RETURN_TO_VENDOR" ∷ "ESCALATE" ∷ needs_human ∷ []

unfoldable pub known_action : String → Bool
unfolding any
known_action value = any (str_eq value) known_actions

-- What the model reasons over; the salient fields of the extraction are kept as they are.
pub record EvidenceLine : Type 0 where
  pub line_no : String
  pub qty : Option Decimal
  pub unit_price : Option Decimal
  pub line_total : Option Decimal

pub record SalientInvoice : Type 0 where
  pub vendor_name : Option String
  pub invoice_number : Option String
  pub po_number : Option String
  pub issue_date : Option String
  pub currency : Option String
  pub total_amount : Option Decimal
  pub tax_total : Option Decimal

pub record EvidencePackage (D : Type 0) : Type 0 where
  pub exception_code : String
  -- Each code with its severity.
  pub codes_known : List (String × String)
  pub findings : List D
  pub match_outcome : Option String
  pub match_deltas : List (List (String × Cell))
  pub invoice : SalientInvoice
  pub invoice_lines : List EvidenceLine

abbrev evidence_line : ExtractionLine → EvidenceLine
evidence_line l = record {
  line_no = l.line_no;
  qty = l.qty;
  unit_price = l.unit_price;
  line_total = l.line_total;
}

abbrev no_invoice : SalientInvoice
no_invoice = record {
  vendor_name = none;
  invoice_number = none;
  po_number = none;
  issue_date = none;
  currency = none;
  total_amount = none;
  tax_total = none;
}

module _ {F : Type 0} where
  abbrev salient : Option (InvoiceExtraction F) → SalientInvoice
  salient none = no_invoice
  salient (some e) = record {
    vendor_name = e.vendor_name;
    invoice_number = e.invoice_number;
    po_number = e.po_number;
    issue_date = e.issue_date;
    currency = e.currency;
    total_amount = e.total_amount;
    tax_total = e.tax_total;
  }

  abbrev lines_of : Option (InvoiceExtraction F) → List ExtractionLine
  lines_of none = []
  lines_of (some e) = e.lines

-- The keys of `TAXONOMY` in their order; every one is a label of the evaluation or
-- `APPROVAL_REQUIRED`.
abbrev taxonomy_codes : List ExceptionCode
taxonomy_codes =
    dup_exact ∷ dup_near ∷ bank_change ∷ missing_po ∷ price_mm ∷ qty_mm ∷ ccy_mm ∷ stale_po
    ∷ approval_required ∷ tax_err ∷ math_err ∷ []

unfoldable pub code_and_severity : ExceptionCode → String × String
unfolding taxonomy
code_and_severity c = (code_value c, severity_value (taxonomy c).severity)

-- The deltas that are not empty.
unfoldable pub match_deltas_of : List FindingDict → List (List (String × Cell))
match_deltas_of [] = []
match_deltas_of (f ∷ fs) =
    let rest = match_deltas_of fs in if is_empty f.delta then rest else f.delta ∷ rest

abbrev outcome_and_findings : Option MatchDict → Option String × List FindingDict
outcome_and_findings none = (none, [])
outcome_and_findings (some m) = (some m.outcome, m.findings)

unfoldable pub build_evidence_package :
    {F D : Type 0}
    → List D
    → Option (InvoiceExtraction F)
    → Option MatchDict
    → String
    → EvidencePackage D
unfolding match_deltas_of code_and_severity
build_evidence_package findings extraction matched exception_code =
    let (outcome, match_findings) = outcome_and_findings matched in
    record {
      exception_code = exception_code;
      codes_known = map code_and_severity taxonomy_codes;
      findings = findings;
      match_outcome = outcome;
      match_deltas = match_deltas_of match_findings;
      invoice = salient extraction;
      invoice_lines = map evidence_line (take 10 (lines_of extraction));
    }

module _ (O : FloatOps) where
  open O use {Float, literal, leb_float}

  abbrev pub abstain_confidence_floor : Float
  abstain_confidence_floor = literal 60 2

  -- The validators of the contract.
  unfoldable pub is_triage_output : TriageOutput Float → Bool
  unfolding known_classification known_action
  is_triage_output output =
      known_classification output.classification
      && (known_action output.suggested_action
          && (leb_float (zero_float O) output.confidence
              && leb_float output.confidence (one_float O)))

  unfoldable pub enforce_abstention : TriageOutput Float → TriageOutput Float
  enforce_abstention output =
      if str_eq output.classification needs_human
      then record output { abstained = true }
      else if ltb_float O output.confidence abstain_confidence_floor
      then record output {
        abstained = true;
        classification = needs_human;
        suggested_action = needs_human;
      }
      else record output { abstained = false }

  -- `model_validate_json`: what `read` makes of the text, if the validators accept it.
  module _ (read : Text → Parsed (TriageOutput Float)) (refusal : TriageOutput Float → Text) where
    abbrev pub checked_output : Parsed (TriageOutput Float) → Parsed (TriageOutput Float)
    checked_output (invalid reason) = invalid reason
    checked_output (valid output) =
        if is_triage_output output then valid output else invalid (refusal output)

    unfoldable pub validate_output : Text → Parsed (TriageOutput Float)
    unfolding is_triage_output
    validate_output text = checked_output (read text)

    abbrev pub enforced : Result (TriageOutput Float) × World → Result (TriageOutput Float) × World
    enforced (err f, w) = (err f, w)
    enforced (ok output, w) = (ok (enforce_abstention output), w)

    -- `triage`, on the messages that the prompt makes of the evidence.
    unfoldable pub triage :
        (ℕ → Reply)
        → Client
        → Option String
        → List Message
        → World
        → Result (TriageOutput Float) × World
    unfolding complete_as validate_output enforce_abstention
    triage network c scenario messages w =
        enforced (complete_as network c "triage-reasoner" scenario validate_output messages 2048 w)
