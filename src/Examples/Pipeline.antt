-- ===== src/Examples/Pipeline.antt =====
-- The theorems on the pipeline and its engines, applied to the invoice of the parent module.
use portfolio_project.Prelude.{
  ℕ, zero, suc, ◌≡◌, ◌≢◌, refl, true, false, none, some, List, [], ◌∷◌, All, ◌++◌, map,
}
use portfolio_project.Float.Fixed.{fixed}
use portfolio_project.Validation.{InvoiceExtraction, ExtractionLine}
use portfolio_project.Graph.{GraphState, auto_approve}
use portfolio_project.Graph.Nodes.{run_ingest, run_validate, triple_po, triple_vendor}
use portfolio_project.Graph.Judged.{run_extract, run_match3way, run_policy, run_gate}
use portfolio_project.Graph.Machine.{Thread, at, new_thread, step, invoke}
use portfolio_project.Graph.Stage.{IsValidated, IsMatched, IsPermitted, IsConfident}
use portfolio_project.Graph.Approval.{Session, started, stepped, RanOn, auto_approve-IsJustified}
use portfolio_project.Graph.Order.{invoke-settles}
use portfolio_project.Decimal.{decimal}
use portfolio_project.Validation
use portfolio_project.Validation.{CheckResult, required_error_fields}
use portfolio_project.Validation.Engine.{validate_extraction, field_is_none, line_totals}
use portfolio_project.Validation.Arithmetic.{LineAddsUp, TotalAddsUp, validate_extraction-passed}
use portfolio_project.Matching.{InvoiceForMatch, PoForMatch, GrForMatch, MatchResult, mismatch}
use portfolio_project.Matching.Engine.{match3way}
use portfolio_project.Matching.Wire.{result_as_dict}
use portfolio_project.Matching.Agreement.{SameUpper, IsAgreed, match3way-IsAgreed}
use portfolio_project.Policy.{passed}
use portfolio_project.Taxonomy.Draft.{validation_entries, matching_entries}
use portfolio_project.Graph.Triage.{entries_of}
use portfolio_project.Graph.Triage.Drafts.{IsWritten, policy_entry, entries_of-written}
use portfolio_project.Examples.{database, new_state, context, extracted, order_line}

unfoldable fresh : Thread (fixed.Float)
unfolding fixed new_thread
fresh = new_thread new_state database

unfoldable after : ℕ → Thread (fixed.Float)
unfolding step
after zero = fresh
after (suc n) = step fixed context (after n)

after-Session : (n : ℕ) → Session fixed context (after n)
unfolding fixed after fresh
after-Session zero = started new_state database
after-Session (suc n) = stepped (after n) (after-Session n)

at_approval : (after 6).position ≡ at auto_approve
unfolding after fixed fresh run_ingest run_extract context run_validate run_match3way run_policy
    triple_po triple_vendor run_gate
at_approval = refl

auto_approve_example :
    (e : InvoiceExtraction (fixed.Float)) × IsValidated fixed context
      (RanOn fixed context (after 6) (after-Session 6))
      e
      (after 6).state
    × IsMatched fixed context (RanOn fixed context (after 6) (after-Session 6)) e (after 6).state
    × IsPermitted fixed context (RanOn fixed context (after 6) (after-Session 6)) e (after 6).state
    × IsConfident fixed context (RanOn fixed context (after 6) (after-Session 6)) e (after 6).state
auto_approve_example =
    auto_approve-IsJustified fixed context (after 6) (after-Session 6) at_approval

invoke-settles_example : (invoke fixed context 9 fresh).position ≢ at auto_approve
invoke-settles_example = invoke-settles fixed context fresh auto_approve

for_match : InvoiceForMatch
for_match = record {
  vendor_name = some "ACME  GmbH";
  invoice_number = some "R-1";
  po_number = some "PO-1";
  currency = some "eur";
  issue_date = some 110;
  lines =
      (record { line_no = "1"; qty = decimal 2 0; uom = some "ea"; unit_price = decimal 5040 2 })
      ∷ [];
}

order_for_match : PoForMatch
order_for_match = record {
  po_number = "PO-1";
  vendor_name = some "Acme GmbH";
  currency = some "EUR";
  status = "OPEN";
  ordered_at = some 100;
  lines = order_line ∷ [];
}

receipt_for_match : GrForMatch
receipt_for_match = record {
  gr_number = "GR-1";
  po_number = "PO-1";
  received_qty = ("1", decimal 2 0) ∷ [];
}

tolerable_match :
    (match3way for_match (some order_for_match) (some receipt_for_match)).outcome ≢ mismatch
unfolding match3way for_match order_for_match receipt_for_match
tolerable_match e = cc

match3way-IsAgreed_example :
    (o : PoForMatch) × (some order_for_match ≡ some o)
    × SameUpper for_match.currency o.currency
    × All (IsAgreed o (some receipt_for_match)) for_match.lines
match3way-IsAgreed_example =
    match3way-IsAgreed for_match (some order_for_match) (some receipt_for_match) tolerable_match

extracted_passes : Validation.passed (validate_extraction extracted) ≡ true
unfolding Validation.passed validate_extraction
extracted_passes = refl

validate_extraction-passed_example :
    All (λ name. field_is_none extracted name ≡ false) required_error_fields
    × All (λ (l : ExtractionLine). LineAddsUp l.qty l.unit_price l.line_total) extracted.lines
    × TotalAddsUp extracted.total_amount (line_totals extracted.lines)
validate_extraction-passed_example = validate_extraction-passed extracted extracted_passes

failed_checks : List CheckResult
failed_checks =
    (record { code = Validation.math_err; severity = Validation.error; field = none }) ∷ []

written_match : MatchResult
unfolding match3way
written_match = match3way for_match none none

written_state : GraphState ℕ
unfolding Validation.Wire.as_dict result_as_dict
written_state = record new_state {
  validation = map Validation.Wire.as_dict failed_checks;
  matched = some (result_as_dict written_match);
}

IsWritten-as_stated : IsWritten written_state failed_checks written_match []
unfolding written_state
IsWritten-as_stated = record { checks = refl; match = refl; verdicts = refl }

entries_of-written_example :
    entries_of written_state
    ≡ some (
        validation_entries failed_checks
        ++ (matching_entries written_match.findings ++ map policy_entry []))
entries_of-written_example =
    entries_of-written written_state failed_checks written_match [] IsWritten-as_stated
