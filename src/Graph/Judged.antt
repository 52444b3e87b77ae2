-- ===== src/Graph/Judged.antt =====
-- The nodes of graph/nodes/pipeline.py that extract, match, judge and archive: those that use the
-- context or floating-point numbers.
use portfolio_project.Prelude.{ℕ, String, Option, none, some, List, map}
use portfolio_project.Float.{FloatOps}
use portfolio_project.Validation.{InvoiceExtraction}
use portfolio_project.Matching.{InvoiceForMatch, InvoiceLineForMatch, PoForMatch, GrForMatch}
use portfolio_project.Matching
use portfolio_project.Matching.Wire.{MatchDict, result_as_dict}
use portfolio_project.Policy
use portfolio_project.Policy.{PolicyContext, PoFacts, VendorFacts, NearDupHit}
use portfolio_project.Policy.Rules.{evaluate, rounded_hits}
use portfolio_project.Taxonomy
use portfolio_project.Gate.{GateInputs, decide, tau_default}
use portfolio_project.Database
use portfolio_project.Database.{
  Database, Event, Invoice, Run, PurchaseOrder, GoodsReceipt, Vendor, system, agent, human,
  run_started, extraction_completed, validate_completed, match_completed, policy_evaluated,
  gate_decided, auto_approved, human_review_completed, run_archived, run_rejected,
}
use portfolio_project.Graph.{GraphState, Route, extract, match3way, policy, gate, archive}
use portfolio_project.Graph.Context.{
  NodeContext, NodeResult, Triple, ◌>>=◌, parse_date, load_po_triple, note, visit,
}
use portfolio_project.Graph.Nodes.{
  on_run, on_invoice, or_empty, matcher_po, matcher_gr, triple_po, triple_vendor, invoice_for_match,
  backfill, route_value,
}

module _ (O : FloatOps) (ctx : NodeContext O) where
  open O use {Float, round_to, of_ratio}

  unfoldable pub run_extract : GraphState Float → Database Float → NodeResult Float
  unfolding note
  run_extract s db = do
    invoice_id ← s.invoice_id
    run_id ← s.run_db_id
    e ← ctx.extract_document (or_empty s.doc_ref)
    some (
      record (visit extract s) { extraction = some e },
      note s agent "extract" extraction_completed none db,
    )

  unfoldable pub run_match3way : GraphState Float → Database Float → NodeResult Float
  unfolding load_po_triple parse_date Matching.Engine.match3way invoice_for_match result_as_dict
      backfill on_invoice note matcher_po matcher_gr
  run_match3way s db = do
    e ← s.extraction
    triple ← load_po_triple e.po_number db
    issued ← parse_date ctx.from_iso e.issue_date
    let result =
        Matching.Engine.match3way (invoice_for_match e issued) (matcher_po triple)
          (matcher_gr triple)
    let dict = result_as_dict result
    some (
      record (visit match3way s) { matched = some dict },
      note s system "match3way" (match_completed dict) none
          (on_invoice s.invoice_id (backfill e issued triple) db),
    )

  -- The context that the policy engine judges.
  unfoldable pub policy_context :
      InvoiceExtraction Float → Option ℕ → Triple → List (NearDupHit Float) → PolicyContext Float
  policy_context e issued triple hits = record {
    invoice = record {
      invoice_number = e.invoice_number;
      vendor_name = e.vendor_name;
      po_number = e.po_number;
      currency = e.currency;
      total_amount = e.total_amount;
      iban = e.iban;
      issue_date = issued;
    };
    po = triple_po triple;
    vendor = triple_vendor triple;
    near_dup_hits = hits;
    reference_date = none;
  }

  abbrev pub or_invoice_zero : Option ℕ → ℕ
  or_invoice_zero none = 0
  or_invoice_zero (some i) = i

  unfoldable pub run_policy : GraphState Float → Database Float → NodeResult Float
  unfolding load_po_triple parse_date policy_context evaluate rounded_hits note
      Taxonomy.Wire.as_dict Policy.passed
  run_policy s db = do
    e ← s.extraction
    triple ← load_po_triple e.po_number db
    hits ← ctx.near_dup_hits (or_invoice_zero s.invoice_id) e
    issued ← parse_date ctx.from_iso e.issue_date
    let report = evaluate O (policy_context e issued triple hits)
    let dicts = map Taxonomy.Wire.as_dict report.findings
    some (
      record (visit policy s) { policy = dicts },
      note s Database.policy "policy"
          (policy_evaluated (Policy.passed report) dicts (rounded_hits O hits))
          (some report.policy_version) db,
    )

  abbrev delta_of : Option MatchDict → Option Float
  delta_of none = none
  delta_of (some m) = some (of_ratio m.normalized_delta)

  -- What the gate is given.
  unfoldable pub gate_inputs : InvoiceExtraction Float → GraphState Float → GateInputs Float
  gate_inputs e s = record {
    field_confidences = e.confidences;
    normalized_match_delta = delta_of s.matched;
    policy_severities = map (λ (d : Taxonomy.Wire.PolicyDict Float). d.severity) s.policy;
  }

  unfoldable pub run_gate : GraphState Float → Database Float → NodeResult Float
  unfolding gate_inputs decide note
  run_gate s db = do
    e ← s.extraction
    let decision = decide O (gate_inputs e s) (tau_default O)
    some (
      record (visit gate s) { confidence = some decision.confidence; gate = some decision },
      note s system "gate" (gate_decided decision) none db,
    )

  abbrev keep_or : {A : Type 0} → Option A → Option A → Option A
  keep_or none old = old
  keep_or (some a) old = some a

  abbrev route_text : Option Route → Option String
  route_text none = none
  route_text (some r) = some (route_value r)

  abbrev rounded : Option Float → Option Float
  rounded none = none
  rounded (some c) = some (round_to 5 c)

  unfoldable pub run_archive : GraphState Float → Database Float → NodeResult Float
  unfolding on_run note
  run_archive s db = do
    run_id ← s.run_db_id
    some (
      visit archive s,
      note s system "archive" (run_archived (route_text s.route) s.confidence) none (
          on_run (some run_id)
            (λ r. record r {
              status = "COMPLETED";
              finished_at = some ctx.clock;
              confidence = keep_or (rounded s.confidence) r.confidence;
              route = keep_or (route_text s.route) r.route;
            })
            db),
    )
