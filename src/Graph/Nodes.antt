-- ===== src/Graph/Nodes.antt =====
-- The nodes of graph/nodes/pipeline.py, that need no more than the state and the
-- database, and what the others share.
use portfolio_project.Prelude.{ℕ, String, Bool, false, ◌&&◌, Option, none, some, ◌==◌, map, str_eq}
use portfolio_project.Decimal.{Decimal, zero_decimal}
use portfolio_project.Validation
use portfolio_project.Validation.{InvoiceExtraction, ExtractionLine}
use portfolio_project.Validation.Engine.{validate_extraction}
use portfolio_project.Matching.{InvoiceForMatch, InvoiceLineForMatch, PoForMatch, GrForMatch}
use portfolio_project.Policy.{PoFacts, VendorFacts}
use portfolio_project.Database.{
  Database, Event, Invoice, Run, PurchaseOrder, GoodsReceipt, Vendor, system, human, run_started,
  validate_completed, auto_approved, human_review_completed, run_rejected,
}
use portfolio_project.Database.Tables.{find_by, modify_by, last_where}
use portfolio_project.Graph.{
  GraphState, Route, HumanDecision, ingest, validate, auto_approve, human_review, reject_node, auto,
  exception, reject,
}
use portfolio_project.Graph.Context.{NodeResult, Triple, ◌>>=◌, note, visit}

abbrev pub run_key : {F : Type 0} → Run F → ℕ
run_key r = r.run_id

abbrev pub invoice_key : Invoice → ℕ
invoice_key i = i.invoice_id

abbrev pub route_value : Route → String
route_value auto = "AUTO"
route_value exception = "EXCEPTION"
route_value reject = "REJECT"

abbrev or_zero_decimal : Option Decimal → Decimal
or_zero_decimal none = zero_decimal
or_zero_decimal (some d) = d

abbrev pub or_empty : Option String → String
or_empty none = ""
or_empty (some s) = s

-- A change of the row that an optional key names, where there is one.
unfoldable pub on_run : {F : Type 0} → Option ℕ → (Run F → Run F) → Database F → Database F
unfolding modify_by
on_run none f db = db
on_run (some i) f db = record db { runs = modify_by run_key i f db.runs }

unfoldable pub on_invoice : {F : Type 0} → Option ℕ → (Invoice → Invoice) → Database F → Database F
unfolding modify_by
on_invoice none f db = db
on_invoice (some i) f db = record db { invoices = modify_by invoice_key i f db.invoices }

line_for_match : ExtractionLine → InvoiceLineForMatch
line_for_match l = record {
  line_no = l.line_no;
  qty = or_zero_decimal l.qty;
  uom = l.uom;
  unit_price = or_zero_decimal l.unit_price;
}

po_for_match : PurchaseOrder → Option Vendor → PoForMatch
po_for_match po vendor = record {
  po_number = po.po_number;
  vendor_name = elim vendor [ none ↦ none | some v ↦ some v.name ];
  currency = some po.currency;
  status = po.status;
  ordered_at = po.ordered_at;
  lines = po.lines;
}

gr_for_match : PurchaseOrder → GoodsReceipt → GrForMatch
gr_for_match po gr = record {
  gr_number = gr.gr_number;
  po_number = po.po_number;
  received_qty = gr.received_qty;
}

unfoldable pub po_facts : PurchaseOrder → PoFacts
po_facts po = record {
  po_number = po.po_number;
  status = po.status;
  ordered_at = po.ordered_at;
  currency = none;
}

unfoldable pub vendor_facts : Vendor → VendorFacts
vendor_facts v = record {
  name = v.name;
  iban = v.iban;
  is_active = v.is_active;
  risk_flags = v.risk_flags;
}

-- The order and the receipt as `match3way` takes them.
unfoldable pub matcher_po : Triple → Option PoForMatch
unfolding po_for_match
matcher_po none = none
matcher_po (some (po, gr, vendor)) = some (po_for_match po vendor)

unfoldable pub matcher_gr : Triple → Option GrForMatch
unfolding gr_for_match
matcher_gr none = none
matcher_gr (some (po, none, vendor)) = none
matcher_gr (some (po, some gr, vendor)) = some (gr_for_match po gr)

unfoldable pub triple_po : Triple → Option PoFacts
unfolding po_facts
triple_po none = none
triple_po (some (po, gr, vendor)) = some (po_facts po)

unfoldable pub triple_vendor : Triple → Option VendorFacts
unfolding vendor_facts
triple_vendor none = none
triple_vendor (some (po, gr, none)) = none
triple_vendor (some (po, gr, some v)) = some (vendor_facts v)

-- The columns of the invoice that the queue filters on.
abbrev backfill_refs : Triple → Invoice → Invoice
backfill_refs none i = i
backfill_refs (some (po, gr, vendor)) i = record i {
  po_id = some po.po_id;
  vendor_id = some po.vendor_id;
}

module _ {F : Type 0} where
  -- `_invoice_for_match`, with the date already read.
  unfoldable pub invoice_for_match : InvoiceExtraction F → Option ℕ → InvoiceForMatch
  unfolding line_for_match
  invoice_for_match e issued = record {
    vendor_name = e.vendor_name;
    invoice_number = e.invoice_number;
    po_number = e.po_number;
    currency = e.currency;
    issue_date = issued;
    lines = map line_for_match e.lines;
  }

  unfoldable pub backfill : InvoiceExtraction F → Option ℕ → Triple → Invoice → Invoice
  backfill e issued triple i = backfill_refs triple (record i {
    invoice_number = e.invoice_number;
    currency = e.currency;
    amount_total = e.total_amount;
    issue_date = issued;
  })

  abbrev review_event : Option HumanDecision → Event F
  review_event none = human_review_completed none none none none
  review_event (some d) =
      human_review_completed (some d.action) (some d.actor) (some d.reason_code)
        (some d.decision_id)

  abbrev is_run_of : ℕ → String → Run F → Bool
  is_run_of invoice_id status r = (r.invoice_id == invoice_id) && str_eq r.status status

  -- The newest queued run of the invoice, or else its newest running one.
  unfoldable pub run_to_start : ℕ → Database F → Option (Run F)
  unfolding last_where
  run_to_start invoice_id db = elim (last_where (is_run_of invoice_id "QUEUED") db.runs) [
    | some r ↦ some r
    | none ↦ last_where (is_run_of invoice_id "RUNNING") db.runs
  ]

  unfoldable pub run_ingest : GraphState F → Database F → NodeResult F
  unfolding find_by run_to_start on_run note
  run_ingest s db = do
    invoice_id ← s.invoice_id
    invoice ← find_by invoice_key invoice_id db.invoices
    run ← run_to_start invoice_id db
    let s' = record (visit ingest s) {
      invoice_id = some invoice.invoice_id;
      run_db_id = some run.run_id;
      doc_ref = invoice.doc_ref;
      content_hash = invoice.content_hash;
      duplicate = false;
    }
    some (
      s',
      note s' system "ingest" (run_started invoice.doc_ref invoice.content_hash) none
          (on_run (some run.run_id) (λ r. record r { status = "RUNNING" }) db),
    )

  unfoldable pub run_validate : GraphState F → Database F → NodeResult F
  unfolding validate_extraction Validation.Wire.as_dict note Validation.passed
  run_validate s db = do
    e ← s.extraction
    let report = validate_extraction e
    let dicts = map Validation.Wire.as_dict report.checks
    some (
      record (visit validate s) { validation = dicts },
      note s system "validate" (validate_completed (Validation.passed report) dicts) none db,
    )

  unfoldable pub run_auto_approve : GraphState F → Database F → NodeResult F
  unfolding on_invoice on_run note
  run_auto_approve s db = do
    invoice_id ← s.invoice_id
    run_id ← s.run_db_id
    some (
      record (visit auto_approve s) { route = some auto },
      note s system "auto_approve" (auto_approved s.confidence) none (
          on_run (some run_id) (λ r. record r { route = some "AUTO" })
            (on_invoice (some invoice_id) (λ i. record i { status = "AUTO_APPROVED" }) db)),
    )

  unfoldable pub run_human_review : GraphState F → Database F → NodeResult F
  unfolding note
  run_human_review s db =
      some
        (visit human_review s, note s human "human_review" (review_event s.human_decision) none db)

  unfoldable pub run_reject : GraphState F → Database F → NodeResult F
  unfolding on_run note
  run_reject s db = some (
    record (visit reject_node s) { route = some reject },
    (elim s.run_db_id [
      | none ↦ db
      | some run_id ↦
          note s system "reject" run_rejected none
            (on_run (some run_id) (λ r. record r { route = some "REJECT"; status = "REJECTED" }) db)
    ]),
  )
