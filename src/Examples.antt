-- ===== src/Examples.antt =====
-- Concrete invoices, databases and failures, on which the theorems are applied.
pub mod Pipeline
pub mod Scores
pub mod Services
pub mod Failures
pub mod Gateway
pub mod Queries
pub mod Tools
pub mod Runs
use portfolio_project.Prelude.{ℕ, String, true, false, Option, none, some, List, [], ◌∷◌}
use portfolio_project.Decimal.{Decimal, decimal}
use portfolio_project.Float.{FloatOps}
use portfolio_project.Float.Fixed.{fixed}
use portfolio_project.Validation.{InvoiceExtraction, ExtractionLine}
use portfolio_project.Matching.{PoLineForMatch}
use portfolio_project.Database.{Database, PurchaseOrder, GoodsReceipt, Vendor, Invoice, Run}
use portfolio_project.Graph.{GraphState}
use portfolio_project.Graph.Context.{NodeContext}

abbrev pub order_line : PoLineForMatch
order_line = record {
  line_no = "1";
  qty = decimal 2 0;
  uom = some "EA";
  unit_price = decimal 5000 2;
}

abbrev pub order : PurchaseOrder
order = record {
  po_id = 7;
  po_number = "PO-1";
  vendor_id = 3;
  currency = "EUR";
  status = "OPEN";
  lines = order_line ∷ [];
  ordered_at = some 100;
}

abbrev pub receipt : GoodsReceipt
receipt = record { gr_number = "GR-1"; po_id = 7; received_qty = ("1", decimal 2 0) ∷ [] }

abbrev pub vendor : Vendor
vendor = record {
  vendor_id = 3;
  name = "Acme GmbH";
  iban = some "DE89370400440532013000";
  is_active = true;
  risk_flags = [];
}

abbrev pub invoice_line : ExtractionLine
invoice_line = record {
  line_no = "1";
  description = none;
  qty = some (decimal 2 0);
  uom = some "ea";
  unit_price = some (decimal 5000 2);
  tax_code = some "S";
  line_total = some (decimal 10000 2);
}

abbrev pub extracted : InvoiceExtraction ℕ
extracted = record {
  vendor_name = some "ACME  GmbH";
  vendor_tax_id = none;
  invoice_number = some "R-1";
  po_number = some "PO-1";
  issue_date = some "2026-01-10";
  due_date = some "2026-02-10";
  currency = some "EUR";
  total_amount = some (decimal 10000 2);
  tax_total = some (decimal 1900 2);
  iban = some "DE89 3704 0044 0532 0130 00";
  lines = invoice_line ∷ [];
  confidences = ("vendor_name", 1000000) ∷ ("line[1].qty", 950000) ∷ [];
}

abbrev pub received_invoice : Invoice
received_invoice = record {
  invoice_id = 1;
  content_hash = "h1";
  doc_ref = some "raw/h1";
  status = "RECEIVED";
  invoice_number = none;
  currency = none;
  amount_total = none;
  issue_date = none;
  po_id = none;
  vendor_id = none;
}

abbrev pub queued_run : Run ℕ
queued_run = record {
  run_id = 5;
  invoice_id = 1;
  status = "QUEUED";
  route = none;
  confidence = none;
  finished_at = none;
}

abbrev pub database : Database ℕ
database = record {
  purchase_orders = order ∷ [];
  goods_receipts = receipt ∷ [];
  vendors = vendor ∷ [];
  invoices = received_invoice ∷ [];
  next_invoice = 2;
  runs = queued_run ∷ [];
  next_run = 6;
  exceptions = [];
  next_exception = 1;
  decisions = [];
  next_decision = 1;
  ledger = [];
  dlq = [];
  next_dlq = 1;
}

abbrev pub new_state : GraphState ℕ
new_state = record {
  run_id = "invoice-1";
  content_hash = "";
  invoice_id = some 1;
  run_db_id = none;
  doc_ref = none;
  duplicate = false;
  extraction = none;
  validation = [];
  matched = none;
  policy = [];
  confidence = none;
  route = none;
  gate = none;
  exception_id = none;
  human_decision = none;
  node_trace = [];
}

-- An extraction agent that reads the invoice above, and a service that finds no near-duplicate.
unfoldable pub context : NodeContext fixed
unfolding fixed
context = record {
  extract_document = λ doc. some extracted;
  near_dup_hits = λ i e. some [];
  triage = λ d. none;
  clock = 1000;
  from_iso = λ s. some 110;
}
