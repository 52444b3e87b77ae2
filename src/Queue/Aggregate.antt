-- ===== src/Queue/Aggregate.antt =====
-- `detail` of api/services/queue.py, `_extraction_view` and `_exception_view`. The state is what the
-- provider gives for the invoice, where a checkpoint survived. Among entries with the same `seq`,
-- whose order the query leaves open, the later in the table comes first.
use portfolio_project.Prelude.{
  ℕ, String, Bool, true, false, Option, none, some, List, [], ◌∷◌, ◌==◌, leb, keep, take, length,
  if◌then◌else◌,
}
use portfolio_project.Decimal.{Decimal}
use portfolio_project.Float.{FloatOps, min_float}
use portfolio_project.Validation.{InvoiceExtraction, ExtractionLine}
use portfolio_project.Validation.Wire.{CheckDict}
use portfolio_project.Matching.Wire.{MatchDict}
use portfolio_project.Taxonomy.Wire.{PolicyDict}
use portfolio_project.Taxonomy.Draft.{Payload}
use portfolio_project.Gate.{GateDecision}
use portfolio_project.Graph.{GraphState}
use portfolio_project.Database.{Database, Invoice, ExceptionRecord, LedgerEntry}
use portfolio_project.Queue.{Row, base_rows}
use portfolio_project.Queue.Detail.{Identity, QueueItem, queue_item, LedgerSummary, ledger_summary}

pub record ExceptionView (F : Type 0) : Type 0 where
  pub exception_id : ℕ
  pub type_code : String
  pub severity : String
  pub status : String
  pub assignee : Option String
  pub sla_due_at : Option ℕ
  pub evidence : List (Payload F)
  pub recommendation : Option String

-- The view keeps the extraction's fields but the tax id of the vendor.
pub record ExtractionView (F : Type 0) : Type 0 where
  pub vendor_name : Option String
  pub invoice_number : Option String
  pub po_number : Option String
  pub issue_date : Option String
  pub due_date : Option String
  pub currency : Option String
  pub total_amount : Option Decimal
  pub tax_total : Option Decimal
  pub iban : Option String
  pub lines : List ExtractionLine
  pub confidences : List (String × F)
  pub min_confidence : Option F

pub record DetailAggregate (F V : Type 0) : Type 0 where
  pub invoice : QueueItem F
  pub lines : List ExtractionLine
  pub extraction : Option (ExtractionView F)
  pub validation : List CheckDict
  pub matched : Option MatchDict
  pub policy : List (PolicyDict F)
  pub gate : Option (GateDecision F)
  pub exc : Option (ExceptionView F)
  pub ledger : LedgerSummary V
  pub state_available : Bool

module _ {F : Type 0} where
  unfoldable pub exception_view : Option (ExceptionRecord F) → Option (ExceptionView F)
  exception_view none = none
  exception_view (some e) = some record {
    exception_id = e.exception_id;
    type_code = e.type_code;
    severity = e.severity;
    status = e.status;
    assignee = e.assignee;
    sla_due_at = e.sla_due_at;
    evidence = e.evidence;
    recommendation = e.recommendation;
  }

  -- `.where(invoice_id == id).order_by(seq.desc())`.
  unfoldable pub insert_entry : LedgerEntry F → List (LedgerEntry F) → List (LedgerEntry F)
  insert_entry r [] = r ∷ []
  insert_entry r (x ∷ xs) =
      let rest = insert_entry r xs in if leb x.seq r.seq then r ∷ x ∷ xs else x ∷ rest

  unfoldable pub newest_first : List (LedgerEntry F) → List (LedgerEntry F)
  unfolding insert_entry
  newest_first rows = sorted [] rows
    where
      sorted : List (LedgerEntry F) → List (LedgerEntry F) → List (LedgerEntry F)
      sorted done [] = done
      sorted done (r ∷ rs) = sorted (insert_entry r done) rs

  abbrev pub is_of_invoice : ℕ → LedgerEntry F → Bool
  is_of_invoice invoice_id e = elim e.invoice_id [ none ↦ false | some i ↦ i == invoice_id ]

  unfoldable pub entries_of : ℕ → Database F → List (LedgerEntry F)
  unfolding keep
  entries_of invoice_id db = keep (is_of_invoice invoice_id) db.ledger

module _ (O : FloatOps) where
  open O use {Float}

  abbrev least_from : Float → List (String × Float) → Float
  least_from m [] = m
  least_from m ((name, c) ∷ cs) = least_from (min_float O m c) cs

  unfoldable pub min_confidence_of : List (String × Float) → Option Float
  min_confidence_of [] = none
  min_confidence_of ((name, c) ∷ cs) = some (least_from c cs)

  unfoldable pub extraction_view :
      Option (InvoiceExtraction Float) → Option (ExtractionView Float) × List ExtractionLine
  unfolding min_confidence_of
  extraction_view none = (none, [])
  extraction_view (some raw) = (
    some record {
      vendor_name = raw.vendor_name;
      invoice_number = raw.invoice_number;
      po_number = raw.po_number;
      issue_date = raw.issue_date;
      due_date = raw.due_date;
      currency = raw.currency;
      total_amount = raw.total_amount;
      tax_total = raw.tax_total;
      iban = raw.iban;
      lines = raw.lines;
      confidences = raw.confidences;
      min_confidence = min_confidence_of raw.confidences;
    },
    raw.lines,
  )

  module _ {V : Type 0} (versions : LedgerEntry Float → List V) (created : Invoice → ℕ) (now : ℕ)
      (state_provider : ℕ → Option (GraphState Float)) where
    abbrev of_state : {A : Type 0} → A → (GraphState Float → A) → Option (GraphState Float) → A
    of_state a f none = a
    of_state a f (some s) = f s

    abbrev pub aggregate : Database Float → ℕ → Identity → Row Float → DetailAggregate Float V
    aggregate db invoice_id identity row =
        let state = state_provider invoice_id in
        let (view, lines) = extraction_view (of_state none (λ s. s.extraction) state) in
        record {
          invoice = queue_item created now row;
          lines = lines;
          extraction = view;
          validation = of_state [] (λ s. s.validation) state;
          matched = of_state none (λ s. s.matched) state;
          policy = of_state [] (λ s. s.policy) state;
          gate = of_state none (λ s. s.gate) state;
          exc = exception_view row.exc;
          ledger =
              ledger_summary versions (take 10 (newest_first (entries_of invoice_id db)))
                (length (entries_of invoice_id db)) identity;
          state_available = of_state false (λ s. true) state;
        }

    -- The row of the listing's query with the invoice's key, if there is one.
    unfoldable pub detail : Database Float → ℕ → Identity → Option (DetailAggregate Float V)
    unfolding base_rows keep extraction_view exception_view ledger_summary queue_item newest_first
        entries_of
    detail db invoice_id identity =
        elim (keep (λ (r : Row Float). r.invoice.invoice_id == invoice_id)
          (base_rows created db db.invoices)) [
            | [] ↦ none
            | row ∷ rows ↦ some (aggregate db invoice_id identity row)
          ]
