-- ===== src/Queue/Detail.antt =====
-- api/services/queue.py: the page, the detail of one invoice, and the views they are made of. The
-- fields that are dates, numbers and texts on the wire are kept as the values they print.
use portfolio_project.Prelude.{
  ℕ, String, Bool, true, false, Option, none, some, List, [], ◌∷◌, ◌++◌, map, take, drop, length,
  if◌then◌else◌,
}
use portfolio_project.Prelude.Int.{ℤ, sub_ℕ}
use portfolio_project.Decimal.{Decimal}
use portfolio_project.Database.{
  Database, Invoice, Run, ExceptionRecord, LedgerEntry, Event, ActorType, ingest_accepted,
  ingest_duplicate, run_started, extraction_completed, validate_completed, match_completed,
  policy_evaluated, gate_decided, auto_approved, exception_opened, triage_completed,
  human_review_completed, run_archived, run_rejected, decision_recorded, run_failed, dlq_replayed,
}
use portfolio_project.Queue.{Row, Filters, Sort, Direction, sort_rows, filtered_rows}

-- api/auth.py.
pub data Role : Type 0 where
  analyst manager audit platform : Role

unfoldable pub in_provenance_roles : Role → Bool
in_provenance_roles audit = true
in_provenance_roles platform = true
in_provenance_roles _ = false

pub record Identity : Type 0 where
  pub user : String
  pub role : Role

pub record RunSummary (F : Type 0) : Type 0 where
  pub run_id : ℕ
  pub route : Option String
  pub status : String
  pub confidence : Option F

pub record ExceptionSummary : Type 0 where
  pub exception_id : ℕ
  pub type_code : String
  pub severity : String
  pub status : String
  pub assignee : Option String
  pub sla_due_at : Option ℕ
  pub sla_overdue_seconds : Option ℤ

pub record QueueItem (F : Type 0) : Type 0 where
  pub invoice_id : ℕ
  pub invoice_number : Option String
  pub status : String
  pub vendor_id : Option ℕ
  pub currency : Option String
  pub amount_total : Option Decimal
  pub issue_date : Option ℕ
  pub created_at : ℕ
  pub run : Option (RunSummary F)
  pub exc : Option ExceptionSummary

pub record QueuePage (F : Type 0) : Type 0 where
  pub items : List (QueueItem F)
  pub total : ℕ
  pub limit : ℕ
  pub offset : ℕ

-- `event.get("event")`.
unfoldable pub event_name : {F : Type 0} → Event F → String
event_name (ingest_accepted _ _) = "ingest.accepted"
event_name (ingest_duplicate _ _) = "ingest.duplicate"
event_name (run_started _ _) = "run.started"
event_name extraction_completed = "extract.completed"
event_name (validate_completed _ _) = "validate.completed"
event_name (match_completed _) = "match.completed"
event_name (policy_evaluated _ _ _) = "policy.evaluated"
event_name (gate_decided _) = "gate.decided"
event_name (auto_approved _) = "invoice.auto_approved"
event_name (exception_opened _ _ _) = "exception.opened"
event_name (triage_completed _ _) = "triage.completed"
event_name (human_review_completed _ _ _ _) = "human_review.completed"
event_name (run_archived _ _) = "run.archived"
event_name run_rejected = "run.rejected"
event_name (decision_recorded _ _ _ _ _ _) = "decision.recorded"
event_name (run_failed _ _ _ _ _) = "run.failed"
event_name (dlq_replayed _ _) = "dlq.replayed"

pub record SummaryEntry (V : Type 0) : Type 0 where
  pub seq : ℕ
  pub actor_type : ActorType
  pub actor_id : String
  pub event : String
  pub versions : Option (List V)
  pub policy_version : Option String
  pub prompt_template_version : Option String

pub record LedgerSummary (V : Type 0) : Type 0 where
  pub entry_count : ℕ
  pub last_entries : List (SummaryEntry V)

abbrev reversed : {A : Type 0} → List A → List A
reversed [] = []
reversed (x ∷ xs) = reversed xs ++ x ∷ []

-- `versions or None`.
abbrev pub or_none : {V : Type 0} → List V → Option (List V)
or_none [] = none
or_none (v ∷ vs) = some (v ∷ vs)

-- The pins of an entry are for the roles of provenance only. `versions` reads the column that the
-- other components do not.
module _ {F V : Type 0} (versions : LedgerEntry F → List V) where
  abbrev pub pinned : {A : Type 0} → Bool → Option A → Option A
  pinned with_pins a = if with_pins then a else none

  unfoldable pub summary_entry : Bool → LedgerEntry F → SummaryEntry V
  unfolding event_name
  summary_entry with_pins r = record {
    seq = r.seq;
    actor_type = r.actor_type;
    actor_id = r.actor_id;
    event = event_name r.event;
    versions = pinned with_pins (or_none (versions r));
    policy_version = pinned with_pins r.policy_version;
    prompt_template_version = pinned with_pins r.prompt_version;
  }

  unfoldable pub ledger_summary : List (LedgerEntry F) → ℕ → Identity → LedgerSummary V
  unfolding in_provenance_roles summary_entry
  ledger_summary rows count identity = record {
    entry_count = count;
    last_entries = map (summary_entry (in_provenance_roles identity.role)) (reversed rows);
  }

abbrev pub optional : {A B : Type 0} → (A → B) → Option A → Option B
optional f none = none
optional f (some a) = some (f a)

module _ {F : Type 0} where
  abbrev pub run_summary : Run F → RunSummary F
  run_summary r = record {
    run_id = r.run_id;
    route = r.route;
    status = r.status;
    confidence = r.confidence;
  }

  abbrev pub exception_summary : ℕ → ExceptionRecord F → ExceptionSummary
  exception_summary now e = record {
    exception_id = e.exception_id;
    type_code = e.type_code;
    severity = e.severity;
    status = e.status;
    assignee = e.assignee;
    sla_due_at = e.sla_due_at;
    sla_overdue_seconds = elim e.sla_due_at [ none ↦ none | some due ↦ some (sub_ℕ now due) ];
  }

  module _ (created : Invoice → ℕ) (now : ℕ) where
    unfoldable pub queue_item : Row F → QueueItem F
    queue_item r = record {
      invoice_id = r.invoice.invoice_id;
      invoice_number = r.invoice.invoice_number;
      status = r.invoice.status;
      vendor_id = r.invoice.vendor_id;
      currency = r.invoice.currency;
      amount_total = r.invoice.amount_total;
      issue_date = r.invoice.issue_date;
      created_at = created r.invoice;
      run = optional run_summary r.run;
      exc = optional (exception_summary now) r.exc;
    }

    unfoldable pub list_invoices : Database F → Filters → Sort → Direction → ℕ → ℕ → QueuePage F
    unfolding queue_item filtered_rows sort_rows
    list_invoices db f s d limit offset =
        let rows = filtered_rows created db f in
        record {
          items = map queue_item (take limit (drop offset (sort_rows created s d rows)));
          total = length rows;
          limit = limit;
          offset = offset;
        }
