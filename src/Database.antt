-- ===== src/Database.antt =====
-- db/models.py: the tables that the components write, as lists of rows in the order of insertion,
-- with the sequence from which each table takes its keys. `F` is the type of floating-point
-- numbers. A date is a day number and a time a number of seconds.
pub mod Tables
use portfolio_project.Prelude.{ℕ, String, Bool, Option, List}
use portfolio_project.Decimal.{Decimal}
use portfolio_project.Matching.{PoLineForMatch}
use portfolio_project.Validation.Wire.{CheckDict}
use portfolio_project.Matching.Wire.{MatchDict}
use portfolio_project.Taxonomy.Wire.{PolicyDict}
use portfolio_project.Taxonomy.Draft.{Payload}
use portfolio_project.Gate.{GateDecision}
use portfolio_project.Policy.{NearDupHit}

-- The `lines` and `received_qty` columns hold the rows that matching.py reads from their JSON.
pub record PurchaseOrder : Type 0 where
  pub po_id : ℕ
  pub po_number : String
  pub vendor_id : ℕ
  pub currency : String
  pub status : String
  pub lines : List PoLineForMatch
  pub ordered_at : Option ℕ

pub record GoodsReceipt : Type 0 where
  pub gr_number : String
  pub po_id : ℕ
  pub received_qty : List (String × Decimal)

pub record Vendor : Type 0 where
  pub vendor_id : ℕ
  pub name : String
  pub iban : Option String
  pub is_active : Bool
  pub risk_flags : List String

pub record Invoice : Type 0 where
  pub invoice_id : ℕ
  pub content_hash : String
  pub doc_ref : Option String
  pub status : String
  pub invoice_number : Option String
  pub currency : Option String
  pub amount_total : Option Decimal
  pub issue_date : Option ℕ
  pub po_id : Option ℕ
  pub vendor_id : Option ℕ

pub record Run (F : Type 0) : Type 0 where
  pub run_id : ℕ
  pub invoice_id : ℕ
  pub status : String
  pub route : Option String
  pub confidence : Option F
  pub finished_at : Option ℕ

pub record ExceptionRecord (F : Type 0) : Type 0 where
  pub exception_id : ℕ
  pub invoice_id : ℕ
  pub run_id : Option ℕ
  pub type_code : String
  pub severity : String
  pub evidence : List (Payload F)
  pub recommendation : Option String
  pub assignee : Option String
  pub status : String
  pub sla_due_at : Option ℕ

pub record Decision : Type 0 where
  pub decision_id : ℕ
  pub exception_id : ℕ
  pub actor_user : String
  pub action : String
  pub rationale : String
  pub reason_code : String

-- The `event` column, a constructor for each value of the key "event" that is modelled.
pub data Event (F : Type 0) : Type 0 where
  ingest_accepted : String → Option String → Event F
  ingest_duplicate : String → ℕ → Event F
  run_started : Option String → String → Event F
  extraction_completed : Event F
  validate_completed : Bool → List CheckDict → Event F
  match_completed : MatchDict → Event F
  policy_evaluated : Bool → List (PolicyDict F) → List (NearDupHit F) → Event F
  gate_decided : GateDecision F → Event F
  auto_approved : Option F → Event F
  exception_opened : ℕ → String → String → Event F
  triage_completed : ℕ → String → Event F
  human_review_completed : Option String → Option String → Option String → Option ℕ → Event F
  run_archived : Option String → Option F → Event F
  run_rejected : Event F
  decision_recorded : ℕ → ℕ → String → String → String → Option String → Event F
  run_failed : String → String → String → ℕ → ℕ → Event F
  dlq_replayed : ℕ → String → Event F

pub data ActorType : Type 0 where
  system agent human policy : ActorType

pub record LedgerEntry (F : Type 0) : Type 0 where
  pub run_id : Option ℕ
  pub invoice_id : Option ℕ
  pub seq : ℕ
  pub actor_type : ActorType
  pub actor_id : String
  pub event : Event F
  pub policy_version : Option String
  pub prompt_version : Option String

pub record DlqEntry : Type 0 where
  pub dlq_id : ℕ
  pub run_id : ℕ
  pub invoice_id : ℕ
  pub node : String
  pub failure_kind : String
  pub error_type : String
  pub attempts : ℕ
  pub status : String

pub record Database (F : Type 0) : Type 0 where
  pub purchase_orders : List PurchaseOrder
  pub goods_receipts : List GoodsReceipt
  pub vendors : List Vendor
  pub invoices : List Invoice
  pub next_invoice : ℕ
  pub runs : List (Run F)
  pub next_run : ℕ
  pub exceptions : List (ExceptionRecord F)
  pub next_exception : ℕ
  pub decisions : List Decision
  pub next_decision : ℕ
  pub ledger : List (LedgerEntry F)
  pub dlq : List DlqEntry
  pub next_dlq : ℕ
