-- ===== src/Graph/Context.antt =====
-- graph/runtime.py: what the nodes are given. The models behind the gateway, the clock, the
-- embeddings and the reading of ISO dates are outside the program, or behind its interfaces.
use portfolio_project.Prelude.{
  ℕ, String, Option, none, some, List, [], ◌∷◌, ◌++◌, str_eq, if◌then◌else◌, keep, ◌==◌,
}
use portfolio_project.Float.{FloatOps}
use portfolio_project.Validation.{InvoiceExtraction}
use portfolio_project.Policy.{NearDupHit}
use portfolio_project.Taxonomy.Draft.{ExceptionDraft}
use portfolio_project.Database.{Database, PurchaseOrder, GoodsReceipt, Vendor, Event, ActorType}
use portfolio_project.Database.Tables.{find_by}
use portfolio_project.Ledger.{append}
use portfolio_project.Graph.{GraphState, Node}

-- What the triage agent concludes: the classification and its recommendation.
pub record TriageOutput : Type 0 where
  pub classification : String
  pub recommendation : String
  pub prompt_version : String

pub record NodeContext (O : FloatOps) : Type 0 where
  -- The extraction agent on a document; `none` is an exception.
  pub extract_document : String → Option (InvoiceExtraction O.Float)
  -- The hits of the near-duplicate service for an invoice; `none` is an exception.
  pub near_dup_hits : ℕ → InvoiceExtraction O.Float → Option (List (NearDupHit O.Float))
  -- The triage agent; `none` if it is not configured or fails.
  pub triage : ExceptionDraft O.Float → Option TriageOutput
  pub clock : ℕ
  -- `date.fromisoformat`; `none` is its `ValueError`.
  pub from_iso : String → Option ℕ

-- A node returns the new state and the new database, or raises and has changed neither.
abbrev pub NodeResult : Type 0 → Type 0
NodeResult F = Option (GraphState F × Database F)

infixl 5 ◌>>=◌
abbrev pub ◌>>=◌ : {A B : Type 0} → Option A → (A → Option B) → Option B
none >>= f = none
some a >>= f = f a

-- `_parse_date`.
unfoldable pub parse_date : (String → Option ℕ) → Option String → Option (Option ℕ)
parse_date from_iso none = some none
parse_date from_iso (some s) = from_iso s >>= λ d. some (some d)

-- `scalar_one_or_none`: `none` is the exception on more than one row.
unfoldable pub one_or_none : {A : Type 0} → List A → Option (Option A)
one_or_none [] = some none
one_or_none (a ∷ []) = some (some a)
one_or_none (a ∷ b ∷ rest) = none

abbrev pub Triple : Type 0
Triple = Option (PurchaseOrder × Option GoodsReceipt × Option Vendor)

-- `po_number` is unique.
unfoldable pub find_po : String → List PurchaseOrder → Option PurchaseOrder
find_po n [] = none
find_po n (p ∷ ps) = if str_eq p.po_number n then some p else find_po n ps

module _ {F : Type 0} where
  unfoldable pub receipts_of : ℕ → Database F → List GoodsReceipt
  unfolding keep
  receipts_of po_id db = keep (λ (g : GoodsReceipt). g.po_id == po_id) db.goods_receipts

  triple_of : Option PurchaseOrder → Database F → Option Triple
  unfolding one_or_none receipts_of find_by
  triple_of none db = some none
  triple_of (some po) db = one_or_none (receipts_of po.po_id db) >>= λ gr.
      some (some (po, gr, find_by (λ (v : Vendor). v.vendor_id) po.vendor_id db.vendors))

  -- `_load_po_triple`: the order with its receipt and its vendor. The outer `none` is an exception.
  unfoldable pub load_po_triple : Option String → Database F → Option Triple
  unfolding triple_of find_po
  load_po_triple none db = some none
  load_po_triple (some n) db =
      if str_eq n "" then some none else triple_of (find_po n db.purchase_orders) db

  -- `_ledger`.
  unfoldable pub note :
      GraphState F → ActorType → String → Event F → Option String → Database F → Database F
  unfolding append
  note s actor_type actor_id event policy_version db =
      append
        (record {
          actor_type = actor_type;
          actor_id = actor_id;
          event = event;
          run_id = s.run_db_id;
          invoice_id = s.invoice_id;
          prompt_version = none;
          policy_version = policy_version;
        })
        db

  -- `[*state.node_trace, name]`.
  abbrev pub visit : Node → GraphState F → GraphState F
  visit n s = record s { node_trace = s.node_trace ++ n ∷ [] }
