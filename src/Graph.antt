-- ===== src/Graph.antt =====
-- graph/state.py and graph/routing.py: the state that the pipeline carries, and its routes.
pub mod Context
pub mod Nodes
pub mod Judged
pub mod Triage
pub mod Machine
pub mod Order
pub mod Stage
pub mod Approval
pub mod Completion
pub mod Runner
pub mod Failures
use portfolio_project.Prelude.{
  ℕ, String, Bool, true, false, not, Option, none, some, List, [], ◌∷◌, any, str_eq, if◌then◌else◌,
}
use portfolio_project.Float.{FloatOps}
use portfolio_project.Validation.{InvoiceExtraction}
use portfolio_project.Validation.Wire.{CheckDict}
use portfolio_project.Matching.Wire.{MatchDict}
use portfolio_project.Taxonomy.Wire.{PolicyDict}
use portfolio_project.Gate.{GateDecision, tau_default}

pub data Route : Type 0 where
  auto exception reject : Route

pub data Node : Type 0 where
  ingest extract validate match3way policy gate auto_approve exception_triage human_review archive
        reject_node :
      Node

-- What `submit_decision` writes into the state.
pub record HumanDecision : Type 0 where
  pub action : String
  pub actor : String
  pub reason_code : String
  pub decision_id : ℕ

pub record GraphState (F : Type 0) : Type 0 where
  pub run_id : String
  pub content_hash : String
  pub invoice_id : Option ℕ
  pub run_db_id : Option ℕ
  pub doc_ref : Option String
  pub duplicate : Bool
  pub extraction : Option (InvoiceExtraction F)
  pub validation : List CheckDict
  pub matched : Option MatchDict
  pub policy : List (PolicyDict F)
  pub confidence : Option F
  pub route : Option Route
  pub gate : Option (GateDecision F)
  pub exception_id : Option ℕ
  pub human_decision : Option HumanDecision
  pub node_trace : List Node

-- `_has_failure` on the two kinds of result.
unfoldable pub has_check : String → List CheckDict → Bool
unfolding any
has_check severity = any (λ (d : CheckDict). str_eq d.severity severity)

unfoldable pub is_mismatch : Option MatchDict → Bool
is_mismatch none = false
is_mismatch (some m) = str_eq m.outcome "MISMATCH"

module _ {F : Type 0} where
  unfoldable pub route_after_ingest : GraphState F → Node
  route_after_ingest s = if s.duplicate then reject_node else extract

  unfoldable pub has_finding : String → List (PolicyDict F) → Bool
  unfolding any
  has_finding severity = any (λ (d : PolicyDict F). str_eq d.severity severity)

  unfoldable pub route_after_validate : GraphState F → Node
  unfolding has_check
  route_after_validate s = if has_check "ERROR" s.validation then exception_triage else match3way

  unfoldable pub route_after_match : GraphState F → Node
  unfolding is_mismatch
  route_after_match s = if is_mismatch s.matched then exception_triage else policy

  unfoldable pub route_after_policy : GraphState F → Node
  unfolding has_finding
  route_after_policy s = if has_finding "HIGH" s.policy then exception_triage else gate

module _ (O : FloatOps) where
  unfoldable pub reaches_tau : Option O.Float → Bool
  reaches_tau none = false
  reaches_tau (some c) = O.leb_float (tau_default O) c

  unfoldable pub route_after_gate : GraphState O.Float → Node
  unfolding reaches_tau
  route_after_gate s = if reaches_tau s.confidence then auto_approve else exception_triage

  -- The edges of graph/builder.py; `none` is `END`.
  unfoldable pub next_node : Node → GraphState O.Float → Option Node
  unfolding route_after_ingest route_after_validate route_after_match route_after_policy
      route_after_gate
  next_node ingest s = some (route_after_ingest s)
  next_node extract s = some validate
  next_node validate s = some (route_after_validate s)
  next_node match3way s = some (route_after_match s)
  next_node policy s = some (route_after_policy s)
  next_node gate s = some (route_after_gate s)
  next_node auto_approve s = some archive
  next_node exception_triage s = some human_review
  next_node human_review s = some archive
  next_node archive s = none
  next_node reject_node s = none
