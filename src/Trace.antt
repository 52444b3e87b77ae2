-- ===== src/Trace.antt =====
-- api/services/trace.py: the timeline of a run, and the package of provenance of an invoice. The
-- columns that no other component reads are given by the functions of `Columns`.
use portfolio_project.Prelude.{
  ℕ, String, Bool, true, false, ◌&&◌, ◌||◌, Option, none, some, List, [], ◌∷◌, map, any, ◌==◌, ltb,
  str_eq, keep, if◌then◌else◌,
}
use portfolio_project.Database.{
  Database, Run, ExceptionRecord, Decision, LedgerEntry, Event, ActorType,
}
use portfolio_project.Database.Tables.{find_by}
use portfolio_project.Taxonomy.Draft.{Payload}
use portfolio_project.Graph.{GraphState, Node}
use portfolio_project.Queue.Detail.{event_name, or_none}
use portfolio_project.Queue.Aggregate.{is_of_invoice}

pub record Columns (F V : Type 0) : Type 0 where
  pub graph_version : Run F → String
  pub run_versions : Run F → List V
  pub started_at : Run F → ℕ
  pub decided_at : Decision → ℕ
  pub entry_versions : LedgerEntry F → List V
  pub entered_at : LedgerEntry F → ℕ

pub record TraceEvent (F V : Type 0) : Type 0 where
  pub seq : ℕ
  pub actor_type : ActorType
  pub actor_id : String
  pub event : String
  pub payload : Event F
  pub created_at : ℕ
  pub versions : Option (List V)
  pub policy_version : Option String
  pub prompt_template_version : Option String

pub record RunTrace (F V : Type 0) : Type 0 where
  pub run_id : ℕ
  pub invoice_id : ℕ
  pub status : String
  pub route : Option String
  pub confidence : Option F
  pub graph_version : String
  pub node_trace : List Node
  pub active_node : Option Node
  pub stage_models : List (String × String)
  pub timeline : List (TraceEvent F V)

pub record ProvenanceRun (F V : Type 0) : Type 0 where
  pub run_id : ℕ
  pub graph_version : String
  pub model_versions : List V
  pub route : Option String
  pub status : String
  pub confidence : Option F
  pub started_at : ℕ
  pub finished_at : Option ℕ

pub record ProvenanceException (F : Type 0) : Type 0 where
  pub exception_id : ℕ
  pub run_id : Option ℕ
  pub type_code : String
  pub severity : String
  pub status : String
  pub evidence : List (Payload F)
  pub recommendation : Option String

pub record ProvenanceDecision : Type 0 where
  pub decision_id : ℕ
  pub exception_id : ℕ
  pub actor_user : String
  pub action : String
  pub rationale : String
  pub reason_code : String
  pub created_at : ℕ

pub record ProvenancePackage (F V : Type 0) : Type 0 where
  pub invoice_id : ℕ
  pub generated_at : ℕ
  pub runs : List (ProvenanceRun F V)
  pub exceptions : List (ProvenanceException F)
  pub decisions : List ProvenanceDecision
  pub ledger : List (TraceEvent F V)

-- `order_by` of a column, for rows in the order of their insertion: equal rows keep it.
module _ {R : Type 0} (before : R → R → Bool) where
  unfoldable pub insert_by : R → List R → List R
  insert_by r [] = r ∷ []
  insert_by r (x ∷ xs) = let rest = insert_by r xs in if before x r then x ∷ rest else r ∷ x ∷ xs

  unfoldable pub sort_by : List R → List R
  unfolding insert_by
  sort_by [] = []
  sort_by (r ∷ rs) = insert_by r (sort_by rs)

-- An absent run comes last, as PostgreSQL has it.
abbrev run_before : Option ℕ → Option ℕ → Bool
run_before none b = false
run_before (some a) none = true
run_before (some a) (some b) = ltb a b

abbrev same_run : Option ℕ → Option ℕ → Bool
same_run none none = true
same_run (some a) (some b) = a == b
same_run _ _ = false

module _ {F V : Type 0} (columns : Columns F V) where
  unfoldable pub trace_event : LedgerEntry F → TraceEvent F V
  unfolding event_name
  trace_event e = record {
    seq = e.seq;
    actor_type = e.actor_type;
    actor_id = e.actor_id;
    event = event_name e.event;
    payload = e.event;
    created_at = columns.entered_at e;
    versions = or_none (columns.entry_versions e);
    policy_version = e.policy_version;
    prompt_template_version = e.prompt_version;
  }

  abbrev is_of_run : ℕ → LedgerEntry F → Bool
  is_of_run run_id e = elim e.run_id [ none ↦ false | some r ↦ r == run_id ]

  abbrev earlier_entry : LedgerEntry F → LedgerEntry F → Bool
  earlier_entry a b = ltb a.seq b.seq

  -- `order_by(LedgerEntry.run_id, LedgerEntry.seq)`.
  abbrev pub earlier_in_run : LedgerEntry F → LedgerEntry F → Bool
  earlier_in_run a b =
      run_before a.run_id b.run_id || (same_run a.run_id b.run_id && ltb a.seq b.seq)

  abbrev checkpointed : Option (GraphState F) → List Node
  checkpointed none = []
  checkpointed (some s) = s.node_trace

  -- The provider gives the state and the node that runs; a run that is not running has none.
  unfoldable pub run_trace :
      Option (ℕ → Option (GraphState F) × Option Node)
      → List (String × String)
      → ℕ
      → Database F
      → Option (RunTrace F V)
  unfolding find_by keep sort_by trace_event
  run_trace provider stage_models run_id db =
      elim (find_by (λ (r : Run F). r.run_id) run_id db.runs) [
        | none ↦ none
        | some run ↦
            let (nodes, active) : List Node × Option Node = elim provider [
              | none ↦ ([], none)
              | some p ↦
                  let (state, active) = p run.invoice_id in
                  (checkpointed state, if str_eq run.status "RUNNING" then active else none)
            ] in
            some record {
              run_id = run.run_id;
              invoice_id = run.invoice_id;
              status = run.status;
              route = run.route;
              confidence = run.confidence;
              graph_version = columns.graph_version run;
              node_trace = nodes;
              active_node = active;
              stage_models = stage_models;
              timeline =
                  map trace_event (sort_by earlier_entry (keep (is_of_run run_id) db.ledger));
            }
      ]

  abbrev provenance_run : Run F → ProvenanceRun F V
  provenance_run r = record {
    run_id = r.run_id;
    graph_version = columns.graph_version r;
    model_versions = columns.run_versions r;
    route = r.route;
    status = r.status;
    confidence = r.confidence;
    started_at = columns.started_at r;
    finished_at = r.finished_at;
  }

  abbrev provenance_exception : ExceptionRecord F → ProvenanceException F
  provenance_exception e = record {
    exception_id = e.exception_id;
    run_id = e.run_id;
    type_code = e.type_code;
    severity = e.severity;
    status = e.status;
    evidence = e.evidence;
    recommendation = e.recommendation;
  }

  abbrev provenance_decision : Decision → ProvenanceDecision
  provenance_decision d = record {
    decision_id = d.decision_id;
    exception_id = d.exception_id;
    actor_user = d.actor_user;
    action = d.action;
    rationale = d.rationale;
    reason_code = d.reason_code;
    created_at = columns.decided_at d;
  }

  abbrev exceptions_of : ℕ → Database F → List (ExceptionRecord F)
  exceptions_of invoice_id db =
      keep (λ (e : ExceptionRecord F). e.invoice_id == invoice_id) db.exceptions

  abbrev decides : List (ExceptionRecord F) → Decision → Bool
  decides exceptions d =
      any (λ (e : ExceptionRecord F). e.exception_id == d.exception_id) exceptions

  unfoldable pub provenance : ℕ → ℕ → Database F → Option (ProvenancePackage F V)
  unfolding find_by keep any sort_by trace_event
  provenance now invoice_id db = elim (find_by (λ i. i.invoice_id) invoice_id db.invoices) [
    | none ↦ none
    | some invoice ↦ some record {
      invoice_id = invoice_id;
      generated_at = now;
      runs = map provenance_run (keep (λ (r : Run F). r.invoice_id == invoice_id) db.runs);
      exceptions = map provenance_exception (exceptions_of invoice_id db);
      decisions = map provenance_decision (
          sort_by (λ (a b : Decision). ltb a.decision_id b.decision_id)
            (keep (decides (exceptions_of invoice_id db)) db.decisions));
      ledger = map trace_event (sort_by earlier_in_run (keep (is_of_invoice invoice_id) db.ledger));
    }
  ]
