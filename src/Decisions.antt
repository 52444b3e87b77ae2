-- ===== src/Decisions.antt =====
-- api/services/decisions.py and api/schemas/decisions.py: a human decides an exception.
pub mod FourEyes
pub mod Replay
pub mod Idempotence
pub mod Escalation
use portfolio_project.Prelude.{
  ℕ, ◌+◌, String, Bool, true, false, ◌&&◌, Option, none, some, List, [], ◌∷◌, ◌++◌, ◌==◌, str_eq,
  if◌then◌else◌,
}
use portfolio_project.Database.{
  Database, ExceptionRecord, Invoice, Decision, human, decision_recorded,
}
use portfolio_project.Database.Tables.{find_by, modify_by, last_where}
use portfolio_project.Ledger.{LedgerAppend, append}

pub data DecisionAction : Type 0 where
  approve return_to_vendor escalate : DecisionAction

abbrev pub action_value : DecisionAction → String
action_value approve = "APPROVE"
action_value return_to_vendor = "RETURN_TO_VENDOR"
action_value escalate = "ESCALATE"

pub record DecisionRequest : Type 0 where
  pub action : DecisionAction
  pub rationale : String
  pub reason_code : String
  pub escalate_to : Option String

pub record DecisionResponse : Type 0 where
  pub decision_id : ℕ
  pub exception_id : ℕ
  pub invoice_id : ℕ
  pub action : String
  pub actor : String
  pub reason_code : String
  pub exception_status : String
  pub graph_resumed : Bool
  pub idempotent_replay : Bool

pub data Conflict : Type 0 where
  four_eyes already_decided : Conflict

-- How a call ends: a response, `KeyError`, or `DecisionConflict`.
pub data Reply : Type 0 where
  responded : DecisionResponse → Reply
  not_found : Reply
  conflict : Conflict → Reply

unfoldable pub same_decision : Decision → DecisionRequest → String → Bool
same_decision d request user =
    str_eq d.actor_user user
    && (str_eq d.action (action_value request.action) && str_eq d.reason_code request.reason_code)

abbrev pub is_approve : DecisionAction → Bool
is_approve approve = true
is_approve _ = false

-- `request.escalate_to or "manager-queue"`.
unfoldable pub escalation_target : Option String → String
escalation_target none = "manager-queue"
escalation_target (some u) = if str_eq u "" then "manager-queue" else u

abbrev pub settle_invoice : DecisionAction → Invoice → Invoice
settle_invoice approve i = record i { status = "DECISION_APPROVED" }
settle_invoice return_to_vendor i = record i { status = "RETURNED_TO_VENDOR" }
settle_invoice escalate i = i

abbrev pub resumes : DecisionAction → Bool
resumes escalate = false
resumes _ = true

abbrev pub recorded_decision : DecisionRequest → ℕ → String → ℕ → Decision
recorded_decision request exception_id user decision_id = record {
  decision_id = decision_id;
  exception_id = exception_id;
  actor_user = user;
  action = action_value request.action;
  rationale = request.rationale;
  reason_code = request.reason_code;
}

module _ {F : Type 0} where
  abbrev pub exception_key : ExceptionRecord F → ℕ
  exception_key r = r.exception_id

  unfoldable pub latest_decision : ℕ → Database F → Option Decision
  unfolding last_where
  latest_decision exception_id db = last_where (λ d. d.exception_id == exception_id) db.decisions

  abbrev pub replay_response : Decision → ExceptionRecord F → DecisionResponse
  replay_response d exc = record {
    decision_id = d.decision_id;
    exception_id = exc.exception_id;
    invoice_id = exc.invoice_id;
    action = d.action;
    actor = d.actor_user;
    reason_code = d.reason_code;
    exception_status = exc.status;
    graph_resumed = false;
    idempotent_replay = true;
  }

  unfoldable pub replay_or_conflict :
      Option Decision → DecisionRequest → String → ExceptionRecord F → Reply
  unfolding same_decision
  replay_or_conflict none request user exc = conflict already_decided
  replay_or_conflict (some d) request user exc =
      if same_decision d request user
      then responded (replay_response d exc)
      else conflict already_decided

  -- Claim on touch, which is committed before the decision itself is judged.
  unfoldable pub claim : ExceptionRecord F → String → ExceptionRecord F
  claim exc user = elim exc.assignee [ none ↦ record exc { assignee = some user } | some _ ↦ exc ]

  -- `exc.assignee == identity.user`.
  unfoldable pub is_assignee : ExceptionRecord F → String → Bool
  is_assignee exc user = elim exc.assignee [ none ↦ false | some a ↦ str_eq a user ]

  -- The exception and the invoice's status after a decision, and whether the graph resumes.
  unfoldable pub settle_exception : DecisionRequest → ExceptionRecord F → ExceptionRecord F
  unfolding escalation_target
  settle_exception request exc = elim request.action [
    | escalate ↦ record exc { assignee = some (escalation_target request.escalate_to) }
    | _ ↦ record exc { status = "RESOLVED" }
  ]

  abbrev audit : DecisionRequest → ExceptionRecord F → String → ℕ → LedgerAppend F
  audit request exc user decision_id = record {
    actor_type = human;
    actor_id = user;
    event =
        decision_recorded decision_id exc.exception_id (action_value request.action)
          request.reason_code request.rationale request.escalate_to;
    run_id = exc.run_id;
    invoice_id = some exc.invoice_id;
    prompt_version = none;
    policy_version = none;
  }

  -- The second transaction: the decision, its effects and its ledger entry.
  unfoldable pub record_decision :
      DecisionRequest → ExceptionRecord F → String → Database F → Reply × Database F
  unfolding settle_exception append modify_by
  record_decision request exc user db =
      let decision_id = db.next_decision in
      let settled = settle_exception request exc in
      let db' = record db {
        decisions =
            db.decisions ++ recorded_decision request exc.exception_id user decision_id ∷ [];
        next_decision = decision_id + 1;
        exceptions = modify_by exception_key exc.exception_id (λ _. settled) db.exceptions;
        invoices =
            modify_by (λ i. i.invoice_id) exc.invoice_id (settle_invoice request.action)
              db.invoices;
      } in
      (
        responded (record {
          decision_id = decision_id;
          exception_id = exc.exception_id;
          invoice_id = exc.invoice_id;
          action = action_value request.action;
          actor = user;
          reason_code = request.reason_code;
          exception_status = settled.status;
          graph_resumed = resumes request.action;
          idempotent_replay = false;
        }),
        append (audit request exc user decision_id) db',
      )

  -- The four-eyes guard, over the exception as it is after the claim.
  unfoldable pub judge :
      DecisionRequest → ExceptionRecord F → String → Database F → Reply × Database F
  unfolding is_assignee record_decision
  judge request exc user db =
      if is_approve request.action && is_assignee exc user
      then (conflict four_eyes, db)
      else record_decision request exc user db

  unfoldable pub decide_found :
      DecisionRequest → ExceptionRecord F → String → Database F → Reply × Database F
  unfolding replay_or_conflict latest_decision claim judge modify_by
  decide_found request exc user db =
      if str_eq exc.status "OPEN"
      then (let claimed = claim exc user in
          judge request claimed user (record db {
            exceptions = modify_by exception_key exc.exception_id (λ _. claimed) db.exceptions;
          }))
      else (replay_or_conflict (latest_decision exc.exception_id db) request user exc, db)

  with_invoice :
      DecisionRequest
      → ExceptionRecord F
      → Option Invoice
      → String
      → Database F
      → Reply × Database F
  unfolding decide_found
  with_invoice request exc none user db = (not_found, db)
  with_invoice request exc (some _) user db = decide_found request exc user db

  with_exception :
      DecisionRequest → Option (ExceptionRecord F) → String → Database F → Reply × Database F
  unfolding with_invoice find_by
  with_exception request none user db = (not_found, db)
  with_exception request (some exc) user db =
      with_invoice request exc (find_by (λ i. i.invoice_id) exc.invoice_id db.invoices) user db

  -- `DecisionService.decide`; the caller hands the invoice of a response with `graph_resumed` to
  -- the runner.
  unfoldable pub decide : ℕ → DecisionRequest → String → Database F → Reply × Database F
  unfolding with_exception find_by
  decide exception_id request user db =
      with_exception request (find_by exception_key exception_id db.exceptions) user db
