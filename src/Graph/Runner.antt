-- ===== src/Graph/Runner.antt =====
-- graph/runner.py: the calls of the runner on the thread of one invoice, with the record of a
-- failure in the dead-letter queue. How a node failed is what its retries left.
use portfolio_project.Prelude.{ℕ, String, Option, none, some}
use portfolio_project.Float.{FloatOps}
use portfolio_project.Database.{Database}
use portfolio_project.Retry.{Failure, retry_exhausted}
use portfolio_project.Dlq.{record_failure}
use portfolio_project.Graph.{GraphState, Node, HumanDecision}
use portfolio_project.Graph.Context.{NodeContext}
use portfolio_project.Graph.Machine.{
  Thread, Position, at, paused_before, failed_at, ended, invoke, resume, rerun,
}

-- The exception that left a node: its failure, the name of its type, the node and the attempts of
-- `RetryExhausted`, and the tag `graph_node` that the retry wrapper sets on the failures it passes
-- on. A node that is not wrapped sets none.
pub record Raised : Type 0 where
  pub failure : Failure
  pub error_type : String
  pub node : String
  pub attempts : ℕ
  pub graph_node : Option String

abbrev tag_or_unknown : Option String → String
tag_or_unknown none = "unknown"
tag_or_unknown (some name) = name

-- `_failure_meta`: the failing node and the attempts. A failure of the business raises on its first
-- attempt.
unfoldable pub failure_meta : Raised → String × ℕ
failure_meta r = elim r.failure.type_of [
  | retry_exhausted ↦ (r.node, r.attempts)
  | _ ↦ (tag_or_unknown r.graph_node, 1)
]

-- How a call ends: with the state, with the node's exception after it was recorded, or with the
-- exception of the recording.
pub data RunReply (F : Type 0) : Type 0 where
  returned : GraphState F → RunReply F
  recorded : Raised → RunReply F
  unrecorded : Raised → RunReply F

module _ {F : Type 0} (raised : Node → GraphState F → Raised) where
  abbrev pub after_recording : Raised → Thread F → Option (ℕ × Database F) → RunReply F × Thread F
  after_recording r t none = (unrecorded r, t)
  after_recording r t (some (dlq_id, db)) = (recorded r, record t { database = db })

  -- What `_execute` does once the graph has stopped. The last checkpoint has the run's key.
  unfoldable pub settle : Option ℕ → Position → Thread F → RunReply F × Thread F
  unfolding record_failure failure_meta
  settle invoice_id (failed_at n) t =
      let r = raised n t.state in
      let (node, attempts) = failure_meta r in
      after_recording r t (
        record_failure t.state.run_db_id invoice_id node r.failure r.error_type attempts t.database)
  settle invoice_id _ t = (returned t.state, t)

module _ (O : FloatOps) (ctx : NodeContext O) (raised : Node → GraphState O.Float → Raised) where
  open O use {Float}

  -- Nine nodes are enough for a thread to stop.
  unfoldable pub execute : Option ℕ → Thread Float → RunReply Float × Thread Float
  unfolding settle invoke
  execute invoice_id t = let t₁ = invoke O ctx 9 t in settle raised invoice_id t₁.position t₁

  -- A paused or a finished thread is returned as it is; a failed or an interrupted one goes on.
  unfoldable pub run_at : Option ℕ → Position → Thread Float → RunReply Float × Thread Float
  unfolding execute rerun
  run_at invoice_id (paused_before n) t = (returned t.state, t)
  run_at invoice_id ended t = (returned t.state, t)
  run_at invoice_id _ t = execute invoice_id (rerun O ctx t)

  unfoldable pub run_invoice : Option ℕ → Thread Float → RunReply Float × Thread Float
  unfolding run_at
  run_invoice invoice_id t = run_at invoice_id t.position t

  unfoldable pub submit_decision :
      Option ℕ → HumanDecision → Thread Float → RunReply Float × Thread Float
  unfolding execute resume
  submit_decision invoice_id d t = execute invoice_id (resume O ctx d t)

  -- The node that runs, or none where the thread waits for a human or has ended.
  unfoldable pub active_node : Position → Option Node
  active_node (at n) = some n
  active_node (failed_at n) = some n
  active_node (paused_before n) = none
  active_node ended = none

  unfoldable pub activity : Option (Thread Float) → Option (GraphState Float) × Option Node
  unfolding active_node
  activity none = (none, none)
  activity (some t) = (some t.state, active_node t.position)

  unfoldable pub state_for : Option (Thread Float) → Option (GraphState Float)
  state_for none = none
  state_for (some t) = some t.state
