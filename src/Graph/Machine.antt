-- ===== src/Graph/Machine.antt =====
-- graph/builder.py and graph/runner.py: the nodes under the topology, with the pause for a human
-- after `exception_triage`.
use portfolio_project.Prelude.{ℕ, zero, suc, Bool, true, false, Option, none, some}
use portfolio_project.Float.{FloatOps}
use portfolio_project.Database.{Database}
use portfolio_project.Graph.{
  GraphState, Node, HumanDecision, ingest, extract, validate, match3way, policy, gate, auto_approve,
  exception_triage, human_review, archive, reject_node, next_node,
}
use portfolio_project.Graph.Context.{NodeContext, NodeResult}
use portfolio_project.Graph.Nodes.{
  run_ingest, run_validate, run_auto_approve, run_human_review, run_reject,
}
use portfolio_project.Graph.Judged.{run_extract, run_match3way, run_policy, run_gate, run_archive}
use portfolio_project.Graph.Triage.{run_exception_triage}

-- A thread of the graph: the state of the last checkpoint and what comes next.
pub data Position : Type 0 where
  at : Node → Position
  paused_before : Node → Position
  failed_at : Node → Position
  ended : Position

pub record Thread (F : Type 0) : Type 0 where
  pub position : Position
  pub state : GraphState F
  pub database : Database F

-- `run_invoice` on a thread without a checkpoint.
unfoldable pub new_thread : {F : Type 0} → GraphState F → Database F → Thread F
new_thread s db = record { position = at ingest; state = s; database = db }

module _ (O : FloatOps) (ctx : NodeContext O) where
  open O use {Float}

  unfoldable pub run_node : Node → GraphState Float → Database Float → NodeResult Float
  run_node ingest = run_ingest
  run_node extract = run_extract O ctx
  run_node validate = run_validate
  run_node match3way = run_match3way O ctx
  run_node policy = run_policy O ctx
  run_node gate = run_gate O ctx
  run_node auto_approve = run_auto_approve
  run_node exception_triage = run_exception_triage O ctx
  run_node human_review = run_human_review
  run_node archive = run_archive O ctx
  run_node reject_node = run_reject

  -- `interrupt_after=("exception_triage",)`.
  abbrev pub interrupts_after : Node → Bool
  interrupts_after exception_triage = true
  interrupts_after _ = false

  unfoldable pub position_after : Node → Option Node → Position
  position_after n none = ended
  position_after n (some m) = elim (interrupts_after n) [ true ↦ paused_before m | false ↦ at m ]

  -- The thread after a node; a node that raises leaves the last checkpoint.
  unfoldable pub advance :
      Node → Thread Float → Option (GraphState Float × Database Float) → Thread Float
  unfolding next_node position_after
  advance n t none = record t { position = failed_at n }
  advance n t (some (s, db)) = record {
    position = position_after n (next_node O n s);
    state = s;
    database = db;
  }

  unfoldable pub step_from : Node → Thread Float → Thread Float
  unfolding run_node advance
  step_from n t = advance n t (run_node n t.state t.database)

  unfoldable pub step_at : Position → Thread Float → Thread Float
  unfolding step_from
  step_at (at n) t = step_from n t
  step_at _ t = t

  unfoldable pub step : Thread Float → Thread Float
  unfolding step_at step_from
  step t = step_at t.position t

  -- `ainvoke`, for at most `fuel` nodes.
  unfoldable pub invoke : ℕ → Thread Float → Thread Float
  unfolding step
  invoke zero t = t
  invoke (suc fuel) t = invoke fuel (step t)

  abbrev pub with_decision : HumanDecision → GraphState Float → GraphState Float
  with_decision d s = record s { human_decision = some d }

  -- `submit_decision`: the decision goes into the state of the thread, which then resumes where it
  -- was paused or failed. A thread that has ended keeps the decision and runs no node.
  unfoldable pub resume_at : Position → HumanDecision → Thread Float → Thread Float
  resume_at (paused_before n) d t = record t { position = at n; state = with_decision d t.state }
  resume_at (failed_at n) d t = record t { position = at n; state = with_decision d t.state }
  resume_at ended d t = record t { state = with_decision d t.state }
  resume_at (at n) d t = t

  unfoldable pub resume : HumanDecision → Thread Float → Thread Float
  unfolding resume_at
  resume d t = resume_at t.position d t

  -- `run_invoice` on a thread that failed: the node of the last checkpoint runs again. A paused or
  -- a finished thread is left as it is.
  unfoldable pub rerun_at : Position → Thread Float → Thread Float
  rerun_at (failed_at n) t = record t { position = at n }
  rerun_at _ t = t

  unfoldable pub rerun : Thread Float → Thread Float
  unfolding rerun_at
  rerun t = rerun_at t.position t
