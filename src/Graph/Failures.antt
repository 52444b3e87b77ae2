-- ===== src/Graph/Failures.antt =====
-- What is left in the dead-letter queue when a run of graph/runner.py fails.
use mathlib.Core.List.Perm
use mathlib.Core.List.{Perm}
use portfolio_project.Prelude.{ℕ, ◌≡◌, refl, Option, none, some, List, ◌∷◌}
use portfolio_project.Float.{FloatOps}
use portfolio_project.Database.{Database, DlqEntry}
use portfolio_project.Dlq.{record_failure, pending, references_hold, run_key}
use portfolio_project.Graph.{GraphState, Node, ingest}
use portfolio_project.Graph.Context.{NodeContext}
use portfolio_project.Graph.Machine.{
  Thread, failed_at, invoke, step, step_at, step_from, advance, run_node, new_thread,
}
use portfolio_project.Graph.Nodes.{run_ingest}
use portfolio_project.Database.Tables.{find_by}
use portfolio_project.Graph.Runner.{
  Raised, RunReply, recorded, unrecorded, settle, execute, failure_meta,
}

module _ {F : Type 0} where
  -- The recording succeeded, and added this entry to those that are pending.
  abbrev IsRecorded : DlqEntry → Database F → Option (ℕ × Database F) → Type 0
  IsRecorded e db none = ⊥
  IsRecorded e db (some (dlq_id, db₁)) = Perm (pending db₁) (e ∷ pending db)

  -- The call ended with the exception of the node, and its entry is pending.
  abbrev pub IsPending : DlqEntry → Raised → Database F → RunReply F × Thread F → Type 0
  IsPending e r db (reply, t) = (reply ≡ recorded r) × Perm (pending t.database) (e ∷ pending db)

-- When the first node of a new thread fails before it has found the run, and no run has the key 0,
-- the call ends with the exception of the recording: nothing is added to the dead-letter queue or to
-- the ledger, and no run is marked as failed.
pub execute-lost :
    (O : FloatOps) (ctx : NodeContext O) (raised : Node → GraphState O.Float → Raised)
    (s : GraphState O.Float) (db : Database O.Float) (invoice_id : Option ℕ)
    → run_ingest s db ≡ none
    → s.run_db_id ≡ none
    → find_by run_key 0 db.runs ≡ none
    → execute O ctx raised invoice_id (new_thread s db) ≡ (
      unrecorded (raised ingest s),
      record { position = failed_at ingest; state = s; database = db },
    )
unfolding execute invoke step step_at step_from advance run_node new_thread settle record_failure
    references_hold failure_meta
execute-lost O ctx raised s db invoice_id h e f = rw (h, e, f) refl
