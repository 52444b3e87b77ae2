-- ===== src/Examples/Runs.antt =====
-- The theorems on the runner and on the triage agent, on a run that fails and on an unsure verdict.
use portfolio_project.Prelude.{ℕ, ◌≡◌, refl, false, none, some, [], codes}
use portfolio_project.Float.Fixed.{fixed}
use portfolio_project.Retry.{value_error}
use portfolio_project.Database.{Database}
use portfolio_project.Database.Tables.{find_by}
use portfolio_project.Dlq.{run_key}
use portfolio_project.Graph.{GraphState, Node, ingest}
use portfolio_project.Graph.Context.{NodeContext}
use portfolio_project.Graph.Nodes.{run_ingest, run_to_start}
use portfolio_project.Graph.Machine.{Thread, failed_at, new_thread}
use portfolio_project.Graph.Runner.{Raised, unrecorded, execute}
use portfolio_project.Graph.Failures.{execute-lost}
use portfolio_project.Gateway.{ok}
use portfolio_project.Gateway.Transport.{Reply, answered, off}
use portfolio_project.Gateway.Completion.{valid}
use portfolio_project.Agents.{TriageOutput, triage, enforce_abstention}
use portfolio_project.Agents.Abstention.{IsVerdict, triage-IsVerdict}
use portfolio_project.Examples.{database, new_state, context}
use portfolio_project.Examples.Gateway.{client, messages, world}

-- An extraction agent that fails.
unfoldable broken : NodeContext fixed
unfolding fixed context
broken = record context { extract_document = λ doc. none }

unfoldable fresh_run : Thread (fixed.Float)
unfolding fixed new_thread
fresh_run = new_thread new_state database

abbrev raised : {F : Type 0} → Node → GraphState F → Raised
raised n s = record {
  failure = record { type_of = value_error; cause = none; context = none };
  error_type = "ValueError";
  node = "extract";
  attempts = 3;
  graph_node = some "extract";
}

-- A verdict below the floor.
unfoldable unsure : TriageOutput (fixed.Float)
unfolding fixed
unsure = record {
  classification = "PRICE_MM";
  confidence = 100000;
  suggested_action = "APPROVE";
  recommendation = "pay";
  rationale = "guess";
  evidence_cited = [];
  abstained = false;
  prompt_version = "v2";
  config_version = "triage@1";
}

abbrev answers : ℕ → Reply
answers n = answered (some (codes "{}")) none none

triage-IsVerdict_example : IsVerdict fixed (enforce_abstention fixed unsure)
triage-IsVerdict_example =
    triage-IsVerdict fixed (λ text. valid unsure) (λ v. []) answers (client off) none messages world
      (enforce_abstention fixed unsure) returned_verdict
  where
    returned_verdict :
        (triage fixed (λ text. valid unsure) (λ v. []) answers (client off) none messages world).0
        ≡ ok (enforce_abstention fixed unsure)
    returned_verdict = unfold triage fixed unsure in refl

-- A database with the invoice and no run of it.
unfoldable without_runs : Database (fixed.Float)
unfolding fixed
without_runs = record database { runs = [] }

unfoldable lost_state : GraphState (fixed.Float)
unfolding fixed
lost_state = new_state

no_run_to_start : run_ingest lost_state without_runs ≡ none
unfolding run_ingest run_to_start lost_state without_runs fixed
no_run_to_start = refl

no_run_key : lost_state.run_db_id ≡ none
unfolding lost_state
no_run_key = refl

no_run_zero : find_by run_key 0 without_runs.runs ≡ none
unfolding without_runs find_by
no_run_zero = refl

execute-lost_example :
    execute fixed context raised (some 1) (new_thread lost_state without_runs) ≡ (
      unrecorded (raised ingest lost_state),
      record { position = failed_at ingest; state = lost_state; database = without_runs },
    )
execute-lost_example =
    execute-lost fixed context raised lost_state without_runs (some 1) no_run_to_start no_run_key
      no_run_zero
