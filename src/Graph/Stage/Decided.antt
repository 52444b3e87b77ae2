-- ===== src/Graph/Stage/Decided.antt =====
-- The decision that `submit_decision` of graph/runner.py writes, and the stages.
use portfolio_project.Float.{FloatOps}
use portfolio_project.Validation.{InvoiceExtraction}
use portfolio_project.Database.{Database}
use portfolio_project.Graph.{
  GraphState, Node, HumanDecision, ingest, extract, validate, match3way, policy, gate, auto_approve,
  exception_triage, human_review, archive, reject_node,
}
use portfolio_project.Graph.Context.{NodeContext}
use portfolio_project.Graph.Judged.{gate_inputs}
use portfolio_project.Graph.Machine.{with_decision}
use portfolio_project.Graph.Stage.{IsValidated, IsMatched, IsPermitted, IsConfident, Stage}

module _ (O : FloatOps) (ctx : NodeContext O) (reads : Node → Database O.Float → Type 0) where
  open O use {Float}

  IsValidated-with_decision :
      (d : HumanDecision) (e : InvoiceExtraction Float) (s : GraphState Float)
      → IsValidated O ctx reads e s
      → IsValidated O ctx reads e (with_decision O ctx d s)
  IsValidated-with_decision d e s x = record { extracted = x.extracted; valid = x.valid }

  IsMatched-with_decision :
      (d : HumanDecision) (e : InvoiceExtraction Float) (s : GraphState Float)
      → IsMatched O ctx reads e s
      → IsMatched O ctx reads e (with_decision O ctx d s)
  IsMatched-with_decision d e s x = record {
    issued = x.issued;
    triple = x.triple;
    seen = x.seen;
    read = x.read;
    dated = x.dated;
    loaded = x.loaded;
    recorded = x.recorded;
    no_mismatch = x.no_mismatch;
  }

  IsPermitted-with_decision :
      (d : HumanDecision) (e : InvoiceExtraction Float) (s : GraphState Float)
      → IsPermitted O ctx reads e s
      → IsPermitted O ctx reads e (with_decision O ctx d s)
  IsPermitted-with_decision d e s x = record {
    issued = x.issued;
    triple = x.triple;
    hits = x.hits;
    seen = x.seen;
    read = x.read;
    dated = x.dated;
    loaded = x.loaded;
    searched = x.searched;
    recorded = x.recorded;
    permitted = x.permitted;
  }

  IsConfident-with_decision :
      (d : HumanDecision) (e : InvoiceExtraction Float) (s : GraphState Float)
      → IsConfident O ctx reads e s
      → IsConfident O ctx reads e (with_decision O ctx d s)
  unfolding gate_inputs
  IsConfident-with_decision d e s x = record { scored = x.scored; reached = x.reached }

  -- A stage does not depend on the human's decision.
  pub Stage-with_decision :
      (n : Node) (d : HumanDecision) (s : GraphState Float)
      → Stage O ctx reads n s
      → Stage O ctx reads n (with_decision O ctx d s)
  Stage-with_decision match3way d s (e, x) = (e, IsValidated-with_decision d e s x)
  Stage-with_decision policy d s (e, x, m) =
      (e, IsValidated-with_decision d e s x, IsMatched-with_decision d e s m)
  Stage-with_decision gate d s (e, x, m, p) = (
    e,
    IsValidated-with_decision d e s x,
    IsMatched-with_decision d e s m,
    IsPermitted-with_decision d e s p,
  )
  Stage-with_decision auto_approve d s (e, x, m, p, c) = (
    e,
    IsValidated-with_decision d e s x,
    IsMatched-with_decision d e s m,
    IsPermitted-with_decision d e s p,
    IsConfident-with_decision d e s c,
  )
  Stage-with_decision ingest d s x = tt
  Stage-with_decision extract d s x = tt
  Stage-with_decision validate d s x = tt
  Stage-with_decision exception_triage d s x = tt
  Stage-with_decision human_review d s x = tt
  Stage-with_decision archive d s x = tt
  Stage-with_decision reject_node d s x = tt

module _ (O : FloatOps) (ctx : NodeContext O) (reads later : Node → Database O.Float → Type 0)
    (more : (n : Node) (db : Database O.Float) → reads n db → later n db) where
  open O use {Float}

  still-IsValidated :
      {e : InvoiceExtraction Float} {s : GraphState Float}
      → IsValidated O ctx reads e s
      → IsValidated O ctx later e s
  still-IsValidated x = record { extracted = x.extracted; valid = x.valid }

  still-IsMatched :
      {e : InvoiceExtraction Float} {s : GraphState Float}
      → IsMatched O ctx reads e s
      → IsMatched O ctx later e s
  still-IsMatched x = record {
    issued = x.issued;
    triple = x.triple;
    seen = x.seen;
    read = more match3way x.seen x.read;
    dated = x.dated;
    loaded = x.loaded;
    recorded = x.recorded;
    no_mismatch = x.no_mismatch;
  }

  still-IsPermitted :
      {e : InvoiceExtraction Float} {s : GraphState Float}
      → IsPermitted O ctx reads e s
      → IsPermitted O ctx later e s
  still-IsPermitted x = record {
    issued = x.issued;
    triple = x.triple;
    hits = x.hits;
    seen = x.seen;
    read = more policy x.seen x.read;
    dated = x.dated;
    loaded = x.loaded;
    searched = x.searched;
    recorded = x.recorded;
    permitted = x.permitted;
  }

  -- A stage lasts when more nodes have run.
  pub Stage-later :
      (n : Node) (s : GraphState Float) → Stage O ctx reads n s → Stage O ctx later n s
  Stage-later match3way s (e, x) = (e, still-IsValidated x)
  Stage-later policy s (e, x, m) = (e, still-IsValidated x, still-IsMatched m)
  Stage-later gate s (e, x, m, p) = (e, still-IsValidated x, still-IsMatched m, still-IsPermitted p)
  Stage-later auto_approve s (e, x, m, p, c) = (
    e,
    still-IsValidated x,
    still-IsMatched m,
    still-IsPermitted p,
    record { scored = c.scored; reached = c.reached },
  )
  Stage-later ingest s x = tt
  Stage-later extract s x = tt
  Stage-later validate s x = tt
  Stage-later exception_triage s x = tt
  Stage-later human_review s x = tt
  Stage-later archive s x = tt
  Stage-later reject_node s x = tt
