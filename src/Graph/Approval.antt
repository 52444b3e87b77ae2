-- ===== src/Graph/Approval.antt =====
-- Which threads of graph/builder.py and graph/runner.py reach `auto_approve`.
use portfolio_project.Prelude.{◌≡◌, ◌⊎◌, refl, subst, inl, inr}
use portfolio_project.Float.{FloatOps}
use portfolio_project.Validation.{InvoiceExtraction}
use portfolio_project.Database.{Database}
use portfolio_project.Graph.{GraphState, Node, HumanDecision, auto_approve}
use portfolio_project.Graph.Context.{NodeContext}
use portfolio_project.Graph.Machine.{Thread, at, step, new_thread, resume, rerun}
use portfolio_project.Graph.Stage.{IsValidated, IsMatched, IsPermitted, IsConfident, Stage}
use portfolio_project.Graph.Stage.Decided.{Stage-later}
use portfolio_project.Graph.Stage.Staged.{
  at_same, IsStaged, step-IsStaged, rerun-IsStaged, resume-IsStaged,
}

module _ (O : FloatOps) (ctx : NodeContext O) where
  open O use {Float}

  -- What can happen to the thread of one invoice, from its creation by the worker: a node runs, a
  -- failed thread is run again, a decision is submitted, or others write to the database.
  pub data Session : Thread Float → Type 0 where
    started : (s : GraphState Float) (db : Database Float) → Session (new_thread s db)
    stepped : (t : Thread Float) → Session t → Session (step O ctx t)
    run_again : (t : Thread Float) → Session t → Session (rerun O ctx t)
    decided : (d : HumanDecision) (t : Thread Float) → Session t → Session (resume O ctx d t)
    elsewhere :
        (db : Database Float) (t : Thread Float) → Session t → Session (record t { database = db })

  -- In the course of the session, the node was about to run on this database, and a step was taken.
  abbrev pub RanOn : (t : Thread Float) → Session t → Node → Database Float → Type 0
  RanOn _ (started s db) n seen = ⊥
  RanOn _ (stepped t h) n seen = ((t.position ≡ at n) × (t.database ≡ seen)) ⊎ RanOn t h n seen
  RanOn _ (run_again t h) n seen = RanOn t h n seen
  RanOn _ (decided d t h) n seen = RanOn t h n seen
  RanOn _ (elsewhere db t h) n seen = RanOn t h n seen

  IsStaged-later :
      (reads later : Node → Database Float → Type 0)
      → ((n : Node) (db : Database Float) → reads n db → later n db)
      → (t : Thread Float) → IsStaged O ctx reads t
      → IsStaged O ctx later t
  IsStaged-later reads later more t x = record {
    next = λ n p. Stage-later O ctx reads later more n t.state (x.next n p);
    failed = λ n p. Stage-later O ctx reads later more n t.state (x.failed n p);
    paused = x.paused;
  }

  Session-IsStaged : (t : Thread Float) (h : Session t) → IsStaged O ctx (RanOn t h) t
  unfolding new_thread
  Session-IsStaged _ (started s db) = record {
    next = λ n e. subst (λ k. Stage O ctx (λ m seen. ⊥) k s) (at_same e) tt;
    failed = λ n e. cc;
    paused = λ n e. cc;
  }
  Session-IsStaged _ (stepped t h) =
      step-IsStaged O ctx (RanOn _ (stepped t h)) t (λ n e. inl (e, refl))
        (IsStaged-later (RanOn t h) (RanOn _ (stepped t h)) (λ n db. inr) t (Session-IsStaged t h))
  Session-IsStaged _ (run_again t h) = rerun-IsStaged O ctx (RanOn t h) t (Session-IsStaged t h)
  Session-IsStaged _ (decided d t h) = resume-IsStaged O ctx (RanOn t h) d t (Session-IsStaged t h)
  Session-IsStaged _ (elsewhere db t h) =
      let x = Session-IsStaged t h in record { next = x.next; failed = x.failed; paused = x.paused }

  -- However a thread was driven, when `auto_approve` is about to run, the extracted invoice has
  -- passed validation; its match with the order and the receipt, as loaded from a database on which
  -- `match3way` ran in this session, is recorded and no mismatch; the policy engine has passed it
  -- with the order and the vendor, as loaded from a database on which `policy` ran in this session,
  -- and with the near-duplicates found for it, and its findings are recorded; and the confidence
  -- that the gate computes from these records has reached the threshold.
  pub auto_approve-IsJustified :
      (t : Thread Float) (h : Session t)
      → t.position ≡ at auto_approve
      → (e : InvoiceExtraction Float) × IsValidated O ctx (RanOn t h) e t.state
        × IsMatched O ctx (RanOn t h) e t.state
        × IsPermitted O ctx (RanOn t h) e t.state
        × IsConfident O ctx (RanOn t h) e t.state
  auto_approve-IsJustified t h p = (Session-IsStaged t h).next auto_approve p
