-- ===== src/Graph/Stage/Staged.antt =====
-- A thread of graph/builder.py waits for its next node at the stage of that node.
use portfolio_project.Prelude.{
  ◌≡◌, ◌≢◌, refl, sym, subst, Option, none, some, arith, Bool-cases, inl, inr,
}
use portfolio_project.Float.{FloatOps}
use portfolio_project.Database.{Database}
use portfolio_project.Graph.{
  GraphState, Node, HumanDecision, ingest, extract, validate, match3way, policy, gate, auto_approve,
  exception_triage, human_review, archive, reject_node, next_node, route_after_ingest,
}
use portfolio_project.Graph.Context.{NodeContext}
use portfolio_project.Graph.Machine.{
  Thread, Position, at, paused_before, failed_at, ended, run_node, position_after, advance,
  step_from, step_at, step, with_decision, resume_at, resume, rerun_at, rerun,
}
use portfolio_project.Graph.Stage.{Stage}
use portfolio_project.Graph.Stage.Evidence.{after_validate, after_match}
use portfolio_project.Graph.Stage.Decided.{Stage-with_decision}
use portfolio_project.Graph.Stage.Verdicts.{after_policy, after_gate}

pub at_same : {n m : Node} → at n ≡ at m → n ≡ m
at_same h = cc

not_at : {p : Position} {n : Node} → p ≡ ended → p ≢ at n
not_at e h = cc

not_failed : {p : Position} {n : Node} → p ≡ ended → p ≢ failed_at n
not_failed e h = cc

failed_same : {n m : Node} → failed_at n ≡ failed_at m → n ≡ m
failed_same h = cc

module _ (O : FloatOps) (ctx : NodeContext O) (reads : Node → Database O.Float → Type 0) where
  open O use {Float, leb_float}

  abbrev StageOf : Option Node → GraphState Float → Type 0
  StageOf none t = Unit
  StageOf (some n) t = Stage O ctx reads n t

  after_ingest : (t : GraphState Float) → Stage O ctx reads (route_after_ingest t) t
  unfolding route_after_ingest
  after_ingest t = elim (Bool-cases t.duplicate) [ inl b ↦ rw b tt | inr b ↦ rw b tt ]

  -- A node that runs at its stage leaves the state at the stage of the node that follows it.
  after_node :
      (n : Node) (s : GraphState Float) (db : Database Float) {t : GraphState Float}
      {db' : Database Float}
      → reads n db
      → Stage O ctx reads n s
      → run_node O ctx n s db ≡ some (t, db')
      → StageOf (next_node O n t) t
  unfolding run_node next_node
  after_node ingest s db {t} w x h = after_ingest t
  after_node extract s db w x h = tt
  after_node validate s db w x h = after_validate O ctx reads s db h
  after_node match3way s db w x h = after_match O ctx reads s db w x h
  after_node policy s db w x h = after_policy O ctx reads s db w x h
  after_node gate s db w x h = after_gate O ctx reads s db x h
  after_node auto_approve s db w x h = tt
  after_node exception_triage s db w x h = tt
  after_node human_review s db w x h = tt
  after_node archive s db w x h = tt
  after_node reject_node s db w x h = tt

  -- A node waits to run, at its stage; a pause is before the human's review alone.
  pub record IsStaged (t : Thread Float) : Type 0 where
    pub next : (n : Node) → t.position ≡ at n → Stage O ctx reads n t.state
    pub failed : (n : Node) → t.position ≡ failed_at n → Stage O ctx reads n t.state
    pub paused : (n : Node) → t.position ≡ paused_before n → n ≡ human_review

  position-at :
      (n m : Node) (next : Option Node) → position_after O ctx n next ≡ at m → next ≡ some m
  unfolding position_after
  position-at n m next h = ground arith

  position-not_failed :
      (n m : Node) (next : Option Node) → position_after O ctx n next ≢ failed_at m
  unfolding position_after
  position-not_failed n m next h = ground arith

  -- The only pause is after `exception_triage`.
  position-paused :
      (n m : Node) (s : GraphState Float)
      → position_after O ctx n (next_node O n s) ≡ paused_before m
      → m ≡ human_review
  unfolding position_after next_node
  position-paused exception_triage m s h = cc
  position-paused n m s h = cc

  Stage-at :
      (next : Option Node) (m : Node) (s : GraphState Float)
      → next ≡ some m
      → StageOf next s
      → Stage O ctx reads m s
  Stage-at next m s e y = rw e at y

  step_from-IsStaged :
      (n : Node) (t : Thread Float)
      → reads n t.database
      → Stage O ctx reads n t.state
      → IsStaged (step_from O ctx n t)
  unfolding step_from advance
  step_from-IsStaged n t w x = advanced (run_node O ctx n t.state t.database) refl
    where
      advanced :
          (r : Option (GraphState Float × Database Float))
          → run_node O ctx n t.state t.database ≡ r
          → IsStaged (advance O ctx n t r)
      advanced none e = record {
        next = λ m p. cc;
        failed = λ m p. subst (λ k. Stage O ctx reads k t.state) (failed_same p) x;
        paused = λ m p. cc;
      }
      advanced (some (s, db)) e = record {
        next = λ m p.
            Stage-at (next_node O n s) m s (position-at n m (next_node O n s) p)
              (after_node n t.state t.database w x e);
        failed = λ m p. absurd (position-not_failed n m (next_node O n s) p);
        paused = λ m p. position-paused n m s p;
      }

  pub step-IsStaged :
      (t : Thread Float)
      → ((n : Node) → t.position ≡ at n → reads n t.database)
      → IsStaged t
      → IsStaged (step O ctx t)
  unfolding step step_at
  step-IsStaged t w x = by_position t.position refl
    where
      by_position : (p : Position) → t.position ≡ p → IsStaged (step_at O ctx p t)
      by_position (at n) e = step_from-IsStaged n t (w n e) (x.next n e)
      by_position (paused_before n) e = x
      by_position (failed_at n) e = x
      by_position ended e = x

  pub rerun-IsStaged : (t : Thread Float) → IsStaged t → IsStaged (rerun O ctx t)
  unfolding rerun rerun_at
  rerun-IsStaged t x = by_position t.position refl
    where
      by_position : (p : Position) → t.position ≡ p → IsStaged (rerun_at O ctx p t)
      by_position (failed_at n) e = record {
        next = λ m p. subst (λ k. Stage O ctx reads k t.state) (at_same p) (x.failed n e);
        failed = λ m p. cc;
        paused = λ m p. cc;
      }
      by_position (at n) e = x
      by_position (paused_before n) e = x
      by_position ended e = x

  resumed-IsStaged :
      (n : Node) (d : HumanDecision) (t : Thread Float)
      → Stage O ctx reads n t.state
      → IsStaged (record t { position = at n; state = with_decision O ctx d t.state })
  resumed-IsStaged n d t x = record {
    next = λ m p.
        Stage-with_decision O ctx reads m d t.state
          (subst (λ k. Stage O ctx reads k t.state) (at_same p) x);
    failed = λ m p. cc;
    paused = λ m p. cc;
  }

  pub resume-IsStaged :
      (d : HumanDecision) (t : Thread Float) → IsStaged t → IsStaged (resume O ctx d t)
  unfolding resume resume_at
  resume-IsStaged d t x = by_position t.position refl
    where
      by_position : (p : Position) → t.position ≡ p → IsStaged (resume_at O ctx p d t)
      by_position (failed_at n) e = resumed-IsStaged n d t (x.failed n e)
      by_position (paused_before n) e =
          resumed-IsStaged n d t (subst (λ k. Stage O ctx reads k t.state) (sym (x.paused n e)) tt)
      by_position (at n) e = x
      by_position ended e = record {
        next = λ m p. absurd (not_at e p);
        failed = λ m p. absurd (not_failed e p);
        paused = x.paused;
      }
