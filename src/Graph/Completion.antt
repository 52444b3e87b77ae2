-- ===== src/Graph/Completion.antt =====
-- What becomes of a thread of graph/runner.py that waits for a human.
use portfolio_project.Prelude.{
  ℕ, ◌≡◌, refl, String, Bool, true, false, some, List, [], ◌∷◌, arith, ◌==◌, if◌then◌else◌, All,
}
use portfolio_project.Float.{FloatOps}
use portfolio_project.Database.{Run}
use portfolio_project.Database.Tables.{modify_by}
use portfolio_project.Ledger.{append}
use portfolio_project.Graph.{HumanDecision, human_review, next_node}
use portfolio_project.Graph.Context.{NodeContext, note}
use portfolio_project.Graph.Nodes.{on_run, run_human_review}
use portfolio_project.Graph.Judged.{run_archive}
use portfolio_project.Graph.Machine.{
  Thread, paused_before, ended, run_node, position_after, advance, step_from, step_at, step, invoke,
  resume, resume_at,
}

module _ {F : Type 0} where
  modify_by-status :
      (i : ℕ) (f : Run F → Run F) (s : String) (rs : List (Run F))
      → ((r : Run F) → ((f r).status ≡ s) × ((f r).run_id ≡ r.run_id))
      → All
          (λ (r : Run F). r.run_id ≡ i → r.status ≡ s)
          (modify_by (λ (r : Run F). r.run_id) i f rs)
  unfolding modify_by
  modify_by-status i f s [] h = tt
  modify_by-status i f s (r ∷ rs) h = (by_key (r.run_id == i) refl, modify_by-status i f s rs h)
    where
      by_key :
          (b : Bool)
          → (r.run_id == i) ≡ b
          → (if b then f r else r).run_id ≡ i
          → (if b then f r else r).status ≡ s
      by_key true e k = (h r).0
      by_key false e k = absurd (ground arith)

module _ (O : FloatOps) (ctx : NodeContext O) where
  open O use {Float}

  -- A thread that waits for a human and belongs to a run ends within two nodes after a decision is
  -- submitted, whichever it is: the decision is in its state and the run is completed.
  pub resume_completes :
      (d : HumanDecision) (t : Thread Float) (run_id : ℕ)
      → t.position ≡ paused_before human_review
      → t.state.run_db_id ≡ some run_id
      → (let t₁ : Thread Float = invoke O ctx 2 (resume O ctx d t) in
          (t₁.position ≡ ended)
          × (t₁.state.human_decision ≡ some d)
          × All (λ (r : Run Float). r.run_id ≡ run_id → r.status ≡ "COMPLETED") t₁.database.runs)
  unfolding invoke step step_at step_from advance run_node resume resume_at next_node position_after
      run_human_review run_archive note append on_run
  resume_completes d t run_id p e =
      rw (p, e)
        (refl, refl, modify_by-status run_id _ "COMPLETED" t.database.runs (λ r. (refl, refl)))
