-- ===== src/Graph/Order.antt =====
-- How far a thread of graph/builder.py runs.
use portfolio_project.Prelude.{
  ℕ, zero, suc, ◌+◌, ◌≤◌, ◌<◌, ◌≡◌, ◌≢◌, refl, sym, ◌∙◌, Option, none, some, arith,
}
use portfolio_project.Float.{FloatOps}
use portfolio_project.Database.{Database}
use portfolio_project.Graph.{
  GraphState, Node, ingest, extract, validate, match3way, policy, gate, auto_approve,
  exception_triage, human_review, archive, reject_node, next_node, route_after_ingest,
  route_after_validate, route_after_match, route_after_policy, route_after_gate,
}
use portfolio_project.Graph.Context.{NodeContext}
use portfolio_project.Graph.Machine.{
  Thread, Position, at, paused_before, failed_at, ended, run_node, position_after, advance,
  step_from, step_at, step, invoke,
}

-- How far a node stands from the entry.
abbrev pub rank : Node → ℕ
rank ingest = 0
rank extract = 1
rank validate = 2
rank match3way = 3
rank policy = 4
rank gate = 5
rank auto_approve = 6
rank exception_triage = 6
rank human_review = 7
rank archive = 8
rank reject_node = 8

rank_le : (n : Node) → rank n ≤ 8
rank_le n = ground arith

failed_not_at : {n m : Node} → failed_at n ≢ at m
failed_not_at h = cc

paused_not_at : {n m : Node} → paused_before n ≢ at m
paused_not_at h = cc

ended_not_at : {m : Node} → ended ≢ at m
ended_not_at h = cc

module _ (O : FloatOps) (ctx : NodeContext O) where
  open O use {Float}

  next_node-rank : (n m : Node) (s : GraphState Float) → next_node O n s ≡ some m → rank n < rank m
  unfolding next_node route_after_ingest route_after_validate route_after_match route_after_policy
      route_after_gate
  next_node-rank n m s h = ground arith

  position_after-rank :
      (n m : Node) (s : GraphState Float)
      → position_after O ctx n (next_node O n s) ≡ at m
      → rank n < rank m
  position_after-rank n m s h = next_node-rank n m s (following (next_node O n s) h)
    where
      following : (next : Option Node) → position_after O ctx n next ≡ at m → next ≡ some m
      following next k = unfold position_after in ground arith

  advance-rank :
      (n m : Node) (t : Thread Float) (r : Option (GraphState Float × Database Float))
      → (advance O ctx n t r).position ≡ at m
      → rank n < rank m
  unfolding advance
  advance-rank n m t none h = absurd (failed_not_at h)
  advance-rank n m t (some (s, db)) h = position_after-rank n m s h

  step-rank :
      (t : Thread Float) (m : Node)
      → (step O ctx t).position ≡ at m
      → (n : Node) × (t.position ≡ at n) × (rank n < rank m)
  unfolding step step_at step_from
  step-rank t m h = by_position t.position refl h
    where
      by_position :
          (p : Position)
          → t.position ≡ p
          → (step_at O ctx p t).position ≡ at m
          → (n : Node) × (t.position ≡ at n) × (rank n < rank m)
      by_position (at n) e k = (n, e, advance-rank n m t (run_node O ctx n t.state t.database) k)
      by_position (paused_before n) e k = absurd (paused_not_at (sym e ∙ k))
      by_position (failed_at n) e k = absurd (failed_not_at (sym e ∙ k))
      by_position ended e k = absurd (ended_not_at (sym e ∙ k))

  settles_from :
      (fuel : ℕ) (t : Thread Float)
      → ((n : Node) → t.position ≡ at n → 9 ≤ fuel + rank n)
      → (m : Node) → (invoke O ctx fuel t).position ≢ at m
  unfolding invoke
  settles_from zero t enough m h = ground (arith, enough m h, rank_le m)
  settles_from (suc fuel) t enough m h =
      settles_from fuel (step O ctx t)
        (λ k e. let (n, p, lt) = step-rank t k e in ground (arith, enough n p, lt)) m h

  -- Nine nodes are enough: after them a thread has ended, has failed at a node, or waits for a
  -- human. No run of the pipeline goes round in circles.
  pub invoke-settles : (t : Thread Float) (m : Node) → (invoke O ctx 9 t).position ≢ at m
  invoke-settles t = settles_from 9 t (λ n e. omega arith)
