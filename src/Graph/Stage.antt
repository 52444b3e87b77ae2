-- ===== src/Graph/Stage.antt =====
-- What the pipeline of graph/nodes/pipeline.py has established when a node is about to run.
pub mod Evidence
pub mod Verdicts
pub mod Decided
pub mod Staged
use portfolio_project.Prelude.{
  ℕ, zero, suc, String, ◌≡◌, ◌≢◌, refl, sym, ap, ◌∙◌, Bool, true, false, not, Option, none, some,
  List, [], ◌∷◌, map, any, str_eq, arith, Bool-cases, Option-cases, inl, inr,
}
use portfolio_project.Float.{FloatOps}
use portfolio_project.Validation
use portfolio_project.Validation.{
  InvoiceExtraction, CheckResult, Severity, is_error, is_error_check,
}
use portfolio_project.Validation.Engine.{validate_extraction}
use portfolio_project.Matching
use portfolio_project.Matching.{MatchOutcome, matches, tolerable, mismatch}
use portfolio_project.Policy
use portfolio_project.Taxonomy
use portfolio_project.Policy.{NearDupHit}
use portfolio_project.Policy.Rules.{evaluate}
use portfolio_project.Policy.Severity.{high_iff_failed}
use portfolio_project.Gate.{GateInputs, confidence, tau_default, decide}
use portfolio_project.Database.{Database}
use portfolio_project.Graph.{
  GraphState, Node, Route, ingest, extract, validate, match3way, policy, gate, auto_approve,
  exception_triage, human_review, archive, reject_node, next_node, route_after_ingest, has_check,
  has_finding, is_mismatch, route_after_validate, route_after_match, route_after_policy,
  route_after_gate, reaches_tau,
}
use portfolio_project.Graph.Context.{
  NodeContext, NodeResult, Triple, ◌>>=◌, load_po_triple, parse_date,
}
use portfolio_project.Graph.Nodes.{run_validate, invoice_for_match, matcher_po, matcher_gr}
use portfolio_project.Graph.Judged.{
  run_match3way, run_policy, run_gate, policy_context, gate_inputs, or_invoice_zero,
}

pub bind-eq-some :
    {A B : Type 0} (m : Option A) (f : A → Option B) {b : B}
    → (m >>= f) ≡ some b
    → (a : A) × (m ≡ some a) × (f a ≡ some b)
bind-eq-some none f h = cc
bind-eq-some (some a) f h = (a, refl, h)

pub first-eq :
    {A B : Type 0} {x y : A} {u v : B}
    → ◌≡◌ {A = Option (A × B)} (some (x, u)) (some (y, v))
    → x ≡ y
first-eq h = cc

pub same_value : {A : Type 0} {x y : A} → ◌≡◌ {A = Option A} (some x) (some y) → x ≡ y
same_value h = cc

-- `reads n db`: the node ran on this database.
module _ (O : FloatOps) (ctx : NodeContext O) (reads : Node → Database O.Float → Type 0) where
  open O use {Float, leb_float}

  pub record IsValidated (e : InvoiceExtraction Float) (s : GraphState Float) : Type 0 where
    pub extracted : s.extraction ≡ some e
    pub valid : Validation.passed (validate_extraction e) ≡ true

  pub record IsMatched (e : InvoiceExtraction Float) (s : GraphState Float) : Type 0 where
    pub issued : Option ℕ
    pub triple : Triple
    pub seen : Database Float
    pub read : reads match3way seen
    pub dated : parse_date ctx.from_iso e.issue_date ≡ some issued
    pub loaded : load_po_triple e.po_number seen ≡ some triple
    pub recorded :
        s.matched
        ≡ some (
            Matching.Wire.result_as_dict (
              Matching.Engine.match3way
                (invoice_for_match e issued)
                (matcher_po triple)
                (matcher_gr triple)))
    pub no_mismatch :
        (Matching.Engine.match3way
          (invoice_for_match e issued)
          (matcher_po triple)
          (matcher_gr triple)).outcome
        ≢ mismatch

  pub record IsPermitted (e : InvoiceExtraction Float) (s : GraphState Float) : Type 0 where
    pub issued : Option ℕ
    pub triple : Triple
    pub hits : List (NearDupHit Float)
    pub seen : Database Float
    pub read : reads policy seen
    pub dated : parse_date ctx.from_iso e.issue_date ≡ some issued
    pub loaded : load_po_triple e.po_number seen ≡ some triple
    pub searched : ctx.near_dup_hits (or_invoice_zero O ctx s.invoice_id) e ≡ some hits
    pub recorded :
        s.policy
        ≡ map Taxonomy.Wire.as_dict
            (evaluate O (policy_context O ctx e issued triple hits)).findings
    pub permitted : Policy.passed (evaluate O (policy_context O ctx e issued triple hits)) ≡ true

  pub record IsConfident (e : InvoiceExtraction Float) (s : GraphState Float) : Type 0 where
    pub scored : s.confidence ≡ some (confidence O (gate_inputs O ctx e s))
    pub reached : leb_float (tau_default O) (confidence O (gate_inputs O ctx e s)) ≡ true

  -- What holds of the state when a node is about to run.
  abbrev pub Stage : Node → GraphState Float → Type 0
  Stage match3way s = (e : InvoiceExtraction Float) × IsValidated e s
  Stage policy s = (e : InvoiceExtraction Float) × IsValidated e s × IsMatched e s
  Stage gate s = (e : InvoiceExtraction Float) × IsValidated e s × IsMatched e s × IsPermitted e s
  Stage auto_approve s =
      (e : InvoiceExtraction Float) × IsValidated e s
      × IsMatched e s
      × IsPermitted e s
      × IsConfident e s
  Stage _ s = Unit
