-- ===== src/Graph/Stage/Evidence.antt =====
-- What `validate` and `match3way` of graph/nodes/pipeline.py establish.
use portfolio_project.Prelude.{
  ℕ, ◌≡◌, refl, sym, ap, ◌∙◌, Bool, true, false, not, Option, some, List, [], ◌∷◌, map, any, str_eq,
  arith, Bool-cases, Option-cases, inl, inr,
}
use portfolio_project.Float.{FloatOps}
use portfolio_project.Validation
use portfolio_project.Validation.{
  InvoiceExtraction, CheckResult, Severity, is_error, is_error_check,
}
use portfolio_project.Validation.Engine.{validate_extraction}
use portfolio_project.Matching
use portfolio_project.Matching.{MatchOutcome, matches, tolerable, mismatch}
use portfolio_project.Database.{Database}
use portfolio_project.Graph.{
  GraphState, Node, match3way, has_check, is_mismatch, route_after_validate, route_after_match,
}
use portfolio_project.Graph.Context.{NodeContext, Triple, load_po_triple, parse_date}
use portfolio_project.Graph.Nodes.{run_validate, invoice_for_match, matcher_po, matcher_gr}
use portfolio_project.Graph.Judged.{run_match3way}
use portfolio_project.Graph.Stage.{IsValidated, Stage, bind-eq-some, first-eq}

error_value : (s : Severity) → str_eq (Validation.Wire.severity_value s) "ERROR" ≡ is_error s
error_value Severity.error = refl
error_value Severity.warn = refl

has_check-as_dict :
    (cs : List CheckResult)
    → has_check "ERROR" (map Validation.Wire.as_dict cs) ≡ any is_error_check cs
unfolding has_check Validation.Wire.as_dict is_error_check
has_check-as_dict [] = refl
has_check-as_dict (c ∷ cs) = rw (error_value c.severity, has_check-as_dict cs)

passed_of :
    (r : Validation.ValidationReport)
    → Validation.passed r ≡ not (has_check "ERROR" (map Validation.Wire.as_dict r.checks))
unfolding Validation.passed
passed_of r = rw (has_check-as_dict r.checks)

is_mismatch_value :
    (o : MatchOutcome) → o ≡ mismatch → str_eq (Matching.Wire.outcome_value o) "MISMATCH" ≡ true
is_mismatch_value mismatch q = refl
is_mismatch_value o q = cc

false_not_true : {b : Bool} → b ≡ true → b ≡ false → ⊥
false_not_true p q = cc

module _ (O : FloatOps) (ctx : NodeContext O) (reads : Node → Database O.Float → Type 0) where
  open O use {Float, leb_float}

  Stage-validate :
      (e : InvoiceExtraction Float) (t : GraphState Float)
      → t.extraction ≡ some e
      → t.validation ≡ map Validation.Wire.as_dict (validate_extraction e).checks
      → Stage O ctx reads (route_after_validate t) t
  unfolding route_after_validate
  Stage-validate e t x v = elim (Bool-cases (has_check "ERROR" t.validation)) [
    | inl b ↦ rw b tt
    | inr b ↦ rw b (
      e,
      record {
        extracted = x;
        valid = passed_of (validate_extraction e) ∙ ap not (ap (has_check "ERROR") (sym v) ∙ b);
      },
    )
  ]

  pub after_validate :
      (s : GraphState Float) (db : Database Float) {t : GraphState Float} {db' : Database Float}
      → run_validate s db ≡ some (t, db')
      → Stage O ctx reads (route_after_validate t) t
  unfolding run_validate
  after_validate s db h =
      let (e, q, r) = bind-eq-some s.extraction _ h in
      let same = first-eq r in
      Stage-validate e _ (ap (λ (x : GraphState Float). x.extraction) (sym same) ∙ q)
        (ap (λ (x : GraphState Float). x.validation) (sym same))

  Stage-match :
      (e : InvoiceExtraction Float) (issued : Option ℕ) (triple : Triple) (seen : Database Float)
      (t : GraphState Float)
      → reads match3way seen
      → IsValidated O ctx reads e t
      → parse_date ctx.from_iso e.issue_date ≡ some issued
      → load_po_triple e.po_number seen ≡ some triple
      → t.matched
        ≡ some (
            Matching.Wire.result_as_dict (
              Matching.Engine.match3way
                (invoice_for_match e issued)
                (matcher_po triple)
                (matcher_gr triple)))
      → Stage O ctx reads (route_after_match t) t
  unfolding route_after_match
  Stage-match e issued triple seen t w x i l m = elim (Bool-cases (is_mismatch t.matched)) [
    | inl b ↦ rw b tt
    | inr b ↦ rw b (
      e,
      x,
      record {
        issued = issued;
        triple = triple;
        seen = seen;
        read = w;
        dated = i;
        loaded = l;
        recorded = m;
        no_mismatch = λ q.
            false_not_true (is_mismatch_value _ q)
              (unfold is_mismatch Matching.Wire.result_as_dict in ap is_mismatch (sym m) ∙ b);
      },
    )
  ]

  pub after_match :
      (s : GraphState Float) (db : Database Float) {t : GraphState Float} {db' : Database Float}
      → reads match3way db
      → Stage O ctx reads match3way s
      → run_match3way O ctx s db ≡ some (t, db')
      → Stage O ctx reads (route_after_match t) t
  unfolding run_match3way
  after_match s db {t} w (e, x) h = elim (Option-cases (load_po_triple e.po_number db)) [
    | inl p ↦ absurd (ground (arith, x.extracted))
    | inr (triple, p) ↦ elim (Option-cases (parse_date ctx.from_iso e.issue_date)) [
      | inl r ↦ absurd (ground (arith, x.extracted))
      | inr (issued, r) ↦
          Stage-match e issued triple db t w
            (record { extracted = ground (arith, x.extracted); valid = x.valid }) r p
            (ground (arith, x.extracted))
    ]
  ]
