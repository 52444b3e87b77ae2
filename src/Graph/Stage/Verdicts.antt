-- ===== src/Graph/Stage/Verdicts.antt =====
-- What `policy` and `gate` of graph/nodes/pipeline.py establish.
use portfolio_project.Prelude.{
  ℕ, ◌≡◌, refl, sym, ap, ◌∙◌, Bool, true, false, not, Option, some, List, map, Bool-cases, inl, inr,
}
use portfolio_project.Float.{FloatOps}
use portfolio_project.Validation.{InvoiceExtraction}
use portfolio_project.Policy
use portfolio_project.Taxonomy
use portfolio_project.Policy.{NearDupHit}
use portfolio_project.Policy.Rules.{evaluate}
use portfolio_project.Policy.Severity.{high_iff_failed}
use portfolio_project.Gate.{GateInputs, confidence, decide}
use portfolio_project.Database.{Database}
use portfolio_project.Graph.{
  GraphState, Node, policy, gate, has_finding, route_after_policy, route_after_gate, reaches_tau,
}
use portfolio_project.Graph.Context.{NodeContext, Triple, load_po_triple, parse_date}
use portfolio_project.Graph.Judged.{
  run_policy, run_gate, policy_context, gate_inputs, or_invoice_zero,
}
use portfolio_project.Graph.Stage.{
  IsValidated, IsMatched, IsPermitted, Stage, bind-eq-some, first-eq,
}

module _ (O : FloatOps) (ctx : NodeContext O) (reads : Node → Database O.Float → Type 0) where
  open O use {Float, leb_float}

  no_high :
      (e : InvoiceExtraction Float) (issued : Option ℕ) (triple : Triple)
      (hits : List (NearDupHit Float))
      → has_finding "HIGH" (
          map Taxonomy.Wire.as_dict
            (evaluate O (policy_context O ctx e issued triple hits)).findings)
        ≡ false
      → Policy.passed (evaluate O (policy_context O ctx e issued triple hits)) ≡ true
  unfolding has_finding
  no_high e issued triple hits b =
      not_false (sym (high_iff_failed O (policy_context O ctx e issued triple hits)) ∙ b)
    where
      not_false : {b : Bool} → not b ≡ false → b ≡ true
      not_false {b = true} h = refl
      not_false {b = false} h = cc

  Stage-policy :
      (e : InvoiceExtraction Float) (issued : Option ℕ) (triple : Triple)
      (hits : List (NearDupHit Float)) (seen : Database Float) (t : GraphState Float)
      → reads policy seen
      → IsValidated O ctx reads e t
      → IsMatched O ctx reads e t
      → parse_date ctx.from_iso e.issue_date ≡ some issued
      → load_po_triple e.po_number seen ≡ some triple
      → ctx.near_dup_hits (or_invoice_zero O ctx t.invoice_id) e ≡ some hits
      → t.policy
        ≡ map Taxonomy.Wire.as_dict
            (evaluate O (policy_context O ctx e issued triple hits)).findings
      → Stage O ctx reads (route_after_policy t) t
  unfolding route_after_policy
  Stage-policy e issued triple hits seen t w x m i l n p =
      elim (Bool-cases (has_finding "HIGH" t.policy)) [
        | inl b ↦ rw b tt
        | inr b ↦ rw b (
          e,
          x,
          m,
          record {
            issued = issued;
            triple = triple;
            hits = hits;
            seen = seen;
            read = w;
            recorded = p;
            dated = i;
            loaded = l;
            searched = n;
            permitted = no_high e issued triple hits (ap (has_finding "HIGH") (sym p) ∙ b);
          },
        )
      ]

  pub after_policy :
      (s : GraphState Float) (db : Database Float) {t : GraphState Float} {db' : Database Float}
      → reads policy db
      → Stage O ctx reads policy s
      → run_policy O ctx s db ≡ some (t, db')
      → Stage O ctx reads (route_after_policy t) t
  unfolding run_policy
  after_policy s db {t} w (e, x, m) h =
      let r = rw x.extracted at h in
      let (triple, q1, r1) = bind-eq-some (load_po_triple e.po_number db) _ r in
      let (hits, q2, r2) =
        bind-eq-some (ctx.near_dup_hits (or_invoice_zero O ctx s.invoice_id) e) _ r1 in
      let (issued, q3, r3) = bind-eq-some (parse_date ctx.from_iso e.issue_date) _ r2 in
      let same = sym (first-eq r3) in
      Stage-policy e issued triple hits db t w
        (record { extracted = ap (λ (x : GraphState Float). x.extraction) same; valid = x.valid })
        (record {
          issued = m.issued;
          triple = m.triple;
          seen = m.seen;
          read = m.read;
          dated = m.dated;
          loaded = m.loaded;
          recorded = ap (λ (x : GraphState Float). x.matched) same ∙ m.recorded;
          no_mismatch = m.no_mismatch;
        })
        q3 q1
        (ap (λ (x : GraphState Float). ctx.near_dup_hits (or_invoice_zero O ctx x.invoice_id) e)
            same
          ∙ q2)
        (ap (λ (x : GraphState Float). x.policy) same)

  Stage-gate :
      (e : InvoiceExtraction Float) (t : GraphState Float)
      → IsValidated O ctx reads e t
      → IsMatched O ctx reads e t
      → IsPermitted O ctx reads e t
      → t.confidence ≡ some (confidence O (gate_inputs O ctx e t))
      → Stage O ctx reads (route_after_gate O t) t
  unfolding route_after_gate
  Stage-gate e t x m p c = elim (Bool-cases (reaches_tau O t.confidence)) [
    | inl b ↦ rw b (
      e,
      x,
      m,
      p,
      record { scored = c; reached = unfold reaches_tau in ap (reaches_tau O) (sym c) ∙ b },
    )
    | inr b ↦ rw b tt
  ]

  gate_same :
      (e : InvoiceExtraction Float) (s t : GraphState Float)
      → t.matched ≡ s.matched
      → t.policy ≡ s.policy
      → gate_inputs O ctx e s ≡ gate_inputs O ctx e t
  unfolding gate_inputs
  gate_same e s t p q = rw (p, q) refl

  pub after_gate :
      (s : GraphState Float) (db : Database Float) {t : GraphState Float} {db' : Database Float}
      → Stage O ctx reads gate s
      → run_gate O ctx s db ≡ some (t, db')
      → Stage O ctx reads (route_after_gate O t) t
  unfolding run_gate decide gate_inputs
  after_gate s db {t} (e, x, m, p) h =
      let r = rw x.extracted at h in
      let same = sym (first-eq r) in
      Stage-gate e t
        (record { extracted = ap (λ (x : GraphState Float). x.extraction) same; valid = x.valid })
        (record {
          issued = m.issued;
          triple = m.triple;
          seen = m.seen;
          read = m.read;
          dated = m.dated;
          loaded = m.loaded;
          recorded = ap (λ (x : GraphState Float). x.matched) same ∙ m.recorded;
          no_mismatch = m.no_mismatch;
        })
        (record {
          issued = p.issued;
          triple = p.triple;
          hits = p.hits;
          seen = p.seen;
          read = p.read;
          dated = p.dated;
          loaded = p.loaded;
          searched =
              ap
                (λ (x : GraphState Float). ctx.near_dup_hits (or_invoice_zero O ctx x.invoice_id) e)
                same
              ∙ p.searched;
          recorded = ap (λ (x : GraphState Float). x.policy) same ∙ p.recorded;
          permitted = p.permitted;
        })
        (ap (λ (x : GraphState Float). x.confidence) same
          ∙ ap (λ (i : GateInputs Float). some (confidence O i))
              (gate_same e s t (ap (λ (x : GraphState Float). x.matched) same)
                (ap (λ (x : GraphState Float). x.policy) same)))
