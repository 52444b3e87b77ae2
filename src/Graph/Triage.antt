-- ===== src/Graph/Triage.antt =====
-- `exception_triage` of graph/nodes/pipeline.py: the findings in the state are read back, and the
-- exception is opened.
pub mod Drafts
use portfolio_project.Prelude.{
  ℕ, ◌+◌, String, Option, none, some, List, [], ◌∷◌, ◌++◌, map, str_eq, if◌then◌else◌,
}
use portfolio_project.Float.{FloatOps}
use portfolio_project.Validation
use portfolio_project.Validation.Wire.{CheckDict}
use portfolio_project.Matching
use portfolio_project.Matching.Wire.{FindingDict, MatchDict}
use portfolio_project.Taxonomy.{ExceptionCode, approval_required, severity_of, sla_due_at}
use portfolio_project.Taxonomy.Codes.{code_for_validation, code_for_matching}
use portfolio_project.Taxonomy.Wire.{PolicyDict, code_value, severity_value, code_of_value}
use portfolio_project.Taxonomy.Draft.{
  Payload, from_validation, from_matching, from_policy, from_gate, ExceptionDraft, Entry, draft_of,
}
use portfolio_project.Gate.{GateDecision, GateRoute, auto_approve, escalate}
use portfolio_project.Database.{
  Database, ExceptionRecord, system, agent, exception_opened, triage_completed,
}
use portfolio_project.Ledger.{append}
use portfolio_project.Graph.{GraphState, exception_triage, exception}
use portfolio_project.Graph.Context.{NodeContext, NodeResult, TriageOutput, ◌>>=◌, note, visit}
use portfolio_project.Graph.Nodes.{on_run, on_invoice}

abbrev pub match_findings : Option MatchDict → List FindingDict
match_findings none = []
match_findings (some m) = m.findings

abbrev recommendation_of : Option TriageOutput → Option String
recommendation_of none = none
recommendation_of (some t) = some t.recommendation

module _ {F : Type 0} where
  -- The loop over `state.validation`; `none` is the `ValueError` of an unknown value.
  unfoldable pub reread_validation : List CheckDict → Option (List (Entry F))
  unfolding code_for_validation
  reread_validation [] = some []
  reread_validation (d ∷ ds) =
      let rest = reread_validation ds in
      if str_eq d.severity "ERROR"
      then (do
        c ← Validation.Wire.of_dict d
        entries ← rest
        some ((code_for_validation c, from_validation d) ∷ entries))
      else rest

  unfoldable pub reread_matching : List FindingDict → Option (List (Entry F))
  unfolding code_for_matching
  reread_matching [] = some []
  reread_matching (d ∷ ds) =
      let rest = reread_matching ds in
      if str_eq d.severity "ERROR"
      then (do
        f ← Matching.Wire.of_dict d
        entries ← rest
        some ((code_for_matching f, from_matching d) ∷ entries))
      else rest

  unfoldable pub reread_policy : List (PolicyDict F) → Option (List (Entry F))
  unfolding code_of_value
  reread_policy [] = some []
  reread_policy (d ∷ ds) = do
    c ← code_of_value d.code
    entries ← reread_policy ds
    some ((c, from_policy d) ∷ entries)

  unfoldable pub entries_of : GraphState F → Option (List (Entry F))
  unfolding reread_validation reread_matching reread_policy
  entries_of s = do
    checks ← reread_validation s.validation
    findings ← reread_matching (match_findings s.matched)
    verdicts ← reread_policy s.policy
    some (checks ++ (findings ++ verdicts))

  abbrev escalated : Option (GateDecision F) → Option (GateDecision F)
  escalated none = none
  escalated (some g) = elim g.route [ escalate ↦ some g | auto_approve ↦ none ]

  -- The exception of a gate escalation, which has no findings of its own.
  unfoldable pub gate_draft : ℕ → GraphState F → Option (ExceptionDraft F)
  gate_draft invoice_id s = do
    g ← escalated s.gate
    some (record {
      invoice_id = invoice_id;
      run_id = s.run_db_id;
      code = approval_required;
      severity = severity_of approval_required;
      findings = from_gate s.confidence ∷ [];
    })

  unfoldable pub draft_from_entries : ℕ → GraphState F → List (Entry F) → Option (ExceptionDraft F)
  unfolding gate_draft draft_of
  draft_from_entries invoice_id s [] = gate_draft invoice_id s
  draft_from_entries invoice_id s (e ∷ es) = draft_of invoice_id s.run_db_id (e ∷ es)

  unfoldable pub draft_from_state : ℕ → GraphState F → Option (ExceptionDraft F)
  unfolding draft_from_entries entries_of
  draft_from_state invoice_id s = do entries ← entries_of s; draft_from_entries invoice_id s entries

  -- The second ledger entry, written only when the agent answered.
  triage_note : Option TriageOutput → GraphState F → ℕ → Database F → Database F
  unfolding append
  triage_note none s exception_id db = db
  triage_note (some t) s exception_id db =
      append
        (record {
          actor_type = agent;
          actor_id = "triage";
          event = triage_completed exception_id t.classification;
          run_id = s.run_db_id;
          invoice_id = s.invoice_id;
          prompt_version = some t.prompt_version;
          policy_version = none;
        })
        db

  -- The transaction that opens the exception.
  unfoldable pub open_exception :
      ExceptionDraft F → Option TriageOutput → ℕ → GraphState F → Database F → Database F
  unfolding sla_due_at on_invoice on_run note triage_note
  open_exception draft triage now s db =
      let id = db.next_exception in
      let row : ExceptionRecord F = record {
        exception_id = id;
        invoice_id = draft.invoice_id;
        run_id = s.run_db_id;
        type_code = code_value draft.code;
        severity = severity_value draft.severity;
        evidence = draft.findings;
        recommendation = recommendation_of triage;
        assignee = none;
        status = "OPEN";
        sla_due_at = some (sla_due_at now draft.code);
      } in
      let opened = record db { exceptions = db.exceptions ++ row ∷ []; next_exception = id + 1 } in
      triage_note triage s id (
        note s system "exception_triage"
          (exception_opened id (code_value draft.code) (severity_value draft.severity)) none
          (on_run s.run_db_id
            (λ r. record r { route = some "EXCEPTION"; status = "AWAITING_DECISION" })
            (on_invoice s.invoice_id (λ i. record i { status = "EXCEPTION" }) opened)))

module _ (O : FloatOps) (ctx : NodeContext O) where
  unfoldable pub run_exception_triage : GraphState O.Float → Database O.Float → NodeResult O.Float
  unfolding draft_from_state open_exception
  run_exception_triage s db = do
    invoice_id ← s.invoice_id
    draft ← draft_from_state invoice_id s
    some (
      record (visit exception_triage s) {
        route = some exception;
        exception_id = some db.next_exception;
      },
      open_exception draft (ctx.triage draft) ctx.clock s db,
    )
