-- ===== src/Taxonomy/Draft.antt =====
-- `ExceptionDraft` and `draft_from_findings` of tools/exception_taxonomy.py.
use portfolio_project.Prelude.{ℕ, Option, none, some, List, [], ◌∷◌, ◌++◌, map, if◌then◌else◌}
use portfolio_project.Taxonomy.{ExceptionCode, ExceptionSeverity, primary_code, severity_of}
use portfolio_project.Taxonomy.Codes.{code_for_validation, code_for_matching}
use portfolio_project.Taxonomy.Wire.{PolicyDict}
use portfolio_project.Validation
use portfolio_project.Validation.{CheckResult, is_error_check}
use portfolio_project.Validation.Wire.{CheckDict}
use portfolio_project.Matching.{MatchFinding}
use portfolio_project.Matching.Wire.{FindingDict}
use portfolio_project.Matching.Engine.{is_error_finding}

-- A finding as the exception's evidence keeps it. `from_gate` is the finding that the gate's
-- escalation makes up.
pub data Payload (F : Type 0) : Type 0 where
  from_validation : CheckDict → Payload F
  from_matching : FindingDict → Payload F
  from_policy : PolicyDict F → Payload F
  from_gate : Option F → Payload F

pub record ExceptionDraft (F : Type 0) : Type 0 where
  pub invoice_id : ℕ
  pub run_id : Option ℕ
  pub code : ExceptionCode
  pub severity : ExceptionSeverity
  pub findings : List (Payload F)

-- The pairs that the loops append to `entries`.
abbrev pub Entry : Type 0 → Type 0
Entry F = ExceptionCode × Payload F

module _ {F : Type 0} where
  unfoldable pub validation_entries : List CheckResult → List (Entry F)
  unfolding is_error_check code_for_validation Validation.Wire.as_dict
  validation_entries [] = []
  validation_entries (c ∷ cs) =
      let rest = validation_entries cs in
      if is_error_check c
      then (code_for_validation c, from_validation (Validation.Wire.as_dict c)) ∷ rest
      else rest

  unfoldable pub matching_entries : List MatchFinding → List (Entry F)
  unfolding is_error_finding code_for_matching portfolio_project.Matching.Wire.as_dict
  matching_entries [] = []
  matching_entries (f ∷ fs) =
      let rest = matching_entries fs in
      if is_error_finding f
      then (code_for_matching f, from_matching (portfolio_project.Matching.Wire.as_dict f)) ∷ rest
      else rest

  abbrev pub entry_code : Entry F → ExceptionCode
  entry_code (c, p) = c

  abbrev pub entry_payload : Entry F → Payload F
  entry_payload (c, p) = p

  -- The draft once the entries are there; `none` is the `ValueError` of no entries.
  unfoldable pub draft_of : ℕ → Option ℕ → List (Entry F) → Option (ExceptionDraft F)
  unfolding primary_code
  draft_of invoice_id run_id entries = elim (primary_code (map entry_code entries)) [
    | none ↦ none
    | some code ↦ some (record {
      invoice_id = invoice_id;
      run_id = run_id;
      code = code;
      severity = severity_of code;
      findings = map entry_payload entries;
    })
  ]

  unfoldable pub draft_from_findings :
      ℕ → Option ℕ → List CheckResult → List MatchFinding → Option (ExceptionDraft F)
  unfolding draft_of validation_entries matching_entries
  draft_from_findings invoice_id run_id validation_checks match_findings =
      draft_of invoice_id run_id
        (validation_entries validation_checks ++ matching_entries match_findings)
