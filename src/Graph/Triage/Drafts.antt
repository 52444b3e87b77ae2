-- ===== src/Graph/Triage/Drafts.antt =====
-- What `exception_triage` of graph/nodes/pipeline.py reads back from the state.
use portfolio_project.Prelude.{
  ◌≡◌, refl, ◌∙◌, true, some, List, [], ◌∷◌, ◌++◌, map, str_eq, Bool-cases, inl, inr,
}
use portfolio_project.Validation
use portfolio_project.Validation.{CheckResult, Severity, is_error, is_error_check}
use portfolio_project.Validation.Wire.{CheckDict}
use portfolio_project.Taxonomy.Codes.{code_for_validation, code_for_matching}
use portfolio_project.Matching
use portfolio_project.Matching.{MatchFinding, MatchResult}
use portfolio_project.Matching.Wire.{FindingDict, result_as_dict}
use portfolio_project.Taxonomy
use portfolio_project.Taxonomy.{primary_code}
use portfolio_project.Taxonomy.Draft.{
  from_validation, from_matching, from_policy, Entry, validation_entries, matching_entries,
}
use portfolio_project.Matching.Engine.{is_error_finding}
use portfolio_project.Policy.{PolicyFinding}
use portfolio_project.Graph.{GraphState}
use portfolio_project.Graph.Triage.{reread_validation, reread_matching, reread_policy, entries_of}

error_text : (s : Severity) → str_eq (Validation.Wire.severity_value s) "ERROR" ≡ is_error s
error_text Severity.error = refl
error_text Severity.warn = refl

finding_text :
    (s : Matching.Severity) → str_eq (Matching.Wire.severity_value s) "ERROR" ≡ Matching.is_error s
finding_text Matching.Severity.error = refl
finding_text Matching.Severity.warn = refl

module _ {F : Type 0} where
  check-read :
      (d : CheckDict) (ds : List CheckDict) (c : CheckResult) (rest : List (Entry F))
      → str_eq d.severity "ERROR" ≡ true
      → Validation.Wire.of_dict d ≡ some c
      → reread_validation ds ≡ some rest
      → reread_validation (d ∷ ds) ≡ some ((code_for_validation c, from_validation d) ∷ rest)
  unfolding reread_validation
  check-read d ds c rest b o r = rw (b, o, r) refl

  finding-read :
      (d : FindingDict) (ds : List FindingDict) (f : MatchFinding) (rest : List (Entry F))
      → str_eq d.severity "ERROR" ≡ true
      → Matching.Wire.of_dict d ≡ some f
      → reread_matching ds ≡ some rest
      → reread_matching (d ∷ ds) ≡ some ((code_for_matching f, from_matching d) ∷ rest)
  unfolding reread_matching
  finding-read d ds f rest b o r = rw (b, o, r) refl

  -- The checks that `validate` wrote into the state are read back to the same entries.
  pub reread_validation-as_dict :
      (cs : List CheckResult)
      → reread_validation {F = F} (map Validation.Wire.as_dict cs) ≡ some (validation_entries cs)
  unfolding reread_validation validation_entries is_error_check Validation.Wire.as_dict
  reread_validation-as_dict [] = refl
  reread_validation-as_dict (c ∷ cs) = elim (Bool-cases (is_error_check c)) [
    | inl b ↦ rw b (
        check-read _ (map Validation.Wire.as_dict cs) _ _ (error_text c.severity ∙ b)
          (Validation.Wire.of_dict-as_dict c) (reread_validation-as_dict cs))
    | inr b ↦ rw (error_text c.severity ∙ b, b, reread_validation-as_dict cs) refl
  ]

  -- The same of the findings of `match3way`.
  pub reread_matching-as_dict :
      (fs : List MatchFinding)
      → reread_matching {F = F} (map Matching.Wire.as_dict fs) ≡ some (matching_entries fs)
  unfolding reread_matching matching_entries is_error_finding Matching.Wire.as_dict
  reread_matching-as_dict [] = refl
  reread_matching-as_dict (f ∷ fs) = elim (Bool-cases (is_error_finding f)) [
    | inl b ↦ rw b (
        finding-read _ (map Matching.Wire.as_dict fs) _ _ (finding_text f.severity ∙ b)
          (Matching.Wire.of_dict-as_dict f) (reread_matching-as_dict fs))
    | inr b ↦ rw (finding_text f.severity ∙ b, b, reread_matching-as_dict fs) refl
  ]

  abbrev pub policy_entry : PolicyFinding F → Entry F
  policy_entry f = (f.code, from_policy (Taxonomy.Wire.as_dict f))

  -- Every finding of the policy engine is an entry, whatever its severity.
  pub reread_policy-as_dict :
      (fs : List (PolicyFinding F))
      → reread_policy (map Taxonomy.Wire.as_dict fs) ≡ some (map policy_entry fs)
  unfolding reread_policy Taxonomy.Wire.as_dict
  reread_policy-as_dict [] = refl
  reread_policy-as_dict (f ∷ fs) =
      rw (Taxonomy.Wire.code_of_value-code_value f.code, reread_policy-as_dict fs) refl

  -- A state whose findings the engines wrote: of the checks, the match and the verdicts.
  pub record IsWritten (s : GraphState F) (cs : List CheckResult) (r : MatchResult)
      (fs : List (PolicyFinding F)) : Type 0 where
    pub checks : s.validation ≡ map Validation.Wire.as_dict cs
    pub match : s.matched ≡ some (result_as_dict r)
    pub verdicts : s.policy ≡ map Taxonomy.Wire.as_dict fs

  -- Reading the findings back never fails, and gives the entries that the engines' own findings
  -- give: nothing is lost between the engines and the exception.
  pub entries_of-written :
      (s : GraphState F) (cs : List CheckResult) (r : MatchResult) (fs : List (PolicyFinding F))
      → IsWritten s cs r fs
      → entries_of s
        ≡ some (validation_entries cs ++ (matching_entries r.findings ++ map policy_entry fs))
  unfolding entries_of result_as_dict
  entries_of-written s cs r fs w =
      rw
        (
          w.checks,
          w.match,
          w.verdicts,
          reread_validation-as_dict cs,
          reread_matching-as_dict r.findings,
          reread_policy-as_dict fs,
        )
        refl
