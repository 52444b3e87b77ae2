-- ===== src/Examples/Scores.antt =====
-- The theorems on the gate and the taxonomy, applied.
use portfolio_project.Prelude.{◌≤◌, ◌≡◌, refl, true, none, some, [], ◌∷◌}
use portfolio_project.Float.{zero_float, one_float}
use portfolio_project.Float.Fixed.{fixed, fixed_laws}
use portfolio_project.Gate.{
  GateInputs, escalate, decide, confidence, tau_default, min_critical_confidence, match_term,
  policy_severity_term,
}
use portfolio_project.Gate.Bounds.{confidence_bounds, confidence_mono}
use portfolio_project.Gate.FailSafe.{GateArithmetic, AtMostOne, decide-no_match}
use portfolio_project.Taxonomy.{
  ExceptionCode, price_mm, missing_po, severity_of, code_in, primary_code,
}
use portfolio_project.Taxonomy.Precedence.{urgency, severity_rank, primary_code_most_urgent}

blind_inputs : GateInputs (fixed.Float)
unfolding fixed
blind_inputs = record {
  field_confidences = ("iban", 900000) ∷ ("due_date", 100000) ∷ [];
  normalized_match_delta = none;
  policy_severities = "HIGH" ∷ [];
}

sure_inputs : GateInputs (fixed.Float)
unfolding fixed
sure_inputs = record {
  field_confidences = ("iban", 990000) ∷ ("line[1].qty", 950000) ∷ [];
  normalized_match_delta = some 10000;
  policy_severities = [];
}

no_delta : blind_inputs.normalized_match_delta ≡ none
unfolding blind_inputs
no_delta = refl

blind_inputs-AtMostOne : AtMostOne fixed fixed_laws blind_inputs.field_confidences
unfolding blind_inputs fixed
blind_inputs-AtMostOne = (refl, (refl, tt))

less_sure :
    fixed.leb_float
      (min_critical_confidence fixed blind_inputs.field_confidences)
      (min_critical_confidence fixed sure_inputs.field_confidences)
    ≡ true
unfolding blind_inputs sure_inputs min_critical_confidence fixed
less_sure = refl

less_matched :
    fixed.leb_float
      (match_term fixed blind_inputs.normalized_match_delta)
      (match_term fixed sure_inputs.normalized_match_delta)
    ≡ true
unfolding blind_inputs sure_inputs match_term fixed
less_matched = refl

less_clean :
    fixed.leb_float
      (policy_severity_term fixed blind_inputs.policy_severities)
      (policy_severity_term fixed sure_inputs.policy_severities)
    ≡ true
unfolding blind_inputs sure_inputs policy_severity_term fixed
less_clean = refl

chosen_first : primary_code (price_mm ∷ missing_po ∷ []) ≡ some missing_po
unfolding primary_code code_in
chosen_first = refl

gate_arithmetic : GateArithmetic fixed
unfolding fixed
gate_arithmetic = record { without_fields = refl; without_match = refl; tau_positive = refl }

confidence_bounds_example :
    (fixed.leb_float (zero_float fixed) (confidence fixed sure_inputs) ≡ true)
    × (fixed.leb_float (confidence fixed sure_inputs) (one_float fixed) ≡ true)
confidence_bounds_example = confidence_bounds fixed fixed_laws sure_inputs

decide-no_match_example : (decide fixed blind_inputs (tau_default fixed)).route ≡ escalate
decide-no_match_example =
    decide-no_match fixed fixed_laws gate_arithmetic blind_inputs no_delta blind_inputs-AtMostOne

confidence_mono_example :
    fixed.leb_float (confidence fixed blind_inputs) (confidence fixed sure_inputs) ≡ true
confidence_mono_example =
    confidence_mono fixed fixed_laws blind_inputs sure_inputs less_sure less_matched less_clean

primary_code_most_urgent_example :
    (code_in missing_po (price_mm ∷ missing_po ∷ []) ≡ true)
    × ((d : ExceptionCode)
        → code_in d (price_mm ∷ missing_po ∷ []) ≡ true
        → (urgency missing_po ≤ urgency d)
          × (severity_rank (severity_of d) ≤ severity_rank (severity_of missing_po)))
primary_code_most_urgent_example =
    primary_code_most_urgent (price_mm ∷ missing_po ∷ []) missing_po chosen_first
