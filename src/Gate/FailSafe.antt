-- ===== src/Gate/FailSafe.antt =====
-- The gate of tools/confidence_gate.py without evidence.
use portfolio_project.Prelude.{
  String, ◌≡◌, true, false, none, List, [], ◌∷◌, All, Bool-cases, inl, inr,
}
use portfolio_project.Float.{FloatOps, FloatLaws, zero_float, one_float, min_float}
use portfolio_project.Float.Order.{max-le, min-le_left, min-le_right, not_le_of_le, not_le-max}
use portfolio_project.Gate.{
  GateInputs, escalate, is_critical, tau_default, w_field, w_match, w_policy,
  min_critical_confidence, critical_confidences, least_from, least_or_zero, match_term, confidence,
  score, decide,
}
use portfolio_project.Gate.Bounds.{score_le, policy_severity_term_bounds}

-- Two closed sums of the weights as floating-point arithmetic gives them: without the field term,
-- or without the match term, the best score lies below tau.
pub record GateArithmetic (O : FloatOps) : Type 0 where
  pub without_fields :
      O.leb_float (tau_default O) (
        O.plus
          (O.plus (O.times (w_field O) (zero_float O)) (O.times (w_match O) (one_float O)))
          (O.times (w_policy O) (one_float O)))
      ≡ false
  pub without_match :
      O.leb_float (tau_default O) (
        O.plus
          (O.plus (O.times (w_field O) (one_float O)) (O.times (w_match O) (zero_float O)))
          (O.times (w_policy O) (one_float O)))
      ≡ false
  pub tau_positive : O.leb_float (tau_default O) (zero_float O) ≡ false

module _ (O : FloatOps) (L : FloatLaws O) where
  open O use {Float, leb_float}

  -- Every confidence is at most 1.
  abbrev pub AtMostOne : List (String × Float) → Type 0
  AtMostOne = All (λ kc. leb_float kc.1 (one_float O) ≡ true)

  least_from-le : (best : Float) (xs : List Float) → leb_float (least_from O best xs) best ≡ true
  unfolding least_from
  least_from-le best [] = L.leb_refl best
  least_from-le best (x ∷ xs) =
      L.leb_trans (least_from O (min_float O best x) xs) (min_float O best x) best
        (least_from-le (min_float O best x) xs) (min-le_left O L best x)

  critical-AtMostOne :
      (cs : List (String × Float))
      → AtMostOne cs
      → All (λ x. leb_float x (one_float O) ≡ true) (critical_confidences O cs)
  unfolding critical_confidences
  critical-AtMostOne [] h = tt
  critical-AtMostOne ((key, c) ∷ rest) h = elim (Bool-cases (is_critical key)) [
    | inl e ↦ rw e (max-le O L _ c _ L.zero_le_one h.0, critical-AtMostOne rest h.1)
    | inr e ↦ rw e (critical-AtMostOne rest h.1)
  ]

  least_or_zero-le_one :
      (xs : List Float)
      → All (λ x. leb_float x (one_float O) ≡ true) xs
      → leb_float (least_or_zero O xs) (one_float O) ≡ true
  unfolding least_or_zero
  least_or_zero-le_one [] k = L.zero_le_one
  least_or_zero-le_one (x ∷ xs) k = L.leb_trans _ x _ (least_from-le x xs) k.0

  min_critical-le_one :
      (cs : List (String × Float))
      → AtMostOne cs
      → leb_float (min_critical_confidence O cs) (one_float O) ≡ true
  unfolding min_critical_confidence
  min_critical-le_one cs h =
      least_or_zero-le_one (critical_confidences O cs) (critical-AtMostOne cs h)

  -- A score below tau, which is positive, leaves the clamped confidence below tau.
  confidence-lt_tau :
      (i : GateInputs Float) (tau s : Float)
      → leb_float (score O i) s ≡ true
      → leb_float tau s ≡ false
      → leb_float tau (zero_float O) ≡ false
      → leb_float tau (confidence O i) ≡ false
  unfolding confidence
  confidence-lt_tau i tau s h below positive =
      not_le_of_le O L tau _ _ (min-le_right O L (one_float O) _) (
        not_le-max O L tau (zero_float O) (score O i) positive
          (not_le_of_le O L tau (score O i) s h below))

  module _ (A : GateArithmetic O) (i : GateInputs Float) where
    -- With no matcher evidence the gate escalates, however sure the extraction is.
    pub decide-no_match :
        i.normalized_match_delta ≡ none
        → AtMostOne i.field_confidences
        → (decide O i (tau_default O)).route ≡ escalate
    unfolding decide match_term
    decide-no_match e h = rw (
        confidence-lt_tau i (tau_default O) _
          (score_le O L i (one_float O) (zero_float O) (one_float O)
            (min_critical-le_one i.field_confidences h) (rw e (L.leb_refl (zero_float O)))
            (policy_severity_term_bounds O L i.policy_severities).1)
          A.without_match A.tau_positive)

    -- With no confidence for any critical field the gate escalates, whatever the matcher found.
    pub decide-no_critical :
        critical_confidences O i.field_confidences ≡ []
        → leb_float (match_term O i.normalized_match_delta) (one_float O) ≡ true
        → (decide O i (tau_default O)).route ≡ escalate
    unfolding decide min_critical_confidence least_or_zero
    decide-no_critical e h = rw (
        confidence-lt_tau i (tau_default O) _
          (score_le O L i (zero_float O) (one_float O) (one_float O)
            (rw e (L.leb_refl (zero_float O))) h
            (policy_severity_term_bounds O L i.policy_severities).1)
          A.without_fields A.tau_positive)
