-- ===== src/Gate/Bounds.antt =====
-- The composite score of tools/confidence_gate.py: its bounds and its order.
use portfolio_project.Prelude.{String, ◌≡◌, true, List, [], ◌∷◌, map, All, arith}
use portfolio_project.Float.{FloatOps, FloatLaws, zero_float, one_float, max_float, min_float}
use portfolio_project.Float.Order.{
  le-max_left, le-max_right, max-le, min-le_left, min-le_right, le-min,
}
use portfolio_project.Gate.{
  GateInputs, w_field, w_match, w_policy, min_critical_confidence, match_term, policy_severity_term,
  confidence, score, penalty_of,
}

module _ (O : FloatOps) (L : FloatLaws O) where
  open O use {Float, leb_float, plus, minus, times, total}

  -- The score is at least 0 and at most 1, whatever the inputs.
  pub confidence_bounds :
      (i : GateInputs Float)
      → (leb_float (zero_float O) (confidence O i) ≡ true)
        × (leb_float (confidence O i) (one_float O) ≡ true)
  unfolding confidence
  confidence_bounds i = (
    le-min O L (one_float O) (max_float O (zero_float O) (score O i)) (zero_float O) L.zero_le_one
        (le-max_left O L (zero_float O) (score O i)),
    min-le_left O L (one_float O) (max_float O (zero_float O) (score O i)),
  )

  min_mono :
      (a b c : Float) → leb_float b c ≡ true → leb_float (min_float O a b) (min_float O a c) ≡ true
  min_mono a b c h =
      le-min O L a c (min_float O a b) (min-le_left O L a b)
        (L.leb_trans _ b c (min-le_right O L a b) h)

  max_mono :
      (a b c : Float) → leb_float b c ≡ true → leb_float (max_float O a b) (max_float O a c) ≡ true
  max_mono a b c h =
      max-le O L a b (max_float O a c) (le-max_left O L a c)
        (L.leb_trans b c _ h (le-max_right O L a c))

  weights_nonneg :
      (leb_float (zero_float O) (w_field O) ≡ true)
      × (leb_float (zero_float O) (w_match O) ≡ true)
      × (leb_float (zero_float O) (w_policy O) ≡ true)
  weights_nonneg = (L.literal_nonneg 4 1, L.literal_nonneg 4 1, L.literal_nonneg 2 1)

  -- Each term of the score is bounded by the term of inputs that are no worse.
  pub score_le :
      (i : GateInputs Float) (f m p : Float)
      → leb_float (min_critical_confidence O i.field_confidences) f ≡ true
      → leb_float (match_term O i.normalized_match_delta) m ≡ true
      → leb_float (policy_severity_term O i.policy_severities) p ≡ true
      → leb_float
          (score O i)
          (plus (plus (times (w_field O) f) (times (w_match O) m)) (times (w_policy O) p))
        ≡ true
  unfolding score
  score_le i f m p hf hm hp =
      L.plus_mono _ _ _ _
        (L.plus_mono _ _ _ _ (L.times_mono _ _ _ weights_nonneg.0 hf)
          (L.times_mono _ _ _ weights_nonneg.1 hm))
        (L.times_mono _ _ _ weights_nonneg.2 hp)

  -- Of two inputs whose terms compare one by one, the better has no lower confidence.
  pub confidence_mono :
      (i j : GateInputs Float)
      → leb_float
          (min_critical_confidence O i.field_confidences)
          (min_critical_confidence O j.field_confidences)
        ≡ true
      → leb_float (match_term O i.normalized_match_delta) (match_term O j.normalized_match_delta)
        ≡ true
      → leb_float
          (policy_severity_term O i.policy_severities)
          (policy_severity_term O j.policy_severities)
        ≡ true
      → leb_float (confidence O i) (confidence O j) ≡ true
  unfolding confidence
  confidence_mono i j hf hm hp =
      min_mono (one_float O) _ _ (
        max_mono (zero_float O) (score O i) (score O j) (unfold score in score_le i _ _ _ hf hm hp))

  penalty_of_nonneg : (s : String) → leb_float (zero_float O) (penalty_of O s) ≡ true
  unfolding penalty_of
  penalty_of_nonneg s = grind (arith, L.literal_nonneg)

  penalties_nonneg :
      (ss : List String) → All (λ x. leb_float (zero_float O) x ≡ true) (map (penalty_of O) ss)
  penalties_nonneg [] = tt
  penalties_nonneg (s ∷ ss) = (penalty_of_nonneg s, penalties_nonneg ss)

  -- Findings only ever reduce the policy term from 1, and it stays at least 0.
  pub policy_severity_term_bounds :
      (ss : List String)
      → (leb_float (zero_float O) (policy_severity_term O ss) ≡ true)
        × (leb_float (policy_severity_term O ss) (one_float O) ≡ true)
  unfolding policy_severity_term
  policy_severity_term_bounds ss = (
    le-max_left O L (zero_float O) (minus (one_float O) (total (map (penalty_of O) ss))),
    max-le O L (zero_float O) (minus (one_float O) (total (map (penalty_of O) ss))) (one_float O)
        L.zero_le_one
        (rw (L.minus_zero (one_float O)) at
          (L.minus_anti (one_float O) _ _ (L.total_nonneg _ (penalties_nonneg ss)))),
  )
