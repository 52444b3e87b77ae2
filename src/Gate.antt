-- ===== src/Gate.antt =====
-- tools/confidence_gate.py and tools/gate_config.py: the composite confidence and the gate.
pub mod Bounds
pub mod FailSafe
use portfolio_project.Prelude.{
  ℕ, String, Bool, true, false, Option, none, some, List, [], ◌∷◌, ◌++◌, map, get, codes, codes_in,
  starts_with, ◌==◌, if◌then◌else◌,
}
use portfolio_project.Decimal.Ratio.{Ratio}
use portfolio_project.Float.{FloatOps, zero_float, one_float, max_float, min_float}

pub data GateRoute : Type 0 where
  auto_approve escalate : GateRoute

pub record GateInputs (F : Type 0) : Type 0 where
  pub field_confidences : List (String × F)
  pub normalized_match_delta : Option F
  pub policy_severities : List String

pub record GateDecision (F : Type 0) : Type 0 where
  pub confidence : F
  pub route : GateRoute
  pub tau : F
  pub terms : List (String × F)
  pub weights : List (String × F)

abbrev pub critical_fields : List String
critical_fields =
    "vendor_name" ∷ "invoice_number" ∷ "issue_date" ∷ "currency" ∷ "total_amount" ∷ "tax_total"
    ∷ "iban" ∷ "po_number" ∷ []

abbrev pub critical_line_fields : List String
critical_line_fields = "qty" ∷ "unit_price" ∷ "line_total" ∷ []

-- `key.rsplit(".", 1)[-1]`: what follows the last dot, or all of the key.
unfoldable pub after_last_dot : List ℕ → List ℕ → List ℕ
after_last_dot segment [] = segment
after_last_dot segment (c ∷ cs) = after_last_dot (if c == b'.' then [] else segment ++ c ∷ []) cs

unfoldable pub is_critical : String → Bool
unfolding codes_in starts_with after_last_dot
is_critical key =
    if codes_in (codes key) critical_fields
    then true
    else if starts_with (codes "line[") (codes key)
    then codes_in (after_last_dot [] (codes key)) critical_line_fields
    else false

module _ (O : FloatOps) where
  open O use {Float, literal, plus, minus, times, total, leb_float, round_to}

  abbrev pub tau_default : Float
  tau_default = literal 85 2

  abbrev pub w_field : Float
  w_field = literal 4 1

  abbrev pub w_match : Float
  w_match = literal 4 1

  abbrev pub w_policy : Float
  w_policy = literal 2 1

  abbrev pub severity_penalty : List (String × Float)
  severity_penalty =
      ("CRITICAL", literal 10 1)
      ∷ ("HIGH", literal 6 1)
      ∷ ("MEDIUM", literal 3 1)
      ∷ ("LOW", literal 1 1)
      ∷ []

  -- Python's `min` of a generator that is not empty.
  unfoldable pub least_from : Float → List Float → Float
  unfolding min_float
  least_from best [] = best
  least_from best (x ∷ xs) = least_from (min_float O best x) xs

  unfoldable pub least_or_zero : List Float → Float
  unfolding least_from
  least_or_zero [] = zero_float O
  least_or_zero (x ∷ xs) = least_from x xs

  -- The confidences of the critical keys, each raised to 0 at least.
  unfoldable pub critical_confidences : List (String × Float) → List Float
  unfolding is_critical max_float
  critical_confidences [] = []
  critical_confidences ((key, c) ∷ rest) =
      let others = critical_confidences rest in
      if is_critical key then max_float O (zero_float O) c ∷ others else others

  unfoldable pub min_critical_confidence : List (String × Float) → Float
  unfolding least_or_zero critical_confidences
  min_critical_confidence confidences = least_or_zero (critical_confidences confidences)

  unfoldable pub penalty_of : String → Float
  unfolding get
  penalty_of s = elim (get s severity_penalty) [ some p ↦ p | none ↦ literal 3 1 ]

  unfoldable pub policy_severity_term : List String → Float
  unfolding penalty_of max_float
  policy_severity_term severities =
      max_float O (zero_float O) (minus (one_float O) (total (map penalty_of severities)))

  unfoldable pub match_term : Option Float → Float
  match_term none = zero_float O
  match_term (some delta) = minus (one_float O) delta

  unfoldable pub score : GateInputs Float → Float
  unfolding min_critical_confidence match_term policy_severity_term
  score i =
      plus
        (plus (times w_field (min_critical_confidence i.field_confidences))
          (times w_match (match_term i.normalized_match_delta)))
        (times w_policy (policy_severity_term i.policy_severities))

  unfoldable pub confidence : GateInputs Float → Float
  unfolding score min_float max_float
  confidence i = min_float O (one_float O) (max_float O (zero_float O) (score i))

  rounded_match : Option Float → Float
  rounded_match none = zero_float O
  rounded_match (some delta) = round_to 6 (minus (one_float O) delta)

  unfoldable pub decide : GateInputs Float → Float → GateDecision Float
  unfolding confidence rounded_match min_critical_confidence policy_severity_term
  decide i tau = record {
    confidence = confidence i;
    route = if leb_float tau (confidence i) then auto_approve else escalate;
    tau = tau;
    terms =
        ("field", round_to 6 (min_critical_confidence i.field_confidences))
        ∷ ("match", rounded_match i.normalized_match_delta)
        ∷ ("policy", round_to 6 (policy_severity_term i.policy_severities))
        ∷ [];
    weights = ("field", w_field) ∷ ("match", w_match) ∷ ("policy", w_policy) ∷ [];
  }
