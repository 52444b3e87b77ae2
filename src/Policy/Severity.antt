-- ===== src/Policy/Severity.antt =====
-- How severe the findings of tools/policy.py are.
use portfolio_project.Prelude.{
  ◌≡◌, refl, not, Option, none, some, List, [], ◌∷◌, map, All, arith, present, any, str_eq,
  is_empty,
}
use portfolio_project.Taxonomy.{high, severity_of}
use portfolio_project.Float.{FloatOps}
use portfolio_project.Taxonomy.Wire.{PolicyDict, as_dict}
use portfolio_project.Policy.{PolicyContext, PolicyFinding, NearDupHit, passed}
use portfolio_project.Policy.Rules.{
  rule_spend_limit, rule_stale_po, rule_bank_change, rule_near_dup, evaluate,
}

abbrev pub IsHigh : {F : Type 0} → PolicyFinding F → Type 0
IsHigh f = f.severity ≡ high

present-All {ℓ} :
    {A : Type ℓ} {P : A → Type ℓ} (o : Option A) (os : List (Option A))
    → ((a : A) → o ≡ some a → P a)
    → All P (present os)
    → All P (present (o ∷ os))
unfolding present
present-All none os h k = k
present-All (some a) os h k = (h a refl, k)

module _ (O : FloatOps) (ctx : PolicyContext O.Float) where
  open O use {Float}

  spend-IsHigh : (f : PolicyFinding Float) → rule_spend_limit ctx ≡ some f → IsHigh f
  unfolding rule_spend_limit severity_of
  spend-IsHigh f h = ground arith

  stale-IsHigh : (f : PolicyFinding Float) → rule_stale_po ctx ≡ some f → IsHigh f
  unfolding rule_stale_po severity_of
  stale-IsHigh f h = ground arith

  bank-IsHigh : (f : PolicyFinding Float) → rule_bank_change ctx ≡ some f → IsHigh f
  unfolding rule_bank_change severity_of
  bank-IsHigh f h = ground arith

  near-IsHigh :
      (hits : List (NearDupHit Float)) → All IsHigh (present (map some (rule_near_dup O hits)))
  unfolding rule_near_dup present severity_of
  near-IsHigh [] = tt
  near-IsHigh (h ∷ hs) = (refl, tt)

  -- Every finding of the policy engine has severity HIGH.
  pub evaluate-All-IsHigh : All IsHigh (evaluate O ctx).findings
  unfolding evaluate
  evaluate-All-IsHigh = present-All (rule_spend_limit ctx) _ spend-IsHigh (
      present-All (rule_stale_po ctx) _ stale-IsHigh
        (present-All (rule_bank_change ctx) _ bank-IsHigh (near-IsHigh ctx.near_dup_hits)))

any_high :
    {F : Type 0} (fs : List (PolicyFinding F))
    → All IsHigh fs
    → any (λ (d : PolicyDict F). str_eq d.severity "HIGH") (map as_dict fs) ≡ not (is_empty fs)
unfolding any as_dict
any_high [] h = refl
any_high (f ∷ fs) h = rw (h.0) refl

-- A report that fails has a finding of severity HIGH in its dictionaries.
pub high_iff_failed :
    (O : FloatOps) (ctx : PolicyContext O.Float)
    → any
        (λ (d : PolicyDict O.Float). str_eq d.severity "HIGH")
        (map as_dict (evaluate O ctx).findings)
      ≡ not (passed (evaluate O ctx))
unfolding passed
high_iff_failed O ctx = any_high (evaluate O ctx).findings (evaluate-All-IsHigh O ctx)
