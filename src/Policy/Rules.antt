-- ===== src/Policy/Rules.antt =====
-- The rules of tools/policy.py, and `evaluate`.
use portfolio_project.Prelude.{
  ℕ, String, Bool, Option, none, some, List, [], ◌∷◌, map, ◌||◌, if◌then◌else◌, present, codes,
  upper, codes_eq, get_codes,
}
use portfolio_project.Prelude.Int.{ℤ, pos, sub_ℕ, ltb_ℤ}
use portfolio_project.Decimal.{Decimal, leb_decimal, sub}
use portfolio_project.Taxonomy.{
  ExceptionCode, severity_of, approval_required, stale_po, bank_change, dup_near,
}
use portfolio_project.Float.{FloatOps}
use portfolio_project.Policy.{
  PoFacts, VendorFacts, NearDupHit, PolicyContext, PolicyFinding, PolicyReport, Evidence, spend,
  stale, bank, near, version, auto_approve_limits, approval_matrix, stale_po_days,
}
use portfolio_project.Policy.Masking.{norm_iban, mask_iban}

-- `(currency or "").upper()`.
unfoldable pub currency_key : Option String → List ℕ
unfolding upper
currency_key none = []
currency_key (some c) = upper (codes c)

-- The loop of `_approver_role` over the bands of one currency.
unfoldable pub covering_role : Decimal → List (Decimal × String) → Option String
unfolding leb_decimal
covering_role amount [] = none
covering_role amount ((bound, role) ∷ bands) =
    if leb_decimal amount bound then some role else covering_role amount bands

unfoldable pub approver_role : List ℕ → Decimal → Option String
unfolding get_codes covering_role
approver_role currency amount = elim (get_codes currency approval_matrix) [
  | none ↦ none
  | some bands ↦ covering_role amount bands
]

-- `(issue_date - ordered_at).days`.
abbrev pub age_of : ℕ → Option ℕ → Option ℤ
age_of issued none = none
age_of issued (some ordered) = some (sub_ℕ issued ordered)

unfoldable pub is_too_old : Option ℤ → Bool
is_too_old none = Bool.false
is_too_old (some days) = ltb_ℤ (pos stale_po_days) days

unfoldable pub is_closed : String → Bool
unfolding codes_eq upper
is_closed status = codes_eq (upper (codes status)) (codes "CLOSED")

module _ {F : Type 0} where
  -- `PolicyFinding(…)` with the severity of its code, so that `__post_init__` never raises.
  abbrev pub finding : String → ExceptionCode → Evidence F → PolicyFinding F
  finding rule_id code evidence = record {
    rule_id = rule_id;
    code = code;
    severity = severity_of code;
    evidence = evidence;
  }

  spend_over : Decimal → List ℕ → Option Decimal → Option (PolicyFinding F)
  unfolding leb_decimal sub approver_role
  spend_over amount currency none = some (
      finding "spend-limit" approval_required
        (spend amount currency none none (approver_role currency amount)))
  spend_over amount currency (some limit) =
      if leb_decimal amount limit
      then none
      else some (
          finding "spend-limit" approval_required (
            spend amount currency (some limit) (some (sub amount limit))
              (approver_role currency amount)))

  -- The rule, once the amount is there.
  spend_rule : Option Decimal → List ℕ → Option (PolicyFinding F)
  unfolding spend_over get_codes
  spend_rule none currency = none
  spend_rule (some amount) currency =
      spend_over amount currency (get_codes currency auto_approve_limits)

  unfoldable pub rule_spend_limit : PolicyContext F → Option (PolicyFinding F)
  unfolding spend_rule currency_key
  rule_spend_limit ctx = spend_rule ctx.invoice.total_amount (currency_key ctx.invoice.currency)

  stale_rule : Option PoFacts → Option ℕ → Option (PolicyFinding F)
  unfolding is_closed is_too_old
  stale_rule (some po) (some issued) =
      let age_days = age_of issued po.ordered_at in
      if is_closed po.status || is_too_old age_days
      then some (finding "stale-po" stale_po (stale po.po_number po.status age_days))
      else none
  stale_rule _ _ = none

  unfoldable pub rule_stale_po : PolicyContext F → Option (PolicyFinding F)
  unfolding stale_rule
  rule_stale_po ctx = stale_rule ctx.po ctx.invoice.issue_date

  differing_iban : String → String → Option String → Option (PolicyFinding F)
  unfolding norm_iban mask_iban codes_eq
  differing_iban vendor invoice_iban none = none
  differing_iban vendor invoice_iban (some master) =
      if codes_eq (norm_iban invoice_iban) (norm_iban master)
      then none
      else some (
          finding "bank-change" bank_change
            (bank vendor (mask_iban invoice_iban) (mask_iban master)))

  bank_rule : Option String → Option VendorFacts → Option (PolicyFinding F)
  unfolding differing_iban
  bank_rule (some invoice_iban) (some vendor) = differing_iban vendor.name invoice_iban vendor.iban
  bank_rule _ _ = none

  unfoldable pub rule_bank_change : PolicyContext F → Option (PolicyFinding F)
  unfolding bank_rule
  rule_bank_change ctx = bank_rule ctx.invoice.iban ctx.vendor

module _ (O : FloatOps) where
  open O use {Float, round_to}

  unfoldable pub rounded_hits : List (NearDupHit Float) → List (NearDupHit Float)
  rounded_hits [] = []
  rounded_hits (h ∷ hs) = record h { similarity = round_to 6 h.similarity } ∷ rounded_hits hs

  unfoldable pub rule_near_dup : List (NearDupHit Float) → List (PolicyFinding Float)
  unfolding rounded_hits
  rule_near_dup [] = []
  rule_near_dup (h ∷ hs) = finding "near-dup" dup_near (near (rounded_hits (h ∷ hs))) ∷ []

  unfoldable pub evaluate : PolicyContext Float → PolicyReport Float
  unfolding rule_spend_limit rule_stale_po rule_bank_change rule_near_dup present
  evaluate ctx = record {
    findings = present (
        rule_spend_limit ctx
        ∷ rule_stale_po ctx
        ∷ rule_bank_change ctx
        ∷ map some (rule_near_dup ctx.near_dup_hits));
    policy_version = version;
  }
