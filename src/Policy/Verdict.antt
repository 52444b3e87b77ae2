-- ===== src/Policy/Verdict.antt =====
-- When the policy engine of tools/policy.py lets an invoice proceed.
use portfolio_project.Prelude.{ℕ, ◌+◌, ◌≤◌, String, ◌≡◌, ◌≢◌, true, some, [], codes, upper}
use portfolio_project.Decimal.{Decimal, decimal, leb_decimal}
use portfolio_project.Policy.{PolicyContext, PoFacts, VendorFacts}
use portfolio_project.Policy.Masking.{norm_iban}
use portfolio_project.Policy.Rules.{currency_key}

-- What the configuration asks of an invoice, in its own terms.
pub record IsCleared {F : Type 0} (ctx : PolicyContext F) : Type 0 where
  -- An amount is in euros and at most 2500.00.
  pub within_limit :
      (a : Decimal)
      → ctx.invoice.total_amount ≡ some a
      → (codes "EUR" ≡ currency_key ctx.invoice.currency)
        × (leb_decimal a (decimal 250000 2) ≡ true)
  -- The order is not closed, and was made at most 90 days before the invoice.
  pub fresh :
      (p : PoFacts) (issued : ℕ)
      → ctx.po ≡ some p
      → ctx.invoice.issue_date ≡ some issued
      → (upper (codes p.status) ≢ codes "CLOSED")
        × ((ordered : ℕ) → p.ordered_at ≡ some ordered → issued ≤ ordered + 90)
  -- The bank account is the vendor's.
  pub same_bank :
      (i m : String) (v : VendorFacts)
      → ctx.invoice.iban ≡ some i
      → ctx.vendor ≡ some v
      → v.iban ≡ some m
      → norm_iban i ≡ norm_iban m
  pub no_near_duplicate : ctx.near_dup_hits ≡ []
