-- ===== src/Policy.antt =====
-- tools/policy.py and tools/policy_config.py: the data and the configuration of the policy engine.
pub mod Rules
pub mod Severity
pub mod Verdict
pub mod Masking
use portfolio_project.Prelude.{ℕ, String, Bool, Option, List, [], ◌∷◌, is_empty}
use portfolio_project.Prelude.Int.{ℤ}
use portfolio_project.Decimal.{Decimal, decimal}
use portfolio_project.Taxonomy.{ExceptionCode, ExceptionSeverity}

pub record InvoiceFacts : Type 0 where
  pub invoice_number : Option String
  pub vendor_name : Option String
  pub po_number : Option String
  pub currency : Option String
  pub total_amount : Option Decimal
  pub iban : Option String
  pub issue_date : Option ℕ

pub record PoFacts : Type 0 where
  pub po_number : String
  pub status : String
  pub ordered_at : Option ℕ
  pub currency : Option String

pub record VendorFacts : Type 0 where
  pub name : String
  pub iban : Option String
  pub is_active : Bool
  pub risk_flags : List String

-- tools/near_dup.py.
pub record NearDupHit (F : Type 0) : Type 0 where
  pub invoice_id : ℕ
  pub similarity : F

pub record PolicyContext (F : Type 0) : Type 0 where
  pub invoice : InvoiceFacts
  pub po : Option PoFacts
  pub vendor : Option VendorFacts
  pub near_dup_hits : List (NearDupHit F)
  pub reference_date : Option ℕ

-- The evidence of each rule.
pub data Evidence (F : Type 0) : Type 0 where
  spend : Decimal → List ℕ → Option Decimal → Option Decimal → Option String → Evidence F
  stale : String → String → Option ℤ → Evidence F
  bank : String → List ℕ → List ℕ → Evidence F
  near : List (NearDupHit F) → Evidence F

pub record PolicyFinding (F : Type 0) : Type 0 where
  pub rule_id : String
  pub code : ExceptionCode
  pub severity : ExceptionSeverity
  pub evidence : Evidence F

pub record PolicyReport (F : Type 0) : Type 0 where
  pub findings : List (PolicyFinding F)
  pub policy_version : String

unfoldable pub passed : {F : Type 0} → PolicyReport F → Bool
passed r = is_empty r.findings

abbrev pub version : String
version = "policy@v1"

abbrev pub auto_approve_limits : List (String × Decimal)
auto_approve_limits = ("EUR", decimal 250000 2) ∷ []

abbrev pub approval_matrix : List (String × List (Decimal × String))
approval_matrix =
    ("EUR", (decimal 1000000 2, "manager") ∷ (decimal 99999999999900 2, "director") ∷ []) ∷ []

abbrev pub stale_po_days : ℕ
stale_po_days = 90
