-- ===== src/Taxonomy.antt =====
-- tools/exception_taxonomy.py: the exception codes, their metadata and their precedence.
pub mod Precedence
pub mod Codes
pub mod Wire
pub mod Draft
use mathlib.Core.Bool.{decide}
use portfolio_project.Prelude.{
  ℕ, ◌+◌, ◌*◌, String, Bool, Option, none, some, List, [], ◌∷◌, any, if◌then◌else◌,
}

pub data ExceptionCode : Type 0 where
  dup_exact dup_near price_mm qty_mm missing_po bank_change ccy_mm tax_err math_err stale_po
        approval_required :
      ExceptionCode

pub ExceptionCode-discrete : Discrete ExceptionCode
ExceptionCode-discrete = hlevel

pub data ExceptionSeverity : Type 0 where
  low medium high critical : ExceptionSeverity

pub ExceptionSeverity-discrete : Discrete ExceptionSeverity
ExceptionSeverity-discrete = hlevel

-- The metadata of a code; the description is text that nothing computes with.
pub record TaxonomyMeta : Type 0 where
  pub code : ExceptionCode
  pub severity : ExceptionSeverity
  pub sla_hours : ℕ

abbrev meta_of : ExceptionCode → ExceptionSeverity → ℕ → TaxonomyMeta
meta_of c s h = record { code = c; severity = s; sla_hours = h }

-- The dictionary `TAXONOMY`, which has an entry for each code.
unfoldable pub taxonomy : ExceptionCode → TaxonomyMeta
taxonomy dup_exact = meta_of dup_exact critical 4
taxonomy dup_near = meta_of dup_near high 4
taxonomy bank_change = meta_of bank_change high 8
taxonomy missing_po = meta_of missing_po high 24
taxonomy price_mm = meta_of price_mm high 24
taxonomy qty_mm = meta_of qty_mm high 24
taxonomy ccy_mm = meta_of ccy_mm medium 48
taxonomy stale_po = meta_of stale_po high 24
taxonomy approval_required = meta_of approval_required high 24
taxonomy tax_err = meta_of tax_err medium 48
taxonomy math_err = meta_of math_err medium 48

unfoldable pub severity_of : ExceptionCode → ExceptionSeverity
unfolding taxonomy
severity_of c = (taxonomy c).severity

abbrev pub code_precedence : List ExceptionCode
code_precedence =
    dup_exact ∷ dup_near ∷ bank_change ∷ missing_po ∷ price_mm ∷ qty_mm ∷ approval_required
    ∷ stale_po ∷ ccy_mm ∷ tax_err ∷ math_err ∷ []

-- `code in present`, where `present` is the set of the codes.
unfoldable pub code_in : ExceptionCode → List ExceptionCode → Bool
unfolding any ExceptionCode-discrete decide
code_in c codes = any (λ x. decide (ExceptionCode-discrete x c)) codes

unfoldable pub first_present : List ExceptionCode → List ExceptionCode → Option ExceptionCode
first_present [] codes = none
first_present (c ∷ cs) codes = if code_in c codes then some c else first_present cs codes

-- `none` is the `ValueError` of a call with no codes.
unfoldable pub primary_code : List ExceptionCode → Option ExceptionCode
unfolding first_present
primary_code codes = first_present code_precedence codes

-- Times are whole seconds.
unfoldable pub sla_due_at : ℕ → ExceptionCode → ℕ
unfolding taxonomy
sla_due_at now code = now + (taxonomy code).sla_hours * 3600
