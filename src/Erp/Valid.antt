-- ===== src/Erp/Valid.antt =====
-- The clean invoice of data/erp.py against all of tools/validation.py.
use portfolio_project.Prelude.{
  ℕ, ◌≡◌, ◌∙◌, refl, ap, String, true, none, List, [], ◌∷◌, All, codes, upper, without_blanks,
  present,
}
use portfolio_project.Validation.Iban.{check_iban, check_normalized, normalize_iban}
use portfolio_project.Validation.Engine.{
  validate_extraction, check_required_fields, missing_fields, field_is_none, check_currency,
  is_currency_shaped,
}
use portfolio_project.Erp.{Randomness, ErpPoLine, CleanInvoiceSpec, iban_of, extraction_dict}
use portfolio_project.Erp.Clean.{HasKnownCode, clean_invoice_reconciles}
use portfolio_project.Erp.Iban.{iban_of_valid}

module _ (F : Type 0) (R : Randomness) (iso : ℕ → String) (s : CleanInvoiceSpec) where
  nothing_missing : check_required_fields (extraction_dict R {F = F} iso s) ≡ []
  unfolding check_required_fields missing_fields field_is_none extraction_dict
  nothing_missing = refl

  good_currency :
      is_currency_shaped s.currency ≡ true
      → check_currency (extraction_dict R {F = F} iso s).currency ≡ none
  unfolding check_currency extraction_dict
  good_currency h = rw h refl

  good_iban :
      (bank account : ℕ)
      → s.iban ≡ iban_of bank account
      → codes (R.text_of s.iban) ≡ s.iban
      → check_iban (extraction_dict R {F = F} iso s).iban ≡ none
  unfolding check_iban normalize_iban extraction_dict
  good_iban bank account e printed =
      ap (λ (t : List ℕ). check_normalized (upper (without_blanks t))) (printed ∙ e)
      ∙ iban_of_valid bank account

-- A clean invoice for an order with at least one line of known tax codes, in a currency of three
-- capital letters, with an IBAN of the generator that is printed as it is, has no finding at all in
-- the validation.
pub clean_invoice_passes :
    (F : Type 0) (R : Randomness) (iso : ℕ → String) (s : CleanInvoiceSpec) (l : ErpPoLine)
    (ls : List ErpPoLine) (bank account : ℕ)
    → s.lines ≡ l ∷ ls
    → All HasKnownCode s.lines
    → is_currency_shaped s.currency ≡ true
    → s.iban ≡ iban_of bank account
    → codes (R.text_of s.iban) ≡ s.iban
    → (validate_extraction (extraction_dict R {F = F} iso s)).checks ≡ []
unfolding validate_extraction present
clean_invoice_passes F R iso s l ls bank account e known currency iban printed =
    let (math, tax) = clean_invoice_reconciles F R iso s l ls e known in
    rw
      (
        nothing_missing F R iso s,
        good_currency F R iso s currency,
        good_iban F R iso s bank account iban printed,
        math,
        tax,
      )
      refl
