-- ===== src/Policy/Masking.antt =====
-- `_norm_iban` and `_mask_iban` of tools/policy.py.
use portfolio_project.Prelude.{
  ℕ, ◌-◌, String, List, ◌++◌, leb, if◌then◌else◌, length, take, drop, replicate, codes, upper,
  without_blanks,
}

unfoldable pub norm_iban : String → List ℕ
unfolding upper without_blanks
norm_iban iban = upper (without_blanks (codes iban))

-- The masking of an IBAN in its normal form.
unfoldable pub mask_compact : List ℕ → List ℕ
mask_compact compact =
    if leb (length compact) 8
    then compact
    else take 4 compact
      ++ (replicate (length compact - 8) b'*' ++ drop (length compact - 4) compact)

unfoldable pub mask_iban : String → List ℕ
unfolding norm_iban mask_compact
mask_iban iban = mask_compact (norm_iban iban)
