-- ===== src/Validation/Iban.antt =====
-- The IBAN check of tools/validation.py: normal form, length table and the remainder modulo 97.
use portfolio_project.Prelude.{
  ℕ, ◌+◌, ◌-◌, ◌*◌, ◌%◌, ◌≡◌, refl, String, Bool, true, false, not, ◌&&◌, ◌||◌, Option, none, some,
  List, [], ◌∷◌, ◌++◌, ◌==◌, if◌then◌else◌, length, take, drop, codes, upper, without_blanks,
  is_digit, is_alpha, is_empty, get_codes,
}
use portfolio_project.Validation.{CheckResult, error, warn, schema_bad_iban, iban_lengths}

-- `iban.replace(" ", "").upper()`.
unfoldable pub normalize_iban : String → List ℕ
unfolding upper without_blanks
normalize_iban iban = upper (without_blanks (codes iban))

-- The value of one character in base 10 (a digit) or 100 (a letter).
unfoldable pub mod97_step : ℕ → ℕ → Option ℕ
mod97_step remainder c =
    if is_digit c
    then some ((remainder * 10 + (c - b'0')) % 97)
    else if is_alpha c
    then some ((remainder * 100 + (c - b'A' + 10)) % 97)
    else none

-- The loop of `_iban_mod97`; `none` is its `return -1`.
unfoldable pub mod97_from : ℕ → List ℕ → Option ℕ
unfolding mod97_step
mod97_from remainder [] = some remainder
mod97_from remainder (c ∷ cs) = elim (mod97_step remainder c) [
  | none ↦ none
  | some r ↦ mod97_from r cs
]

unfoldable pub iban_mod97 : List ℕ → Option ℕ
unfolding mod97_from
iban_mod97 normalized = mod97_from 0 (drop 4 normalized ++ take 4 normalized)

-- `str.isdigit`, which an empty text fails.
unfoldable pub all_digits : List ℕ → Bool
all_digits [] = true
all_digits (c ∷ cs) = is_digit c && all_digits cs

unfoldable pub is_digits : List ℕ → Bool
unfolding all_digits
is_digits s = not (is_empty s) && all_digits s

abbrev bad_iban_error : CheckResult
bad_iban_error = record { code = schema_bad_iban; severity = error; field = none }

abbrev bad_iban_warn : CheckResult
bad_iban_warn = record { code = schema_bad_iban; severity = warn; field = none }

abbrev pub is_one : Option ℕ → Bool
is_one none = false
is_one (some r) = r == 1

-- The tests once the country's length is known.
unfoldable pub check_known_country : List ℕ → ℕ → Option CheckResult
unfolding is_digits iban_mod97
check_known_country normalized expected_len =
    if not (length normalized == expected_len) || not (is_digits (take 2 (drop 2 normalized)))
    then some bad_iban_error
    else if is_one (iban_mod97 normalized)
    then none
    else some bad_iban_error

unfoldable pub check_normalized : List ℕ → Option CheckResult
unfolding get_codes check_known_country
check_normalized normalized = elim (get_codes (take 2 normalized) iban_lengths) [
  | none ↦ some bad_iban_warn
  | some expected_len ↦ check_known_country normalized expected_len
]

unfoldable pub check_iban : Option String → Option CheckResult
unfolding normalize_iban check_normalized
check_iban none = none
check_iban (some iban) = check_normalized (normalize_iban iban)

good_iban : check_iban (some "DE89 3704 0044 0532 0130 00") ≡ none
unfolding check_iban
good_iban = refl
