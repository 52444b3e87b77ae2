-- ===== src/Agents/Readings.antt =====
-- How agents/extraction.py reads the fields of a model's answer.
use portfolio_project.Prelude.{
  String, Bool, Option, none, some, List, [], ◌∷◌, is_empty, is_space, if◌then◌else◌,
}
use portfolio_project.Float.{FloatOps, zero_float, min_float}
use portfolio_project.Validation.{InvoiceExtraction}
use portfolio_project.Gateway.{Text}
use portfolio_project.Gateway.Json.{strip}

-- `_blank_to_none` of the extraction.
unfoldable pub blank_to_none : Option Text → Option Text
unfolding strip
blank_to_none none = none
blank_to_none (some value) = if is_empty (strip is_space value) then none else some value

-- `_iso_date`: an absent or blank date is none, and any other is stripped and must be a date. The
-- outer `none` is the error.
unfoldable pub iso_date : (Text → Bool) → Option Text → Option (Option Text)
unfolding strip
iso_date is_iso none = some none
iso_date is_iso (some value) =
    let text = strip is_space value in
    if is_empty text then some none else if is_iso text then some (some text) else none

-- `min_confidence` of the extraction: 0 where none is recorded.
module _ (O : FloatOps) where
  abbrev least_of : O.Float → List (String × O.Float) → O.Float
  least_of m [] = m
  least_of m ((name, c) ∷ cs) = least_of (min_float O m c) cs

  unfoldable pub min_confidence : InvoiceExtraction O.Float → O.Float
  min_confidence e = elim e.confidences [ [] ↦ zero_float O | (name, c) ∷ cs ↦ least_of c cs ]
