-- ===== src/Metrics.antt =====
-- eval/metrics.py: the comparison of an extraction with the labels of its document, and the tally
-- over many. Reading a decimal from a text is outside the program; a text that is none gives nothing.
pub mod Support
use portfolio_project.Prelude.{
  ℕ, ◌+◌, ◌*◌, Bool, true, false, not, ◌&&◌, Option, none, some, List, [], ◌∷◌, map, ◌==◌, keep,
  codes_eq, collapse, is_empty, is_space, if◌then◌else◌,
}
use portfolio_project.Decimal.{Decimal, decimal, leb_decimal, sub, abs}
use portfolio_project.Gateway.Json.{strip}

abbrev Text : Type 0
Text = List ℕ

abbrev money_tolerance : Decimal
money_tolerance = decimal 1 2

pub record FieldTally : Type 0 where
  pub tp : ℕ
  pub fp : ℕ
  pub fn : ℕ

abbrev pub no_tally : FieldTally
no_tally = record { tp = 0; fp = 0; fn = 0 }

-- The two numbers of the quotient, where it is not 0 by default.
unfoldable pub f1 : FieldTally → Option (ℕ × ℕ)
f1 t = let denom = 2 * t.tp + t.fp + t.fn in if denom == 0 then none else some (2 * t.tp, denom)

unfoldable pub support : FieldTally → ℕ
support t = t.tp + t.fn

unfoldable pub normalize_text : Option Text → Option Text
unfolding strip collapse
normalize_text none = none
normalize_text (some value) =
    let words = collapse (strip is_space value) in if is_empty words then none else some words

-- Two texts that are there and equal.
abbrev both_equal : Option Text → Option Text → Bool
both_equal (some a) (some b) = codes_eq a b
both_equal _ _ = false

unfoldable pub text_match : Option Text → Option Text → Bool
unfolding normalize_text codes_eq
text_match extracted label = both_equal (normalize_text extracted) (normalize_text label)

unfoldable pub date_match : Option Text → Option Text → Bool
unfolding codes_eq
date_match extracted label_iso = both_equal extracted label_iso

abbrev is_separator : ℕ → Bool
is_separator c = if c == b',' then true else c == b'$'

pub data Field : Type 0 where
  vendor_name invoice_number issue_date total_amount tax_total line_count : Field

pub record Extraction : Type 0 where
  pub vendor_name : Option Text
  pub invoice_number : Option Text
  pub issue_date : Option Text
  pub total_amount : Option Text
  pub tax_total : Option Text
  pub line_count : Option ℕ

pub record Labels : Type 0 where
  pub vendor_name : Option Text
  pub invoice_number : Option Text
  pub issue_date_iso : Option Text
  pub total_amount : Option Text
  pub tax_total : Option Text
  -- `len(labels.get("lines", []))`.
  pub lines : ℕ

pub record Document : Type 0 where
  pub extraction : Option Extraction
  pub labels : Labels

-- `compare_field` on an extraction that is missing looks at absent values.
abbrev no_extraction : Extraction
no_extraction = record {
  vendor_name = none;
  invoice_number = none;
  issue_date = none;
  total_amount = none;
  tax_total = none;
  line_count = none;
}

abbrev extraction_or_empty : Option Extraction → Extraction
extraction_or_empty none = no_extraction
extraction_or_empty (some e) = e

abbrev count_or_zero : Option ℕ → ℕ
count_or_zero none = 0
count_or_zero (some n) = n

module _ (parse : Text → Option Decimal) where
  unfoldable pub as_decimal : Option Text → Option Decimal
  unfolding keep strip
  as_decimal none = none
  as_decimal (some value) =
      if is_empty value
      then none
      else parse (strip is_space (keep (λ c. not (is_separator c)) value))

  abbrev pub within : Option Decimal → Option Decimal → Bool
  within (some a) (some b) = leb_decimal (abs (sub a b)) money_tolerance
  within _ _ = false

  unfoldable pub money_match : Option Text → Option Text → Bool
  unfolding as_decimal leb_decimal abs sub
  money_match extracted label = within (as_decimal extracted) (as_decimal label)

  abbrev labelled_text : Option Text → Option Text → Option Bool
  labelled_text extracted none = none
  labelled_text extracted (some label) = some (text_match extracted (some label))

  abbrev labelled_money : Option Text → Option Text → Option Bool
  labelled_money extracted none = none
  labelled_money extracted (some label) =
      if is_empty label then none else some (money_match extracted (some label))

  abbrev labelled_date : Option Text → Option Text → Option Bool
  labelled_date extracted none = none
  labelled_date extracted (some label) = some (date_match extracted (some label))

  -- `none` where the field has no label.
  unfoldable pub compare_field : Field → Extraction → Labels → Option Bool
  unfolding text_match date_match money_match
  compare_field vendor_name e l = labelled_text e.vendor_name l.vendor_name
  compare_field invoice_number e l = labelled_text e.invoice_number l.invoice_number
  compare_field issue_date e l = labelled_date e.issue_date l.issue_date_iso
  compare_field total_amount e l = labelled_money e.total_amount l.total_amount
  compare_field tax_total e l = labelled_money e.tax_total l.tax_total
  compare_field line_count e l = some (count_or_zero e.line_count == l.lines)

  -- What one document adds to the tally of a field.
  unfoldable pub tally_one : Option Bool → Option Extraction → FieldTally → FieldTally
  tally_one none extraction t = t
  tally_one (some matched) none t = record t { fn = t.fn + 1 }
  tally_one (some matched) (some e) t =
      if matched then record t { tp = t.tp + 1 } else record t { fp = t.fp + 1; fn = t.fn + 1 }

  -- The tally of a field, from the one of the documents before.
  unfoldable pub tally_documents : Field → FieldTally → List Document → FieldTally
  unfolding compare_field tally_one
  tally_documents f t [] = t
  tally_documents f t (d ∷ ds) =
      tally_documents f
        (tally_one (compare_field f (extraction_or_empty d.extraction) d.labels) d.extraction t) ds
