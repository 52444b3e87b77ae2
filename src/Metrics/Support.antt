-- ===== src/Metrics/Support.antt =====
-- What the tally of eval/metrics.py counts.
use portfolio_project.Prelude.{
  ℕ, suc, ◌+◌, ◌*◌, ◌≤◌, ◌≡◌, ◌∙◌, refl, ap, Bool, true, false, Option, none, some, List, [], ◌∷◌,
  arith, ◌==◌, is_none, if◌then◌else◌,
}
use portfolio_project.Decimal.{Decimal}
use portfolio_project.Metrics.{
  FieldTally, no_tally, f1, support, Field, Extraction, Document, compare_field, tally_one,
  tally_documents, extraction_or_empty,
}

-- A document that has a label for the field.
abbrev is_labelled : (List ℕ → Option Decimal) → Field → Document → Bool
is_labelled parse f d =
    if is_none (compare_field parse f (extraction_or_empty d.extraction) d.labels)
    then false
    else true

pub count_labelled : (List ℕ → Option Decimal) → Field → List Document → ℕ
count_labelled parse f [] = 0
count_labelled parse f (d ∷ ds) =
    let rest = count_labelled parse f ds in if is_labelled parse f d then suc rest else rest

-- The value of a quotient is from 0 to 1.
abbrev pub AtMostOne : Option (ℕ × ℕ) → Type 0
AtMostOne none = Unit
AtMostOne (some (num, den)) = num ≤ den

f1-AtMostOne : (t : FieldTally) → AtMostOne (f1 t)
unfolding f1
f1-AtMostOne t = by_denom (2 * t.tp + t.fp + t.fn == 0)
  where
    below : 2 * t.tp ≤ 2 * t.tp + t.fp + t.fn
    below = omega arith

    by_denom : (b : Bool) → AtMostOne (if b then none else some (2 * t.tp, 2 * t.tp + t.fp + t.fn))
    by_denom true = tt
    by_denom false = below

module _ (parse : List ℕ → Option Decimal) where
  support-tally_one :
      (o : Option Bool) (e : Option Extraction) (t : FieldTally)
      → support (tally_one parse o e t) ≡ (if is_none o then support t else suc (support t))
  unfolding support tally_one
  support-tally_one none e t = refl
  support-tally_one (some matched) none t = omega arith
  support-tally_one (some matched) (some e) t = ground arith

  -- A false positive is also a false negative.
  fp-tally_one :
      (o : Option Bool) (e : Option Extraction) (t : FieldTally)
      → t.fp ≤ t.fn
      → (tally_one parse o e t).fp ≤ (tally_one parse o e t).fn
  unfolding tally_one
  fp-tally_one none e t h = h
  fp-tally_one (some matched) none t h = omega arith
  fp-tally_one (some matched) (some e) t h = ground arith

  support-tally_from :
      (f : Field) (ds : List Document) (t : FieldTally)
      → support (tally_documents parse f t ds) ≡ count_labelled parse f ds + support t
  unfolding tally_documents count_labelled
  support-tally_from f [] t = omega arith
  support-tally_from f (d ∷ ds) t =
      support-tally_from f ds _
      ∙ (ap (λ (n : ℕ). count_labelled parse f ds + n) (support-tally_one _ d.extraction t)
          ∙ counted (compare_field parse f (extraction_or_empty d.extraction) d.labels)
              (count_labelled parse f ds) (support t))
    where
      counted :
          (o : Option Bool) (n k : ℕ)
          → n + (if is_none o then k else suc k)
            ≡ (if (if is_none o then false else true) then suc n else n) + k
      counted none n k = refl
      counted (some b) n k = omega arith

  fp-tally_from :
      (f : Field) (ds : List Document) (t : FieldTally)
      → t.fp ≤ t.fn
      → (tally_documents parse f t ds).fp ≤ (tally_documents parse f t ds).fn
  unfolding tally_documents
  fp-tally_from f [] t h = h
  fp-tally_from f (d ∷ ds) t h = fp-tally_from f ds _ (
      fp-tally_one (compare_field parse f (extraction_or_empty d.extraction) d.labels) d.extraction
        t h)

-- The support of a field is the number of documents that have a label for it, extracted or not; its
-- false positives are no more than its false negatives; and its F1 is at most 1.
pub tally_documents_counts :
    (parse : List ℕ → Option Decimal) (f : Field) (ds : List Document)
    → (let t = tally_documents parse f no_tally ds in
        (support t ≡ count_labelled parse f ds) × (t.fp ≤ t.fn) × AtMostOne (f1 t))
tally_documents_counts parse f ds = (
  support-tally_from parse f ds no_tally ∙ (unfold support in omega arith),
  fp-tally_from parse f ds no_tally (omega arith),
  f1-AtMostOne (tally_documents parse f no_tally ds),
)
