-- ===== src/NearDup.antt =====
-- tools/near_dup.py: the text that identifies an invoice, the search for similar ones, and the
-- storing of its embedding. The embedder, the distance of two vectors, and the printing of numbers
-- are outside the program. The column of the embeddings is a table of its own.
pub mod Search
use portfolio_project.Prelude.{
  ℕ, zero, suc, ◌+◌, ◌/◌, ◌%◌, String, Bool, true, false, not, ◌&&◌, Option, none, some, List, [],
  ◌∷◌, ◌++◌, map, ◌==◌, codes, casefold, words_from, join_words, collapse, keep, sort_by, take,
  length, if◌then◌else◌,
}
use portfolio_project.Decimal.{Decimal}
use portfolio_project.Float.{FloatOps, one_float, ltb_float}
use portfolio_project.Policy.{NearDupHit}

abbrev Text : Type 0
Text = List ℕ

abbrev pub top_k : ℕ
top_k = 5

abbrev pub embedding_dim : ℕ
embedding_dim = 768

-- A value of the dictionary: absent, a decimal, or what `str` prints.
pub data Value : Type 0 where
  absent : Value
  amount : Decimal → Value
  printed : Text → Value

pub record SalientLine : Type 0 where
  pub description : Value
  pub qty : Value
  pub unit_price : Value
  pub line_total : Value

pub record SalientInvoice : Type 0 where
  pub vendor_name : Value
  pub invoice_number : Value
  pub issue_date : Value
  pub due_date : Value
  pub currency : Value
  pub total_amount : Value
  pub tax_total : Value
  pub iban : Value
  pub lines : List SalientLine

-- `str(value.normalize())` of a decimal, and `str` of an index.
module _ (print_decimal : Decimal → Text) (print_index : ℕ → Text) where
  unfoldable pub norm_value : Value → Text
  unfolding collapse
  norm_value absent = codes "unknown"
  norm_value (amount d) = print_decimal d
  norm_value (printed s) = collapse s

  abbrev part : String → Value → Text
  part name v = codes name ++ norm_value v

  abbrev line_part : ℕ → String → Value → Text
  line_part i name v = codes "line" ++ (print_index i ++ (codes name ++ norm_value v))

  unfoldable pub line_parts : ℕ → List SalientLine → List Text
  unfolding norm_value
  line_parts i [] = []
  line_parts i (l ∷ ls) =
      line_part i ".description:" l.description
      ∷ line_part i ".qty:" l.qty
      ∷ line_part i ".unit_price:" l.unit_price
      ∷ line_part i ".line_total:" l.line_total
      ∷ line_parts (i + 1) ls

  unfoldable pub salient_text : SalientInvoice → Text
  unfolding norm_value line_parts join_words
  salient_text v = join_words (
      part "vendor_name:" v.vendor_name
      ∷ part "invoice_number:" v.invoice_number
      ∷ part "issue_date:" v.issue_date
      ∷ part "due_date:" v.due_date
      ∷ part "currency:" v.currency
      ∷ part "total_amount:" v.total_amount
      ∷ part "tax_total:" v.tax_total
      ∷ part "iban:" v.iban
      ∷ line_parts 0 v.lines)

-- `text.casefold().split()`.
unfoldable pub tokens : Text → List Text
unfolding words_from casefold
tokens text = words_from [] (casefold text)

-- An invoice's key with its embedding, which may be missing.
pub record Embedding (F : Type 0) : Type 0 where
  pub invoice_id : ℕ
  pub vector : Option (List F)

abbrev pub has_dim : {F : Type 0} → List F → Bool
has_dim vector = length vector == embedding_dim

pub record NearDupOutcome (F : Type 0) : Type 0 where
  pub invoice_id : ℕ
  pub hits : List (NearDupHit F)
  pub threshold : F

-- A row of the search: the key and the distance.
pub record Candidate (F : Type 0) : Type 0 where
  pub invoice_id : ℕ
  pub distance : F

module _ (O : FloatOps) (cosine_distance : List O.Float → List O.Float → O.Float)
    (threshold : O.Float) where
  open O use {Float, minus, leb_float}

  abbrev pub max_distance : Float
  max_distance = minus (one_float O) threshold

  -- `distance < max_distance`, of another invoice that has an embedding.
  unfoldable pub candidates : ℕ → List Float → List (Embedding Float) → List (Candidate Float)
  candidates invoice_id vector [] = []
  candidates invoice_id vector (row ∷ rows) =
      let rest = candidates invoice_id vector rows in
      elim row.vector [
        | none ↦ rest
        | some other ↦
            if not (row.invoice_id == invoice_id)
              && ltb_float O (cosine_distance other vector) max_distance
            then record { invoice_id = row.invoice_id; distance = cosine_distance other vector }
              ∷ rest
            else rest
      ]

  abbrev pub nearer : Candidate Float → Candidate Float → Bool
  nearer a b = leb_float a.distance b.distance

  -- `order_by(distance)`.
  unfoldable pub nearest_first : List (Candidate Float) → List (Candidate Float)
  unfolding sort_by
  nearest_first cs = sort_by nearer cs

  abbrev pub hit_of : Candidate Float → NearDupHit Float
  hit_of c = record { invoice_id = c.invoice_id; similarity = minus (one_float O) c.distance }

  -- `none` is the `ValueError` on a vector of another dimension.
  unfoldable pub find_similar :
      ℕ → List Float → List (Embedding Float) → Option (List (NearDupHit Float))
  unfolding candidates nearest_first
  find_similar invoice_id vector rows =
      if has_dim vector
      then some (map hit_of (take top_k (nearest_first (candidates invoice_id vector rows))))
      else none

  abbrev with_vector : ℕ → List Float → Embedding Float → Embedding Float
  with_vector invoice_id vector row =
      if row.invoice_id == invoice_id then record row { vector = some vector } else row

  unfoldable pub store_embedding :
      ℕ → List Float → List (Embedding Float) → Option (List (Embedding Float))
  store_embedding invoice_id vector rows =
      if has_dim vector then some (map (with_vector invoice_id vector) rows) else none

  -- The search comes first, then the storing. `none` is an exception, of the embedder too.
  unfoldable pub check_and_store :
      (Text → Option (List Float))
      → ℕ
      → Text
      → List (Embedding Float)
      → Option (NearDupOutcome Float × List (Embedding Float))
  unfolding find_similar store_embedding
  check_and_store embed invoice_id text rows = elim (embed text) [
    | none ↦ none
    | some vector ↦ elim (find_similar invoice_id vector rows) [
      | none ↦ none
      | some hits ↦ elim (store_embedding invoice_id vector rows) [
        | none ↦ none
        | some rows₁ ↦
            some (record { invoice_id = invoice_id; hits = hits; threshold = threshold }, rows₁)
      ]
    ]
  ]
