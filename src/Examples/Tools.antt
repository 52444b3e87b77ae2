-- ===== src/Examples/Tools.antt =====
-- The theorems on the generator, the metrics and the near-duplicate search, applied.
use portfolio_project.Prelude.{
  ℕ, ◌+◌, ◌≤◌, ◌≡◌, refl, true, false, Option, none, some, List, [], ◌∷◌, All, map, length, codes,
  upper, without_blanks, get, replicate, arith,
}
use portfolio_project.Decimal.{Decimal, decimal}
use portfolio_project.Float.Fixed.{fixed, fixed_laws}
use portfolio_project.Validation.Iban.{check_normalized}
use portfolio_project.Validation.Engine.{validate_extraction, is_currency_shaped}
use portfolio_project.Erp.{
  Randomness, ErpPoLine, ErpVendor, CleanInvoiceSpec, iban_of, digits, mod97, extraction_dict,
}
use portfolio_project.Erp.Generate.{po_with_receipt}
use portfolio_project.Erp.Iban.{iban_of_valid}
use portfolio_project.Erp.Clean.{HasKnownCode}
use portfolio_project.Erp.Valid.{clean_invoice_passes}
use portfolio_project.Erp.Receipts.{po_with_receipt_invariants}
use portfolio_project.Metrics.{Document, Field, no_tally, support, f1, tally_documents}
use portfolio_project.Metrics.Support.{count_labelled, AtMostOne, tally_documents_counts}
use portfolio_project.NearDup.{Embedding, Candidate, has_dim, find_similar, hit_of}
use portfolio_project.NearDup.Search.{IsFound, find_similar-IsFound}

iban_of_valid_example :
    check_normalized (upper (without_blanks (iban_of 37040044 532013000))) ≡ none
iban_of_valid_example = iban_of_valid 37040044 532013000

abbrev price : Decimal
price = decimal 1999 2

abbrev po_line : ErpPoLine
po_line = record {
  line_no = "1";
  description = "bolts";
  qty = decimal 35 1;
  uom = "KG";
  unit_price = price;
  tax_code = "R";
}

abbrev clean_invoice : CleanInvoiceSpec
clean_invoice = record {
  vendor_name = "Acme";
  invoice_number = "R-7";
  issue_date = 100;
  due_date = 130;
  currency = "EUR";
  iban = codes "DE89370400440532013000";
  po_number = "PO-7";
  lines = po_line ∷ [];
}

-- The least number of every range, and no luck.
abbrev least : Randomness
least = record {
  State = ℕ;
  randrange = λ lo hi s. (lo, s + 1);
  chance = λ percent s. (false, s + 1);
  company = λ s. ("Acme", s);
  catch_phrase = λ s. ("bolts", s);
  first_characters = λ n s. s;
  year_of = λ d. 2026;
  print_number = λ n. "1";
  print_key = λ prefix year seq. prefix;
  text_of = λ s. "DE89370400440532013000";
}

clean_invoice_passes_example :
    (validate_extraction (extraction_dict least {F = ℕ} (λ d. "2026-01-01") clean_invoice)).checks
    ≡ []
clean_invoice_passes_example =
    clean_invoice_passes ℕ least (λ d. "2026-01-01") clean_invoice po_line [] 37040044 532013000
      refl (unfold get in (refl, tt)) (unfold is_currency_shaped in refl)
      (unfold iban_of digits mod97 in refl) refl

abbrev supplier : ErpVendor
supplier = record {
  name = "Acme";
  tax_id = "DE1";
  currency = "EUR";
  iban = [];
  bank_name = "Synth Bank East";
  risk_flags = [];
  is_active = true;
}

po_with_receipt_invariants_example :
    (let (po, gr, s₁) = po_with_receipt least 1 supplier 500 0 in
      (po.ordered_at ≤ gr.received_at)
      × (gr.received_at ≤ 500)
      × (po.currency ≡ supplier.currency)
      × (gr.po_number ≡ po.po_number)
      × (gr.received_qty ≡ map (λ (l : ErpPoLine). (l.line_no, l.qty)) po.lines)
      × ((1 ≤ length po.lines) × (length po.lines ≤ 4))
      × All HasKnownCode po.lines)
po_with_receipt_invariants_example =
    po_with_receipt_invariants least 1 supplier 500 0 (λ lo hi s lt. (omega arith, omega arith))

abbrev documents : List Document
documents =
    record {
      extraction = none;
      labels = record {
        vendor_name = none;
        invoice_number = none;
        issue_date_iso = none;
        total_amount = some (codes "12.50");
        tax_total = none;
        lines = 1;
      };
    }
    ∷ []

abbrev parse : List ℕ → Option Decimal
parse text = some (decimal (length text) 0)

tally_documents_counts_example :
    (let t = tally_documents parse Field.total_amount no_tally documents in
      (support t ≡ count_labelled parse Field.total_amount documents)
      × (t.fp ≤ t.fn)
      × AtMostOne (f1 t))
tally_documents_counts_example = tally_documents_counts parse Field.total_amount documents

similar_vector : List (fixed.Float)
unfolding fixed
similar_vector = replicate 768 0

abbrev corpus : List (Embedding (fixed.Float))
corpus =
    record { invoice_id = 1; vector = some similar_vector }
    ∷ record { invoice_id = 2; vector = some similar_vector }
    ∷ []

find_similar-IsFound_example :
    (found : List (Candidate (fixed.Float))) × (find_similar fixed
        (λ a b. fixed.literal 0 0)
        (fixed.literal 90 2)
        2
        similar_vector
        corpus
      ≡ some (map (hit_of fixed (λ a b. fixed.literal 0 0) (fixed.literal 90 2)) found))
    × IsFound fixed fixed_laws
        (λ a b. fixed.literal 0 0)
        (fixed.literal 90 2)
        2
        similar_vector
        corpus
        found
find_similar-IsFound_example =
    find_similar-IsFound fixed fixed_laws (λ a b. fixed.literal 0 0) (fixed.literal 90 2) 2
      similar_vector corpus dimension
  where
    dimension : has_dim similar_vector ≡ true
    dimension = unfold similar_vector in refl
