-- ===== src/Erp/Generate.antt =====
-- The drawing of vendors, orders and receipts in data/erp.py.
use portfolio_project.Prelude.{
  ℕ, zero, suc, ◌+◌, ◌-◌, ◌^◌, String, true, List, [], ◌∷◌, ◌++◌, map, if◌then◌else◌, codes,
}
use Prim.Native.Nat.{min}
use portfolio_project.Decimal.{Decimal, decimal}
use portfolio_project.Erp.{
  Randomness, ErpVendor, ErpPoLine, ErpPurchaseOrder, ErpGoodsReceipt, digits, iban_of,
}

abbrev nth : {A : Type 0} → A → ℕ → List A → A
nth a n [] = a
nth a zero (x ∷ xs) = x
nth a (suc n) (x ∷ xs) = nth a n xs

abbrev pub currencies : List String
currencies = "EUR" ∷ "EUR" ∷ "EUR" ∷ "EUR" ∷ "EUR" ∷ "EUR" ∷ "EUR" ∷ "USD" ∷ "USD" ∷ "GBP" ∷ []

abbrev bank_names : List String
bank_names =
    "Synth Bank East" ∷ "Synth Bank West" ∷ "Nordbank Synthetic" ∷ "Südliche Synthbank" ∷ []

abbrev uom_each : List String
uom_each = "EA" ∷ "PCS" ∷ "BOX" ∷ []

abbrev uom_fractional : List String
uom_fractional = "KG" ∷ "M" ∷ []

module _ (R : Randomness) where
  open R use {State, randrange, chance}

  unfoldable pub de_iban : State → List ℕ × State
  unfolding iban_of
  de_iban s =
      let (bank, s₁) = randrange (10 ^ 7) (10 ^ 8) s in
      let (account, s₂) = randrange (10 ^ 9) (10 ^ 10) s₁ in (iban_of bank account, s₂)

  unfoldable pub vendor : State → ErpVendor × State
  unfolding de_iban
  vendor s =
      let (c, s₁) = randrange 0 10 s in
      let (at_risk, s₂) = chance 10 s₁ in
      let (name, s₃) = R.company s₂ in
      let (tax, s₄) = randrange (10 ^ 8) (10 ^ 9) s₃ in
      let (iban, s₅) = de_iban s₄ in
      let (bank, s₆) = randrange 0 4 s₅ in
      (
        record {
          name = name;
          tax_id = R.text_of (codes "DE" ++ digits 9 tax);
          currency = nth "EUR" c currencies;
          iban = iban;
          bank_name = nth "" bank bank_names;
          risk_flags = if at_risk then "watchlist-demo" ∷ [] else [];
          is_active = true;
        },
        s₆,
      )

  -- A quantity with its unit: with one decimal, or whole.
  unfoldable pub quantity : State → String × Decimal × State
  quantity s =
      let (fractional, s₁) = chance 20 s in
      let (u, s₂) = randrange 0 2 s₁ in
      let (q, s₃) = randrange 1 500 s₂ in
      let (v, s₄) = randrange 0 3 s₁ in
      let (n, s₅) = randrange 1 51 s₄ in
      if fractional
      then (nth "" u uom_fractional, decimal q 1, s₃)
      else (nth "" v uom_each, decimal n 0, s₅)

  unfoldable pub draw_tax_code : State → String × State
  draw_tax_code s =
      let (standard, s₁) = chance 80 s in
      let (reduced, s₂) = chance 50 s₁ in
      if standard then ("S", s₁) else (if reduced then "R" else "Z", s₂)

  unfoldable pub po_line : ℕ → State → ErpPoLine × State
  unfolding quantity draw_tax_code
  po_line line_no s =
      let (uom, qty, s₁) = quantity s in
      let (price, s₂) = randrange 100 100000 s₁ in
      let (code, s₃) = draw_tax_code s₂ in
      let (phrase, s₄) = R.catch_phrase s₃ in
      (
        record {
          line_no = R.print_number line_no;
          description = R.first_characters 120 phrase;
          qty = qty;
          uom = uom;
          unit_price = decimal price 2;
          tax_code = code;
        },
        s₄,
      )

  -- The lines with the numbers from `line_no` on.
  unfoldable pub po_lines : ℕ → ℕ → State → List ErpPoLine × State
  unfolding po_line
  po_lines zero line_no s = ([], s)
  po_lines (suc n) line_no s =
      let (l, s₁) = po_line line_no s in let (ls, s₂) = po_lines n (line_no + 1) s₁ in (l ∷ ls, s₂)

  -- `randint(lo, hi)` includes both ends.
  unfoldable pub ordered_day : ℕ → State → ℕ × State
  ordered_day reference_date s =
      let (stale, s₁) = chance 15 s in
      let (long, s₂) = randrange 91 366 s₁ in
      let (short, s₃) = randrange 1 91 s₁ in
      if stale then (reference_date - long, s₂) else (reference_date - short, s₃)

  unfoldable pub po_with_receipt :
      ℕ → ErpVendor → ℕ → State → ErpPurchaseOrder × ErpGoodsReceipt × State
  unfolding ordered_day po_lines
  po_with_receipt seq v reference_date s =
      let (closed, s₁) = chance 15 s in
      let (ordered_at, s₂) = ordered_day reference_date s₁ in
      let (count, s₃) = randrange 1 5 s₂ in
      let (lines, s₄) = po_lines count 1 s₃ in
      let (after, s₅) = randrange 1 15 s₄ in
      let po : ErpPurchaseOrder = record {
        po_number = R.print_key "PO-" (R.year_of reference_date) seq;
        vendor_name = v.name;
        currency = v.currency;
        status = if closed then "CLOSED" else "OPEN";
        lines = lines;
        ordered_at = ordered_at;
      } in
      (
        po,
        record {
          gr_number = R.print_key "GR-" (R.year_of reference_date) seq;
          po_number = po.po_number;
          received_qty = map (λ (l : ErpPoLine). (l.line_no, l.qty)) lines;
          received_at = ordered_at + min after (reference_date - ordered_at);
        },
        s₅,
      )
