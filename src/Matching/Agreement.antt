-- ===== src/Matching/Agreement.antt =====
-- What an invoice that `match3way` of tools/matching.py does not call a mismatch has in common with
-- its order and its receipt.
use portfolio_project.Prelude.{
  String, ◌≡◌, ◌≢◌, refl, true, false, Option, none, some, List, [], ◌∷◌, ◌++◌, any, present, All,
  arith, Bool-cases, inl, inr, any-append, present-append, codes, upper, codes_eq→eq,
}
use portfolio_project.Decimal.{Decimal, leb_decimal, sub, abs}
use portfolio_project.Matching.{
  InvoiceForMatch, InvoiceLineForMatch, PoForMatch, PoLineForMatch, GrForMatch, MatchFinding,
  mismatch, qty_tolerance, ReasonCode, uom_mm, ccy_mm,
}
use portfolio_project.Matching.Checks.{
  check_vendor, check_currency, check_upper, check_uom, check_qty, check_price, price_band,
  price_finding,
}
use portfolio_project.Matching.Engine.{
  check_received, check_line, po_line_for, received_for, check_all_lines, is_error_finding,
  outcome_of, found_by, dispatch, missing_po_result, match_with_po, match3way,
  line_not_on_po_finding, gr_line_missing_finding,
}

-- Two optional texts agree in capitals, where both are given.
abbrev pub SameUpper : Option String → Option String → Type 0
SameUpper (some a) (some b) = upper (codes a) ≡ upper (codes b)
SameUpper _ _ = Unit

-- One line of the invoice: it is on the order, it was received, no more is billed than was
-- received, and the price is in the band of the order's price.
pub record IsAgreed (po : PoForMatch) (gr : Option GrForMatch) (l : InvoiceLineForMatch)
    : Type 0 where
  pub po_line : PoLineForMatch
  pub ordered : po_line_for po l.line_no ≡ some po_line
  pub received_qty : Decimal
  pub received : received_for gr l.line_no ≡ some received_qty
  pub covered : leb_decimal (sub l.qty received_qty) qty_tolerance ≡ true
  pub in_band :
      leb_decimal (abs (sub l.unit_price po_line.unit_price)) (price_band po_line.unit_price) ≡ true
  pub same_unit : SameUpper l.uom po_line.uom

-- No finding of these is an error.
abbrev NoError : List (Option MatchFinding) → Type 0
NoError os = any is_error_finding (present os) ≡ false

NoError-tail :
    (o : Option MatchFinding) (os : List (Option MatchFinding)) → NoError (o ∷ os) → NoError os
unfolding any present
NoError-tail none os h = h
NoError-tail (some f) os h = ground arith

NoError-head :
    (f : MatchFinding) (os : List (Option MatchFinding))
    → NoError (some f ∷ os)
    → is_error_finding f ≡ false
unfolding any present
NoError-head f os h = ground arith

NoError-append : (os ps : List (Option MatchFinding)) → NoError (os ++ ps) → NoError os × NoError ps
NoError-append os ps h =
    ground (arith, present-append os ps, any-append is_error_finding (present os) (present ps))

upper_agrees :
    (code : ReasonCode) (line_no a b : Option String) (os : List (Option MatchFinding))
    → NoError (check_upper code line_no a b ∷ os)
    → SameUpper a b
unfolding check_upper any present is_error_finding
upper_agrees code line_no (some a) (some b) os h =
    codes_eq→eq (upper (codes a)) (upper (codes b)) (ground arith)
upper_agrees code line_no (some a) none os h = tt
upper_agrees code line_no none (some b) os h = tt
upper_agrees code line_no none none os h = tt

module _ (po : PoForMatch) (gr : Option GrForMatch) where
  price_agrees :
      (l : InvoiceLineForMatch) (po_line : PoLineForMatch) (os : List (Option MatchFinding))
      → NoError ((check_price l po_line).0 ∷ os)
      → leb_decimal (abs (sub l.unit_price po_line.unit_price)) (price_band po_line.unit_price)
        ≡ true
  unfolding check_price price_finding any present is_error_finding
  price_agrees l po_line os h = ground arith

  qty_agrees :
      (l : InvoiceLineForMatch) (r : Option Decimal) (os : List (Option MatchFinding))
      → NoError ((check_received l r).0 ∷ os)
      → (q : Decimal) × (r ≡ some q) × (leb_decimal (sub l.qty q) qty_tolerance ≡ true)
  unfolding check_received check_qty any present is_error_finding gr_line_missing_finding
  qty_agrees l none os h = absurd (ground arith)
  qty_agrees l (some q) os h = (q, refl, ground arith)

  line_agrees :
      (l : InvoiceLineForMatch) (pl : Option PoLineForMatch)
      → po_line_for po l.line_no ≡ pl
      → NoError (check_line l pl (received_for gr l.line_no)).0
      → IsAgreed po gr l
  unfolding check_line line_not_on_po_finding any present is_error_finding
  line_agrees l none e h = absurd (ground arith)
  line_agrees l (some po_line) e h =
      let (q, r, c) = qty_agrees l (received_for gr l.line_no) _ h in
      let h1 = NoError-tail (check_received l (received_for gr l.line_no)).0 _ h in
      let h2 = NoError-tail (check_price l po_line).0 _ h1 in
      record {
        po_line = po_line;
        ordered = e;
        received_qty = q;
        received = r;
        covered = c;
        in_band = price_agrees l po_line _ h1;
        same_unit =
            unfold check_uom in upper_agrees uom_mm (some l.line_no) l.uom po_line.uom [] h2;
      }

  lines_agree :
      (ls : List InvoiceLineForMatch)
      → NoError (check_all_lines po gr ls).0
      → All (IsAgreed po gr) ls
  unfolding check_all_lines
  lines_agree [] h = tt
  lines_agree (l ∷ ls) h =
      let (here, rest) =
        NoError-append (check_line l (po_line_for po l.line_no) (received_for gr l.line_no)).0
          (check_all_lines po gr ls).0 h in
      (line_agrees l (po_line_for po l.line_no) refl here, lines_agree ls rest)

no_errors : (fs : List MatchFinding) → outcome_of fs ≢ mismatch → any is_error_finding fs ≡ false
unfolding outcome_of
no_errors fs h = elim (Bool-cases (any is_error_finding fs)) [
  | inl b ↦ absurd (h (rw b refl))
  | inr b ↦ b
]

header_agrees :
    (invoice : InvoiceForMatch) (po : PoForMatch) (gr : Option GrForMatch)
    → any is_error_finding (found_by invoice po gr) ≡ false
    → SameUpper invoice.currency po.currency × All (IsAgreed po gr) invoice.lines
unfolding found_by
header_agrees invoice po gr h =
    let h1 = NoError-tail (check_vendor invoice po) _ h in
    let h2 = NoError-tail (check_currency invoice po) _ h1 in
    (
      unfold check_currency in upper_agrees ccy_mm none invoice.currency po.currency _ h1,
      lines_agree po gr invoice.lines h2,
    )

-- An invoice whose match is no mismatch names an order, in its currency, and each of its lines
-- agrees with that order and the receipt.
pub match3way-IsAgreed :
    (invoice : InvoiceForMatch) (po : Option PoForMatch) (gr : Option GrForMatch)
    → (match3way invoice po gr).outcome ≢ mismatch
    → (order : PoForMatch) × (po ≡ some order)
      × SameUpper invoice.currency order.currency
      × All (IsAgreed order gr) invoice.lines
unfolding match3way dispatch missing_po_result
match3way-IsAgreed invoice po gr h = by_number invoice.po_number po h
  where
    by_number :
        (number : Option String) (p : Option PoForMatch)
        → (dispatch invoice number p gr).outcome ≢ mismatch
        → (order : PoForMatch) × (p ≡ some order)
          × SameUpper invoice.currency order.currency
          × All (IsAgreed order gr) invoice.lines
    by_number (some n) (some order) k =
        let clean = no_errors (found_by invoice order gr) (unfold match_with_po in k) in
        let (currency, lines) = header_agrees invoice order gr clean in
        (order, refl, currency, lines)
    by_number (some n) none k = absurd (k refl)
    by_number none p k = absurd (k refl)
