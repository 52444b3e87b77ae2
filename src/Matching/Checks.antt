-- ===== src/Matching/Checks.antt =====
-- The checks of tools/matching.py on one header field or one line.
use portfolio_project.Prelude.{
  ◌*◌, ◌^◌, String, Option, none, some, List, [], ◌∷◌, if◌then◌else◌, codes, upper, codes_eq,
  collapse,
}
use portfolio_project.Prelude.Int.{pos_part}
use portfolio_project.Decimal.{
  Decimal, zero_decimal, leb_decimal, ltb_decimal, eq_decimal, sub, mul, abs, max_decimal,
  one_decimal,
}
use portfolio_project.Decimal.Ratio.{Ratio, zero_ratio, one_ratio, min_ratio}
use portfolio_project.Matching.{
  ReasonCode, Severity, MatchFinding, InvoiceForMatch, InvoiceLineForMatch, PoForMatch,
  PoLineForMatch, vendor_mm, ccy_mm, uom_mm, qty_mm, price_mm, price_drift, error, warn, text,
  characters, number, price_pct_tolerance, price_abs_tolerance, qty_tolerance,
}

-- `delta / band`, for a positive band and a delta that is not negative.
quotient : Decimal → Decimal → Ratio
quotient delta band = record {
  num = pos_part delta.coef * 10 ^ band.places;
  den = pos_part band.coef * 10 ^ delta.places;
}

unfoldable pub ratio : Decimal → Decimal → Ratio
unfolding leb_decimal ltb_decimal quotient min_ratio
ratio delta band =
    if leb_decimal band zero_decimal
    then (if ltb_decimal zero_decimal delta then one_ratio else zero_ratio)
    else if ltb_decimal zero_decimal delta
    then min_ratio one_ratio (quotient delta band)
    else zero_ratio

unfoldable pub price_band : Decimal → Decimal
unfolding max_decimal mul
price_band po_unit_price = max_decimal price_abs_tolerance (mul price_pct_tolerance po_unit_price)

-- `_norm_name` is `collapse`.
unfoldable pub check_vendor_names : Option String → Option String → Option MatchFinding
unfolding codes_eq collapse
check_vendor_names (some invoice) (some po) =
    if codes_eq (collapse (codes invoice)) (collapse (codes po))
    then none
    else some (record {
      code = vendor_mm;
      severity = error;
      line_no = none;
      delta = ("invoice", text invoice) ∷ ("po", text po) ∷ [];
    })
check_vendor_names _ _ = none

unfoldable pub check_vendor : InvoiceForMatch → PoForMatch → Option MatchFinding
unfolding check_vendor_names
check_vendor invoice po = check_vendor_names invoice.vendor_name po.vendor_name

-- The comparison that `_check_currency` and `_check_uom` make of two optional texts.
unfoldable pub check_upper :
    ReasonCode → Option String → Option String → Option String → Option MatchFinding
unfolding upper codes_eq
check_upper code line_no (some invoice) (some po) =
    if codes_eq (upper (codes invoice)) (upper (codes po))
    then none
    else some (record {
      code = code;
      severity = error;
      line_no = line_no;
      delta =
          ("invoice", characters (upper (codes invoice)))
          ∷ ("po", characters (upper (codes po)))
          ∷ [];
    })
check_upper code line_no _ _ = none

unfoldable pub check_currency : InvoiceForMatch → PoForMatch → Option MatchFinding
unfolding check_upper
check_currency invoice po = check_upper ccy_mm none invoice.currency po.currency

unfoldable pub check_uom : InvoiceLineForMatch → PoLineForMatch → Option MatchFinding
unfolding check_upper
check_uom inv_line po_line = check_upper uom_mm (some inv_line.line_no) inv_line.uom po_line.uom

-- The finding and what the call appends to `ratios`.
unfoldable pub check_qty : InvoiceLineForMatch → Decimal → Option MatchFinding × List Ratio
unfolding leb_decimal sub ratio
check_qty inv_line received_qty =
    let delta = sub inv_line.qty received_qty in
    if leb_decimal delta qty_tolerance then (none, []) else (
      some (record {
        code = qty_mm;
        severity = error;
        line_no = some inv_line.line_no;
        delta =
            ("invoice", number inv_line.qty)
            ∷ ("received", number received_qty)
            ∷ ("delta", number delta)
            ∷ [];
      }),
      ratio delta one_decimal ∷ [],
    )

unfoldable pub price_finding :
    ReasonCode → Severity → InvoiceLineForMatch → PoLineForMatch → Option MatchFinding
unfolding sub price_band
price_finding code severity inv_line po_line = some (record {
  code = code;
  severity = severity;
  line_no = some inv_line.line_no;
  delta =
      ("invoice", number inv_line.unit_price)
      ∷ ("po", number po_line.unit_price)
      ∷ ("delta", number (sub inv_line.unit_price po_line.unit_price))
      ∷ ("band", number (price_band po_line.unit_price))
      ∷ [];
})

unfoldable pub check_price : InvoiceLineForMatch → PoLineForMatch → Option MatchFinding × List Ratio
unfolding leb_decimal eq_decimal sub abs price_band ratio price_finding
check_price inv_line po_line =
    let delta = sub inv_line.unit_price po_line.unit_price in
    let band = price_band po_line.unit_price in
    (
      if leb_decimal (abs delta) band
          then (if eq_decimal delta zero_decimal
              then none
              else price_finding price_drift warn inv_line po_line)
          else price_finding price_mm error inv_line po_line,
      ratio (abs delta) band ∷ [],
    )
