-- ===== src/Matching/Engine.antt =====
-- `match3way` of tools/matching.py.
use portfolio_project.Prelude.{
  String, Bool, Option, none, some, List, [], ◌∷◌, ◌++◌, map, any, present, get, if◌then◌else◌,
}
use portfolio_project.Decimal.{Decimal}
use portfolio_project.Decimal.Ratio.{Ratio, one_ratio, min_ratio, max_ratio}
use portfolio_project.Matching.{
  MatchOutcome, matches, tolerable, mismatch, MatchFinding, MatchResult, Cell, InvoiceForMatch,
  InvoiceLineForMatch, PoForMatch, PoLineForMatch, GrForMatch, missing_po, line_not_on_po,
  gr_line_missing, error, text, is_error, is_warn, config_version, text_or_absent, day_or_absent,
  absent,
}
use portfolio_project.Matching.Checks.{
  check_vendor, check_currency, check_uom, check_qty, check_price,
}

-- What one round of the loop appends to `findings` and to `ratios`.
abbrev pub Round : Type 0
Round = List (Option MatchFinding) × List Ratio

unfoldable pub line_not_on_po_finding : InvoiceLineForMatch → MatchFinding
line_not_on_po_finding inv_line = record {
  code = line_not_on_po;
  severity = error;
  line_no = some inv_line.line_no;
  delta = [];
}

unfoldable pub gr_line_missing_finding : InvoiceLineForMatch → MatchFinding
gr_line_missing_finding inv_line = record {
  code = gr_line_missing;
  severity = error;
  line_no = some inv_line.line_no;
  delta = [];
}

unfoldable pub check_received :
    InvoiceLineForMatch → Option Decimal → Option MatchFinding × List Ratio
unfolding check_qty gr_line_missing_finding
check_received inv_line none = (some (gr_line_missing_finding inv_line), [])
check_received inv_line (some received_qty) = check_qty inv_line received_qty

-- The body of the loop, after the two look-ups.
unfoldable pub check_line : InvoiceLineForMatch → Option PoLineForMatch → Option Decimal → Round
unfolding check_received check_price check_uom line_not_on_po_finding
check_line inv_line none received = (some (line_not_on_po_finding inv_line) ∷ [], [])
check_line inv_line (some po_line) received =
    let (by_qty, qty_ratios) = check_received inv_line received in
    let (by_price, price_ratios) = check_price inv_line po_line in
    (by_qty ∷ by_price ∷ check_uom inv_line po_line ∷ [], qty_ratios ++ price_ratios)

-- `{line.line_no: line for line in po.lines}.get(line_no)`.
unfoldable pub po_line_for : PoForMatch → String → Option PoLineForMatch
unfolding get
po_line_for po line_no = get line_no (map (λ (l : PoLineForMatch). (l.line_no, l)) po.lines)

unfoldable pub received_for : Option GrForMatch → String → Option Decimal
unfolding get
received_for none line_no = none
received_for (some gr) line_no = get line_no gr.received_qty

unfoldable pub check_all_lines : PoForMatch → Option GrForMatch → List InvoiceLineForMatch → Round
unfolding check_line po_line_for received_for
check_all_lines po gr [] = ([], [])
check_all_lines po gr (l ∷ ls) =
    let (fs, rs) = check_line l (po_line_for po l.line_no) (received_for gr l.line_no) in
    let (gs, ss) = check_all_lines po gr ls in (fs ++ gs, rs ++ ss)

unfoldable pub is_error_finding : MatchFinding → Bool
is_error_finding f = is_error f.severity

unfoldable pub is_warn_finding : MatchFinding → Bool
is_warn_finding f = is_warn f.severity

unfoldable pub outcome_of : List MatchFinding → MatchOutcome
unfolding any is_error_finding is_warn_finding
outcome_of found =
    if any is_error_finding found
    then mismatch
    else if any is_warn_finding found
    then tolerable
    else matches

unfoldable pub missing_po_result : InvoiceForMatch → MatchResult
missing_po_result invoice = record {
  outcome = mismatch;
  findings =
      (record {
        code = missing_po;
        severity = error;
        line_no = none;
        delta = ("po_number", text_or_absent invoice.po_number) ∷ [];
      })
      ∷ [];
  normalized_delta = one_ratio;
  evidence =
      ("po_number", text_or_absent invoice.po_number)
      ∷ ("config_version", text config_version)
      ∷ [];
}

-- The findings that are not `None`, in the order of the checks.
unfoldable pub found_by : InvoiceForMatch → PoForMatch → Option GrForMatch → List MatchFinding
unfolding present check_vendor check_currency check_all_lines
found_by invoice po gr =
    present (
      check_vendor invoice po ∷ check_currency invoice po ∷ (check_all_lines po gr invoice.lines).0)

abbrev gr_number_cell : Option GrForMatch → Cell
gr_number_cell none = absent
gr_number_cell (some gr) = text gr.gr_number

unfoldable pub match_with_po : InvoiceForMatch → PoForMatch → Option GrForMatch → MatchResult
unfolding found_by outcome_of check_all_lines min_ratio max_ratio
match_with_po invoice po gr = record {
  outcome = outcome_of (found_by invoice po gr);
  findings = found_by invoice po gr;
  normalized_delta = min_ratio one_ratio (max_ratio (check_all_lines po gr invoice.lines).1);
  evidence =
      ("po_number", text po.po_number)
      ∷ ("gr_number", gr_number_cell gr)
      ∷ ("po_status", text po.status)
      ∷ ("issue_date", day_or_absent invoice.issue_date)
      ∷ ("ordered_at", day_or_absent po.ordered_at)
      ∷ ("invoice_number", text_or_absent invoice.invoice_number)
      ∷ ("config_version", text config_version)
      ∷ [];
}

unfoldable pub dispatch :
    InvoiceForMatch → Option String → Option PoForMatch → Option GrForMatch → MatchResult
unfolding missing_po_result match_with_po
dispatch invoice (some _) (some po) gr = match_with_po invoice po gr
dispatch invoice _ _ gr = missing_po_result invoice

unfoldable pub match3way : InvoiceForMatch → Option PoForMatch → Option GrForMatch → MatchResult
unfolding dispatch
match3way invoice po gr = dispatch invoice invoice.po_number po gr
