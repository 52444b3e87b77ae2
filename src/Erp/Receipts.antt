-- ===== src/Erp/Receipts.antt =====
-- What data/erp.py promises of an order and its receipt.
use portfolio_project.Prelude.{
  ℕ, zero, suc, ◌+◌, ◌-◌, ◌≤◌, ◌<◌, ◌≡◌, refl, ap, String, Bool, true, false, arith, length, All,
  is_none, get, if◌then◌else◌, map,
}
use Prim.Native.Nat.{min}
use portfolio_project.Validation.{tax_rates}
use portfolio_project.Erp.{Randomness, ErpVendor, ErpPoLine}
use portfolio_project.Erp.Generate.{ordered_day, po_lines, po_line, po_with_receipt, draw_tax_code}
use portfolio_project.Erp.Clean.{HasKnownCode}

-- `randrange(lo, hi)` gives a number from `lo` up to, and without, `hi`.
abbrev pub InRange : Randomness → Type 0
InRange R =
    (lo hi : ℕ) (s : R.State)
    → lo < hi
    → (lo ≤ (R.randrange lo hi s).0) × ((R.randrange lo hi s).0 < hi)

module _ (R : Randomness) where
  ordered_day-le :
      (reference_date : ℕ) (s : R.State) → (ordered_day R reference_date s).0 ≤ reference_date
  unfolding ordered_day
  ordered_day-le reference_date s = by_stale _ _ _ _ (R.chance 15 s).0
    where
      earlier : (n k : ℕ) → n - k ≤ n
      earlier n k = omega arith

      by_stale :
          (x y : R.State) (j k : ℕ) (b : Bool)
          → (if◌then◌else◌ {A = ℕ × R.State} b (reference_date - j, x) (reference_date - k, y)).0
            ≤ reference_date
      by_stale x y j k true = earlier reference_date _
      by_stale x y j k false = earlier reference_date _

  length-po_lines : (n line_no : ℕ) (s : R.State) → length (po_lines R n line_no s).0 ≡ n
  unfolding po_lines
  length-po_lines zero line_no s = refl
  length-po_lines (suc n) line_no s = ap (λ (k : ℕ). suc k) (length-po_lines n (line_no + 1) _)

  po_line-HasKnownCode : (line_no : ℕ) (s : R.State) → HasKnownCode (po_line R line_no s).0
  unfolding po_line draw_tax_code
  po_line-HasKnownCode line_no s = by_chances _ _ (R.chance 80 _).0 (R.chance 50 _).0
    where
      by_chances :
          (x y : R.State) (b c : Bool)
          → is_none (
              get
                (if◌then◌else◌ {A = String × R.State} b ("S", x) (if c then "R" else "Z", y)).0
                tax_rates)
            ≡ false
      by_chances x y true c = unfold get in refl
      by_chances x y false true = unfold get in refl
      by_chances x y false false = unfold get in refl

  po_lines-HasKnownCode :
      (n line_no : ℕ) (s : R.State) → All HasKnownCode (po_lines R n line_no s).0
  unfolding po_lines
  po_lines-HasKnownCode zero line_no s = tt
  po_lines-HasKnownCode (suc n) line_no s =
      (po_line-HasKnownCode line_no s, po_lines-HasKnownCode n (line_no + 1) _)

-- What the documentation of the generator says of an order and its receipt: it was ordered no later
-- than received, and received no later than the reference date; the currency is the vendor's; the
-- receipt is for the order and covers every line in full; and there are one to four lines, whose tax
-- codes the validation knows.
pub po_with_receipt_invariants :
    (R : Randomness) (seq : ℕ) (v : ErpVendor) (reference_date : ℕ) (s : R.State)
    → InRange R
    → (let (po, gr, s₁) = po_with_receipt R seq v reference_date s in
        (po.ordered_at ≤ gr.received_at)
        × (gr.received_at ≤ reference_date)
        × (po.currency ≡ v.currency)
        × (gr.po_number ≡ po.po_number)
        × (gr.received_qty ≡ map (λ (l : ErpPoLine). (l.line_no, l.qty)) po.lines)
        × ((1 ≤ length po.lines) × (length po.lines ≤ 4))
        × All HasKnownCode po.lines)
unfolding po_with_receipt
po_with_receipt_invariants R seq v reference_date s range = (
  omega arith,
  received _ _ reference_date (ordered_day-le R reference_date _),
  refl,
  refl,
  refl,
  counted _ _ (length-po_lines R _ 1 _) (range 1 5 _ (omega arith)),
  po_lines-HasKnownCode R _ 1 _,
)
  where
    received : (a n k : ℕ) → n ≤ k → n + min a (k - n) ≤ k
    received a n k h = ground arith

    counted : (n k : ℕ) → n ≡ k → (1 ≤ k) × (k < 5) → (1 ≤ n) × (n ≤ 4)
    counted n k e (l, h) = (omega arith, omega arith)
