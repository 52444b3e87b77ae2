-- ===== src/Erp.antt =====
-- data/erp.py: the generator of vendors, orders and receipts, and of the clean invoice for an order.
-- The random numbers, the fake names and the printing of numbers into names are outside the
-- program. A date is a day number. The loops of `generate` over the two counts are left out.
pub mod Generate
pub mod Iban
pub mod Clean
pub mod Receipts
pub mod Valid
use portfolio_project.Prelude.{
  ℕ, zero, suc, ◌+◌, ◌-◌, ◌*◌, ◌/◌, ◌%◌, ◌^◌, String, Bool, true, false, Option, none, some, List,
  [], ◌∷◌, ◌++◌, map, leb, get, if◌then◌else◌, is_digit, codes,
}
use Prim.Native.Nat.{min, max}
use portfolio_project.Decimal.{Decimal, decimal, zero_decimal, mul, sum_from}
use portfolio_project.Validation.{InvoiceExtraction, ExtractionLine}
use portfolio_project.Validation.Engine.{rate_of}

-- `random.Random` and `Faker`, from one state to the next, and the names made of numbers.
pub record Randomness : Type 1 where
  pub State : Type 0
  -- `rng.randrange(lo, hi)`.
  pub randrange : ℕ → ℕ → State → ℕ × State
  -- `rng.random() < percent / 100`.
  pub chance : ℕ → State → Bool × State
  pub company : State → String × State
  pub catch_phrase : State → String × State
  -- `s[:n]`.
  pub first_characters : ℕ → String → String
  pub year_of : ℕ → ℕ
  pub print_number : ℕ → String
  -- `f"{prefix}{year}-{seq:05d}"`.
  pub print_key : String → ℕ → ℕ → String
  pub text_of : List ℕ → String

pub record ErpVendor : Type 0 where
  pub name : String
  pub tax_id : String
  pub currency : String
  pub iban : List ℕ
  pub bank_name : String
  pub risk_flags : List String
  pub is_active : Bool

pub record ErpPoLine : Type 0 where
  pub line_no : String
  pub description : String
  pub qty : Decimal
  pub uom : String
  pub unit_price : Decimal
  pub tax_code : String

unfoldable pub line_total : ErpPoLine → Decimal
unfolding mul
line_total l = mul l.qty l.unit_price

pub record ErpPurchaseOrder : Type 0 where
  pub po_number : String
  pub vendor_name : String
  pub currency : String
  pub status : String
  pub lines : List ErpPoLine
  pub ordered_at : ℕ

pub record ErpGoodsReceipt : Type 0 where
  pub gr_number : String
  pub po_number : String
  pub received_qty : List (String × Decimal)
  pub received_at : ℕ

pub record CleanInvoiceSpec : Type 0 where
  pub vendor_name : String
  pub invoice_number : String
  pub issue_date : ℕ
  pub due_date : ℕ
  pub currency : String
  pub iban : List ℕ
  pub po_number : String
  pub lines : List ErpPoLine

unfoldable pub net_total : CleanInvoiceSpec → Decimal
unfolding line_total sum_from
net_total s = sum_from zero_decimal (map line_total s.lines)

abbrev pub line_tax : ErpPoLine → Decimal
line_tax l = mul (line_total l) (rate_of l.tax_code)

unfoldable pub tax_total : CleanInvoiceSpec → Decimal
unfolding line_total sum_from rate_of mul
tax_total s = sum_from zero_decimal (map line_tax s.lines)

unfoldable pub extraction_line : ErpPoLine → ExtractionLine
unfolding line_total
extraction_line l = record {
  line_no = l.line_no;
  description = some l.description;
  qty = some l.qty;
  uom = some l.uom;
  unit_price = some l.unit_price;
  tax_code = some l.tax_code;
  line_total = some (line_total l);
}

unfoldable pub clean_invoice_for : ErpPurchaseOrder → ErpVendor → String → ℕ → CleanInvoiceSpec
clean_invoice_for po vendor invoice_number issue_date = record {
  vendor_name = vendor.name;
  invoice_number = invoice_number;
  issue_date = issue_date;
  due_date = issue_date + 30;
  currency = po.currency;
  iban = vendor.iban;
  po_number = po.po_number;
  lines = po.lines;
}

-- The digits of a number at a width.
unfoldable pub digits : ℕ → ℕ → List ℕ
digits zero n = []
digits (suc w) n = digits w (n / 10) ++ (b'0' + n % 10) ∷ []

unfoldable pub mod97 : ℕ → List ℕ → ℕ
mod97 remainder [] = remainder
mod97 remainder (c ∷ cs) =
    mod97
      (if is_digit c
        then (remainder * 10 + (c - b'0')) % 97
        else (remainder * 100 + (c - b'A' + 10)) % 97)
      cs

-- `_de_iban` from the two numbers that it draws.
unfoldable pub iban_of : ℕ → ℕ → List ℕ
unfolding digits mod97
iban_of bank account =
    let bban = digits 8 bank ++ digits 10 account in
    codes "DE" ++ (digits 2 (98 - mod97 0 (bban ++ codes "DE00")) ++ bban)

module _ (R : Randomness) where
  -- The dictionary of a clean invoice, read as the extraction contract reads it. `iso` prints a date.
  unfoldable pub extraction_dict :
      {F : Type 0} → (ℕ → String) → CleanInvoiceSpec → InvoiceExtraction F
  unfolding net_total tax_total extraction_line
  extraction_dict iso s = record {
    vendor_name = some s.vendor_name;
    vendor_tax_id = none;
    invoice_number = some s.invoice_number;
    po_number = some s.po_number;
    issue_date = some (iso s.issue_date);
    due_date = some (iso s.due_date);
    currency = some s.currency;
    total_amount = some (net_total s);
    tax_total = some (tax_total s);
    iban = some (R.text_of s.iban);
    lines = map extraction_line s.lines;
    confidences = [];
  }
