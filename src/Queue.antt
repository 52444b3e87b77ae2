-- ===== src/Queue.antt =====
-- api/services/queue.py: the listing. The query is on the tables: each invoice with its latest run
-- and exception, the filters, the order, and the page. The database sorts; an absent value is the
-- largest in ascending order, as PostgreSQL has it.
pub mod Detail
pub mod Aggregate
pub mod Values
pub mod Order
pub mod Latest
pub mod Pages
pub mod Pins
use portfolio_project.Prelude.{
  ℕ, String, Bool, true, false, not, ◌&&◌, ◌||◌, Option, none, some, List, [], ◌∷◌, map, ◌==◌, leb,
  ltb, str_eq, keep, sort_by, take, drop, length, if◌then◌else◌,
}
use portfolio_project.Prelude.Int.{ℤ, sub_ℕ}
use portfolio_project.Decimal.{Decimal, ltb_decimal}
use portfolio_project.Database.{Database, Invoice, Run, ExceptionRecord}
use portfolio_project.Database.Tables.{find_by}

-- `select(func.max(key)).where(p)`: absent over no rows.
module _ {ℓ} {R : Type ℓ} where
  unfoldable pub max_where : (R → ℕ) → (R → Bool) → List R → Option ℕ
  max_where key p [] = none
  max_where key p (r ∷ rs) =
      let rest = max_where key p rs in
      if p r
      then elim rest [ none ↦ some (key r) | some k ↦ some (if leb (key r) k then k else key r) ]
      else rest

  -- The outer join on a key that may be absent.
  unfoldable pub join_on : (R → ℕ) → Option ℕ → List R → Option R
  unfolding find_by
  join_on key none rs = none
  join_on key (some k) rs = find_by key k rs

module _ {F : Type 0} where
  abbrev pub latest_run_id : Database F → Invoice → Option ℕ
  latest_run_id db i =
      max_where (λ (r : Run F). r.run_id) (λ r. r.invoice_id == i.invoice_id) db.runs

  abbrev pub latest_exception_id : Database F → Invoice → Option ℕ
  latest_exception_id db i =
      max_where (λ (e : ExceptionRecord F). e.exception_id) (λ e. e.invoice_id == i.invoice_id)
        db.exceptions

pub record Row (F : Type 0) : Type 0 where
  pub invoice : Invoice
  pub run : Option (Run F)
  pub exc : Option (ExceptionRecord F)

pub record Filters : Type 0 where
  pub status : Option String
  pub route : Option String
  pub exception_type : Option String
  pub severity : Option String
  pub assignee : Option String
  pub vendor_id : Option ℕ

-- The values of `sort`; any other sorts by `created_at`.
pub data Sort : Type 0 where
  created_at amount_total sla_due_at severity : Sort

pub data Direction : Type 0 where
  asc desc : Direction

-- `if value: stmt.where(column == value)`: an empty or absent value does not filter, and an absent
-- column is equal to nothing.
unfoldable pub text_filter : Option String → Option String → Bool
text_filter none column = true
text_filter (some v) column =
    if str_eq v "" then true else elim column [ none ↦ false | some c ↦ str_eq c v ]

unfoldable pub vendor_filter : Option ℕ → Option ℕ → Bool
vendor_filter none column = true
vendor_filter (some v) none = false
vendor_filter (some v) (some c) = c == v

abbrev pub of_row : {A B : Type 0} → (A → Option B) → Option A → Option B
of_row f none = none
of_row f (some a) = f a

-- `NULLS LAST` of an ascending order.
unfoldable pub before_option : {A : Type 0} → (A → A → Bool) → Option A → Option A → Bool
before_option lt none b = false
before_option lt (some a) none = true
before_option lt (some a) (some b) = lt a b

abbrev severity_levels : String → ℕ
severity_levels s =
    if str_eq s "CRITICAL"
    then 4
    else if str_eq s "HIGH"
    then 3
    else if str_eq s "MEDIUM"
    then 2
    else if str_eq s "LOW"
    then 1
    else 0

module _ {F : Type 0} where
  unfoldable pub apply_filters : Filters → Row F → Bool
  unfolding text_filter vendor_filter
  apply_filters f r =
      text_filter f.status (some r.invoice.status)
      && (text_filter f.route (of_row (λ (run : Run F). run.route) r.run)
          && (text_filter f.exception_type
                (of_row (λ (e : ExceptionRecord F). some e.type_code) r.exc)
              && (text_filter f.severity (of_row (λ (e : ExceptionRecord F). some e.severity) r.exc)
                  && (text_filter f.assignee (of_row (λ (e : ExceptionRecord F). e.assignee) r.exc)
                      && vendor_filter f.vendor_id r.invoice.vendor_id))))

  -- `case` on the severity: 0 where there is no exception.
  unfoldable pub severity_rank : Option (ExceptionRecord F) → ℕ
  severity_rank none = 0
  severity_rank (some e) = severity_levels e.severity

-- `created_at` of an invoice, a default of the table that no component reads otherwise.
module _ {F : Type 0} (created : Invoice → ℕ) where
  -- The first row is strictly before the second in the ascending order of the column.
  unfoldable pub sort_column : Sort → Row F → Row F → Bool
  unfolding before_option severity_rank
  sort_column created_at a b = ltb (created a.invoice) (created b.invoice)
  sort_column amount_total a b =
      before_option ltb_decimal a.invoice.amount_total b.invoice.amount_total
  sort_column sla_due_at a b =
      before_option ltb (of_row (λ (e : ExceptionRecord F). e.sla_due_at) a.exc)
        (of_row (λ (e : ExceptionRecord F). e.sla_due_at) b.exc)
  sort_column severity a b = ltb (severity_rank a.exc) (severity_rank b.exc)

  unfoldable pub column_before : Sort → Direction → Row F → Row F → Bool
  unfolding sort_column
  column_before s asc a b = sort_column s a b
  column_before s desc a b = sort_column s b a

  -- `order_by(column, Invoice.invoice_id)`.
  unfoldable pub precedes : Sort → Direction → Row F → Row F → Bool
  unfolding column_before
  precedes s d a b =
      column_before s d a b
      || (not (column_before s d b a) && leb a.invoice.invoice_id b.invoice.invoice_id)

  -- The order itself is the database's.
  unfoldable pub sort_rows : Sort → Direction → List (Row F) → List (Row F)
  unfolding precedes sort_by
  sort_rows s d rows = sort_by (precedes s d) rows

  -- An invoice with its latest run and its latest exception.
  unfoldable pub row_of : Database F → Invoice → Row F
  unfolding max_where join_on
  row_of db i = record {
    invoice = i;
    run = join_on (λ (r : Run F). r.run_id) (latest_run_id db i) db.runs;
    exc =
        join_on (λ (e : ExceptionRecord F). e.exception_id) (latest_exception_id db i)
          db.exceptions;
  }

  unfoldable pub base_rows : Database F → List Invoice → List (Row F)
  unfolding row_of
  base_rows db [] = []
  base_rows db (i ∷ is) = row_of db i ∷ base_rows db is

  unfoldable pub filtered_rows : Database F → Filters → List (Row F)
  unfolding base_rows apply_filters keep
  filtered_rows db f = keep (apply_filters f) (base_rows db db.invoices)
