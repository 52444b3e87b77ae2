-- ===== src/Examples/Queries.antt =====
-- The theorems on the read models, the register of uploads and the waiting thread, applied.
use mathlib.Core.List.Permᴰ
use portfolio_project.Prelude.{
  arith, Pairwise, Chained, ℕ, ◌+◌, ◌≤◌, ◌≡◌, refl, String, false, none, some, List, [], ◌∷◌, ◌++◌,
  All, map,
}
use mathlib.Core.List.{Perm}
use portfolio_project.Decimal.{decimal}
use portfolio_project.Float.Fixed.{fixed}
use portfolio_project.Database.{
  Database, Invoice, Run, ExceptionRecord, LedgerEntry, system, run_started,
}
use portfolio_project.Queue.{Row, Filters, desc, amount_total, sort_rows, filtered_rows}
use portfolio_project.Queue.Detail.{
  Identity, analyst, in_provenance_roles, list_invoices, queue_item, ledger_summary,
}
use portfolio_project.Queue.Order.{Listed, Apart, sort_rows_sorts}
use portfolio_project.Queue.Pages.{DifferentFrom, list_invoices_pages}
use portfolio_project.Queue.Pins.{WithoutPins, ledger_summary_strips}
use portfolio_project.Dashboard.{summary, count_where, is_open}
use portfolio_project.Dashboard.Totals.{aged, has_deadline, summary_totals}
use portfolio_project.Ingest.{Outside, find_hash}
use portfolio_project.Ingest.Register.{
  Register, IsRegister, upload_all, register_all, hashes, upload_all_refines,
}
use portfolio_project.Graph.{HumanDecision, human_review}
use portfolio_project.Graph.Machine.{Thread, paused_before, ended, resume, invoke}
use portfolio_project.Graph.Completion.{resume_completes}
use portfolio_project.Examples.{database, received_invoice, queued_run, new_state, context}

abbrev created : Invoice → ℕ
created i = i.invoice_id

abbrev second_invoice : Invoice
second_invoice = record received_invoice {
  invoice_id = 2;
  content_hash = "h2";
  amount_total = some (decimal 5 0);
}

abbrev open_exception : ExceptionRecord ℕ
open_exception = record {
  exception_id = 1;
  invoice_id = 2;
  run_id = none;
  type_code = "QTY_MM";
  severity = "HIGH";
  evidence = [];
  recommendation = none;
  assignee = none;
  status = "OPEN";
  sla_due_at = some 2000;
}

abbrev two_invoices : Database ℕ
two_invoices = record database {
  invoices = received_invoice ∷ second_invoice ∷ [];
  exceptions = open_exception ∷ [];
}

abbrev no_filters : Filters
no_filters = record {
  status = none;
  route = none;
  exception_type = none;
  severity = none;
  assignee = none;
  vendor_id = none;
}

abbrev first_row : Row ℕ
first_row = record { invoice = received_invoice; run = some queued_run; exc = none }

abbrev second_row : Row ℕ
second_row = record { invoice = second_invoice; run = none; exc = some open_exception }

rows_differ : Pairwise (Apart {F = ℕ} created amount_total desc) (first_row ∷ second_row ∷ [])
rows_differ = (((λ e. omega arith), tt), (tt, tt))

sort_rows_sorts_example :
    Perm
      (sort_rows created amount_total desc (second_row ∷ first_row ∷ []))
      (first_row ∷ second_row ∷ [])
    × Chained
        (Listed created amount_total desc)
        (sort_rows created amount_total desc (second_row ∷ first_row ∷ []))
    × (sort_rows created amount_total desc (first_row ∷ second_row ∷ [])
        ≡ sort_rows created amount_total desc (second_row ∷ first_row ∷ []))
sort_rows_sorts_example =
    sort_rows_sorts created amount_total desc (first_row ∷ second_row ∷ [])
      (second_row ∷ first_row ∷ []) (Permᴰ.swap refl refl) rows_differ

abbrev swapped_invoices : List Invoice
swapped_invoices = second_invoice ∷ received_invoice ∷ []

invoices_differ :
    Pairwise
      (DifferentFrom created amount_total desc two_invoices swapped_invoices)
      two_invoices.invoices
invoices_differ = (((λ e. omega arith), tt), (tt, tt))

list_invoices_pages_example :
    (let page = list_invoices created 3000 two_invoices no_filters amount_total desc in
      let later =
        list_invoices created 3000
          (record two_invoices { invoices = swapped_invoices })
          no_filters
          amount_total
          desc in
      ((page 1 0).items ++ (later 1 (0 + 1)).items ≡ (page (1 + 1) 0).items)
      × ((page ((later 1 0).total) 0).items
          ≡ map (queue_item created 3000) (
              sort_rows created amount_total desc (filtered_rows created two_invoices no_filters))))
list_invoices_pages_example =
    list_invoices_pages created 3000 two_invoices swapped_invoices no_filters amount_total desc 1 1
      0 invoices_differ (Permᴰ.swap refl refl)

abbrev runs : List (Run ℕ)
runs = queued_run ∷ record queued_run { run_id = 8 } ∷ record queued_run { run_id = 6 } ∷ []

abbrev entry : LedgerEntry ℕ
entry = record {
  run_id = some 5;
  invoice_id = some 1;
  seq = 1;
  actor_type = system;
  actor_id = "ingest";
  event = run_started none "h1";
  policy_version = some "policy@v1";
  prompt_version = none;
}

abbrev maria : Identity
maria = record { user = "maria"; role = analyst }

ledger_summary_strips_example :
    All
      (WithoutPins {V = String})
      (ledger_summary (λ e. "graph" ∷ []) (entry ∷ []) 1 maria).last_entries
ledger_summary_strips_example =
    ledger_summary_strips (λ e. "graph" ∷ []) (entry ∷ []) 1 maria hidden
  where
    hidden : in_provenance_roles analyst ≡ false
    hidden = unfold in_provenance_roles in refl

summary_totals_example :
    (let s = summary created 3000 14 two_invoices in
      (s.exceptions_open ≡ count_where is_open two_invoices.exceptions)
      × (aged s.aging ≡ count_where has_deadline two_invoices.exceptions)
      × (s.invoices_auto_approved ≤ s.invoices_processed))
summary_totals_example = summary_totals created 3000 14 two_invoices

abbrev outside : Outside
outside = record { sha256 = λ bytes. if_empty bytes; key_of = λ h. h; put_fails = λ h. false }
  where
    if_empty : List ℕ → String
    if_empty [] = "h0"
    if_empty (b ∷ bytes) = "h9"

abbrev empty_database : Database ℕ
empty_database = record database { invoices = [] }

abbrev empty_register : Register
empty_register = record { known = λ h. none; next = 2 }

upload_all_refines_example :
    upload_all outside ((1 ∷ []) ∷ (2 ∷ []) ∷ []) empty_database []
    ≡ register_all (λ h. false) (hashes outside ((1 ∷ []) ∷ (2 ∷ []) ∷ [])) empty_register
upload_all_refines_example =
    upload_all_refines outside ((1 ∷ []) ∷ (2 ∷ []) ∷ []) empty_database [] empty_register starting
  where
    starting : IsRegister outside empty_database empty_register
    starting = unfold IsRegister find_hash in ((λ h. refl), refl)

waiting : Thread (fixed.Float)
unfolding fixed
waiting = record {
  position = paused_before human_review;
  state = record new_state { run_db_id = some 5 };
  database = database;
}

abbrev approval : HumanDecision
approval = record { action = "APPROVE"; actor = "dan"; reason_code = "OK"; decision_id = 3 }

waiting_position : waiting.position ≡ paused_before human_review
unfolding waiting
waiting_position = refl

waiting_run : waiting.state.run_db_id ≡ some 5
unfolding waiting
waiting_run = refl

resume_completes_example :
    (let t₁ : Thread (fixed.Float) =
        invoke fixed context 2 (resume fixed context approval waiting) in
      (t₁.position ≡ ended)
      × (t₁.state.human_decision ≡ some approval)
      × All (λ (r : Run (fixed.Float)). r.run_id ≡ 5 → r.status ≡ "COMPLETED") t₁.database.runs)
resume_completes_example =
    resume_completes fixed context approval waiting 5 waiting_position waiting_run
