-- ===== src/Dlq.antt =====
-- graph/dlq.py: the dead-letter queue of failed runs.
pub mod Claims
use portfolio_project.Prelude.{
  ℕ, ◌+◌, String, Bool, true, false, ◌&&◌, not, Option, none, some, List, [], ◌∷◌, ◌++◌, keep,
  sort_by, leb, is_none, str_eq, if◌then◌else◌,
}
use portfolio_project.Database.{
  Database, DlqEntry, Run, system, human, run_failed, dlq_replayed, Event,
}
use portfolio_project.Database.Tables.{find_by, modify_by}
use portfolio_project.Ledger.{LedgerAppend, append}
use portfolio_project.Retry.{
  Failure, FailureKind, ExceptionType, classify, infra, business, retry_exhausted,
}

-- `_kind_of`: an exhaustion counts as infrastructure.
unfoldable pub kind_of : Failure → FailureKind
unfolding classify
kind_of f = elim f.type_of [ retry_exhausted ↦ infra | _ ↦ classify f ]

abbrev pub kind_value : FailureKind → String
kind_value infra = "INFRA"
kind_value business = "BUSINESS"

-- `x or 0`.
abbrev pub or_zero : Option ℕ → ℕ
or_zero none = 0
or_zero (some n) = n

abbrev pub new_entry : ℕ → ℕ → ℕ → String → Failure → String → ℕ → DlqEntry
new_entry id run_id invoice_id node f error_type attempts = record {
  dlq_id = id;
  run_id = run_id;
  invoice_id = invoice_id;
  node = node;
  failure_kind = kind_value (kind_of f);
  error_type = error_type;
  attempts = attempts;
  status = "PENDING";
}

abbrev pub id_le : DlqEntry → DlqEntry → Bool
id_le a b = leb a.dlq_id b.dlq_id

module _ {F : Type 0} where
  abbrev pub run_key : Run F → ℕ
  run_key r = r.run_id

  -- `run.status = status` on the run with this key, if there is one.
  unfoldable pub set_run_status : Option ℕ → String → Database F → Database F
  unfolding modify_by
  set_run_status none status db = db
  set_run_status (some run_id) status db = record db {
    runs = modify_by run_key run_id (λ r. record r { status = status }) db.runs;
  }

  -- The table refers to `runs` and to `invoices`: a row with another key is refused.
  unfoldable pub references_hold : ℕ → ℕ → Database F → Bool
  unfolding find_by
  references_hold run_id invoice_id db =
      not (is_none (find_by run_key run_id db.runs))
      && not (is_none (find_by (λ i. i.invoice_id) invoice_id db.invoices))

  -- `none` is the `IntegrityError` of the insertion, which rolls everything back. `error_type` is
  -- the name of the failure's type.
  unfoldable pub record_failure :
      Option ℕ → Option ℕ → String → Failure → String → ℕ → Database F → Option (ℕ × Database F)
  unfolding references_hold set_run_status append kind_of
  record_failure run_id invoice_id node f error_type attempts db =
      if references_hold (or_zero run_id) (or_zero invoice_id) db
      then some (
        db.next_dlq,
        append
            (record {
              actor_type = system;
              actor_id = "dlq";
              event = run_failed node (kind_value (kind_of f)) error_type attempts db.next_dlq;
              run_id = run_id;
              invoice_id = invoice_id;
              prompt_version = none;
              policy_version = none;
            })
            (set_run_status run_id "FAILED" (record db {
              dlq =
                  db.dlq
                  ++ new_entry db.next_dlq (or_zero run_id) (or_zero invoice_id) node f error_type
                      attempts
                    ∷ [];
              next_dlq = db.next_dlq + 1;
            })),
      )
      else none

  -- The claim of `replay`: `none` is its `ReplayError`; else the invoice that the runner is handed.
  claim_entry : Option DlqEntry → Database F → Option (ℕ × Database F)
  unfolding set_run_status append modify_by
  claim_entry none db = none
  claim_entry (some e) db =
      if str_eq e.status "PENDING"
      then some (
        e.invoice_id,
        append
            (record {
              actor_type = human;
              actor_id = "dlq-replay-admin";
              event = dlq_replayed e.dlq_id e.node;
              run_id = some e.run_id;
              invoice_id = some e.invoice_id;
              prompt_version = none;
              policy_version = none;
            })
            (set_run_status (some e.run_id) "RUNNING" (record db {
              dlq =
                  modify_by (λ d. d.dlq_id) e.dlq_id (λ d. record d { status = "REPLAYED" }) db.dlq;
            })),
      )
      else none

  unfoldable pub replay : ℕ → Database F → Option (ℕ × Database F)
  unfolding claim_entry find_by
  replay dlq_id db = claim_entry (find_by (λ d. d.dlq_id) dlq_id db.dlq) db

  -- `order_by(DeadLetterEntry.dlq_id)`.
  unfoldable pub pending : Database F → List DlqEntry
  unfolding keep sort_by
  pending db = sort_by id_le (keep (λ e. str_eq e.status "PENDING") db.dlq)
