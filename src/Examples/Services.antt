-- ===== src/Examples/Services.antt =====
-- The theorems on the decisions and the ingest, applied.
use portfolio_project.Prelude.{
  ℕ, ◌≡◌, refl, Bool, true, false, none, some, [], ◌∷◌, length, ◌==◌, if◌then◌else◌, str_eq, ◌&&◌,
}
use portfolio_project.Database.{Invoice, Database, ExceptionRecord}
use portfolio_project.Database.Tables.{find_by}
use portfolio_project.Decisions.{DecisionRequest, approve, exception_key}
use portfolio_project.Decisions
use portfolio_project.Decisions.FourEyes.{ApprovesBy, IsHeldByOther, decide-four_eyes}
use portfolio_project.Decisions.Idempotence.{decide-twice}
use portfolio_project.Decisions.Escalation.{decide-after_escalation}
use portfolio_project.Ingest.{Outside, read_chunks, ingest_bytes, find_hash, failed}
use portfolio_project.Ingest.Uploads.{judge_whole, joined, read_chunks-whole}
use portfolio_project.Ingest.Stored.{IsUnique, ingest_bytes-IsUnique, ingest_bytes-lost}
use portfolio_project.Examples.{database, received_invoice}

claimed_exception : ExceptionRecord ℕ
claimed_exception = record {
  exception_id = 1;
  invoice_id = 1;
  run_id = some 5;
  type_code = "PRICE_MM";
  severity = "MEDIUM";
  evidence = [];
  recommendation = none;
  assignee = some "ana";
  status = "OPEN";
  sla_due_at = some 2000;
}

exception_database : Database ℕ
exception_database = record database { exceptions = claimed_exception ∷ []; next_exception = 2 }

approval : DecisionRequest
approval = record {
  action = approve;
  rationale = "checked against the order";
  reason_code = "OK";
  escalate_to = none;
}

approved_by_ben : ApprovesBy (Decisions.decide 1 approval "ben" exception_database).0
unfolding exception_database claimed_exception approval Decisions.decide
approved_by_ben = (refl, refl)

decide-four_eyes_example :
    (exc : ExceptionRecord ℕ) × (find_by exception_key 1 exception_database.exceptions ≡ some exc)
    × IsHeldByOther exc "ben"
decide-four_eyes_example = decide-four_eyes 1 approval "ben" exception_database approved_by_ben

read_chunks-whole_example :
    read_chunks 4 0 [] ((1 ∷ 2 ∷ []) ∷ (3 ∷ []) ∷ [])
    ≡ judge_whole 4 (joined ((1 ∷ 2 ∷ []) ∷ (3 ∷ []) ∷ []))
read_chunks-whole_example = read_chunks-whole 4 ((1 ∷ 2 ∷ []) ∷ (3 ∷ []) ∷ [])

-- A stand-in for the hash function, on two documents, and a store that fails or works.
outside : Bool → Outside
outside fails = record {
  sha256 = λ bytes. if length bytes == 1 then "h1" else "h2";
  key_of = λ h. h;
  put_fails = λ key. fails;
}

distinct : IsUnique database.invoices
unfolding IsUnique find_hash
distinct = (refl, tt)

ingest_bytes-IsUnique_example :
    IsUnique (ingest_bytes (outside false) (8 ∷ 9 ∷ []) database []).1.invoices
ingest_bytes-IsUnique_example =
    ingest_bytes-IsUnique (outside false) (8 ∷ 9 ∷ []) database [] distinct

unknown : find_hash ((outside true).sha256 (8 ∷ 9 ∷ [])) database.invoices ≡ none
unfolding outside find_hash
unknown = refl

fails_once :
    (outside true).put_fails ((outside true).key_of ((outside true).sha256 (8 ∷ 9 ∷ []))) ≡ true
unfolding outside
fails_once = refl

same_hash : (outside false).sha256 (8 ∷ 9 ∷ []) ≡ (outside true).sha256 (8 ∷ 9 ∷ [])
unfolding outside
same_hash = refl

ingest_bytes-lost_example :
    ((ingest_bytes (outside true) (8 ∷ 9 ∷ []) database []).0 ≡ failed)
    × ((ingest_bytes
          (outside false)
          (8 ∷ 9 ∷ [])
          (ingest_bytes (outside true) (8 ∷ 9 ∷ []) database []).1
          []).2
        ≡ [])
ingest_bytes-lost_example =
    ingest_bytes-lost (outside true) (outside false) (8 ∷ 9 ∷ []) database [] [] unknown fails_once
      same_hash

exception_found : find_by exception_key 1 exception_database.exceptions ≡ some claimed_exception
unfolding exception_database claimed_exception find_by
exception_found = refl

invoice_found :
    find_by (λ (i : Invoice). i.invoice_id) claimed_exception.invoice_id exception_database.invoices
    ≡ some received_invoice
unfolding exception_database claimed_exception find_by
invoice_found = refl

still_open : str_eq claimed_exception.status "OPEN" ≡ true
unfolding claimed_exception
still_open = refl

resolves : Decisions.resumes approval.action ≡ true
unfolding approval
resolves = refl

not_refused :
    (Decisions.is_approve approval.action
      && Decisions.is_assignee (Decisions.claim claimed_exception "ben") "ben")
    ≡ false
unfolding approval claimed_exception Decisions.is_assignee Decisions.claim
not_refused = refl

decide-twice_example :
    Decisions.decide 1 approval "ben" (Decisions.decide 1 approval "ben" exception_database).1 ≡ (
      Decisions.responded (
          Decisions.replay_response
            (Decisions.recorded_decision approval
              (Decisions.claim claimed_exception "ben").exception_id
              "ben"
              exception_database.next_decision)
            (record (Decisions.claim claimed_exception "ben") { status = "RESOLVED" })),
      (Decisions.decide 1 approval "ben" exception_database).1,
    )
decide-twice_example =
    decide-twice 1 approval "ben" exception_database claimed_exception received_invoice
      exception_found invoice_found still_open resolves not_refused

escalation : DecisionRequest
escalation = record {
  action = Decisions.escalate;
  rationale = "over my limit";
  reason_code = "LIMIT";
  escalate_to = none;
}

is_escalation : escalation.action ≡ Decisions.escalate
unfolding escalation
is_escalation = refl

is_approval : approval.action ≡ approve
unfolding approval
is_approval = refl

given_to_queue : str_eq (Decisions.escalation_target escalation.escalate_to) "ana" ≡ false
unfolding escalation Decisions.escalation_target
given_to_queue = refl

decide-after_escalation_example :
    ApprovesBy
      (Decisions.decide 1 approval "ana"
        (Decisions.decide 1 escalation "ana" exception_database).1).0
decide-after_escalation_example =
    decide-after_escalation 1 escalation approval "ana" exception_database claimed_exception
      received_invoice exception_found invoice_found still_open is_escalation is_approval
      given_to_queue
