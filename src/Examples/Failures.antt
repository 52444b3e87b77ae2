-- ===== src/Examples/Failures.antt =====
-- The theorems on the ledger, the retries and the dead-letter queue, applied.
use mathlib.Core.List.{Permᴰ}
use portfolio_project.Prelude.{
  take, drop, ℕ, zero, suc, ◌+◌, ◌<◌, ◌≤◌, ◌≡◌, refl, none, some, [], ◌∷◌, arith, keep, ◌==◌,
  if◌then◌else◌,
}
use portfolio_project.Database.{Database, LedgerEntry, DlqEntry, system, run_rejected}
use portfolio_project.Ledger.{LedgerAppend, append, by_run, of_run, row_of}
use portfolio_project.Ledger.Sequence.{Numbered, IsSequenced, append-IsSequenced, by_run_page}
use portfolio_project.Retry.{
  Failure, timeout_error, Attempt, returns, raises, value, exhausted, stop, retry, verdict,
  with_retries,
}
use portfolio_project.Retry.Loop.{
  IsRetried, numbers_from, with_retries-stops, with_retries-exhausts,
}
use portfolio_project.Dlq.{replay}
use portfolio_project.Dlq.Claims.{replay-once}
use portfolio_project.Examples.{database}

rejection : LedgerAppend ℕ
rejection = record {
  actor_type = system;
  actor_id = "reject";
  event = run_rejected;
  run_id = some 5;
  invoice_id = some 1;
  prompt_version = none;
  policy_version = none;
}

empty-IsSequenced : IsSequenced (database.ledger)
empty-IsSequenced = record { at_run = λ r. unfold keep in tt }

append-IsSequenced_example : IsSequenced (append rejection database).ledger
append-IsSequenced_example = append-IsSequenced rejection database empty-IsSequenced

two_rejections : Database ℕ
two_rejections = append rejection (append rejection database)

first_entry : LedgerEntry ℕ
first_entry = row_of rejection database.ledger

second_entry : LedgerEntry ℕ
second_entry = row_of rejection (append rejection database).ledger

-- The rows of the two entries, the second first.
swapped : Permᴰ two_rejections.ledger (second_entry ∷ first_entry ∷ [])
unfolding two_rejections append first_entry second_entry
swapped = Permᴰ.swap refl refl

by_run_page_example :
    (let page =
        by_run 5 10 0 (record two_rejections { ledger = second_entry ∷ first_entry ∷ [] }) in
      (page ≡ take 10 (drop 0 (keep (of_run 5) two_rejections.ledger))) × Numbered 0 page)
by_run_page_example =
    by_run_page 5 10 0 two_rejections (second_entry ∷ first_entry ∷ [])
      (unfold two_rejections in
        append-IsSequenced rejection (append rejection database) append-IsSequenced_example)
      swapped

timed_out : Failure
timed_out = record { type_of = timeout_error; cause = none; context = none }

-- A node that times out once and then returns.
second_time : ℕ → Attempt ℕ
second_time k = if k == 1 then raises timed_out else returns 42

always : ℕ → Attempt ℕ
always k = raises timed_out

always-IsRetried : (j : ℕ) → j ≤ 2 → IsRetried (always (1 + j))
unfolding always timed_out verdict
always-IsRetried j le = (timed_out, refl)

first-IsRetried : (j : ℕ) → j < 1 → IsRetried (second_time (1 + j))
unfolding second_time timed_out verdict
first-IsRetried zero lt = (timed_out, refl)
first-IsRetried (suc j) lt = absurd (ground arith)

second_returns : verdict (second_time (1 + 1)) ≡ stop (value 42)
unfolding second_time verdict
second_returns = refl

with_retries-stops_example : with_retries second_time 3 ≡ (value 42, 2, 1 ∷ [])
with_retries-stops_example =
    with_retries-stops second_time 3 1 (value 42) (omega arith) first-IsRetried second_returns

with_retries-exhausts_example :
    (f : Failure) × (verdict (always (1 + 2)) ≡ retry f)
    × (with_retries always 3 ≡ (exhausted 3 (some f), 3, numbers_from 1 2))
with_retries-exhausts_example = with_retries-exhausts always 2 always-IsRetried

dead_letter : DlqEntry
dead_letter = record {
  dlq_id = 1;
  run_id = 5;
  invoice_id = 1;
  node = "extract";
  failure_kind = "INFRA";
  error_type = "TimeoutError";
  attempts = 3;
  status = "PENDING";
}

dlq_database : Database ℕ
dlq_database = record database { dlq = dead_letter ∷ []; next_dlq = 2 }

claimed_once : (db : Database ℕ) × (replay 1 dlq_database ≡ some (1, db))
unfolding dlq_database dead_letter replay
claimed_once = (_, refl)

replay-once_example : replay 1 (claimed_once.0) ≡ none
replay-once_example = replay-once 1 dlq_database 1 (claimed_once.0) (claimed_once.1)
