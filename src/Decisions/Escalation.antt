-- ===== src/Decisions/Escalation.antt =====
-- Escalations and the four-eyes rule of api/services/decisions.py.
use portfolio_project.Prelude.{
  ℕ, String, ◌≡◌, refl, sym, ap, ◌∙◌, Bool, true, false, ◌&&◌, Option, none, some, str_eq,
}
use portfolio_project.Ledger.{append}
use portfolio_project.Database.{Database, ExceptionRecord, Invoice}
use portfolio_project.Database.Tables.{find_by}
use portfolio_project.Decisions.{
  approve, escalate, DecisionRequest, exception_key, claim, is_approve, is_assignee, decide,
  record_decision, settle_exception, settle_invoice, escalation_target, action_value,
}
use portfolio_project.Decisions.FourEyes.{ApprovesBy}
use portfolio_project.Decisions.Idempotence.{
  with_claim, first_call, claim_keys, claimed_row, invoice_recorded, found_key,
  find_by-modify_const,
}

and_false : (a b : Bool) → b ≡ false → (a && b) ≡ false
and_false true b h = h
and_false false b h = refl

module _ {F : Type 0} where
  handed_over : ExceptionRecord F → DecisionRequest → ExceptionRecord F
  unfolding escalation_target
  handed_over exc request = record exc { assignee = some (escalation_target request.escalate_to) }

  escalated_row :
      (request : DecisionRequest) (exc row : ExceptionRecord F) (user : String) (db : Database F)
      → request.action ≡ escalate
      → find_by exception_key exc.exception_id db.exceptions ≡ some row
      → find_by exception_key exc.exception_id (record_decision request exc user db).1.exceptions
        ≡ some (handed_over exc request)
  unfolding record_decision append settle_exception handed_over
  escalated_row request exc row user db a e =
      find_by-modify_const exception_key exc.exception_id (settle_exception request exc) row
        db.exceptions (rw (settle_exception, a) refl) e
      ∙ ap some (rw (settle_exception, a) refl)

  records_approval :
      (request : DecisionRequest) (exc : ExceptionRecord F) (user : String) (db : Database F)
      → request.action ≡ approve
      → ApprovesBy (record_decision request exc user db).0
  unfolding record_decision
  records_approval request exc user db a = (refl, ap action_value a)

  claim_status : (exc : ExceptionRecord F) (user : String) → (claim exc user).status ≡ exc.status
  unfolding claim
  claim_status exc user = by_assignee exc.assignee refl
    where
      by_assignee : (a : Option String) → exc.assignee ≡ a → (claim exc user).status ≡ exc.status
      by_assignee none e = rw e refl
      by_assignee (some u) e = rw e refl

  not_held :
      (exc : ExceptionRecord F) (request : DecisionRequest) (user : String)
      → str_eq (escalation_target request.escalate_to) user ≡ false
      → is_assignee (claim (handed_over exc request) user) user ≡ false
  unfolding is_assignee claim handed_over
  not_held exc request user h = h

  -- A user who works an open exception, escalates it to another and then approves it, is not
  -- refused: the approval is recorded.
  pub decide-after_escalation :
      (exception_id : ℕ) (escalation approval : DecisionRequest) (user : String) (db : Database F)
      (exc : ExceptionRecord F) (inv : Invoice)
      → find_by exception_key exception_id db.exceptions ≡ some exc
      → find_by (λ (i : Invoice). i.invoice_id) exc.invoice_id db.invoices ≡ some inv
      → str_eq exc.status "OPEN" ≡ true
      → escalation.action ≡ escalate
      → approval.action ≡ approve
      → str_eq (escalation_target escalation.escalate_to) user ≡ false
      → ApprovesBy (decide exception_id approval user (decide exception_id escalation user db).1).0
  decide-after_escalation exception_id escalation approval user db exc inv e i s ea aa t =
      let claimed = claim exc user in
      let dbc = with_claim exc user db in
      let (key, ikey) = claim_keys exc user in
      let own = found_key exception_id db.exceptions exc e in
      let guard : (is_approve escalation.action && is_assignee (claim exc user) user) ≡ false =
        rw ea refl in
      let first = first_call exception_id escalation user db exc inv e i s guard in
      let db1 = (record_decision escalation claimed user dbc).1 in
      let row =
        escalated_row escalation claimed claimed user dbc ea (
          claimed_row exc user db
            (ap (λ (n : ℕ). find_by exception_key n db.exceptions) own ∙ e)) in
      let second =
        first_call exception_id approval user db1 (handed_over claimed escalation)
          (settle_invoice escalation.action inv)
          (ap (λ (n : ℕ). find_by exception_key n db1.exceptions) (sym own ∙ sym key) ∙ row)
          (unfold handed_over in
            invoice_recorded escalation claimed inv user dbc (
              unfold with_claim in
              ap (λ (n : ℕ). find_by (λ (i : Invoice). i.invoice_id) n db.invoices) ikey ∙ i))
          (unfold handed_over in ap (λ (x : String). str_eq x "OPEN") (claim_status exc user) ∙ s)
          (and_false (is_approve approval.action) _ (not_held claimed escalation user t)) in
      rw (first, second) (records_approval approval _ user _ aa)
