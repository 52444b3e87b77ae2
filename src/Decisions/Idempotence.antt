-- ===== src/Decisions/Idempotence.antt =====
-- The replay of a decision by api/services/decisions.py.
use portfolio_project.Prelude.{
  ℕ, String, ◌≡◌, refl, sym, ap, ◌∙◌, Bool, true, false, ◌&&◌, Option, none, some, List, [], ◌∷◌,
  ◌++◌, ◌==◌, str_eq, arith, eq_refl, ==_refl,
}
use portfolio_project.Ledger.{append}
use portfolio_project.Database.{Database, ExceptionRecord, Invoice, Decision}
use portfolio_project.Database.Tables.{find_by, modify_by, last_where, find_by-modify_self}
use portfolio_project.Decisions.{
  DecisionAction, approve, return_to_vendor, escalate, DecisionRequest, responded, exception_key,
  resumes, replay_or_conflict, claim, is_approve, is_assignee, judge, decide_found, with_invoice,
  with_exception, decide, record_decision, recorded_decision, latest_decision, same_decision,
  settle_exception, settle_invoice, action_value, replay_response,
}

last_where-snoc :
    {R : Type 0} (p : R → Bool) (rs : List R) (r : R)
    → p r ≡ true
    → last_where p (rs ++ r ∷ []) ≡ some r
unfolding last_where
last_where-snoc p [] r h = rw h refl
last_where-snoc p (x ∷ xs) r h = rw (last_where-snoc p xs r h) refl

same_as_recorded :
    (request : DecisionRequest) (exception_id : ℕ) (user : String) (decision_id : ℕ)
    → same_decision (recorded_decision request exception_id user decision_id) request user ≡ true
unfolding same_decision
same_as_recorded request exception_id user decision_id =
    rw (eq_refl user, eq_refl (action_value request.action), eq_refl request.reason_code) refl

pub find_by-modify_const :
    {R : Type 0} (key : R → ℕ) (i : ℕ) (v r : R) (rs : List R)
    → key v ≡ i
    → find_by key i rs ≡ some r
    → find_by key i (modify_by key i (λ _. v) rs) ≡ some v
unfolding find_by modify_by
find_by-modify_const key i v r [] k h = cc
find_by-modify_const key i v r (x ∷ xs) k h = ground (arith, find_by-modify_const key i v r xs)

find_by-modify_row :
    {R : Type 0} (key : R → ℕ) (i : ℕ) (f : R → R) (r : R) (rs : List R)
    → ((x : R) → key (f x) ≡ key x)
    → find_by key i rs ≡ some r
    → find_by key i (modify_by key i f rs) ≡ some (f r)
find_by-modify_row key i f r rs k h = find_by-modify_self key i f rs k ∙ (rw h refl)

settle_key : (a : DecisionAction) (x : Invoice) → (settle_invoice a x).invoice_id ≡ x.invoice_id
settle_key approve x = refl
settle_key return_to_vendor x = refl
settle_key escalate x = refl

module _ {F : Type 0} where
  pub found_key :
      (i : ℕ) (es : List (ExceptionRecord F)) (e : ExceptionRecord F)
      → find_by exception_key i es ≡ some e
      → e.exception_id ≡ i
  unfolding find_by
  found_key i [] e h = cc
  found_key i (x ∷ xs) e h = ground (arith, found_key i xs e)

  settled_status :
      (request : DecisionRequest) (exc : ExceptionRecord F)
      → resumes request.action ≡ true
      → settle_exception request exc ≡ record exc { status = "RESOLVED" }
  unfolding settle_exception
  settled_status request exc h = by_action request.action refl h
    where
      by_action :
          (a : DecisionAction)
          → request.action ≡ a
          → resumes a ≡ true
          → settle_exception request exc ≡ record exc { status = "RESOLVED" }
      by_action approve e k = rw e refl
      by_action return_to_vendor e k = rw e refl
      by_action escalate e k = cc

  -- The database after the claim and the decision.
  unfoldable pub with_claim : ExceptionRecord F → String → Database F → Database F
  unfolding claim modify_by
  with_claim exc user db = record db {
    exceptions = modify_by exception_key exc.exception_id (λ _. claim exc user) db.exceptions;
  }

  pub first_call :
      (exception_id : ℕ) (request : DecisionRequest) (user : String) (db : Database F)
      (exc : ExceptionRecord F) (inv : Invoice)
      → find_by exception_key exception_id db.exceptions ≡ some exc
      → find_by (λ (i : Invoice). i.invoice_id) exc.invoice_id db.invoices ≡ some inv
      → str_eq exc.status "OPEN" ≡ true
      → (is_approve request.action && is_assignee (claim exc user) user) ≡ false
      → decide exception_id request user db
        ≡ record_decision request (claim exc user) user (with_claim exc user db)
  unfolding decide with_exception with_invoice decide_found judge with_claim
  first_call exception_id request user db exc inv e i s g = rw (decide, e, i, s, g) refl

  pub claim_keys :
      (exc : ExceptionRecord F) (user : String)
      → ((claim exc user).exception_id ≡ exc.exception_id)
        × ((claim exc user).invoice_id ≡ exc.invoice_id)
  unfolding claim
  claim_keys exc user = by_assignee exc.assignee refl
    where
      by_assignee :
          (a : Option String)
          → exc.assignee ≡ a
          → ((claim exc user).exception_id ≡ exc.exception_id)
            × ((claim exc user).invoice_id ≡ exc.invoice_id)
      by_assignee none e = rw e (refl, refl)
      by_assignee (some u) e = rw e (refl, refl)

  second_call :
      (exception_id : ℕ) (request : DecisionRequest) (user : String) (db : Database F)
      (exc : ExceptionRecord F) (inv : Invoice) (d : Decision)
      → find_by exception_key exception_id db.exceptions ≡ some exc
      → find_by (λ (i : Invoice). i.invoice_id) exc.invoice_id db.invoices ≡ some inv
      → str_eq exc.status "OPEN" ≡ false
      → latest_decision exc.exception_id db ≡ some d
      → same_decision d request user ≡ true
      → decide exception_id request user db ≡ (responded (replay_response d exc), db)
  unfolding decide with_exception with_invoice decide_found replay_or_conflict
  second_call exception_id request user db exc inv d e i s l same =
      rw (decide, e, i, s, l, same) refl

  latest_recorded :
      (request : DecisionRequest) (exc : ExceptionRecord F) (user : String) (db : Database F)
      → latest_decision exc.exception_id (record_decision request exc user db).1
        ≡ some (recorded_decision request exc.exception_id user db.next_decision)
  unfolding latest_decision record_decision append
  latest_recorded request exc user db =
      last_where-snoc (λ (d : Decision). d.exception_id == exc.exception_id) db.decisions _
        (==_refl exc.exception_id)

  exception_recorded :
      (request : DecisionRequest) (exc row : ExceptionRecord F) (user : String) (db : Database F)
      → resumes request.action ≡ true
      → find_by exception_key exc.exception_id db.exceptions ≡ some row
      → find_by exception_key exc.exception_id (record_decision request exc user db).1.exceptions
        ≡ some (record exc { status = "RESOLVED" })
  unfolding record_decision append
  exception_recorded request exc row user db h e =
      find_by-modify_const exception_key exc.exception_id (settle_exception request exc) row
        db.exceptions (rw (settled_status request exc h) refl) e
      ∙ ap some (settled_status request exc h)

  pub invoice_recorded :
      (request : DecisionRequest) (exc : ExceptionRecord F) (inv : Invoice) (user : String)
      (db : Database F)
      → find_by (λ (i : Invoice). i.invoice_id) exc.invoice_id db.invoices ≡ some inv
      → find_by
          (λ (i : Invoice). i.invoice_id)
          exc.invoice_id
          (record_decision request exc user db).1.invoices
        ≡ some (settle_invoice request.action inv)
  unfolding record_decision append
  invoice_recorded request exc inv user db e =
      find_by-modify_row (λ (i : Invoice). i.invoice_id) exc.invoice_id
        (settle_invoice request.action) inv db.invoices (settle_key request.action) e

  pub claimed_row :
      (exc : ExceptionRecord F) (user : String) (db : Database F)
      → find_by exception_key exc.exception_id db.exceptions ≡ some exc
      → find_by exception_key (claim exc user).exception_id (with_claim exc user db).exceptions
        ≡ some (claim exc user)
  unfolding with_claim
  claimed_row exc user db e =
      let (key, _) = claim_keys exc user in
      ap
        (λ (i : ℕ).
          find_by exception_key i
            (modify_by exception_key exc.exception_id (λ _. claim exc user) db.exceptions))
        key
      ∙ find_by-modify_const exception_key exc.exception_id (claim exc user) exc db.exceptions key e

  -- A decision that resolves an open exception, submitted a second time by the same user: the second
  -- call answers with the decision that the first recorded, and changes nothing.
  pub decide-twice :
      (exception_id : ℕ) (request : DecisionRequest) (user : String) (db : Database F)
      (exc : ExceptionRecord F) (inv : Invoice)
      → find_by exception_key exception_id db.exceptions ≡ some exc
      → find_by (λ (i : Invoice). i.invoice_id) exc.invoice_id db.invoices ≡ some inv
      → str_eq exc.status "OPEN" ≡ true
      → resumes request.action ≡ true
      → (is_approve request.action && is_assignee (claim exc user) user) ≡ false
      → decide exception_id request user (decide exception_id request user db).1 ≡ (
        responded (
            replay_response
              (recorded_decision request (claim exc user).exception_id user db.next_decision)
              (record (claim exc user) { status = "RESOLVED" })),
        (decide exception_id request user db).1,
      )
  decide-twice exception_id request user db exc inv e i s r g =
      let claimed = claim exc user in
      let dbc = with_claim exc user db in
      let (key, ikey) = claim_keys exc user in
      let own = found_key exception_id db.exceptions exc e in
      let row =
        exception_recorded request claimed claimed user dbc r (
          claimed_row exc user db
            (ap (λ (n : ℕ). find_by exception_key n db.exceptions) own ∙ e)) in
      let first = first_call exception_id request user db exc inv e i s g in
      rw first (
        second_call exception_id request user (record_decision request claimed user dbc).1
          (record claimed { status = "RESOLVED" }) (settle_invoice request.action inv)
          (recorded_decision request claimed.exception_id user db.next_decision)
          (ap
              (λ (n : ℕ).
                find_by exception_key n (record_decision request claimed user dbc).1.exceptions)
              (sym own ∙ sym key)
            ∙ row)
          (invoice_recorded request claimed inv user dbc (
            unfold with_claim in
            ap (λ (n : ℕ). find_by (λ (i : Invoice). i.invoice_id) n db.invoices) ikey ∙ i))
          refl (unfold with_claim in latest_recorded request claimed user dbc)
          (same_as_recorded request claimed.exception_id user db.next_decision))
