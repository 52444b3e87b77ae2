-- ===== src/Decisions/FourEyes.antt =====
-- The four-eyes rule of api/services/decisions.py.
use portfolio_project.Prelude.{
  ℕ, String, ◌≡◌, refl, true, false, Option, none, some, arith, str_eq, Bool-cases, Option-cases,
  inl, inr, eq_refl, if◌then◌else◌, ◌&&◌,
}
use portfolio_project.Database.{Database, ExceptionRecord, Invoice, Decision}
use portfolio_project.Database.Tables.{find_by}
use portfolio_project.Decisions.{
  DecisionAction, approve, return_to_vendor, escalate, DecisionRequest, Reply, responded, conflict,
  four_eyes, is_approve, exception_key, action_value, replay_or_conflict, claim, is_assignee, judge,
  decide_found, with_invoice, with_exception, decide, record_decision, latest_decision,
  same_decision,
}

-- A response that records an approval.
abbrev pub ApprovesBy : Reply → Type 0
ApprovesBy (responded r) = (r.idempotent_replay ≡ false) × (r.action ≡ "APPROVE")
ApprovesBy _ = ⊥

not_approve : (a : DecisionAction) → is_approve a ≡ false → action_value a ≡ "APPROVE" → ⊥
not_approve approve b e = cc
not_approve return_to_vendor b e = cc
not_approve escalate b e = cc

true_not_false : true ≡ false → ⊥
true_not_false h = cc

module _ {F : Type 0} where
  -- The exception has been claimed by someone other than the user.
  pub record IsHeldByOther (exc : ExceptionRecord F) (user : String) : Type 0 where
    pub holder : String
    pub held : exc.assignee ≡ some holder
    pub other : str_eq holder user ≡ false

  held_by_other :
      (exc : ExceptionRecord F) (user : String)
      → is_assignee (claim exc user) user ≡ false
      → IsHeldByOther exc user
  unfolding is_assignee claim
  held_by_other exc user h = elim (Option-cases exc.assignee) [
    | inl e ↦ absurd (ground (arith, eq_refl user))
    | inr (a, e) ↦ record { holder = a; held = e; other = ground arith }
  ]

  judge-held :
      (request : DecisionRequest) (exc : ExceptionRecord F) (user : String) (db : Database F)
      → ApprovesBy (judge request exc user db).0
      → is_assignee exc user ≡ false
  unfolding judge record_decision
  judge-held request exc user db h = elim (Bool-cases (is_assignee exc user)) [
    | inr b ↦ b
    | inl b ↦ absurd (by_action request.action refl (rw b at h))
  ]
    where
      by_action :
          (a : DecisionAction)
          → request.action ≡ a
          → ApprovesBy
              (if is_approve request.action && true
                then (conflict four_eyes, db)
                else record_decision request exc user db).0
          → ⊥
      by_action approve e k = rw e at k
      by_action return_to_vendor e k =
          let both = rw e at k in not_approve return_to_vendor refl (both.1)
      by_action escalate e k = let both = rw e at k in not_approve escalate refl (both.1)

  decide_found-held :
      (request : DecisionRequest) (exc : ExceptionRecord F) (user : String) (db : Database F)
      → ApprovesBy (decide_found request exc user db).0
      → IsHeldByOther exc user
  unfolding decide_found replay_or_conflict
  decide_found-held request exc user db h = elim (Bool-cases (str_eq exc.status "OPEN")) [
    | inl b ↦ held_by_other exc user (judge-held request (claim exc user) user _ (rw b at h))
    | inr b ↦ absurd (not_replayed (latest_decision exc.exception_id db) (rw b at h))
  ]
    where
      not_replayed : (d : Option Decision) → ApprovesBy (replay_or_conflict d request user exc) → ⊥
      not_replayed none k = k
      not_replayed (some d) k = elim (Bool-cases (same_decision d request user)) [
        | inl b ↦ let both = rw b at k in absurd (true_not_false (both.0))
        | inr b ↦ rw b at k
      ]

  -- An approval that `decide` records is of an exception that the database held as claimed by
  -- someone other than the user: the one who touched it first never approves it, and nobody
  -- approves an exception that nobody has claimed.
  pub decide-four_eyes :
      (exception_id : ℕ) (request : DecisionRequest) (user : String) (db : Database F)
      → ApprovesBy (decide exception_id request user db).0
      → (exc : ExceptionRecord F) × (find_by exception_key exception_id db.exceptions ≡ some exc)
        × IsHeldByOther exc user
  unfolding decide with_exception with_invoice
  decide-four_eyes exception_id request user db h =
      by_exception (find_by exception_key exception_id db.exceptions) refl h
    where
      by_invoice :
          (exc : ExceptionRecord F) (i : Option Invoice)
          → ApprovesBy (with_invoice request exc i user db).0
          → IsHeldByOther exc user
      by_invoice exc none k = absurd k
      by_invoice exc (some i) k = decide_found-held request exc user db k

      by_exception :
          (e : Option (ExceptionRecord F))
          → find_by exception_key exception_id db.exceptions ≡ e
          → ApprovesBy (with_exception request e user db).0
          → (exc : ExceptionRecord F) × (find_by exception_key exception_id db.exceptions
              ≡ some exc)
            × IsHeldByOther exc user
      by_exception none e k = absurd k
      by_exception (some exc) e k = (exc, e, by_invoice exc _ k)
