-- ===== src/Decisions/Replay.antt =====
-- Calls of api/services/decisions.py that record nothing.
use portfolio_project.Prelude.{◌≡◌, Bool, false, not}
use portfolio_project.Database.{Database}
use portfolio_project.Decisions.{Reply, responded}

-- A response that is not the replay of an earlier decision.
abbrev pub is_fresh : Reply → Bool
is_fresh (responded r) = not r.idempotent_replay
is_fresh _ = false

module _ {F : Type 0} where
  -- All that a decision writes but the exception itself.
  pub record IsUntouched (before after : Database F) : Type 0 where
    pub decisions : after.decisions ≡ before.decisions
    pub ledger : after.ledger ≡ before.ledger
    pub invoices : after.invoices ≡ before.invoices
    pub runs : after.runs ≡ before.runs
    pub next_decision : after.next_decision ≡ before.next_decision
