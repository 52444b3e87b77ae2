-- ===== src/Ledger.antt =====
-- ledger/api.py: the append-only ledger.
pub mod Sequence
use Prim.Native.Nat.{max}
use portfolio_project.Prelude.{
  ℕ, ◌+◌, String, Bool, true, false, Option, none, some, List, [], ◌∷◌, ◌++◌, ◌==◌, if◌then◌else◌,
  keep, take, drop, sort_by, leb,
}
use portfolio_project.Database.{Database, LedgerEntry, Event, ActorType}

-- `entry.run_id == run_id`; a row with no run never compares equal.
unfoldable pub of_run : {F : Type 0} → ℕ → LedgerEntry F → Bool
of_run run_id e = elim e.run_id [ none ↦ false | some r ↦ r == run_id ]

-- `policy_version` is the entry's own, since the current pins have none.
pub record LedgerAppend (F : Type 0) : Type 0 where
  pub actor_type : ActorType
  pub actor_id : String
  pub event : Event F
  pub run_id : Option ℕ
  pub invoice_id : Option ℕ
  pub prompt_version : Option String
  pub policy_version : Option String

module _ {F : Type 0} where
  -- `coalesce(max(seq), 0)` over the entries of one run.
  unfoldable pub max_seq : ℕ → List (LedgerEntry F) → ℕ
  unfolding of_run
  max_seq run_id [] = 0
  max_seq run_id (e ∷ es) =
      let rest = max_seq run_id es in if of_run run_id e then max e.seq rest else rest

  unfoldable pub next_seq : Option ℕ → List (LedgerEntry F) → ℕ
  unfolding max_seq
  next_seq none es = 1
  next_seq (some run_id) es = max_seq run_id es + 1

  -- The row that `append` writes.
  unfoldable pub row_of : LedgerAppend F → List (LedgerEntry F) → LedgerEntry F
  unfolding next_seq
  row_of e es = record {
    run_id = e.run_id;
    invoice_id = e.invoice_id;
    seq = next_seq e.run_id es;
    actor_type = e.actor_type;
    actor_id = e.actor_id;
    event = e.event;
    policy_version = e.policy_version;
    prompt_version = e.prompt_version;
  }

  unfoldable pub append : LedgerAppend F → Database F → Database F
  unfolding row_of
  append e db = record db { ledger = db.ledger ++ row_of e db.ledger ∷ [] }

  -- `order_by(LedgerEntry.seq)`.
  unfoldable pub seq_le : LedgerEntry F → LedgerEntry F → Bool
  seq_le a b = leb a.seq b.seq

  -- `reader.by_run`: a page of the entries of a run in the order of `seq`.
  unfoldable pub by_run : ℕ → ℕ → ℕ → Database F → List (LedgerEntry F)
  unfolding keep of_run sort_by seq_le
  by_run run_id limit offset db =
      take limit (drop offset (sort_by seq_le (keep (of_run run_id) db.ledger)))
