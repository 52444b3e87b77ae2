-- ===== src/Queue/Pins.antt =====
-- Who sees the pins of the ledger, in api/services/queue.py.
use portfolio_project.Prelude.{ℕ, ◌≡◌, refl, false, none, List, [], ◌∷◌, map, All}
use portfolio_project.Database.{LedgerEntry}
use portfolio_project.Queue.Detail.{
  in_provenance_roles, Identity, SummaryEntry, summary_entry, ledger_summary,
}

module _ {V : Type 0} where
  abbrev pub WithoutPins : SummaryEntry V → Type 0
  WithoutPins e =
      (e.versions ≡ none) × (e.policy_version ≡ none) × (e.prompt_template_version ≡ none)

module _ {F V : Type 0} (versions : LedgerEntry F → List V) where
  stripped :
      (rows : List (LedgerEntry F)) → All WithoutPins (map (summary_entry versions false) rows)
  unfolding summary_entry
  stripped [] = tt
  stripped (r ∷ rows) = ((refl, refl, refl), stripped rows)

-- For a role outside the roles of provenance no entry of the summary carries a version pin, whatever
-- the ledger holds.
pub ledger_summary_strips :
    {F V : Type 0} (versions : LedgerEntry F → List V) (rows : List (LedgerEntry F)) (count : ℕ)
    (identity : Identity)
    → in_provenance_roles identity.role ≡ false
    → All WithoutPins (ledger_summary versions rows count identity).last_entries
unfolding ledger_summary
ledger_summary_strips versions rows count identity h = rw h (stripped versions _)
