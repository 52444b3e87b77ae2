-- ===== src/Dlq/Claims.antt =====
-- Claims of entries of the dead-letter queue of graph/dlq.py.
use portfolio_project.Prelude.{
  ℕ, ◌≡◌, refl, sym, ◌∙◌, Option, none, some, List, [], ◌∷◌, ap, str_eq, arith, Bool-cases, inl,
  inr,
}
use portfolio_project.Database.{Database, DlqEntry}
use portfolio_project.Database.Tables.{find_by, modify_by, find_by-modify_self}
use portfolio_project.Ledger.{append}
use portfolio_project.Dlq.{claim_entry, replay, set_run_status}

abbrev pub entry_key : DlqEntry → ℕ
entry_key d = d.dlq_id

abbrev pub replayed : DlqEntry → DlqEntry
replayed d = record d { status = "REPLAYED" }

found_key :
    (i : ℕ) (ds : List DlqEntry) (d : DlqEntry) → find_by entry_key i ds ≡ some d → entry_key d ≡ i
unfolding find_by
found_key i [] d h = cc
found_key i (x ∷ xs) d h = ground (arith, found_key i xs d)

claimed_database :
    {A B : Type 0} {x y : A} {u v : B}
    → ◌≡◌ {A = Option (A × B)} (some (x, u)) (some (y, v))
    → u ≡ v
claimed_database h = cc

none_not_some : {A : Type 0} {a : A} → none ≡ some a → ⊥
none_not_some h = cc

module _ {F : Type 0} where
  claim-dlq :
      (e : DlqEntry) (db : Database F) (invoice_id : ℕ) (db' : Database F)
      → claim_entry (some e) db ≡ some (invoice_id, db')
      → db'.dlq ≡ modify_by entry_key e.dlq_id replayed db.dlq
  unfolding claim_entry set_run_status append
  claim-dlq e db invoice_id db' h = elim (Bool-cases (str_eq e.status "PENDING")) [
    | inl b ↦ ap (λ (d : Database F). d.dlq) (sym (claimed_database (rw b at h)))
    | inr b ↦ absurd (none_not_some (rw b at h))
  ]

  claim_replayed : (e : DlqEntry) (db : Database F) → claim_entry (some (replayed e)) db ≡ none
  unfolding claim_entry
  claim_replayed e db = refl

  -- An entry is claimed at most once: after a replay, a second replay of the entry is refused.
  pub replay-once :
      (dlq_id : ℕ) (db : Database F) (invoice_id : ℕ) (db' : Database F)
      → replay dlq_id db ≡ some (invoice_id, db')
      → replay dlq_id db' ≡ none
  unfolding replay
  replay-once dlq_id db invoice_id db' h = by_entry (find_by entry_key dlq_id db.dlq) refl h
    where
      found_again :
          (e : DlqEntry)
          → find_by entry_key dlq_id db.dlq ≡ some e
          → db'.dlq ≡ modify_by entry_key e.dlq_id replayed db.dlq
          → find_by entry_key dlq_id db'.dlq ≡ some (replayed e)
      found_again e found changed =
          let moved =
            changed
            ∙ ap (λ (i : ℕ). modify_by entry_key i replayed db.dlq)
                (found_key dlq_id db.dlq e found) in
          rw (moved, find_by-modify_self entry_key dlq_id replayed db.dlq (λ d. refl), found) refl

      by_entry :
          (e : Option DlqEntry)
          → find_by entry_key dlq_id db.dlq ≡ e
          → claim_entry e db ≡ some (invoice_id, db')
          → claim_entry (find_by entry_key dlq_id db'.dlq) db' ≡ none
      by_entry none found k = absurd (none_not_some k)
      by_entry (some e) found k =
          rw (found_again e found (claim-dlq e db invoice_id db' k)) (claim_replayed e db')
