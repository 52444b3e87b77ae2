-- ===== src/Dashboard/Totals.antt =====
-- How the figures of api/services/dashboard.py agree with each other and with the tables.
use portfolio_project.Prelude.{
  ℕ, suc, ◌+◌, ◌≤◌, ◌≡◌, ◌∙◌, refl, ap, Bool, false, none, some, List, [], ◌∷◌, arith, length,
}
use portfolio_project.Database.{Database, Invoice, ExceptionRecord}
use portfolio_project.Dashboard.{
  Aging, ExceptionTypeCount, age, age_all, count_where, is_open, add_type, group_types, open_slas,
  insert_type, by_count, sum_open, summary,
}

abbrev pub aged : Aging → ℕ
aged a = a.on_track + a.over_4h + a.over_24h

aged-age : (now due : ℕ) (a : Aging) → aged (age now due a) ≡ suc (aged a)
unfolding age
aged-age now due a = ground arith

aged-age_all :
    (now : ℕ) (slas : List ℕ) (a : Aging) → aged (age_all now slas a) ≡ length slas + aged a
unfolding age_all
aged-age_all now [] a = omega arith
aged-age_all now (due ∷ slas) a =
    omega (arith, aged-age_all now slas (age now due a), aged-age now due a)

sum_open-insert_type :
    (c : ExceptionTypeCount) (cs : List ExceptionTypeCount)
    → sum_open (insert_type c cs) ≡ c.open_count + sum_open cs
unfolding sum_open insert_type
sum_open-insert_type c [] = refl
sum_open-insert_type c (x ∷ xs) = ground (arith, sum_open-insert_type c xs)

sum_open-by_count : (cs : List ExceptionTypeCount) → sum_open (by_count cs) ≡ sum_open cs
unfolding by_count sum_open
sum_open-by_count [] = refl
sum_open-by_count (c ∷ cs) =
    sum_open-insert_type c (by_count cs) ∙ ap (λ (n : ℕ). c.open_count + n) (sum_open-by_count cs)

module _ {F : Type 0} where
  sum_open-add_type :
      (e : ExceptionRecord F) (cs : List ExceptionTypeCount)
      → sum_open (add_type e cs) ≡ sum_open cs + 1
  unfolding sum_open add_type
  sum_open-add_type e [] = refl
  sum_open-add_type e (c ∷ cs) = ground (arith, sum_open-add_type e cs)

  sum_open-group_types :
      (es : List (ExceptionRecord F)) → sum_open (group_types es) ≡ count_where is_open es
  unfolding sum_open group_types count_where
  sum_open-group_types [] = refl
  sum_open-group_types (e ∷ es) =
      ground (arith, sum_open-group_types es, sum_open-add_type e (group_types es))

  -- An open exception with a deadline.
  abbrev pub has_deadline : ExceptionRecord F → Bool
  has_deadline e = elim e.sla_due_at [ none ↦ false | some due ↦ is_open e ]

  length-open_slas :
      (es : List (ExceptionRecord F)) → length (open_slas es) ≡ count_where has_deadline es
  unfolding open_slas count_where
  length-open_slas [] = refl
  length-open_slas (e ∷ es) = ground (arith, length-open_slas es)

-- The open exceptions of the summary, summed over its groups, are the open exceptions of the table;
-- the three ages add up to those of them that have a deadline; and the invoices approved
-- automatically are among the processed ones.
pub summary_totals :
    {F : Type 0} (created : Invoice → ℕ) (now days : ℕ) (db : Database F)
    → (let s = summary created now days db in
        (s.exceptions_open ≡ count_where is_open db.exceptions)
        × (aged s.aging ≡ count_where has_deadline db.exceptions)
        × (s.invoices_auto_approved ≤ s.invoices_processed))
unfolding summary
summary_totals created now days db = (
  sum_open-by_count (group_types db.exceptions) ∙ sum_open-group_types db.exceptions,
  aged-age_all now (open_slas db.exceptions) record { on_track = 0; over_4h = 0; over_24h = 0 }
      ∙ (ground arith ∙ length-open_slas db.exceptions),
  omega arith,
)
