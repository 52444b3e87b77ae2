-- ===== src/Dashboard.antt =====
-- api/services/dashboard.py: the aggregates over the invoices and the exceptions. The groups of a
-- query come in the order in which they first occur, which the query leaves open at ties. The two
-- figures that no query gives yet, and the minimum and maximum that nothing reads, are left out.
pub mod Totals
use portfolio_project.Prelude.{
  ℕ, zero, ◌+◌, ◌-◌, ◌*◌, ◌/◌, String, Bool, true, false, not, ◌&&◌, Option, none, some, List, [],
  ◌∷◌, map, ◌==◌, leb, ltb, str_eq, any, keep, length, if◌then◌else◌,
}
use portfolio_project.Decimal.Ratio.{Ratio}
use portfolio_project.Database.{Database, Invoice, ExceptionRecord}

pub record DayVolume : Type 0 where
  pub day : ℕ
  pub total : ℕ
  pub auto_approved : ℕ

pub record ExceptionTypeCount : Type 0 where
  pub type_code : String
  pub severity : String
  pub open_count : ℕ

pub record Aging : Type 0 where
  pub on_track : ℕ
  pub over_4h : ℕ
  pub over_24h : ℕ

pub record DashboardSummary : Type 0 where
  pub generated_at : ℕ
  -- The quotient of the two numbers.
  pub stp_rate : Option (ℕ × ℕ)
  pub invoices_processed : ℕ
  pub invoices_auto_approved : ℕ
  pub exceptions_open : ℕ
  pub aging : Aging
  pub volume_by_day : List DayVolume
  pub exception_types : List ExceptionTypeCount

unfoldable pub count_where : {A : Type 0} → (A → Bool) → List A → ℕ
count_where p [] = 0
count_where p (x ∷ xs) = let rest = count_where p xs in if p x then rest + 1 else rest

abbrev pub has_status : String → Invoice → Bool
has_status s i = str_eq i.status s

-- One open deadline, by the whole seconds that have passed since.
unfoldable pub age : ℕ → ℕ → Aging → Aging
age now due a =
    if ltb (due + 86400) now
    then record a { over_24h = a.over_24h + 1 }
    else if ltb (due + 4 * 3600) now
    then record a { over_4h = a.over_4h + 1 }
    else record a { on_track = a.on_track + 1 }

unfoldable pub age_all : ℕ → List ℕ → Aging → Aging
unfolding age
age_all now [] a = a
age_all now (due ∷ slas) a = age_all now slas (age now due a)

-- `date_trunc("day", …)` as the number of the day.
abbrev pub day_of : ℕ → ℕ
day_of t = t / 86400

-- `group_by("day").order_by("day")` over the invoices since a time.
module _ (created : Invoice → ℕ) where
  unfoldable pub add_volume : Invoice → List DayVolume → List DayVolume
  add_volume i [] =
      record {
        day = day_of (created i);
        total = 1;
        auto_approved = if has_status "AUTO_APPROVED" i then 1 else 0;
      }
      ∷ []
  add_volume i (v ∷ vs) =
      let rest = add_volume i vs in
      let one : ℕ = if has_status "AUTO_APPROVED" i then 1 else 0 in
      if day_of (created i) == v.day
      then record v { total = v.total + 1; auto_approved = v.auto_approved + one } ∷ vs
      else if ltb (day_of (created i)) v.day
      then record { day = day_of (created i); total = 1; auto_approved = one } ∷ v ∷ vs
      else v ∷ rest

  unfoldable pub volumes : ℕ → List Invoice → List DayVolume
  unfolding add_volume
  volumes since [] = []
  volumes since (i ∷ is) =
      let rest = volumes since is in if leb since (created i) then add_volume i rest else rest

module _ {F : Type 0} where
  abbrev pub is_open : ExceptionRecord F → Bool
  is_open e = str_eq e.status "OPEN"

  abbrev same_group : ExceptionRecord F → ExceptionTypeCount → Bool
  same_group e c = str_eq c.type_code e.type_code && str_eq c.severity e.severity

  -- `group_by(type, severity)`.
  unfoldable pub add_type : ExceptionRecord F → List ExceptionTypeCount → List ExceptionTypeCount
  add_type e [] = record { type_code = e.type_code; severity = e.severity; open_count = 1 } ∷ []
  add_type e (c ∷ cs) =
      let rest = add_type e cs in
      if same_group e c then record c { open_count = c.open_count + 1 } ∷ cs else c ∷ rest

  unfoldable pub group_types : List (ExceptionRecord F) → List ExceptionTypeCount
  unfolding add_type
  group_types [] = []
  group_types (e ∷ es) = let rest = group_types es in if is_open e then add_type e rest else rest

  unfoldable pub open_slas : List (ExceptionRecord F) → List ℕ
  open_slas [] = []
  open_slas (e ∷ es) =
      let rest = open_slas es in
      if is_open e then elim e.sla_due_at [ none ↦ rest | some due ↦ due ∷ rest ] else rest

-- `order_by(count.desc())`.
unfoldable pub insert_type : ExceptionTypeCount → List ExceptionTypeCount → List ExceptionTypeCount
insert_type c [] = c ∷ []
insert_type c (x ∷ xs) =
    let rest = insert_type c xs in if leb x.open_count c.open_count then c ∷ x ∷ xs else x ∷ rest

unfoldable pub by_count : List ExceptionTypeCount → List ExceptionTypeCount
unfolding insert_type
by_count [] = []
by_count (c ∷ cs) = insert_type c (by_count cs)

unfoldable pub sum_open : List ExceptionTypeCount → ℕ
sum_open [] = 0
sum_open (c ∷ cs) = c.open_count + sum_open cs

unfoldable pub summary : {F : Type 0} → (Invoice → ℕ) → ℕ → ℕ → Database F → DashboardSummary
unfolding count_where volumes group_types by_count sum_open open_slas age_all
summary created now days db =
    let auto = count_where (has_status "AUTO_APPROVED") db.invoices in
    let human_touched =
      count_where (has_status "DECISION_APPROVED") db.invoices
      + count_where (has_status "RETURNED_TO_VENDOR") db.invoices in
    let exceptions = count_where (has_status "EXCEPTION") db.invoices in
    let processed = auto + exceptions + human_touched in
    let types = by_count (group_types db.exceptions) in
    record {
      generated_at = now;
      stp_rate = if processed == 0 then none else some (auto, processed);
      invoices_processed = processed;
      invoices_auto_approved = auto;
      exceptions_open = sum_open types;
      aging =
          age_all now (open_slas db.exceptions) record { on_track = 0; over_4h = 0; over_24h = 0 };
      volume_by_day = volumes created (now - days * 86400) db.invoices;
      exception_types = types;
    }
