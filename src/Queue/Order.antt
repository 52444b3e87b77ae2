-- ===== src/Queue/Order.antt =====
-- The order of the listing of api/services/queue.py.
use mathlib.Core.List.Perm
use mathlib.Core.List.Permᴰ
use mathlib.Core.List.{Perm, Permᴰ}
use portfolio_project.Prelude.{
  ℕ, ◌≡◌, ◌≢◌, ◌≤◌, refl, Bool, true, false, not, ◌||◌, ◌&&◌, Option, List, ◌⊎◌, arith, leb,
  Pairwise-weaken, Strict, Pairwise, Chained, Chained-weaken, sort_by, sort_by-Perm,
  sort_by-Chained, sort_by-same, Bool-cases, inl, inr,
}
use portfolio_project.Decimal.Order.{leb_decimal_trans}
use portfolio_project.Database.{Invoice, ExceptionRecord}
use portfolio_project.Queue.Values.{
  Within, AtMostDecimal, Within-trans, Within-total, total_ℕ, total_decimal, amounts_not_before,
  dates_not_before, amounts_at_most, dates_at_most,
}
use portfolio_project.Queue.{
  Row, Sort, created_at, amount_total, sla_due_at, severity, Direction, asc, desc, of_row,
  severity_rank, sort_column, column_before, precedes, sort_rows,
}

module _ {F : Type 0} (created : Invoice → ℕ) where
  abbrev pub due : Row F → Option ℕ
  due a = of_row (λ (e : ExceptionRecord F). e.sla_due_at) a.exc

  -- The value of the column in the first row is at most that in the second.
  abbrev pub AtMost : Sort → Row F → Row F → Type 0
  AtMost created_at a b = created a.invoice ≤ created b.invoice
  AtMost amount_total a b = Within AtMostDecimal a.invoice.amount_total b.invoice.amount_total
  AtMost sla_due_at a b = Within (λ (x y : ℕ). x ≤ y) (due a) (due b)
  AtMost severity a b = severity_rank a.exc ≤ severity_rank b.exc

  -- By the column in the direction, and by ascending keys of the invoices at equal values.
  abbrev pub Listed : Sort → Direction → Row F → Row F → Type 0
  Listed s asc a b = AtMost s a b × (AtMost s b a → a.invoice.invoice_id ≤ b.invoice.invoice_id)
  Listed s desc a b = AtMost s b a × (AtMost s a b → a.invoice.invoice_id ≤ b.invoice.invoice_id)

  AtMost-trans : (s : Sort) (a b c : Row F) → AtMost s a b → AtMost s b c → AtMost s a c
  AtMost-trans created_at a b c h k = omega arith
  AtMost-trans amount_total a b c h k =
      Within-trans AtMostDecimal leb_decimal_trans a.invoice.amount_total b.invoice.amount_total
        c.invoice.amount_total h k
  AtMost-trans sla_due_at a b c h k =
      Within-trans (λ (x y : ℕ). x ≤ y) (λ x y z h k. omega arith) (due a) (due b) (due c) h k
  AtMost-trans severity a b c h k = omega arith

  AtMost-total : (s : Sort) (a b : Row F) → AtMost s a b ⊎ AtMost s b a
  AtMost-total created_at a b = total_ℕ (created a.invoice) (created b.invoice)
  AtMost-total amount_total a b =
      Within-total AtMostDecimal total_decimal a.invoice.amount_total b.invoice.amount_total
  AtMost-total sla_due_at a b = Within-total (λ (x y : ℕ). x ≤ y) total_ℕ (due a) (due b)
  AtMost-total severity a b = total_ℕ (severity_rank a.exc) (severity_rank b.exc)

  -- The comparison of the column is the strict part of `AtMost`.
  not_before : (s : Sort) (a b : Row F) → sort_column created s b a ≡ false → AtMost s a b
  unfolding sort_column
  not_before created_at a b h = ground arith
  not_before amount_total a b h = amounts_not_before a.invoice.amount_total b.invoice.amount_total h
  not_before sla_due_at a b h = dates_not_before (due a) (due b) h
  not_before severity a b h = ground arith

  at_most : (s : Sort) (a b : Row F) → AtMost s a b → sort_column created s b a ≡ false
  unfolding sort_column
  at_most created_at a b h = ground arith
  at_most amount_total a b h = amounts_at_most a.invoice.amount_total b.invoice.amount_total h
  at_most sla_due_at a b h = dates_at_most (due a) (due b) h
  at_most severity a b h = ground arith

  one_way :
      (s : Sort) (a b : Row F)
      → sort_column created s a b ≡ true
      → sort_column created s b a ≡ false
  one_way s a b h = elim (AtMost-total s a b) [
    | inl x ↦ at_most s a b x
    | inr x ↦ absurd (clash h (at_most s b a x))
  ]
    where
      clash : {x : Bool} → x ≡ true → x ≡ false → ⊥
      clash p q = cc

  clash-AtMost : (s : Sort) (a b : Row F) → sort_column created s a b ≡ true → AtMost s b a → ⊥
  clash-AtMost s a b h x = ground (arith, at_most s b a x)

  ascending : (s : Sort) (a b : Row F) → precedes created s asc a b ≡ true → Listed s asc a b
  unfolding precedes column_before
  ascending s a b h = elim (Bool-cases (sort_column created s a b)) [
    | inl t ↦ (not_before s a b (one_way s a b t), λ back. absurd (clash-AtMost s a b t back))
    | inr f ↦ (not_before s a b (ground arith), λ back. ground arith)
  ]

  pub precedes-Listed :
      (s : Sort) (d : Direction) (a b : Row F) → precedes created s d a b ≡ true → Listed s d a b
  unfolding precedes column_before
  precedes-Listed s asc a b h = ascending s a b h
  precedes-Listed s desc a b h = elim (Bool-cases (sort_column created s b a)) [
    | inl t ↦ (not_before s b a (one_way s b a t), λ back. absurd (clash-AtMost s b a t back))
    | inr f ↦ (not_before s b a (ground arith), λ back. ground arith)
  ]

  Listed-precedes :
      (s : Sort) (d : Direction) (a b : Row F) → Listed s d a b → precedes created s d a b ≡ true
  unfolding precedes column_before
  Listed-precedes s asc a b (x, f) = elim (Bool-cases (sort_column created s a b)) [
    | inl t ↦ rw t refl
    | inr n ↦ ground (arith, at_most s a b x, f (not_before s b a n))
  ]
  Listed-precedes s desc a b (x, f) = elim (Bool-cases (sort_column created s b a)) [
    | inl t ↦ rw t refl
    | inr n ↦ ground (arith, at_most s b a x, f (not_before s a b n))
  ]

  Listed-trans :
      (s : Sort) (d : Direction) (a b c : Row F) → Listed s d a b → Listed s d b c → Listed s d a c
  Listed-trans s asc a b c (x, f) (y, g) = (
    AtMost-trans s a b c x y,
    λ back. omega (arith, f (AtMost-trans s b c a y back), g (AtMost-trans s c a b back x)),
  )
  Listed-trans s desc a b c (x, f) (y, g) = (
    AtMost-trans s c b a y x,
    λ back. omega (arith, f (AtMost-trans s a c b back y), g (AtMost-trans s b a c x back)),
  )

  Listed-apart :
      (s : Sort) (d : Direction) (a b : Row F)
      → Listed s d a b
      → Listed s d b a
      → a.invoice.invoice_id ≡ b.invoice.invoice_id
  Listed-apart s asc a b (x, f) (y, g) = omega (arith, f y, g x)
  Listed-apart s desc a b (x, f) (y, g) = omega (arith, f y, g x)

  module _ (s : Sort) (d : Direction) where
    precedes_total :
        (a b : Row F) → precedes created s d a b ≡ false → precedes created s d b a ≡ true
    unfolding precedes
    precedes_total a b h =
        by_tests (column_before created s d a b) (column_before created s d b a) h
      where
        by_tests :
            (x y : Bool)
            → (x || (not y && leb a.invoice.invoice_id b.invoice.invoice_id)) ≡ false
            → (y || (not x && leb b.invoice.invoice_id a.invoice.invoice_id)) ≡ true
        by_tests x y h = ground arith

    precedes_trans :
        (a b c : Row F)
        → precedes created s d a b ≡ true
        → precedes created s d b c ≡ true
        → precedes created s d a c ≡ true
    precedes_trans a b c h k =
        Listed-precedes s d a c
          (Listed-trans s d a b c (precedes-Listed s d a b h) (precedes-Listed s d b c k))

    -- Rows of different invoices are never on a level.
    abbrev pub Apart : Row F → Row F → Type 0
    Apart a b = a.invoice.invoice_id ≢ b.invoice.invoice_id

    Apart-Strict : (a b : Row F) → Apart a b → Strict (precedes created s d) a b
    Apart-Strict a b n h k =
        n (Listed-apart s d a b (precedes-Listed s d a b h) (precedes-Listed s d b a k))

    -- The rows of different invoices have one order only, in which `order_by` lists them.
    pub sort_rows-same :
        {rows moved : List (Row F)}
        → Permᴰ rows moved
        → Pairwise Apart rows
        → sort_rows created s d rows ≡ sort_rows created s d moved
    unfolding sort_rows
    sort_rows-same p h =
        sort_by-same (precedes created s d) precedes_total precedes_trans p
          (Pairwise-weaken Apart-Strict _ h)

-- Whichever way the database gives the rows of different invoices, the listing has each as often and
-- is one and the same: each row has a value of the column that is at most that of the next, or at
-- least for a descending order, where an absent value counts as the largest, and at equal values the
-- smaller key of the invoice comes first.
pub sort_rows_sorts :
    {F : Type 0} (created : Invoice → ℕ) (s : Sort) (d : Direction) (rows moved : List (Row F))
    → Permᴰ rows moved
    → Pairwise (Apart created s d) rows
    → Perm (sort_rows created s d moved) rows
      × Chained (Listed created s d) (sort_rows created s d moved)
      × (sort_rows created s d rows ≡ sort_rows created s d moved)
unfolding sort_rows
sort_rows_sorts created s d rows moved p h =
    let le = precedes created s d in
    (
      Perm.trans (sort_by-Perm le moved) ∣ Permᴰ.symm p ∣₁,
      Chained-weaken (precedes-Listed created s d) (sort_by le moved)
          (sort_by-Chained le (precedes_total created s d) moved),
      sort_rows-same created s d p h,
    )
