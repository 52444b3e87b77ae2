-- ===== src/Queue/Pages.antt =====
-- The pages of the listing of api/services/queue.py.
use mathlib.Core.List.{Permᴰ}
use portfolio_project.Prelude.{
  ◌≢◌, All, Pairwise, Pairwise-keep, keep-Permᴰ, length-sort_by, ℕ, zero, suc, ◌+◌, ◌≡◌, refl, ap,
  List, [], ◌∷◌, ◌++◌, map, take, drop, length, arith, ◌∙◌, sym,
}
use portfolio_project.Database.{Database, Invoice}
use portfolio_project.Queue.{
  Filters, Sort, Direction, Row, row_of, precedes, sort_rows, base_rows, apply_filters,
  filtered_rows,
}
use portfolio_project.Queue.Order.{Apart, sort_rows-same}
use portfolio_project.Queue.Detail.{list_invoices, queue_item}

zero_left : (k : ℕ) → zero + k ≡ k
zero_left k = omega arith

suc_left : (k j : ℕ) → suc k + j ≡ suc (k + j)
suc_left k j = omega arith

module _ {ℓ} {A : Type ℓ} where
  take-join : (n m : ℕ) (xs : List A) → take n xs ++ take m (drop n xs) ≡ take (n + m) xs
  take-join zero m xs = rw (zero_left m) refl
  take-join (suc n) m [] = rw (suc_left n m) (nothing m)
    where
      nothing : (k : ℕ) → ◌≡◌ {A = List A} (take k []) []
      nothing zero = refl
      nothing (suc k) = refl
  take-join (suc n) m (x ∷ xs) = rw (suc_left n m) (ap (λ (t : List A). x ∷ t) (take-join n m xs))

  drop-drop : (k n : ℕ) (xs : List A) → drop n (drop k xs) ≡ drop (k + n) xs
  drop-drop zero n xs = rw (zero_left n) refl
  drop-drop (suc k) n [] = rw (suc_left k n) (nothing n)
    where
      nothing : (k : ℕ) → ◌≡◌ {A = List A} (drop k []) []
      nothing zero = refl
      nothing (suc k) = refl
  drop-drop (suc k) n (x ∷ xs) = rw (suc_left k n) (drop-drop k n xs)

  take_all : (xs : List A) → take (length xs) xs ≡ xs
  take_all [] = refl
  take_all (x ∷ xs) = ap (λ (t : List A). x ∷ t) (take_all xs)

module _ {ℓ κ} {A : Type ℓ} {B : Type κ} (g : A → B) where
  map-join : (xs ys : List A) → map g xs ++ map g ys ≡ map g (xs ++ ys)
  map-join [] ys = refl
  map-join (x ∷ xs) ys = ap (λ (t : List B). g x ∷ t) (map-join xs ys)

module _ {F : Type 0} (created : Invoice → ℕ) (s : Sort) (d : Direction) (db : Database F)
    (stored : List Invoice) where
  -- No two of the invoices have the same key.
  abbrev pub DifferentFrom : Invoice → Invoice → Type 0
  DifferentFrom i j = i.invoice_id ≢ j.invoice_id

  -- The rows read the runs and the exceptions of the tables, not their invoices.
  base_rows-moved :
      (xs : List Invoice)
      → base_rows created db xs ≡ base_rows created (record db { invoices = stored }) xs
  unfolding base_rows row_of
  base_rows-moved [] = refl
  base_rows-moved (i ∷ xs) = ap (λ (t : List (Row F)). row_of created db i ∷ t) (base_rows-moved xs)

  base_rows-Permᴰ :
      {xs ys : List Invoice}
      → Permᴰ xs ys
      → Permᴰ (base_rows created db xs) (base_rows created db ys)
  unfolding base_rows
  base_rows-Permᴰ Permᴰ.nil = Permᴰ.nil
  base_rows-Permᴰ (Permᴰ.cons e π) = Permᴰ.cons (ap (row_of created db) e) (base_rows-Permᴰ π)
  base_rows-Permᴰ (Permᴰ.swap e f) =
      Permᴰ.swap (ap (row_of created db) e) (ap (row_of created db) f)
  base_rows-Permᴰ (Permᴰ.trans π ρ) = Permᴰ.trans (base_rows-Permᴰ π) (base_rows-Permᴰ ρ)

  base_rows-Apart :
      (xs : List Invoice)
      → Pairwise DifferentFrom xs
      → Pairwise (Apart created s d) (base_rows created db xs)
  unfolding base_rows
  base_rows-Apart [] h = tt
  base_rows-Apart (i ∷ xs) (first, rest) = (apart xs first, base_rows-Apart xs rest)
    where
      apart :
          (ys : List Invoice)
          → All (DifferentFrom i) ys
          → All (λ (r : Row F). i.invoice_id ≢ r.invoice.invoice_id) (base_rows created db ys)
      apart [] h = tt
      apart (j ∷ ys) (h, rest) = (h, apart ys rest)

  listing-same :
      (f : Filters)
      → Pairwise DifferentFrom db.invoices
      → Permᴰ db.invoices stored
      → sort_rows created s d (filtered_rows created db f)
        ≡ sort_rows created s d (filtered_rows created (record db { invoices = stored }) f)
  unfolding filtered_rows
  listing-same f h π = rw (sym (base_rows-moved stored)) (
      sort_rows-same created s d (keep-Permᴰ (apply_filters f) (base_rows-Permᴰ π)) (
        Pairwise-keep (Apart created s d) (apply_filters f) (base_rows created db db.invoices)
          (base_rows-Apart db.invoices h)))

  length-sort_rows : (rows : List (Row F)) → length (sort_rows created s d rows) ≡ length rows
  unfolding sort_rows
  length-sort_rows rows = length-sort_by (precedes created s d) rows

-- Two pages that follow each other are one page of their joint length, at every offset, also where
-- the table gives the same invoices, of different keys, in another order for the second of them; and
-- a page as long as the total that every page reports is all the rows that pass the filters, sorted.
-- So paging shows each of them once.
pub list_invoices_pages :
    {F : Type 0} (created : Invoice → ℕ) (now : ℕ) (db : Database F) (stored : List Invoice)
    (f : Filters) (s : Sort) (d : Direction) (n m offset : ℕ)
    → Pairwise (DifferentFrom created s d db stored) db.invoices
    → Permᴰ db.invoices stored
    → (let page = list_invoices created now db f s d in
        let later = list_invoices created now (record db { invoices = stored }) f s d in
        ((page n offset).items ++ (later m (offset + n)).items ≡ (page (n + m) offset).items)
        × ((page ((later n offset).total) 0).items
            ≡ map (queue_item created now) (sort_rows created s d (filtered_rows created db f))))
unfolding list_invoices
list_invoices_pages created now db stored f s d n m offset different π =
    let rows = sort_rows created s d (filtered_rows created db f) in
    let moved = record db { invoices = stored } in
    let same = listing-same created s d db stored f different π in
    let item = queue_item created now in
    (
      rw (sym same) (
          map-join item (take n (drop offset rows)) _
          ∙ ap (λ (t : List (Row _)). map item t)
              (ap (λ (t : List (Row _)). take n (drop offset rows) ++ take m t)
                  (sym (drop-drop offset n rows))
                ∙ take-join n m (drop offset rows))),
      ap (λ (t : List (Row _)). map item t)
          (ap (λ (k : ℕ). take k rows)
              (sym (length-sort_rows created s d moved [] (filtered_rows created moved f))
                ∙ ap (λ (t : List (Row _)). length t) (sym same))
            ∙ take_all rows),
    )
