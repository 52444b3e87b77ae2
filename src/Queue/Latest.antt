-- ===== src/Queue/Latest.antt =====
-- The joins of api/services/queue.py on the newest run and exception of an invoice.
use portfolio_project.Prelude.{
  ℕ, ◌≤◌, ◌≡◌, ◌≢◌, refl, Bool, true, false, Option, none, some, List, [], ◌∷◌, All, arith, ◌==◌,
  leb, if◌then◌else◌,
}
use portfolio_project.Database.Tables.{find_by}
use portfolio_project.Queue.{max_where, join_on}

module _ {R : Type 0} (key : R → ℕ) (p : R → Bool) where
  -- No row passes, or the key is that of a row and the greatest of those that pass.
  abbrev IsMax : Option ℕ → List R → Type 0
  IsMax none rs = All (λ r. p r ≡ false) rs
  IsMax (some k) rs = (find_by key k rs ≢ none) × All (λ r. p r ≡ true → key r ≤ k) rs

  raised :
      (k j : ℕ) (rs : List R)
      → k ≤ j
      → All (λ r. p r ≡ true → key r ≤ k) rs
      → All (λ r. p r ≡ true → key r ≤ j) rs
  raised k j [] le all = tt
  raised k j (r ∷ rs) le (h, all) = ((λ e. omega (arith, h e, le)), raised k j rs le all)

  vacuous : (k : ℕ) (rs : List R) → All (λ r. p r ≡ false) rs → All (λ r. p r ≡ true → key r ≤ k) rs
  vacuous k [] all = tt
  vacuous k (r ∷ rs) (h, all) = ((λ e. absurd (ground arith)), vacuous k rs all)

  found_here : (r : R) (rs : List R) → find_by key (key r) (r ∷ rs) ≢ none
  unfolding find_by
  found_here r rs e = ground arith

  found_later :
      (k : ℕ) (r : R) (rs : List R) → find_by key k rs ≢ none → find_by key k (r ∷ rs) ≢ none
  unfolding find_by
  found_later k r rs h e = by_key (key r == k) e
    where
      by_key : (b : Bool) → ◌≢◌ {A = Option R} (if b then some r else find_by key k rs) none
      by_key true e = ground arith
      by_key false e = h e

  max_where-IsMax : (rs : List R) → IsMax (max_where key p rs) rs
  unfolding max_where
  max_where-IsMax [] = tt
  max_where-IsMax (r ∷ rs) = by_test (p r) refl (max_where key p rs) (max_where-IsMax rs)
    where
      by_order :
          (b : Bool) (k : ℕ)
          → leb (key r) k ≡ b
          → IsMax (some k) rs
          → IsMax (some (if b then k else key r)) (r ∷ rs)
      by_order true k e (h, all) = (found_later k r rs h, ((λ q. ground arith), all))
      by_order false k e (h, all) =
          (found_here r rs, ((λ q. omega arith), raised k (key r) rs (ground arith) all))

      by_rest :
          (o : Option ℕ)
          → IsMax o rs
          → IsMax
              (elim o [ none ↦ some (key r) | some k ↦ some (if leb (key r) k then k else key r) ])
              (r ∷ rs)
      by_rest none all = (found_here r rs, ((λ q. omega arith), vacuous (key r) rs all))
      by_rest (some k) h = by_order (leb (key r) k) k refl h

      by_test :
          (b : Bool)
          → p r ≡ b
          → (o : Option ℕ) → IsMax o rs
          → IsMax
              (if b
                then elim o [
                  | none ↦ some (key r)
                  | some k ↦ some (if leb (key r) k then k else key r)
                ]
                else o)
              (r ∷ rs)
      by_test true e o h = by_rest o h
      by_test false e none h = (e, h)
      by_test false e (some k) (h, all) =
          (found_later k r rs h, ((λ q. absurd (ground arith)), all))

  find_by-key : (k : ℕ) (r : R) (rs : List R) → find_by key k rs ≡ some r → key r ≡ k
  unfolding find_by
  find_by-key k r [] e = absurd (ground arith)
  find_by-key k r (x ∷ rs) e = ground (arith, find_by-key k r rs)

  abbrev pub IsLatest : Option R → List R → Type 0
  IsLatest none rs = All (λ r. p r ≡ false) rs
  IsLatest (some latest) rs = All (λ r. p r ≡ true → key r ≤ key latest) rs

  join_on-IsLatest : (o : Option ℕ) (rs : List R) → IsMax o rs → IsLatest (join_on key o rs) rs
  unfolding join_on
  join_on-IsLatest none rs h = h
  join_on-IsLatest (some k) rs (h, all) = by_found (find_by key k rs) refl
    where
      by_found : (f : Option R) → find_by key k rs ≡ f → IsLatest f rs
      by_found none e = absurd (h e)
      by_found (some r) e = raised k (key r) rs (same (key r) k (find_by-key k r rs e)) all
        where
          same : (a b : ℕ) → a ≡ b → b ≤ a
          same a b e = omega arith

-- The row that is joined on the greatest key of those that pass is absent only when none passes, and
-- otherwise no row that passes has a greater key.
pub join_on-max_where :
    {R : Type 0} (key : R → ℕ) (p : R → Bool) (rs : List R)
    → IsLatest key p (join_on key (max_where key p rs) rs) rs
join_on-max_where key p rs =
    join_on-IsLatest key p (max_where key p rs) rs (max_where-IsMax key p rs)
