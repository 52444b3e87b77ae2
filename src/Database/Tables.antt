-- ===== src/Database/Tables.antt =====
-- Reading and writing one row of a table by a key, and the queries that the components make.
use portfolio_project.Prelude.{
  ℕ, ◌≡◌, ◌≢◌, refl, Bool, Option, none, some, List, [], ◌∷◌, arith, ◌==◌, if◌then◌else◌,
}

module _ {ℓ} {R : Type ℓ} where
  -- `session.get(R, id)`, for the key `key`.
  unfoldable pub find_by : (R → ℕ) → ℕ → List R → Option R
  find_by key i [] = none
  find_by key i (r ∷ rs) = if key r == i then some r else find_by key i rs

  -- A change of the attributes of the row with the key.
  unfoldable pub modify_by : (R → ℕ) → ℕ → (R → R) → List R → List R
  modify_by key i f [] = []
  modify_by key i f (r ∷ rs) = (if key r == i then f r else r) ∷ modify_by key i f rs

  -- `order_by(key.desc()).limit(1)` over rows in the order of their keys: the last that passes.
  unfoldable pub last_where : (R → Bool) → List R → Option R
  last_where p [] = none
  last_where p (r ∷ rs) =
      let later = last_where p rs in
      elim later [ some x ↦ some x | none ↦ if p r then some r else none ]

  pub find_by-modify_self :
      (key : R → ℕ) (i : ℕ) (f : R → R) (rs : List R)
      → ((r : R) → key (f r) ≡ key r)
      → find_by key i (modify_by key i f rs)
        ≡ (elim (find_by key i rs) [ none ↦ none | some r ↦ some (f r) ])
  unfolding find_by modify_by
  find_by-modify_self key i f [] h = refl
  find_by-modify_self key i f (r ∷ rs) h = ground (arith, h r, find_by-modify_self key i f rs)

  pub find_by-modify_ne :
      (key : R → ℕ) (i j : ℕ) (f : R → R) (rs : List R)
      → ((r : R) → key (f r) ≡ key r)
      → i ≢ j
      → find_by key j (modify_by key i f rs) ≡ find_by key j rs
  unfolding find_by modify_by
  find_by-modify_ne key i j f [] h ne = refl
  find_by-modify_ne key i j f (r ∷ rs) h ne = ground (arith, h r, find_by-modify_ne key i j f rs)
