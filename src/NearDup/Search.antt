-- ===== src/NearDup/Search.antt =====
-- What the search of tools/near_dup.py gives.
use mathlib.Core.List.Memᴰ
use mathlib.Core.List.{Memᴰ}
use portfolio_project.Prelude.{
  take-All, take-Chained, imply-All, take-or_after, length-take-le, ℕ, ◌≤◌, ◌≡◌, ◌≢◌, ◌⊎◌, inl, inr,
  refl, sym, subst, Bool, true, false, not, ◌&&◌, Option, none, some, List, [], ◌∷◌, map, take,
  length, arith, ◌==◌, if◌then◌else◌, All, Chained, sort_by, sort_by-All, sort_by-Memᴰ,
  sort_by-Chained,
}
use portfolio_project.Float.{FloatOps, FloatLaws, ltb_float}
use portfolio_project.NearDup.{
  Embedding, Candidate, top_k, has_dim, max_distance, candidates, nearer, nearest_first, hit_of,
  find_similar,
}

module _ (O : FloatOps) (L : FloatLaws O) (cosine_distance : List O.Float → List O.Float → O.Float)
    (threshold : O.Float) (invoice_id : ℕ) (vector : List O.Float) where
  open O use {Float, minus, leb_float}

  abbrev limit : Float
  limit = max_distance O cosine_distance threshold

  -- The row is of another invoice, and its embedding is strictly nearer than the limit.
  abbrev pub IsNear : Embedding Float → List Float → Type 0
  IsNear row other =
      (row.invoice_id ≢ invoice_id)
      × (row.vector ≡ some other)
      × (ltb_float O (cosine_distance other vector) limit ≡ true)

  abbrev pub candidate_of : Embedding Float → List Float → Candidate Float
  candidate_of row other = record {
    invoice_id = row.invoice_id;
    distance = cosine_distance other vector;
  }

  -- The candidate is that of a near row.
  abbrev pub IsFrom : List (Embedding Float) → Candidate Float → Type 0
  IsFrom rows c =
      (row : Embedding Float) × (other : List Float) × Memᴰ row rows
      × IsNear row other
      × (c ≡ candidate_of row other)

  abbrev pub IsNearer : Candidate Float → Candidate Float → Type 0
  IsNearer a b = leb_float a.distance b.distance ≡ true

  abbrev found_in : List (Embedding Float) → List (Candidate Float)
  found_in rows = candidates O cosine_distance threshold invoice_id vector rows

  candidates-IsFrom : (rows : List (Embedding Float)) → All (IsFrom rows) (found_in rows)
  unfolding candidates
  candidates-IsFrom [] = tt
  candidates-IsFrom (row ∷ rows) = by_vector row.vector refl (
      imply-All (IsFrom rows) (IsFrom (row ∷ rows))
        (λ c (r, o, m, near, e). (r, o, Memᴰ.tail m, near, e)) (found_in rows)
        (candidates-IsFrom rows))
    where
      by_tests :
          (other : List Float) (b c : Bool)
          → row.vector ≡ some other
          → (row.invoice_id == invoice_id) ≡ b
          → ltb_float O (cosine_distance other vector) limit ≡ c
          → All (IsFrom (row ∷ rows)) (found_in rows)
          → All
              (IsFrom (row ∷ rows))
              (if not b && c then candidate_of row other ∷ found_in rows else found_in rows)
      by_tests other true c v e k h = h
      by_tests other false false v e k h = h
      by_tests other false true v e k h =
          ((row, other, Memᴰ.head refl, ((λ same. absurd (ground arith)), v, k), refl), h)

      by_vector :
          (v : Option (List Float))
          → row.vector ≡ v
          → All (IsFrom (row ∷ rows)) (found_in rows)
          → All (IsFrom (row ∷ rows)) (elim v [
            | none ↦ found_in rows
            | some other ↦
                if not (row.invoice_id == invoice_id)
                  && ltb_float O (cosine_distance other vector) limit
                then candidate_of row other ∷ found_in rows
                else found_in rows
          ])
      by_vector none e h = h
      by_vector (some other) e h = by_tests other _ _ e refl refl h

  kept :
      {b c : Bool} {x : Candidate Float} {xs : List (Candidate Float)}
      → b ≡ false
      → c ≡ true
      → (if not b && c then x ∷ xs else xs) ≡ x ∷ xs
  kept p q = rw (p, q) refl

  different : {a b : ℕ} → a ≢ b → (a == b) ≡ false
  different n = ground arith

  here :
      (row : Embedding Float) (other : List Float) (rows : List (Embedding Float))
      → IsNear row other
      → found_in (row ∷ rows) ≡ candidate_of row other ∷ found_in rows
  unfolding candidates
  here row other rows (n, v, k) = rw (v, different n, k) refl

  there :
      (c : Candidate Float) (row : Embedding Float) (rows : List (Embedding Float))
      → Memᴰ c (found_in rows)
      → Memᴰ c (found_in (row ∷ rows))
  unfolding candidates
  there c row rows m = by_vector row.vector
    where
      by_test :
          (b : Bool) (x : Candidate Float) → Memᴰ c (if b then x ∷ found_in rows else found_in rows)
      by_test true x = Memᴰ.tail m
      by_test false x = m

      by_vector :
          (v : Option (List Float))
          → Memᴰ c (elim v [
            | none ↦ found_in rows
            | some other ↦
                if not (row.invoice_id == invoice_id)
                  && ltb_float O (cosine_distance other vector) limit
                then candidate_of row other ∷ found_in rows
                else found_in rows
          ])
      by_vector none = m
      by_vector (some other) = by_test _ _

  candidates-complete :
      (rows : List (Embedding Float)) (row : Embedding Float) (other : List Float)
      → Memᴰ row rows
      → IsNear row other
      → Memᴰ (candidate_of row other) (found_in rows)
  candidates-complete [] row other m h = absurd (Memᴰ.not-nil m)
  candidates-complete (x ∷ rows) row other (Memᴰ.head e) h =
      subst (λ (y : Embedding Float). Memᴰ (candidate_of row other) (found_in (y ∷ rows))) e
        (subst (λ (cs : List (Candidate Float)). Memᴰ (candidate_of row other) cs)
          (sym (here row other rows h)) (Memᴰ.head refl))
  candidates-complete (x ∷ rows) row other (Memᴰ.tail m) h =
      there (candidate_of row other) x rows (candidates-complete rows row other m h)

  IsNearer-total : (a b : Candidate Float) → leb_float a.distance b.distance ≡ false → IsNearer b a
  IsNearer-total a b h = elim (L.leb_total a.distance b.distance) [
    | inl k ↦ absurd (ground arith)
    | inr k ↦ k
  ]

  -- The candidates that the search returns.
  abbrev pub IsFound : List (Embedding Float) → List (Candidate Float) → Type 0
  IsFound rows found =
      (length found ≤ top_k)
      × Chained IsNearer found
      × All (IsFrom rows) found
      × ((row : Embedding Float) (other : List Float)
          → Memᴰ row rows
          → IsNear row other
          → Memᴰ (candidate_of row other) found
            ⊎ ((length found ≡ top_k) × All (λ c. IsNearer c (candidate_of row other)) found))

  first-IsFound :
      (rows : List (Embedding Float))
      → IsFound rows (take top_k (nearest_first O cosine_distance threshold (found_in rows)))
  unfolding nearest_first
  first-IsFound rows =
      let le = nearer O cosine_distance threshold in
      let sorted = sort_by-Chained le IsNearer-total (found_in rows) in
      (
        length-take-le top_k (sort_by le (found_in rows)),
        take-Chained IsNearer top_k (sort_by le (found_in rows)) sorted,
        take-All (IsFrom rows) top_k (sort_by le (found_in rows))
            (sort_by-All le (IsFrom rows) (found_in rows) (candidates-IsFrom rows)),
        λ row other m near.
            take-or_after IsNearer (λ a b c h k. L.leb_trans a.distance b.distance c.distance h k)
              top_k (candidate_of row other) (sort_by le (found_in rows)) sorted
              (sort_by-Memᴰ le (candidate_of row other) (found_in rows)
                (candidates-complete rows row other m near)),
      )

  -- The search succeeds on every vector of the dimension of the column. Its hits are those of at most
  -- five candidates, the nearest first. Each is a row of another invoice with an embedding, at the
  -- distance of this embedding from the vector, strictly below one minus the threshold; and a row of
  -- this kind that is not among them is at least as distant as each of the five that are.
  pub find_similar-IsFound :
      (rows : List (Embedding Float))
      → has_dim vector ≡ true
      → (found : List (Candidate Float)) × (find_similar O cosine_distance threshold invoice_id
            vector rows
          ≡ some (map (hit_of O cosine_distance threshold) found))
        × IsFound rows found
  unfolding find_similar
  find_similar-IsFound rows h = (
    take top_k (nearest_first O cosine_distance threshold (found_in rows)),
    rw h refl,
    first-IsFound rows,
  )
