-- ===== src/Prelude/Sorting.antt =====
-- `ORDER BY`: a list sorted by a Boolean comparison.
use mathlib.Core.List.Perm
use mathlib.Core.List.Memᴰ
use mathlib.Core.List.{Perm, Permᴰ, Memᴰ, List, [], ◌∷◌}
use mathlib.Core.Path.{◌≡◌, refl, ap, ◌∙◌, sym}
use mathlib.Core.Bool.{Bool, true, false}
use Prim.Native.Nat.{ℕ, suc}
use native.Mathlib.Omega.{arith}
use portfolio_project.Prelude.Tests.{if◌then◌else◌}
use portfolio_project.Prelude.Lists.{All, length}
use portfolio_project.Prelude.Related.{Pairwise, Chained, Pairwise-Permᴰ}

module _ {ℓ} {A : Type ℓ} (le : A → A → Bool) where
  unfoldable pub insert_by : A → List A → List A
  insert_by a [] = a ∷ []
  insert_by a (x ∷ xs) = let rest = insert_by a xs in if le a x then a ∷ x ∷ xs else x ∷ rest

  unfoldable pub sort_by : List A → List A
  unfolding insert_by
  sort_by [] = []
  sort_by (a ∷ xs) = insert_by a (sort_by xs)

  insert_by-Perm : (a : A) (xs : List A) → Perm (insert_by a xs) (a ∷ xs)
  unfolding insert_by
  insert_by-Perm a [] = Perm.cons a Perm.nil
  insert_by-Perm a (x ∷ xs) =
      by_test (le a x) (Perm.trans (Perm.cons x (insert_by-Perm a xs)) (Perm.swap a x xs))
    where
      by_test :
          (b : Bool)
          → Perm (x ∷ insert_by a xs) (a ∷ x ∷ xs)
          → Perm (if b then a ∷ x ∷ xs else x ∷ insert_by a xs) (a ∷ x ∷ xs)
      by_test true p = Perm.refl (a ∷ x ∷ xs)
      by_test false p = p

  pub sort_by-Perm : (xs : List A) → Perm (sort_by xs) xs
  unfolding sort_by
  sort_by-Perm [] = Perm.nil
  sort_by-Perm (a ∷ xs) = Perm.trans (insert_by-Perm a (sort_by xs)) (Perm.cons a (sort_by-Perm xs))

  insert_by-All {κ} :
      (P : A → Type κ) (a : A) (xs : List A) → P a → All P xs → All P (insert_by a xs)
  unfolding insert_by
  insert_by-All P a [] p all = (p, tt)
  insert_by-All P a (x ∷ xs) p (q, all) = by_test (le a x) (insert_by-All P a xs p all)
    where
      by_test :
          (b : Bool) → All P (insert_by a xs) → All P (if b then a ∷ x ∷ xs else x ∷ insert_by a xs)
      by_test true rest = (p, (q, all))
      by_test false rest = (q, rest)

  pub sort_by-All {κ} : (P : A → Type κ) (xs : List A) → All P xs → All P (sort_by xs)
  unfolding sort_by
  sort_by-All P [] all = tt
  sort_by-All P (a ∷ xs) (p, all) = insert_by-All P a (sort_by xs) p (sort_by-All P xs all)

  insert_by-Memᴰ : (c a : A) (xs : List A) → Memᴰ c (a ∷ xs) → Memᴰ c (insert_by a xs)
  unfolding insert_by
  insert_by-Memᴰ c a [] h = h
  insert_by-Memᴰ c a (x ∷ xs) h = by_test (le a x) h (insert_by-Memᴰ c a xs)
    where
      by_test :
          (b : Bool)
          → Memᴰ c (a ∷ x ∷ xs)
          → (Memᴰ c (a ∷ xs) → Memᴰ c (insert_by a xs))
          → Memᴰ c (if b then a ∷ x ∷ xs else x ∷ insert_by a xs)
      by_test true h rest = h
      by_test false (Memᴰ.head e) rest = Memᴰ.tail (rest (Memᴰ.head e))
      by_test false (Memᴰ.tail (Memᴰ.head e)) rest = Memᴰ.head e
      by_test false (Memᴰ.tail (Memᴰ.tail m)) rest = Memᴰ.tail (rest (Memᴰ.tail m))

  pub sort_by-Memᴰ : (c : A) (xs : List A) → Memᴰ c xs → Memᴰ c (sort_by xs)
  unfolding sort_by
  sort_by-Memᴰ c [] m = absurd (Memᴰ.not-nil m)
  sort_by-Memᴰ c (a ∷ xs) (Memᴰ.head e) = insert_by-Memᴰ c a (sort_by xs) (Memᴰ.head e)
  sort_by-Memᴰ c (a ∷ xs) (Memᴰ.tail m) =
      insert_by-Memᴰ c a (sort_by xs) (Memᴰ.tail (sort_by-Memᴰ c xs m))

  length-insert_by : (a : A) (xs : List A) → length (insert_by a xs) ≡ suc (length xs)
  unfolding insert_by
  length-insert_by a [] = refl
  length-insert_by a (x ∷ xs) = ground (arith, length-insert_by a xs)

  pub length-sort_by : (xs : List A) → length (sort_by xs) ≡ length xs
  unfolding sort_by
  length-sort_by [] = refl
  length-sort_by (a ∷ xs) =
      length-insert_by a (sort_by xs) ∙ ap (λ (n : ℕ). suc n) (length-sort_by xs)

  abbrev Le : A → A → Type 0
  Le a b = le a b ≡ true

  module _ (total : (a b : A) → le a b ≡ false → le b a ≡ true) where
    insert_after :
        (a x : A) (xs : List A)
        → le x a ≡ true
        → Chained Le (x ∷ xs)
        → Chained Le (x ∷ insert_by a xs)
    unfolding insert_by
    insert_after a x [] h chained = (h, tt)
    insert_after a x (y ∷ xs) h (e, chained) =
        by_test (le a y) refl (λ t. insert_after a y xs (total a y t) chained)
      where
        by_test :
            (b : Bool)
            → le a y ≡ b
            → (le a y ≡ false → Chained Le (y ∷ insert_by a xs))
            → Chained Le (x ∷ (if b then a ∷ y ∷ xs else y ∷ insert_by a xs))
        by_test true t rest = (h, (t, chained))
        by_test false t rest = (e, rest t)

    insert_by-Chained : (a : A) (xs : List A) → Chained Le xs → Chained Le (insert_by a xs)
    unfolding insert_by
    insert_by-Chained a [] chained = tt
    insert_by-Chained a (x ∷ xs) chained = by_test (le a x) refl
      where
        by_test :
            (b : Bool) → le a x ≡ b → Chained Le (if b then a ∷ x ∷ xs else x ∷ insert_by a xs)
        by_test true t = (t, chained)
        by_test false t = insert_after a x xs (total a x t) chained

    pub sort_by-Chained : (xs : List A) → Chained Le (sort_by xs)
    unfolding sort_by
    sort_by-Chained [] = tt
    sort_by-Chained (a ∷ xs) = insert_by-Chained a (sort_by xs) (sort_by-Chained xs)

  pub sort_of_Chained : (xs : List A) → Chained Le xs → sort_by xs ≡ xs
  unfolding sort_by insert_by
  sort_of_Chained [] h = refl
  sort_of_Chained (a ∷ []) h = refl
  sort_of_Chained (a ∷ b ∷ xs) (r, h) = rw (sort_of_Chained (b ∷ xs) h, insert_by, r) refl

  -- Neither comes both before and after the other.
  abbrev pub Strict : A → A → Type 0
  Strict a b = le a b ≡ true → le b a ≡ true → ⊥

  module _ (total : (a b : A) → le a b ≡ false → le b a ≡ true)
      (transitive : (a b c : A) → le a b ≡ true → le b c ≡ true → le a c ≡ true) where
    insert_by_comm :
        (a b : A) (xs : List A)
        → Strict a b
        → insert_by a (insert_by b xs) ≡ insert_by b (insert_by a xs)
    unfolding insert_by
    insert_by_comm a b [] s = ground (arith, total a b)
    insert_by_comm a b (x ∷ xs) s =
        ground (arith, insert_by_comm a b xs s, total a b, transitive a b x, transitive b a x)

    -- A sorted list does not depend on the order in which its elements were given.
    pub sort_by-same : {xs ys : List A} → Permᴰ xs ys → Pairwise Strict xs → sort_by xs ≡ sort_by ys
    unfolding sort_by
    sort_by-same Permᴰ.nil h = refl
    sort_by-same (Permᴰ.cons e p) (first, rest) = rw (e, sort_by-same p rest) refl
    sort_by-same (Permᴰ.swap {a} {b} {a'} {b'} {l} e f) ((s, first), rest) =
        rw (sym e, sym f) (insert_by_comm a b (sort_by l) s)
    sort_by-same (Permᴰ.trans p q) h =
        sort_by-same p h ∙ sort_by-same q (Pairwise-Permᴰ Strict (λ a b s u v. s v u) p h)
