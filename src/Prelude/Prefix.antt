-- ===== src/Prelude/Prefix.antt =====
-- The first elements of a list, sorted or not.
use mathlib.Core.List.Memᴰ
use mathlib.Core.List.{Memᴰ, List, [], ◌∷◌}
use mathlib.Core.Path.{◌≡◌, refl, ap, sym, subst}
use Prim.Native.Nat.{ℕ, zero, suc, ◌≤◌}
use native.Mathlib.Omega.{arith}
use portfolio_project.Prelude.Lists.{All, take, length}
use mathlib.Core.Logic.{◌⊎◌, inl, inr}
use portfolio_project.Prelude.Related.{Chained}

module _ {ℓ κ} {A : Type ℓ} where
  pub take-All : (P : A → Type κ) (n : ℕ) (cs : List A) → All P cs → All P (take n cs)
  take-All P zero cs all = tt
  take-All P (suc n) [] all = tt
  take-All P (suc n) (c ∷ cs) (p, all) = (p, take-All P n cs all)

  pub take-Chained :
      (R : A → A → Type κ) (n : ℕ) (cs : List A) → Chained R cs → Chained R (take n cs)
  take-Chained R zero cs h = tt
  take-Chained R (suc n) [] h = tt
  take-Chained R (suc zero) (a ∷ cs) h = tt
  take-Chained R (suc (suc n)) (a ∷ []) h = tt
  take-Chained R (suc (suc n)) (a ∷ b ∷ cs) (r, h) = (r, take-Chained R (suc n) (b ∷ cs) h)

  pub imply-All : (P Q : A → Type κ) → ((a : A) → P a → Q a) → (xs : List A) → All P xs → All Q xs
  imply-All P Q f [] h = tt
  imply-All P Q f (x ∷ xs) (h, rest) = (f x h, imply-All P Q f xs rest)

pub length-take-le : {A : Type 0} (n : ℕ) (cs : List A) → length (take n cs) ≤ n
length-take-le zero cs = omega arith
length-take-le (suc n) [] = omega arith
length-take-le (suc n) (c ∷ cs) = omega (arith, length-take-le n cs)

-- In a sorted list, what is not among the first `n` comes after all of them.
module _ {A : Type 0} (R : A → A → Type 0) (transitive : (a b c : A) → R a b → R b c → R a c) where
  first_before : (c x : A) (xs : List A) → Chained R (x ∷ xs) → Memᴰ c xs → R x c
  first_before c x [] h m = absurd (Memᴰ.not-nil m)
  first_before c x (y ∷ xs) (r, h) (Memᴰ.head e) = subst (λ z. R x z) (sym e) r
  first_before c x (y ∷ xs) (r, h) (Memᴰ.tail m) = transitive x y c r (first_before c y xs h m)

  rest-Chained : (x : A) (xs : List A) → Chained R (x ∷ xs) → Chained R xs
  rest-Chained x [] h = tt
  rest-Chained x (y ∷ xs) (r, h) = h

  pub take-or_after :
      (n : ℕ) (c : A) (xs : List A)
      → Chained R xs
      → Memᴰ c xs
      → Memᴰ c (take n xs) ⊎ ((length (take n xs) ≡ n) × All (λ x. R x c) (take n xs))
  take-or_after zero c xs h m = inr (refl, tt)
  take-or_after (suc n) c [] h m = absurd (Memᴰ.not-nil m)
  take-or_after (suc n) c (x ∷ xs) h (Memᴰ.head e) = inl (Memᴰ.head e)
  take-or_after (suc n) c (x ∷ xs) h (Memᴰ.tail m) =
      elim (take-or_after n c xs (rest-Chained x xs h) m) [
        | inl k ↦ inl (Memᴰ.tail k)
        | inr k ↦ inr (ap (λ (j : ℕ). suc j) (k.0), (first_before c x xs h m, k.1))
      ]
