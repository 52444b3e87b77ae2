-- ===== src/Prelude/Related.antt =====
-- Lists whose elements are related, each to the next or each to all that follow.
use mathlib.Core.List.Permᴰ
use mathlib.Core.List.{Permᴰ, List, [], ◌∷◌}
use mathlib.Core.Path.{refl, sym, subst}
use mathlib.Core.Bool.{Bool, true, false}
use portfolio_project.Prelude.Tests.{if◌then◌else◌}
use portfolio_project.Prelude.Lists.{All, keep}

-- Every element is related to all that follow it.
abbrev pub Pairwise {ℓ κ} : {A : Type ℓ} → (A → A → Type κ) → List A → Type (ℓ ⊔ κ)
Pairwise R [] = Unit
Pairwise R (x ∷ xs) = All (R x) xs × Pairwise R xs

-- Every element is related to the next.
abbrev pub Chained {ℓ κ} : {A : Type ℓ} → (A → A → Type κ) → List A → Type κ
Chained R [] = Unit
Chained R (a ∷ []) = Unit
Chained R (a ∷ b ∷ xs) = R a b × Chained R (b ∷ xs)

module _ {ℓ κ} {A : Type ℓ} where
  pub All-Permᴰ : (P : A → Type κ) {xs ys : List A} → Permᴰ xs ys → All P xs → All P ys
  All-Permᴰ P Permᴰ.nil h = tt
  All-Permᴰ P (Permᴰ.cons e p) (x, rest) = (subst P e x, All-Permᴰ P p rest)
  All-Permᴰ P (Permᴰ.swap e f) (x, (y, rest)) = (subst P f y, (subst P e x, rest))
  All-Permᴰ P (Permᴰ.trans p q) h = All-Permᴰ P q (All-Permᴰ P p h)

  pub All-keep : (P : A → Type κ) (p : A → Bool) (xs : List A) → All P xs → All P (keep p xs)
  unfolding keep
  All-keep P p [] h = tt
  All-keep P p (x ∷ xs) (h, rest) = by_test (p x) (All-keep P p xs rest)
    where
      by_test : (b : Bool) → All P (keep p xs) → All P (if b then x ∷ keep p xs else keep p xs)
      by_test true kept = (h, kept)
      by_test false kept = kept

  module _ (R : A → A → Type κ) where
    pub Pairwise-Permᴰ :
        ((a b : A) → R a b → R b a) → {xs ys : List A} → Permᴰ xs ys → Pairwise R xs → Pairwise R ys
    Pairwise-Permᴰ symmetric Permᴰ.nil h = tt
    Pairwise-Permᴰ symmetric (Permᴰ.cons {b} {l₂} e p) (first, rest) =
        (subst (λ c. All (R c) l₂) e (All-Permᴰ (R _) p first), Pairwise-Permᴰ symmetric p rest)
    Pairwise-Permᴰ symmetric (Permᴰ.swap {a} {b} {b'} {l} e f) ((r, first), (second, rest)) = (
      (
        subst (λ c. R c b') f (subst (λ c. R b c) e (symmetric a b r)),
        subst (λ c. All (R c) l) f second,
      ),
      (subst (λ c. All (R c) l) e first, rest),
    )
    Pairwise-Permᴰ symmetric (Permᴰ.trans p q) h =
        Pairwise-Permᴰ symmetric q (Pairwise-Permᴰ symmetric p h)

    pub Pairwise-keep : (p : A → Bool) (xs : List A) → Pairwise R xs → Pairwise R (keep p xs)
    unfolding keep
    Pairwise-keep p [] h = tt
    Pairwise-keep p (x ∷ xs) (first, rest) = by_test (p x) (Pairwise-keep p xs rest)
      where
        by_test :
            (b : Bool)
            → Pairwise R (keep p xs)
            → Pairwise R (if b then x ∷ keep p xs else keep p xs)
        by_test true kept = (All-keep (R x) p xs first, kept)
        by_test false kept = kept

module _ {ℓ κ μ} {A : Type ℓ} {R : A → A → Type κ} {S : A → A → Type μ}
    (f : (a b : A) → R a b → S a b) where
  All-weaken : (a : A) (xs : List A) → All (R a) xs → All (S a) xs
  All-weaken a [] h = tt
  All-weaken a (x ∷ xs) (r, rest) = (f a x r, All-weaken a xs rest)

  pub Chained-weaken : (xs : List A) → Chained R xs → Chained S xs
  Chained-weaken [] h = tt
  Chained-weaken (a ∷ []) h = tt
  Chained-weaken (a ∷ b ∷ xs) (r, h) = (f a b r, Chained-weaken (b ∷ xs) h)

  pub Pairwise-weaken : (xs : List A) → Pairwise R xs → Pairwise S xs
  Pairwise-weaken [] h = tt
  Pairwise-weaken (a ∷ xs) (first, rest) = (All-weaken a xs first, Pairwise-weaken xs rest)

module _ {ℓ} {A : Type ℓ} (p : A → Bool) where
  pub keep-Permᴰ : {xs ys : List A} → Permᴰ xs ys → Permᴰ (keep p xs) (keep p ys)
  unfolding keep
  keep-Permᴰ Permᴰ.nil = Permᴰ.nil
  keep-Permᴰ (Permᴰ.cons {a} {b} {l₁} {l₂} e π) =
      subst (λ c. Permᴰ (keep p (a ∷ l₁)) (keep p (c ∷ l₂))) e (by_test (p a) (keep-Permᴰ π))
    where
      by_test :
          (t : Bool)
          → Permᴰ (keep p l₁) (keep p l₂)
          → Permᴰ (if t then a ∷ keep p l₁ else keep p l₁) (if t then a ∷ keep p l₂ else keep p l₂)
      by_test true π = Permᴰ.cons refl π
      by_test false π = π
  keep-Permᴰ (Permᴰ.swap {a} {b} {a'} {b'} {l} e f) = rw (sym e, sym f) (by_tests (p a) (p b))
    where
      by_tests :
          (s t : Bool)
          → Permᴰ
              (if s
                then a ∷ (if t then b ∷ keep p l else keep p l)
                else (if t then b ∷ keep p l else keep p l))
              (if t
                then b ∷ (if s then a ∷ keep p l else keep p l)
                else (if s then a ∷ keep p l else keep p l))
      by_tests true true = Permᴰ.swap refl refl
      by_tests true false = Permᴰ.refl _
      by_tests false true = Permᴰ.refl _
      by_tests false false = Permᴰ.refl _
  keep-Permᴰ (Permᴰ.trans π ρ) = Permᴰ.trans (keep-Permᴰ π) (keep-Permᴰ ρ)
