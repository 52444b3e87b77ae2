-- ===== src/Prelude/Text.antt =====
-- Texts as their code points, and the string methods that the program calls, over ASCII.
use Prim.Native.Nat.{ℕ, ◌-◌, ◌+◌}
use Prim.Native.String.{String}
use Prim.Native.Char.{code}
use mathlib.Core.Path.{◌≡◌, refl}
use mathlib.Core.Bool.{Bool, true, false, not, ◌&&◌, ◌||◌}
use mathlib.Core.Option.{Option, none, some}
use mathlib.Core.List.{List, [], ◌∷◌, ◌++◌, map}
use native.Mathlib.Omega.{arith}
use portfolio_project.Prelude.Tests.{leb, ◌==◌, if◌then◌else◌}
use portfolio_project.Prelude.Lists.{keep, is_empty}

abbrev pub codes : String → List ℕ
codes String.[] = []
codes (String.◌∷◌ c s) = code c ∷ codes s

abbrev pub is_lower : ℕ → Bool
is_lower c = leb b'a' c && leb c b'z'

abbrev pub is_upper : ℕ → Bool
is_upper c = leb b'A' c && leb c b'Z'

abbrev pub is_digit : ℕ → Bool
is_digit c = leb b'0' c && leb c b'9'

-- `str.isalpha` of one character.
abbrev pub is_alpha : ℕ → Bool
is_alpha c = is_upper c || is_lower c

abbrev pub upper_code : ℕ → ℕ
upper_code c = if is_lower c then c - 32 else c

-- `str.upper`.
unfoldable pub upper : List ℕ → List ℕ
upper = map upper_code

abbrev pub lower_code : ℕ → ℕ
lower_code c = if is_upper c then c + 32 else c

-- `str.casefold`, which is `str.lower` on ASCII.
unfoldable pub casefold : List ℕ → List ℕ
casefold = map lower_code

-- `s.replace(" ", "")`.
unfoldable pub without_blanks : List ℕ → List ℕ
unfolding keep
without_blanks = keep (λ c. if c == b' ' then false else true)

-- `==` of two texts by their code points.
unfoldable pub codes_eq : List ℕ → List ℕ → Bool
codes_eq [] [] = true
codes_eq [] (_ ∷ _) = false
codes_eq (_ ∷ _) [] = false
codes_eq (a ∷ s) (b ∷ t) = a == b && codes_eq s t

pub codes_eq_refl : (s : List ℕ) → codes_eq s s ≡ true
unfolding codes_eq
codes_eq_refl [] = refl
codes_eq_refl (a ∷ s) = ground (arith, codes_eq_refl s)

pub codes_eq→eq : (s t : List ℕ) → codes_eq s t ≡ true → s ≡ t
unfolding codes_eq
codes_eq→eq [] [] h = refl
codes_eq→eq [] (b ∷ t) h = ground arith
codes_eq→eq (a ∷ s) [] h = ground arith
codes_eq→eq (a ∷ s) (b ∷ t) h = ground (arith, codes_eq→eq s t)

abbrev pub is_space : ℕ → Bool
is_space c = (leb 9 c && leb c 13) || (leb 28 c && leb c 32)

-- `str.split()`: the runs of characters between blanks; `run` is the run that is being read.
unfoldable pub words_from : List ℕ → List ℕ → List (List ℕ)
words_from run [] = if is_empty run then [] else run ∷ []
words_from run (c ∷ cs) =
    let rest = words_from (if is_space c then [] else run ++ c ∷ []) cs in
    if is_space c && not (is_empty run) then run ∷ rest else rest

-- `" ".join(words)`.
unfoldable pub join_words : List (List ℕ) → List ℕ
join_words [] = []
join_words (w ∷ []) = w
join_words (w ∷ v ∷ ws) = w ++ (b' ' ∷ join_words (v ∷ ws))

-- `" ".join(s.casefold().split())`.
unfoldable pub collapse : List ℕ → List ℕ
unfolding casefold words_from join_words
collapse s = join_words (words_from [] (casefold s))

-- `dict.get` of a table whose keys are texts, by the code points of the key.
unfoldable pub get_codes {ℓ} : {V : Type ℓ} → List ℕ → List (String × V) → Option V
unfolding codes_eq
get_codes k [] = none
get_codes k ((j, v) ∷ m) = if codes_eq (codes j) k then some v else get_codes k m

-- `key in names`, for the code points of a key.
unfoldable pub codes_in : List ℕ → List String → Bool
unfolding codes_eq
codes_in k [] = false
codes_in k (j ∷ js) = codes_eq (codes j) k || codes_in k js

unfoldable pub starts_with : List ℕ → List ℕ → Bool
starts_with [] s = true
starts_with (p ∷ ps) [] = false
starts_with (p ∷ ps) (c ∷ cs) = p == c && starts_with ps cs
