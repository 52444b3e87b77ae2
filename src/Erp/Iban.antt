-- ===== src/Erp/Iban.antt =====
-- The bank details that data/erp.py generates pass the check of tools/validation.py.
use portfolio_project.Prelude.{
  ℕ, zero, suc, ◌+◌, ◌-◌, ◌*◌, ◌/◌, ◌%◌, ◌≡◌, ◌∙◌, refl, ap, subst, Bool, true, false, ◌&&◌, Option,
  none, some, List, [], ◌∷◌, ◌++◌, map, keep, length, take, drop, codes, upper, without_blanks,
  is_digit, is_alpha, arith, length-append, get_codes, codes_eq, if◌then◌else◌, upper_code,
}
use mathlib.Core.List.{append-nil}
use portfolio_project.Validation.Iban.{
  mod97_step, mod97_from, iban_mod97, check_known_country, check_normalized, all_digits, is_digits,
}
use portfolio_project.Erp.{digits, mod97, iban_of}

all_digits-append :
    (s t : List ℕ) → all_digits s ≡ true → all_digits t ≡ true → all_digits (s ++ t) ≡ true
unfolding all_digits
all_digits-append [] t h k = k
all_digits-append (c ∷ s) t h k = ground (arith, all_digits-append s t)

last_digit : (n : ℕ) → is_digit (b'0' + n % 10) ≡ true
last_digit n = ground arith

all_digits-digits : (w n : ℕ) → all_digits (digits w n) ≡ true
unfolding digits
all_digits-digits zero n = unfold all_digits in refl
all_digits-digits (suc w) n =
    all_digits-append (digits w (n / 10)) _ (all_digits-digits w (n / 10)) (one n)
  where
    one : (n : ℕ) → all_digits ((b'0' + n % 10) ∷ []) ≡ true
    one n = unfold all_digits in rw (last_digit n) refl

length-digits : (w n : ℕ) → length (digits w n) ≡ w
unfolding digits
length-digits zero n = refl
length-digits (suc w) n =
    omega
      (arith, length-append (digits w (n / 10)) ((b'0' + n % 10) ∷ []), length-digits w (n / 10))

-- A text of digits is its own normal form.
upper-digits : (s : List ℕ) → all_digits s ≡ true → upper s ≡ s
unfolding all_digits upper
upper-digits [] h = refl
upper-digits (c ∷ s) h = ground (arith, upper-digits s)

without_blanks-digits : (s : List ℕ) → all_digits s ≡ true → without_blanks s ≡ s
unfolding all_digits without_blanks keep
without_blanks-digits [] h = refl
without_blanks-digits (c ∷ s) h = ground (arith, without_blanks-digits s)

-- On digits the two computations of the remainder agree, in front of any text.
mod97_from-digits :
    (s t : List ℕ) (r : ℕ) → all_digits s ≡ true → mod97_from r (s ++ t) ≡ mod97_from (mod97 r s) t
unfolding all_digits mod97_from mod97_step mod97
mod97_from-digits [] t r h = refl
mod97_from-digits (c ∷ s) t r h =
    by_test (is_digit c) (mod97_from-digits s t ((r * 10 + (c - b'0')) % 97)) h
  where
    by_test :
        (b : Bool)
        → (all_digits s ≡ true
            → mod97_from ((r * 10 + (c - b'0')) % 97) (s ++ t)
              ≡ mod97_from (mod97 ((r * 10 + (c - b'0')) % 97) s) t)
        → (b && all_digits s) ≡ true
        → (elim (if b
              then some ((r * 10 + (c - b'0')) % 97)
              else if is_alpha c
              then some ((r * 100 + (c - b'A' + 10)) % 97)
              else none)
            as (λ (o : Option ℕ). Option ℕ) [ none ↦ none | some r₁ ↦ mod97_from r₁ (s ++ t) ])
          ≡ mod97_from
              (mod97 (if b then (r * 10 + (c - b'0')) % 97 else (r * 100 + (c - b'A' + 10)) % 97) s)
              t
    by_test true f h = f h
    by_test false f h = absurd (ground arith)

mod97-append : (s t : List ℕ) (r : ℕ) → mod97 r (s ++ t) ≡ mod97 (mod97 r s) t
unfolding mod97
mod97-append [] t r = refl
mod97-append (c ∷ s) t r = mod97-append s t _

-- The two check digits make the remainder 1.
check_digits :
    (y : ℕ)
    → (let k = 98 - ((y % 97 * 10 + 0) % 97 * 10 + 0) % 97 in
        ((y % 97 * 10 + (k / 10) % 10) % 97 * 10 + k % 10) % 97 ≡ 1)
check_digits y = omega arith

one_digit :
    (r n : ℕ)
    → (if is_digit (b'0' + n % 10)
        then (r * 10 + (b'0' + n % 10 - b'0')) % 97
        else (r * 100 + (b'0' + n % 10 - b'A' + 10)) % 97)
      ≡ (r * 10 + n % 10) % 97
one_digit r n = ground arith

two_digits : (r k : ℕ) → mod97 r (digits 2 k) ≡ ((r * 10 + (k / 10) % 10) % 97 * 10 + k % 10) % 97
unfolding mod97 digits
two_digits r k = one_digit _ k ∙ ap (λ (x : ℕ). (x * 10 + k % 10) % 97) (one_digit r (k / 10))

-- The remainder of the country, as two letters.
country : ℕ → ℕ
country m = (m * 100 + 13) % 97 * 100 + 14

with_country :
    (m : ℕ) (s : List ℕ)
    → all_digits s ≡ true
    → mod97_from m (codes "DE" ++ s) ≡ some (mod97 (country m % 97) s)
unfolding country mod97_from mod97_step
with_country m s h =
    subst (λ (t : List ℕ). mod97_from (country m % 97) t ≡ some (mod97 (country m % 97) s))
      (append-nil s) (mod97_from-digits s [] (country m % 97) h)

-- The remainder of the account number, the country and two check digits.
rearranged :
    (bban : List ℕ)
    → all_digits bban ≡ true
    → (let k = 98 - mod97 0 (bban ++ codes "DE00") in
        mod97_from 0 (bban ++ (codes "DE" ++ digits 2 k)) ≡ some 1)
rearranged bban h =
    mod97_from-digits bban _ 0 h ∙ (rw (mod97-append bban (codes "DE00") 0) (ending (mod97 0 bban)))
  where
    ending :
        (m : ℕ)
        → (let k = 98 - mod97 m (codes "DE00") in mod97_from m (codes "DE" ++ digits 2 k) ≡ some 1)
    ending m =
        let k = 98 - mod97 m (codes "DE00") in
        with_country m (digits 2 k) (all_digits-digits 2 k)
        ∙ ap (λ (r : ℕ). some r)
            (two_digits (country m % 97) k ∙ (unfold mod97 country in check_digits (country m)))

is_two_digits : (k : ℕ) (s : List ℕ) → is_digits (take 2 (digits 2 k ++ s)) ≡ true
unfolding is_digits all_digits digits
is_two_digits k s = rw (last_digit (k / 10), last_digit k) refl

checked :
    (tail : List ℕ)
    → length tail ≡ 20
    → is_digits (take 2 tail) ≡ true
    → mod97_from 0 (drop 2 tail ++ (codes "DE" ++ take 2 tail)) ≡ some 1
    → check_normalized (codes "DE" ++ tail) ≡ none
unfolding check_normalized check_known_country iban_mod97 get_codes codes_eq
checked tail l d r = rw (l, d, r) refl

normal :
    (tail : List ℕ)
    → all_digits tail ≡ true
    → upper (without_blanks (codes "DE" ++ tail)) ≡ codes "DE" ++ tail
normal tail h =
    unfold upper without_blanks keep in
    ap (λ (t : List ℕ). codes "DE" ++ t)
      (ap (λ (t : List ℕ). map upper_code t) (without_blanks-digits tail h) ∙ upper-digits tail h)

-- What the check reads of a text after its two check digits.
parts :
    (k : ℕ) (bban : List ℕ)
    → (take 2 (digits 2 k ++ bban) ≡ digits 2 k) × (drop 2 (digits 2 k ++ bban) ≡ bban)
unfolding digits
parts k bban = (refl, refl)

with_bban :
    (bban : List ℕ)
    → all_digits bban ≡ true
    → length bban ≡ 18
    → (let k = 98 - mod97 0 (bban ++ codes "DE00") in
        check_normalized (upper (without_blanks (codes "DE" ++ (digits 2 k ++ bban)))) ≡ none)
with_bban bban ok l =
    let k = 98 - mod97 0 (bban ++ codes "DE00") in
    let (two, rest) = parts k bban in
    rw
      (normal (digits 2 k ++ bban) (all_digits-append (digits 2 k) bban (all_digits-digits 2 k) ok))
      (checked (digits 2 k ++ bban) (twenty k) (is_two_digits k bban)
        (rw (two, rest) (rearranged bban ok)))
  where
    twenty : (k : ℕ) → length (digits 2 k ++ bban) ≡ 20
    twenty k = omega (arith, l, length-append (digits 2 k) bban, length-digits 2 k)

-- The generated IBAN, whatever the two numbers are that it is made of, passes the check of the
-- validation: country and length are in the table, and the remainder is 1.
pub iban_of_valid :
    (bank account : ℕ) → check_normalized (upper (without_blanks (iban_of bank account))) ≡ none
unfolding iban_of
iban_of_valid bank account =
    with_bban (digits 8 bank ++ digits 10 account)
      (all_digits-append (digits 8 bank) _ (all_digits-digits 8 bank)
        (all_digits-digits 10 account))
      (eighteen bank account)
  where
    eighteen : (bank account : ℕ) → length (digits 8 bank ++ digits 10 account) ≡ 18
    eighteen bank account = omega (
      arith,
      length-append (digits 8 bank) (digits 10 account),
      length-digits 8 bank,
      length-digits 10 account,
    )
