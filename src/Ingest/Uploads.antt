-- ===== src/Ingest/Uploads.antt =====
-- The reading of an upload by api/services/ingest.py.
use portfolio_project.Prelude.{
  ℕ, ◌+◌, ◌≤◌, ◌<◌, ◌≡◌, refl, sym, ap, ◌∙◌, true, false, List, [], ◌∷◌, ◌++◌, length, is_empty,
  arith, ltb, Bool-cases, inl, inr, length-append, if◌then◌else◌,
}
use portfolio_project.Ingest.{read_chunks, ReadResult, read, refused, empty_upload, too_large}

-- The chunks one after the other.
unfoldable pub joined : List (List ℕ) → List ℕ
joined [] = []
joined (c ∷ cs) = c ++ joined cs

append_nil : (xs : List ℕ) → xs ++ [] ≡ xs
append_nil [] = refl
append_nil (x ∷ xs) = ap (λ t. x ∷ t) (append_nil xs)

append_assoc : (xs ys zs : List ℕ) → (xs ++ ys) ++ zs ≡ xs ++ (ys ++ zs)
append_assoc [] ys zs = refl
append_assoc (x ∷ xs) ys zs = ap (λ t. x ∷ t) (append_assoc xs ys zs)

size_after :
    (size : ℕ) (bytes c : List ℕ) → size ≡ length bytes → size + length c ≡ length (bytes ++ c)
size_after size bytes c e = ground (arith, length-append bytes c)

prefix_length : (bytes c rest : List ℕ) → length bytes + length c ≤ length (bytes ++ (c ++ rest))
prefix_length bytes c rest = ground (arith, length-append bytes (c ++ rest), length-append c rest)

module _ (limit : ℕ) where
  fits :
      (size : ℕ) (bytes c rest : List ℕ)
      → size ≡ length bytes
      → length (bytes ++ (c ++ rest)) ≤ limit
      → ltb limit (size + length c) ≡ false
  fits size bytes c rest e h = ground (arith, prefix_length bytes c rest)

  small_from :
      (size : ℕ) (bytes : List ℕ) (cs : List (List ℕ))
      → size ≡ length bytes
      → length (bytes ++ joined cs) ≤ limit
      → is_empty (bytes ++ joined cs) ≡ false
      → read_chunks limit size bytes cs ≡ read (bytes ++ joined cs)
  unfolding read_chunks joined
  small_from size bytes [] e h n =
      let m = rw (append_nil bytes) at n in rw m (ap read (sym (append_nil bytes)))
  small_from size bytes (c ∷ cs) e h n =
      let flat = append_assoc bytes c (joined cs) in
      rw (fits size bytes c (joined cs) e h) (
        small_from (size + length c) (bytes ++ c) cs (size_after size bytes c e) (rw flat h)
          (rw flat n)
        ∙ ap read flat)

  empty_from :
      (size : ℕ) (bytes : List ℕ) (cs : List (List ℕ))
      → size ≡ length bytes
      → length (bytes ++ joined cs) ≤ limit
      → is_empty (bytes ++ joined cs) ≡ true
      → read_chunks limit size bytes cs ≡ refused empty_upload
  unfolding read_chunks joined
  empty_from size bytes [] e h n = let m = rw (append_nil bytes) at n in rw m refl
  empty_from size bytes (c ∷ cs) e h n =
      let flat = append_assoc bytes c (joined cs) in
      rw (fits size bytes c (joined cs) e h) (
        empty_from (size + length c) (bytes ++ c) cs (size_after size bytes c e) (rw flat h)
          (rw flat n))

  large_from :
      (size : ℕ) (bytes : List ℕ) (cs : List (List ℕ))
      → size ≡ length bytes
      → size ≤ limit
      → limit < length (bytes ++ joined cs)
      → read_chunks limit size bytes cs ≡ refused too_large
  unfolding read_chunks joined
  large_from size bytes [] e s h = let m = rw (append_nil bytes) at h in absurd (ground arith)
  large_from size bytes (c ∷ cs) e s h = elim (Bool-cases (ltb limit (size + length c))) [
    | inl b ↦ rw b refl
    | inr b ↦ rw b (
        large_from (size + length c) (bytes ++ c) cs (size_after size bytes c e) (ground arith)
          (rw (append_assoc bytes c (joined cs)) h))
  ]

-- The upload judged as a whole, by its size.
unfoldable pub judge_whole : ℕ → List ℕ → ReadResult
judge_whole limit bytes =
    if ltb limit (length bytes)
    then refused too_large
    else if is_empty bytes
    then refused empty_upload
    else read bytes

-- Reading chunk by chunk judges the upload as if it were read at once: it is too large if all of it
-- is longer than the limit, empty if there is nothing, and read whole otherwise. How the framework
-- cuts it into chunks makes no difference.
pub read_chunks-whole :
    (limit : ℕ) (cs : List (List ℕ)) → read_chunks limit 0 [] cs ≡ judge_whole limit (joined cs)
unfolding judge_whole
read_chunks-whole limit cs = elim (Bool-cases (ltb limit (length (joined cs)))) [
  | inl b ↦ rw b (large_from limit 0 [] cs refl (omega arith) (ground arith))
  | inr b ↦ elim (Bool-cases (is_empty (joined cs))) [
    | inl n ↦ rw (b, n) (empty_from limit 0 [] cs refl (ground arith) n)
    | inr n ↦ rw (b, n) (small_from limit 0 [] cs refl (ground arith) n)
  ]
]
