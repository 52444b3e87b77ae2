-- ===== src/Ledger/Sequence.antt =====
-- The numbering of the entries of ledger/api.py.
use native.Mathlib.Nat.{add-zero}
use mathlib.Core.List.{append-nil}
use mathlib.Core.List.{Permᴰ}
use portfolio_project.Prelude.{
  sym, ◌<◌, false, All, leb, leb→le, le→leb, Strict, Pairwise, Chained, sort_by, sort_by-same,
  sort_of_Chained, keep-Permᴰ, ◌∙◌, ℕ, zero, suc, ◌+◌, ◌≡◌, refl, true, some, List, [], ◌∷◌, ◌++◌,
  arith, Bool-cases, inl, inr, keep, length, take, drop, if◌then◌else◌, ◌==◌,
}
use portfolio_project.Database.{Database, LedgerEntry}
use portfolio_project.Ledger.{
  LedgerAppend, of_run, max_seq, next_seq, row_of, append, seq_le, by_run,
}

module _ {F : Type 0} where
  -- The entries carry the numbers n + 1, n + 2, …
  abbrev pub Numbered : ℕ → List (LedgerEntry F) → Type 0
  Numbered n [] = Unit
  Numbered n (e ∷ es) = (e.seq ≡ n + 1) × Numbered (n + 1) es

  -- Every run of the ledger is numbered from 1.
  pub record IsSequenced (es : List (LedgerEntry F)) : Type 0 where
    pub at_run : (r : ℕ) → Numbered 0 (keep (of_run r) es)

  max_seq_lem :
      (r n : ℕ) (es : List (LedgerEntry F))
      → Numbered n (keep (of_run r) es)
      → max_seq r es
        ≡ (if length (keep (of_run r) es) == 0 then 0 else n + length (keep (of_run r) es))
  unfolding max_seq keep
  max_seq_lem r n [] h = refl
  max_seq_lem r n (e ∷ es) h = elim (Bool-cases (of_run r e)) [
    | inl t ↦
        rw (t, keep)
          (let h' : (e.seq ≡ n + 1) × Numbered (n + 1) (keep (of_run r) es) = rw (t, keep) at h in
            ground (arith, max_seq_lem r (n + 1) es h'.1, h'.0))
    | inr f ↦ rw (f, keep) (max_seq_lem r n es (rw (f, keep) at h))
  ]

  keep-append :
      (r : ℕ) (es : List (LedgerEntry F)) (e : LedgerEntry F)
      → keep (of_run r) (es ++ e ∷ []) ≡ keep (of_run r) es ++ (if of_run r e then e ∷ [] else [])
  unfolding keep
  keep-append r [] e = refl
  keep-append r (x ∷ es) e = ground (arith, keep-append r es e)

  Numbered-append :
      (n : ℕ) (es : List (LedgerEntry F)) (e : LedgerEntry F)
      → Numbered n es
      → e.seq ≡ n + length es + 1
      → Numbered n (es ++ e ∷ [])
  Numbered-append n [] e h q = (omega arith, tt)
  Numbered-append n (x ∷ es) e h q = (h.0, Numbered-append (n + 1) es e h.1 (omega arith))

  next_seq_lem :
      (r : ℕ) (es : List (LedgerEntry F))
      → Numbered 0 (keep (of_run r) es)
      → next_seq (some r) es ≡ length (keep (of_run r) es) + 1
  unfolding next_seq
  next_seq_lem r es h = ground (arith, max_seq_lem r 0 es h)

  of_run→some : (r : ℕ) (e : LedgerEntry F) → of_run r e ≡ true → e.run_id ≡ some r
  unfolding of_run
  of_run→some r e h = ground arith

  row_of-seq :
      (r : ℕ) (e : LedgerAppend F) (es : List (LedgerEntry F))
      → Numbered 0 (keep (of_run r) es)
      → of_run r (row_of e es) ≡ true
      → (row_of e es).seq ≡ 0 + length (keep (of_run r) es) + 1
  unfolding row_of
  row_of-seq r e es h t = rw (of_run→some r (row_of e es) t) (next_seq_lem r es h ∙ (omega arith))

  -- An append keeps the numbering of every run.
  pub append-IsSequenced :
      (e : LedgerAppend F) (db : Database F)
      → IsSequenced db.ledger
      → IsSequenced (append e db).ledger
  unfolding append
  append-IsSequenced e db h = record {
    at_run = λ r. rw keep-append (elim (Bool-cases (of_run r (row_of e db.ledger))) [
      | inl t ↦ rw t (
          Numbered-append 0 (keep (of_run r) db.ledger) (row_of e db.ledger) (h.at_run r)
            (row_of-seq r e db.ledger (h.at_run r) t))
      | inr f ↦ rw f (rw append-nil (h.at_run r))
    ]);
  }

  Numbered-drop :
      (n k : ℕ) (es : List (LedgerEntry F)) → Numbered n es → Numbered (n + k) (drop k es)
  Numbered-drop n zero es h = rw add-zero h
  Numbered-drop n (suc k) [] h = tt
  Numbered-drop n (suc k) (e ∷ es) h =
      let e' : n + suc k ≡ n + 1 + k = omega arith in rw e' (Numbered-drop (n + 1) k es h.1)

  Numbered-take : (n k : ℕ) (es : List (LedgerEntry F)) → Numbered n es → Numbered n (take k es)
  Numbered-take n zero es h = tt
  Numbered-take n (suc k) [] h = tt
  Numbered-take n (suc k) (e ∷ es) h = (h.0, Numbered-take (n + 1) k es h.1)

  Numbered-above : (n : ℕ) (es : List (LedgerEntry F)) → Numbered n es → All (λ e. n < e.seq) es
  Numbered-above n [] h = tt
  Numbered-above n (e ∷ es) (q, rest) = (omega arith, weaken es (Numbered-above (n + 1) es rest))
    where
      weaken : (xs : List (LedgerEntry F)) → All (λ e. n + 1 < e.seq) xs → All (λ e. n < e.seq) xs
      weaken [] h = tt
      weaken (x ∷ xs) (h, rest) = (omega arith, weaken xs rest)

  Numbered-Strict :
      (n : ℕ) (es : List (LedgerEntry F)) → Numbered n es → Pairwise (Strict seq_le) es
  unfolding seq_le
  Numbered-Strict n [] h = tt
  Numbered-Strict n (e ∷ es) (q, rest) =
      (apart es (Numbered-above (n + 1) es rest), Numbered-Strict (n + 1) es rest)
    where
      apart :
          (xs : List (LedgerEntry F))
          → All (λ x. n + 1 < x.seq) xs
          → All (Strict (λ (a b : LedgerEntry F). leb a.seq b.seq) e) xs
      apart [] h = tt
      apart (x ∷ xs) (h, rest) =
          ((λ u v. absurd (omega (arith, leb→le x.seq e.seq v))), apart xs rest)

  Numbered-Chained :
      (n : ℕ) (es : List (LedgerEntry F)) → Numbered n es → Chained (λ a b. seq_le a b ≡ true) es
  unfolding seq_le
  Numbered-Chained n [] h = tt
  Numbered-Chained n (a ∷ []) h = tt
  Numbered-Chained n (a ∷ b ∷ es) (p, (q, rest)) =
      (le→leb a.seq b.seq (omega arith), Numbered-Chained (n + 1) (b ∷ es) (q, rest))

  seq_le_total : (a b : LedgerEntry F) → seq_le a b ≡ false → seq_le b a ≡ true
  unfolding seq_le
  seq_le_total a b h = ground arith

  seq_le_trans : (a b c : LedgerEntry F) → seq_le a b ≡ true → seq_le b c ≡ true → seq_le a c ≡ true
  unfolding seq_le
  seq_le_trans a b c h k = ground arith

  -- However the table has stored the entries of a ledger whose runs are numbered from 1, a page of
  -- the reader has the entries of its run as they were appended, from its offset on, and they carry
  -- the numbers from there on without a gap.
  pub by_run_page :
      (r limit offset : ℕ) (db : Database F) (stored : List (LedgerEntry F))
      → IsSequenced db.ledger
      → Permᴰ db.ledger stored
      → (let page = by_run r limit offset (record db { ledger = stored }) in
          (page ≡ take limit (drop offset (keep (of_run r) db.ledger))) × Numbered offset page)
  unfolding by_run
  by_run_page r limit offset db stored h p =
      let run = keep (of_run r) db.ledger in
      let sorted : sort_by seq_le (keep (of_run r) stored) ≡ run =
        sym (
          sort_by-same seq_le seq_le_total seq_le_trans (keep-Permᴰ (of_run r) p)
            (Numbered-Strict 0 run (h.at_run r)))
        ∙ sort_of_Chained seq_le run (Numbered-Chained 0 run (h.at_run r)) in
      let start : 0 + offset ≡ offset = omega arith in
      rw sorted
        (refl, Numbered-take offset limit _ (rw start at (Numbered-drop 0 offset run (h.at_run r))))
