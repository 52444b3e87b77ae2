-- ===== src/Ingest/Stored.antt =====
-- Duplicates and lost uploads of api/services/ingest.py.
use portfolio_project.Prelude.{
  ℕ, String, ◌≡◌, refl, true, false, Option, none, some, List, [], ◌∷◌, ◌++◌, str_eq, arith,
  eq_refl, eq_iff, Bool-cases, inl, inr,
}
use portfolio_project.Database.{Database, Invoice}
use portfolio_project.Ledger.{append}
use portfolio_project.Ingest.{
  Outside, Store, accepted, failed, find_hash, create_rows, record_duplicate, ingest_bytes,
}

-- No two invoices have the same hash, which the table's constraint asks for.
unfoldable pub IsUnique : List Invoice → Type 0
IsUnique [] = Unit
IsUnique (i ∷ is) = (find_hash i.content_hash is ≡ none) × IsUnique is

str_eq_sym : (a b : String) → str_eq a b ≡ false → str_eq b a ≡ false
str_eq_sym a b h = ground (arith, eq_iff a b, eq_iff b a)

pub find_hash-here :
    (h : String) (is : List Invoice) (i : Invoice)
    → find_hash h is ≡ none
    → str_eq i.content_hash h ≡ true
    → find_hash h (is ++ i ∷ []) ≡ some i
unfolding find_hash
find_hash-here h [] i n e = rw e refl
find_hash-here h (j ∷ js) i n e = ground (arith, find_hash-here h js i)

pub find_hash-else :
    (h : String) (is : List Invoice) (i : Invoice)
    → find_hash h is ≡ none
    → str_eq i.content_hash h ≡ false
    → find_hash h (is ++ i ∷ []) ≡ none
unfolding find_hash
find_hash-else h [] i n e = rw e refl
find_hash-else h (j ∷ js) i n e = ground (arith, find_hash-else h js i)

IsUnique-snoc :
    (is : List Invoice) (i : Invoice)
    → IsUnique is
    → find_hash i.content_hash is ≡ none
    → IsUnique (is ++ i ∷ [])
unfolding IsUnique find_hash
IsUnique-snoc [] i u n = (refl, tt)
IsUnique-snoc (j ∷ js) i u n = elim (Bool-cases (str_eq j.content_hash i.content_hash)) [
  | inl b ↦ absurd (some_not_none (rw b at n))
  | inr b ↦ (
    find_hash-else j.content_hash js i u.0 (str_eq_sym j.content_hash i.content_hash b),
    IsUnique-snoc js i u.1 (rw b at n),
  )
]
  where
    some_not_none : {A : Type 0} {a : A} → some a ≡ none → ⊥
    some_not_none h = cc

module _ {F : Type 0} (out : Outside) (bytes : List ℕ) (db : Database F) (store : Store) where
  -- An upload keeps the hashes of the invoices distinct, whatever becomes of it.
  pub ingest_bytes-IsUnique :
      IsUnique db.invoices → IsUnique (ingest_bytes out bytes db store).1.invoices
  unfolding ingest_bytes create_rows record_duplicate append IsUnique
  ingest_bytes-IsUnique u = by_hash (find_hash (out.sha256 bytes) db.invoices) refl
    where
      by_hash :
          (r : Option Invoice)
          → find_hash (out.sha256 bytes) db.invoices ≡ r
          → IsUnique (ingest_bytes out bytes db store).1.invoices
      by_hash (some i) e = rw (ingest_bytes, e) u
      by_hash none e = elim (Bool-cases (out.put_fails (out.key_of (out.sha256 bytes)))) [
        | inl b ↦ rw (ingest_bytes, e, b) (IsUnique-snoc db.invoices _ u e)
        | inr b ↦ rw (ingest_bytes, e, b) (IsUnique-snoc db.invoices _ u e)
      ]

-- Uploading the bytes of an invoice that is there already changes no invoice and stores nothing,
-- whether the store works or not; the reply names the invoice that is there.
pub ingest_bytes-again :
    {F : Type 0} (out : Outside) (bytes : List ℕ) (db : Database F) (store : Store) (i : Invoice)
    → find_hash (out.sha256 bytes) db.invoices ≡ some i
    → ((ingest_bytes out bytes db store).0
        ≡ accepted (record {
          invoice_id = i.invoice_id;
          run_id = db.next_run;
          content_hash = out.sha256 bytes;
          duplicate = true;
        }))
      × ((ingest_bytes out bytes db store).1.invoices ≡ db.invoices)
      × ((ingest_bytes out bytes db store).2 ≡ store)
unfolding ingest_bytes record_duplicate append
ingest_bytes-again out bytes db store i e = rw (ingest_bytes, e) (refl, refl, refl)

failed_upload :
    {F : Type 0} (out : Outside) (bytes : List ℕ) (db : Database F) (store : Store)
    → find_hash (out.sha256 bytes) db.invoices ≡ none
    → out.put_fails (out.key_of (out.sha256 bytes)) ≡ true
    → ((ingest_bytes out bytes db store).0 ≡ failed)
      × ((ingest_bytes out bytes db store).1
          ≡ create_rows (out.sha256 bytes) (out.key_of (out.sha256 bytes)) db)
unfolding ingest_bytes
failed_upload out bytes db store n broken = rw (ingest_bytes, n, broken) (refl, refl)

hash_recorded :
    {F : Type 0} (h key : String) (db : Database F)
    → find_hash h db.invoices ≡ none
    → (i : Invoice) × (find_hash h (create_rows h key db).invoices ≡ some i)
unfolding create_rows append
hash_recorded h key db n = (_, find_hash-here h db.invoices _ n (eq_refl h))

-- After the upload of a new document whose storing fails, the document is taken for a duplicate for
-- good: no later upload of it, with a store that works, stores it.
pub ingest_bytes-lost :
    {F : Type 0} (out repaired : Outside) (bytes : List ℕ) (db : Database F) (store later : Store)
    → find_hash (out.sha256 bytes) db.invoices ≡ none
    → out.put_fails (out.key_of (out.sha256 bytes)) ≡ true
    → repaired.sha256 bytes ≡ out.sha256 bytes
    → ((ingest_bytes out bytes db store).0 ≡ failed)
      × ((ingest_bytes repaired bytes (ingest_bytes out bytes db store).1 later).2 ≡ later)
ingest_bytes-lost out repaired bytes db store later n broken same =
    let (failure, rows) = failed_upload out bytes db store n broken in
    let (i, found) = hash_recorded (out.sha256 bytes) (out.key_of (out.sha256 bytes)) db n in
    let again =
      ingest_bytes-again repaired bytes
        (create_rows (out.sha256 bytes) (out.key_of (out.sha256 bytes)) db) later i
        (rw same found) in
    (failure, rw rows (again.2))
