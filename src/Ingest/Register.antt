-- ===== src/Ingest/Register.antt =====
-- What api/services/ingest.py promises its clients: a register of documents, each with the key it
-- was given first. Every upload takes a key, also where the document is known.
use portfolio_project.Prelude.{
  ℕ, ◌+◌, String, ◌≡◌, refl, sym, ap, ◌∙◌, Bool, true, false, Option, none, some, List, [], ◌∷◌,
  ◌++◌, str_eq, arith, Bool-cases, inl, inr, if◌then◌else◌, str_eq→eq,
}
use portfolio_project.Database.{Database, Invoice}
use portfolio_project.Ledger.{append}
use portfolio_project.Ingest.{
  Outside, Store, IngestReply, accepted, rejected, failed, find_hash, new_invoice, create_rows,
  record_duplicate, ingest_bytes,
}

-- The keys of the documents known by their hash, and the next key.
pub record Register : Type 0 where
  pub known : String → Option ℕ
  pub next : ℕ

-- The key and whether the document was known, or nothing where a new document is not stored. The
-- document is known afterwards in every case.
register_upload : (String → Bool) → String → Register → Option (ℕ × Bool) × Register
register_upload is_refused h r = elim (r.known h) [
  | some i ↦ (some (i, true), record r { next = r.next + 1 })
  | none ↦ (
    if is_refused h then none else some (r.next, false),
    record { known = λ k. if str_eq h k then some r.next else r.known k; next = r.next + 1 },
  )
]

pub register_all : (String → Bool) → List String → Register → List (Option (ℕ × Bool))
register_all is_refused [] r = []
register_all is_refused (h ∷ hs) r =
    let (reply, r₁) = register_upload is_refused h r in reply ∷ register_all is_refused hs r₁

reply_view : IngestReply → Option (ℕ × Bool)
reply_view (accepted a) = some (a.invoice_id, a.duplicate)
reply_view (rejected r) = none
reply_view failed = none

abbrev pub id_of : Option Invoice → Option ℕ
id_of none = none
id_of (some i) = some i.invoice_id

abbrev pub hashes : Outside → List (List ℕ) → List String
hashes out [] = []
hashes out (bytes ∷ rest) = out.sha256 bytes ∷ hashes out rest

-- A hash that was there keeps its invoice; an added invoice is found by its own.
find_id-snoc :
    (h : String) (is : List Invoice) (i : Invoice)
    → id_of (find_hash h is) ≡ none
    → id_of (find_hash h (is ++ i ∷ []))
      ≡ (if str_eq i.content_hash h then some i.invoice_id else none)
unfolding find_hash
find_id-snoc h [] i n = ground arith
find_id-snoc h (j ∷ js) i n = ground (arith, find_id-snoc h js i)

find_id-kept :
    (h : String) (is : List Invoice) (i : Invoice) (id : ℕ)
    → id_of (find_hash h is) ≡ some id
    → id_of (find_hash h (is ++ i ∷ [])) ≡ some id
unfolding find_hash
find_id-kept h [] i id n = absurd (ground arith)
find_id-kept h (j ∷ js) i id n = ground (arith, find_id-kept h js i id)

module _ {F : Type 0} (out : Outside) where
  -- The replies to one upload after the other.
  pub upload_all : List (List ℕ) → Database F → Store → List (Option (ℕ × Bool))
  upload_all [] db store = []
  upload_all (bytes ∷ rest) db store =
      let (reply, db₁, store₁) = ingest_bytes out bytes db store in
      reply_view reply ∷ upload_all rest db₁ store₁

  -- The register that the table stands for.
  unfoldable pub IsRegister : Database F → Register → Type 0
  IsRegister db r =
      ((h : String) → id_of (find_hash h db.invoices) ≡ r.known h) × (db.next_invoice ≡ r.next)

  added :
      (db : Database F) (r : Register) (hash key h : String)
      → IsRegister db r
      → find_hash hash db.invoices ≡ none
      → id_of (find_hash h (db.invoices ++ new_invoice db.next_invoice hash key ∷ []))
        ≡ (if str_eq hash h then some r.next else r.known h)
  unfolding IsRegister
  added db r hash key h (same, next) n =
      by_known (id_of (find_hash h db.invoices)) (str_eq hash h) refl refl
    where
      by_known :
          (o : Option ℕ) (b : Bool)
          → id_of (find_hash h db.invoices) ≡ o
          → str_eq hash h ≡ b
          → id_of (find_hash h (db.invoices ++ new_invoice db.next_invoice hash key ∷ []))
            ≡ (if b then some r.next else r.known h)
      by_known none true e t = rw (find_id-snoc h db.invoices _ e, t, next) refl
      by_known none false e t = rw (find_id-snoc h db.invoices _ e, t) (sym e ∙ same h)
      by_known (some id) false e t = find_id-kept h db.invoices _ id e ∙ (sym e ∙ same h)
      by_known (some id) true e t =
          let x : id_of (find_hash hash db.invoices) ≡ some id =
            ap (λ (k : String). id_of (find_hash k db.invoices)) (str_eq→eq hash h t) ∙ e in
          absurd (none_not_some (sym (ap (λ (o : Option Invoice). id_of o) n) ∙ x))
        where
          none_not_some : {a : ℕ} → none ≡ some a → ⊥
          none_not_some h = cc

  one_upload :
      (bytes : List ℕ) (db : Database F) (store : Store) (r : Register)
      → IsRegister db r
      → (reply_view (ingest_bytes out bytes db store).0
          ≡ (register_upload (λ h. out.put_fails (out.key_of h)) (out.sha256 bytes) r).0)
        × IsRegister
            (ingest_bytes out bytes db store).1
            (register_upload (λ h. out.put_fails (out.key_of h)) (out.sha256 bytes) r).1
  unfolding register_upload reply_view IsRegister ingest_bytes create_rows record_duplicate append
  one_upload bytes db store r (same, next) = by_hash (find_hash (out.sha256 bytes) db.invoices) refl
    where
      by_hash :
          (f : Option Invoice)
          → find_hash (out.sha256 bytes) db.invoices ≡ f
          → (reply_view (ingest_bytes out bytes db store).0
              ≡ (register_upload (λ h. out.put_fails (out.key_of h)) (out.sha256 bytes) r).0)
            × IsRegister
                (ingest_bytes out bytes db store).1
                (register_upload (λ h. out.put_fails (out.key_of h)) (out.sha256 bytes) r).1
      by_hash (some i) e =
          let k : r.known (out.sha256 bytes) ≡ some i.invoice_id =
            sym (same (out.sha256 bytes)) ∙ ap (λ (o : Option Invoice). id_of o) e in
          rw (ingest_bytes, e, register_upload, k) (refl, (same, ap (λ (n : ℕ). n + 1) next))
      by_hash none e =
          let k : r.known (out.sha256 bytes) ≡ none =
            sym (same (out.sha256 bytes)) ∙ ap (λ (o : Option Invoice). id_of o) e in
          elim (Bool-cases (out.put_fails (out.key_of (out.sha256 bytes)))) [
            | inl b ↦
                rw (ingest_bytes, e, register_upload, k, b)
                  (refl, ((λ h. added db r _ _ h (same, next) e), ap (λ (n : ℕ). n + 1) next))
            | inr b ↦
                rw (ingest_bytes, e, register_upload, k, b)
                  (
                    ap (λ (n : ℕ). some (n, false)) next,
                    ((λ h. added db r _ _ h (same, next) e), ap (λ (n : ℕ). n + 1) next),
                  )
          ]

-- Uploads of documents one after the other are answered as the register answers them: whatever the
-- tables hold at the start and whichever of the documents the store refuses, a document has the
-- key of its first upload from then on, and is new only once; every upload takes the next key,
-- which a duplicate leaves unused.
pub upload_all_refines :
    {F : Type 0} (out : Outside) (uploads : List (List ℕ)) (db : Database F) (store : Store)
    (r : Register)
    → IsRegister out db r
    → upload_all out uploads db store
      ≡ register_all (λ h. out.put_fails (out.key_of h)) (hashes out uploads) r
unfolding upload_all register_all
upload_all_refines out [] db store r h = refl
upload_all_refines out (bytes ∷ rest) db store r h =
    let (reply, kept) = one_upload out bytes db store r h in
    let result = ingest_bytes out bytes db store in
    rw (reply, upload_all_refines out rest (result.1) (result.2) _ kept) refl
