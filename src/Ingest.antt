-- ===== src/Ingest.antt =====
-- api/services/ingest.py: an upload is hashed, its rows are written, and its bytes are stored. The
-- hash function and the object store are parameters.
pub mod Uploads
pub mod Stored
pub mod Register
use portfolio_project.Prelude.{
  ℕ, ◌+◌, String, Bool, true, false, not, Option, none, some, List, [], ◌∷◌, ◌++◌, length, is_empty,
  any, str_eq, ltb, if◌then◌else◌,
}
use portfolio_project.Database.{
  Database, Invoice, Run, system, ingest_accepted, ingest_duplicate, Event,
}
use portfolio_project.Ledger.{LedgerAppend, append}

pub record Settings : Type 0 where
  pub allowed_content_types : List String
  pub max_upload_bytes : ℕ

-- What the framework hands over: the declared type, and the chunks that `read` gives, the last of
-- them before the empty one.
pub record Upload : Type 0 where
  pub content_type : Option String
  pub chunks : List (List ℕ)

-- The outside world of the service: SHA-256 and the store. `put` may fail.
pub record Outside : Type 0 where
  pub sha256 : List ℕ → String
  -- `f"raw/{content_hash}"`.
  pub key_of : String → String
  pub put_fails : String → Bool

-- The objects in the store, by key.
abbrev pub Store : Type 0
Store = List (String × List ℕ)

pub data Refusal : Type 0 where
  unsupported_type too_large empty_upload : Refusal

pub data ReadResult : Type 0 where
  read : List ℕ → ReadResult
  refused : Refusal → ReadResult

pub record Accepted : Type 0 where
  pub invoice_id : ℕ
  pub run_id : ℕ
  pub content_hash : String
  pub duplicate : Bool

-- How a call ends; `failed` is an exception of the store or of the database.
pub data IngestReply : Type 0 where
  accepted : Accepted → IngestReply
  rejected : Refusal → IngestReply
  failed : IngestReply

-- The loop over the chunks, with the size read so far.
unfoldable pub read_chunks : ℕ → ℕ → List ℕ → List (List ℕ) → ReadResult
read_chunks limit size bytes [] = if is_empty bytes then refused empty_upload else read bytes
read_chunks limit size bytes (c ∷ cs) =
    let rest = read_chunks limit (size + length c) (bytes ++ c) cs in
    if ltb limit (size + length c) then refused too_large else rest

unfoldable type_allowed : Option String → List String → Bool
unfolding any
type_allowed none allowed = false
type_allowed (some t) allowed = any (str_eq t) allowed

unfoldable pub read_and_hash : Settings → Upload → ReadResult
unfolding read_chunks type_allowed
read_and_hash settings upload =
    if type_allowed upload.content_type settings.allowed_content_types
    then read_chunks settings.max_upload_bytes 0 [] upload.chunks
    else refused unsupported_type

-- `_find_existing`.
unfoldable pub find_hash : String → List Invoice → Option Invoice
find_hash h [] = none
find_hash h (i ∷ is) = if str_eq i.content_hash h then some i else find_hash h is

abbrev pub new_invoice : ℕ → String → String → Invoice
new_invoice id h key = record {
  invoice_id = id;
  content_hash = h;
  doc_ref = some key;
  status = "RECEIVED";
  invoice_number = none;
  currency = none;
  amount_total = none;
  issue_date = none;
  po_id = none;
  vendor_id = none;
}

module _ {F : Type 0} where
  abbrev new_run : ℕ → ℕ → String → Option String → Run F
  new_run id invoice_id status route = record {
    run_id = id;
    invoice_id = invoice_id;
    status = status;
    route = route;
    confidence = none;
    finished_at = none;
  }

  abbrev note : Event F → ℕ → ℕ → LedgerAppend F
  note event run_id invoice_id = record {
    actor_type = system;
    actor_id = "ingest";
    event = event;
    run_id = some run_id;
    invoice_id = some invoice_id;
    prompt_version = none;
    policy_version = none;
  }

  -- `_create_rows` and `_append_accept_ledger`, where the hash is new.
  unfoldable pub create_rows : String → String → Database F → Database F
  unfolding append
  create_rows h key db =
      append (note (ingest_accepted h (some key)) db.next_run db.next_invoice) (record db {
        invoices = db.invoices ++ new_invoice db.next_invoice h key ∷ [];
        next_invoice = db.next_invoice + 1;
        runs = db.runs ++ new_run db.next_run db.next_invoice "QUEUED" none ∷ [];
        next_run = db.next_run + 1;
      })

  unfoldable pub record_duplicate : Invoice → String → Database F → Database F
  unfolding append
  record_duplicate existing h db =
      append (note (ingest_duplicate h existing.invoice_id) db.next_run existing.invoice_id)
        (record db {
          runs = db.runs ++ new_run db.next_run existing.invoice_id "REJECTED" (some "REJECT") ∷ [];
          next_run = db.next_run + 1;
        })

  -- The unique constraint on `content_hash` decides between the two paths: the refused insertion
  -- of the first path is rolled back, but has taken its key from the sequence.
  unfoldable pub ingest_bytes :
      Outside → List ℕ → Database F → Store → IngestReply × Database F × Store
  unfolding find_hash create_rows record_duplicate
  ingest_bytes out bytes db store =
      let h = out.sha256 bytes in
      elim (find_hash h db.invoices) [
        | some existing ↦ (
          accepted (record {
            invoice_id = existing.invoice_id;
            run_id = db.next_run;
            content_hash = h;
            duplicate = true;
          }),
          record_duplicate existing h (record db { next_invoice = db.next_invoice + 1 }),
          store,
        )
        | none ↦
            if out.put_fails (out.key_of h)
            then (failed, create_rows h (out.key_of h) db, store)
            else (
              accepted (record {
                invoice_id = db.next_invoice;
                run_id = db.next_run;
                content_hash = h;
                duplicate = false;
              }),
              create_rows h (out.key_of h) db,
              (out.key_of h, bytes) ∷ store,
            )
      ]

  unfoldable pub ingest :
      Settings → Outside → Upload → Database F → Store → IngestReply × Database F × Store
  unfolding read_and_hash ingest_bytes
  ingest settings out upload db store = elim (read_and_hash settings upload) [
    | refused r ↦ (rejected r, db, store)
    | read bytes ↦ ingest_bytes out bytes db store
  ]
