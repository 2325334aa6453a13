-- ===== src/Ingest.antt =====
-- Process, process, uploadFile's loop and Redispatch of internal/services/ingest/ingest.go, with
-- AddPages and PagesByDocument of internal/store/documents.go.
--
-- What the file system, the object storage, the converter, the OCR service and the database answer in
-- one run is in the record Env. A call of the database that fails leaves the tables as they are. Before
-- each call of the database others, such as the OCR worker, may issue statements on the documents: Env
-- says which, and the instant of the call.
pub mod Settles
pub mod Dispatches
pub mod Files
pub mod Tests
use tax_deeds.Store.Machine.{run, Statement}
use tax_deeds.Extraction.Service.{unless_fault}
use tax_deeds.Store.Statements.{
  create, set_page_count, mark_failed, set_ocr_dispatched, update_status,
}
use tax_deeds.Store.{same_status, processing, uploaded, find, Document, Documents, Page}
use tax_deeds.Text.{codes, same, Text}
use tax_deeds.Failure.{message, ◌>>=◌, ok, plain, err, wrapped, Result, Failure}
use tax_deeds.Base.{
  any, ℕ, zero, suc, ◌+◌, ◌-◌, ◌*◌, ◌≤◌, ◌<◌, ◌≡◌, ◌≢◌, refl, sym, ap, ◌∙◌, ◌↔◌, ◌⊎◌, inl, inr,
  Bool, true, false, ◌&&◌, ◌||◌, not, Option, none, some, List, [], ◌∷◌, ◌++◌, map, arith, ltb, leb,
  ◌==◌, if◌then◌else◌, Bool-cases, All, length,
}

-- The calls of the database, or groups of them, in the order of the source; the last two are the calls
-- of MarkFailed in process and in Process.
pub data DatabaseCall : Type 0 where
  call_start call_read call_pages call_count call_stamp call_give_up call_fail : DatabaseCall

-- What comes before a call: the statements of others since the call before, and the instant.
pub record Pause : Type 0 where
  pub statements : List (ℕ × Statement)
  pub now : ℕ

pub record Env : Type 0 where
  pub status_fault : Option Failure  -- UpdateStatus
  pub read_fault : Option Failure  -- GetByID and PagesByDocument
  pub temp_fault : Option Failure  -- os.MkdirTemp
  pub fetch_fault : Option Failure  -- downloadTo
  pub convert : Result (List Text)  -- Convert: the paths of the page images
  pub upload_page : Text → Option Failure  -- uploadFile, by the object's name
  pub pages_fault : Option Failure  -- AddPages
  pub count_fault : Option Failure  -- SetPageCount
  pub send_job : List Text → Option Failure  -- DispatchOCRJob, by the objects
  pub stamp_fault : Option Failure  -- SetOCRDispatched
  pub fail_fault : Option Failure  -- MarkFailed
  pub pauses : DatabaseCall → Pause

pub record Tables : Type 0 where
  pub documents : Documents
  pub pages : List Page

abbrev pub is_page : Text → ℕ → Page → Bool
is_page id n p = same p.document_id id && p.page_number == n

-- One INSERT of AddPages, with ON CONFLICT DO NOTHING.
unfoldable pub add_page : Text → ℕ → Text → List Page → List Page
add_page id n object ps =
    if any (is_page id n) ps
    then ps
    else ps ++ record { document_id = id; page_number = n; gcs_object = object } ∷ []

-- AddPages, for the objects of the pages from the number `n` on.
unfoldable pub add_pages : Text → ℕ → List Text → List Page → List Page
unfolding add_page
add_pages id n [] ps = ps
add_pages id n (object ∷ objects) ps = add_pages id (n + 1) objects (add_page id n object ps)

unfoldable pub insert_page : Page → List Page → List Page
insert_page p [] = p ∷ []
insert_page p (q ∷ ps) =
    let rest = insert_page p ps in if leb p.page_number q.page_number then p ∷ q ∷ ps else q ∷ rest

-- PagesByDocument
unfoldable pub pages_by_document : Text → List Page → List Page
unfolding insert_page
pages_by_document id [] = []
pages_by_document id (p ∷ ps) =
    let rest = pages_by_document id ps in if same p.document_id id then insert_page p rest else rest

-- `if err := call; err != nil { return wrap(err) }` before the rest.
abbrev pub attempt :
    Option Failure
    → (Failure → Failure)
    → Option Failure × Tables
    → Tables
    → Option Failure × Tables
attempt none wrap next t = next
attempt (some e) wrap next t = (some (wrap e), t)

-- pageObject; `decimal4` is the format %04d.
abbrev pub page_object : (ℕ → Text) → Text → ℕ → Text
page_object decimal4 id n =
    codes "documents/" ++ id ++ codes "/pages/" ++ decimal4 n ++ codes ".png"

-- `max` is the limit of attempts that the statements of others were made with.
module _ (decimal decimal4 : ℕ → Text) (max : ℕ) (env : Env) (id : Text) where
  abbrev pub meanwhile : DatabaseCall → Tables → Tables
  meanwhile c t = record t { documents = run max (env.pauses c).statements t.documents }

  -- The loop over the page images; the result holds the names of the objects.
  unfoldable pub upload_pages : ℕ → List Text → Result (List Text)
  upload_pages n [] = ok []
  upload_pages n (path ∷ paths) =
      let rest = upload_pages (n + 1) paths in
      elim (env.upload_page (page_object decimal4 id n)) [
        | some e ↦ err (wrapped (codes "upload page " ++ decimal n) e)
        | none ↦ rest >>= (λ objects. ok (page_object decimal4 id n ∷ objects))
      ]

  unfoldable pub stamp : Tables → Option Failure × Tables
  stamp t =
      let t = meanwhile call_stamp t in
      let now = (env.pauses call_stamp).now in
      attempt env.stamp_fault (wrapped (codes "record ocr dispatch"))
        (none, record t { documents = set_ocr_dispatched now id t.documents }) t

  -- MarkFailed from `processing`, whose error is dropped.
  abbrev pub give_up : DatabaseCall → Text → Failure → Tables → Tables
  give_up c stage e t =
      let t = meanwhile c t in
      record t {
        documents =
            unless_fault env.fail_fault
              (mark_failed (env.pauses c).now id processing stage (message e) t.documents).1
              t.documents;
      }

  -- What follows DispatchOCRJob.
  unfoldable pub dispatched : Option Failure → Tables → Option Failure × Tables
  unfolding stamp
  dispatched none t = stamp t
  dispatched (some e) t = (none, give_up call_give_up (codes "ocr_dispatch") e t)

  unfoldable pub recorded : Result (List Text) → Tables → Option Failure × Tables
  unfolding dispatched
  recorded (err e) t = (some e, t)
  recorded (ok objects) t =
      let t = meanwhile call_pages t in
      let with_pages : Tables = record t { pages = add_pages id 1 objects t.pages } in
      let before_count = meanwhile call_count with_pages in
      let counted : Tables = record before_count {
        documents =
            set_page_count (env.pauses call_count).now id (length objects) before_count.documents;
      } in
      attempt env.pages_fault (wrapped (codes "record pages"))
        (attempt env.count_fault (wrapped (codes "record page count"))
          (dispatched (env.send_job objects) counted) before_count)
        t

  unfoldable pub converted : Result (List Text) → Tables → Option Failure × Tables
  unfolding recorded
  converted (err e) t = (some (wrapped (codes "convert pdf") e), t)
  converted (ok paths) t = recorded (upload_pages 1 paths) t

  unfoldable pub ingest_owned : Tables → Option Failure × Tables
  unfolding converted
  ingest_owned t =
      attempt env.temp_fault (λ e. e)
        (attempt env.fetch_fault (wrapped (codes "fetch pdf")) (converted env.convert t) t) t

  -- The document was not `uploaded`: a re-run goes on if it is in `processing`.
  unfoldable pub ingest_found : Option Document → Tables → Option Failure × Tables
  unfolding ingest_owned
  ingest_found none t = (some (plain (codes "not found")), t)
  ingest_found (some d) t = if same_status d.status processing then ingest_owned t else (none, t)

  unfoldable pub ingest_moved : Bool → Tables → Option Failure × Tables
  unfolding ingest_found
  ingest_moved true t = ingest_owned t
  ingest_moved false t =
      let t = meanwhile call_read t in
      attempt env.read_fault (λ e. e) (ingest_found (find id t.documents) t) t

  -- process
  unfoldable pub process_steps : Tables → Option Failure × Tables
  unfolding ingest_moved
  process_steps t =
      let t = meanwhile call_start t in
      let (moved, ds) =
        update_status (env.pauses call_start).now id uploaded processing t.documents in
      attempt env.status_fault (wrapped (codes "update status uploaded->processing"))
        (ingest_moved moved (record t { documents = ds })) t

  unfoldable pub record_failure : Option Failure × Tables → Tables
  record_failure (none, t) = t
  record_failure (some e, t) = give_up call_fail (codes "ingest") e t

  -- Process
  unfoldable pub process : Tables → Tables
  unfolding process_steps record_failure
  process t = record_failure (process_steps t)

  unfoldable pub redispatch_pages : List Page → Tables → Tables
  unfolding dispatched
  redispatch_pages [] t = t
  redispatch_pages (p ∷ ps) t = (dispatched (env.send_job (map (λ q. q.gcs_object) (p ∷ ps))) t).1

  abbrev pub redispatch_unless : Option Failure → Tables → Tables
  redispatch_unless (some e) t = t
  redispatch_unless none t = redispatch_pages (pages_by_document id t.pages) t

  -- Redispatch
  unfoldable pub redispatch : Tables → Tables
  unfolding redispatch_pages pages_by_document
  redispatch t = redispatch_unless env.read_fault t

abbrev pub pdf_object : Text → Text
pdf_object id = codes "documents/" ++ id ++ codes "/original.pdf"

abbrev pub created :
    Option Failure → Option Document × Documents → Documents → Result Document × Documents
created (some e) after before = (err (wrapped (codes "create document") e), before)
created none (none, ds) before =
    (err (wrapped (codes "create document") (plain (codes "duplicate key"))), before)
created none (some d, ds) before = (ok d, ds)

-- CreateAndProcess up to the point where Process is started, with the outcomes of the upload and of
-- the INSERT; `id` is the new identifier.
unfoldable pub create_and_process :
    ℕ
    → Text
    → Text
    → Text
    → Option Failure
    → Option Failure
    → Documents
    → Result Document × Documents
unfolding create
create_and_process now id filename bucket (some e) create_fault ds =
    (err (wrapped (codes "store original pdf") e), ds)
create_and_process now id filename bucket none create_fault ds =
    created create_fault (create now id filename bucket (pdf_object id) ds) ds
