-- ===== src/Ingest/Tests.antt =====
-- The theorems on the ingest pipeline at one uploaded document of two pages.
use tax_deeds.Ingest.Dispatches.{process_dispatches, AllWork, IsDispatched}
use tax_deeds.Store.Machine.{finish_ocr}
use tax_deeds.Store.Find.{IsKeyed}
use tax_deeds.Store.Statements.{new_document}
use tax_deeds.Failure.{ok}
use tax_deeds.Text.{same, codes, Text}
use tax_deeds.Store.{find, Document}
use tax_deeds.Ingest.{call_stamp, Pause, DatabaseCall, process, Tables, Env}
use tax_deeds.Ingest.Settles.{process_settles, Phase, HasMovedOn}
use tax_deeds.Base.{inl, List, ℕ, ◌+◌, ◌≡◌, refl, none, some, [], ◌∷◌}

abbrev digits : ℕ → Text
digits n = (b'0' + n) ∷ []

-- The OCR service is done before the dispatch is recorded.
abbrev fast_worker : DatabaseCall → Pause
fast_worker call_stamp = record { statements = (8, finish_ocr (codes "a")) ∷ []; now = 9 }
fast_worker c = record { statements = []; now = 7 }

abbrev two_pages : Env
two_pages = record {
  status_fault = none;
  read_fault = none;
  temp_fault = none;
  fetch_fault = none;
  convert = ok (codes "1" ∷ codes "2" ∷ []);
  upload_page = λ object. none;
  pages_fault = none;
  count_fault = none;
  send_job = λ objects. none;
  stamp_fault = none;
  fail_fault = none;
  pauses = fast_worker;
}

abbrev fresh : Document
fresh = new_document 1 (codes "a") (codes "a.pdf") (codes "b") (codes "o")

abbrev uploads : Tables
uploads = record { documents = fresh ∷ []; pages = [] }

found_fresh : find (codes "a") uploads.documents ≡ some fresh
unfolding find same
found_fresh = refl

uploads-IsKeyed : IsKeyed uploads.documents
unfolding find
uploads-IsKeyed = (refl, tt)

process_settles_example :
    Phase (codes "a") HasMovedOn (process digits digits 3 two_pages (codes "a") uploads).documents
process_settles_example =
    process_settles digits digits 3 two_pages (codes "a") refl refl uploads fresh uploads-IsKeyed
      found_fresh

abbrev alone : Env
alone = record two_pages { pauses = λ c. record { statements = []; now = 7 } }

abbrev two_paths : List Text
two_paths = codes "1" ∷ codes "2" ∷ []

alone-AllWork : AllWork alone two_paths
alone-AllWork = record {
  status_works = refl;
  read_works = refl;
  temp_works = refl;
  fetch_works = refl;
  converts = refl;
  uploads = λ object. refl;
  pages_work = refl;
  count_works = refl;
  sends = λ objects. refl;
  stamp_works = refl;
  quiet = λ c. refl;
}

process_dispatches_example :
    Phase
      (codes "a")
      (IsDispatched digits digits 3 alone (codes "a") two_paths alone-AllWork)
      (process digits digits 3 alone (codes "a") uploads).documents
process_dispatches_example =
    process_dispatches digits digits 3 alone (codes "a") two_paths alone-AllWork uploads fresh
      uploads-IsKeyed found_fresh (inl refl)
