-- ===== src/Ingest/Files.antt =====
-- The files of internal/services/ingest/ingest.go and of internal/services/pdfconvert/pdfconvert.go,
-- and the end of the service.
use tax_deeds.Queries.{order_by}
use tax_deeds.Failure.{ok, wrapped, plain, err, Result, Failure}
use tax_deeds.Config.{minus, plus, Int64}
use tax_deeds.Text.{codes, Text}
use tax_deeds.Base.{
  ℕ, zero, suc, Bool, true, false, ◌&&◌, ◌||◌, Option, none, some, List, [], ◌∷◌, ◌++◌, ltb, ◌==◌,
  if◌then◌else◌, length,
}

-- The first of the errors of calls made one after the other, each only where the ones before worked.
unfoldable pub first_fault : List (Option Failure) → Option Failure
first_fault [] = none
first_fault (some e ∷ faults) = some e
first_fault (none ∷ faults) = first_fault faults

-- downloadTo: Download, os.Create and io.Copy
unfoldable pub download_to : Option Failure → Option Failure → Option Failure → Option Failure
unfolding first_fault
download_to download create copy = first_fault (download ∷ create ∷ copy ∷ [])

-- uploadFile: os.Open and Upload
unfoldable pub upload_file : Option Failure → Option Failure → Option Failure
unfolding first_fault
upload_file open_file upload = first_fault (open_file ∷ upload ∷ [])

-- What Shutdown waits for, the first that comes: the pipelines, or its context.
pub data Waited : Type 0 where
  pipelines_done : Waited
  context_ended : Failure → Waited

unfoldable pub shutdown : Waited → Option Failure
shutdown pipelines_done = none
shutdown (context_ended e) = some e

-- A setting of Poppler, or its default where it is not positive.
abbrev pub setting_or : Int64 → ℕ → ℕ
setting_or (plus zero) default = default
setting_or (plus (suc n)) default = suc n
setting_or (minus n) default = default

abbrev pub too_many : Int64 → ℕ → Bool
too_many (plus n) pages = ltb 0 n && ltb n pages
too_many (minus n) pages = false

-- `sort.Strings` puts a path before those that are greater, byte by byte.
unfoldable pub comes_before : Text → Text → Bool
comes_before [] t = true
comes_before (c ∷ s) [] = false
comes_before (c ∷ s) (d ∷ t) = ltb c d || (c == d && comes_before s t)

abbrev pub ran : Option Failure → Result (List Text) → Result (List Text)
ran none r = r
ran (some e) r = err (wrapped (codes "pdftoppm") e)

-- The decimal of an int64
abbrev pub signed : (ℕ → Text) → Int64 → Text
signed decimal (plus n) = decimal n
signed decimal (minus n) = b'-' ∷ decimal n

module _ (decimal : ℕ → Text) (max_pages : Int64) where
  abbrev pub checked_pages : List Text → Result (List Text)
  checked_pages [] = err (plain (codes "pdftoppm produced no pages"))
  checked_pages (path ∷ paths) =
      if too_many max_pages (length (path ∷ paths))
      then err (
          plain (
            codes "document has "
            ++ decimal (length (path ∷ paths))
            ++ codes " pages, more than the allowed "
            ++ signed decimal max_pages))
      else ok (order_by comes_before (path ∷ paths))

  abbrev pub globbed : Result (List Text) → Result (List Text)
  globbed (err e) = err e
  globbed (ok paths) = checked_pages paths

  -- Convert: `pdftoppm` runs with a timeout and a resolution, then the files that it left are listed.
  unfoldable pub convert_pages :
      Int64 → Int64 → (ℕ → ℕ → Option Failure) → Result (List Text) → Result (List Text)
  unfolding comes_before order_by
  convert_pages timeout dpi pdftoppm glob =
      ran (pdftoppm (setting_or timeout 120000000000) (setting_or dpi 200)) (globbed glob)
