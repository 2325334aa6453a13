-- ===== src/Storage/Tests.antt =====
-- The bucket of a small object storage.
use tax_deeds.Ingest.{page_object, Env, upload_pages}
use tax_deeds.Storage.{Client, Source, upload}
use tax_deeds.Storage.Objects.{upload_outcome}
use tax_deeds.Storage.Images.{HasOutcomes, PageFile, store_pages, Received, job_images}
use tax_deeds.OcrClient.{job_request}
use tax_deeds.Failure.{Failure, ok, plain}
use tax_deeds.Text.{codes, Text}
use tax_deeds.Base.{
  ◌%◌, ◌≤◌, ◌/◌, ◌+◌, arith, ◌↔◌, [], ◌≢◌, ◌∷◌, some, refl, none, ◌≡◌, ℕ, List, Option,
}
use tax_deeds.Storage.Memory.{in_memory, in_memory-KeepsObjects, Objects}

abbrev bucket : Client
bucket = record { bucket = codes "matriculas" }

abbrev cut_short : Source
cut_short = record { bytes = 1 ∷ 2 ∷ []; fault = some (plain (codes "unexpected EOF")) }

abbrev old : Objects
old b o = some (1 ∷ 2 ∷ 3 ∷ [])

-- An upload that breaks off leaves a part of the file in place of the old object.
abbrev after_cut : Option Failure × Objects
after_cut = upload in_memory bucket (codes "p") (codes "image/png") cut_short old

upload_outcome_example :
    (after_cut.1 bucket.bucket (codes "p") ≡ some (1 ∷ 2 ∷ []))
    × ((p : Text) → p ≢ codes "p" → after_cut.1 bucket.bucket p ≡ old bucket.bucket p)
    × ((after_cut.0 ≡ none) ↔ (cut_short.fault ≡ none))
upload_outcome_example =
    upload_outcome in_memory in_memory-KeepsObjects bucket (codes "p") (codes "image/png") cut_short
      old refl

abbrev image_file : ℕ → PageFile
image_file n = record { open_fault = none; source = record { bytes = n ∷ n ∷ []; fault = none } }

abbrev two_files : List PageFile
two_files = image_file 7 ∷ image_file 8 ∷ []

-- The numbers of the pages in two digits.
abbrev digits2 : ℕ → Text
digits2 n = (b'0' + n / 10) ∷ (b'0' + n % 10) ∷ []

tens_injective : (m n : ℕ) → m / 10 ≡ n / 10 → m % 10 ≡ n % 10 → m ≡ n
tens_injective m n p q = omega arith

digits2-injective : (m n : ℕ) → m ≤ 2 → n ≤ 2 → digits2 m ≡ digits2 n → m ≡ n
digits2-injective m n a b e =
    let p : b'0' + m / 10 ≡ b'0' + n / 10 = cc e in
    let q : b'0' + m % 10 ≡ b'0' + n % 10 = cc e in
    tens_injective m n (omega (arith, p)) (omega (arith, q))

abbrev well : Env
well = record {
  status_fault = none;
  read_fault = none;
  temp_fault = none;
  fetch_fault = none;
  convert = ok (codes "1" ∷ codes "2" ∷ []);
  upload_page = λ object. none;
  pages_fault = none;
  count_fault = none;
  send_job = λ objects. none;
  stamp_fault = none;
  fail_fault = none;
  pauses = λ c. record { statements = []; now = 7 };
}

abbrev names : List Text
names = page_object digits2 (codes "d") 1 ∷ page_object digits2 (codes "d") 2 ∷ []

stored_names :
    upload_pages digits2 digits2 3 well (codes "d") 1 (codes "1" ∷ codes "2" ∷ []) ≡ ok names
unfolding upload_pages
stored_names = refl

outcomes :
    HasOutcomes in_memory digits2 digits2 bucket
      (codes "d")
      well.upload_page
      1
      two_files
      (codes "1" ∷ codes "2" ∷ [])
      (λ b o. none)
unfolding upload
outcomes = (refl, (refl, tt))

job_images_example :
    Received in_memory digits2 digits2 bucket
      (codes "d")
      two_files
      (job_request (codes "d") bucket.bucket names).pages
      (store_pages in_memory digits2 digits2 bucket (codes "d") 1 two_files (λ b o. none)).1
job_images_example =
    job_images in_memory digits2 digits2 bucket (codes "d") in_memory-KeepsObjects 2
      digits2-injective 3 well two_files (codes "1" ∷ codes "2" ∷ []) (λ b o. none) (omega arith)
      outcomes stored_names
