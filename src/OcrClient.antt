-- ===== src/OcrClient.antt =====
-- DispatchOCRJob of internal/clients/ocr/ocr.go, and UpsertPage of cmd/ocr/store.go at the other end.
--
-- Encoding the request as JSON does not fail on these types, and is left out.
pub mod Retries
pub mod Tests
use tax_deeds.Text.{codes, same, Text}
use tax_deeds.Store.{OcrRow}
use tax_deeds.Failure.{err, ok, plain, wrapped, Failure, Result}
use tax_deeds.Base.{
  any, ℕ, zero, suc, ◌+◌, ◌-◌, ◌*◌, ◌≤◌, ◌<◌, ◌≡◌, ◌≢◌, refl, sym, ap, ◌∙◌, ◌↔◌, ◌⊎◌, inl, inr,
  Bool, true, false, ◌&&◌, ◌||◌, not, Option, none, some, List, [], ◌∷◌, ◌++◌, map, arith, ltb, leb,
  ◌==◌, if◌then◌else◌, Bool-cases, All, length,
}

pub record PageRef : Type 0 where
  pub page_number : ℕ
  pub gcs_bucket : Text
  pub gcs_object : Text

pub record JobRequest : Type 0 where
  pub document_id : Text
  pub pages : List PageRef

unfoldable pub page_refs : ℕ → Text → List Text → List PageRef
page_refs n bucket [] = []
page_refs n bucket (object ∷ objects) =
    record { page_number = n; gcs_bucket = bucket; gcs_object = object }
    ∷ page_refs (n + 1) bucket objects

abbrev pub job_request : Text → Text → List Text → JobRequest
job_request id bucket objects = record { document_id = id; pages = page_refs 1 bucket objects }

abbrev pub error_or : Option Failure → Failure → Failure
error_or none e = e
error_or (some d) e = d

-- What an attempt leaves to do: to give up, nothing, or the rest of the loop.
abbrev pub after_attempt : Option Failure → Option Failure → Option Failure → Option Failure
after_attempt (some e) posted rest = some e
after_attempt none none rest = none
after_attempt none (some e) rest = rest

-- What the service answers: the status, and its text.
pub record ServiceReply : Type 0 where
  pub status : ℕ
  pub line : Text

abbrev pub replied_ok : Result ServiceReply → Option Failure
replied_ok (err e) = some e
replied_ok (ok r) =
    if ltb r.status 200 || ltb 299 r.status
    then some (plain (codes "ocr service answered " ++ r.line))
    else none

-- post, from the error of building the request and what http.Client.Do gives.
unfoldable pub post_request : Option Failure → Result ServiceReply → Option Failure
post_request (some e) reply = some e
post_request none reply = replied_ok reply

-- The loop, with the attempts left, the number of the next and the last error. `cancelled` is what
-- ctx gives while the loop waits before an attempt, `post` the outcome of an attempt.
module _ (decimal : ℕ → Text) (retries : ℕ) (cancelled : ℕ → Option Failure)
    (post : ℕ → JobRequest → Option Failure) (job : JobRequest) where
  abbrev pub waits : ℕ → Option Failure
  waits n = if ltb 0 n then cancelled n else none

  unfoldable pub dispatch_loop : ℕ → ℕ → Failure → Option Failure
  dispatch_loop zero n last =
      some (wrapped (codes "dispatch ocr job after " ++ decimal retries ++ codes " attempts") last)
  dispatch_loop (suc left) n last =
      let rest = dispatch_loop left (n + 1) (error_or (post n job) last) in
      after_attempt (waits n) (post n job) rest

-- New sets three attempts. The loop runs at least once, so its first error is never seen.
unfoldable pub dispatch_job :
    (ℕ → Text)
    → (ℕ → Option Failure)
    → (ℕ → JobRequest → Option Failure)
    → Text
    → Text
    → List Text
    → Option Failure
unfolding dispatch_loop page_refs
dispatch_job decimal cancelled post id bucket objects =
    dispatch_loop decimal 3 cancelled post (job_request id bucket objects) 3 0 (plain [])

module _ {Num : Type 0} where
  abbrev pub is_result : Text → ℕ → OcrRow Num → Bool
  is_result id n r = same r.document_id id && r.page_number == n

  abbrev pub overwrite : OcrRow Num → OcrRow Num → OcrRow Num
  overwrite new old =
      if is_result new.document_id new.page_number old
      then record old { text = new.text; confidence = new.confidence; engine = new.engine }
      else old

  -- UpsertPage
  unfoldable pub upsert_page : OcrRow Num → List (OcrRow Num) → List (OcrRow Num)
  upsert_page new rows =
      if any (is_result new.document_id new.page_number) rows
      then map (overwrite new) rows
      else rows ++ new ∷ []
