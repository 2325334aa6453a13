-- ===== src/Command.antt =====
-- The three commands of cmd/: what a run does, in order, with the resources that it takes.
--
-- A run is the list of its events and its result, as Go returns it. A `defer` is `deferred`.
pub mod Resources
pub mod Outcomes
pub mod Api
pub mod Worker
pub mod Migrate
pub mod Tests
use tax_deeds.Logger.{Slog, Logger, log_shutdown}
use tax_deeds.Llm.Select.{ExtractorKind}
use tax_deeds.OcrEngine.{ModelEndpoint}
use tax_deeds.Store.{Duration}
use tax_deeds.Config.{Int64}
use tax_deeds.Failure.{Failure, Result, ok, err}
use tax_deeds.Text.{codes, Text}
use tax_deeds.Base.{
  false, true, any, Bool, if◌then◌else◌, ℕ, Option, none, some, List, [], ◌∷◌, ◌++◌,
}

pub data Resource : Type 0 where
  log_stream database object_storage : Resource

-- Poller of internal/services/extraction/poller.go, as cmd/api makes it
pub record PollerSettings : Type 0 where
  pub extractor : ExtractorKind
  pub interval : Duration
  pub stuck_timeout : Duration
  pub max_attempts : Int64

-- The server of cmd/api with the settings of its services
pub record ApiServer : Type 0 where
  pub address : Text
  pub max_upload_bytes : Int64
  pub max_pages : Int64
  pub ocr_service_url : Text
  pub ocr_dispatch_timeout : Duration

-- The server of cmd/ocr with its worker
pub record WorkerServer : Type 0 where
  pub address : Text
  pub engine : ModelEndpoint
  pub job_timeout : Duration
  pub concurrency : ℕ

pub data Migration : Type 0 where
  goose_up goose_down goose_status : Migration

pub data Event : Type 0 where
  opened closed : Resource → Event
  polling : PollerSettings → Event  -- `go poller.Run(ctx)`
  api_listening : ApiServer → Event
  worker_listening : WorkerServer → Event
  drained : Event  -- srv.Shutdown
  waited_for_pipelines : Event  -- ingestSvc.Shutdown
  migrating : Migration → Event
  panicked : Event  -- in a goroutine
  logged : Text → Event  -- by the logger of the command
  printed : Text → Failure → Event  -- on stderr, without it

abbrev pub Run : Type 0 → Type 0
Run A = List Event × Result A

abbrev pub carry_on : {B : Type 0} → List Event → Run B → Run B
carry_on events (more, r) = (events ++ more, r)

infixl 5 ◌>>=◌ ◌>>◌
abbrev pub ◌>>=◌ : {A B : Type 0} → Run A → (A → Run B) → Run B
(events, ok a) >>= f = carry_on events (f a)
(events, err e) >>= f = (events, err e)

abbrev pub ◌>>◌ : {B : Type 0} → Run (Unit {0}) → Run B → Run B
m >> k = m >>= λ _. k

abbrev pub done : Run (Unit {0})
done = ([], ok tt)

abbrev pub emit : Event → Run (Unit {0})
emit e = (e ∷ [], ok tt)

abbrev pub returned : {A : Type 0} → Result A → Run A
returned r = ([], r)

-- `if err != nil { return err }`
abbrev pub check : Option Failure → Run (Unit {0})
check none = ([], ok tt)
check (some e) = ([], err e)

abbrev pub deferred : {A : Type 0} → List Event → Run A → Run A
deferred last (events, r) = (events ++ last, r)

-- What ends the `select` of a server: an error of ListenAndServe, or a signal.
pub data ServeEnd : Type 0 where
  serve_failed : Failure → ServeEnd
  interrupted : ServeEnd

-- How a command ends: what it did, and its exit status.
pub record Exit : Type 0 where
  pub events : List Event
  pub status : ℕ

abbrev pub flush_events : Option Failure → List Event
flush_events none = closed log_stream ∷ []
flush_events (some e) = closed log_stream ∷ printed (codes "log flush:") e ∷ []

-- The flush of the logs, with the answer of the collector's provider.
abbrev pub flush : (L : Slog) → Logger L → Option Failure → List Event
flush L log answer = flush_events (log_shutdown L log answer)

abbrev pub is_panic : Event → Bool
is_panic panicked = true
is_panic _ = false

abbrev pub until_panic : List Event → List Event
until_panic [] = []
until_panic (e ∷ events) = if is_panic e then e ∷ [] else e ∷ until_panic events

-- A panic of a goroutine ends the process at once, with status 2 and no deferred call.
abbrev pub crashed : Exit → Exit
crashed x =
    if any is_panic x.events then record { events = until_panic x.events; status = 2 } else x
