-- ===== src/Command/Api.antt =====
-- cmd/api/main.go, with NewPool of internal/store/db.go.
--
-- What the libraries and the outside answer in one run is in the record ApiCalls. A signal cancels the
-- context of the poller too, which nothing waits for: what it does after its start, but for a panic of its
-- ticker, is not part of a run.
pub mod Status
pub mod Discipline
pub mod Calm
use tax_deeds.Store.{is_positive, Duration}
use tax_deeds.Failure.{wrapped, ok, err, Result, Failure}
use tax_deeds.Command.{
  panicked, crashed, api_listening, ◌>>=◌, ◌>>◌, drained, waited_for_pipelines, interrupted, check,
  polling, logged, log_stream, database, printed, flush, closed, object_storage, deferred, emit,
  serve_failed, returned, done, opened, Exit, Event, ServeEnd, Run, PollerSettings, ApiServer,
}
use tax_deeds.Text.{codes, Unicode, Text}
use tax_deeds.Base.{
  ◌%◌, ◌^◌, ℕ, zero, suc, ◌+◌, ◌-◌, ◌*◌, ◌≤◌, ◌<◌, ◌≡◌, ◌≢◌, refl, sym, ap, ◌∙◌, ◌↔◌, ◌⊎◌, inl, inr,
  Bool, true, false, ◌&&◌, ◌||◌, not, Option, none, some, List, [], ◌∷◌, ◌++◌, map, arith, ltb, leb,
  ◌==◌, if◌then◌else◌, Bool-cases, All, length,
}
use tax_deeds.Storage.{ObjectStore, Client, new_client}
use tax_deeds.Ingest.Files.{Waited, shutdown}
use tax_deeds.Llm.Select.{ExtractorKind, new_extractor}
use tax_deeds.Logger.{Slog, Logger, Options, new_with_otlp}
use tax_deeds.Config.{minus, plus, Int64, Config, load}

pub record ApiCalls (O : ObjectStore) : Type 0 where
  pub connect_fault : Option Failure  -- pgxpool.New
  pub ping_fault : Option Failure
  pub storage_fault : Option Failure  -- storage.NewClient
  pub objects : O.State
  pub model_fault : ExtractorKind → Option Failure
  pub ended : ServeEnd
  pub drain_fault : Option Failure  -- srv.Shutdown
  pub waited : Waited
  pub flush_answer : Option Failure

-- A 64-bit word as an int64
abbrev pub of_word : ℕ → Int64
of_word n = if ltb n (2 ^ 63) then plus n else minus (2 ^ 64 - n)

-- `cfg.MaxUploadMB << 20`
unfoldable pub mebibytes : Int64 → Int64
mebibytes (plus n) = of_word (n * 2 ^ 20 % 2 ^ 64)
mebibytes (minus n) = of_word ((2 ^ 64 - n * 2 ^ 20 % 2 ^ 64) % 2 ^ 64)

abbrev pub api_server : Config → ApiServer
api_server cfg = record {
  address = codes ":" ++ cfg.port;
  max_upload_bytes = mebibytes cfg.max_upload_mb;
  max_pages = cfg.max_pages;
  ocr_service_url = cfg.ocr_service_url;
  ocr_dispatch_timeout = cfg.ocr_dispatch_timeout;
}

abbrev pub poller_settings : Config → ExtractorKind → PollerSettings
poller_settings cfg kind = record {
  extractor = kind;
  interval = cfg.poll_interval;
  stuck_timeout = cfg.stuck_timeout;
  max_attempts = cfg.max_extraction_attempts;
}

abbrev pub logger_options : Text → Config → Options
logger_options service cfg = record {
  level = cfg.log_level;
  service = service;
  environment = cfg.environment;
  otlp_endpoint = cfg.otlp_endpoint;
}

-- What follows pgxpool.New in NewPool, whose Ping may fail.
abbrev pub pinged : Option Failure → Run (Unit {0})
pinged none = done
pinged (some e) = (closed database ∷ [], err (wrapped (codes "ping database") e))

-- NewPool
unfoldable pub new_pool : Option Failure → Option Failure → Run (Unit {0})
new_pool (some e) ping_fault = ([], err (wrapped (codes "create pool") e))
new_pool none ping_fault = do emit (opened database); pinged ping_fault

-- Run of the poller up to its ticker: time.NewTicker panics for an interval that is not positive, which
-- is taken to happen before the main goroutine goes on.
abbrev pub start_ticker : PollerSettings → Bool → Run (Unit {0})
start_ticker settings true = (polling settings ∷ [], ok tt)
start_ticker settings false = (polling settings ∷ panicked ∷ [], ok tt)

-- Starting the poller, where there is an extractor.
unfoldable pub start_poller : Config → Result ExtractorKind → Run (Unit {0})
start_poller cfg (err e) =
    emit (logged (codes "LLM extractor disabled; documents will stop at ocr_done"))
start_poller cfg (ok kind) = start_ticker (poller_settings cfg kind) (is_positive cfg.poll_interval)

abbrev pub after_wait : Option Failure → Run (Unit {0})
after_wait none = done
after_wait (some e) = emit (logged (codes "background work did not finish before shutdown"))

abbrev pub made_logger : {A : Type 0} → Result A → Run A
made_logger (err e) = ([], err e)
made_logger (ok log) = (opened log_stream ∷ [], ok log)

abbrev pub connected : Option Failure → List Event
connected none = opened object_storage ∷ []
connected (some e) = []

module _ (L : Slog) (O : ObjectStore) (u : Unicode) (quote : Text → Text)
    (parse_duration : Text → Option Duration) (env : Text → Text) (calls : ApiCalls O) where
  -- From the `select` on.
  unfoldable pub served_until : ServeEnd → Run (Unit {0})
  unfolding shutdown
  served_until (serve_failed e) = returned (err e)
  served_until interrupted = do
    emit (logged (codes "shutting down"))
    emit drained
    check calls.drain_fault
    emit waited_for_pipelines
    after_wait (shutdown calls.waited)

  -- gcs.New, whose client stays open where the bucket cannot be had.
  unfoldable pub new_storage : Config → Run Client
  unfolding new_client
  new_storage cfg = (
    connected calls.storage_fault,
    (new_client O quote cfg.gcs_bucket calls.storage_fault calls.objects).0,
  )

  unfoldable pub with_storage : Config → Run (Unit {0})
  unfolding start_poller served_until new_extractor
  with_storage cfg = do
    start_poller cfg
        (new_extractor quote calls.model_fault cfg.llm_provider cfg.llm_model cfg.llm_base_url)
    emit (api_listening (api_server cfg))
    served_until calls.ended

  unfoldable pub with_pool : Config → Run (Unit {0})
  unfolding with_storage new_storage
  with_pool cfg = new_storage cfg >>= λ c. deferred (closed object_storage ∷ []) (with_storage cfg)

  unfoldable pub with_logger : Config → Run (Unit {0})
  unfolding with_pool new_pool
  with_logger cfg = do
    new_pool calls.connect_fault calls.ping_fault
    deferred (closed database ∷ []) (with_pool cfg)

  unfoldable pub with_config : Config → Run (Unit {0})
  unfolding with_logger new_with_otlp
  with_config cfg =
      made_logger (new_with_otlp L u (logger_options (codes "tax-deeds-api") cfg)) >>= λ log.
      deferred (flush L log calls.flush_answer) (with_logger cfg)

  -- run
  unfoldable pub run : Run (Unit {0})
  unfolding with_config load
  run = returned (load quote parse_duration env) >>= λ cfg. with_config cfg

  abbrev pub exit_with : Run (Unit {0}) → Exit
  exit_with (events, ok _) = record { events = events; status = 0 }
  exit_with (events, err e) = record {
    events = events ++ printed (codes "fatal") e ∷ [];
    status = 1;
  }

  -- main
  unfoldable pub api_main : Exit
  unfolding run
  api_main = crashed (exit_with run)
