-- ===== src/Command/Worker.antt =====
-- The main function of cmd/ocr/main.go. A `fatal` logs, flushes the logs and ends the process with
-- status 1, without the deferred calls: its error is the result of `worker_run`. The goroutines of the
-- jobs, which nothing waits for, are no part of a run.
pub mod Stops
pub mod Discipline
pub mod Status
use tax_deeds.Store.{ahead, Duration}
use tax_deeds.Text.{codes, Text, Unicode}
use tax_deeds.Base.{
  ℕ, zero, suc, ◌+◌, ◌-◌, ◌*◌, ◌≤◌, ◌<◌, ◌≡◌, ◌≢◌, refl, sym, ap, ◌∙◌, ◌↔◌, ◌⊎◌, inl, inr, Bool,
  true, false, ◌&&◌, ◌||◌, not, Option, none, some, List, [], ◌∷◌, ◌++◌, map, arith, ltb, leb, ◌==◌,
  if◌then◌else◌, Bool-cases, All, length,
}
use tax_deeds.Command.{
  Event, Run, Exit, ServeEnd, serve_failed, interrupted, ◌>>=◌, ◌>>◌, emit, done, returned, check,
  opened, closed, database, object_storage, log_stream, worker_listening, WorkerServer, drained,
  logged, printed, flush,
}
use tax_deeds.OcrWorker.Env.{text_env, read_duration, read_float, page_concurrency}
use tax_deeds.OcrEngine.{EngineConfig, ModelEndpoint, new_engine, engine_face}
use tax_deeds.Storage.{new_downloader}
use tax_deeds.Logger.{Slog, Logger, Options, new_with_otlp}
use tax_deeds.Failure.{message, Failure, Result, ok, err, wrapped, plain}

pub record WorkerCalls : Type 0 where
  pub connect_fault : Option Failure  -- pgxpool.New
  pub storage_fault : Option Failure  -- storage.NewClient
  pub ended : ServeEnd
  pub drain_fault : Option Failure  -- srv.Shutdown
  pub flush_answer : Option Failure

-- `if err != nil { fatal(msg, "error", err) }`
abbrev pub or_fatal : {A : Type 0} → Text → Result A → Run A
or_fatal msg (ok a) = ([], ok a)
or_fatal msg (err e) = ([], err (wrapped msg e))

abbrev pub require_set : Text → Text → Run (Unit {0})
require_set msg [] = ([], err (plain msg))
require_set msg (c ∷ s) = done

abbrev pub or_warn : Text → Option Failure → Run (Unit {0})
or_warn msg none = done
or_warn msg (some e) = emit (logged msg)

-- After pgxpool.New, which needs no server to answer yet.
unfoldable pub connect : Option Failure → Run (Unit {0})
connect none = emit (opened database)
connect (some e) = ([], err (wrapped (codes "connect") e))

-- The downloader, for an engine that needs images.
abbrev pub open_downloader : Option Failure → Run (Unit {0})
open_downloader none = emit (opened object_storage)
open_downloader (some e) = ([], err (wrapped (codes "gcs downloader") e))

abbrev pub fetcher : Bool → Option Failure → Run (Unit {0})
fetcher true fault = open_downloader (new_downloader fault)
fetcher false fault = done

module _ (L : Slog) (u : Unicode) (quote : Text → Text) (parse_duration : Text → Option Duration)
    (env : Text → Text) (calls : WorkerCalls) where
  abbrev pub worker_options : Options
  worker_options = record {
    level = text_env env (codes "LOG_LEVEL") (codes "info");
    service = codes "tax-deeds-ocr";
    environment = text_env env (codes "APP_ENV") (codes "dev");
    otlp_endpoint = env (codes "OTEL_EXPORTER_OTLP_ENDPOINT");
  }

  abbrev pub engine_config : EngineConfig
  engine_config = record {
    glm_base_url = env (codes "GLM_BASE_URL");
    glm_model = env (codes "GLM_MODEL");
    glm_api_key = env (codes "GLM_API_KEY");
    zhipu_api_key = env (codes "ZHIPU_API_KEY");
    zhipu_base_url = env (codes "ZHIPU_BASE_URL");
  }

  abbrev pub selected_engine : Result ModelEndpoint
  selected_engine =
      new_engine quote (text_env env (codes "OCR_ENGINE") (codes "stub")) engine_config

  abbrev pub worker_server : ModelEndpoint → WorkerServer
  worker_server engine = record {
    address = codes ":" ++ text_env env (codes "PORT") (codes "9090");
    engine = engine;
    job_timeout = read_duration env parse_duration (codes "OCR_JOB_TIMEOUT") (ahead 480000000000);
    concurrency = page_concurrency env;
  }

  -- From the `select` on, up to the flush.
  unfoldable pub worker_until : ServeEnd → Run (Unit {0})
  worker_until (serve_failed e) = ([], err (wrapped (codes "serve") e))
  worker_until interrupted = do
    emit (logged (codes "shutting down"))
    emit drained
    or_warn (codes "shutdown") calls.drain_fault
    emit (closed database)

  unfoldable pub worker_serve : ModelEndpoint → Run (Unit {0})
  unfolding worker_until
  worker_serve engine = do
    fetcher (engine_face engine).needs_image calls.storage_fault
    emit (worker_listening (worker_server engine))
    worker_until calls.ended

  unfoldable pub worker_run : Run (Unit {0})
  unfolding worker_serve connect new_engine engine_face
  worker_run = do
    require_set (codes "DATABASE_URL is required") (env (codes "DATABASE_URL"))
    connect calls.connect_fault
    engine ← or_fatal (codes "build engine") selected_engine
    worker_serve engine

  abbrev pub fatal_events : Run (Unit {0}) → List Event
  fatal_events (events, ok _) = []
  fatal_events (events, err e) = logged (message e) ∷ []

  abbrev pub status_of : Result (Unit {0}) → ℕ
  status_of (ok _) = 0
  status_of (err e) = 1

  abbrev pub ended_worker : Logger L → Run (Unit {0}) → Exit
  ended_worker log m = record {
    events = opened log_stream ∷ (m.0 ++ (fatal_events m ++ flush L log calls.flush_answer));
    status = status_of m.1;
  }

  abbrev pub worker_started : Result (Logger L) → Exit
  worker_started (err e) = record { events = printed (codes "logger:") e ∷ []; status = 1 }
  worker_started (ok log) = ended_worker log worker_run

  -- main
  unfoldable pub worker_main : Exit
  unfolding worker_run new_with_otlp
  worker_main = worker_started (new_with_otlp L u worker_options)
