-- ===== src/Command/Api/Status.antt =====
-- The exit status of cmd/api.
use tax_deeds.Command.Api.Calm.{api_main_calm}
use tax_deeds.Command.Api.Discipline.{main_resources, LeavesOpen}
use tax_deeds.Command.Resources.{account, Held}
use mathlib.Core.Path.{subst}
use tax_deeds.Store.{is_positive, Duration}
use tax_deeds.Llm.Select.{ExtractorKind}
use tax_deeds.Text.{Text, codes, Unicode}
use tax_deeds.Base.{Bool, true, ◌≡◌, refl, ◌↔◌, Option, none, some, [], ◌∷◌, false}
use tax_deeds.Command.Outcomes.{iff_trans, >>=-IsOk, deferred-IsOk}
use tax_deeds.Command.Api.{
  start_ticker, ApiCalls, served_until, start_poller, with_storage, with_pool, with_logger,
  with_config, run, new_pool, new_storage, made_logger, after_wait, api_server, api_main, exit_with,
  logger_options,
}
use tax_deeds.Command.{
  ApiServer, PollerSettings, ◌>>=◌, ◌>>◌, Run, object_storage, database, closed, emit, logged,
  drained, check, waited_for_pipelines, serve_failed, interrupted, ServeEnd, flush, returned,
  api_listening,
}
use tax_deeds.Config.Loads.{IsOk}
use tax_deeds.Config.{Config, load}
use tax_deeds.Failure.{Failure, Result, ok, err}
use tax_deeds.Storage.{ObjectStore, new_client}
use tax_deeds.Logger.{Slog, new_with_otlp}
use tax_deeds.Ingest.Files.{shutdown}

stop-IsOk :
    (f g : Option Failure)
    → IsOk
        (do
          emit (logged (codes "shutting down"))
          emit drained
          check f
          emit waited_for_pipelines
          after_wait g).1
      ↔ (f ≡ none)
stop-IsOk none none = (λ p. refl, λ p. (tt, refl))
stop-IsOk none (some e) = (λ p. refl, λ p. (tt, refl))
stop-IsOk (some e) g = (λ (a, p). absurd (cc p), λ p. absurd (cc p))

ticker-IsOk :
    (settings : PollerSettings) (b : Bool) (server : ApiServer) (m : Run (Unit {0}))
    → IsOk (start_ticker settings b >> (emit (api_listening server) >> m)).1 ↔ IsOk m.1
ticker-IsOk settings true server (s, r) = (λ p. p, λ p. p)
ticker-IsOk settings false server (s, r) = (λ p. p, λ p. p)

start-IsOk :
    (cfg : Config) (r : Result ExtractorKind) (m : Run (Unit {0}))
    → IsOk (start_poller cfg r >> (emit (api_listening (api_server cfg)) >> m)).1 ↔ IsOk m.1
unfolding start_poller
start-IsOk cfg (ok kind) m = ticker-IsOk _ (is_positive cfg.poll_interval) _ m
start-IsOk cfg (err e) (s, r) = (λ p. p, λ p. p)

new_pool-IsOk :
    (connect ping : Option Failure)
    → IsOk (new_pool connect ping).1 ↔ ((connect ≡ none) × (ping ≡ none))
unfolding new_pool
new_pool-IsOk none none = (λ p. (refl, refl), λ p. (tt, refl))
new_pool-IsOk none (some e) = (λ (a, p). absurd (cc p), λ (p, q). absurd (cc q))
new_pool-IsOk (some e) ping = (λ (a, p). absurd (cc p), λ (p, q). absurd (cc p))

made_logger-IsOk : {A : Type 0} (r : Result A) → IsOk (made_logger r).1 ↔ IsOk r
made_logger-IsOk (ok log) = (λ p. p, λ p. p)
made_logger-IsOk (err e) = (λ p. p, λ p. p)

module _ (L : Slog) (O : ObjectStore) (u : Unicode) (quote : Text → Text)
    (parse_duration : Text → Option Duration) (env : Text → Text) (calls : ApiCalls O) where
  served-IsOk :
      (e : ServeEnd)
      → IsOk (served_until L O u quote parse_duration env calls e).1
        ↔ ((e ≡ interrupted) × (calls.drain_fault ≡ none))
  unfolding served_until
  served-IsOk (serve_failed e) = (λ (a, p). absurd (cc p), λ (p, q). absurd (cc p))
  served-IsOk interrupted =
      let stop = stop-IsOk calls.drain_fault (shutdown calls.waited) in
      (λ p. (refl, stop.0 p), λ (_, q). stop.1 q)

  -- What a process needs to end well, once its configuration is read.
  pub record RunsWell (cfg : Config) : Type 0 where
    pub logs : IsOk (new_with_otlp L u (logger_options (codes "tax-deeds-api") cfg))
    pub connects : calls.connect_fault ≡ none
    pub pings : calls.ping_fault ≡ none
    pub has_bucket : IsOk (new_client O quote cfg.gcs_bucket calls.storage_fault calls.objects).0
    pub is_interrupted : calls.ended ≡ interrupted
    pub drains : calls.drain_fault ≡ none

  with_pool-IsOk :
      (cfg : Config)
      → IsOk (with_pool L O u quote parse_duration env calls cfg).1 ↔ (
          IsOk (new_client O quote cfg.gcs_bucket calls.storage_fault calls.objects).0
          × ((calls.ended ≡ interrupted) × (calls.drain_fault ≡ none)))
  unfolding with_pool with_storage new_storage
  with_pool-IsOk cfg = >>=-IsOk (new_storage L O u quote parse_duration env calls cfg) _ λ c.
      iff_trans
        (deferred-IsOk (closed object_storage ∷ [])
          (with_storage L O u quote parse_duration env calls cfg))
        (iff_trans
          (start-IsOk cfg _ (served_until L O u quote parse_duration env calls calls.ended))
          (served-IsOk calls.ended))

  with_config-IsOk :
      (cfg : Config) → IsOk (with_config L O u quote parse_duration env calls cfg).1 ↔ RunsWell cfg
  unfolding with_config with_logger
  with_config-IsOk cfg =
      iff_trans
        (>>=-IsOk (made_logger (new_with_otlp L u (logger_options (codes "tax-deeds-api") cfg))) _
          λ log.
            iff_trans
              (deferred-IsOk (flush L log calls.flush_answer)
                (with_logger L O u quote parse_duration env calls cfg))
              (>>=-IsOk (new_pool calls.connect_fault calls.ping_fault) _ λ _.
                iff_trans
                  (deferred-IsOk (closed database ∷ [])
                    (with_pool L O u quote parse_duration env calls cfg))
                  (with_pool-IsOk cfg)))
        (
          λ (l, (p, (b, (i, d)))).
              let (c, g) = (new_pool-IsOk calls.connect_fault calls.ping_fault).0 p in
              record {
                logs = (made_logger-IsOk _).0 l;
                connects = c;
                pings = g;
                has_bucket = b;
                is_interrupted = i;
                drains = d;
              },
          λ w. (
            (made_logger-IsOk _).1 w.logs,
            (
              (new_pool-IsOk _ _).1 (w.connects, w.pings),
              (w.has_bucket, (w.is_interrupted, w.drains)),
            ),
          ),
        )

  exit_status :
      (m : Run (Unit {0}))
      → ((exit_with L O u quote parse_duration env calls m).status ≡ 0) ↔ IsOk m.1
  exit_status (s, ok a) = (λ p. (a, refl), λ p. refl)
  exit_status (s, err e) = (λ p. absurd (cc p), λ (a, p). absurd (cc p))

  config-IsOk :
      (r : Result Config)
      → IsOk (returned r >>= λ cfg. with_config L O u quote parse_duration env calls cfg).1
        ↔ ((cfg : Config) × (r ≡ ok cfg) × RunsWell cfg)
  config-IsOk (ok cfg) = (
    λ p. (cfg, refl, (with_config-IsOk cfg).0 p),
    λ (x, q, w). (with_config-IsOk cfg).1 (let same : x ≡ cfg = cc q in subst RunsWell same w),
  )
  config-IsOk (err e) = (λ (a, p). absurd (cc p), λ (cfg, p, w). absurd (cc p))

  main_status :
      ((exit_with L O u quote parse_duration env calls
          (run L O u quote parse_duration env calls)).status
        ≡ 0)
      ↔ ((cfg : Config) × (load quote parse_duration env ≡ ok cfg) × RunsWell cfg)
  unfolding run
  main_status =
      iff_trans (exit_status (run L O u quote parse_duration env calls))
        (config-IsOk (load quote parse_duration env))

  -- Where the interval of the poller is positive, so that time.NewTicker does not panic: the process of
  -- cmd/api ends with status 0 exactly if its configuration is read, the logger is built, the database
  -- can be connected to and pinged, the client of the object storage is made and has its bucket, the
  -- server does not fail before a signal comes, and it can then be shut down. It does not matter
  -- whether there is an extractor, whether the background work ends in time and whether the logs can
  -- be flushed. Whatever its calls answer, the main goroutine opens nothing twice and closes only what
  -- is open; it starts the poller and the server, and waits for the pipelines, only while the database
  -- and the object storage are open, and logs only while the log stream is; and it closes all of it,
  -- except for the client of the object storage where that was made and its bucket cannot be had, and
  -- then the status is 1. Of what goroutines that it does not wait for use later nothing is said.
  pub api_main_lem :
      ((cfg : Config)
        → load quote parse_duration env ≡ ok cfg
        → is_positive cfg.poll_interval ≡ true)
      → let x = api_main L O u quote parse_duration env calls in
        ((x.status ≡ 0)
          ↔ ((cfg : Config) × (load quote parse_duration env ≡ ok cfg) × RunsWell cfg))
        × ((after : Held) × (account [] x.events ≡ some after)
            × LeavesOpen L O u quote parse_duration env calls x after)
  api_main_lem ticks =
      rw (api_main_calm L O u quote parse_duration env calls ticks)
        (main_status, main_resources L O u quote parse_duration env calls)
