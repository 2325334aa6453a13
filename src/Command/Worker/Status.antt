-- ===== src/Command/Worker/Status.antt =====
-- The exit status of cmd/ocr.
use tax_deeds.Command.Worker.Discipline.{worker_main_resources, EndsProcess}
use mathlib.Core.Path.{subst}
use tax_deeds.Store.{Duration}
use tax_deeds.Text.{Unicode, Text, codes}
use tax_deeds.Base.{◌≡◌, ◌≢◌, refl, ◌↔◌, Bool, true, false, Option, none, some, [], ◌∷◌}
use tax_deeds.Command.Outcomes.{iff_trans, and_iff, >>=-IsOk}
use tax_deeds.Command.Worker.{
  WorkerCalls, or_fatal, require_set, or_warn, connect, fetcher, selected_engine, worker_until,
  worker_serve, worker_run, status_of, worker_started, worker_main, worker_options,
}
use tax_deeds.Command.{
  ◌>>=◌, ◌>>◌, database, closed, emit, logged, drained, serve_failed, interrupted, ServeEnd,
}
use tax_deeds.OcrEngine.{ModelEndpoint, engine_face}
use tax_deeds.Config.Loads.{IsOk}
use tax_deeds.Failure.{Failure, Result, ok, err}
use tax_deeds.Logger.{Slog, Logger, new_with_otlp}
use tax_deeds.Storage.{new_downloader}

require-IsOk : (msg url : Text) → IsOk (require_set msg url).1 ↔ (url ≢ [])
require-IsOk msg [] = (λ (a, p). absurd (cc p), λ n. absurd (n refl))
require-IsOk msg (c ∷ s) = (λ _. λ p. cc p, λ _. (tt, refl))

connect-IsOk : (f : Option Failure) → IsOk (connect f).1 ↔ (f ≡ none)
unfolding connect
connect-IsOk none = (λ p. refl, λ p. (tt, refl))
connect-IsOk (some e) = (λ (a, p). absurd (cc p), λ p. absurd (cc p))

fetcher-IsOk :
    (needs : Bool) (f : Option Failure) → IsOk (fetcher needs f).1 ↔ (needs ≡ true → f ≡ none)
unfolding new_downloader
fetcher-IsOk true none = (λ p. λ _. refl, λ h. (tt, refl))
fetcher-IsOk true (some e) = (λ (a, p). absurd (cc p), λ h. absurd (cc (h refl)))
fetcher-IsOk false f = (λ p. λ q. absurd (cc q), λ h. (tt, refl))

stop-IsOk :
    (f : Option Failure)
    → IsOk
        (do
          emit (logged (codes "shutting down"))
          emit drained
          or_warn (codes "shutdown") f
          emit (closed database)).1
stop-IsOk none = (tt, refl)
stop-IsOk (some e) = (tt, refl)

module _ (L : Slog) (u : Unicode) (quote : Text → Text) (parse_duration : Text → Option Duration)
    (env : Text → Text) (calls : WorkerCalls) where
  -- What a process needs to end well.
  pub record WorksWell : Type 0 where
    pub logs : IsOk (new_with_otlp L u (worker_options L u quote parse_duration env calls))
    pub has_url : env (codes "DATABASE_URL") ≢ []
    pub connects : calls.connect_fault ≡ none
    pub engine : ModelEndpoint
    pub selects : selected_engine L u quote parse_duration env calls ≡ ok engine
    pub has_client : (engine_face engine).needs_image ≡ true → calls.storage_fault ≡ none
    pub is_interrupted : calls.ended ≡ interrupted

  until-IsOk :
      (e : ServeEnd)
      → IsOk (worker_until L u quote parse_duration env calls e).1 ↔ (e ≡ interrupted)
  unfolding worker_until
  until-IsOk (serve_failed e) = (λ (a, p). absurd (cc p), λ p. absurd (cc p))
  until-IsOk interrupted = (λ _. refl, λ _. stop-IsOk calls.drain_fault)

  serve-IsOk :
      (engine : ModelEndpoint)
      → IsOk (worker_serve L u quote parse_duration env calls engine).1 ↔ (
          ((engine_face engine).needs_image ≡ true → calls.storage_fault ≡ none)
          × (calls.ended ≡ interrupted))
  unfolding worker_serve
  serve-IsOk engine =
      iff_trans
        (>>=-IsOk (fetcher (engine_face engine).needs_image calls.storage_fault) _
          λ _. until-IsOk calls.ended)
        (and_iff (fetcher-IsOk (engine_face engine).needs_image calls.storage_fault)
          (λ p. p, λ p. p))

  abbrev Serves : ModelEndpoint → Type 0
  Serves engine =
      ((engine_face engine).needs_image ≡ true → calls.storage_fault ≡ none)
      × (calls.ended ≡ interrupted)

  engine-IsOk :
      (r : Result ModelEndpoint)
      → IsOk
          (or_fatal (codes "build engine") r >>= λ engine.
            worker_serve L u quote parse_duration env calls engine).1
        ↔ ((engine : ModelEndpoint) × (r ≡ ok engine) × Serves engine)
  engine-IsOk (ok engine) = (
    λ p. (engine, refl, (serve-IsOk engine).0 p),
    λ (x, q, w). (serve-IsOk engine).1 (let same : x ≡ engine = cc q in subst Serves same w),
  )
  engine-IsOk (err e) = (λ (a, p). absurd (cc p), λ (x, q, w). absurd (cc q))

  run-IsOk : IsOk (worker_run L u quote parse_duration env calls).1 ↔ (
      (env (codes "DATABASE_URL") ≢ [])
      × ((calls.connect_fault ≡ none)
          × ((engine : ModelEndpoint) × (selected_engine L u quote parse_duration env calls
                ≡ ok engine)
              × Serves engine)))
  unfolding worker_run
  run-IsOk =
      let by_engine = engine-IsOk (selected_engine L u quote parse_duration env calls) in
      let by_connect =
        iff_trans (>>=-IsOk (connect calls.connect_fault) _ λ _. by_engine)
          (and_iff (connect-IsOk calls.connect_fault) (λ p. p, λ p. p)) in
      iff_trans
        (>>=-IsOk (require_set (codes "DATABASE_URL is required") (env (codes "DATABASE_URL"))) _
          λ _. by_connect)
        (and_iff (require-IsOk (codes "DATABASE_URL is required") (env (codes "DATABASE_URL")))
          (λ p. p, λ p. p))

  status_of_zero :
      (r : Result (Unit {0})) → (status_of L u quote parse_duration env calls r ≡ 0) ↔ IsOk r
  status_of_zero (ok a) = (λ p. (a, refl), λ p. refl)
  status_of_zero (err e) = (λ p. absurd (cc p), λ (a, p). absurd (cc p))

  started_zero :
      (r : Result (Logger L))
      → ((worker_started L u quote parse_duration env calls r).status ≡ 0)
        ↔ (IsOk r × IsOk (worker_run L u quote parse_duration env calls).1)
  started_zero (ok log) =
      (λ p. ((log, refl), (status_of_zero _).0 p), λ (_, w). (status_of_zero _).1 w)
  started_zero (err e) = (λ p. absurd (cc p), λ ((a, p), w). absurd (cc p))

  worker_main_status : ((worker_main L u quote parse_duration env calls).status ≡ 0) ↔ WorksWell
  unfolding worker_main
  worker_main_status =
      iff_trans
        (started_zero (new_with_otlp L u (worker_options L u quote parse_duration env calls)))
        (
          λ (l, w).
              let (url, (c, (engine, s, (n, i)))) = run-IsOk.0 w in
              record {
                logs = l;
                has_url = url;
                connects = c;
                engine = engine;
                selects = s;
                has_client = n;
                is_interrupted = i;
              },
          λ w. (
            w.logs,
            run-IsOk.1
                (w.has_url, (w.connects, (w.engine, w.selects, (w.has_client, w.is_interrupted)))),
          ),
        )

  -- The process of cmd/ocr ends with status 0 exactly if the logger is built, DATABASE_URL is set, the
  -- pool of connections is made, OCR_ENGINE and the settings of that engine select one, the client of
  -- the object storage is made where the engine needs images, and the server does not fail before a
  -- signal comes; whether the server can be shut down and the logs be flushed does not matter.
  -- Whatever its calls answer, the main goroutine opens nothing twice, closes only what is open, starts
  -- the server and shuts it down only while the database is open, logs only while the log stream is,
  -- flushes that at the end, also after what is fatal, and has closed the database if the status is 0.
  -- Of what the goroutines of the jobs use, which it does not wait for, nothing is said.
  pub worker_main_lem :
      let x = worker_main L u quote parse_duration env calls in
      ((x.status ≡ 0) ↔ WorksWell) × EndsProcess x
  worker_main_lem = (worker_main_status, worker_main_resources L u quote parse_duration env calls)
