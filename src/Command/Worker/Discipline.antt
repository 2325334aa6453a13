-- ===== src/Command/Worker/Discipline.antt =====
-- The resources of a process of cmd/ocr.
use tax_deeds.Command.Worker.Stops.{
  listen_without, listen_with, fetcher-Stops, engine_Stops, connect-Stops, stop_without, stop_with,
  require_Stops, ClosedAll, StillOpen, Stops,
}
use tax_deeds.Store.{Duration}
use tax_deeds.Text.{Unicode, Text, codes}
use tax_deeds.Base.{◌≡◌, refl, ◌∙◌, inl, inr, false, Option, none, some, [], ◌∷◌}
use tax_deeds.Command.Resources.{Closes, Held, holds, account, step, account-append}
use tax_deeds.Command.Worker.{
  WorkerCalls, selected_engine, worker_until, worker_serve, worker_run, ended_worker,
  worker_started, worker_main, worker_options,
}
use tax_deeds.Command.{
  Run, Exit, object_storage, database, log_stream, closed, logged, serve_failed, interrupted,
  ServeEnd, flush_events,
}
use tax_deeds.OcrEngine.{engine_face}
use tax_deeds.Failure.{Failure, Result, ok, err, message}
use tax_deeds.Logger.{log_shutdown, Slog, Logger, new_with_otlp}

-- How the process of cmd/ocr may end for its resources.
pub record EndsProcess (exit : Exit) : Type 0 where
  pub after : Held
  pub accounted : account [] exit.events ≡ some after
  pub flushed : holds after log_stream ≡ false
  pub disconnected : exit.status ≡ 0 → holds after database ≡ false

-- The flush after a run that returned, and after one that was fatal.
abbrev Disconnected : Held → Type 0
Disconnected after = (holds after log_stream ≡ false) × (holds after database ≡ false)

flush_account :
    (held after : Held) (o : Option Failure)
    → step held (closed log_stream) ≡ some after
    → account held (flush_events o) ≡ some after
flush_account held after none h = rw h
flush_account held after (some e) h = rw h

flush_ClosedAll :
    (held : Held) (o : Option Failure) → ClosedAll held → Closes held (flush_events o) Disconnected
flush_ClosedAll held o (inl same) = record {
  after = [];
  accounted = flush_account held [] o (rw same);
  kept = (refl, refl);
}
flush_ClosedAll held o (inr same) = record {
  after = object_storage ∷ [];
  accounted = flush_account held (object_storage ∷ []) o (rw same);
  kept = (refl, refl);
}

abbrev Flushed : Held → Type 0
Flushed after = holds after log_stream ≡ false

log_account :
    (held after : Held) (msg : Text) (o : Option Failure)
    → step held (logged msg) ≡ some held
    → step held (closed log_stream) ≡ some after
    → account held (logged msg ∷ flush_events o) ≡ some after
log_account held after msg o l h = rw l (flush_account held after o h)

flush_StillOpen :
    (held : Held) (msg : Text) (o : Option Failure)
    → StillOpen held
    → Closes held (logged msg ∷ flush_events o) Flushed
flush_StillOpen held msg o (inl same) = record {
  after = [];
  accounted = log_account held [] msg o (rw same) (rw same);
  kept = refl;
}
flush_StillOpen held msg o (inr (inl same)) = record {
  after = database ∷ [];
  accounted = log_account held (database ∷ []) msg o (rw same) (rw same);
  kept = refl;
}
flush_StillOpen held msg o (inr (inr same)) = record {
  after = object_storage ∷ database ∷ [];
  accounted = log_account held (object_storage ∷ database ∷ []) msg o (rw same) (rw same);
  kept = refl;
}

module _ (L : Slog) (u : Unicode) (quote : Text → Text) (parse_duration : Text → Option Duration)
    (env : Text → Text) (calls : WorkerCalls) where
  until_Stops :
      (e : ServeEnd)
      → Stops
          (object_storage ∷ database ∷ log_stream ∷ [])
          (worker_until L u quote parse_duration env calls e)
        × Stops (database ∷ log_stream ∷ []) (worker_until L u quote parse_duration env calls e)
  unfolding worker_until
  until_Stops (serve_failed e) = (
    record {
      after = object_storage ∷ database ∷ log_stream ∷ [];
      accounted = refl;
      post = inr (inr refl);
    },
    record { after = database ∷ log_stream ∷ []; accounted = refl; post = inr (inl refl) },
  )
  until_Stops interrupted = (stop_with calls.drain_fault, stop_without calls.drain_fault)

  run_Stops : Stops (log_stream ∷ []) (worker_run L u quote parse_duration env calls)
  unfolding worker_run worker_serve
  run_Stops = require_Stops (env (codes "DATABASE_URL")) _ (
      connect-Stops calls.connect_fault _ (
        engine_Stops (selected_engine L u quote parse_duration env calls) _ (λ engine.
          fetcher-Stops (engine_face engine).needs_image calls.storage_fault _
            (listen_with _ _ (until_Stops calls.ended).0)
            (listen_without _ _ (until_Stops calls.ended).1))))

  ended_EndsProcess :
      (log : Logger L) (m : Run (Unit {0}))
      → Stops (log_stream ∷ []) m
      → EndsProcess (ended_worker L u quote parse_duration env calls log m)
  ended_EndsProcess log (s, ok a) e =
      let c = flush_ClosedAll e.after (log_shutdown L log calls.flush_answer) e.post in
      record {
        after = c.after;
        accounted = account-append (log_stream ∷ []) s _ ∙ rw e.accounted c.accounted;
        flushed = c.kept.0;
        disconnected = λ _. c.kept.1;
      }
  ended_EndsProcess log (s, err x) e =
      let c = flush_StillOpen e.after (message x) (log_shutdown L log calls.flush_answer) e.post in
      record {
        after = c.after;
        accounted = account-append (log_stream ∷ []) s _ ∙ rw e.accounted c.accounted;
        flushed = c.kept;
        disconnected = λ p. absurd (cc p);
      }

  started_EndsProcess :
      (r : Result (Logger L)) → EndsProcess (worker_started L u quote parse_duration env calls r)
  started_EndsProcess (ok log) = ended_EndsProcess log _ run_Stops
  started_EndsProcess (err e) = record {
    after = [];
    accounted = refl;
    flushed = refl;
    disconnected = λ p. refl;
  }

  pub worker_main_resources : EndsProcess (worker_main L u quote parse_duration env calls)
  unfolding worker_main
  worker_main_resources =
      started_EndsProcess (new_with_otlp L u (worker_options L u quote parse_duration env calls))
