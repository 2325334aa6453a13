-- ===== src/Command/Worker/Stops.antt =====
-- What the steps of the main function of cmd/ocr hold.
use tax_deeds.Text.{Text, codes}
use tax_deeds.Base.{◌≡◌, refl, ◌⊎◌, inl, inr, Bool, true, false, Option, none, some, [], ◌∷◌}
use tax_deeds.Command.Resources.{Held, Ends, carried, Ends-emit}
use tax_deeds.Command.Worker.{or_fatal, require_set, or_warn, connect, fetcher}
use tax_deeds.Command.{
  ◌>>=◌, ◌>>◌, Run, object_storage, database, log_stream, closed, emit, logged, drained,
  worker_listening, WorkerServer,
}
use tax_deeds.OcrEngine.{ModelEndpoint}
use tax_deeds.Failure.{Failure, Result, ok, err}
use tax_deeds.Storage.{new_downloader}

abbrev pub ClosedAll : Held → Type 0
ClosedAll after = (after ≡ log_stream ∷ []) ⊎ (after ≡ object_storage ∷ log_stream ∷ [])

abbrev pub StillOpen : Held → Type 0
StillOpen after =
    (after ≡ log_stream ∷ [])
    ⊎ ((after ≡ database ∷ log_stream ∷ []) ⊎ (after ≡ object_storage ∷ database ∷ log_stream ∷ []))

abbrev pub Stops : Held → Run (Unit {0}) → Type 0
Stops held m = Ends held m (λ _ after. ClosedAll after) StillOpen

pub stop_with :
    (f : Option Failure)
    → Stops (object_storage ∷ database ∷ log_stream ∷ []) (do
      emit (logged (codes "shutting down"))
      emit drained
      or_warn (codes "shutdown") f
      emit (closed database))
stop_with none = record {
  after = object_storage ∷ log_stream ∷ [];
  accounted = refl;
  post = inr refl;
}
stop_with (some e) = record {
  after = object_storage ∷ log_stream ∷ [];
  accounted = refl;
  post = inr refl;
}

pub stop_without :
    (f : Option Failure)
    → Stops (database ∷ log_stream ∷ []) (do
      emit (logged (codes "shutting down"))
      emit drained
      or_warn (codes "shutdown") f
      emit (closed database))
stop_without none = record { after = log_stream ∷ []; accounted = refl; post = inl refl }
stop_without (some e) = record { after = log_stream ∷ []; accounted = refl; post = inl refl }

pub listen_with :
    (w : WorkerServer) (m : Run (Unit {0}))
    → Stops (object_storage ∷ database ∷ log_stream ∷ []) m
    → Stops (object_storage ∷ database ∷ log_stream ∷ []) (emit (worker_listening w) >> m)
listen_with w m h = Ends-emit _ _ m refl h

pub listen_without :
    (w : WorkerServer) (m : Run (Unit {0}))
    → Stops (database ∷ log_stream ∷ []) m
    → Stops (database ∷ log_stream ∷ []) (emit (worker_listening w) >> m)
listen_without w m h = Ends-emit _ _ m refl h

pub fetcher-Stops :
    (needs : Bool) (f : Option Failure) (m : Run (Unit {0}))
    → Stops (object_storage ∷ database ∷ log_stream ∷ []) m
    → Stops (database ∷ log_stream ∷ []) m
    → Stops (database ∷ log_stream ∷ []) (fetcher needs f >> m)
unfolding new_downloader
fetcher-Stops true none m with_client without = Ends-emit _ _ m refl with_client
fetcher-Stops true (some e) m with_client without = record {
  after = database ∷ log_stream ∷ [];
  accounted = refl;
  post = inr (inl refl);
}
fetcher-Stops false f m with_client without = carried [] m refl without

pub engine_Stops :
    (r : Result ModelEndpoint) (k : ModelEndpoint → Run (Unit {0}))
    → ((engine : ModelEndpoint) → Stops (database ∷ log_stream ∷ []) (k engine))
    → Stops (database ∷ log_stream ∷ []) (or_fatal (codes "build engine") r >>= k)
engine_Stops (ok engine) k h = carried [] (k engine) refl (h engine)
engine_Stops (err e) k h = record {
  after = database ∷ log_stream ∷ [];
  accounted = refl;
  post = inr (inl refl);
}

pub connect-Stops :
    (f : Option Failure) (m : Run (Unit {0}))
    → Stops (database ∷ log_stream ∷ []) m
    → Stops (log_stream ∷ []) (connect f >> m)
unfolding connect
connect-Stops none m h = Ends-emit _ _ m refl h
connect-Stops (some e) m h = record { after = log_stream ∷ []; accounted = refl; post = inl refl }

pub require_Stops :
    (url : Text) (m : Run (Unit {0}))
    → Stops (log_stream ∷ []) m
    → Stops (log_stream ∷ []) (require_set (codes "DATABASE_URL is required") url >> m)
require_Stops [] m h = record { after = log_stream ∷ []; accounted = refl; post = inl refl }
require_Stops (c ∷ s) m h = carried [] m refl h
