-- ===== src/Command/Api/Discipline.antt =====
-- The resources of a run of cmd/api.
use tax_deeds.Store.{is_positive, Duration}
use tax_deeds.Text.{Unicode, Text, codes}
use tax_deeds.Llm.Select.{ExtractorKind}
use tax_deeds.Base.{Bool, true, false, ◌≡◌, refl, ◌∙◌, ◌⊎◌, inl, inr, Option, none, some, [], ◌∷◌}
use tax_deeds.Command.Api.{
  start_ticker, ApiCalls, served_until, start_poller, with_storage, with_pool, with_logger,
  with_config, run, new_pool, new_storage, connected, made_logger, after_wait, api_server,
  exit_with,
}
use tax_deeds.Command.Resources.{
  Ends-emit, Held, account, Ends, carried, Ends-deferred, account-append,
}
use tax_deeds.Command.{
  panicked, polling, PollerSettings, Exit, returned, ◌>>=◌, ◌>>◌, Run, object_storage, database,
  log_stream, closed, opened, emit, logged, drained, check, waited_for_pipelines, serve_failed,
  interrupted, ServeEnd, deferred, flush_events, api_listening,
}
use tax_deeds.Config.{Config, load}
use tax_deeds.Failure.{Failure, Result, ok, err}
use tax_deeds.Storage.{ObjectStore, Client, new_client}
use tax_deeds.Logger.{Slog}
use tax_deeds.Ingest.Files.{shutdown}

-- A run gives back what it takes.
abbrev Restores : Held → Run (Unit {0}) → Type 0
Restores held m = Ends held m (λ _ after. after ≡ held) (λ after. after ≡ held)

abbrev in_service : Held
in_service = object_storage ∷ database ∷ log_stream ∷ []

stop_Restores :
    (f g : Option Failure)
    → Restores in_service (do
      emit (logged (codes "shutting down"))
      emit drained
      check f
      emit waited_for_pipelines
      after_wait g)
stop_Restores none none = record { after = in_service; accounted = refl; post = refl }
stop_Restores none (some e) = record { after = in_service; accounted = refl; post = refl }
stop_Restores (some e) g = record { after = in_service; accounted = refl; post = refl }

ticker_Restores :
    (settings : PollerSettings) (b : Bool) (m : Run (Unit {0}))
    → Restores in_service m
    → Restores in_service (start_ticker settings b >> m)
ticker_Restores settings true m h = carried (polling settings ∷ []) m refl h
ticker_Restores settings false m h = carried (polling settings ∷ panicked ∷ []) m refl h

start_Restores :
    (cfg : Config) (r : Result ExtractorKind) (m : Run (Unit {0}))
    → Restores in_service m
    → Restores in_service (start_poller cfg r >> (emit (api_listening (api_server cfg)) >> m))
unfolding start_poller
start_Restores cfg (ok kind) m h =
    ticker_Restores _ (is_positive cfg.poll_interval) _ (Ends-emit in_service _ m refl h)
start_Restores cfg (err e) m h = Ends-emit in_service _ _ refl (Ends-emit in_service _ m refl h)

-- The client of the object storage was made, but its bucket cannot be had.
module _ (O : ObjectStore) (quote : Text → Text) (bucket : Text) where
  abbrev pub LosesClient : Option Failure → O.State → Type 0
  LosesClient f s = (f ≡ none) × ((e : Failure) × ((new_client O quote bucket none s).0 ≡ err e))

  abbrev pub Leaves : Held → Option Failure → O.State → Held → Type 0
  Leaves held f s after = (after ≡ held) ⊎ ((after ≡ object_storage ∷ held) × LosesClient f s)

  abbrev with_database : Held
  with_database = database ∷ log_stream ∷ []

  -- gcs.New with the rest of the run, by what it returns.
  storage_Leaves :
      (s : O.State) (m : Run (Unit {0})) (r : Result Client)
      → (new_client O quote bucket none s).0 ≡ r
      → Restores in_service m
      → Ends with_database
          ((connected none, r) >>= λ c. deferred (closed object_storage ∷ []) m)
          (λ _ after. after ≡ with_database)
          (Leaves with_database none s)
  storage_Leaves s m (err e) lost h = record {
    after = in_service;
    accounted = refl;
    post = inr (refl, (refl, (e, lost)));
  }
  storage_Leaves s m (ok c) made h = carried (opened object_storage ∷ []) _ refl (
      Ends-deferred _ m h
        (λ a middle same. record { after = with_database; accounted = rw same; kept = refl })
        (λ middle same. record { after = with_database; accounted = rw same; kept = inl refl }))

  client_Leaves :
      (f : Option Failure) (s : O.State) (m : Run (Unit {0}))
      → Restores in_service m
      → Ends with_database
          ((connected f, (new_client O quote bucket f s).0) >>= λ c.
            deferred (closed object_storage ∷ []) m)
          (λ _ after. after ≡ with_database)
          (Leaves with_database f s)
  unfolding new_client
  client_Leaves (some e) s m h = record { after = with_database; accounted = refl; post = inl refl }
  client_Leaves none s m h = storage_Leaves s m (new_client O quote bucket none s).0 refl h

  -- NewPool with the rest of the run.
  pool_Leaves :
      (connect ping f : Option Failure) (s : O.State) (m : Run (Unit {0}))
      → Ends with_database m (λ _ after. after ≡ with_database) (Leaves with_database f s)
      → Ends
          (log_stream ∷ [])
          (new_pool connect ping >> deferred (closed database ∷ []) m)
          (λ _ after. after ≡ log_stream ∷ [])
          (Leaves (log_stream ∷ []) f s)
  unfolding new_pool
  pool_Leaves (some e) ping f s m h = record {
    after = log_stream ∷ [];
    accounted = refl;
    post = inl refl;
  }
  pool_Leaves none (some e) f s m h = record {
    after = log_stream ∷ [];
    accounted = refl;
    post = inl refl;
  }
  pool_Leaves none none f s m h = carried (opened database ∷ []) _ refl (
      Ends-deferred _ m h
        (λ a middle same. record { after = log_stream ∷ []; accounted = rw same; kept = refl })
        (λ middle left. elim left [
          | inl same ↦ record { after = log_stream ∷ []; accounted = rw same; kept = inl refl }
          | inr (same, lost) ↦ record {
            after = object_storage ∷ log_stream ∷ [];
            accounted = rw same;
            kept = inr (refl, lost);
          }
        ]))

  flush_account :
      (base : Held) (o : Option Failure) → account (log_stream ∷ base) (flush_events o) ≡ some base
  flush_account base none = refl
  flush_account base (some e) = refl

  flush_account_left :
      (o : Option Failure)
      → account (object_storage ∷ log_stream ∷ []) (flush_events o) ≡ some (object_storage ∷ [])
  flush_account_left none = refl
  flush_account_left (some e) = refl

  -- NewWithOTLP with the rest of the run.
  logger_Leaves :
      {A : Type 0} (r : Result A) (last : A → Option Failure) (f : Option Failure) (s : O.State)
      (m : Run (Unit {0}))
      → Ends (log_stream ∷ []) m (λ _ after. after ≡ log_stream ∷ []) (Leaves (log_stream ∷ []) f s)
      → Ends []
          (made_logger r >>= λ log. deferred (flush_events (last log)) m)
          (λ _ after. after ≡ [])
          (Leaves [] f s)
  logger_Leaves (err e) last f s m h = record { after = []; accounted = refl; post = inl refl }
  logger_Leaves (ok log) last f s m h = carried (opened log_stream ∷ []) _ refl (
      Ends-deferred _ m h
        (λ a middle same. record {
          after = [];
          accounted = rw same (flush_account [] (last log));
          kept = refl;
        })
        (λ middle left. elim left [
          | inl same ↦ record {
            after = [];
            accounted = rw same (flush_account [] (last log));
            kept = inl refl;
          }
          | inr (same, lost) ↦ record {
            after = object_storage ∷ [];
            accounted = rw same (flush_account_left (last log));
            kept = inr (refl, lost);
          }
        ]))

module _ (L : Slog) (O : ObjectStore) (u : Unicode) (quote : Text → Text)
    (parse_duration : Text → Option Duration) (env : Text → Text) (calls : ApiCalls O) where
  served_Restores :
      (e : ServeEnd) → Restores in_service (served_until L O u quote parse_duration env calls e)
  unfolding served_until
  served_Restores (serve_failed e) = record { after = in_service; accounted = refl; post = refl }
  served_Restores interrupted = stop_Restores calls.drain_fault (shutdown calls.waited)

  with_storage-Restores :
      (cfg : Config) → Restores in_service (with_storage L O u quote parse_duration env calls cfg)
  unfolding with_storage
  with_storage-Restores cfg = start_Restores cfg _ _ (served_Restores calls.ended)

  -- How a run may end for the resources: all given back, but for a client without its bucket.
  abbrev pub Released : Config → Held → Type 0
  Released cfg = Leaves O quote cfg.gcs_bucket [] calls.storage_fault calls.objects

  with_config_Ends :
      (cfg : Config)
      → Ends []
          (with_config L O u quote parse_duration env calls cfg)
          (λ _ after. after ≡ [])
          (Released cfg)
  unfolding with_config with_logger with_pool new_storage
  with_config_Ends cfg =
      let in_pool =
        client_Leaves O quote cfg.gcs_bucket calls.storage_fault calls.objects
          (with_storage L O u quote parse_duration env calls cfg) (with_storage-Restores cfg) in
      logger_Leaves O quote cfg.gcs_bucket _ _ calls.storage_fault calls.objects _ (
        pool_Leaves O quote cfg.gcs_bucket calls.connect_fault calls.ping_fault calls.storage_fault
          calls.objects _ in_pool)

  -- What a process leaves open: nothing, or the client of the object storage.
  abbrev pub LeavesOpen : Exit → Held → Type 0
  LeavesOpen exit after =
      (after ≡ [])
      ⊎ ((after ≡ object_storage ∷ [])
          × (exit.status ≡ 1)
          × ((cfg : Config) × (load quote parse_duration env ≡ ok cfg)
              × LosesClient O quote cfg.gcs_bucket calls.storage_fault calls.objects))

  exit_account :
      (cfg : Config) (m : Run (Unit {0}))
      → load quote parse_duration env ≡ ok cfg
      → Ends [] m (λ _ after. after ≡ []) (Released cfg)
      → (after : Held) × (account [] (exit_with L O u quote parse_duration env calls m).events
          ≡ some after)
        × LeavesOpen (exit_with L O u quote parse_duration env calls m) after
  exit_account cfg (t, ok a) loaded e = (e.after, e.accounted, inl e.post)
  exit_account cfg (t, err x) loaded e = (
    e.after,
    account-append [] t _ ∙ rw e.accounted,
    elim e.post [ inl same ↦ inl same | inr (same, lost) ↦ inr (same, refl, (cfg, loaded, lost)) ],
  )

  config_account :
      (r : Result Config)
      → load quote parse_duration env ≡ r
      → let x =
          exit_with L O u quote parse_duration env calls
            (returned r >>= λ cfg. with_config L O u quote parse_duration env calls cfg) in
        (after : Held) × (account [] x.events ≡ some after) × LeavesOpen x after
  config_account (err e) loaded = ([], refl, inl refl)
  config_account (ok cfg) loaded =
      exit_account cfg _ loaded (carried [] _ refl (with_config_Ends cfg))

  -- What the main goroutine does, without a panic of another.
  pub main_resources :
      let x =
        exit_with L O u quote parse_duration env calls (run L O u quote parse_duration env calls) in
      (after : Held) × (account [] x.events ≡ some after) × LeavesOpen x after
  unfolding run
  main_resources = config_account (load quote parse_duration env) refl
