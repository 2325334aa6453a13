-- ===== src/Command/Api/Calm.antt =====
-- Where the interval of the poller is positive, no goroutine of cmd/api panics.
use tax_deeds.Command.Api.{
  api_server, logger_options, ApiCalls, served_until, start_poller, start_ticker, with_storage,
  with_pool, with_logger, with_config, run, new_pool, new_storage, connected, made_logger,
  after_wait, api_main, exit_with,
}
use tax_deeds.Command.{
  waited_for_pipelines, drained, database, object_storage, logged, api_listening, ApiServer, closed,
  ◌>>=◌, ◌>>◌, Run, Event, ServeEnd, is_panic, crashed, emit, check, deferred, returned,
  flush_events, PollerSettings, serve_failed, interrupted,
}
use tax_deeds.Config.{Config, load}
use tax_deeds.Failure.{Failure, Result, ok, err}
use tax_deeds.Ingest.Files.{shutdown}
use tax_deeds.Llm.Select.{new_extractor, ExtractorKind}
use tax_deeds.Logger.{log_shutdown, new_with_otlp, Slog}
use tax_deeds.Storage.{new_client, Client, ObjectStore}
use tax_deeds.Store.{Duration, is_positive}
use tax_deeds.Text.{codes, Text, Unicode}
use tax_deeds.Base.{
  ◌≡◌, refl, Bool, true, false, Option, none, some, List, [], ◌∷◌, ◌++◌, any, arith,
}

abbrev IsCalm : {A : Type 0} → Run A → Type 0
IsCalm m = any is_panic m.0 ≡ false

any-append_false :
    (s t : List Event)
    → any is_panic s ≡ false
    → any is_panic t ≡ false
    → any is_panic (s ++ t) ≡ false
any-append_false [] t p q = q
any-append_false (e ∷ s) t p q =
    let here' : is_panic e ≡ false = ground arith in
    rw (here', any-append_false s t (ground arith) q) refl

>>=-IsCalm :
    {A B : Type 0} (m : Run A) (f : A → Run B)
    → IsCalm m
    → ((a : A) → IsCalm (f a))
    → IsCalm (m >>= f)
>>=-IsCalm (s, ok a) f p q = any-append_false s _ p (q a)
>>=-IsCalm (s, err e) f p q = p

deferred-IsCalm :
    {A : Type 0} (last : List Event) (m : Run A)
    → IsCalm m
    → any is_panic last ≡ false
    → IsCalm (deferred last m)
deferred-IsCalm last (s, r) p q = any-append_false s last p q

check-IsCalm : (f : Option Failure) → IsCalm (check f)
check-IsCalm none = refl
check-IsCalm (some e) = refl

wait-IsCalm : (f : Option Failure) → IsCalm (after_wait f)
wait-IsCalm none = refl
wait-IsCalm (some e) = refl

flush_calm : (f : Option Failure) → any is_panic (flush_events f) ≡ false
flush_calm none = refl
flush_calm (some e) = refl

logger-IsCalm : {A : Type 0} (r : Result A) → IsCalm (made_logger r)
logger-IsCalm (ok a) = refl
logger-IsCalm (err e) = refl

connected_calm : (f : Option Failure) → any is_panic (connected f) ≡ false
connected_calm none = refl
connected_calm (some e) = refl

pool-IsCalm : (f g : Option Failure) → IsCalm (new_pool f g)
unfolding new_pool
pool-IsCalm none none = refl
pool-IsCalm none (some e) = refl
pool-IsCalm (some e) g = refl

ticker-IsCalm : (s : PollerSettings) (b : Bool) → b ≡ true → IsCalm (start_ticker s b)
ticker-IsCalm s true p = refl
ticker-IsCalm s false p = absurd (cc p)

start-IsCalm :
    (cfg : Config) (r : Result ExtractorKind)
    → is_positive cfg.poll_interval ≡ true
    → IsCalm (start_poller cfg r)
unfolding start_poller
start-IsCalm cfg (ok kind) p = ticker-IsCalm _ (is_positive cfg.poll_interval) p
start-IsCalm cfg (err e) p = refl

-- The layers of a run.
logger_layer :
    {A : Type 0} (r : Result A) (last : A → Option Failure) (m : Run (Unit {0}))
    → IsCalm m
    → IsCalm (made_logger r >>= λ log. deferred (flush_events (last log)) m)
logger_layer r last m h =
    >>=-IsCalm (made_logger r) (λ log. deferred (flush_events (last log)) m) (logger-IsCalm r)
      (λ log. deferred-IsCalm (flush_events (last log)) m h (flush_calm (last log)))

pool_layer :
    (f g : Option Failure) (m : Run (Unit {0}))
    → IsCalm m
    → IsCalm (new_pool f g >> deferred (closed database ∷ []) m)
pool_layer f g m h =
    >>=-IsCalm (new_pool f g) (λ _. deferred (closed database ∷ []) m) (pool-IsCalm f g)
      (λ _. deferred-IsCalm (closed database ∷ []) m h refl)

storage_layer :
    (f : Option Failure) (r : Result Client) (m : Run (Unit {0}))
    → IsCalm m
    → IsCalm ((connected f, r) >>= λ c. deferred (closed object_storage ∷ []) m)
storage_layer f r m h =
    >>=-IsCalm (connected f, r) (λ c. deferred (closed object_storage ∷ []) m) (connected_calm f)
      (λ _. deferred-IsCalm (closed object_storage ∷ []) m h refl)

listening_layer :
    (server : ApiServer) (m : Run (Unit {0})) → IsCalm m → IsCalm (emit (api_listening server) >> m)
listening_layer server (s, r) h = h

poller_layer :
    (cfg : Config) (r : Result ExtractorKind) (m : Run (Unit {0}))
    → is_positive cfg.poll_interval ≡ true
    → IsCalm m
    → IsCalm (start_poller cfg r >> (emit (api_listening (api_server cfg)) >> m))
poller_layer cfg r m p h =
    >>=-IsCalm (start_poller cfg r) (λ _. emit (api_listening (api_server cfg)) >> m)
      (start-IsCalm cfg r p) (λ _. listening_layer (api_server cfg) m h)

stop-IsCalm :
    (f g : Option Failure)
    → IsCalm (do
      emit (logged (codes "shutting down"))
      emit drained
      check f
      emit waited_for_pipelines
      after_wait g)
stop-IsCalm none none = refl
stop-IsCalm none (some e) = refl
stop-IsCalm (some e) g = refl

module _ (L : Slog) (O : ObjectStore) (u : Unicode) (quote : Text → Text)
    (parse_duration : Text → Option Duration) (env : Text → Text) (calls : ApiCalls O) where
  served-IsCalm : (e : ServeEnd) → IsCalm (served_until L O u quote parse_duration env calls e)
  unfolding served_until
  served-IsCalm (serve_failed e) = refl
  served-IsCalm interrupted = stop-IsCalm calls.drain_fault (shutdown calls.waited)

  with_config-IsCalm :
      (cfg : Config)
      → is_positive cfg.poll_interval ≡ true
      → IsCalm (with_config L O u quote parse_duration env calls cfg)
  unfolding with_config with_logger with_pool new_storage with_storage
  with_config-IsCalm cfg p =
      logger_layer (new_with_otlp L u (logger_options (codes "tax-deeds-api") cfg))
        (λ log. log_shutdown L log calls.flush_answer)
        (with_logger L O u quote parse_duration env calls cfg)
        (pool_layer calls.connect_fault calls.ping_fault
          (with_pool L O u quote parse_duration env calls cfg)
          (storage_layer calls.storage_fault
            ((new_client O quote cfg.gcs_bucket calls.storage_fault calls.objects).0)
            (with_storage L O u quote parse_duration env calls cfg)
            (poller_layer cfg
              (new_extractor quote calls.model_fault cfg.llm_provider cfg.llm_model
                cfg.llm_base_url)
              (served_until L O u quote parse_duration env calls calls.ended) p
              (served-IsCalm calls.ended))))

  loaded-IsCalm :
      (r : Result Config)
      → ((cfg : Config) → r ≡ ok cfg → is_positive cfg.poll_interval ≡ true)
      → IsCalm (returned r >>= λ cfg. with_config L O u quote parse_duration env calls cfg)
  loaded-IsCalm (ok cfg) t = with_config-IsCalm cfg (t cfg refl)
  loaded-IsCalm (err e) t = refl

  exit_calm :
      (m : Run (Unit {0}))
      → IsCalm m
      → crashed (exit_with L O u quote parse_duration env calls m)
        ≡ exit_with L O u quote parse_duration env calls m
  exit_calm (s, ok a) p = rw p refl
  exit_calm (s, err e) p = rw (any-append_false s _ p refl) refl

  pub api_main_calm :
      ((cfg : Config)
        → load quote parse_duration env ≡ ok cfg
        → is_positive cfg.poll_interval ≡ true)
      → api_main L O u quote parse_duration env calls
        ≡ exit_with L O u quote parse_duration env calls (run L O u quote parse_duration env calls)
  unfolding api_main run
  api_main_calm ticks =
      exit_calm (run L O u quote parse_duration env calls)
        (loaded-IsCalm (load quote parse_duration env) ticks)
