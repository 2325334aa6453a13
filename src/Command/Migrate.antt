-- ===== src/Command/Migrate.antt =====
-- cmd/migrate/main.go. The library goose is a parameter: what SetDialect and its commands answer.
pub mod Runs
pub mod Performed
pub mod Process
use tax_deeds.Text.{Unicode, same, codes, Text}
use tax_deeds.Base.{
  ℕ, zero, suc, ◌+◌, ◌-◌, ◌*◌, ◌≤◌, ◌<◌, ◌≡◌, ◌≢◌, refl, sym, ap, ◌∙◌, ◌↔◌, ◌⊎◌, inl, inr, Bool,
  true, false, ◌&&◌, ◌||◌, not, Option, none, some, List, [], ◌∷◌, ◌++◌, map, arith, ltb, leb, ◌==◌,
  if◌then◌else◌, Bool-cases, All, length,
}
use tax_deeds.Command.{
  Event, Run, Exit, ◌>>=◌, ◌>>◌, emit, done, returned, check, opened, closed, deferred, database,
  log_stream, logged, printed, flush, Migration, goose_up, goose_down, goose_status, migrating,
}
use tax_deeds.OcrWorker.Env.{text_env}
use tax_deeds.Logger.{Slog, Logger, Options, new_with_otlp}
use tax_deeds.Failure.{Failure, Result, ok, err, wrapped, plain}

pub record MigrateCalls : Type 0 where
  pub open_fault : Option Failure  -- sql.Open
  pub dialect_fault : Option Failure
  pub goose : Migration → Option Failure
  pub flush_answer : Option Failure

abbrev pub outcome_log : Result (Unit {0}) → Event
outcome_log (ok _) = logged (codes "migration complete")
outcome_log (err e) = logged (codes "migration failed")

abbrev pub migrate_status : Result (Unit {0}) → ℕ
migrate_status (ok _) = 0
migrate_status (err e) = 1

module _ (quote : Text → Text) (calls : MigrateCalls) where
  abbrev pub migrate : Migration → Run (Unit {0})
  migrate m = do emit (migrating m); check (calls.goose m)

  -- The switch on the command.
  unfoldable pub apply_command : Text → Run (Unit {0})
  apply_command cmd =
      if same cmd (codes "up")
      then migrate goose_up
      else if same cmd (codes "down")
      then migrate goose_down
      else if same cmd (codes "status")
      then migrate goose_status
      else returned (
          err (plain (codes "unknown command " ++ quote cmd ++ codes " (want up, down or status)")))

  unfoldable pub open_database : Option Failure → Run (Unit {0})
  open_database none = emit (opened database)
  open_database (some e) = returned (err (wrapped (codes "open database") e))

  abbrev pub require_url : Text → Run (Unit {0})
  require_url [] = returned (err (plain (codes "DATABASE_URL is required")))
  require_url (c ∷ s) = done

  abbrev pub with_dialect : Text → Run (Unit {0})
  with_dialect cmd = do check calls.dialect_fault; apply_command cmd

  -- run, behind the reading of the command
  unfoldable pub run_command : Text → Text → Run (Unit {0})
  unfolding apply_command open_database
  run_command url cmd = do
    require_url url
    open_database calls.open_fault
    deferred (closed database ∷ []) (with_dialect cmd)

  -- run: os.Args starts with the name of the program.
  unfoldable pub migrate_run : Text → List Text → Run (Unit {0})
  unfolding run_command
  migrate_run url (program ∷ cmd ∷ rest) = run_command url cmd
  migrate_run url _ = returned (err (plain (codes "usage: migrate <up|down|status>")))

  module _ (L : Slog) (u : Unicode) (env : Text → Text) (args : List Text) where
    abbrev pub migrate_options : Options
    migrate_options = record {
      level = text_env env (codes "LOG_LEVEL") (codes "info");
      service = codes "tax-deeds-migrate";
      environment = text_env env (codes "APP_ENV") (codes "dev");
      otlp_endpoint = env (codes "OTEL_EXPORTER_OTLP_ENDPOINT");
    }

    abbrev pub ended_migration : Logger L → Run (Unit {0}) → Exit
    ended_migration log m = record {
      events = opened log_stream ∷ (m.0 ++ outcome_log m.1 ∷ flush L log calls.flush_answer);
      status = migrate_status m.1;
    }

    abbrev pub migrate_with : Result (Logger L) → Exit
    migrate_with (err e) = record { events = printed (codes "logger:") e ∷ []; status = 1 }
    migrate_with (ok log) = ended_migration log (migrate_run (env (codes "DATABASE_URL")) args)

    -- main
    unfoldable pub migrate_main : Exit
    unfolding migrate_run new_with_otlp
    migrate_main = migrate_with (new_with_otlp L u migrate_options)
