-- ===== src/Command/Tests.antt =====
-- The commands in small surroundings.
use tax_deeds.Text.{rune_lower, Text, same, codes}
use tax_deeds.Base.{
  ◌∙◌, sym, ap, ℕ, ◌≡◌, refl, ◌↔◌, Bool, true, Option, none, some, List, [], ◌∷◌, if◌then◌else◌,
}
use tax_deeds.Samples.{ascii, quoted}
use tax_deeds.Storage.Memory.{in_memory}
use tax_deeds.Storage.{new_client}
use tax_deeds.Ingest.Files.{pipelines_done}
use tax_deeds.Logger.Levels.{KeepsLevels, attrs, group, derived, new_with_otlp_levels}
use tax_deeds.Logger.{
  level_warn, Slog, Level, Logger, LevelHandler, Options, int_leb, level_number, level_enabled,
  new_with_otlp,
}
use tax_deeds.Command.Api.Discipline.{LeavesOpen}
use tax_deeds.Command.Api.Status.{api_main_lem, RunsWell}
use tax_deeds.Command.Api.{ApiCalls, api_main}
use tax_deeds.Command.Worker.Discipline.{EndsProcess}
use tax_deeds.Command.Worker.Status.{worker_main_lem, WorksWell}
use tax_deeds.Command.Worker.{WorkerCalls, worker_main}
use tax_deeds.Command.Migrate.Process.{migrate_main_lem, Migrates, Performed}
use tax_deeds.Command.Migrate.{MigrateCalls, migrate_main}
use tax_deeds.Command.Resources.{Held, account}
use tax_deeds.Command.{interrupted}
use tax_deeds.Config.{plus, Config, load, Int64}
use tax_deeds.Failure.{err, Result, plain, ok}
use tax_deeds.Store.{is_positive, Duration}

abbrev level_enough : Option Level → Int64 → Bool
level_enough none l = true
level_enough (some m) l = int_leb (level_number m) l

-- A handler is its least level, if it has one.
abbrev small_slog : Slog
small_slog = record {
  Handler = Option Level;
  Attrs = ℕ;
  Exporter = Unit {0};
  Resource = Unit {0};
  enabled = level_enough;
  with_attrs = λ a h. h;
  with_group = λ name h. h;
  json_handler = λ m. some m;
  otel_handler = λ service r x. none;
  resource = λ service environment. ok tt;
  exporter = λ endpoint. ok tt;
}

abbrev small_slog-KeepsLevels : KeepsLevels small_slog
small_slog-KeepsLevels = record {
  enabled-json_handler = λ m l. refl;
  enabled-otel_handler = λ service r x l. refl;
  enabled-with_attrs = λ a h l. refl;
  enabled-with_group = λ name h l. refl;
}

abbrev warnings : Options
warnings = record {
  level = codes "WARN";
  service = codes "tax-deeds-api";
  environment = [];
  otlp_endpoint = codes "http://localhost:4317";
}

abbrev bridge : LevelHandler small_slog
bridge = record { min = level_warn; handler = none }

abbrev warning_logger : Logger small_slog
warning_logger = record { stderr = some level_warn; otel = some bridge }

warning_logger-new : new_with_otlp small_slog ascii warnings ≡ ok warning_logger
unfolding new_with_otlp same rune_lower
warning_logger-new = refl

levels_agree :
    level_enabled small_slog
      (derived small_slog (attrs 1 ∷ group (codes "db") ∷ []) bridge)
      (plus 0)
    ≡ small_slog.enabled warning_logger.stderr (plus 0)
levels_agree =
    new_with_otlp_levels small_slog small_slog-KeepsLevels ascii warnings warning_logger-new refl
      (attrs 1 ∷ group (codes "db") ∷ []) (plus 0)

abbrev only_url : Text → Text
only_url key = if same key (codes "DATABASE_URL") then codes "postgres://db" else []

abbrev no_duration : Text → Option Duration
no_duration s = none

abbrev well : ApiCalls in_memory
well = record {
  connect_fault = none;
  ping_fault = none;
  storage_fault = none;
  objects = λ b o. none;
  model_fault = λ kind. none;
  ended = interrupted;
  drain_fault = none;
  waited = pipelines_done;
  flush_answer = none;
}

api_main_zero : (api_main small_slog in_memory ascii quoted no_duration only_url well).status ≡ 0
unfolding api_main new_client same
api_main_zero = refl

abbrev ticks : Result Config → Bool
ticks (ok cfg) = is_positive cfg.poll_interval
ticks (err e) = true

default_ticks : ticks (load quoted no_duration only_url) ≡ true
unfolding load same
default_ticks = refl

ticks_by_default :
    (cfg : Config)
    → load quoted no_duration only_url ≡ ok cfg
    → is_positive cfg.poll_interval ≡ true
ticks_by_default cfg h = ap ticks (sym h) ∙ default_ticks

api_main_lem_example :
    let x = api_main small_slog in_memory ascii quoted no_duration only_url well in
    ((x.status ≡ 0) ↔ (
      (cfg : Config) × (load quoted no_duration only_url ≡ ok cfg)
      × RunsWell small_slog in_memory ascii quoted no_duration only_url well cfg))
    × ((after : Held) × (account [] x.events ≡ some after)
        × LeavesOpen small_slog in_memory ascii quoted no_duration only_url well x after)
api_main_lem_example =
    api_main_lem small_slog in_memory ascii quoted no_duration only_url well ticks_by_default

abbrev worker_well : WorkerCalls
worker_well = record {
  connect_fault = none;
  storage_fault = some (plain (codes "no credentials"));
  ended = interrupted;
  drain_fault = none;
  flush_answer = none;
}

-- The stub engine needs no client of the object storage.
worker_main_zero : (worker_main small_slog ascii quoted no_duration only_url worker_well).status ≡ 0
unfolding worker_main same
worker_main_zero = refl

worker_main_lem_example :
    let x = worker_main small_slog ascii quoted no_duration only_url worker_well in
    ((x.status ≡ 0) ↔ WorksWell small_slog ascii quoted no_duration only_url worker_well)
    × EndsProcess x
worker_main_lem_example = worker_main_lem small_slog ascii quoted no_duration only_url worker_well

abbrev migrate_well : MigrateCalls
migrate_well = record {
  open_fault = none;
  dialect_fault = none;
  goose = λ m. none;
  flush_answer = none;
}

abbrev up_args : List Text
up_args = codes "migrate" ∷ codes "up" ∷ []

migrate_main_lem_example :
    let x = migrate_main quoted migrate_well small_slog ascii only_url up_args in
    ((x.status ≡ 0) ↔ Migrates quoted migrate_well small_slog ascii only_url up_args)
    × (account [] x.events ≡ some [])
    × Performed quoted migrate_well small_slog ascii only_url up_args x
migrate_main_lem_example = migrate_main_lem quoted migrate_well small_slog ascii only_url up_args

migrates_up : (migrate_main quoted migrate_well small_slog ascii only_url up_args).status ≡ 0
unfolding migrate_main same
migrates_up = refl
