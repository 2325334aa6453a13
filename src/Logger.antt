-- ===== src/Logger.antt =====
-- pkg/logger/logger.go: the loggers of the three commands.
--
-- The handlers of slog and of the OTLP bridge are the libraries': their type is a parameter, and what
-- the program asks of them is in the record Slog.
pub mod Levels
use tax_deeds.Config.{Int64, plus, minus}
use tax_deeds.Failure.{Failure, Result, ok, err, wrapped, ◌>>=◌}
use tax_deeds.Text.{same, is_empty, Unicode, codes, to_lower, Text}
use tax_deeds.Base.{ℕ, Bool, true, false, ◌&&◌, ◌||◌, Option, none, some, leb, ◌==◌, if◌then◌else◌}

-- The levels of slog
pub data Level : Type 0 where
  level_debug level_info level_warn level_error : Level

-- The number of a level of slog
abbrev pub level_number : Level → Int64
level_number level_debug = minus 4
level_number level_info = plus 0
level_number level_warn = plus 4
level_number level_error = plus 8

-- parseLevel
unfoldable pub parse_level : Unicode → Text → Level
unfolding to_lower
parse_level u level =
    let l = to_lower u level in
    if same l (codes "debug")
    then level_debug
    else if same l (codes "warn")
    then level_warn
    else if same l (codes "error")
    then level_error
    else level_info

-- `a <= b` of two integers
abbrev pub int_leb : Int64 → Int64 → Bool
int_leb (plus a) (plus b) = leb a b
int_leb (minus a) (plus b) = true
int_leb (plus a) (minus b) = a == 0 && b == 0
int_leb (minus a) (minus b) = leb b a

pub record Options : Type 0 where
  pub level : Text
  pub service : Text
  pub environment : Text
  pub otlp_endpoint : Text

-- The handlers of the libraries, and the calls that build them.
pub record Slog : Type 1 where
  pub Handler : Type 0
  pub Attrs : Type 0
  pub Exporter : Type 0
  pub Resource : Type 0
  pub enabled : Handler → Int64 → Bool
  pub with_attrs : Attrs → Handler → Handler
  pub with_group : Text → Handler → Handler
  pub json_handler : Level → Handler  -- slog.NewJSONHandler on stderr
  pub otel_handler : Text → Resource → Exporter → Handler  -- otelslog.NewHandler
  pub resource : Text → Text → Result Resource  -- resource.New, of the service and the environment
  pub exporter : Text → Result Exporter  -- otlploggrpc.New, of the endpoint

module _ (L : Slog) where
  -- levelHandler
  pub record LevelHandler : Type 0 where
    pub min : Level
    pub handler : L.Handler

  -- Enabled
  unfoldable pub level_enabled : LevelHandler → Int64 → Bool
  level_enabled h l = int_leb (level_number h.min) l && L.enabled h.handler l

  -- WithAttrs
  unfoldable pub level_with_attrs : L.Attrs → LevelHandler → LevelHandler
  level_with_attrs attrs h = record { min = h.min; handler = L.with_attrs attrs h.handler }

  -- WithGroup
  unfoldable pub level_with_group : Text → LevelHandler → LevelHandler
  level_with_group name h = record { min = h.min; handler = L.with_group name h.handler }

  -- A logger writes to stderr, and to the collector if it has one: slog.NewMultiHandler
  pub record Logger : Type 0 where
    pub stderr : L.Handler
    pub otel : Option LevelHandler

  module _ (u : Unicode) where
    abbrev pub stderr_handler : Text → L.Handler
    stderr_handler level = L.json_handler (parse_level u level)

    -- New
    unfoldable pub new : Text → Logger
    unfolding parse_level
    new level = record { stderr = stderr_handler level; otel = none }

    abbrev pub shipping : Options → L.Handler → Logger
    shipping opts bridge = record {
      stderr = stderr_handler opts.level;
      otel = some (record { min = parse_level u opts.level; handler = bridge });
    }

    abbrev pub relabel : {A : Type 0} → Text → Result A → Result A
    relabel what (ok a) = ok a
    relabel what (err e) = err (wrapped what e)

    abbrev pub environment_of : Options → Text
    environment_of opts = if is_empty opts.environment then codes "dev" else opts.environment

    abbrev pub with_collector : Options → Result Logger
    with_collector opts =
        relabel (codes "otel resource") (L.resource opts.service (environment_of opts)) >>= λ res.
        relabel (codes "otlp log exporter") (L.exporter opts.otlp_endpoint) >>= λ exporter.
        ok (shipping opts (L.otel_handler opts.service res exporter))

    -- NewWithOTLP
    unfoldable pub new_with_otlp : Options → Result Logger
    unfolding parse_level new
    new_with_otlp opts =
        if is_empty opts.otlp_endpoint then ok (new opts.level) else with_collector opts

  abbrev pub flushed : Option LevelHandler → Option Failure → Option Failure
  flushed none answer = none
  flushed (some h) answer = answer

  -- ShutdownFunc: `answer` is what the provider of the collector answers, where there is one.
  abbrev pub log_shutdown : Logger → Option Failure → Option Failure
  log_shutdown log answer = flushed log.otel answer
