-- ===== src/Logger/Levels.antt =====
-- The stream of the collector is kept at the level of stderr.
use tax_deeds.Config.{Int64}
use tax_deeds.Logger.{
  Slog, Level, LevelHandler, Logger, Options, level_enabled, level_with_attrs, level_with_group,
  level_number, int_leb, new_with_otlp, new, relabel, parse_level, shipping,
}
use tax_deeds.Failure.{◌>>=◌, ok, err, Result}
use tax_deeds.Text.{codes, Text, Unicode, is_empty}
use tax_deeds.Base.{
  inr, inl, sym, Bool-cases, ◌≡◌, refl, ◌∙◌, ap, true, ◌&&◌, List, [], ◌∷◌, some, arith,
}

-- What the documentation of the handlers says of their levels.
pub record KeepsLevels (L : Slog) : Type 0 where
  pub enabled-json_handler :
      (m : Level) (l : Int64) → L.enabled (L.json_handler m) l ≡ int_leb (level_number m) l
  pub enabled-otel_handler :
      (service : Text) (r : L.Resource) (x : L.Exporter) (l : Int64)
      → L.enabled (L.otel_handler service r x) l ≡ true
  pub enabled-with_attrs :
      (a : L.Attrs) (h : L.Handler) (l : Int64) → L.enabled (L.with_attrs a h) l ≡ L.enabled h l
  pub enabled-with_group :
      (name : Text) (h : L.Handler) (l : Int64) → L.enabled (L.with_group name h) l ≡ L.enabled h l

-- `With` and `WithGroup`, as a logger is passed on
pub data Derive (L : Slog) : Type 0 where
  attrs : L.Attrs → Derive L
  group : Text → Derive L

module _ (L : Slog) where
  abbrev pub derive : Derive L → LevelHandler L → LevelHandler L
  derive (attrs a) h = level_with_attrs L a h
  derive (group name) h = level_with_group L name h

  unfoldable pub derived : List (Derive L) → LevelHandler L → LevelHandler L
  derived [] h = h
  derived (d ∷ ds) h = derived ds (derive d h)

  module _ (keeps : KeepsLevels L) where
    level_enabled-derive :
        (d : Derive L) (h : LevelHandler L) (l : Int64)
        → level_enabled L (derive d h) l ≡ level_enabled L h l
    unfolding level_enabled level_with_attrs level_with_group
    level_enabled-derive (attrs a) h l =
        ap (λ e. int_leb (level_number h.min) l && e) (keeps.enabled-with_attrs a h.handler l)
    level_enabled-derive (group name) h l =
        ap (λ e. int_leb (level_number h.min) l && e) (keeps.enabled-with_group name h.handler l)

    level_enabled-derived :
        (ds : List (Derive L)) (h : LevelHandler L) (l : Int64)
        → level_enabled L (derived ds h) l ≡ level_enabled L h l
    unfolding derived
    level_enabled-derived [] h l = refl
    level_enabled-derived (d ∷ ds) h l =
        level_enabled-derived ds (derive d h) l ∙ level_enabled-derive d h l

    module _ (u : Unicode) where
      -- What a logger with a collector is made of.
      abbrev IsShipping : Options → Logger L → LevelHandler L → Type 0
      IsShipping opts log h =
          (h.min ≡ parse_level u opts.level)
          × (log.stderr ≡ L.json_handler (parse_level u opts.level))
          × ((l : Int64) → L.enabled h.handler l ≡ true)

      none-IsShipping :
          (opts : Options) (log : Logger L) {h : LevelHandler L}
          → new L u opts.level ≡ log
          → log.otel ≡ some h
          → IsShipping opts log h
      unfolding new
      none-IsShipping opts log e o = absurd (cc (ap (λ (g : Logger L). g.otel) e ∙ o))

      shipping-IsShipping :
          (opts : Options) (log : Logger L) {h : LevelHandler L} (bridge : L.Handler)
          → ((l : Int64) → L.enabled bridge l ≡ true)
          → shipping L u opts bridge ≡ log
          → log.otel ≡ some h
          → IsShipping opts log h
      shipping-IsShipping opts log {h} bridge all e o =
          let made : LevelHandler L = record { min = parse_level u opts.level; handler = bridge } in
          let q : made ≡ h = cc (ap (λ (g : Logger L). g.otel) e ∙ o) in
          (
            sym (ap (λ (k : LevelHandler L). k.min) q),
            sym (ap (λ (g : Logger L). g.stderr) e),
            λ l. sym (ap (λ (k : LevelHandler L). L.enabled k.handler l) q) ∙ all l,
          )

      collector-IsShipping :
          (opts : Options) {log : Logger L} {h : LevelHandler L} (r : Result L.Resource)
          (x : Result L.Exporter)
          → (relabel L u (codes "otel resource") r >>= λ res.
              relabel L u (codes "otlp log exporter") x >>= λ exporter.
              ok (shipping L u opts (L.otel_handler opts.service res exporter)))
            ≡ ok log
          → log.otel ≡ some h
          → IsShipping opts log h
      collector-IsShipping opts (err e) x p o = absurd (cc p)
      collector-IsShipping opts (ok res) (err e) p o = absurd (cc p)
      collector-IsShipping opts {log} (ok res) (ok exporter) p o =
          shipping-IsShipping opts log _ (keeps.enabled-otel_handler opts.service res exporter)
            (cc p) o

      logger-IsShipping :
          (opts : Options) {log : Logger L} {h : LevelHandler L}
          → new_with_otlp L u opts ≡ ok log
          → log.otel ≡ some h
          → IsShipping opts log h
      unfolding new_with_otlp
      logger-IsShipping opts {log} e o = elim (Bool-cases (is_empty opts.otlp_endpoint)) [
        | inl off ↦ none-IsShipping opts log (cc (rw off at e)) o
        | inr on ↦ collector-IsShipping opts _ _ (rw on at e) o
      ]

      -- A logger that NewWithOTLP returns, whatever attributes and groups are added to its handlers
      -- later, sends the collector the records of exactly the levels that it writes to stderr,
      -- provided that the handlers of the libraries keep their documented levels.
      pub new_with_otlp_levels :
          (opts : Options) {log : Logger L} {h : LevelHandler L}
          → new_with_otlp L u opts ≡ ok log
          → log.otel ≡ some h
          → (ds : List (Derive L)) (l : Int64)
          → level_enabled L (derived ds h) l ≡ L.enabled log.stderr l
      unfolding level_enabled
      new_with_otlp_levels opts {log} {h} e o ds l =
          let s = logger-IsShipping opts e o in
          level_enabled-derived ds h l
          ∙ rw (s.0, s.2 l, s.1, keeps.enabled-json_handler (parse_level u opts.level) l)
              (ground arith)
