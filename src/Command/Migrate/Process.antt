-- ===== src/Command/Migrate/Process.antt =====
-- A whole process of cmd/migrate.
use mathlib.Core.Path.{subst}
use mathlib.Core.List.{append-nil}
use tax_deeds.Text.{codes, Unicode, Text}
use tax_deeds.Base.{◌≡◌, refl, ap, ◌∙◌, ◌↔◌, ◌⊎◌, inl, inr, Option, none, some, List, [], ◌∷◌, ◌++◌}
use tax_deeds.Command.Migrate.Runs.{migration_name, CarriesOut, run_command-IsOk}
use tax_deeds.Command.Migrate.Performed.{performed, performed-append, Named, run_command-Performs}
use tax_deeds.Command.Migrate.{
  MigrateCalls, migrate_run, outcome_log, migrate_options, ended_migration, migrate_with,
  migrate_main,
}
use tax_deeds.Command.Outcomes.{iff_trans}
use tax_deeds.Command.Resources.{account, account-append}
use tax_deeds.Command.{Run, Exit, log_stream, flush_events, Migration}
use tax_deeds.Config.Loads.{IsOk}
use tax_deeds.Failure.{Failure, Result, ok, err}
use tax_deeds.Logger.{Slog, Logger, new_with_otlp, log_shutdown}

-- os.Args[1]
abbrev pub command_arg : List Text → Option Text
command_arg (program ∷ cmd ∷ rest) = some cmd
command_arg _ = none

epilogue_account :
    (r : Result (Unit {0})) (o : Option Failure)
    → account (log_stream ∷ []) (outcome_log r ∷ flush_events o) ≡ some []
epilogue_account (ok a) none = refl
epilogue_account (ok a) (some e) = refl
epilogue_account (err x) none = refl
epilogue_account (err x) (some e) = refl

epilogue_performed :
    (r : Result (Unit {0})) (o : Option Failure) → performed (outcome_log r ∷ flush_events o) ≡ []
epilogue_performed (ok a) none = refl
epilogue_performed (ok a) (some e) = refl
epilogue_performed (err x) none = refl
epilogue_performed (err x) (some e) = refl

module _ (quote : Text → Text) (calls : MigrateCalls) (L : Slog) (u : Unicode) (env : Text → Text)
    (args : List Text) where
  abbrev exit_of : Exit
  exit_of = migrate_main quote calls L u env args

  -- What the process did to the database.
  abbrev pub Performed : Exit → Type 0
  Performed exit =
      (performed exit.events ≡ [])
      ⊎ ((m : Migration) × (command_arg args ≡ some (migration_name m))
          × (performed exit.events ≡ m ∷ []))

  -- What a process needs to end well.
  pub record Migrates : Type 0 where
    pub logs : IsOk (new_with_otlp L u (migrate_options quote calls L u env args))
    pub cmd : Text
    pub is_given : command_arg args ≡ some cmd
    pub carries_out : CarriesOut quote calls (env (codes "DATABASE_URL")) cmd

  run-IsOk :
      (given : List Text)
      → IsOk (migrate_run quote calls (env (codes "DATABASE_URL")) given).1 ↔ (
          (cmd : Text) × (command_arg given ≡ some cmd)
          × CarriesOut quote calls (env (codes "DATABASE_URL")) cmd)
  unfolding migrate_run
  run-IsOk [] = (λ (a, p). absurd (cc p), λ (c, p, w). absurd (cc p))
  run-IsOk (program ∷ []) = (λ (a, p). absurd (cc p), λ (c, p, w). absurd (cc p))
  run-IsOk (program ∷ cmd ∷ rest) = (
    λ p. (cmd, refl, (run_command-IsOk quote calls _ cmd).0 p),
    λ (c, q, w). (run_command-IsOk quote calls _ cmd).1 (
        let same_cmd : c ≡ cmd = cc q in
        subst (CarriesOut quote calls (env (codes "DATABASE_URL"))) same_cmd w),
  )

  -- The whole process, from the logger and the run.
  ended_zero :
      (log : Logger L) (m : Run (Unit {0}))
      → ((ended_migration quote calls L u env args log m).status ≡ 0) ↔ IsOk m.1
  ended_zero log (s, ok a) = (λ p. (a, refl), λ p. refl)
  ended_zero log (s, err e) = (λ p. absurd (cc p), λ (a, p). absurd (cc p))

  with_zero :
      (r : Result (Logger L))
      → ((migrate_with quote calls L u env args r).status ≡ 0)
        ↔ (IsOk r × IsOk (migrate_run quote calls (env (codes "DATABASE_URL")) args).1)
  with_zero (ok log) = (
    λ p. (
      (log, refl),
      (ended_zero log (migrate_run quote calls (env (codes "DATABASE_URL")) args)).0 p,
    ),
    λ (_, w). (ended_zero log (migrate_run quote calls (env (codes "DATABASE_URL")) args)).1 w,
  )
  with_zero (err e) = (λ p. absurd (cc p), λ ((a, p), w). absurd (cc p))

  -- What a run leaves to the end of the process.
  record Finishes (m : Run (Unit {0})) : Type 0 where
    restored : account (log_stream ∷ []) m.0 ≡ some (log_stream ∷ [])
    named :
        (performed m.0 ≡ [])
        ⊎ ((n : Migration) × (command_arg args ≡ some (migration_name n))
            × (performed m.0 ≡ n ∷ []))

  Named-of :
      (cmd : Text) (r : Result (Unit {0})) (ms : List Migration)
      → command_arg args ≡ some cmd
      → Named cmd r ms
      → (ms ≡ []) ⊎ ((n : Migration) × (command_arg args ≡ some (migration_name n)) × (ms ≡ n ∷ []))
  Named-of cmd (ok a) ms e (n, c, p) = inr (n, e ∙ ap some c, p)
  Named-of cmd (err x) ms e (inl p) = inl p
  Named-of cmd (err x) ms e (inr (n, c, p)) = inr (n, e ∙ ap some c, p)

  run_Finishes :
      (given : List Text)
      → command_arg args ≡ command_arg given
      → Finishes (migrate_run quote calls (env (codes "DATABASE_URL")) given)
  unfolding migrate_run
  run_Finishes [] e = record { restored = refl; named = inl refl }
  run_Finishes (program ∷ []) e = record { restored = refl; named = inl refl }
  run_Finishes (program ∷ cmd ∷ rest) e =
      let h = run_command-Performs quote calls (env (codes "DATABASE_URL")) cmd in
      record { restored = h.restored; named = Named-of cmd _ _ e h.named }

  ended_Performed :
      (log : Logger L) (m : Run (Unit {0}))
      → Finishes m
      → let x = ended_migration quote calls L u env args log m in
        (account [] x.events ≡ some []) × Performed x
  ended_Performed log (s, r) h =
      let o = log_shutdown L log calls.flush_answer in
      let same : performed (s ++ outcome_log r ∷ flush_events o) ≡ performed s =
        performed-append s _ ∙ rw (epilogue_performed r o) (append-nil (performed s)) in
      (
        account-append (log_stream ∷ []) s _ ∙ rw h.restored (epilogue_account r o),
        elim h.named [ inl p ↦ inl (same ∙ p) | inr (n, c, p) ↦ inr (n, c, same ∙ p) ],
      )

  with_Performed :
      (r : Result (Logger L))
      → let x = migrate_with quote calls L u env args r in
        (account [] x.events ≡ some []) × Performed x
  with_Performed (ok log) = ended_Performed log _ (run_Finishes args refl)
  with_Performed (err e) = (refl, inl refl)

  -- A process of cmd/migrate ends with status 0 exactly if the logger is built, its first argument
  -- names one of the three commands of goose, DATABASE_URL is set, the database can be opened, the
  -- dialect is accepted and that command works. Whatever happens, it runs no other command of goose,
  -- this one at most once, uses and closes only what it has opened, and closes all of it.
  pub migrate_main_lem :
      let x = migrate_main quote calls L u env args in
      ((x.status ≡ 0) ↔ Migrates) × (account [] x.events ≡ some []) × Performed x
  unfolding migrate_main
  migrate_main_lem =
      let made = new_with_otlp L u (migrate_options quote calls L u env args) in
      let (restored, ran_named) = with_Performed made in
      (
        iff_trans (with_zero made) (
          λ (l, w).
              let (cmd, q, c) = (run-IsOk args).0 w in
              record { logs = l; cmd = cmd; is_given = q; carries_out = c },
          λ w. (w.logs, (run-IsOk args).1 (w.cmd, w.is_given, w.carries_out)),
        ),
        restored,
        ran_named,
      )
