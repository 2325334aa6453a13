-- ===== src/Command/Migrate/Performed.antt =====
-- Which commands of goose a process of cmd/migrate runs, and that it gives back what it takes.
use mathlib.Core.Path.{subst⁻¹}
use mathlib.Core.List.{append_assoc, append-nil}
use tax_deeds.Text.{codes, same, Text}
use tax_deeds.Base.{
  ◌≡◌, refl, sym, ap, ◌∙◌, ◌⊎◌, inl, inr, Option, none, some, List, [], ◌∷◌, ◌++◌, Bool-cases,
}
use tax_deeds.Command.Migrate.Runs.{migration_name}
use tax_deeds.Command.Migrate.{MigrateCalls, apply_command, open_database, require_url, run_command}
use tax_deeds.Command.Resources.{Held, account, account-append}
use tax_deeds.Command.{
  ◌>>◌, Run, Event, database, log_stream, closed, emit, check, deferred, Migration, goose_up,
  goose_down, goose_status, migrating,
}
use tax_deeds.Failure.{Failure, Result, ok, err}
use tax_deeds.Text.Laws.{same_iff}

abbrev pub command_of : Event → List Migration
command_of (migrating m) = m ∷ []
command_of _ = []

abbrev pub performed : List Event → List Migration
performed [] = []
performed (e ∷ events) = command_of e ++ performed events

pub performed-append : (s t : List Event) → performed (s ++ t) ≡ performed s ++ performed t
performed-append [] t = refl
performed-append (e ∷ s) t =
    ap (λ (ms : List Migration). command_of e ++ ms) (performed-append s t)
    ∙ sym (append_assoc (command_of e) (performed s) (performed t))

-- The command that is named ran once, and no other; or none did, which only a failed run may say.
abbrev pub Named : Text → Result (Unit {0}) → List Migration → Type 0
Named cmd (ok a) ms = (m : Migration) × (cmd ≡ migration_name m) × (ms ≡ m ∷ [])
Named cmd (err e) ms = (ms ≡ []) ⊎ ((m : Migration) × (cmd ≡ migration_name m) × (ms ≡ m ∷ []))

-- A run from what is held, that gives back what it takes.
pub record Performs (held : Held) (cmd : Text) (m : Run (Unit {0})) : Type 0 where
  pub restored : account held m.0 ≡ some held
  pub named : Named cmd m.1 (performed m.0)

module _ (quote : Text → Text) (calls : MigrateCalls) where
  abbrev connected : Held
  connected = database ∷ log_stream ∷ []

  checked_Performs :
      (cmd : Text) (m : Migration) (f : Option Failure)
      → cmd ≡ migration_name m
      → Performs connected cmd (emit (migrating m) >> check f)
  checked_Performs cmd m none e = record { restored = refl; named = (m, e, refl) }
  checked_Performs cmd m (some x) e = record { restored = refl; named = inr (m, e, refl) }

  apply_Performs : (cmd : Text) → Performs connected cmd (apply_command quote calls cmd)
  unfolding apply_command
  apply_Performs cmd = elim (Bool-cases (same cmd (codes "up"))) [
    | inl is_up ↦
        rw is_up (checked_Performs cmd goose_up (calls.goose goose_up) ((same_iff _ _).0 is_up))
    | inr not_up ↦ rw not_up (elim (Bool-cases (same cmd (codes "down"))) [
      | inl is_down ↦
          rw is_down
            (checked_Performs cmd goose_down (calls.goose goose_down) ((same_iff _ _).0 is_down))
      | inr not_down ↦ rw not_down (elim (Bool-cases (same cmd (codes "status"))) [
        | inl is_status ↦ rw is_status (
            checked_Performs cmd goose_status (calls.goose goose_status)
              ((same_iff _ _).0 is_status))
        | inr not_status ↦ rw not_status (record { restored = refl; named = inl refl })
      ])
    ])
  ]

  dialect_Performs :
      (cmd : Text) (f : Option Failure) (m : Run (Unit {0}))
      → Performs connected cmd m
      → Performs connected cmd (check f >> m)
  dialect_Performs cmd none (s, r) h = record { restored = h.restored; named = h.named }
  dialect_Performs cmd (some e) m h = record { restored = refl; named = inl refl }

  -- Opening the database, with the rest of the run and the closing.
  closed_Named :
      (cmd : Text) (s : List Event) (r : Result (Unit {0}))
      → Named cmd r (performed s)
      → Named cmd r (performed (s ++ closed database ∷ []))
  closed_Named cmd s r h =
      subst⁻¹ (Named cmd r) (performed-append s (closed database ∷ []) ∙ append-nil (performed s)) h

  opened_Performs :
      (cmd : Text) (f : Option Failure) (m : Run (Unit {0}))
      → Performs connected cmd m
      → Performs
          (log_stream ∷ [])
          cmd
          (open_database quote calls f >> deferred (closed database ∷ []) m)
  unfolding open_database
  opened_Performs cmd (some e) m h = record { restored = refl; named = inl refl }
  opened_Performs cmd none (s, r) h = record {
    restored = account-append connected s _ ∙ rw h.restored;
    named = closed_Named cmd s r h.named;
  }

  required_Performs :
      (cmd url : Text) (m : Run (Unit {0}))
      → Performs (log_stream ∷ []) cmd m
      → Performs (log_stream ∷ []) cmd (require_url quote calls url >> m)
  required_Performs cmd [] m h = record { restored = refl; named = inl refl }
  required_Performs cmd (c ∷ url) (s, r) h = record { restored = h.restored; named = h.named }

  pub run_command-Performs :
      (url cmd : Text) → Performs (log_stream ∷ []) cmd (run_command quote calls url cmd)
  unfolding run_command
  run_command-Performs url cmd = required_Performs cmd url _ (
      opened_Performs cmd calls.open_fault _
        (dialect_Performs cmd calls.dialect_fault _ (apply_Performs cmd)))
