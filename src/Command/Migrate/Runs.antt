-- ===== src/Command/Migrate/Runs.antt =====
-- What a process of cmd/migrate does to the database, and its exit status.
use tax_deeds.Text.{same, codes, Text}
use tax_deeds.Base.{◌≡◌, ◌≢◌, refl, ◌↔◌, inl, inr, Option, none, some, [], ◌∷◌, Bool-cases}
use mathlib.Core.Path.{subst⁻¹}
use tax_deeds.Command.Migrate.{
  MigrateCalls, migrate, apply_command, open_database, require_url, with_dialect, run_command,
}
use tax_deeds.Command.Outcomes.{iff_trans, and_iff, >>=-IsOk, check-IsOk, deferred-IsOk}
use tax_deeds.Command.{database, closed, check, Migration, goose_up, goose_down, goose_status}
use tax_deeds.Config.Loads.{IsOk}
use tax_deeds.Failure.{Failure}
use tax_deeds.Text.Laws.{same_iff}

-- The names of the usage text
abbrev pub migration_name : Migration → Text
migration_name goose_up = codes "up"
migration_name goose_down = codes "down"
migration_name goose_status = codes "status"

module _ (quote : Text → Text) (calls : MigrateCalls) where
  -- The argument names a command of goose, which works.
  abbrev pub Applies : Text → Type 0
  Applies cmd = (m : Migration) × (cmd ≡ migration_name m) × (calls.goose m ≡ none)

  migrate-IsOk : (m : Migration) → IsOk (migrate quote calls m).1 ↔ (calls.goose m ≡ none)
  migrate-IsOk m = check-IsOk (calls.goose m)

  apply_command-Applies : (cmd : Text) → IsOk (apply_command quote calls cmd).1 → Applies cmd
  unfolding apply_command
  apply_command-Applies cmd p = elim (Bool-cases (same cmd (codes "up"))) [
    | inl is_up ↦ (goose_up, (same_iff _ _).0 is_up, (migrate-IsOk goose_up).0 (rw is_up at p))
    | inr not_up ↦ elim (Bool-cases (same cmd (codes "down"))) [
      | inl is_down ↦ (
        goose_down,
        (same_iff _ _).0 is_down,
        (migrate-IsOk goose_down).0 (rw (not_up, is_down) at p),
      )
      | inr not_down ↦ elim (Bool-cases (same cmd (codes "status"))) [
        | inl is_status ↦ (
          goose_status,
          (same_iff _ _).0 is_status,
          (migrate-IsOk goose_status).0 (rw (not_up, not_down, is_status) at p),
        )
        | inr not_status ↦ absurd (cc ((rw (not_up, not_down, not_status) at p).1))
      ]
    ]
  ]

  apply_named :
      (m : Migration) → calls.goose m ≡ none → IsOk (apply_command quote calls (migration_name m)).1
  unfolding apply_command same
  apply_named goose_up g = (migrate-IsOk goose_up).1 g
  apply_named goose_down g = (migrate-IsOk goose_down).1 g
  apply_named goose_status g = (migrate-IsOk goose_status).1 g

  apply_command-IsOk : (cmd : Text) → IsOk (apply_command quote calls cmd).1 ↔ Applies cmd
  apply_command-IsOk cmd = (
    apply_command-Applies cmd,
    λ (m, e, g). subst⁻¹ (λ (c : Text). IsOk (apply_command quote calls c).1) e (apply_named m g),
  )

  open_database-IsOk : (f : Option Failure) → IsOk (open_database quote calls f).1 ↔ (f ≡ none)
  unfolding open_database
  open_database-IsOk none = (λ _. refl, λ _. (tt, refl))
  open_database-IsOk (some e) = (λ (a, p). absurd (cc p), λ p. absurd (cc p))

  require_url-IsOk : (url : Text) → IsOk (require_url quote calls url).1 ↔ (url ≢ [])
  require_url-IsOk [] = (λ (a, p). absurd (cc p), λ n. absurd (n refl))
  require_url-IsOk (c ∷ s) = (λ _. λ p. cc p, λ _. (tt, refl))

  -- What a command needs to be carried out.
  pub record CarriesOut (url cmd : Text) : Type 0 where
    pub has_url : url ≢ []
    pub opens : calls.open_fault ≡ none
    pub dialect : calls.dialect_fault ≡ none
    pub applies : Applies cmd

  pub run_command-IsOk :
      (url cmd : Text) → IsOk (run_command quote calls url cmd).1 ↔ CarriesOut url cmd
  unfolding run_command
  run_command-IsOk url cmd =
      let by_dialect =
        iff_trans (>>=-IsOk (check calls.dialect_fault) _ λ _. apply_command-IsOk cmd)
          (and_iff (check-IsOk calls.dialect_fault) (λ p. p, λ p. p)) in
      let by_open =
        iff_trans
          (>>=-IsOk (open_database quote calls calls.open_fault) _ λ _.
            iff_trans (deferred-IsOk (closed database ∷ []) (with_dialect quote calls cmd))
              by_dialect)
          (and_iff (open_database-IsOk calls.open_fault) (λ p. p, λ p. p)) in
      iff_trans (>>=-IsOk (require_url quote calls url) _ λ _. by_open) (
        λ (r, (o, (d, a))). record {
          has_url = (require_url-IsOk url).0 r;
          opens = o;
          dialect = d;
          applies = a;
        },
        λ w. ((require_url-IsOk url).1 w.has_url, (w.opens, (w.dialect, w.applies))),
      )
