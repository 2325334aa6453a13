-- ===== src/Config/Tests.antt =====
-- Load on small environments.
use tax_deeds.Failure.{ok, ◌>>=◌}
use tax_deeds.Samples.{quoted}
use tax_deeds.Store.{Duration}
use tax_deeds.Config.Loads.{load-IsOk, IsDuration, IsInteger, IsOk}
use tax_deeds.Text.{codes, same, Text}
use tax_deeds.Config.{plus, minus, duration_env, int_env, load_rest, digits_value, load, parse_int}
use tax_deeds.Base.{◌≡◌, ◌≢◌, refl, ◌↔◌, Option, none, some, [], if◌then◌else◌}

abbrev only_url : Text → Text
only_url key = if same key (codes "DATABASE_URL") then codes "db" else []

abbrev no_duration : Text → Option Duration
no_duration s = none

attempts_default :
    (load quoted no_duration only_url >>= (λ c. ok c.max_extraction_attempts)) ≡ ok (plus 3)
unfolding load load_rest int_env duration_env same
attempts_default = refl

signed_numbers : parse_int (codes "-12") ≡ some (minus 12)
unfolding parse_int digits_value
signed_numbers = refl

load-IsOk_example : IsOk (load quoted no_duration only_url) ↔ (
    (only_url (codes "DATABASE_URL") ≢ [])
    × (IsInteger quoted no_duration only_url (codes "MAX_UPLOAD_MB")
        × (IsInteger quoted no_duration only_url (codes "MAX_PAGES")
            × (IsInteger quoted no_duration only_url (codes "MAX_EXTRACTION_ATTEMPTS")
                × (IsDuration quoted no_duration only_url (codes "OCR_DISPATCH_TIMEOUT")
                    × (IsDuration quoted no_duration only_url (codes "POLL_INTERVAL")
                        × IsDuration quoted no_duration only_url (codes "STUCK_TIMEOUT")))))))
load-IsOk_example = load-IsOk quoted no_duration only_url
