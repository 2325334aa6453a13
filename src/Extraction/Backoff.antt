-- ===== src/Extraction/Backoff.antt =====
-- retryBackoff of internal/services/extraction/extraction.go, on Go's int64 nanoseconds.
use tax_deeds.Store.{back, ahead, Duration}
use tax_deeds.Base.{
  ◌%◌, ℕ, zero, suc, ◌-◌, ◌*◌, ◌≤◌, ◌<◌, ◌≡◌, refl, arith, ltb, leb, if◌then◌else◌,
}

unfoldable pub pow2 : ℕ → ℕ
pow2 zero = 1
pow2 (suc n) = 2 * pow2 n

-- The int64 with these 64 bits.
abbrev pub signed : ℕ → Duration
signed v = if ltb v 9223372036854775808 then ahead v else back (18446744073709551616 - v)

-- `30 * time.Second << n`
unfoldable pub shifted : ℕ → Duration
unfolding pow2
shifted n = signed ((30000000000 * pow2 n) % 18446744073709551616)

-- `if d > 10*time.Minute { d = 10 * time.Minute }`
abbrev pub capped : Duration → Duration
capped (ahead n) = if ltb 600000000000 n then ahead 600000000000 else ahead n
capped (back n) = back n

unfoldable pub retry_backoff : ℕ → Duration
unfolding shifted
retry_backoff attempts =
    let used = if ltb attempts 1 then 1 else attempts in capped (shifted (used - 1))

pow2_zero : pow2 0 ≡ 1
unfolding pow2
pow2_zero = refl

pow2-suc : (n : ℕ) → pow2 (suc n) ≡ 2 * pow2 n
unfolding pow2
pow2-suc n = refl

pow2_pos : (n : ℕ) → 1 ≤ pow2 n
pow2_pos zero = omega (arith, pow2_zero)
pow2_pos (suc n) = let h = pow2_pos n in omega (arith, pow2-suc n)

pow2_mono : (n m : ℕ) → n ≤ m → pow2 n ≤ pow2 m
pow2_mono zero m h = omega (arith, pow2_zero, pow2_pos m)
pow2_mono (suc n) zero h = absurd (omega arith)
pow2_mono (suc n) (suc m) h =
    let r = pow2_mono n m (omega arith) in omega (arith, pow2-suc n, pow2-suc m)

pow2_28 : pow2 28 ≡ 268435456
unfolding pow2
pow2_28 = refl

abbrev least : ℕ → ℕ → ℕ
least a b = if leb a b then a else b

used_suc : (n : ℕ) → (if ltb (suc n) 1 then 1 else suc n) - 1 ≡ n
used_suc n = ground arith

capped-signed : (v : ℕ) → v < 9223372036854775808 → capped (signed v) ≡ ahead (least v 600000000000)
capped-signed v h = ground arith

-- For 1 to 29 attempts the wait is 30 s doubled for each attempt after the first, at most 10 min.
pub retry_backoff_doubles :
    (n : ℕ) → n ≤ 28 → retry_backoff (suc n) ≡ ahead (least (30000000000 * pow2 n) 600000000000)
unfolding retry_backoff shifted
retry_backoff_doubles n h =
    let bound = pow2_mono n 28 h in
    let top = pow2_28 in
    let fits : (30000000000 * pow2 n) % 18446744073709551616 ≡ 30000000000 * pow2 n = omega arith in
    rw (used_suc n, fits) (capped-signed (30000000000 * pow2 n) (omega arith))
