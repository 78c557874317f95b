-- ===== src/Clock.antt =====
-- Durations and deadlines of cache.go. A duration that may be negative is an integer; times and
-- effective lifetimes are not negative.
pub mod Bounds
use pacecache.Prelude.{
  ℕ, ◌+◌, ◌-◌, ◌^◌, ◌≤◌, ◌<◌, ◌≡◌, min, Bool, arith, ltb, leb, ◌==◌, if◌then◌else◌,
}
use pacecache.Prelude.Int.{ℤ, pos, negsuc, is_zero, is_positive, to_nat}

-- math.MaxInt64
abbrev pub max_duration : ℕ
max_duration = 2 ^ 63 - 1

abbrev pub default_expiration : ℤ
default_expiration = pos 0

abbrev pub no_expiration : ℤ
no_expiration = negsuc 0

unfoldable pub deadline_after : (now ttl : ℕ) → ℕ
deadline_after now ttl =
    if leb ttl 0 then 0 else if leb (max_duration - ttl) now then max_duration else now + ttl

-- `rand` is rand.Int64N: with a positive argument n it returns a number below n.
unfoldable pub jittered_ttl : (rand : ℕ → ℕ) → (ttl jitter : ℕ) → ℕ
jittered_ttl rand ttl jitter =
    if jitter == 0
    then ttl
    else let jitter_limit = min jitter (max_duration - ttl) in
      if leb jitter_limit 0 then ttl else ttl + rand jitter_limit

-- `ttl` and `jitter` are those of the cache.
unfoldable pub effective_ttl : (rand : ℕ → ℕ) → (ttl : ℤ) → (jitter : ℕ) → (expiration : ℤ) → ℕ
unfolding jittered_ttl
effective_ttl rand ttl jitter expiration =
    let chosen = if is_zero expiration then ttl else expiration in
    if is_positive chosen then jittered_ttl rand (to_nat chosen) jitter else 0
