-- ===== src/Clock/Bounds.antt =====
-- The arithmetic of deadlines in cache.go stays within a signed 64-bit integer.
use pacecache.Prelude.{ℕ, ◌+◌, ◌-◌, ◌≤◌, ◌<◌, ◌≡◌, ◌⊎◌, min, arith, ltb, if◌then◌else◌}
use pacecache.Prelude.Int.{ℤ, pos, negsuc, is_zero, is_positive}
use pacecache.Clock.{max_duration, deadline_after, jittered_ttl, effective_ttl}

-- For a positive lifetime, and a time and a lifetime that are representable, the deadline is their
-- sum, or the largest duration if the sum is larger.
pub deadline_after-saturates :
    (now ttl : ℕ)
    → 0 < ttl
    → now ≤ max_duration
    → ttl ≤ max_duration
    → deadline_after now ttl ≡ min (now + ttl) max_duration
unfolding deadline_after
deadline_after-saturates now ttl p n t = ground arith

-- For a positive lifetime, and times and a lifetime that are at most MaxInt64, the deadline is the
-- sum of the time and the lifetime, or MaxInt64 if the sum is larger; it is after the time, unless
-- the time is MaxInt64; a later time gives the same deadline or a later one; and the deadline is at
-- most MaxInt64.
pub deadline_after-monotone :
    (earlier later ttl : ℕ)
    → 0 < ttl
    → earlier ≤ later
    → later ≤ max_duration
    → ttl ≤ max_duration
    → (deadline_after earlier ttl ≡ min (earlier + ttl) max_duration)
      × ((earlier < deadline_after earlier ttl) ⊎ (earlier ≡ max_duration))
      × (deadline_after earlier ttl ≤ deadline_after later ttl)
      × (deadline_after later ttl ≤ max_duration)
unfolding deadline_after
deadline_after-monotone earlier later ttl p le rep t = ground arith

-- If the random source returns numbers below its positive argument and the lifetime is
-- representable, then the jittered lifetime is no shorter than the lifetime, is representable, and
-- exceeds the lifetime by less than the jitter if at all.
jittered_ttl-bounds :
    (rand : ℕ → ℕ) (ttl jitter : ℕ)
    → ((n : ℕ) → 0 < n → rand n < n)
    → ttl ≤ max_duration
    → (ttl ≤ jittered_ttl rand ttl jitter)
      × (jittered_ttl rand ttl jitter ≤ max_duration)
      × ((jittered_ttl rand ttl jitter ≡ ttl) ⊎ (jittered_ttl rand ttl jitter < ttl + jitter))
unfolding jittered_ttl
jittered_ttl-bounds rand ttl jitter r t = ground (arith, r (min jitter (max_duration - ttl)))

module _ (rand : ℕ → ℕ) where
  -- An entry has a lifetime exactly if its expiration is positive, or is the default one while the
  -- configured lifetime is positive.
  pub effective_ttl-positive :
      (ttl expiration : ℤ) (jitter : ℕ)
      → ltb 0 (effective_ttl rand ttl jitter expiration)
        ≡ (if is_zero expiration then is_positive ttl else is_positive expiration)
  unfolding effective_ttl jittered_ttl
  effective_ttl-positive (pos t) (pos e) jitter = ground arith
  effective_ttl-positive (negsuc t) (pos e) jitter = ground arith
  effective_ttl-positive ttl (negsuc e) jitter = ground arith
