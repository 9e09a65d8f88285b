-- ===== src/RateLimit/Tests.antt =====
-- The rate limiter at concrete readings of its clock.
use mikrus_mcp.RateLimit.{RateLimiter, acquire, accepted}
use mikrus_mcp.RateLimit.Slots.{accepted-IsBounded}
use mikrus_mcp.Prelude.{ℕ, List, [], ◌∷◌, ◌≡◌, ◌≤◌, refl, arith}

-- Two requests in a minute: a second is two million units.
abbrev limiter : RateLimiter
limiter = record { requests_per_minute = 2; next_slot = 10000000 }

abbrev readings : List ℕ
readings = 20000000 ∷ 79999999 ∷ 80000000 ∷ 139999999 ∷ []

two_accepted : accepted limiter readings ≡ 2
unfolding acquire
two_accepted = refl

accepted-IsBounded_example : accepted limiter readings ≤ 2
accepted-IsBounded_example =
    accepted-IsBounded 20000000 2 limiter readings
      (omega arith, (omega arith, (omega arith, (omega arith, tt))))
      (omega arith, (omega arith, (omega arith, (omega arith, tt))))
