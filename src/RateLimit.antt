-- ===== src/RateLimit.antt =====
-- clients/common.py: the rate limiter. Times are counted in units that make the interval between
-- two slots a whole number: a second is as many million units as there are requests in a minute.
use mikrus_mcp.Errors.{Result, ok, err, Error, value_error, rate_limited}
use mikrus_mcp.Exec.{Exec, pure, raise}
use mikrus_mcp.Prelude.{
  if◌then◌else◌, ℕ, ltb, ◌-◌, ◌+◌, ◌*◌, ◌/◌, min, some, false, List, [], ◌∷◌, ◌==◌,
}
pub mod Slots
mod Tests

pub record RateLimiter : Type 0 where
  pub requests_per_minute : ℕ
  pub next_slot : ℕ

-- `self._interval`, which is 60.0 / requests_per_minute seconds.
abbrev pub interval : ℕ
interval = 60000000

abbrev pub new_limiter : ℕ → Result RateLimiter
new_limiter requests_per_minute =
    if requests_per_minute == 0
    then err value_error
    else ok (record { requests_per_minute = requests_per_minute; next_slot = 0 })

-- `min(60.0, delay)`, in microseconds.
abbrev pub retry_after : ℕ → ℕ → ℕ
retry_after requests_per_minute delay = min 60000000 (delay / requests_per_minute)

-- `acquire` at a reading of the clock.
unfoldable pub acquire : ℕ → Exec RateLimiter (Unit {0})
acquire now s =
    if ltb 0 (s.next_slot - now)
    then raise
        (Error.app (record {
          code = rate_limited;
          retryable = false;
          retry_after_seconds = some (retry_after s.requests_per_minute (s.next_slot - now));
        }))
        s
    else pure tt (record s { next_slot = now + interval })

abbrev pub count : Result (Unit {0}) → ℕ
count (ok u) = 1
count (err e) = 0

-- How many of the calls at these readings return.
abbrev pub accepted : RateLimiter → List ℕ → ℕ
accepted s [] = 0
accepted s (now ∷ later) = let (r, next) = acquire now s in count r + accepted next later
