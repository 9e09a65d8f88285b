-- ===== src/Policy/Retry.antt =====
-- kernel_policy.py: `_execute_with_policy_retry`.
use mikrus_mcp.Prelude.{
  ◌==◌, ◌||◌, ◌^◌, suc, zero, ◌∷◌, ◌*◌, not, none, leb, any, [], ◌+◌, ◌&&◌, true, some, min,
  if◌then◌else◌, false, List, ℕ, Option, Bool,
}
use mikrus_mcp.Errors.{
  transient_upstream, timeout, app, assertion_error, ok, err, Result, ErrorCode, Error, AppError,
  rate_limited,
}
use mikrus_mcp.Manifests.Record.{
  is_nonempty, CapabilityManifest, RetryCondition, rate_limit, transient, timed_out,
}

abbrev pub second : ℕ
second = 1_000_000

-- `_retry_condition`
unfoldable pub retry_condition : ErrorCode → Option RetryCondition
retry_condition rate_limited = some rate_limit
retry_condition transient_upstream = some transient
retry_condition timeout = some timed_out
retry_condition _ = none

abbrev pub same_condition : RetryCondition → RetryCondition → Bool
same_condition rate_limit rate_limit = true
same_condition transient transient = true
same_condition timed_out timed_out = true
same_condition _ _ = false

-- `condition in conditions`
abbrev pub lists_condition : Option RetryCondition → List RetryCondition → Bool
lists_condition none conditions = false
lists_condition (some c) conditions = any (same_condition c) conditions

-- What one attempt meets: how the call ends, the random part of the delay, and the clock when the
-- delay is weighed against the deadline.
pub record Attempt (A : Type 0) : Type 0 where
  pub outcome : Result A
  pub jitter : ℕ
  pub now : ℕ

-- How the loop ended, the calls that it made and the delays that it slept.
pub record Run (A : Type 0) : Type 0 where
  pub result : Result A
  pub calls : ℕ
  pub sleeps : List ℕ

unfoldable pub maximum_attempts : CapabilityManifest → ℕ
maximum_attempts m = if is_nonempty m.retry_conditions then 3 else 1

unfoldable pub allowed : CapabilityManifest → AppError → Bool
unfolding retry_condition
allowed m e =
    m.idempotent && (m.retryable && lists_condition (retry_condition e.code) m.retry_conditions)

-- The delay before attempt `attempt + 1`.
unfoldable pub delay : AppError → ℕ → ℕ → ℕ
delay e attempt jitter = min (60 * second) (
    (elim (e.retry_after_seconds) [
      | none ↦ min (4 * second) (2 ^ attempt * second)
      | some wait ↦ wait
    ])
    + jitter)

-- `remaining <= delay`, for a call with a deadline.
abbrev pub past_deadline : Option ℕ → ℕ → Bool
past_deadline none end = false
past_deadline (some expires_at) end = leb expires_at end

abbrev pub or_delay : Option ℕ → ℕ → Option ℕ
or_delay none d = some d
or_delay (some wait) d = some wait

abbrev pub stop : {A : Type 0} → Error → Run A
stop e = record { result = err e; calls = 1; sleeps = [] }

abbrev pub again : {A : Type 0} → ℕ → Run A → Run A
again d rest = record { result = rest.result; calls = 1 + rest.calls; sleeps = d ∷ rest.sleeps }

-- An attempt that failed; `left` more attempts are allowed, and `rest` is how they go.
abbrev pub after_failure :
    {A : Type 0} → CapabilityManifest → Option ℕ → ℕ → ℕ → Attempt A → AppError → Run A → Run A
after_failure m expires_at attempt left seen e rest =
    if not (allowed m e) || left == 0
    then (if allowed m e && not e.retryable
        then stop (Error.app (record e { retryable = true }))
        else stop (Error.app e))
    else if past_deadline expires_at (seen.now + delay e attempt seen.jitter)
    then stop (
        Error.app (record e {
          retryable = true;
          retry_after_seconds = or_delay e.retry_after_seconds (delay e attempt seen.jitter);
        }))
    else again (delay e attempt seen.jitter) rest

-- One attempt: only an `AppError` is looked at.
abbrev pub attempt_once :
    {A : Type 0} → CapabilityManifest → Option ℕ → ℕ → ℕ → Attempt A → Result A → Run A → Run A
attempt_once m expires_at attempt left seen (ok a) rest = record {
  result = ok a;
  calls = 1;
  sleeps = [];
}
attempt_once m expires_at attempt left seen (err (app e)) rest =
    after_failure m expires_at attempt left seen e rest
attempt_once m expires_at attempt left seen (err e) rest = stop e

-- The loop with `left` attempts to go.
unfoldable pub retry_loop :
    {A : Type 0} → CapabilityManifest → Option ℕ → (ℕ → Attempt A) → ℕ → ℕ → Run A
unfolding allowed delay
retry_loop m expires_at attempts attempt zero = record {
  result = err assertion_error;
  calls = 0;
  sleeps = [];
}
retry_loop m expires_at attempts attempt (suc left) =
    let rest = retry_loop m expires_at attempts (suc attempt) left in
    attempt_once m expires_at attempt left (attempts attempt) (attempts attempt).outcome rest

unfoldable pub execute_with_policy_retry :
    {A : Type 0} → CapabilityManifest → Option ℕ → (ℕ → Attempt A) → Run A
unfolding retry_loop maximum_attempts
execute_with_policy_retry m expires_at attempts =
    retry_loop m expires_at attempts 0 (maximum_attempts m)
