-- ===== src/Policy/Attempts.antt =====
-- How often the retry loop calls, and how long it waits.
use mikrus_mcp.Prelude.{
  [], zero, suc, false, ◌∙◌, true, ◌&&◌, ◌==◌, ◌||◌, not, false, Bool-cases, refl, inr, length, inl,
  ◌+◌, ◌*◌, suc, Option, ◌⊎◌, ◌≤◌, ◌≡◌, ℕ, All, arith,
}
use mikrus_mcp.Errors.{
  value_error, validation_error, type_error, timeout_error, runtime_error, os_error, key_error,
  assertion_error, policy_error, Error, app, ok, err, Result, AppError,
}
use mikrus_mcp.Manifests.Record.{CapabilityManifest, is_read, is_nonempty}
use mikrus_mcp.Manifests.Checked.{IsConsistent}
use mikrus_mcp.Policy.Retry.{
  or_delay, past_deadline, stop, again, Attempt, Run, stop, again, second, allowed, delay,
  attempt_once, after_failure, retry_loop, execute_with_policy_retry, maximum_attempts,
}

module _ {A : Type 0} (m : CapabilityManifest) (expires_at : Option ℕ)
    (attempts : ℕ → Attempt A) where
  -- What a run from attempt `first` promises: the calls and the delays between them, each at most
  -- a minute, and the last call's outcome, whose value or error class is handed on.
  pub record IsBounded (left : ℕ) (run : Run A) : Type 0 where
    pub calls : run.calls ≤ left
    pub once : 1 ≤ run.calls
    pub between : run.calls ≡ 1 + length run.sleeps
    pub waits : All (λ d. d ≤ 60 * second) run.sleeps

  delay-bounded : (e : AppError) (attempt jitter : ℕ) → delay e attempt jitter ≤ 60 * second
  unfolding delay
  delay-bounded e attempt jitter = ground arith

  again-IsBounded :
      (left d : ℕ) (rest : Run A)
      → d ≤ 60 * second
      → IsBounded left rest
      → IsBounded (suc left) (again d rest)
  again-IsBounded left d rest bound h = record {
    calls = omega (arith, h.calls);
    once = omega arith;
    between = omega (arith, h.between);
    waits = (bound, h.waits);
  }

  stop-IsBounded : (left : ℕ) (e : Error) → IsBounded (suc left) (stop e)
  stop-IsBounded left e = record {
    calls = omega arith;
    once = omega arith;
    between = refl;
    waits = tt;
  }

  -- The two ways in which a failed attempt is not retried.
  failed-IsBounded :
      (attempt left : ℕ) (seen : Attempt A) (e : AppError) (rest : Run A)
      → (left ≡ 0) ⊎ IsBounded left rest
      → IsBounded (suc left) (after_failure m expires_at attempt left seen e rest)
  failed-IsBounded attempt left seen e rest h = elim (Bool-cases (not (allowed m e) || left == 0)) [
    | inl give_up ↦ elim (Bool-cases (allowed m e && not e.retryable)) [
      | inl marked ↦
          rw (give_up, marked) (stop-IsBounded left (Error.app (record e { retryable = true })))
      | inr unmarked ↦ rw (give_up, unmarked) (stop-IsBounded left (Error.app e))
    ]
    | inr retried ↦
        elim (Bool-cases (past_deadline expires_at (seen.now + delay e attempt seen.jitter))) [
          | inl late ↦
              rw (retried, late)
                (stop-IsBounded left (
                  Error.app (record e {
                    retryable = true;
                    retry_after_seconds =
                        or_delay e.retry_after_seconds (delay e attempt seen.jitter);
                  })))
          | inr timely ↦
              rw (retried, timely)
                (again-IsBounded left (delay e attempt seen.jitter) rest
                  (delay-bounded e attempt seen.jitter)
                  (elim h [ inl last ↦ ground arith | inr later ↦ later ]))
        ]
  ]

  attempt-IsBounded :
      (attempt left : ℕ) (seen : Attempt A) (r : Result A) (rest : Run A)
      → (left ≡ 0) ⊎ IsBounded left rest
      → IsBounded (suc left) (attempt_once m expires_at attempt left seen r rest)
  attempt-IsBounded attempt left seen (ok a) rest h = record {
    calls = omega arith;
    once = omega arith;
    between = refl;
    waits = tt;
  }
  attempt-IsBounded attempt left seen (err (app e)) rest h =
      failed-IsBounded attempt left seen e rest h
  attempt-IsBounded attempt left seen (err (policy_error c)) rest h =
      stop-IsBounded left (policy_error c)
  attempt-IsBounded attempt left seen (err value_error) rest h = stop-IsBounded left value_error
  attempt-IsBounded attempt left seen (err runtime_error) rest h = stop-IsBounded left runtime_error
  attempt-IsBounded attempt left seen (err type_error) rest h = stop-IsBounded left type_error
  attempt-IsBounded attempt left seen (err key_error) rest h = stop-IsBounded left key_error
  attempt-IsBounded attempt left seen (err os_error) rest h = stop-IsBounded left os_error
  attempt-IsBounded attempt left seen (err validation_error) rest h =
      stop-IsBounded left validation_error
  attempt-IsBounded attempt left seen (err timeout_error) rest h = stop-IsBounded left timeout_error
  attempt-IsBounded attempt left seen (err assertion_error) rest h =
      stop-IsBounded left assertion_error

  loop-IsBounded :
      (left attempt : ℕ)
      → IsBounded (suc left) (retry_loop m expires_at attempts attempt (suc left))
  unfolding retry_loop
  loop-IsBounded zero attempt =
      attempt-IsBounded attempt 0 (attempts attempt) (attempts attempt).outcome
        (retry_loop m expires_at attempts (suc attempt) zero) (inl refl)
  loop-IsBounded (suc left) attempt =
      attempt-IsBounded attempt (suc left) (attempts attempt) (attempts attempt).outcome
        (retry_loop m expires_at attempts (suc attempt) (suc left))
        (inr (loop-IsBounded left (suc attempt)))

  -- The capability is called at least once and at most three times, with one delay between two
  -- calls, of at most a minute each.
  pub execute_with_policy_retry-IsBounded :
      IsBounded 3 (execute_with_policy_retry m expires_at attempts)
  unfolding execute_with_policy_retry maximum_attempts
  execute_with_policy_retry-IsBounded = elim (Bool-cases (is_nonempty m.retry_conditions)) [
    | inl several ↦ rw several (loop-IsBounded 2 0)
    | inr single ↦
        let h = loop-IsBounded 0 0 in
        rw single (record {
          calls = omega (arith, h.calls);
          once = h.once;
          between = h.between;
          waits = h.waits;
        })
  ]

  mutation_refused :
      (e : AppError) → IsConsistent m → is_read m.side_effects ≡ false → allowed m e ≡ false
  unfolding allowed
  mutation_refused e c w = ground (arith, c.mutation w)

  -- The only attempt at a mutation ends the run as it ended itself.
  unretried :
      (left : ℕ) (seen : Attempt A) (r : Result A) (rest : Run A)
      → IsConsistent m
      → is_read m.side_effects ≡ false
      → attempt_once m expires_at 0 left seen r rest ≡ record { result = r; calls = 1; sleeps = [] }
  unretried left seen (ok a) rest c w = refl
  unretried left seen (err (app e)) rest c w = rw (mutation_refused e c w) refl
  unretried left seen (err (policy_error c1)) rest c w = refl
  unretried left seen (err value_error) rest c w = refl
  unretried left seen (err runtime_error) rest c w = refl
  unretried left seen (err type_error) rest c w = refl
  unretried left seen (err key_error) rest c w = refl
  unretried left seen (err os_error) rest c w = refl
  unretried left seen (err validation_error) rest c w = refl
  unretried left seen (err timeout_error) rest c w = refl
  unretried left seen (err assertion_error) rest c w = refl

  -- A mutation with a consistent manifest is called exactly once, and what that call returns or
  -- raises is what the caller sees, unchanged.
  pub mutation-called_once :
      IsConsistent m
      → is_read m.side_effects ≡ false
      → execute_with_policy_retry m expires_at attempts
        ≡ record { result = (attempts 0).outcome; calls = 1; sleeps = [] }
  unfolding execute_with_policy_retry maximum_attempts retry_loop
  mutation-called_once c w =
      let single : is_nonempty m.retry_conditions ≡ false = c.conditions ∙ c.mutation w in
      rw single
        (unretried 0 (attempts 0) (attempts 0).outcome (retry_loop m expires_at attempts 1 0) c w)
