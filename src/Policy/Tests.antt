-- ===== src/Policy/Tests.antt =====
-- The theorems about the policy at concrete manifests and callers.
use mikrus_mcp.Validators.Curl.{in_set}
use mikrus_mcp.Prelude.{
  ltb, is_some, if◌then◌else◌, arith, All, ◌≡◌, ℕ, text_eq, lits, Option, Text, lit, [], ◌∷◌, true,
  false, refl, none,
}
use mikrus_mcp.Errors.{rate_limited, Error, ok, err}
use mikrus_mcp.Json.{Json, end}
use mikrus_mcp.Manifests.Record.{
  check_manifests, CapabilityManifest, rate_limit, read, write, internal_data, no_scope, per_target,
  validate_manifests, check_manifest,
}
use mikrus_mcp.Manifests.Checked.{
  IsConsistent, check_manifest-IsConsistent, validate_manifests-IsConsistent,
}
use mikrus_mcp.Policy.Scopes.{
  authorize_resolved_target, authorize_mutation, authorize_data_classification, authorize_selector,
  CallerContext, Target, mikrus, lock_key,
}
use mikrus_mcp.Policy.Retry.{Attempt, execute_with_policy_retry}
use mikrus_mcp.Policy.Attempts.{
  IsBounded, execute_with_policy_retry-IsBounded, mutation-called_once,
}
use mikrus_mcp.Policy.Access.{
  IsAuthorized, Includes, authorize, authorize-IsAuthorized, authorize-Includes,
  lock_key-IsConsistent, with_scopes,
}

abbrev restart : CapabilityManifest
unfolding lit
restart = record {
  name = lit "restart_server";
  version = lit "1";
  side_effects = write;
  confidentiality = internal_data;
  operational_impact = lit "high";
  cost = lit "low";
  reversible = false;
  idempotent = false;
  idempotency_mechanism = none;
  retryable = false;
  retry_conditions = [];
  concurrent_safe = false;
  concurrency_scope = per_target;
  timeout_ms = 70_000;
  requires_approval = true;
  required_scopes = lits ("tool:restart" ∷ []);
  target_binding = lit "server";
  target_required = true;
  resource_argument = none;
  max_response_bytes = 1_000_000;
}

-- A read that is retried when a rate limit is met.
abbrev stats : CapabilityManifest
unfolding lit
stats = record restart {
  name = lit "get_server_stats";
  side_effects = read;
  idempotent = true;
  retryable = true;
  retry_conditions = rate_limit ∷ [];
  concurrent_safe = true;
  concurrency_scope = no_scope;
  requires_approval = false;
}

abbrev limited : Error
limited = Error.app (record { code = rate_limited; retryable = false; retry_after_seconds = none })

-- The first two calls meet the rate limit.
abbrev attempts : ℕ → Attempt ℕ
attempts i = record { outcome = if ltb i 2 then err limited else ok 7; jitter = 1; now = i }

restart-IsConsistent : IsConsistent restart
unfolding check_manifest lit
restart-IsConsistent = check_manifest-IsConsistent restart refl

stats_run :
    execute_with_policy_retry stats none attempts
    ≡ record { result = ok 7; calls = 3; sleeps = 1_000_001 ∷ 2_000_001 ∷ [] }
unfolding execute_with_policy_retry stats
stats_run = refl

validate_manifests-IsConsistent_example : All IsConsistent (restart ∷ stats ∷ [])
unfolding validate_manifests check_manifests check_manifest lit text_eq
validate_manifests-IsConsistent_example =
    validate_manifests-IsConsistent (lits ("a" ∷ [])) (lits ("a" ∷ [])) (restart ∷ stats ∷ []) refl

execute_with_policy_retry-IsBounded_example :
    IsBounded stats none attempts 3 (execute_with_policy_retry stats none attempts)
execute_with_policy_retry-IsBounded_example =
    execute_with_policy_retry-IsBounded stats none attempts

mutation-called_once_example :
    execute_with_policy_retry restart none attempts
    ≡ record { result = err limited; calls = 1; sleeps = [] }
unfolding restart
mutation-called_once_example = mutation-called_once restart none attempts restart-IsConsistent refl

abbrev caller : CallerContext
unfolding lit
caller = record {
  principal = lit "agent";
  scopes = lits ("tool:*" ∷ "target:a" ∷ "target-id:*" ∷ "data:internal" ∷ []);
}

abbrev target : Target
unfolding lit
target = record { target_type = mikrus; stable_identity = lit "mikrus:a"; verify_host_key = true }

abbrev identity_text : Text
unfolding lit
identity_text = lit "mikrus:a"

abbrev name : Text
unfolding lit
name = lit "a"

abbrev sha256_hex : Text → Text
sha256_hex t = t

admitted : authorize sha256_hex true caller restart name target identity_text [] ≡ ok tt
unfolding authorize lit text_eq in_set authorize_selector authorize_data_classification
    authorize_mutation authorize_resolved_target
admitted = refl

authorize-IsAuthorized_example :
    IsAuthorized sha256_hex true caller restart name target identity_text []
authorize-IsAuthorized_example =
    authorize-IsAuthorized sha256_hex true caller restart name target identity_text [] admitted

included : Includes (lit "x" ∷ caller.scopes) caller.scopes
unfolding in_set
included t h = ground (arith, h)

authorize-Includes_example :
    authorize sha256_hex true
      (with_scopes caller (lit "x" ∷ caller.scopes))
      restart
      name
      target
      identity_text
      []
    ≡ ok tt
authorize-Includes_example =
    authorize-Includes sha256_hex true caller (lit "x" ∷ caller.scopes) restart name target
      identity_text [] included admitted

abbrev str_of : Json → Text
str_of j = []

lock_key-IsConsistent_example :
    (key : Option Text) × (lock_key str_of restart name end ≡ ok key) × (is_some key ≡ true)
unfolding restart
lock_key-IsConsistent_example = lock_key-IsConsistent str_of restart name end restart-IsConsistent
