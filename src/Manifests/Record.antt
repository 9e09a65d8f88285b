-- ===== src/Manifests/Record.antt =====
-- manifests.py: the manifest of a capability, and the part of `validate_manifests` on one manifest.
use mikrus_mcp.Errors.{runtime_error, ok, Result}
use mikrus_mcp.Results.{raise_if, ◌>>◌}
use mikrus_mcp.Prelude.{
  ◌==◌, ◌&&◌, text_eq, ◌∷◌, ℕ, any, true, not, false, all, Option, Text, Bool, List, [],
}

pub data SideEffects : Type 0 where
  read write destructive : SideEffects

pub data Confidentiality : Type 0 where
  public_data internal_data personal sensitive credential : Confidentiality

pub data RetryCondition : Type 0 where
  rate_limit transient timed_out : RetryCondition

pub data ConcurrencyScope : Type 0 where
  no_scope per_target per_capability per_resource : ConcurrencyScope

-- `CapabilityManifest`; the fields that are only shown to clients are texts.
pub record CapabilityManifest : Type 0 where
  pub name : Text
  pub version : Text
  pub side_effects : SideEffects
  pub confidentiality : Confidentiality
  pub operational_impact : Text
  pub cost : Text
  pub reversible : Bool
  pub idempotent : Bool
  pub idempotency_mechanism : Option Text
  pub retryable : Bool
  pub retry_conditions : List RetryCondition
  pub concurrent_safe : Bool
  pub concurrency_scope : ConcurrencyScope
  pub timeout_ms : ℕ
  pub requires_approval : Bool
  pub required_scopes : List Text
  pub target_binding : Text
  pub target_required : Bool
  pub resource_argument : Option Text
  pub max_response_bytes : ℕ

abbrev pub is_read : SideEffects → Bool
is_read read = true
is_read write = false
is_read destructive = false

abbrev pub is_unscoped : ConcurrencyScope → Bool
is_unscoped no_scope = true
is_unscoped per_target = false
is_unscoped per_capability = false
is_unscoped per_resource = false

-- `bool(conditions)`
abbrev pub is_nonempty : List RetryCondition → Bool
is_nonempty [] = false
is_nonempty (c ∷ cs) = true

abbrev pub differ : Bool → Bool → Bool
differ true b = not b
differ false b = b

-- The checks on one manifest, in the order of the source.
unfoldable pub check_manifest : CapabilityManifest → Result (Unit {0})
check_manifest m = do
  raise_if (m.timeout_ms == 0) runtime_error
  raise_if (m.retryable && not m.idempotent) runtime_error
  raise_if (not (is_read m.side_effects) && m.retryable) runtime_error
  raise_if (m.requires_approval && is_read m.side_effects) runtime_error
  raise_if (m.retryable && not (is_nonempty m.retry_conditions)) runtime_error
  raise_if (is_nonempty m.retry_conditions && not m.retryable) runtime_error
  raise_if (differ m.concurrent_safe (is_unscoped m.concurrency_scope)) runtime_error

unfoldable pub check_manifests : List CapabilityManifest → Result (Unit {0})
check_manifests [] = ok tt
check_manifests (m ∷ ms) = do check_manifest m; check_manifests ms

-- `registered_names != expected`, on sets.
abbrev pub subset : List Text → List Text → Bool
subset xs ys = all (λ x. any (text_eq x) ys) xs

unfoldable pub validate_manifests :
    List Text → List Text → List CapabilityManifest → Result (Unit {0})
unfolding check_manifests
validate_manifests registered expected manifests = do
  raise_if (not (subset registered expected && subset expected registered)) runtime_error
  check_manifests manifests
