-- ===== src/Policy/Scopes.antt =====
-- kernel_policy.py: who may call what, on which target and resource.
use mikrus_mcp.Validators.Curl.{in_set}
use mikrus_mcp.Errors.{runtime_error, authorization, authentication, ok, app_error, err, Result}
use mikrus_mcp.Prelude.{
  any, none, text_eq, not, false, before, true, starts_with, some, if◌then◌else◌, Option, Bool,
  List, ◌++◌, [], ◌&&◌, ◌||◌, Text, lit,
}
use mikrus_mcp.Results.{raise_if, ◌>>◌}
use mikrus_mcp.Manifests.Record.{
  no_scope, per_target, per_capability, per_resource, CapabilityManifest, Confidentiality,
  public_data, internal_data, personal, sensitive, credential, is_read,
}
use mikrus_mcp.Json.{Fields, Json, null, str, get}

pub data TargetType : Type 0 where
  mikrus ssh : TargetType

-- What is read of a `TargetConfig`.
pub record Target : Type 0 where
  pub target_type : TargetType
  pub stable_identity : Text
  pub verify_host_key : Bool

-- `CallerContext` of kernel.py.
pub record CallerContext : Type 0 where
  pub principal : Text
  pub scopes : List Text

unfoldable pub has_scope : List Text → Text → Bool
has_scope scopes required =
    in_set required scopes || in_set (before b':' required ++ lit ":*") scopes

abbrev pub denied : Result (Unit {0})
denied = err (app_error authorization)

abbrev pub target_scope : Text → Text
target_scope target = lit "target:" ++ target

unfoldable pub authorize_selector : CallerContext → CapabilityManifest → Text → Result (Unit {0})
unfolding has_scope
authorize_selector caller manifest target = do
  raise_if (text_eq caller.principal []) (app_error authentication)
  raise_if (any (λ scope. not (has_scope caller.scopes scope)) manifest.required_scopes)
      (app_error authorization)
  raise_if (manifest.target_required && not (has_scope caller.scopes (target_scope target)))
      (app_error authorization)

abbrev pub is_public : Confidentiality → Bool
is_public public_data = true
is_public internal_data = false
is_public personal = false
is_public sensitive = false
is_public credential = false

abbrev pub confidentiality_text : Confidentiality → Text
confidentiality_text public_data = lit "public"
confidentiality_text internal_data = lit "internal"
confidentiality_text personal = lit "personal"
confidentiality_text sensitive = lit "sensitive"
confidentiality_text credential = lit "credential"

unfoldable pub authorize_data_classification :
    CallerContext → CapabilityManifest → Result (Unit {0})
unfolding has_scope
authorize_data_classification caller manifest =
    raise_if
      (not (is_public manifest.confidentiality)
        && not (
            has_scope caller.scopes (lit "data:" ++ confidentiality_text manifest.confidentiality)))
      (app_error authorization)

unfoldable pub authorize_mutation : Bool → CapabilityManifest → Result (Unit {0})
authorize_mutation write_enabled manifest =
    raise_if (not (is_read manifest.side_effects) && not write_enabled) (app_error authorization)

-- `resource.encode("utf-8")` hashed is the parameter `sha256_hex`.
unfoldable pub resource_scope : (Text → Text) → CapabilityManifest → Text → Option Text
resource_scope sha256_hex manifest resource = elim (manifest.resource_argument) [
  | none ↦ none
  | some _ ↦ some (lit "resource:" ++ manifest.name ++ lit ":sha256:" ++ sha256_hex resource)
]

abbrev pub verified_prefix : Text → Text
verified_prefix identity = identity ++ lit "#host-key=SHA256:"

abbrev pub unverified : Text → Text
unverified identity = identity ++ lit "#host-key=UNVERIFIED"

abbrev pub ssh_identity_valid : Bool → Text → Text → Bool
ssh_identity_valid true expected resolved = starts_with (verified_prefix expected) resolved
ssh_identity_valid false expected resolved = text_eq resolved (unverified expected)

abbrev pub is_ssh : TargetType → Bool
is_ssh ssh = true
is_ssh mikrus = false

unfoldable pub identity_valid : Target → Text → Bool
identity_valid t resolved =
    if is_ssh t.target_type
    then ssh_identity_valid t.verify_host_key t.stable_identity resolved
    else text_eq resolved t.stable_identity

abbrev pub grants : List Text → Option Text → Bool
grants scopes none = true
grants scopes (some scope) = has_scope scopes scope

unfoldable pub authorize_resolved_target :
    (Text → Text) → CallerContext → CapabilityManifest → Target → Text → Text → Result (Unit {0})
unfolding has_scope resource_scope identity_valid
authorize_resolved_target sha256_hex caller manifest target resolved resource = do
  raise_if (not (identity_valid target resolved)) (app_error authorization)
  raise_if (not (has_scope caller.scopes (lit "target-id:" ++ resolved))) (app_error authorization)
  raise_if (not (grants caller.scopes (resource_scope sha256_hex manifest resource)))
      (app_error authorization)
  raise_if
      (is_ssh target.target_type
        && (not target.verify_host_key && not (is_read manifest.side_effects)))
      (app_error authorization)

unfoldable pub whole_target : Text
unfolding lit
whole_target = lit "<target>"

-- `str(value) if value not in (None, "") else "<target>"`
abbrev pub resource_of : (Json → Text) → Option Json → Text
resource_of str_of none = whole_target
resource_of str_of (some null) = whole_target
resource_of str_of (some (str [])) = whole_target
resource_of str_of (some value) = str_of value

unfoldable pub resource : (Json → Text) → CapabilityManifest → Fields → Text
resource str_of manifest arguments = elim (manifest.resource_argument) [
  | none ↦ whole_target
  | some argument ↦
      if text_eq argument [] then whole_target else resource_of str_of (get argument arguments)
]

abbrev pub target_key : Text → Text
target_key target = lit "target:" ++ target

abbrev pub capability_key : Text → Text → Text
capability_key target name = lit "target:" ++ target ++ lit ":capability:" ++ name

abbrev pub resource_key : Text → Text → Text → Text
resource_key target name resource =
    lit "target:" ++ target ++ lit ":capability:" ++ name ++ lit ":resource:" ++ resource

-- `_lock_key`: no key for a capability that runs unlocked.
unfoldable pub lock_key : (Json → Text) → CapabilityManifest → Text → Fields → Result (Option Text)
lock_key str_of manifest target arguments = elim (manifest.concurrency_scope) [
  | no_scope ↦ if manifest.concurrent_safe then ok none else err runtime_error
  | per_target ↦ ok (some (target_key target))
  | per_capability ↦ ok (some (capability_key target manifest.name))
  | per_resource ↦
      ok (some (resource_key target manifest.name (resource str_of manifest arguments)))
]
