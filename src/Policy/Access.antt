-- ===== src/Policy/Access.antt =====
-- What an authorized call may rely on.
use mikrus_mcp.Policy.Granted.{
  grants-MayUse, data_classification-IsReadable, MayUse, missing-All, IsReadable,
}
use mikrus_mcp.Validators.Curl.{in_set}
use mikrus_mcp.Prelude.{
  All, some, none, refl, refl, ◌∷◌, starts_with, text_eq, not, lit, is_some, before, any, Option,
  Bool, [], ◌++◌, ◌≡◌, List, Text, arith, true, false,
}
use mikrus_mcp.Errors.{ok, Result}
use mikrus_mcp.Results.{◌>>◌}
use mikrus_mcp.Manifests.Record.{
  ConcurrencyScope, no_scope, per_target, per_capability, per_resource, CapabilityManifest, is_read,
}
use mikrus_mcp.Manifests.Checked.{IsConsistent}
use mikrus_mcp.Json.{Json, Fields}
use mikrus_mcp.Policy.Scopes.{
  target_key, capability_key, resource_key, resource, resource_scope, grants, confidentiality_text,
  CallerContext, Target, has_scope, authorize_selector, authorize_data_classification,
  authorize_mutation, authorize_resolved_target, lock_key, is_ssh, identity_valid, target_scope,
  verified_prefix,
}

-- The scopes of one caller are among those of another.
abbrev pub Includes : List Text → List Text → Type 0
Includes wide narrow = (t : Text) → in_set t narrow ≡ true → in_set t wide ≡ true

pub has_scope-Includes :
    (wide narrow : List Text) (required : Text)
    → Includes wide narrow
    → has_scope narrow required ≡ true
    → has_scope wide required ≡ true
unfolding has_scope
has_scope-Includes wide narrow required inc h =
    ground (arith, inc required, inc (before b':' required ++ lit ":*"))

missing-Includes :
    (wide narrow required : List Text)
    → Includes wide narrow
    → any (λ scope. not (has_scope narrow scope)) required ≡ false
    → any (λ scope. not (has_scope wide scope)) required ≡ false
missing-Includes wide narrow [] inc h = refl
missing-Includes wide narrow (r ∷ rs) inc h =
    ground (arith, has_scope-Includes wide narrow r inc, missing-Includes wide narrow rs inc)

-- The four authorizations of a call, one after another; `invoke` of kernel.py resolves the target
-- between the third and the last.
unfoldable pub authorize :
    (Text → Text)
    → Bool
    → CallerContext
    → CapabilityManifest
    → Text
    → Target
    → Text
    → Text
    → Result (Unit {0})
authorize sha256_hex write_enabled caller manifest name target resolved resource = do
  authorize_selector caller manifest name
  authorize_data_classification caller manifest
  authorize_mutation write_enabled manifest
  authorize_resolved_target sha256_hex caller manifest target resolved resource

-- What a call on a resolved target has passed.
pub record IsAuthorized (sha256_hex : Text → Text) (write_enabled : Bool) (caller : CallerContext)
    (manifest : CapabilityManifest) (name : Text) (target : Target) (resolved resource : Text)
    : Type 0 where
  pub principal : text_eq caller.principal [] ≡ false
  pub required : All (λ scope. has_scope caller.scopes scope ≡ true) manifest.required_scopes
  pub target_granted :
      manifest.target_required ≡ true → has_scope caller.scopes (target_scope name) ≡ true
  pub data_granted : IsReadable caller.scopes manifest.confidentiality
  pub identity_granted : has_scope caller.scopes (lit "target-id:" ++ resolved) ≡ true
  pub resource_granted :
      MayUse sha256_hex caller.scopes manifest resource manifest.resource_argument
  pub identity : identity_valid target resolved ≡ true
  pub writes_enabled : is_read manifest.side_effects ≡ false → write_enabled ≡ true
  pub host_verified :
      is_read manifest.side_effects ≡ false
      → is_ssh target.target_type ≡ true
      → (target.verify_host_key ≡ true)
        × (starts_with (verified_prefix target.stable_identity) resolved ≡ true)

-- A call that is authorized comes from a named principal who holds every scope that the capability
-- lists, the scope of the target if the capability requires a target, the scope of the data unless
-- they are public, the scope of the resolved identity, and the scope of the resource if the
-- capability names one; the identity is valid for the target; a mutation needs writes to be enabled
-- and, over SSH, a host key that was verified and stands in the identity.
pub authorize-IsAuthorized :
    (sha256_hex : Text → Text) (write_enabled : Bool) (caller : CallerContext)
    (manifest : CapabilityManifest) (name : Text) (target : Target) (resolved resource : Text)
    → authorize sha256_hex write_enabled caller manifest name target resolved resource ≡ ok tt
    → IsAuthorized sha256_hex write_enabled caller manifest name target resolved resource
unfolding authorize authorize_selector authorize_data_classification authorize_mutation
    authorize_resolved_target identity_valid
authorize-IsAuthorized sha256_hex write_enabled caller manifest name target resolved resource h =
    record {
      principal = ground arith;
      required = missing-All caller.scopes manifest.required_scopes (ground arith);
      target_granted = λ r. ground arith;
      data_granted = data_classification-IsReadable caller manifest (ground arith);
      identity_granted = ground arith;
      resource_granted = grants-MayUse sha256_hex caller.scopes manifest resource (ground arith);
      identity = ground arith;
      writes_enabled = λ w. ground arith;
      host_verified = λ w s. (ground arith, ground arith);
    }

-- A caller with more scopes.
abbrev pub with_scopes : CallerContext → List Text → CallerContext
with_scopes caller scopes = record caller { scopes = scopes }

authorize_selector-Includes :
    (caller : CallerContext) (wide : List Text) (manifest : CapabilityManifest) (name : Text)
    → Includes wide caller.scopes
    → authorize_selector caller manifest name ≡ ok tt
    → authorize_selector (with_scopes caller wide) manifest name ≡ ok tt
unfolding authorize_selector
authorize_selector-Includes caller wide manifest name inc h = ground (
  arith,
  missing-Includes wide caller.scopes manifest.required_scopes inc,
  has_scope-Includes wide caller.scopes (target_scope name) inc,
)

data_classification-Includes :
    (caller : CallerContext) (wide : List Text) (manifest : CapabilityManifest)
    → Includes wide caller.scopes
    → authorize_data_classification caller manifest ≡ ok tt
    → authorize_data_classification (with_scopes caller wide) manifest ≡ ok tt
unfolding authorize_data_classification
data_classification-Includes caller wide manifest inc h = ground (
  arith,
  has_scope-Includes wide caller.scopes
      (lit "data:" ++ confidentiality_text manifest.confidentiality) inc,
)

grants-Includes :
    (wide narrow : List Text) (scope : Option Text)
    → Includes wide narrow
    → grants narrow scope ≡ true
    → grants wide scope ≡ true
grants-Includes wide narrow none inc h = refl
grants-Includes wide narrow (some scope) inc h = has_scope-Includes wide narrow scope inc h

resolved_target-Includes :
    (sha256_hex : Text → Text) (caller : CallerContext) (wide : List Text)
    (manifest : CapabilityManifest) (target : Target) (resolved resource : Text)
    → Includes wide caller.scopes
    → authorize_resolved_target sha256_hex caller manifest target resolved resource ≡ ok tt
    → authorize_resolved_target sha256_hex
        (with_scopes caller wide)
        manifest
        target
        resolved
        resource
      ≡ ok tt
unfolding authorize_resolved_target
resolved_target-Includes sha256_hex caller wide manifest target resolved resource inc h = ground (
  arith,
  has_scope-Includes wide caller.scopes (lit "target-id:" ++ resolved) inc,
  grants-Includes wide caller.scopes (resource_scope sha256_hex manifest resource) inc,
)

-- More scopes never take an authorization away.
pub authorize-Includes :
    (sha256_hex : Text → Text) (write_enabled : Bool) (caller : CallerContext) (wide : List Text)
    (manifest : CapabilityManifest) (name : Text) (target : Target) (resolved resource : Text)
    → Includes wide caller.scopes
    → authorize sha256_hex write_enabled caller manifest name target resolved resource ≡ ok tt
    → authorize sha256_hex write_enabled
        (with_scopes caller wide)
        manifest
        name
        target
        resolved
        resource
      ≡ ok tt
unfolding authorize
authorize-Includes sha256_hex write_enabled caller wide manifest name target resolved resource inc
      h =
    ground (
      arith,
      authorize_selector-Includes caller wide manifest name inc,
      data_classification-Includes caller wide manifest inc,
      resolved_target-Includes sha256_hex caller wide manifest target resolved resource inc,
    )

-- For a consistent manifest `_lock_key` does not raise, and gives no key exactly to a capability
-- that is safe to run concurrently.
pub lock_key-IsConsistent :
    (str_of : Json → Text) (manifest : CapabilityManifest) (target : Text) (arguments : Fields)
    → IsConsistent manifest
    → (key : Option Text) × (lock_key str_of manifest target arguments ≡ ok key)
      × (is_some key ≡ not manifest.concurrent_safe)
unfolding lock_key
lock_key-IsConsistent str_of manifest target arguments c = go manifest.concurrency_scope refl
  where
    go :
        (scope : ConcurrencyScope)
        → manifest.concurrency_scope ≡ scope
        → (key : Option Text) × (lock_key str_of manifest target arguments ≡ ok key)
          × (is_some key ≡ not manifest.concurrent_safe)
    go no_scope e = (none, rw (e, c.concurrency, e) refl, rw (c.concurrency, e) refl)
    go per_target e = (some (target_key target), rw e refl, rw (c.concurrency, e) refl)
    go per_capability e =
        (some (capability_key target manifest.name), rw e refl, rw (c.concurrency, e) refl)
    go per_resource e = (
      some (resource_key target manifest.name (resource str_of manifest arguments)),
      rw e refl,
      rw (c.concurrency, e) refl,
    )
