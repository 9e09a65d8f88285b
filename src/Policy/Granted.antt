-- ===== src/Policy/Granted.antt =====
-- kernel_policy.py: the scopes that a call must hold for its data and its resource.
use mikrus_mcp.Manifests.Record.{
  CapabilityManifest, Confidentiality, public_data, internal_data, personal, sensitive, credential,
}
use mikrus_mcp.Policy.Scopes.{
  has_scope, grants, resource_scope, authorize_data_classification, CallerContext,
}
use mikrus_mcp.Results.{raise_if}
use mikrus_mcp.Errors.{ok, app_error, authorization}
use mikrus_mcp.Prelude.{
  refl, any, not, All, List, Text, Option, none, some, true, false, lit, [], ◌∷◌, ◌≡◌, ◌++◌, arith,
}

pub missing-All :
    (scopes required : List Text)
    → any (λ scope. not (has_scope scopes scope)) required ≡ false
    → All (λ scope. has_scope scopes scope ≡ true) required
missing-All scopes [] h = tt
missing-All scopes (r ∷ rs) h =
    let later : any (λ scope. not (has_scope scopes scope)) rs ≡ false = ground arith in
    (ground arith, missing-All scopes rs later)

-- Data that is not public needs its scope.
abbrev pub IsReadable : List Text → Confidentiality → Type 0
IsReadable scopes public_data = Unit {0}
IsReadable scopes internal_data = has_scope scopes (lit "data:internal") ≡ true
IsReadable scopes personal = has_scope scopes (lit "data:personal") ≡ true
IsReadable scopes sensitive = has_scope scopes (lit "data:sensitive") ≡ true
IsReadable scopes credential = has_scope scopes (lit "data:credential") ≡ true

pub data_classification-IsReadable :
    (caller : CallerContext) (manifest : CapabilityManifest)
    → authorize_data_classification caller manifest ≡ ok tt
    → IsReadable caller.scopes manifest.confidentiality
unfolding authorize_data_classification lit
data_classification-IsReadable caller manifest h = go manifest.confidentiality refl
  where
    go : (c : Confidentiality) → manifest.confidentiality ≡ c → IsReadable caller.scopes c
    go public_data e = tt
    go internal_data e =
        let k : raise_if (not (has_scope caller.scopes (lit "data:internal")))
              (app_error authorization)
            ≡ ok tt =
          rw e at h in
        ground arith
    go personal e =
        let k : raise_if (not (has_scope caller.scopes (lit "data:personal")))
              (app_error authorization)
            ≡ ok tt =
          rw e at h in
        ground arith
    go sensitive e =
        let k : raise_if (not (has_scope caller.scopes (lit "data:sensitive")))
              (app_error authorization)
            ≡ ok tt =
          rw e at h in
        ground arith
    go credential e =
        let k : raise_if (not (has_scope caller.scopes (lit "data:credential")))
              (app_error authorization)
            ≡ ok tt =
          rw e at h in
        ground arith

-- A capability that names a resource needs the scope of that resource.
abbrev pub MayUse : (Text → Text) → List Text → CapabilityManifest → Text → Option Text → Type 0
MayUse sha256_hex scopes manifest resource none = Unit {0}
MayUse sha256_hex scopes manifest resource (some argument) =
    has_scope scopes (lit "resource:" ++ manifest.name ++ lit ":sha256:" ++ sha256_hex resource)
    ≡ true

pub grants-MayUse :
    (sha256_hex : Text → Text) (scopes : List Text) (manifest : CapabilityManifest)
    (resource : Text)
    → grants scopes (resource_scope sha256_hex manifest resource) ≡ true
    → MayUse sha256_hex scopes manifest resource manifest.resource_argument
unfolding resource_scope
grants-MayUse sha256_hex scopes manifest resource h = go manifest.resource_argument refl
  where
    go :
        (o : Option Text)
        → manifest.resource_argument ≡ o
        → MayUse sha256_hex scopes manifest resource o
    go none e = tt
    go (some argument) e = rw e at h
