-- ===== src/Manifests/Tests.antt =====
-- The theorems about the table of capabilities at some of them.
use mikrus_mcp.Validators.Curl.{in_set}
use mikrus_mcp.Dict.{lookup}
use mikrus_mcp.Manifests.Table.{optional, mutation_manifest, read_manifest, manifests}
use mikrus_mcp.Manifests.Record.{internal_data, CapabilityManifest}
use mikrus_mcp.Manifests.Listed.{is_active-IsSupported, IsSupported, manifests-IsListed, IsListed}
use mikrus_mcp.Manifests.Activation.{inactive_reason, is_active, Deployment}
use mikrus_mcp.Prelude.{refl, none, true, text_eq, some, false, ◌∷◌, [], Text, lit, ◌≡◌}
use mikrus_mcp.Policy.Scopes.{ssh}

abbrev cron_list_name : Text
unfolding lit
cron_list_name = lit "cron_list"

abbrev cron_list : CapabilityManifest
unfolding read_manifest
cron_list = read_manifest [] "cron_list" internal_data 30_000 true none

cron_list_listed : lookup cron_list_name (manifests []) ≡ some cron_list
unfolding manifests mutation_manifest read_manifest optional text_eq lit cron_list cron_list_name
cron_list_listed = refl

manifests-IsListed_example : IsListed cron_list_name cron_list
manifests-IsListed_example = manifests-IsListed [] cron_list_name cron_list cron_list_listed

abbrev deployment : Deployment
deployment = record {
  target_types = ssh ∷ [];
  remote_job_store = false;
  cron_profile_store = true;
  docker_plan_store = false;
  write_enabled = false;
}

cron_list_active : is_active deployment [] cron_list_name ≡ true
unfolding is_active inactive_reason manifests mutation_manifest read_manifest optional text_eq lit
    in_set cron_list_name
cron_list_active = refl

is_active-IsSupported_example :
    (m : CapabilityManifest) × (lookup cron_list_name (manifests []) ≡ some m)
    × IsSupported deployment cron_list_name m
is_active-IsSupported_example = is_active-IsSupported deployment [] cron_list_name cron_list_active
