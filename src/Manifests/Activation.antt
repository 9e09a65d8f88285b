-- ===== src/Manifests/Activation.antt =====
-- manifests.py: which capabilities of the table are active under the settings.
use mikrus_mcp.Validators.Curl.{in_set}
use mikrus_mcp.Policy.Scopes.{is_ssh, TargetType}
use mikrus_mcp.Manifests.Record.{is_read, CapabilityManifest}
use mikrus_mcp.Dict.{lookup}
use mikrus_mcp.Manifests.Table.{manifests}
use mikrus_mcp.Prelude.{
  true, false, ◌&&◌, is_some, false, not, lits, any, Text, Option, List, Bool, none, some, [], ◌∷◌,
}

abbrev pub mikrus_only : List Text
mikrus_only = lits (
    "get_server_info" ∷ "list_servers" ∷ "get_server_stats" ∷ "restart_server" ∷ "get_logs"
    ∷ "get_log_by_id" ∷ "boost_server" ∷ "get_db_info" ∷ "get_ports" ∷ "get_cloud" ∷ "assign_domain"
    ∷ [])

abbrev pub ssh_only : List Text
ssh_only = lits (
    "execute_program" ∷ "start_program" ∷ "cancel_program" ∷ "remote_job_start"
    ∷ "file_patch_atomic" ∷ "cron_list" ∷ "cron_upsert" ∷ "cron_remove" ∷ "docker_runtime_snapshot"
    ∷ "docker_recreate_plan" ∷ "docker_recreate_apply" ∷ "service_wait" ∷ [])

abbrev pub remote_job_names : List Text
remote_job_names = lits (
    "remote_job_start" ∷ "remote_job_status" ∷ "remote_job_wait" ∷ "remote_job_result"
    ∷ "remote_job_output" ∷ "remote_job_cancel" ∷ [])

abbrev pub cron_names : List Text
cron_names = lits ("cron_list" ∷ "cron_upsert" ∷ "cron_remove" ∷ [])

abbrev pub docker_plan_names : List Text
docker_plan_names = lits ("docker_recreate_plan" ∷ "docker_recreate_apply" ∷ "service_wait" ∷ [])

-- What `inactive_reason` reads of the settings: the types of the targets, and whether each store is
-- configured.
pub record Deployment : Type 0 where
  pub target_types : List TargetType
  pub remote_job_store : Bool
  pub cron_profile_store : Bool
  pub docker_plan_store : Bool
  pub write_enabled : Bool

pub data Reason : Type 0 where
  mikrus_target_required ssh_target_required store_not_configured write_operations_disabled : Reason

abbrev pub has_ssh : Deployment → Bool
has_ssh d = any is_ssh d.target_types

abbrev pub has_mikrus : Deployment → Bool
has_mikrus d = any (λ t. not (is_ssh t)) d.target_types

-- The first reason, or what the next test finds.
abbrev pub or_else : Option Reason → Option Reason → Option Reason
or_else none next = next
or_else (some r) next = some r

abbrev pub when : Bool → Reason → Option Reason
when true r = some r
when false r = none

-- The tests of a group of capabilities that needs a store and an SSH target.
abbrev pub needs_store : Bool → Bool → Deployment → Option Reason
needs_store false store d = none
needs_store true store d =
    or_else (when (not store) store_not_configured) (when (not (has_ssh d)) ssh_target_required)

unfoldable pub inactive_reason : Deployment → Text → CapabilityManifest → Option Reason
inactive_reason d name m =
    or_else (when (in_set name mikrus_only && not (has_mikrus d)) mikrus_target_required) (
      or_else (when (in_set name ssh_only && not (has_ssh d)) ssh_target_required) (
        or_else (needs_store (in_set name remote_job_names) d.remote_job_store d) (
          or_else (needs_store (in_set name cron_names) d.cron_profile_store d) (
            or_else (needs_store (in_set name docker_plan_names) d.docker_plan_store d) (
              when (not (is_read m.side_effects) && not d.write_enabled)
                write_operations_disabled)))))

-- `name in active_names`, for a name of the table.
abbrev pub is_active_entry : Deployment → Option CapabilityManifest → Text → Bool
is_active_entry d none name = false
is_active_entry d (some m) name = not (is_some (inactive_reason d name m))

unfoldable pub is_active : Deployment → Text → Text → Bool
unfolding inactive_reason manifests
is_active d version name = is_active_entry d (lookup name (manifests version)) name
