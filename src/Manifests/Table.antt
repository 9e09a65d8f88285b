-- ===== src/Manifests/Table.antt =====
-- manifests.py: the table of capabilities. The version of the package is a parameter.
use mikrus_mcp.Dict.{Dict}
use mikrus_mcp.Prelude.{
  ◌++◌, true, if◌then◌else◌, false, Bool, String, Option, ℕ, lit, Text, none, some, [], ◌∷◌,
}
use mikrus_mcp.Manifests.Record.{
  public_data, no_scope, credential, transient, sensitive, rate_limit, personal, per_resource,
  internal_data, Confidentiality, CapabilityManifest, read, write, destructive,
}

abbrev pub default_capability_response_bytes : ℕ
default_capability_response_bytes = 1_000_000

abbrev pub default_mutation_timeout_ms : ℕ
default_mutation_timeout_ms = 70_000

unfoldable pub optional : Option String → Option Text
unfolding lit
optional none = none
optional (some t) = some (lit t)

-- `_read`
unfoldable pub read_manifest :
    Text → String → Confidentiality → ℕ → Bool → Option String → CapabilityManifest
unfolding lit optional
read_manifest version name confidentiality timeout_ms target_required resource_argument = record {
  name = lit name;
  version = version;
  side_effects = read;
  confidentiality = confidentiality;
  operational_impact = lit "none";
  cost = lit "cheap";
  reversible = false;
  idempotent = true;
  idempotency_mechanism = some (lit "natural read");
  retryable = true;
  retry_conditions = rate_limit ∷ transient ∷ [];
  concurrent_safe = true;
  concurrency_scope = no_scope;
  timeout_ms = timeout_ms;
  requires_approval = false;
  required_scopes = (lit "tool:" ++ lit name) ∷ [];
  target_binding = lit "configured target resolved to a verified backend identity";
  target_required = target_required;
  resource_argument = optional resource_argument;
  max_response_bytes = default_capability_response_bytes;
}

-- `_mutation`
unfoldable pub mutation_manifest :
    Text → String → Bool → String → ℕ → Bool → Option String → CapabilityManifest
unfolding lit optional
mutation_manifest version name is_destructive impact timeout_ms target_required resource_argument =
    record {
      name = lit name;
      version = version;
      side_effects = if is_destructive then destructive else write;
      confidentiality = internal_data;
      operational_impact = lit impact;
      cost = lit "moderate";
      reversible = false;
      idempotent = false;
      idempotency_mechanism = none;
      retryable = false;
      retry_conditions = [];
      concurrent_safe = false;
      concurrency_scope = per_resource;
      timeout_ms = timeout_ms;
      requires_approval = true;
      required_scopes = (lit "tool:" ++ lit name) ∷ lit "write:server" ∷ [];
      target_binding = lit "verified backend identity plus approval-bound resource";
      target_required = target_required;
      resource_argument = optional resource_argument;
      max_response_bytes = default_capability_response_bytes;
    }

unfoldable pub manifests : Text → Dict CapabilityManifest
unfolding lit read_manifest mutation_manifest
manifests version =
    (lit "get_server_info", read_manifest version "get_server_info" internal_data 30_000 true none)
    ∷ (lit "list_servers", read_manifest version "list_servers" personal 30_000 true none)
    ∷ (
      lit "get_server_stats",
      read_manifest version "get_server_stats" internal_data 30_000 true none,
    )
    ∷ (
      lit "restart_server",
      mutation_manifest version "restart_server" true "outage" 120_000 true none,
    )
    ∷ (lit "get_logs", read_manifest version "get_logs" sensitive 30_000 true none)
    ∷ (
      lit "get_log_by_id",
      read_manifest version "get_log_by_id" sensitive 30_000 true (some "log_id"),
    )
    ∷ (
      lit "boost_server",
      mutation_manifest version "boost_server" false "transient" default_mutation_timeout_ms true
          none,
    )
    ∷ (lit "get_db_info", read_manifest version "get_db_info" credential 30_000 true none)
    ∷ (lit "get_ports", read_manifest version "get_ports" internal_data 30_000 true none)
    ∷ (lit "get_cloud", read_manifest version "get_cloud" personal 30_000 true none)
    ∷ (
      lit "assign_domain",
      mutation_manifest version "assign_domain" false "persistent" default_mutation_timeout_ms true
          (some "domain"),
    )
    ∷ (lit "read_file", read_manifest version "read_file" sensitive 30_000 true (some "path"))
    ∷ (
      lit "write_file",
      mutation_manifest version "write_file" false "persistent" default_mutation_timeout_ms true
          (some "path"),
    )
    ∷ (
      lit "get_service_status",
      read_manifest version "get_service_status" internal_data 30_000 true (some "name"),
    )
    ∷ (
      lit "change_service_state",
      mutation_manifest version "change_service_state" true "outage" default_mutation_timeout_ms
          true (some "name"),
    )
    ∷ (
      lit "analyze_disk",
      read_manifest version "analyze_disk" internal_data 30_000 true (some "path"),
    )
    ∷ (lit "check_port", read_manifest version "check_port" internal_data 30_000 true (some "port"))
    ∷ (lit "list_processes", read_manifest version "list_processes" sensitive 30_000 true none)
    ∷ (
      lit "terminate_process",
      mutation_manifest version "terminate_process" true "outage" default_mutation_timeout_ms true
          (some "target"),
    )
    ∷ (
      lit "update_system",
      mutation_manifest version "update_system" true "outage" 120_000 true none,
    )
    ∷ (
      lit "list_directory",
      read_manifest version "list_directory" sensitive 30_000 true (some "path"),
    )
    ∷ (lit "tail_file", read_manifest version "tail_file" sensitive 30_000 true (some "path"))
    ∷ (
      lit "search_in_files",
      read_manifest version "search_in_files" sensitive 30_000 true (some "path"),
    )
    ∷ (
      lit "get_memory_info",
      read_manifest version "get_memory_info" internal_data 30_000 true none,
    )
    ∷ (lit "get_network_info", read_manifest version "get_network_info" sensitive 30_000 true none)
    ∷ (lit "get_process_tree", read_manifest version "get_process_tree" sensitive 30_000 true none)
    ∷ (
      lit "list_docker_containers",
      read_manifest version "list_docker_containers" sensitive 30_000 true none,
    )
    ∷ (
      lit "get_docker_logs",
      read_manifest version "get_docker_logs" sensitive 30_000 true (some "container"),
    )
    ∷ (
      lit "get_docker_stats",
      read_manifest version "get_docker_stats" internal_data 30_000 true none,
    )
    ∷ (
      lit "get_journal_logs",
      read_manifest version "get_journal_logs" sensitive 30_000 true (some "unit"),
    )
    ∷ (
      lit "find_system_errors",
      read_manifest version "find_system_errors" sensitive 30_000 true none,
    )
    ∷ (
      lit "search_journal_logs",
      read_manifest version "search_journal_logs" sensitive 30_000 true none,
    )
    ∷ (
      lit "execute_program",
      mutation_manifest version "execute_program" false
          "process execution (per-executable read-only admission policy)"
          default_mutation_timeout_ms true none,
    )
    ∷ (
      lit "start_program",
      mutation_manifest version "start_program" false "process execution"
          default_mutation_timeout_ms true none,
    )
    ∷ (
      lit "get_program_status",
      read_manifest version "get_program_status" internal_data 1_000 false (some "job_id"),
    )
    ∷ (
      lit "get_program_result",
      read_manifest version "get_program_result" internal_data 1_000 false (some "job_id"),
    )
    ∷ (
      lit "cancel_program",
      mutation_manifest version "cancel_program" false "process execution"
          default_mutation_timeout_ms false (some "job_id"),
    )
    ∷ (
      lit "remote_job_start",
      mutation_manifest version "remote_job_start" false "process execution"
          default_mutation_timeout_ms true (some "idempotency_key"),
    )
    ∷ (
      lit "remote_job_status",
      read_manifest version "remote_job_status" internal_data 1_000 false (some "job_id"),
    )
    ∷ (
      lit "remote_job_wait",
      read_manifest version "remote_job_wait" internal_data 65_000 false (some "job_id"),
    )
    ∷ (
      lit "remote_job_result",
      read_manifest version "remote_job_result" internal_data 1_000 false (some "job_id"),
    )
    ∷ (
      lit "remote_job_output",
      read_manifest version "remote_job_output" internal_data 1_000 false (some "job_id"),
    )
    ∷ (
      lit "remote_job_cancel",
      mutation_manifest version "remote_job_cancel" false "process execution"
          default_mutation_timeout_ms false (some "job_id"),
    )
    ∷ (
      lit "file_patch_atomic",
      mutation_manifest version "file_patch_atomic" false "persistent" default_mutation_timeout_ms
          true (some "path"),
    )
    ∷ (lit "cron_list", read_manifest version "cron_list" internal_data 30_000 true none)
    ∷ (
      lit "cron_upsert",
      mutation_manifest version "cron_upsert" false "persistent" default_mutation_timeout_ms true
          (some "profile_id"),
    )
    ∷ (
      lit "cron_remove",
      mutation_manifest version "cron_remove" false "persistent" default_mutation_timeout_ms true
          (some "profile_id"),
    )
    ∷ (
      lit "docker_runtime_snapshot",
      read_manifest version "docker_runtime_snapshot" sensitive 30_000 true (some "service"),
    )
    ∷ (
      lit "docker_recreate_plan",
      read_manifest version "docker_recreate_plan" sensitive 45_000 true (some "service"),
    )
    ∷ (
      lit "docker_recreate_apply",
      mutation_manifest version "docker_recreate_apply" false "service outage during recreate"
          default_mutation_timeout_ms true (some "service"),
    )
    ∷ (
      lit "service_wait",
      read_manifest version "service_wait" internal_data 30_000 true (some "service"),
    )
    ∷ (
      lit "list_configured_servers",
      read_manifest version "list_configured_servers" sensitive 1_000 false none,
    )
    ∷ (
      lit "describe_mikrus_capabilities",
      read_manifest version "describe_mikrus_capabilities" public_data 1_000 false none,
    )
    ∷ []
