-- ===== src/Kernel/State.antt =====
-- kernel.py: the state that an invocation works on, what it meets, and what it answers.
use mikrus_mcp.Json.{Json, Fields}
use mikrus_mcp.Manifests.Record.{CapabilityManifest}
use mikrus_mcp.Errors.{unavailable, app_error, err, Result, ErrorCode}
use mikrus_mcp.Prelude.{none, some, some, ℕ, Option, Bool, List, Text, [], ◌∷◌, lits}
use mikrus_mcp.Exec.{Exec}
use mikrus_mcp.Approvals
use mikrus_mcp.Jobs
use mikrus_mcp.RemoteJobs.Store.{Store}
use mikrus_mcp.RemoteJobs.Registry.{Clock}
use mikrus_mcp.Approvals.Registry.{Observed}
use mikrus_mcp.Targets.Registry.{TargetRegistry, Opening}
use mikrus_mcp.Policy.Scopes.{TargetType}
use mikrus_mcp.Policy.Retry.{Attempt}

-- The job registries and the clients of `InvocationKernel`. `C` is the content of a file and `V`
-- what a capability returns.
pub record Services (C V : Type 0) : Type 0 where
  pub program_jobs : Jobs.Registry.Registry V
  pub remote_jobs : Option (Store C)
  pub targets : TargetRegistry

-- The parts of `InvocationKernel` that an invocation changes. What a dispatched call changes by
-- itself is left out.
pub record Kernel (C V : Type 0) : Type 0 where
  pub approvals : Approvals.Registry.Registry C
  pub services : Services C V

-- An invocation under way: the kernel, how often an adapter was called, and the local flag
-- `mutation_execution_started`.
pub record Progress (C V : Type 0) : Type 0 where
  pub kernel : Kernel C V
  pub calls : ℕ
  pub mutation_started : Bool

-- The settings that an invocation reads.
pub record Settings : Type 0 where
  pub default_target : Text
  pub write_enabled : Bool
  pub default_deadline_ms : ℕ
  pub server_max_deadline_ms : ℕ
  pub max_result_bytes : ℕ

-- What one invocation meets: the file system and the clocks at its steps, how the target is
-- opened, what others do to the kernel while it waits for its lock, whether the deadline passes
-- before it has the lock, the time that has passed by then, the attempts, and the size of the
-- encoded answer.
pub record World (C V : Type 0) : Type 0 where
  pub jobs_now : ℕ
  pub remote_clock : Clock
  pub opening : Opening
  pub check_now : ℕ
  pub check_seen : Observed C
  pub meanwhile : Kernel C V → Kernel C V
  pub late : Bool
  pub waited_ms : ℕ
  pub consume_now : ℕ
  pub consume_seen : Observed C
  pub expires_at : ℕ
  pub attempts : ℕ → Attempt V
  pub result_bytes : ℕ

-- What stands under src/ beside this file, or under the standard library: the table of capabilities
-- with the active ones, `_validate_arguments`, the digests, `str`, and `sanitize_data`.
pub record Catalog (V : Type 0) : Type 0 where
  pub manifest_of : Text → Option CapabilityManifest
  pub is_active : Text → Bool
  pub validate_arguments : Text → Fields → CapabilityManifest → Result Fields
  pub arguments_digest : Fields → Text
  pub sha256_hex : Text → Text
  pub str_of : Json → Text
  pub sanitize : V → V

-- What an answer says of the target.
pub record Binding : Type 0 where
  pub target : Option Text
  pub identity : Option Text
  pub backend : Option TargetType

pub data Response (V : Type 0) : Type 0 where
  success : V → Binding → Response V
  failure : ErrorCode → Bool → Option ℕ → Response V

abbrev pub mikrus_only : List Text
mikrus_only = lits (
    "get_server_info" ∷ "list_servers" ∷ "get_server_stats" ∷ "restart_server" ∷ "get_logs"
    ∷ "get_log_by_id" ∷ "boost_server" ∷ "get_db_info" ∷ "get_ports" ∷ "get_cloud" ∷ "assign_domain"
    ∷ [])

abbrev pub ssh_only : List Text
ssh_only = lits (
    "execute_program" ∷ "start_program" ∷ "cancel_program" ∷ "remote_job_start"
    ∷ "file_patch_atomic" ∷ "cron_list" ∷ "cron_upsert" ∷ "cron_remove" ∷ "docker_runtime_snapshot"
    ∷ "docker_recreate_plan" ∷ "docker_recreate_apply" ∷ "service_wait" ∷ [])

abbrev pub remote_job_lookup : List Text
remote_job_lookup = lits (
    "remote_job_status" ∷ "remote_job_wait" ∷ "remote_job_result" ∷ "remote_job_output"
    ∷ "remote_job_cancel" ∷ [])

abbrev pub program_job_lookup : List Text
program_job_lookup = lits ("get_program_status" ∷ "get_program_result" ∷ "cancel_program" ∷ [])

abbrev pub mutation_budget_ms : ℕ
mutation_budget_ms = 65_000

module _ {C V A : Type 0} where
  -- A call on one part of the kernel.
  abbrev pub set_approvals :
      Kernel C V → Result A × Approvals.Registry.Registry C → Result A × Kernel C V
  set_approvals k (r, s) = (r, record k { approvals = s })

  abbrev pub on_approvals : Exec (Approvals.Registry.Registry C) A → Exec (Kernel C V) A
  on_approvals m k = set_approvals k (m k.approvals)

  abbrev pub set_jobs : Services C V → Result A × Jobs.Registry.Registry V → Result A × Services C V
  set_jobs k (r, s) = (r, record k { program_jobs = s })

  abbrev pub on_jobs : Exec (Jobs.Registry.Registry V) A → Exec (Services C V) A
  on_jobs m k = set_jobs k (m k.program_jobs)

  abbrev pub set_targets : Services C V → Result A × TargetRegistry → Result A × Services C V
  set_targets k (r, s) = (r, record k { targets = s })

  abbrev pub on_targets : Exec TargetRegistry A → Exec (Services C V) A
  on_targets m k = set_targets k (m k.targets)

  abbrev pub set_remote : Services C V → Result A × Store C → Result A × Services C V
  set_remote k (r, s) = (r, record k { remote_jobs = some s })

  -- A call on the durable jobs, which may not be configured.
  abbrev pub on_store : Exec (Store C) A → Option (Store C) → Exec (Services C V) A
  on_store m none k = (err (app_error unavailable), k)
  on_store m (some s) k = set_remote k (m s)

  abbrev pub on_remote : Exec (Store C) A → Exec (Services C V) A
  on_remote m k = on_store m k.remote_jobs k

  abbrev pub set_services : Kernel C V → Result A × Services C V → Result A × Kernel C V
  set_services k (r, s) = (r, record k { services = s })

  abbrev pub on_services : Exec (Services C V) A → Exec (Kernel C V) A
  on_services m k = set_services k (m k.services)

  abbrev pub set_kernel : Progress C V → Result A × Kernel C V → Result A × Progress C V
  set_kernel p (r, k) = (r, record p { kernel = k })

  -- A call on the kernel that calls no adapter.
  abbrev pub on_kernel : Exec (Kernel C V) A → Exec (Progress C V) A
  on_kernel m p = set_kernel p (m p.kernel)
