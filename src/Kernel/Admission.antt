-- ===== src/Kernel/Admission.antt =====
-- kernel.py: the checks of `invoke` before its lock.
use mikrus_mcp.Validators.Curl.{in_set}
use mikrus_mcp.Errors.{
  validation, unavailable, type_error, not_found, key_error, authorization, ok, err, app_error,
  Result,
}
use mikrus_mcp.Manifests.Record.{CapabilityManifest}
use mikrus_mcp.Prelude.{
  text_eq, true, false, min, false, ◌&&◌, leb, not, if◌then◌else◌, ℕ, Option, Bool, Text, lit, none,
  some,
}
use mikrus_mcp.Exec.{Exec, pure, lift, raise_when, ◌>>=◌, ◌>>◌}
use mikrus_mcp.Policy.Scopes.{
  is_ssh, Target, CallerContext, authorize_selector, authorize_data_classification,
  authorize_mutation, authorize_resolved_target, resource, lock_key,
}
use mikrus_mcp.Targets
use mikrus_mcp.RemoteJobs
use mikrus_mcp.Approvals.Record.{Request}
use mikrus_mcp.Approvals.Registry.{has_matching}
use mikrus_mcp.Jobs.Registry.{target_binding}
use mikrus_mcp.Targets.Registry.{config, resolved_identity}
use mikrus_mcp.Json.{Json, Fields, JsonLib, get, truthy}
use mikrus_mcp.Kernel.State.{
  Services, on_services, ssh_only, remote_job_lookup, program_job_lookup, mikrus_only, on_jobs,
  on_remote, on_targets, on_approvals, Kernel, Settings, World, Catalog,
}

-- Where a call goes, as far as it is known.
pub record Route : Type 0 where
  pub target : Text
  pub identity : Option Text
  pub target_config : Option Target

-- A call that has passed all checks before its lock.
pub record Admitted : Type 0 where
  pub manifest : CapabilityManifest
  pub route : Route
  pub request : Request
  pub key : Option Text
  pub timeout_ms : ℕ

-- `target_identity or "<none>"`
abbrev pub or_none_text : Option Text → Text
or_none_text none = lit "<none>"
or_none_text (some identity) = if text_eq identity (lit "") then lit "<none>" else identity

abbrev pub active_manifest : Bool → Option CapabilityManifest → Result CapabilityManifest
active_manifest true (some m) = ok m
active_manifest true none = err (app_error not_found)
active_manifest false m = err (app_error not_found)

abbrev pub or_default : Option ℕ → ℕ → ℕ
or_default none d = d
or_default (some given) d = given

abbrev pub need_config : Option Target → Result Target
need_config none = err type_error
need_config (some t) = ok t

module _ {C V : Type 0} (json : JsonLib C) (uid : ℕ) (catalog : Catalog V) (settings : Settings)
    (world : World C V) (caller : CallerContext) where
  -- `str(normalized.get("server") or default)`
  abbrev pub chosen_target : Option Json → Text
  chosen_target none = settings.default_target
  chosen_target (some v) =
      if truthy json (some v) then catalog.str_of v else settings.default_target

  abbrev pub job_id_of : Option Json → Result Text
  job_id_of none = err key_error
  job_id_of (some v) = ok (catalog.str_of v)

  abbrev pub configured : Text → Option Text → Exec (Services C V) Route
  configured target identity k =
      (do
        t ← lift (config k.targets target)
        pure (record { target = target; identity = identity; target_config = some t }))
        k

  -- The binding of a program job, or of a remote job, to the target that it was started on.
  abbrev pub program_route : Fields → Exec (Services C V) Route
  program_route normalized = do
    job_id ← lift (job_id_of (get (lit "job_id") normalized))
    binding ← on_jobs (target_binding job_id caller.principal world.jobs_now)
    configured binding.0 (some binding.1)

  abbrev pub ssh_route : Route → Exec (Services C V) Route
  ssh_route route = do
    t ← lift (need_config route.target_config)
    raise_when (not (is_ssh t.target_type)) (app_error unavailable)
    pure route

  abbrev pub remote_route : Fields → Exec (Services C V) Route
  remote_route normalized = do
    job_id ← lift (job_id_of (get (lit "job_id") normalized))
    found ← on_remote (RemoteJobs.Registry.get json world.remote_clock job_id caller.principal)
    route ← configured found.server_id (some found.target_identity)
    ssh_route route

  unfoldable pub route_of : Text → Fields → Exec (Services C V) Route
  route_of name normalized =
      if in_set name program_job_lookup
      then program_route normalized
      else if in_set name remote_job_lookup
      then remote_route normalized
      else pure (record {
        target = chosen_target (get (lit "server") normalized);
        identity = none;
        target_config = none;
      })

  abbrev pub resolved :
      CapabilityManifest → Text → Target → Text → Text → Exec (Services C V) (Unit {0})
  resolved m target t identity what =
      lift (authorize_resolved_target catalog.sha256_hex caller m t identity what)

  -- The client of a capability that needs a target.
  abbrev pub prepare_target : Text → CapabilityManifest → Text → Route → Exec (Services C V) Route
  prepare_target name m what route k =
      (do
        t ← lift (config k.targets route.target)
        raise_when (in_set name mikrus_only && is_ssh t.target_type) (app_error validation)
        raise_when (in_set name ssh_only && not (is_ssh t.target_type)) (app_error unavailable)
        client ← on_targets (Targets.Registry.get route.target world.opening)
        resolved m route.target t client.stable_identity what
        pure (record route { identity = some client.stable_identity; target_config = some t }))
        k

  abbrev pub reconnect : Text → Route → Exec (Services C V) Route
  reconnect name route =
      if in_set name remote_job_lookup
      then (do on_targets (Targets.Registry.get route.target world.opening); pure route)
      else pure route

  abbrev pub prepare_bound :
      Text → CapabilityManifest → Text → Option Text → Route → Exec (Services C V) Route
  prepare_bound name m what none route = pure route
  prepare_bound name m what (some identity) route = do
    t ← lift (need_config route.target_config)
    resolved m route.target t identity what
    reconnect name route

  unfoldable pub prepare : Text → CapabilityManifest → Text → Route → Exec (Services C V) Route
  prepare name m what route =
      if m.target_required
      then prepare_target name m what route
      else prepare_bound name m what route.identity route

  abbrev pub check_approval : CapabilityManifest → Request → Exec (Kernel C V) (Unit {0})
  check_approval m q =
      if m.requires_approval
      then (do
        found ← on_approvals (has_matching json uid world.check_now q world.check_seen)
        raise_when (not found) (app_error authorization))
      else pure tt

  abbrev pub request_of : CapabilityManifest → Route → Text → Fields → Request
  request_of m route what normalized = record {
    capability = m.name;
    principal = caller.principal;
    target = or_none_text route.identity;
    resource = what;
    arguments_digest = catalog.arguments_digest normalized;
  }

  -- `min(manifest.timeout_ms, requested_deadline, server_max_deadline_ms)`, in range.
  unfoldable pub budget : CapabilityManifest → Option ℕ → Result ℕ
  budget m deadline_ms =
      let requested = or_default deadline_ms settings.default_deadline_ms in
      if leb 100 requested && leb requested settings.server_max_deadline_ms
      then ok (min (min m.timeout_ms requested) settings.server_max_deadline_ms)
      else err (app_error validation)

  -- The call is placed: its target is found, the caller is authorized, and a client is connected.
  unfoldable pub place : Text → CapabilityManifest → Fields → Exec (Services C V) Route
  unfolding route_of prepare
  place name m normalized = do
    selected ← route_of name normalized
    lift (authorize_selector caller m selected.target)
    lift (authorize_data_classification caller m)
    lift (authorize_mutation settings.write_enabled m)
    prepare name m (resource catalog.str_of m normalized) selected

  -- The lock and the time that the call gets.
  abbrev pub schedule :
      CapabilityManifest → Fields → Option ℕ → Route → Request → Exec (Kernel C V) Admitted
  schedule m normalized deadline_ms route q = do
    key ← lift (lock_key catalog.str_of m route.target normalized)
    timeout_ms ← lift (budget m deadline_ms)
    pure (record { manifest = m; route = route; request = q; key = key; timeout_ms = timeout_ms })

  abbrev pub approve : CapabilityManifest → Fields → Option ℕ → Route → Exec (Kernel C V) Admitted
  approve m normalized deadline_ms route =
      let q = request_of m route (resource catalog.str_of m normalized) normalized in
      check_approval m q >> schedule m normalized deadline_ms route q

  abbrev pub admit_valid :
      Text → CapabilityManifest → Option ℕ → Fields → Exec (Kernel C V) Admitted
  admit_valid name m deadline_ms normalized =
      on_services (place name m normalized) >>= approve m normalized deadline_ms

  abbrev pub admit_active :
      Text → Fields → Option ℕ → CapabilityManifest → Exec (Kernel C V) Admitted
  admit_active name arguments deadline_ms m =
      lift (catalog.validate_arguments name arguments m) >>= admit_valid name m deadline_ms

  -- All that comes before the lock.
  unfoldable pub admit : Text → Fields → Option ℕ → Exec (Kernel C V) Admitted
  unfolding place budget
  admit name arguments deadline_ms =
      lift (active_manifest (catalog.is_active name) (catalog.manifest_of name))
      >>= admit_active name arguments deadline_ms
