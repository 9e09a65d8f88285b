-- ===== src/Kernel/Tests.antt =====
-- The theorems about an invocation at a concrete mutation with an approval.
use mikrus_mcp.Dict.{lookup}
use mikrus_mcp.Manifests.Listed.{manifests-IsListed}
use mikrus_mcp.Kernel.Listed.{mutation-Approved}
use mikrus_mcp.Manifests.Table.{optional, manifests, read_manifest, mutation_manifest}
use mikrus_mcp.Policy.Retry.{retry_loop, maximum_attempts, execute_with_policy_retry}
use mikrus_mcp.Validators.Curl.{in_set}
use mikrus_mcp.Kernel.Approved.{invoke-Approved, Approved}
use mikrus_mcp.Kernel.Outcome.{mutation-Told, Told}
use mikrus_mcp.Approvals
use mikrus_mcp.Approvals.File.{missing}
use mikrus_mcp.Errors.{timeout_error, ok, err}
use mikrus_mcp.Sample.{plain}
use mikrus_mcp.Kernel.Admission.{budget, route_of, prepare, place, admit}
use mikrus_mcp.Manifests.Checked.{IsConsistent}
use mikrus_mcp.Json.{end, Json}
use mikrus_mcp.Approvals.Record.{
  without_expired, earliest, candidates, matches, validate_arguments_digest, ApprovalRecord,
}
use mikrus_mcp.Approvals.Capacity.{IsValid}
use mikrus_mcp.Targets.Registry.{resolved_identity, Client}
use mikrus_mcp.Manifests.Record.{CapabilityManifest}
use mikrus_mcp.Kernel.State.{Catalog, World, Settings, Kernel}
use mikrus_mcp.Kernel.Invoke.{respond, ready, execute_once_locked, run, invoke}
use mikrus_mcp.Approvals.Registry.{
  persist, consume_matching, reload, after_reload, has_matching, consume, Observed,
}
use mikrus_mcp.Prelude.{
  false, some, refl, none, ℕ, lits, arith, [], ◌∷◌, true, text_eq, lit, Text, ◌≡◌,
}
use mikrus_mcp.Policy.Scopes.{
  resource_scope, identity_valid, has_scope, lock_key, resource, authorize_resolved_target,
  authorize_mutation, authorize_data_classification, authorize_selector, whole_target,
  CallerContext, mikrus, Target,
}

-- The manifest of restart_server in the table.
abbrev restart : CapabilityManifest
unfolding mutation_manifest
restart = mutation_manifest [] "restart_server" true "outage" 120_000 true none

abbrev restart_name : Text
unfolding lit
restart_name = lit "restart_server"

restart_listed : lookup restart_name (manifests []) ≡ some restart
unfolding manifests mutation_manifest read_manifest optional text_eq lit restart restart_name
restart_listed = refl

restart-IsConsistent : IsConsistent restart
restart-IsConsistent = (manifests-IsListed [] restart_name restart restart_listed).consistent

abbrev a_name : Text
a_name = b'a' ∷ []

abbrev a_target : Target
a_target = record { target_type = mikrus; stable_identity = a_name; verify_host_key = true }

abbrev a_client : Client
a_client = record { stable_identity = a_name; is_connected = true }

abbrev digest : Text
unfolding lit
digest = lit "0123456789abcdef0123456789abcdef0123456789abcdef0123456789abcdef"

abbrev token : Text
unfolding lit
token = lit "aaaaaaaaaaaaaaaaaaaaaaaaaaaaaaaa"

abbrev caller : CallerContext
unfolding lit
caller = record {
  principal = lit "agent";
  scopes = lits ("tool:*" ∷ "target:a" ∷ "target-id:*" ∷ "data:internal" ∷ "write:server" ∷ []);
}

abbrev approval : ApprovalRecord
unfolding lit
approval = record {
  capability = lit "restart_server";
  principal = lit "agent";
  target = a_name;
  resource = whole_target;
  arguments_digest = digest;
  expires_at = 900;
}

abbrev approvals : Approvals.Registry.Registry Json
approvals = record {
  records = (token, approval) ∷ [];
  max_records = 2;
  source = none;
  installed = [];
}

abbrev before_call : Kernel Json ℕ
before_call = record {
  approvals = approvals;
  services = record {
    program_jobs = record { jobs = []; stopped = [] };
    remote_jobs = none;
    targets = record { targets = (a_name, a_target) ∷ []; clients = []; failures = [] };
  };
}

abbrev seen : Observed Json
seen = record {
  at_reload = missing;
  at_open = missing;
  at_verify = missing;
  at_persist = missing;
  written = true;
  at_swap = missing;
  at_adopt = missing;
  synced = true;
}

abbrev world : World Json ℕ
world = record {
  jobs_now = 1;
  remote_clock = record { now = 1; now_text = []; timestamp_of = λ t. none };
  opening = record { close_old = ok tt; built = ok a_client; failure = none; close_new = ok tt };
  check_now = 100;
  check_seen = seen;
  meanwhile = λ k. k;
  late = false;
  waited_ms = 10;
  consume_now = 101;
  consume_seen = seen;
  expires_at = 1_000;
  attempts = λ i. record { outcome = err timeout_error; jitter = 0; now = i };
  result_bytes = 100;
}

abbrev catalog : Catalog ℕ
unfolding lit
catalog = record {
  manifest_of = λ name. lookup name (manifests []);
  is_active = λ name. true;
  validate_arguments = λ name arguments m. ok arguments;
  arguments_digest = λ fs. digest;
  sha256_hex = λ t. t;
  str_of = λ j. [];
  sanitize = λ v. v;
}

abbrev settings : Settings
settings = record {
  default_target = a_name;
  write_enabled = true;
  default_deadline_ms = 70_000;
  server_max_deadline_ms = 80_000;
  max_result_bytes = 1_000;
}

approvals-IsValid : IsValid approvals
unfolding text_eq lit
approvals-IsValid = record { keys = (refl, tt); bounded = omega arith }

called_once :
    (invoke plain 1000 catalog settings world caller restart_name end none before_call).1.calls ≡ 1
unfolding invoke run admit place prepare route_of budget execute_once_locked ready respond lit
    text_eq in_set authorize_selector authorize_data_classification authorize_mutation
    authorize_resolved_target mikrus_mcp.Targets.Registry.config mikrus_mcp.Targets.Registry.get
    has_matching after_reload validate_arguments_digest reload matches resource lock_key
    resolved_identity consume_matching candidates earliest without_expired persist
    execute_with_policy_retry maximum_attempts retry_loop has_scope identity_valid resource_scope
    catalog restart restart_name caller approval digest token whole_target manifests
    mutation_manifest read_manifest optional
called_once = refl

abbrev end_kernel : Kernel Json ℕ
end_kernel =
    (invoke plain 1000 catalog settings world caller restart_name end none before_call).1.kernel

invoke-Approved_example :
    Approved plain 1000 catalog settings world caller restart_name end none restart before_call
      end_kernel
unfolding catalog restart mutation_manifest
invoke-Approved_example =
    invoke-Approved plain 1000 catalog settings world caller restart_name end none before_call
      restart restart_listed refl approvals-IsValid (λ k v. v)
      (λ none_made. grind (arith, called_once))

mutation-Told_example :
    ((invoke plain 1000 catalog settings world caller restart_name end none before_call).1.calls
      ≡ 1)
    × Told plain 1000 catalog settings world caller restart
        (err timeout_error)
        (invoke plain 1000 catalog settings world caller restart_name end none before_call).0
unfolding catalog restart mutation_manifest
mutation-Told_example =
    mutation-Told plain 1000 catalog settings world caller restart_name end none before_call restart
      restart_listed restart-IsConsistent refl (λ none_made. grind (arith, called_once))

mutation-Approved_example :
    ((invoke plain 1000 catalog settings world caller restart_name end none before_call).1.calls
      ≡ 1)
    × (restart.name ≡ restart_name)
    × Told plain 1000 catalog settings world caller restart
        (err timeout_error)
        (invoke plain 1000 catalog settings world caller restart_name end none before_call).0
    × Approved plain 1000 catalog settings world caller restart_name end none restart before_call
        end_kernel
unfolding catalog restart mutation_manifest
mutation-Approved_example =
    mutation-Approved plain 1000 catalog settings world caller [] restart_name end none before_call
      restart (λ n. refl) restart_listed refl approvals-IsValid (λ k v. v)
      (λ none_made. grind (arith, called_once))
