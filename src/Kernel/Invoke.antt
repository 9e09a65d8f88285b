-- ===== src/Kernel/Invoke.antt =====
-- kernel.py: `InvocationKernel.invoke`, from the lock to the answer.
use mikrus_mcp.Errors.{
  os_error, upstream, runtime_error, value_error, timeout_error, validation_error, assertion_error,
  internal, timeout, ambiguous, app, policy_error, validation, type_error, key_error, authorization,
  ok, err, app_error, Result,
}
use mikrus_mcp.Manifests.Record.{is_read, CapabilityManifest}
use mikrus_mcp.Prelude.{
  ◌-◌, ◌+◌, text_eq, ltb, true, false, min, false, ◌&&◌, leb, not, if◌then◌else◌, ℕ, Option, Bool,
  Text, none, some,
}
use mikrus_mcp.Exec.{Exec, pure, modify, raise_when, ◌>>=◌, ◌>>◌}
use mikrus_mcp.Policy.Scopes.{Target, CallerContext}
use mikrus_mcp.Policy.Retry.{execute_with_policy_retry}
use mathlib.Core.Option
use mikrus_mcp.Approvals.Record.{Request}
use mikrus_mcp.Approvals.Registry.{consume_matching}
use mikrus_mcp.Targets.Registry.{resolved_identity}
use mikrus_mcp.Json.{Fields, JsonLib}
use mikrus_mcp.Kernel.Admission.{Admitted, admit}
use mikrus_mcp.Kernel.State.{
  on_kernel, Progress, mutation_budget_ms, on_approvals, Kernel, Settings, World, Catalog, Response,
  success, failure,
}

-- The end of an invocation as its handlers see it: `started` is `mutation_execution_started`.
unfoldable pub respond : {V : Type 0} → Bool → Result (Response V) → Response V
respond started (ok answer) = answer
respond started (err validation_error) = failure validation false none
respond started (err (policy_error c)) = failure validation false none
respond started (err (app e)) = failure e.code e.retryable e.retry_after_seconds
respond true (err timeout_error) = failure ambiguous false none
respond false (err timeout_error) = failure timeout false none
respond started (err value_error) = failure internal false none
respond started (err runtime_error) = failure internal false none
respond started (err type_error) = failure internal false none
respond started (err key_error) = failure internal false none
respond started (err os_error) = failure internal false none
respond started (err assertion_error) = failure internal false none

module _ {C V : Type 0} (json : JsonLib C) (uid : ℕ) (catalog : Catalog V) (settings : Settings)
    (world : World C V) (caller : CallerContext) where
  -- What others do while the call waits for its lock, if it needs one.
  abbrev pub wait_for_lock : Option Text → Exec (Kernel C V) (Unit {0})
  wait_for_lock none = pure tt
  wait_for_lock (some key) = do modify world.meanwhile; raise_when world.late timeout_error

  abbrev pub same_identity : Option Text → Option Text → Bool
  same_identity none expected = false
  same_identity (some identity) none = false
  same_identity (some identity) (some expected) = text_eq identity expected

  abbrev pub is_rebound : Admitted → Kernel C V → Bool
  is_rebound a k =
      a.manifest.target_required
      && not (same_identity (resolved_identity k.services.targets a.route.target) a.route.identity)

  abbrev pub check_binding : Admitted → Exec (Kernel C V) (Unit {0})
  check_binding a k = raise_when (is_rebound a k) (app_error authorization) k

  -- A mutation that would need the whole budget does not start with less.
  abbrev pub is_too_late : Admitted → Bool
  is_too_late a =
      not (is_read a.manifest.side_effects)
      && (leb mutation_budget_ms a.manifest.timeout_ms
          && ltb (a.timeout_ms - world.waited_ms) mutation_budget_ms)

  abbrev pub check_budget : Admitted → Exec (Kernel C V) (Unit {0})
  check_budget a = raise_when (is_too_late a) (app_error timeout)

  abbrev pub take_if : Bool → Request → Exec (Kernel C V) (Unit {0})
  take_if true q = do
    taken ← on_approvals (consume_matching json uid world.consume_now q world.consume_seen)
    raise_when (not taken) (app_error authorization)
  take_if false q = pure tt

  abbrev pub take_approval : Admitted → Exec (Kernel C V) (Unit {0})
  take_approval a = take_if a.manifest.requires_approval a.request

  -- The checks and the consumption that come before the first call.
  unfoldable pub ready : Admitted → Exec (Kernel C V) (Unit {0})
  ready a = do check_binding a; check_budget a; take_approval a

  abbrev pub note_start : CapabilityManifest → Exec (Progress C V) (Unit {0})
  note_start m = modify (λ (p : Progress C V).
      if is_read m.side_effects then p else record p { mutation_started = true })

  -- The calls of the retry loop.
  abbrev pub call_adapter : CapabilityManifest → Exec (Progress C V) V
  call_adapter m p =
      let run = execute_with_policy_retry m (some world.expires_at) world.attempts in
      (run.result, record p { calls = p.calls + run.calls })

  abbrev pub begin : CapabilityManifest → Exec (Progress C V) V
  begin m = note_start m >> call_adapter m

  -- `execute_once_locked`
  unfoldable pub execute_once_locked : Admitted → Exec (Progress C V) V
  unfolding ready
  execute_once_locked a = on_kernel (ready a) >> begin a.manifest

  abbrev pub or_identity : Option Text → Option Text → Option Text
  or_identity none old = old
  or_identity (some new) old = some new

  -- The answer, when it is small enough.
  abbrev pub answer : Admitted → V → Exec (Progress C V) (Response V)
  answer a value p =
      (do
        raise_when
            (ltb (min settings.max_result_bytes a.manifest.max_response_bytes) world.result_bytes)
            (app_error upstream)
        pure (
            success (catalog.sanitize value) (record {
              target = if a.manifest.target_required then some a.route.target else none;
              identity =
                  if a.manifest.target_required
                  then or_identity (resolved_identity p.kernel.services.targets a.route.target)
                      a.route.identity
                  else none;
              backend = Option.map (λ (t : Target). t.target_type) a.route.target_config;
            })))
        p

  abbrev pub perform : Admitted → Exec (Progress C V) (Response V)
  perform a = execute_once_locked a >>= answer a

  abbrev pub lock_and_perform : Admitted → Exec (Progress C V) (Response V)
  lock_and_perform a = on_kernel (wait_for_lock a.key) >> perform a

  unfoldable pub run : Text → Fields → Option ℕ → Exec (Progress C V) (Response V)
  unfolding admit execute_once_locked
  run name arguments deadline_ms =
      on_kernel (admit json uid catalog settings world caller name arguments deadline_ms)
      >>= lock_and_perform

  abbrev pub handled : Result (Response V) × Progress C V → Response V × Progress C V
  handled (r, p) = (respond p.mutation_started r, p)

  -- `invoke`: every exception but a cancellation becomes an answer.
  unfoldable pub invoke : Text → Fields → Option ℕ → Kernel C V → Response V × Progress C V
  unfolding run respond
  invoke name arguments deadline_ms k =
      handled (
        run name arguments deadline_ms (record { kernel = k; calls = 0; mutation_started = false }))
