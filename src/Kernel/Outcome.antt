-- ===== src/Kernel/Outcome.antt =====
-- kernel.py: how an invocation that has called the adapter of a mutation ends.
use std.Path.{subst}
use mikrus_mcp.Policy.Attempts.{mutation-called_once}
use mikrus_mcp.Policy.Retry.{Run}
use mikrus_mcp.Kernel.Began.{Start, run-Happened}
use mikrus_mcp.Exec.{continue}
use mikrus_mcp.Manifests.Checked.{IsConsistent}
use mikrus_mcp.Kernel.Admission.{Admitted}
use mikrus_mcp.Manifests.Record.{is_read, CapabilityManifest}
use mikrus_mcp.Kernel.Invoke.{handled, begin, answer, respond, invoke}
use mikrus_mcp.Policy.Scopes.{CallerContext}
use mikrus_mcp.Kernel.State.{
  failure, Kernel, success, Binding, Progress, Response, World, Settings, Catalog,
}
use mikrus_mcp.Prelude.{
  ◌<◌, refl, ◌≤◌, arith, refl, inr, ◌∙◌, inl, sym, min, some-inj, ltb, none, ap, Bool-cases, ◌≢◌,
  ◌+◌, some, ◌⊎◌, false, true, Option, ◌≡◌, Text, ℕ,
}
use mikrus_mcp.Json.{Fields, JsonLib}
use mikrus_mcp.Errors.{
  validation_error, assertion_error, validation_error, os_error, key_error, type_error,
  runtime_error, value_error, timeout_error, policy_error, assertion_error, app, ambiguous, err,
  upstream, ok, Result,
}

module _ {C V : Type 0} (json : JsonLib C) (uid : ℕ) (catalog : Catalog V) (settings : Settings)
    (world : World C V) (caller : CallerContext) where
  -- What the client gets for what the only call of the adapter brought.
  abbrev pub Told : CapabilityManifest → Result V → Response V → Type 0
  Told m (ok v) r =
      ((world.result_bytes ≤ settings.max_result_bytes)
        × (world.result_bytes ≤ m.max_response_bytes)
        × ((b : Binding) × (r ≡ success (catalog.sanitize v) b)))
      ⊎ ((min settings.max_result_bytes m.max_response_bytes < world.result_bytes)
          × (r ≡ failure upstream false none))
  Told m (err timeout_error) r = r ≡ failure ambiguous false none
  Told m (err (app e)) r = r ≡ failure e.code e.retryable e.retry_after_seconds
  Told m (err x) r = r ≡ respond true (err x)

  ended-Told :
      (a : Admitted) (r : Result V) (p : Progress C V)
      → p.mutation_started ≡ true
      → let end = continue (r, p) (answer json uid catalog settings world caller a) in
        (end.1 ≡ p) × Told a.manifest r (handled json uid catalog settings world caller end).0
  unfolding respond
  ended-Told a (ok v) p started =
      elim (Bool-cases
        (ltb (min settings.max_result_bytes a.manifest.max_response_bytes) world.result_bytes)) [
          | inl large ↦ rw large (refl, inr (ground arith, refl))
          | inr small ↦ rw small (refl, inl (ground arith, ground arith, (_, refl)))
        ]
  ended-Told a (err timeout_error) p started = (refl, simp started refl)
  ended-Told a (err (app e)) p started = (refl, refl)
  ended-Told a (err (policy_error c)) p started = (refl, refl)
  ended-Told a (err value_error) p started = (refl, refl)
  ended-Told a (err runtime_error) p started = (refl, refl)
  ended-Told a (err type_error) p started = (refl, refl)
  ended-Told a (err key_error) p started = (refl, refl)
  ended-Told a (err os_error) p started = (refl, refl)
  ended-Told a (err validation_error) p started = (refl, refl)
  ended-Told a (err assertion_error) p started = (refl, refl)

  begin-mutation :
      (m : CapabilityManifest) (p : Progress C V)
      → IsConsistent m
      → is_read m.side_effects ≡ false
      → begin json uid catalog settings world caller m p
        ≡ ((world.attempts 0).outcome, record p { calls = p.calls + 1; mutation_started = true })
  begin-mutation m p c w = simp w (
      ap
        (λ (r : Run V). (r.result, record p { calls = p.calls + r.calls; mutation_started = true }))
        (mutation-called_once m (some world.expires_at) world.attempts c w))

  -- An invocation of a mutation with a consistent manifest either calls no adapter, or calls it
  -- exactly once and tells the client what that call brought: its value, when the answer is within
  -- the limits of the settings and of the capability, an upstream failure, when it is larger, its
  -- own error, or, when the time ran out behind the start, that the outcome is unknown.
  pub mutation-Told :
      (name : Text) (arguments : Fields) (deadline_ms : Option ℕ) (k : Kernel C V)
      (m : CapabilityManifest)
      → catalog.manifest_of name ≡ some m
      → IsConsistent m
      → is_read m.side_effects ≡ false
      → (invoke json uid catalog settings world caller name arguments deadline_ms k).1.calls ≢ 0
      → ((invoke json uid catalog settings world caller name arguments deadline_ms k).1.calls ≡ 1)
        × Told m
            (world.attempts 0).outcome
            (invoke json uid catalog settings world caller name arguments deadline_ms k).0
  unfolding invoke
  mutation-Told name arguments deadline_ms k m known c w called =
      let (a, k1, k2, k3, b, ended) =
        run-Happened json uid catalog settings world caller name arguments k deadline_ms called in
      let is_m : a.manifest ≡ m = some-inj (sym b.admitted.known ∙ known) in
      let began =
        ap
          (λ m.
            begin json uid catalog settings world caller m
              (Start json uid catalog settings world caller name arguments k k3))
          is_m
        ∙ begin-mutation m (Start json uid catalog settings world caller name arguments k k3) c w in
      let end =
        ended
        ∙ ap
            (λ (p : Result V × Progress C V).
              continue p (answer json uid catalog settings world caller a))
            began in
      let told =
        ended-Told a (world.attempts 0).outcome
          (record (Start json uid catalog settings world caller name arguments k k3) {
            calls = 1;
            mutation_started = true;
          })
          refl in
      let told_m =
        subst
          (λ (x : CapabilityManifest).
            Told x (world.attempts 0).outcome
              (handled json uid catalog settings world caller (
                continue
                  (
                    (world.attempts 0).outcome,
                    record (Start json uid catalog settings world caller name arguments k k3) {
                      calls = 1;
                      mutation_started = true;
                    },
                  )
                  (answer json uid catalog settings world caller a))).0)
          is_m told.1 in
      rw end (ap (λ (p : Progress C V). p.calls) told.0, told_m)
