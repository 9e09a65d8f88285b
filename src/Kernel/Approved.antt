-- ===== src/Kernel/Approved.antt =====
-- No adapter is called for a capability that requires an approval, unless one was consumed.
use mikrus_mcp.Kernel.Admitted.{looked_through}
use mikrus_mcp.Targets.Registry.{resolved_identity}
use mikrus_mcp.Kernel.Consumed.{
  ready-IsShown, ready-Consumed, behind_lock-IsValid, IsShown, locked-eq-behind_lock, behind_lock,
}
use mikrus_mcp.Manifests.Record.{is_read, CapabilityManifest}
use mikrus_mcp.Policy.Scopes.{resource, CallerContext}
use mikrus_mcp.Json.{Fields, JsonLib}
use std.Path.{subst}
use mikrus_mcp.Prelude.{
  some-inj, ◌≢◌, min, ◌∙◌, ltb, inr, inl, Bool-cases, sym, refl, ap, Option, ℕ, ◌≡◌, Text, some,
  true,
}
use mikrus_mcp.Errors.{Result, ok, err}
use mikrus_mcp.Exec.{continue}
use mikrus_mcp.Approvals.Registry.{reload, has_matching}
use mikrus_mcp.Approvals.OneTime.{Takes}
use mikrus_mcp.Approvals.Capacity.{IsValid}
use mikrus_mcp.Kernel.Began.{Start, ending, run-Happened}
use mikrus_mcp.Kernel.State.{Response, Kernel, Progress, Settings, World, Catalog}
use mikrus_mcp.Kernel.Admission.{admit, Admitted}
use mikrus_mcp.Kernel.Invoke.{invoke, begin, run, ready, answer}

module _ {C V : Type 0} (json : JsonLib C) (uid : ℕ) (catalog : Catalog V) (settings : Settings)
    (world : World C V) (caller : CallerContext) where
  answer-kernel :
      (a : Admitted) (v : V) (p : Progress C V)
      → (answer json uid catalog settings world caller a v p).1 ≡ p
  answer-kernel a v p =
      elim (Bool-cases
        (ltb (min settings.max_result_bytes a.manifest.max_response_bytes) world.result_bytes)) [
          | inl large ↦ rw large refl
          | inr small ↦ rw small refl
        ]

  begin-kernel :
      (m : CapabilityManifest) (p : Progress C V)
      → (begin json uid catalog settings world caller m p).1.kernel ≡ p.kernel
  begin-kernel m p = elim (Bool-cases (is_read m.side_effects)) [
    | inl reading ↦ simp reading refl
    | inr writing ↦ simp writing refl
  ]

  then_answer-kernel :
      (a : Admitted) (r : Result V × Progress C V)
      → (continue r (answer json uid catalog settings world caller a)).1.kernel ≡ r.1.kernel
  then_answer-kernel a (ok v, p) = ap (λ (x : Progress C V). x.kernel) (answer-kernel a v p)
  then_answer-kernel a (err x, p) = refl

  ending-kernel :
      (name : Text) (arguments : Fields) (k : Kernel C V) (a : Admitted) (k3 : Kernel C V)
      → (ending json uid catalog settings world caller name arguments k a k3).1.kernel ≡ k3
  ending-kernel name arguments k a k3 =
      then_answer-kernel a (
        begin json uid catalog settings world caller a.manifest
          (Start json uid catalog settings world caller name arguments k k3))
      ∙ begin-kernel a.manifest (Start json uid catalog settings world caller name arguments k k3)

  -- What stands behind an adapter call for a capability that requires an approval: how the call
  -- was admitted, what the approval was asked for, and what was taken from the approvals that the
  -- reload behind the lock found.
  pub record Approved (name : Text) (arguments : Fields) (deadline_ms : Option ℕ)
      (m : CapabilityManifest) (k final : Kernel C V) : Type 0 where
    pub call : Admitted
    pub waiting : Kernel C V
    pub fields : Fields
    pub active : catalog.is_active name ≡ true
    pub validated : catalog.validate_arguments name arguments m ≡ ok fields
    pub admitted :
        admit json uid catalog settings world caller name arguments deadline_ms k
        ≡ (ok call, waiting)
    pub looked :
        waiting.approvals
        ≡ (has_matching json uid world.check_now call.request world.check_seen k.approvals).1
    pub capability : call.request.capability ≡ m.name
    pub principal : call.request.principal ≡ caller.principal
    pub digest : call.request.arguments_digest ≡ catalog.arguments_digest fields
    pub what : call.request.resource ≡ resource catalog.str_of m fields
    pub target :
        IsShown json uid catalog settings world caller m.target_required
          (resolved_identity
            (behind_lock json uid catalog settings world caller call.key waiting).services.targets
            call.route.target)
          call.request.target
    pub token : Text
    pub takes :
        Takes json uid world.consume_now call.request world.consume_seen token
          (reload json uid world.consume_seen
            (behind_lock json uid catalog settings world caller call.key
              waiting).approvals).1.records
          final.approvals.records

  -- When an invocation has called an adapter for a capability that requires an approval, the
  -- capability is active, the arguments were valid, and the approval that was asked for is bound to
  -- the caller, the capability, the digest of these arguments, the resource that they name, and, if
  -- the capability needs a target, to the identity that its client shows behind the lock. One live
  -- approval bound to all of these was taken from those that the reload behind the lock found, and
  -- nothing else that was live: the start is the kernel that the look for an approval left and that
  -- others then acted on. The registry was well formed, and others keep it so.
  pub invoke-Approved :
      (name : Text) (arguments : Fields) (deadline_ms : Option ℕ) (k : Kernel C V)
      (m : CapabilityManifest)
      → catalog.manifest_of name ≡ some m
      → m.requires_approval ≡ true
      → IsValid k.approvals
      → ((k : Kernel C V) → IsValid k.approvals → IsValid (world.meanwhile k).approvals)
      → (invoke json uid catalog settings world caller name arguments deadline_ms k).1.calls ≢ 0
      → Approved name arguments deadline_ms m k
          (invoke json uid catalog settings world caller name arguments deadline_ms k).1.kernel
  unfolding invoke run
  invoke-Approved name arguments deadline_ms k m known needed v others called =
      let (a, k1, k2, k3, b, ended) =
        run-Happened json uid catalog settings world caller name arguments k deadline_ms called in
      let adm = b.admitted in
      let is_m : a.manifest ≡ m = some-inj (sym adm.known ∙ known) in
      let asks : a.manifest.requires_approval ≡ true =
        ap (λ (x : CapabilityManifest). x.requires_approval) is_m ∙ needed in
      let k3_end =
        ap (λ (x : Result (Response V) × Progress C V). x.1.kernel) ended
        ∙ ending-kernel name arguments k a k3 in
      let is_k2 : k2 ≡ behind_lock json uid catalog settings world caller a.key k1 =
        locked-eq-behind_lock json uid catalog settings world caller a.key k1 k2 b.locked in
      let readied : ready json uid catalog settings world caller a
            (behind_lock json uid catalog settings world caller a.key k1)
          ≡ (ok tt, k3) =
        subst (λ (x : Kernel C V). ready json uid catalog settings world caller a x ≡ (ok tt, k3))
          is_k2 b.readied in
      let kept =
        behind_lock-IsValid json uid catalog settings world caller a.key k1 others (adm.valid v) in
      let (token, takes) =
        ready-Consumed json uid catalog settings world caller a
          (behind_lock json uid catalog settings world caller a.key k1) k3 asks kept.keys readied in
      record {
        call = a;
        waiting = k1;
        fields = adm.fields;
        active = adm.active;
        validated = ap (catalog.validate_arguments name arguments) (sym is_m) ∙ adm.validated;
        admitted = b.entered;
        looked =
            adm.looked
            ∙ ap
                (λ x. looked_through json uid catalog settings world caller x a.request k.approvals)
                asks;
        capability = adm.capability ∙ ap (λ (x : CapabilityManifest). x.name) is_m;
        principal = adm.principal;
        digest = adm.digest;
        what =
            adm.resource
            ∙ ap (λ (x : CapabilityManifest). resource catalog.str_of x adm.fields) is_m;
        target =
            subst
              (λ (x : CapabilityManifest).
                IsShown json uid catalog settings world caller x.target_required
                  (resolved_identity
                    (behind_lock json uid catalog settings world caller a.key k1).services.targets
                    a.route.target)
                  a.request.target)
              is_m
              (ready-IsShown json uid catalog settings world caller a
                (behind_lock json uid catalog settings world caller a.key k1) k3 a.request.target
                readied adm.target);
        token = token;
        takes =
            subst
              (λ (x : Kernel C V).
                Takes json uid world.consume_now a.request world.consume_seen token
                  (reload json uid world.consume_seen
                    (behind_lock json uid catalog settings world caller a.key
                      k1).approvals).1.records
                  x.approvals.records)
              (sym k3_end) takes;
      }
