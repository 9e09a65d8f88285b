-- ===== src/Kernel/Admitted.antt =====
-- kernel.py: what a call that passed the checks before its lock has shown.
use mikrus_mcp.Results.{ok-inj}
use mikrus_mcp.Approvals.Record.{Request}
use mikrus_mcp.Manifests.Record.{CapabilityManifest}
use mikrus_mcp.Policy.Scopes.{lock_key, resource, CallerContext}
use mikrus_mcp.Json.{Fields, JsonLib}
use mikrus_mcp.Prelude.{
  ◌∙◌, inr, inl, Bool-cases, sym, refl, ap, not, Option, Bool, ℕ, ◌≡◌, Text, none, some, true,
  false,
}
use mikrus_mcp.Errors.{authorization, app_error, Result, ok, err}
use mikrus_mcp.Exec.{pure, ◌>>=◌, continue, raise_when, continue-eq-ok, Exec, lift}
use mikrus_mcp.Approvals.Registry.{reload, has_matching, consume_matching}
use mikrus_mcp.Approvals.Capacity.{IsValid, has_matching-IsValid}
use mikrus_mcp.Approvals
use mikrus_mcp.Kernel.State.{
  Services, set_approvals, set_approvals, Kernel, Settings, World, Catalog, on_services,
  set_services,
}
use mikrus_mcp.Kernel.Admission.{
  or_none_text, active_manifest, budget, active_manifest, admit_active, admit_valid, approve,
  schedule, request_of, or_none_text, Route, Admitted, admit, place, check_approval,
}

module _ {C V : Type 0} (json : JsonLib C) (uid : ℕ) (catalog : Catalog V) (settings : Settings)
    (world : World C V) (caller : CallerContext) where
  -- The approvals behind the look for one, if the capability needs one.
  abbrev pub looked_through :
      Bool → Request → Approvals.Registry.Registry C → Approvals.Registry.Registry C
  looked_through true q s = (has_matching json uid world.check_now q world.check_seen s).1
  looked_through false q s = s

  -- What admission tells of the call, and of the approvals that it leaves.
  pub record IsAdmitted (name : Text) (arguments : Fields) (a : Admitted) (k k1 : Kernel C V)
      : Type 0 where
    pub known : catalog.manifest_of name ≡ some a.manifest
    pub fields : Fields
    pub validated : catalog.validate_arguments name arguments a.manifest ≡ ok fields
    pub digest : a.request.arguments_digest ≡ catalog.arguments_digest fields
    pub active : catalog.is_active name ≡ true
    pub capability : a.request.capability ≡ a.manifest.name
    pub principal : a.request.principal ≡ caller.principal
    pub target : a.request.target ≡ or_none_text a.route.identity
    pub resource : a.request.resource ≡ resource catalog.str_of a.manifest fields
    pub looked : k1.approvals ≡ looked_through a.manifest.requires_approval a.request k.approvals
    pub valid : IsValid k.approvals → IsValid k1.approvals

  active_manifest-eq-ok :
      (b : Bool) (o : Option CapabilityManifest) (m : CapabilityManifest)
      → active_manifest b o ≡ ok m
      → (b ≡ true) × (o ≡ some m)
  active_manifest-eq-ok true none m h = cc
  active_manifest-eq-ok true (some m') m h = (refl, cc)
  active_manifest-eq-ok false o m h = cc

  -- Only the approvals' own registry changes them.
  place-approvals :
      {A : Type 0} (m : Exec (Services C V) A) (k k' : Kernel C V) (a : A)
      → on_services m k ≡ (ok a, k')
      → k'.approvals ≡ k.approvals
  place-approvals {A} m k k' a e = of (m k.services) e
    where
      of :
          (p : Result A × Services C V) → set_services k p ≡ (ok a, k') → k'.approvals ≡ k.approvals
      of (r, s) h = ap (λ (q : Result A × Kernel C V). q.1.approvals) (sym h)

  check_approval-approvals :
      (m : CapabilityManifest) (q : Request) (k : Kernel C V)
      → (check_approval json uid catalog settings world caller m q k).1.approvals
        ≡ looked_through m.requires_approval q k.approvals
  check_approval-approvals m q k = elim (Bool-cases m.requires_approval) [
    | inl needed ↦
        simp needed (of (has_matching json uid world.check_now q world.check_seen k.approvals))
    | inr free ↦ simp free refl
  ]
    where
      of :
          (p : Result Bool × Approvals.Registry.Registry C)
          → (continue
              (set_approvals k p)
              (λ found. raise_when (not found) (app_error authorization))).1.approvals
            ≡ p.1
      of (ok true, s) = refl
      of (ok false, s) = refl
      of (err x, s) = refl

  looked_lem :
      (m : CapabilityManifest) (q : Request) (a : Admitted) (k k2 k3 k1 : Kernel C V)
      → a.manifest ≡ m
      → a.request ≡ q
      → k1 ≡ k3
      → (check_approval json uid catalog settings world caller m q k2).1.approvals ≡ k3.approvals
      → k2.approvals ≡ k.approvals
      → k1.approvals ≡ looked_through a.manifest.requires_approval a.request k.approvals
  looked_lem m q a k k2 k3 k1 is_m is_q is_k left start =
      ap (λ (x : Kernel C V). x.approvals) is_k
      ∙ sym left
      ∙ check_approval-approvals m q k2
      ∙ ap (looked_through m.requires_approval q) start
      ∙ ap (λ (x : Request). looked_through m.requires_approval x k.approvals) (sym is_q)
      ∙ ap (λ (x : CapabilityManifest). looked_through x.requires_approval a.request k.approvals)
          (sym is_m)

  looked_through-IsValid :
      (b : Bool) (q : Request) (s : Approvals.Registry.Registry C)
      → IsValid s
      → IsValid (looked_through b q s)
  looked_through-IsValid true q s h =
      has_matching-IsValid json uid world.check_seen world.check_now q s h
  looked_through-IsValid false q s h = h

  schedule-fields :
      (m : CapabilityManifest) (fs : Fields) (deadline_ms : Option ℕ) (route : Route) (q : Request)
      (k k1 : Kernel C V) (a : Admitted)
      → schedule json uid catalog settings world caller m fs deadline_ms route q k ≡ (ok a, k1)
      → (a.manifest ≡ m) × (a.route ≡ route) × (a.request ≡ q) × (k1 ≡ k)
  schedule-fields m fs deadline_ms route q k k1 a e =
      of (lock_key catalog.str_of m route.target fs)
        (budget json uid catalog settings world caller m deadline_ms) e
    where
      of :
          (key : Result (Option Text)) (ms : Result ℕ)
          → continue (lift {S = Kernel C V} key k) (λ (key : Option Text). lift ms >>= λ timeout_ms.
              pure (record {
                manifest = m;
                route = route;
                request = q;
                key = key;
                timeout_ms = timeout_ms;
              }))
            ≡ (ok a, k1)
          → (a.manifest ≡ m) × (a.route ≡ route) × (a.request ≡ q) × (k1 ≡ k)
      of (ok key) (ok ms) h =
          let same = ok-inj (ap (λ (p : Result Admitted × Kernel C V). p.0) h) in
          (
            ap (λ (x : Admitted). x.manifest) (sym same),
            ap (λ (x : Admitted). x.route) (sym same),
            ap (λ (x : Admitted). x.request) (sym same),
            ap (λ (p : Result Admitted × Kernel C V). p.1) (sym h),
          )
      of (ok key) (err x) h =
          let bad : ◌≡◌ {A = Result Admitted × Kernel C V} (err x, k) (ok a, k1) = h in cc
      of (err x) ms h =
          let bad : ◌≡◌ {A = Result Admitted × Kernel C V} (err x, k) (ok a, k1) = h in cc

  pub admit-IsAdmitted :
      (name : Text) (arguments : Fields) (deadline_ms : Option ℕ) (k k1 : Kernel C V) (a : Admitted)
      → admit json uid catalog settings world caller name arguments deadline_ms k ≡ (ok a, k1)
      → IsAdmitted name arguments a k k1
  unfolding admit
  admit-IsAdmitted name arguments deadline_ms k k1 a e =
      let (m, s1, e1, r1) =
        continue-eq-ok
          (lift {S = Kernel C V}
            (active_manifest (catalog.is_active name) (catalog.manifest_of name)))
          (admit_active json uid catalog settings world caller name arguments deadline_ms) k e in
      let (fs, s2, e2, r2) =
        continue-eq-ok (lift {S = Kernel C V} (catalog.validate_arguments name arguments m))
          (admit_valid json uid catalog settings world caller name m deadline_ms) s1 r1 in
      let (route, s3, e3, r3) =
        continue-eq-ok (on_services (place json uid catalog settings world caller name m fs))
          (approve json uid catalog settings world caller m fs deadline_ms) s2 r2 in
      let q =
        request_of json uid catalog settings world caller m route (resource catalog.str_of m fs)
          fs in
      let (u, s4, e4, r4) =
        continue-eq-ok (check_approval json uid catalog settings world caller m q)
          (λ _. schedule json uid catalog settings world caller m fs deadline_ms route q) s3 r3 in
      let (is_m, is_route, is_q, is_k) = schedule-fields m fs deadline_ms route q s4 k1 a r4 in
      let (active, known) =
        active_manifest-eq-ok (catalog.is_active name) (catalog.manifest_of name) m
          (ap (λ (p : Result CapabilityManifest × Kernel C V). p.0) e1) in
      let kept : s2.approvals ≡ k.approvals =
        ap (λ (p : Result Fields × Kernel C V). p.1.approvals) (sym e2)
        ∙ ap (λ (p : Result CapabilityManifest × Kernel C V). p.1.approvals) (sym e1) in
      let placed =
        place-approvals (place json uid catalog settings world caller name m fs) s2 s3 route e3 in
      let left = ap (λ (p : Result (Unit {0}) × Kernel C V). p.1.approvals) e4 in
      let looked : k1.approvals
          ≡ looked_through a.manifest.requires_approval a.request k.approvals =
        looked_lem m q a k s3 s4 k1 is_m is_q is_k left (placed ∙ kept) in
      record {
        known = known ∙ ap some (sym is_m);
        fields = fs;
        validated =
            ap (catalog.validate_arguments name arguments) is_m
            ∙ ap (λ (p : Result Fields × Kernel C V). p.0) e2;
        digest = ap (λ (x : Request). x.arguments_digest) is_q;
        active = active;
        capability =
            ap (λ (x : Request). x.capability) is_q
            ∙ ap (λ (x : CapabilityManifest). x.name) (sym is_m);
        principal = ap (λ (x : Request). x.principal) is_q;
        target =
            ap (λ (x : Request). x.target) is_q
            ∙ ap (λ (x : Route). or_none_text x.identity) (sym is_route);
        resource =
            ap (λ (x : Request). x.resource) is_q
            ∙ ap (λ (x : CapabilityManifest). resource catalog.str_of x fs) (sym is_m);
        looked = looked;
        valid = λ v.
            rw looked (looked_through-IsValid a.manifest.requires_approval a.request k.approvals v);
      }
