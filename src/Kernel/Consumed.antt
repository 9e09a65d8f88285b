-- ===== src/Kernel/Consumed.antt =====
-- kernel.py: what a call behind its lock has shown before it calls an adapter.
use mikrus_mcp.Targets.Registry.{resolved_identity}
use mikrus_mcp.Policy.Scopes.{CallerContext}
use mikrus_mcp.Json.{JsonLib}
use mikrus_mcp.Prelude.{
  arith, text_eq_iff, ◌&&◌, ◌∙◌, sym, refl, ap, not, Option, Bool, ℕ, ◌≡◌, Text, none, some, true,
  false,
}
use mikrus_mcp.Errors.{timeout, timeout_error, Error, authorization, app_error, Result, ok, err}
use mikrus_mcp.Exec.{◌>>◌, continue, raise_when, Exec}
use mikrus_mcp.Dict.{IsDict}
use mikrus_mcp.Approvals.Registry.{reload, has_matching, consume_matching}
use mikrus_mcp.Approvals.OneTime.{Takes, consume_matching-Takes}
use mikrus_mcp.Approvals.Capacity.{IsValid}
use mikrus_mcp.Approvals
use mikrus_mcp.Kernel.State.{set_approvals, set_approvals, Kernel, Settings, World, Catalog}
use mikrus_mcp.Kernel.Admission.{or_none_text, Admitted}
use mikrus_mcp.Kernel.Invoke.{
  check_budget, same_identity, is_too_late, is_rebound, take_approval, run, ready, take_if,
  wait_for_lock,
}

module _ {C V : Type 0} (json : JsonLib C) (uid : ℕ) (catalog : Catalog V) (settings : Settings)
    (world : World C V) (caller : CallerContext) where
  -- What a consumption did to the approvals of the kernel.
  abbrev pub Consumed : Admitted → Kernel C V → Kernel C V → Type 0
  Consumed a k k' =
      (t : Text) × Takes json uid world.consume_now a.request world.consume_seen t
        (reload json uid world.consume_seen k.approvals).1.records k'.approvals.records

  take_if-Consumed :
      (a : Admitted) (k k' : Kernel C V)
      → IsDict k.approvals.records
      → take_if json uid catalog settings world caller true a.request k ≡ (ok tt, k')
      → Consumed a k k'
  take_if-Consumed a k k' d e =
      of (consume_matching json uid world.consume_now a.request world.consume_seen k.approvals) refl
        e
    where
      of :
          (p : Result Bool × Approvals.Registry.Registry C)
          → consume_matching json uid world.consume_now a.request world.consume_seen k.approvals ≡ p
          → continue (set_approvals k p) (λ taken. raise_when (not taken) (app_error authorization))
            ≡ (ok tt, k')
          → Consumed a k k'
      of (ok true, s) run h =
          let left : s.records ≡ k'.approvals.records =
            ap (λ (q : Result (Unit {0}) × Kernel C V). q.1.approvals.records) h in
          rw left at (
            consume_matching-Takes json uid world.consume_now a.request world.consume_seen
              k.approvals s d run)
      of (ok false, s) run h =
          let bad : ◌≡◌ {A = Result (Unit {0}) × Kernel C V}
              (err (app_error authorization), record k { approvals = s }) (ok tt, k') =
            h in
          cc
      of (err x, s) run h =
          let bad : ◌≡◌ {A = Result (Unit {0}) × Kernel C V} (err x, record k { approvals = s })
              (ok tt, k') =
            h in
          cc

  -- Two checks that passed leave the state to what follows them.
  after_checks :
      (b c : Bool) (x y : Error) (rest : Exec (Kernel C V) (Unit {0})) (k k' : Kernel C V)
      → (raise_when b x >> (raise_when c y >> rest)) k ≡ (ok tt, k')
      → rest k ≡ (ok tt, k')
  after_checks true c x y rest k k' h =
      let bad : ◌≡◌ {A = Result (Unit {0}) × Kernel C V} (err x, k) (ok tt, k') = h in cc
  after_checks false true x y rest k k' h =
      let bad : ◌≡◌ {A = Result (Unit {0}) × Kernel C V} (err y, k) (ok tt, k') = h in cc
  after_checks false false x y rest k k' h = h

  -- What a ready call that requires an approval has consumed.
  pub ready-Consumed :
      (a : Admitted) (k k' : Kernel C V)
      → a.manifest.requires_approval ≡ true
      → IsDict k.approvals.records
      → ready json uid catalog settings world caller a k ≡ (ok tt, k')
      → Consumed a k k'
  unfolding ready
  ready-Consumed a k k' needed d e = take_if-Consumed a k k' d (
      ap (λ b. take_if json uid catalog settings world caller b a.request k) (sym needed)
      ∙ after_checks (is_rebound json uid catalog settings world caller a k)
          (is_too_late json uid catalog settings world caller a) (app_error authorization)
          (app_error timeout) (take_approval json uid catalog settings world caller a) k k' e)

  -- The identity that the client of a target shows, where the capability needs one, and the target
  -- that an approval was asked for.
  abbrev pub IsShown : Bool → Option Text → Text → Type 0
  IsShown true now target =
      (identity : Text) × (now ≡ some identity) × (target ≡ or_none_text (some identity))
  IsShown false now target = Unit {0}

  bound-IsShown :
      (needed : Bool) (now expected : Option Text) (target : Text)
      → (needed && not (same_identity json uid catalog settings world caller now expected)) ≡ false
      → target ≡ or_none_text expected
      → IsShown needed now target
  bound-IsShown false now expected target h e = tt
  bound-IsShown true none expected target h e = cc
  bound-IsShown true (some x) none target h e = cc
  bound-IsShown true (some x) (some y) target h e =
      let same : x ≡ y = (text_eq_iff x y).0 (ground arith) in
      (x, refl, e ∙ ap (λ t. or_none_text (some t)) (sym same))

  first_passed :
      (b : Bool) (x : Error) (rest : Exec (Kernel C V) (Unit {0})) (k k' : Kernel C V)
      → (raise_when b x >> rest) k ≡ (ok tt, k')
      → b ≡ false
  first_passed true x rest k k' h =
      let bad : ◌≡◌ {A = Result (Unit {0}) × Kernel C V} (err x, k) (ok tt, k') = h in cc
  first_passed false x rest k k' h = refl

  -- A ready call that needs a target has a client that shows the identity that was asked for.
  pub ready-IsShown :
      (a : Admitted) (k k' : Kernel C V) (target : Text)
      → ready json uid catalog settings world caller a k ≡ (ok tt, k')
      → target ≡ or_none_text a.route.identity
      → IsShown a.manifest.target_required
          (resolved_identity k.services.targets a.route.target)
          target
  unfolding ready
  ready-IsShown a k k' target e t =
      bound-IsShown a.manifest.target_required (resolved_identity k.services.targets a.route.target)
        a.route.identity target
        (first_passed (is_rebound json uid catalog settings world caller a k)
          (app_error authorization)
          (λ k.
            (check_budget json uid catalog settings world caller a
                >> take_approval json uid catalog settings world caller a)
              k)
          k k' e)
        t

  -- The kernel that a call finds behind its lock: others have acted on it, if it had to wait.
  abbrev pub behind_lock : Option Text → Kernel C V → Kernel C V
  behind_lock none k = k
  behind_lock (some key) k = world.meanwhile k

  pub locked-eq-behind_lock :
      (key : Option Text) (k k' : Kernel C V)
      → wait_for_lock json uid catalog settings world caller key k ≡ (ok tt, k')
      → k' ≡ behind_lock key k
  locked-eq-behind_lock none k k' e = ap (λ (p : Result (Unit {0}) × Kernel C V). p.1) (sym e)
  locked-eq-behind_lock (some key) k k' e =
      of world.late (ap (λ (p : Result (Unit {0}) × Kernel C V). p.1) (sym e))
    where
      of :
          (late : Bool)
          → k' ≡ (raise_when late timeout_error (world.meanwhile k)).1
          → k' ≡ world.meanwhile k
      of true h = h
      of false h = h

  pub behind_lock-IsValid :
      (key : Option Text) (k : Kernel C V)
      → ((k : Kernel C V) → IsValid k.approvals → IsValid (world.meanwhile k).approvals)
      → IsValid k.approvals
      → IsValid (behind_lock key k).approvals
  behind_lock-IsValid none k others v = v
  behind_lock-IsValid (some key) k others v = others k v
