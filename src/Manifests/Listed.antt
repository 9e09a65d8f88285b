-- ===== src/Manifests/Listed.antt =====
-- What holds of every capability of the table, and of every one that is active.
use mikrus_mcp.Validators.Curl.{in_set}
use mikrus_mcp.Kernel.State.{ssh_only, mikrus_only, mutation_budget_ms}
use mikrus_mcp.Manifests.Checked.{check_manifest-IsConsistent, IsConsistent}
use mikrus_mcp.Manifests.Activation.{
  docker_plan_names, cron_names, write_operations_disabled, remote_job_names,
  mikrus_target_required, ssh_target_required, has_mikrus, store_not_configured, when, or_else,
  needs_store, has_ssh, is_active, inactive_reason, Reason, Deployment,
}
use std.Path.{subst, ap₂}
use mikrus_mcp.Dict.{lookup, Dict}
use mikrus_mcp.Manifests.Record.{is_read, check_manifest, CapabilityManifest}
use mikrus_mcp.Manifests.Table.{optional, mutation_manifest, read_manifest, manifests}
use mikrus_mcp.Errors.{err, ok, Result}
use mikrus_mcp.Prelude.{
  some-inj, is_some, ◌≤◌, inr, arith, text_eq_iff, inl, Option-cases, sym, refl, Option, Bool-cases,
  not, leb, ◌||◌, false, lit, ◌&&◌, true, text_eq, all, Bool, Text, none, some, [], ◌∷◌, ◌≡◌,
}

abbrev passes : Result (Unit {0}) → Bool
passes (ok u) = true
passes (err x) = false

-- The test of one entry of the table.
unfoldable is_sound : Text × CapabilityManifest → Bool
is_sound e =
    passes (check_manifest e.1)
    && (text_eq e.0 e.1.name
        && (is_read e.1.side_effects
            || (e.1.requires_approval && (leb 65_000 e.1.timeout_ms && not e.1.concurrent_safe))))

table_sound : (version : Text) → all is_sound (manifests version) ≡ true
unfolding is_sound manifests read_manifest mutation_manifest check_manifest text_eq lit optional
table_sound version = refl

lookup-all :
    (p : Text × CapabilityManifest → Bool) (d : Dict CapabilityManifest) (k : Text)
    (m : CapabilityManifest)
    → all p d ≡ true
    → lookup k d ≡ some m
    → p (k, m) ≡ true
lookup-all p [] k m h e = cc
lookup-all p ((j, w) ∷ d) k m h e = elim (Bool-cases (text_eq j k)) [
  | inl same ↦
      let found : some w ≡ some m = rw same at e in
      let here : p (j, w) ≡ true = ground (arith, h) in
      subst (λ (x : Text × CapabilityManifest). p x ≡ true)
        (ap₂ (λ x y. (x, y)) ((text_eq_iff j k).0 same) (some-inj found)) here
  | inr other ↦
      let later : lookup k d ≡ some m = rw other at e in
      lookup-all p d k m (ground (arith, h)) later
]

passes-ok : (r : Result (Unit {0})) → passes r ≡ true → r ≡ ok tt
passes-ok (ok tt) h = refl
passes-ok (err x) h = cc

-- A capability of the table stands under its own name with a consistent manifest, and a mutation
-- needs an approval and a lock, and may take the time that its classification needs.
pub record IsListed (name : Text) (m : CapabilityManifest) : Type 0 where
  pub named : m.name ≡ name
  pub consistent : IsConsistent m
  pub approved : is_read m.side_effects ≡ false → m.requires_approval ≡ true
  pub locked : is_read m.side_effects ≡ false → m.concurrent_safe ≡ false
  pub timed : is_read m.side_effects ≡ false → mutation_budget_ms ≤ m.timeout_ms

is_sound-IsListed :
    (name : Text) (m : CapabilityManifest) → is_sound (name, m) ≡ true → IsListed name m
unfolding is_sound
is_sound-IsListed name m h = record {
  named = sym ((text_eq_iff name m.name).0 ground (arith, h));
  consistent = check_manifest-IsConsistent m (passes-ok (check_manifest m) ground (arith, h));
  approved = λ w. ground (arith, h, w);
  locked = λ w. ground (arith, h, w);
  timed = λ w. ground (arith, h, w);
}

-- Every capability that the table lists stands under its own name with a consistent manifest, and
-- if it is a mutation, it requires an approval, is not safe to run concurrently, and has at least
-- the time that the classification of its outcome needs.
pub manifests-IsListed :
    (version name : Text) (m : CapabilityManifest)
    → lookup name (manifests version) ≡ some m
    → IsListed name m
manifests-IsListed version name m e =
    is_sound-IsListed name m
      (lookup-all is_sound (manifests version) name m (table_sound version) e)

or_else-none : (a b : Option Reason) → or_else a b ≡ none → (a ≡ none) × (b ≡ none)
or_else-none none b h = (refl, h)
or_else-none (some r) b h = cc

when-none : (b : Bool) (r : Reason) → when b r ≡ none → b ≡ false
when-none true r h = cc
when-none false r h = refl

abbrev HasStore : Bool → Bool → Deployment → Type 0
HasStore needed store d = needed ≡ true → (store ≡ true) × (has_ssh d ≡ true)

needs_store-none :
    (needed store : Bool) (d : Deployment)
    → needs_store needed store d ≡ none
    → HasStore needed store d
needs_store-none false store d h n = cc
needs_store-none true store d h n =
    let (a, b) =
      or_else-none (when (not store) store_not_configured)
        (when (not (has_ssh d)) ssh_target_required) h in
    let stored = when-none (not store) store_not_configured a in
    let reached = when-none (not (has_ssh d)) ssh_target_required b in
    (ground (arith, stored), ground (arith, reached))

-- What an active capability finds in the settings.
pub record IsSupported (d : Deployment) (name : Text) (m : CapabilityManifest) : Type 0 where
  pub mikrus : in_set name mikrus_only ≡ true → has_mikrus d ≡ true
  pub ssh : in_set name ssh_only ≡ true → has_ssh d ≡ true
  pub remote_jobs : HasStore (in_set name remote_job_names) d.remote_job_store d
  pub cron : HasStore (in_set name cron_names) d.cron_profile_store d
  pub docker : HasStore (in_set name docker_plan_names) d.docker_plan_store d
  pub writes : is_read m.side_effects ≡ false → d.write_enabled ≡ true

inactive_reason-none :
    (d : Deployment) (name : Text) (m : CapabilityManifest)
    → inactive_reason d name m ≡ none
    → IsSupported d name m
unfolding inactive_reason
inactive_reason-none d name m h =
    let (a, r1) = or_else-none _ _ h in
    let (b, r2) = or_else-none _ _ r1 in
    let (c, r3) = or_else-none _ _ r2 in
    let (e, r4) = or_else-none _ _ r3 in
    let (f, g) = or_else-none _ _ r4 in
    let a1 = when-none (in_set name mikrus_only && not (has_mikrus d)) mikrus_target_required a in
    let b1 = when-none (in_set name ssh_only && not (has_ssh d)) ssh_target_required b in
    let g1 =
      when-none (not (is_read m.side_effects) && not d.write_enabled) write_operations_disabled g in
    record {
      mikrus = λ n. ground (arith, a1, n);
      ssh = λ n. ground (arith, b1, n);
      remote_jobs = needs_store-none (in_set name remote_job_names) d.remote_job_store d c;
      cron = needs_store-none (in_set name cron_names) d.cron_profile_store d e;
      docker = needs_store-none (in_set name docker_plan_names) d.docker_plan_store d f;
      writes = λ n. ground (arith, g1, n);
    }

-- An active capability is listed, the targets and the store that it needs are configured, and if it
-- is a mutation, writes are enabled.
pub is_active-IsSupported :
    (d : Deployment) (version name : Text)
    → is_active d version name ≡ true
    → (m : CapabilityManifest) × (lookup name (manifests version) ≡ some m) × IsSupported d name m
unfolding is_active
is_active-IsSupported d version name h = elim (Option-cases (lookup name (manifests version))) [
  | inl unknown ↦ let bad : false ≡ true = rw unknown at h in cc
  | inr (m, known) ↦
      let active : not (is_some (inactive_reason d name m)) ≡ true = rw known at h in
      elim (Option-cases (inactive_reason d name m)) [
        | inl none_found ↦ (m, known, inactive_reason-none d name m none_found)
        | inr (r, found) ↦ let bad : false ≡ true = rw found at active in cc
      ]
]
