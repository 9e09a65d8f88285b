-- ===== src/Plans/Applied.antt =====
-- When `states_equal` holds, the container runs as the compose file says.
use mikrus_mcp.Plans.Entries.{
  labels-Contains, env-Contains, texts_eq-same, unless_empty-none, Contains,
}
use std.Path.{ap₂}
use mikrus_mcp.Plans.Diff.{
  restart_of, normalize_desired_networks, is_empty, semantic_diff, restart_eq, image_diff,
  health_diff, Desired, unequal, states_equal, is_nil, Live, keys_changed, texts_eq, keys_added,
}
use mikrus_mcp.Prelude.{
  arith, ap, ℕ, text_eq_iff, Option, false, true, refl, is_some, Bool, Text, List, none, some, [],
  ◌∷◌, ◌≡◌,
}

unequal-none :
    {A : Type 0} (same : A → A → Bool) (a b : A)
    → is_some (unequal same a b) ≡ false
    → same a b ≡ true
unequal-none same a b h = ground arith

nil-empty : {A : Type 0} (xs : List A) → is_nil xs ≡ true → xs ≡ []
nil-empty [] h = refl
nil-empty (x ∷ xs) h = cc

module _ {M H : Type 0} (mounts_eq : M → M → Bool) (health_eq : H → H → Bool) where
  -- A health check that is asked for is the live one.
  abbrev pub HealthAgrees : Option H → Option H → Type 0
  HealthAgrees live none = Unit
  HealthAgrees none (some d) = ⊥
  HealthAgrees (some h) (some d) = health_eq h d ≡ true

  abbrev pub ImageAgrees : Option Text → Text → Option Text → Type 0
  ImageAgrees none live desired = Unit
  ImageAgrees (some ref) live desired = desired ≡ some live

  -- What the compose file asks of a container, as it runs.
  pub record IsApplied (project : Text) (live : Live M H) (desired : Desired M H) : Type 0 where
    pub image : ImageAgrees desired.image_ref live.image_id desired.image_id
    pub command : live.command ≡ desired.command
    pub entrypoint : live.entrypoint ≡ desired.entrypoint
    pub env : Contains live.env_values desired.env
    pub mounts : mounts_eq live.mounts desired.mounts ≡ true
    pub networks : live.networks ≡ normalize_desired_networks project desired.networks
    pub ports : live.ports ≡ desired.ports
    pub labels : Contains live.all_labels desired.labels
    pub restart : restart_of live.restart ≡ desired.restart
    pub healthcheck : HealthAgrees live.healthcheck desired.healthcheck

  health_diff-none :
      (live desired : Option H)
      → is_some (health_diff mounts_eq health_eq live desired) ≡ false
      → HealthAgrees live desired
  health_diff-none live none h = tt
  health_diff-none none (some d) h = cc
  health_diff-none (some x) (some d) h = ground arith

  image_diff-none :
      (ref : Option Text) (live : Text) (desired : Option Text)
      → is_some (image_diff ref live desired) ≡ false
      → ImageAgrees ref live desired
  image_diff-none none live desired h = tt
  image_diff-none (some ref) live none h = cc
  image_diff-none (some ref) live (some d) h = ap some ((text_eq_iff d live).0 ground arith)

  restart_eq-same : (a b : Text × ℕ) → restart_eq a b ≡ true → a ≡ b
  restart_eq-same (a, n) (b, m) h =
      ap₂ (λ x y. (x, y)) ((text_eq_iff a b).0 ground arith) (ground arith)

  -- When states_equal decides that nothing is to be done, the container runs the image that is
  -- asked for, with that command, entrypoint, mounts, networks, ports, restart policy and health
  -- check, and with every variable and every label that the compose file sets at its value.
  pub states_equal-IsApplied :
      (project : Text) (live : Live M H) (desired : Desired M H)
      → states_equal mounts_eq health_eq project live desired ≡ true
      → IsApplied project live desired
  unfolding states_equal semantic_diff is_empty
  states_equal-IsApplied project live desired h =
      let (added, changed) =
        unless_empty-none (keys_added live.env_values desired.env)
          (keys_changed live.env_values desired.env) (ground (arith, h)) in
      record {
        image =
            image_diff-none desired.image_ref live.image_id desired.image_id (ground (arith, h));
        command =
            texts_eq-same _ _
              (unequal-none texts_eq live.command desired.command (ground (arith, h)));
        entrypoint =
            texts_eq-same _ _
              (unequal-none texts_eq live.entrypoint desired.entrypoint (ground (arith, h)));
        env = env-Contains live.env_values desired.env added changed;
        mounts = unequal-none mounts_eq live.mounts desired.mounts (ground (arith, h));
        networks = texts_eq-same _ _ (
            unequal-none texts_eq live.networks
              (normalize_desired_networks project desired.networks) (ground (arith, h)));
        ports =
            texts_eq-same _ _ (unequal-none texts_eq live.ports desired.ports (ground (arith, h)));
        labels = labels-Contains live.all_labels desired.labels (nil-empty _ (ground (arith, h)));
        restart =
            restart_eq-same _ _ (
              unequal-none restart_eq (restart_of live.restart) desired.restart
                (ground (arith, h)));
        healthcheck = health_diff-none live.healthcheck desired.healthcheck (ground (arith, h));
      }
