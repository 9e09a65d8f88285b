-- ===== src/Plans/Output.antt =====
-- docker_ops.py: `plan_output`.
use mikrus_mcp.Dict.{Dict}
use mikrus_mcp.Plans.Diff.{keys, Differences, Desired, sorted, is_empty}
use mikrus_mcp.Prelude.{not, Bool, take, Option, List, ℕ, Text}

-- What a client sees of a plan.
pub record PlanOutput (M H : Type 0) : Type 0 where
  pub plan_receipt : Text
  pub service : Text
  pub project : Text
  pub compose_files : List Text
  pub image_ref : Option Text
  pub image_digest : Option Text
  pub desired_env_keys : List Text
  pub desired_ports : List Text
  pub desired_networks : List Text
  pub depends_on : List Text
  pub runtime_only_drift : Differences M H
  pub has_runtime_only_drift : Bool
  pub allow_runtime_drift : Bool

abbrev pub max_env_keys : ℕ
max_env_keys = 128

unfoldable pub env_keys : Dict Text → List Text
unfolding sorted
env_keys env = take max_env_keys (sorted (keys env))

-- `modeled_fields`, which is always the same, is left out.
unfoldable pub plan_output :
    {M H : Type 0}
    → Text
    → Text
    → Text
    → List Text
    → Desired M H
    → Option Text
    → Differences M H
    → Bool
    → PlanOutput M H
unfolding env_keys is_empty
plan_output receipt service project compose_files desired image_digest differences allow = record {
  plan_receipt = receipt;
  service = service;
  project = project;
  compose_files = compose_files;
  image_ref = desired.image_ref;
  image_digest = image_digest;
  desired_env_keys = env_keys desired.env;
  desired_ports = desired.ports;
  desired_networks = desired.networks;
  depends_on = desired.depends_on;
  runtime_only_drift = differences;
  has_runtime_only_drift = not (is_empty differences);
  allow_runtime_drift = allow;
}
