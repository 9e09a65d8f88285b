-- ===== src/Plans/Diff.antt =====
-- docker_ops.py: `semantic_diff` and `states_equal`. Mounts and health checks are
-- only compared, so their types and tests of equality are parameters.
use mikrus_mcp.Dict.{contains, lookup, Dict}
use mikrus_mcp.Prelude.{
  ◌==◌, ◌&&◌, lit, ◌++◌, text_le, text_eq, is_some, any, ℕ, true, not, map, if◌then◌else◌, filter,
  false, Text, Option, List, Bool, none, some, [], ◌∷◌,
}

pub record Desired (M H : Type 0) : Type 0 where
  pub image_ref : Option Text
  pub image_id : Option Text
  pub command : List Text
  pub entrypoint : List Text
  pub env : Dict Text
  pub mounts : M
  pub networks : List Text
  pub ports : List Text
  pub labels : Dict Text
  pub restart : Text × ℕ
  pub healthcheck : Option H
  pub depends_on : List Text

-- The parts of `live_state` that are compared. `restart` has a name and the maximum of retries, if
-- one is given.
pub record Live (M H : Type 0) : Type 0 where
  pub image_id : Text
  pub command : List Text
  pub entrypoint : List Text
  pub env_values : Dict Text
  pub mounts : M
  pub networks : List Text
  pub ports : List Text
  pub all_labels : Dict Text
  pub restart : Option (Text × Option ℕ)
  pub healthcheck : Option H

-- What differs, field by field: the live value and the desired one. Of the environment only keys
-- are told.
pub record Differences (M H : Type 0) : Type 0 where
  pub image : Option (Text × Option Text)
  pub command : Option (List Text × List Text)
  pub entrypoint : Option (List Text × List Text)
  pub env : Option (List Text × List Text)
  pub mounts : Option (M × M)
  pub networks : Option (List Text × List Text)
  pub ports : Option (List Text × List Text)
  pub labels : List (Text × Option Text × Text)
  pub restart : Option ((Text × ℕ) × (Text × ℕ))
  pub healthcheck : Option (Option H × H)

-- `sorted(...)`
abbrev pub place : Text → List Text → List Text
place t [] = t ∷ []
place t (u ∷ us) = if text_le t u then t ∷ u ∷ us else u ∷ place t us

unfoldable pub sorted : List Text → List Text
sorted [] = []
sorted (t ∷ ts) = place t (sorted ts)

-- `set(...)`
abbrev pub without_repeats : List Text → List Text
without_repeats [] = []
without_repeats (t ∷ ts) =
    let rest = without_repeats ts in if any (text_eq t) ts then rest else t ∷ rest

abbrev pub keys : Dict Text → List Text
keys d = map (λ e. e.0) d

unfoldable pub texts_eq : List Text → List Text → Bool
texts_eq [] [] = true
texts_eq (t ∷ ts) (u ∷ us) = text_eq t u && texts_eq ts us
texts_eq [] (u ∷ us) = false
texts_eq (t ∷ ts) [] = false

abbrev pub is_nil : {A : Type 0} → List A → Bool
is_nil [] = true
is_nil (x ∷ xs) = false

-- `if a != b: ... {"live": a, "desired": b}`
abbrev pub unequal : {A : Type 0} → (A → A → Bool) → A → A → Option (A × A)
unequal same a b = if same a b then none else some (a, b)

abbrev pub is_text : Option Text → Text → Bool
is_text none t = false
is_text (some u) t = text_eq u t

abbrev pub image_diff : Option Text → Text → Option Text → Option (Text × Option Text)
image_diff none live desired = none
image_diff (some ref) live desired = if is_text desired live then none else some (live, desired)

-- Whether a key of both has two values.
abbrev pub is_changed : Option Text → Option Text → Bool
is_changed (some a) (some b) = not (text_eq a b)
is_changed _ _ = false

unfoldable pub keys_added : Dict Text → Dict Text → List Text
unfolding sorted
keys_added live desired = sorted (filter (λ k. not (contains k live)) (keys desired))

unfoldable pub keys_changed : Dict Text → Dict Text → List Text
unfolding sorted
keys_changed live desired =
    sorted (filter (λ k. is_changed (lookup k live) (lookup k desired)) (keys live))

abbrev pub unless_empty : List Text → List Text → Option (List Text × List Text)
unless_empty [] [] = none
unless_empty (t ∷ ts) us = some (t ∷ ts, us)
unless_empty [] (u ∷ us) = some ([], u ∷ us)

abbrev pub mismatch : Text → Option Text → Option Text → List (Text × Option Text × Text)
mismatch k live none = []
mismatch k live (some v) = if is_text live v then [] else (k, live, v) ∷ []

unfoldable pub mismatched : Dict Text → Dict Text → List Text → List (Text × Option Text × Text)
mismatched live desired [] = []
mismatched live desired (k ∷ ks) =
    mismatch k (lookup k live) (lookup k desired) ++ mismatched live desired ks

abbrev pub restart_of : Option (Text × Option ℕ) → Text × ℕ
restart_of none = ([], 0)
restart_of (some (name, none)) = (name, 0)
restart_of (some (name, some n)) = (name, n)

abbrev pub restart_eq : Text × ℕ → Text × ℕ → Bool
restart_eq (a, n) (b, m) = text_eq a b && n == m

unfoldable pub normalize_desired_networks : Text → List Text → List Text
unfolding sorted
normalize_desired_networks project networks = sorted (
    without_repeats (
      map (λ name. if text_eq name (lit "default") then project ++ lit "_default" else name)
        networks))

-- `differences == {}`
unfoldable pub is_empty : {M H : Type 0} → Differences M H → Bool
is_empty d =
    not (is_some d.image)
    && (not (is_some d.command)
        && (not (is_some d.entrypoint)
            && (not (is_some d.env)
                && (not (is_some d.mounts)
                    && (not (is_some d.networks)
                        && (not (is_some d.ports)
                            && (is_nil d.labels
                                && (not (is_some d.restart) && not (is_some d.healthcheck)))))))))

module _ {M H : Type 0} (mounts_eq : M → M → Bool) (health_eq : H → H → Bool) where
  abbrev pub health_diff : Option H → Option H → Option (Option H × H)
  health_diff live none = none
  health_diff none (some d) = some (none, d)
  health_diff (some h) (some d) = if health_eq h d then none else some (some h, d)

  unfoldable pub semantic_diff : Text → Live M H → Desired M H → Differences M H
  unfolding texts_eq keys_added keys_changed mismatched normalize_desired_networks sorted
  semantic_diff project live desired =
      let networks = normalize_desired_networks project desired.networks in
      record {
        image = image_diff desired.image_ref live.image_id desired.image_id;
        command = unequal texts_eq live.command desired.command;
        entrypoint = unequal texts_eq live.entrypoint desired.entrypoint;
        env =
            unless_empty (keys_added live.env_values desired.env)
              (keys_changed live.env_values desired.env);
        mounts = unequal mounts_eq live.mounts desired.mounts;
        networks = unequal texts_eq live.networks networks;
        ports = unequal texts_eq live.ports desired.ports;
        labels = mismatched live.all_labels desired.labels (sorted (keys desired.labels));
        restart = unequal restart_eq (restart_of live.restart) desired.restart;
        healthcheck = health_diff live.healthcheck desired.healthcheck;
      }

  unfoldable pub states_equal : Text → Live M H → Desired M H → Bool
  unfolding semantic_diff is_empty
  states_equal project live desired = is_empty (semantic_diff project live desired)
