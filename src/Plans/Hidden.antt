-- ===== src/Plans/Hidden.antt =====
-- What a client sees of a plan besides its receipt does not depend on the values of environment variables, but for
-- which of them are equal.
use mikrus_mcp.Plans.Output.{env_keys, plan_output}
use std.Path.{ap₂}
use mikrus_mcp.Plans.Diff.{
  semantic_diff, Live, Desired, sorted, keys, is_changed, keys_changed, keys_added,
}
use mikrus_mcp.Dict.{lookup, contains, Dict}
use mikrus_mcp.Prelude.{
  List, filter, Bool, text_eq-false, text_eq_iff, inr, inl, ◌∙◌, text_eq, refl, is_some, ap,
  Bool-cases, not, Option, Text, none, some, [], ◌∷◌, ◌≡◌,
}

module _ (f : Text → Text) (apart : (a b : Text) → f a ≡ f b → a ≡ b) where
  -- Every value is replaced.
  abbrev pub rename : Dict Text → Dict Text
  rename [] = []
  rename ((k, v) ∷ d) = (k, f v) ∷ rename d

  abbrev renamed : Option Text → Option Text
  renamed none = none
  renamed (some v) = some (f v)

  lookup-rename : (k : Text) (d : Dict Text) → lookup k (rename d) ≡ renamed (lookup k d)
  lookup-rename k [] = refl
  lookup-rename k ((j, v) ∷ d) = elim (Bool-cases (text_eq j k)) [
    | inl same ↦ rw same refl
    | inr other ↦ rw other (lookup-rename k d)
  ]

  keys-rename : (d : Dict Text) → keys (rename d) ≡ keys d
  keys-rename [] = refl
  keys-rename ((k, v) ∷ d) = ap (λ ks. k ∷ ks) (keys-rename d)

  contains-rename : (k : Text) (d : Dict Text) → contains k (rename d) ≡ contains k d
  contains-rename k d = ap is_some (lookup-rename k d) ∙ of (lookup k d)
    where
      of : (o : Option Text) → is_some (renamed o) ≡ is_some o
      of none = refl
      of (some v) = refl

  is_changed-renamed : (a b : Option Text) → is_changed (renamed a) (renamed b) ≡ is_changed a b
  is_changed-renamed none b = refl
  is_changed-renamed (some v) none = refl
  is_changed-renamed (some v) (some w) = elim (Bool-cases (text_eq v w)) [
    | inl same ↦
        let e = (text_eq_iff v w).0 same in rw (same, (text_eq_iff (f v) (f w)).1 (ap f e)) refl
    | inr other ↦
        rw
          (
            other,
            text_eq-false (f v) (f w) (λ e. let bad = (text_eq_iff v w).1 (apart v w e) in cc),
          )
          refl
  ]

  keys_added-rename :
      (live desired : Dict Text)
      → keys_added (rename live) (rename desired) ≡ keys_added live desired
  unfolding keys_added
  keys_added-rename live desired =
      let same : (λ (k : Text). not (contains k (rename live))) ≡ (λ k. not (contains k live)) =
        λ i k. not (contains-rename k live i) in
      ap₂ (λ p ks. sorted (filter p ks)) same (keys-rename desired)

  keys_changed-rename :
      (live desired : Dict Text)
      → keys_changed (rename live) (rename desired) ≡ keys_changed live desired
  unfolding keys_changed
  keys_changed-rename live desired =
      let at_key : (k : Text)
          → is_changed (lookup k (rename live)) (lookup k (rename desired))
            ≡ is_changed (lookup k live) (lookup k desired) =
        λ k.
          rw (lookup-rename k live, lookup-rename k desired)
            (is_changed-renamed (lookup k live) (lookup k desired)) in
      let same : (λ (k : Text). is_changed (lookup k (rename live)) (lookup k (rename desired)))
          ≡ (λ k. is_changed (lookup k live) (lookup k desired)) =
        λ i k. at_key k i in
      ap₂ (λ p ks. sorted (filter p ks)) same (keys-rename live)

  module _ {M H : Type 0} (mounts_eq : M → M → Bool) (health_eq : H → H → Bool) where
    abbrev pub rename_live : Live M H → Live M H
    rename_live live = record live { env_values = rename live.env_values }

    abbrev pub rename_desired : Desired M H → Desired M H
    rename_desired desired = record desired { env = rename desired.env }

    semantic_diff-rename :
        (project : Text) (live : Live M H) (desired : Desired M H)
        → semantic_diff mounts_eq health_eq project (rename_live live) (rename_desired desired)
          ≡ semantic_diff mounts_eq health_eq project live desired
    unfolding semantic_diff
    semantic_diff-rename project live desired =
        rw
          (
            keys_added-rename live.env_values desired.env,
            keys_changed-rename live.env_values desired.env,
          )
          refl

    -- But for its receipt, which is a digest over the values too, a plan that a client is shown is
    -- the same when every value of the two environments is replaced by another one, equal values by
    -- equal ones and different values by different ones.
    pub plan_output-rename :
        (receipt new_receipt service project : Text) (compose_files : List Text)
        (image_digest : Option Text) (allow : Bool) (live : Live M H) (desired : Desired M H)
        → plan_output new_receipt service project compose_files
            (rename_desired desired)
            image_digest
            (semantic_diff mounts_eq health_eq project (rename_live live) (rename_desired desired))
            allow
          ≡ record (plan_output receipt service project compose_files desired image_digest
              (semantic_diff mounts_eq health_eq project live desired)
              allow) { plan_receipt = new_receipt }
    unfolding plan_output env_keys
    plan_output-rename receipt new_receipt service project compose_files image_digest allow live
          desired =
        rw (semantic_diff-rename project live desired, keys-rename desired.env) refl
