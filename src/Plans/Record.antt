-- ===== src/Plans/Record.antt =====
-- docker_ops.py: `PlanRecord` and its JSON form.
use mikrus_mcp.RemoteJobs.Codec.{opt_str}
use mikrus_mcp.Errors.{value_error, ok, err, Result}
use mikrus_mcp.Prelude.{
  refl, ap, text_eq, lit, Bool, ℕ, List, Text, Option, none, some, [], ◌∷◌, ◌≡◌,
}
use mikrus_mcp.Json.{
  end, truthy, bool, field, Items, IsLossless, Fields, JsonLib, null, str, obj, arr, nil, cons,
  Json, get,
}
use mikrus_mcp.Results.{◌>>=◌, or_raise}
use mikrus_mcp.Profiles.Record.{str_items}

-- `created_at` is in clock ticks.
pub record PlanRecord : Type 0 where
  pub receipt_digest : Text
  pub service : Text
  pub project : Text
  pub compose_files : List Text
  pub desired_image : Option Text
  pub desired_image_explicit : Bool
  pub allow_runtime_drift : Bool
  pub has_runtime_drift : Bool
  pub payload : Fields
  pub created_at : ℕ

-- `values[key]`, which may not be `None`.
abbrev pub present : Option Json → Result Json
present none = err value_error
present (some null) = err value_error
present (some v) = ok v

abbrev pub as_list : Json → Result Items
as_list (arr items) = ok items
as_list _ = err value_error

abbrev pub as_object : Json → Result Fields
as_object (obj fields) = ok fields
as_object _ = err value_error

module _ {C : Type 0} (json : JsonLib C) where
  unfoldable pub as_dict : PlanRecord → Fields
  as_dict r = field (lit "receiptDigest") (str r.receipt_digest) (
      field (lit "service") (str r.service) (
        field (lit "project") (str r.project) (
          field (lit "composeFiles") (arr (str_items r.compose_files)) (
            field (lit "desiredImage") (opt_str r.desired_image) (
              field (lit "desiredImageExplicit") (bool r.desired_image_explicit) (
                field (lit "allowRuntimeDrift") (bool r.allow_runtime_drift) (
                  field (lit "hasRuntimeDrift") (bool r.has_runtime_drift) (
                    field (lit "payload") (obj r.payload)
                      (field (lit "createdAt") (json.float_repr r.created_at) end)))))))))

  -- `[str(item) for item in ...]`
  abbrev pub texts_of : Items → List Text
  texts_of nil = []
  texts_of (cons v rest) = json.str_of v ∷ texts_of rest

  abbrev pub image_of : Option Json → Option Text
  image_of none = none
  image_of (some null) = none
  image_of (some v) = some (json.str_of v)

  unfoldable pub from_dict : Fields → Result PlanRecord
  from_dict payload = do
    digest ← present (get (lit "receiptDigest") payload)
    service ← present (get (lit "service") payload)
    project ← present (get (lit "project") payload)
    compose_files ← present (get (lit "composeFiles") payload)
    explicit ← present (get (lit "desiredImageExplicit") payload)
    plan ← present (get (lit "payload") payload)
    created_at ← present (get (lit "createdAt") payload)
    files ← as_list compose_files
    fields ← as_object plan
    created ← or_raise (json.float_of (str (json.str_of created_at))) value_error
    ok (record {
      receipt_digest = json.str_of digest;
      service = json.str_of service;
      project = json.str_of project;
      compose_files = texts_of files;
      desired_image = image_of (get (lit "desiredImage") payload);
      desired_image_explicit = truthy json (some explicit);
      allow_runtime_drift = truthy json (get (lit "allowRuntimeDrift") payload);
      has_runtime_drift = truthy json (get (lit "hasRuntimeDrift") payload);
      payload = fields;
      created_at = created;
    })

  -- `float(str(x))` is `x` for a float, which a number that was written loads as.
  pub record FloatsRead : Type 0 where
    pub parsed : (n : ℕ) → json.float_of (str (json.str_of (json.float_repr n))) ≡ some n
    pub number : (n : ℕ) → present (some (json.float_repr n)) ≡ ok (json.float_repr n)

  module _ (lib : IsLossless json) (floats : FloatsRead) where
    texts_of-str_items : (ts : List Text) → texts_of (str_items ts) ≡ ts
    texts_of-str_items [] = refl
    texts_of-str_items (t ∷ ts) = rw (lib.str_of-str t, texts_of-str_items ts) refl

    image_of-opt_str : (o : Option Text) → image_of (some (opt_str o)) ≡ o
    image_of-opt_str none = refl
    image_of-opt_str (some t) = ap some (lib.str_of-str t)

    -- Every plan is read back as it was written.
    pub from_dict-as_dict : (r : PlanRecord) → from_dict (as_dict r) ≡ ok r
    unfolding from_dict as_dict text_eq lit
    from_dict-as_dict r =
        simp (texts_of-str_items, image_of-opt_str, lib.str_of-str, floats.parsed, floats.number)
