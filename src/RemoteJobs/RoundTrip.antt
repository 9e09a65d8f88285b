-- ===== src/RemoteJobs/RoundTrip.antt =====
-- What the store reads back of a record that it wrote.
use mikrus_mcp.Dict.{Dict}
use mikrus_mcp.Prelude.{Text, Option, ◌≡◌, refl, some, none, [], ◌∷◌, lit, text_eq}
use mikrus_mcp.Errors.{ok}
use mikrus_mcp.Json.{as_str, as_int, ℤ, JsonLib, IsLossless}
use mikrus_mcp.RemoteJobs.Record.{
  succeeded, running, queued, lost, failed, expired, cancelled, RemoteJobState, RemoteJobRecord,
}
use mikrus_mcp.RemoteJobs.Codec.{
  as_dict, from_dict, cut_error, opt_str, opt_int, state_of, state_text, str_fields, str_values,
}

state_of-state_text : (s : RemoteJobState) → state_of (state_text s) ≡ some s
unfolding state_of state_text
state_of-state_text queued = refl
state_of-state_text running = refl
state_of-state_text succeeded = refl
state_of-state_text failed = refl
state_of-state_text cancelled = refl
state_of-state_text lost = refl
state_of-state_text expired = refl

pub str_values-str_fields : (d : Dict Text) → str_values (str_fields d) ≡ ok d
str_values-str_fields [] = refl
str_values-str_fields ((k, v) ∷ d) = rw (str_values-str_fields d) refl

as_str-opt_str : (o : Option Text) → as_str (some (opt_str o)) ≡ o
as_str-opt_str none = refl
as_str-opt_str (some t) = refl

as_int-opt_int : (o : Option ℤ) → as_int (some (opt_int o)) ≡ o
as_int-opt_int none = refl
as_int-opt_int (some n) = refl

module _ {C : Type 0} (json : JsonLib C) (lib : IsLossless json) where
  -- `from_dict` reads back what `as_dict` wrote, with an overlong error cut off.
  pub from_dict-as_dict :
      (r : RemoteJobRecord)
      → from_dict json (as_dict r) ≡ ok (record r { error = cut_error r.error })
  unfolding from_dict as_dict text_eq lit
  from_dict-as_dict r =
      simp
        (state_of-state_text, str_values-str_fields, as_str-opt_str, as_int-opt_int, lib.str_of-str)
