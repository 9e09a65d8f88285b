-- ===== src/Profiles/Record.antt =====
-- cron_profiles.py: `CronProfileRecord` and its JSON form.
use mikrus_mcp.Validators.Curl.{in_set}
use mikrus_mcp.Errors.{value_error, err, ok, Result}
use mikrus_mcp.Json.{get, end, obj, cons, arr, str, nil, field, Json, Items, Fields}
use mikrus_mcp.Dict.{contains, Dict}
use mikrus_mcp.Prelude.{
  ◌&&◌, refl, [], ◌∷◌, true, some, if◌then◌else◌, all, lits, lit, Bool, text_eq, Text, Option, List,
  ◌≡◌,
}
use mikrus_mcp.Results.{◌>>=◌}
use mikrus_mcp.RemoteJobs.RoundTrip.{str_values-str_fields}
use mikrus_mcp.RemoteJobs.Codec.{str_fields, str_values, required, identity_of}

abbrev pub cron_fields : List Text
cron_fields = lits ("minute" ∷ "hour" ∷ "day_of_month" ∷ "month" ∷ "day_of_week" ∷ [])

pub record CronProfileRecord : Type 0 where
  pub profile_id : Text
  pub principal : Text
  pub server_id : Text
  pub target_identity : Text
  pub schedule : Dict Text
  pub executable : Text
  pub argv : List Text
  pub environment : Dict Text
  pub created_at : Text
  pub updated_at : Text
  pub desired_digest : Text

-- `list(self.argv)`
abbrev pub str_items : List Text → Items
str_items [] = nil
str_items (t ∷ ts) = cons (str t) (str_items ts)

abbrev pub item_texts : Items → Result (List Text)
item_texts nil = ok []
item_texts (cons (str t) rest) = do ts ← item_texts rest; ok (t ∷ ts)
item_texts (cons _ rest) = err value_error

unfoldable pub as_dict : CronProfileRecord → Fields
as_dict r = field (lit "profileId") (str r.profile_id) (
    field (lit "principal") (str r.principal) (
      field (lit "serverId") (str r.server_id) (
        field (lit "targetIdentity") (str r.target_identity) (
          field (lit "schedule") (obj (str_fields r.schedule)) (
            field (lit "executable") (str r.executable) (
              field (lit "argv") (arr (str_items r.argv)) (
                field (lit "environment") (obj (str_fields r.environment)) (
                  field (lit "createdAt") (str r.created_at) (
                    field (lit "updatedAt") (str r.updated_at)
                      (field (lit "desiredDigest") (str r.desired_digest) end))))))))))

-- `set(schedule) == set(CRON_FIELDS)`
unfoldable pub is_schedule : Dict Text → Bool
is_schedule d = all (λ e. in_set e.0 cron_fields) d && all (λ k. contains k d) cron_fields

abbrev pub checked_schedule : Dict Text → Result (Dict Text)
checked_schedule d = if is_schedule d then ok d else err value_error

abbrev pub schedule_of : Option Json → Result (Dict Text)
schedule_of (some (obj fields)) = do d ← str_values fields; checked_schedule d
schedule_of _ = err value_error

abbrev pub argv_of : Option Json → Result (List Text)
argv_of (some (arr items)) = item_texts items
argv_of _ = err value_error

unfoldable pub from_dict : Fields → Result CronProfileRecord
from_dict payload = do
  profile_id ← required (lit "profileId") payload
  principal ← required (lit "principal") payload
  server_id ← required (lit "serverId") payload
  target_identity ← required (lit "targetIdentity") payload
  executable ← required (lit "executable") payload
  created_at ← required (lit "createdAt") payload
  updated_at ← required (lit "updatedAt") payload
  desired_digest ← required (lit "desiredDigest") payload
  schedule ← schedule_of (get (lit "schedule") payload)
  argv ← argv_of (get (lit "argv") payload)
  environment ← identity_of (get (lit "environment") payload)
  ok (record {
    profile_id = profile_id;
    principal = principal;
    server_id = server_id;
    target_identity = target_identity;
    schedule = schedule;
    executable = executable;
    argv = argv;
    environment = environment;
    created_at = created_at;
    updated_at = updated_at;
    desired_digest = desired_digest;
  })

item_texts-str_items : (ts : List Text) → item_texts (str_items ts) ≡ ok ts
item_texts-str_items [] = refl
item_texts-str_items (t ∷ ts) = rw (item_texts-str_items ts) refl

-- A profile with the five schedule fields is read back as it was written.
pub from_dict-as_dict :
    (r : CronProfileRecord) → is_schedule r.schedule ≡ true → from_dict (as_dict r) ≡ ok r
unfolding from_dict as_dict text_eq lit
from_dict-as_dict r h = simp (str_values-str_fields, item_texts-str_items, h)
