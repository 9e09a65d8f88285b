-- ===== src/Profiles/Store.antt =====
-- cron_profiles.py: `CronProfileStore`, one JSON file that is replaced as a whole under a file
-- lock. `CronProfileRegistry` passes its calls on to the store.
use mikrus_mcp.Prelude.{none, some}
use mikrus_mcp.Keyed.{replace_first, find_last}
use mikrus_mcp.Errors.{os_error, not_found, app_error, value_error, ok, err, Result}
use mikrus_mcp.Profiles.Record.{from_dict, as_dict, CronProfileRecord}
use mikrus_mcp.Json.{obj, cons, arr, Json, nil, JsonLib, Items}
use mikrus_mcp.Prelude.{
  ◌++◌, ltb, length, leb, [], ◌∷◌, ◌&&◌, some, text_eq, not, if◌then◌else◌, find_first, filter,
  Option, ℕ, Text, List, Bool,
}
use mikrus_mcp.Results
use mikrus_mcp.Exec.{Exec, pure, lift, raise_when, ◌>>=◌, ◌>>◌}
use mikrus_mcp.RemoteJobs.Store.{Disk, Store, absent, irregular, regular, item_count}

-- What a profile is found by.
pub record Key : Type 0 where
  pub profile_id : Text
  pub principal : Text
  pub server_id : Text

abbrev pub key_of : CronProfileRecord → Key
key_of r = record { profile_id = r.profile_id; principal = r.principal; server_id = r.server_id }

-- `current.profile_id == profile_id and ...`
unfoldable pub key_eq : Key → Key → Bool
key_eq k j =
    text_eq k.profile_id j.profile_id
    && (text_eq k.principal j.principal && text_eq k.server_id j.server_id)

abbrev pub has_key : Key → CronProfileRecord → Bool
has_key k r = key_eq (key_of r) k

abbrev pub encode_records : List CronProfileRecord → Items
encode_records [] = nil
encode_records (r ∷ rs) = cons (obj (as_dict r)) (encode_records rs)

-- Every item has to be an object that is a record.
abbrev pub decode_items : Items → Result (List CronProfileRecord)
decode_items nil = ok []
decode_items (cons (obj payload) rest) =
    Results.◌>>=◌ (from_dict payload) (λ r. Results.◌>>=◌ (decode_items rest) (λ rs. ok (r ∷ rs)))
decode_items (cons _ rest) = err value_error

abbrev pub decode_payload : ℕ → Option Json → Result (List CronProfileRecord)
decode_payload max_records (some (arr items)) =
    if ltb max_records (item_count items) then err value_error else decode_items items
decode_payload max_records _ = err value_error

abbrev pub or_not_found : Option CronProfileRecord → Result CronProfileRecord
or_not_found none = err (app_error not_found)
or_not_found (some r) = ok r

-- The records after `upsert` has put the record in place of the first of its key, or at the end.
abbrev pub put :
    ℕ
    → CronProfileRecord
    → List CronProfileRecord
    → Option (List CronProfileRecord)
    → Result (List CronProfileRecord)
put max_records r records (some replaced) = ok replaced
put max_records r records none =
    if leb max_records (length records) then err value_error else ok (records ++ r ∷ [])

module _ {C : Type 0} (json : JsonLib C) where
  -- `_load_unlocked`, on what stands at the path.
  unfoldable pub load_disk : ℕ → Disk C → Result (List CronProfileRecord)
  load_disk max_records absent = ok []
  load_disk max_records irregular = err value_error
  load_disk max_records (regular content) = decode_payload max_records (json.loads content)

  abbrev pub lock : Exec (Store C) (Unit {0})
  lock s = raise_when (not s.lockable) value_error s

  abbrev pub load_unlocked : Exec (Store C) (List CronProfileRecord)
  load_unlocked s = (load_disk s.max_records s.disk, s)

  -- `_persist_unlocked`: the temporary file, and its move to the path.
  unfoldable pub persist_unlocked : List CronProfileRecord → Exec (Store C) (Unit {0})
  persist_unlocked records s =
      if s.writable
      then (ok tt, record s { disk = regular (json.dumps (arr (encode_records records))) })
      else (err os_error, s)

  unfoldable pub load : Exec (Store C) (List CronProfileRecord)
  load = do lock; load_unlocked

  unfoldable pub find_for : Text → Text → Exec (Store C) (List CronProfileRecord)
  unfolding load
  find_for principal server_id = do
    records ← load
    pure (
        filter
          (λ (r : CronProfileRecord).
            text_eq r.principal principal && text_eq r.server_id server_id)
          records)

  unfoldable pub get : Key → Exec (Store C) CronProfileRecord
  unfolding load
  get k = do records ← load; lift (or_not_found (find_first (has_key k) records))

  unfoldable pub upsert : CronProfileRecord → Exec (Store C) CronProfileRecord
  unfolding persist_unlocked
  upsert r s =
      (do
        lock
        records ← load_unlocked
        changed ← lift (put s.max_records r records (replace_first (has_key (key_of r)) r records))
        persist_unlocked changed
        pure r)
        s

  unfoldable pub delete : Key → Exec (Store C) CronProfileRecord
  unfolding persist_unlocked
  delete k = do
    lock
    records ← load_unlocked
    found ← lift (or_not_found (find_last (has_key k) records))
    persist_unlocked (filter (λ (r : CronProfileRecord). not (has_key k r)) records)
    pure found
