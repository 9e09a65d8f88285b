-- ===== src/RemoteJobs/Store.antt =====
-- remote_jobs.py: `RemoteJobStore`, one JSON file that is replaced as a whole under a file lock.
use mikrus_mcp.Prelude.{
  ℕ, ◌+◌, Text, text_eq, Bool, Option, none, some, List, [], ◌∷◌, ◌++◌, ◌&&◌, not, length, leb, ltb,
  find_first, if◌then◌else◌,
}
use mikrus_mcp.Errors.{Result, ok, err, value_error, os_error}
use mikrus_mcp.Results
use mikrus_mcp.Exec.{Exec, pure, lift, raise_when, ◌>>=◌, ◌>>◌}
use mikrus_mcp.Json.{Json, obj, arr, Items, nil, cons, JsonLib}
use mikrus_mcp.RemoteJobs.Record.{RemoteJobRecord}
use mikrus_mcp.RemoteJobs.Codec.{as_dict, from_dict}

-- What stands at the store's path: nothing (or a link to nothing), a link or no regular file, or a
-- regular file.
pub data Disk (C : Type 0) : Type 0 where
  absent : Disk C
  irregular : Disk C
  regular : C → Disk C

-- The store and its file. `lockable` says that neither the directory nor the lock file is a
-- symbolic link, `writable` that the temporary file can be written and moved.
pub record Store (C : Type 0) : Type 0 where
  pub disk : Disk C
  pub max_records : ℕ
  pub lockable : Bool
  pub writable : Bool

abbrev pub item_count : Items → ℕ
item_count nil = 0
item_count (cons _ rest) = item_count rest + 1

-- `[item.as_dict() for item in records]`
abbrev pub encode_records : List RemoteJobRecord → Items
encode_records [] = nil
encode_records (r ∷ rs) = cons (obj (as_dict r)) (encode_records rs)

-- `record.principal == principal and ...`
abbrev pub same_key : Text → Text → Text → RemoteJobRecord → Bool
same_key principal server_id idempotency_key r =
    text_eq r.principal principal
    && (text_eq r.server_id server_id && text_eq r.idempotency_key idempotency_key)

-- The loop of `save`: the first record with this id is replaced.
abbrev pub replace_first : RemoteJobRecord → List RemoteJobRecord → Option (List RemoteJobRecord)
replace_first r [] = none
replace_first r (current ∷ rest) =
    if text_eq current.job_id r.job_id
    then some (r ∷ rest)
    else elim (replace_first r rest) [ none ↦ none | some rest' ↦ some (current ∷ rest') ]

module _ {C : Type 0} (json : JsonLib C) where
  -- Every item has to be an object that is a record.
  abbrev pub decode_items : Items → Result (List RemoteJobRecord)
  decode_items nil = ok []
  decode_items (cons (obj payload) rest) =
      Results.◌>>=◌ (from_dict json payload)
        (λ r. Results.◌>>=◌ (decode_items rest) (λ rs. ok (r ∷ rs)))
  decode_items (cons _ rest) = err value_error

  abbrev pub decode_payload : ℕ → Option Json → Result (List RemoteJobRecord)
  decode_payload max_records (some (arr items)) =
      if ltb max_records (item_count items) then err value_error else decode_items items
  decode_payload max_records _ = err value_error

  -- `_load_unlocked`, on what stands at the path.
  unfoldable pub load_disk : ℕ → Disk C → Result (List RemoteJobRecord)
  load_disk max_records absent = ok []
  load_disk max_records irregular = err value_error
  load_disk max_records (regular content) = decode_payload max_records (json.loads content)

  -- `_lock`
  abbrev pub lock : Exec (Store C) (Unit {0})
  lock s = raise_when (not s.lockable) value_error s

  abbrev pub load_unlocked : Exec (Store C) (List RemoteJobRecord)
  load_unlocked s = (load_disk s.max_records s.disk, s)

  -- The temporary file, and its move to the path; what `save` and `insert_or_existing` repeat.
  abbrev pub write_records : List RemoteJobRecord → Exec (Store C) (Unit {0})
  write_records records s =
      if s.writable
      then (ok tt, record s { disk = regular (json.dumps (arr (encode_records records))) })
      else (err os_error, s)

  unfoldable pub load : Exec (Store C) (List RemoteJobRecord)
  load = do lock; load_unlocked

  unfoldable pub replace_all_unlocked : List RemoteJobRecord → Exec (Store C) (Unit {0})
  replace_all_unlocked records s =
      if ltb s.max_records (length records) then (err value_error, s) else write_records records s

  unfoldable pub replace_all : List RemoteJobRecord → Exec (Store C) (Unit {0})
  unfolding replace_all_unlocked
  replace_all records s =
      if ltb s.max_records (length records)
      then (err value_error, s)
      else (do lock; replace_all_unlocked records) s

  -- `with transaction() as records`: the body may change the records; if it raises, nothing is
  -- written.
  unfoldable pub transaction :
      {A : Type 0} → (List RemoteJobRecord → Result (A × List RemoteJobRecord)) → Exec (Store C) A
  unfolding replace_all_unlocked
  transaction body = do
    lock
    records ← load_unlocked
    changed ← lift (body records)
    replace_all_unlocked changed.1
    pure changed.0

  unfoldable pub find_idempotent : Text → Text → Text → Exec (Store C) (Option RemoteJobRecord)
  find_idempotent principal server_id idempotency_key = do
    lock
    records ← load_unlocked
    pure (find_first (same_key principal server_id idempotency_key) records)

  abbrev pub append_record : RemoteJobRecord → List RemoteJobRecord → Exec (Store C) (Unit {0})
  append_record r records s =
      if leb s.max_records (length records)
      then (err value_error, s)
      else write_records (records ++ r ∷ []) s

  abbrev pub save_in :
      RemoteJobRecord
      → List RemoteJobRecord
      → Option (List RemoteJobRecord)
      → Exec (Store C) (Unit {0})
  save_in r records none = append_record r records
  save_in r records (some replaced) = write_records replaced

  unfoldable pub save : RemoteJobRecord → Exec (Store C) (Unit {0})
  save r = do lock; records ← load_unlocked; save_in r records (replace_first r records)

  abbrev pub insert_unless :
      RemoteJobRecord
      → List RemoteJobRecord
      → Option RemoteJobRecord
      → Exec (Store C) RemoteJobRecord
  insert_unless r records (some current) = pure current
  insert_unless r records none = do append_record r records; pure r

  unfoldable pub insert_or_existing : RemoteJobRecord → Exec (Store C) RemoteJobRecord
  insert_or_existing r = do
    lock
    records ← load_unlocked
    insert_unless r records
        (find_first (same_key r.principal r.server_id r.idempotency_key) records)
