-- ===== src/Plans/Store.antt =====
-- docker_ops.py: `PlanRecordStore`, one JSON file that is replaced as a whole under a file lock.
-- The clock is read once per call.
use mikrus_mcp.Plans.Record.{from_dict, as_dict, PlanRecord}
use mikrus_mcp.Errors.{os_error, err, value_error, ok, Result}
use mikrus_mcp.Json.{obj, cons, arr, Fields, nil, Json, Items, JsonLib}
use mikrus_mcp.Prelude.{
  ◌+◌, ◌-◌, length, ◌++◌, ◌&&◌, text_eq, ltb, if◌then◌else◌, find_first, filter, Bool, not, Option,
  List, ℕ, Text, some, [], ◌∷◌,
}
use mikrus_mcp.Results
use mikrus_mcp.Exec.{Exec, pure, raise_when, ◌>>=◌, ◌>>◌}
use mikrus_mcp.RemoteJobs.Store.{Disk, Store, absent, irregular, regular, item_count}

-- What `save` is called with.
pub record PlanRequest : Type 0 where
  pub receipt_digest : Text
  pub service : Text
  pub project : Text
  pub compose_files : List Text
  pub desired_image : Option Text
  pub desired_image_explicit : Bool
  pub allow_runtime_drift : Bool
  pub has_runtime_drift : Bool
  pub payload : Fields

abbrev pub new_record : ℕ → PlanRequest → PlanRecord
new_record now q = record {
  receipt_digest = q.receipt_digest;
  service = q.service;
  project = q.project;
  compose_files = q.compose_files;
  desired_image = q.desired_image;
  desired_image_explicit = q.desired_image_explicit;
  allow_runtime_drift = q.allow_runtime_drift;
  has_runtime_drift = q.has_runtime_drift;
  payload = q.payload;
  created_at = now;
}

-- `_expired`; a plan from the future has not expired.
unfoldable pub is_expired : ℕ → ℕ → PlanRecord → Bool
is_expired ttl now r = ltb ttl (now - r.created_at)

abbrev pub has_digest : Text → PlanRecord → Bool
has_digest digest r = text_eq r.receipt_digest digest

-- `while len(records) > self.max_records: records.pop(0)`
unfoldable pub trim : ℕ → List PlanRecord → List PlanRecord
trim max_records [] = []
trim max_records (r ∷ rs) =
    let rest = trim max_records rs in if ltb max_records (length rs + 1) then rest else r ∷ rs

-- The records that `save` keeps, with the new one.
unfoldable pub added : ℕ → ℕ → ℕ → PlanRequest → List PlanRecord → List PlanRecord
unfolding is_expired trim
added max_records ttl now q rs = trim max_records (
    filter (λ (r : PlanRecord). not (is_expired ttl now r))
      (filter (λ (r : PlanRecord). not (has_digest q.receipt_digest r)) rs)
    ++ new_record now q ∷ [])

module _ {C : Type 0} (json : JsonLib C) where
  abbrev pub encode_records : List PlanRecord → Items
  encode_records [] = nil
  encode_records (r ∷ rs) = cons (obj (as_dict json r)) (encode_records rs)

  abbrev pub decode_items : Items → Result (List PlanRecord)
  decode_items nil = ok []
  decode_items (cons (obj payload) rest) =
      Results.◌>>=◌ (from_dict json payload)
        (λ r. Results.◌>>=◌ (decode_items rest) (λ rs. ok (r ∷ rs)))
  decode_items (cons _ rest) = err value_error

  abbrev pub decode_payload : ℕ → Option Json → Result (List PlanRecord)
  decode_payload max_records (some (arr items)) =
      if ltb max_records (item_count items) then err value_error else decode_items items
  decode_payload max_records _ = err value_error

  -- `_load_unlocked`, on what stands at the path.
  unfoldable pub load_disk : ℕ → Disk C → Result (List PlanRecord)
  load_disk max_records absent = ok []
  load_disk max_records irregular = err value_error
  load_disk max_records (regular content) = decode_payload max_records (json.loads content)

  abbrev pub lock : Exec (Store C) (Unit {0})
  lock s = raise_when (not s.lockable) value_error s

  abbrev pub load_unlocked : Exec (Store C) (List PlanRecord)
  load_unlocked s = (load_disk s.max_records s.disk, s)

  -- `_persist_unlocked`
  unfoldable pub persist_unlocked : List PlanRecord → Exec (Store C) (Unit {0})
  persist_unlocked records s =
      if s.writable
      then (ok tt, record s { disk = regular (json.dumps (arr (encode_records records))) })
      else (err os_error, s)

  unfoldable pub save : ℕ → ℕ → PlanRequest → Exec (Store C) PlanRecord
  unfolding persist_unlocked
  save ttl now q s =
      (do
        lock
        records ← load_unlocked
        persist_unlocked (added s.max_records ttl now q records)
        pure (new_record now q))
        s

  unfoldable pub get : ℕ → ℕ → Text → Exec (Store C) (Option PlanRecord)
  unfolding is_expired
  get ttl now digest = do
    lock
    records ← load_unlocked
    pure
        (find_first (λ (r : PlanRecord). has_digest digest r && not (is_expired ttl now r)) records)
