-- ===== src/RemoteJobs/Registry.antt =====
-- remote_jobs.py: `DurableRemoteJobRegistry`. The clock's text and its timestamp are arguments.
use mikrus_mcp.Prelude.{
  ℕ, ◌+◌, Text, text_eq, Bool, true, false, Option, none, some, List, [], ◌∷◌, ◌&&◌, ◌||◌, not,
  length, take, leb, find_first, filter, if◌then◌else◌,
}
use mikrus_mcp.Errors.{Result, ok, err, app_error, not_found, conflict}
use mikrus_mcp.Results
use mikrus_mcp.Exec.{Exec, lift, ◌>>=◌, ◌>>◌}
use mikrus_mcp.Json.{ℤ, JsonLib}
use mikrus_mcp.RemoteJobs.Record.{
  RemoteJobState, expired, lost, RemoteJobRecord, JobRequest, create, transition, terminal,
  is_terminal, state_eq, max_remote_error_bytes,
}
use mikrus_mcp.RemoteJobs.Store.{Store, load, transaction, insert_or_existing}

abbrev pub remote_job_retention_seconds : ℕ
remote_job_retention_seconds = 604_800

-- `item.job_id == job_id and item.principal == principal`
abbrev pub owned_by : Text → Text → RemoteJobRecord → Bool
owned_by job_id principal r = text_eq r.job_id job_id && text_eq r.principal principal

-- `_owned_unlocked`, and the change that a method makes to the record that it found.
abbrev pub update_owned :
    Text
    → Text
    → (RemoteJobRecord → Result RemoteJobRecord)
    → List RemoteJobRecord
    → Result (RemoteJobRecord × List RemoteJobRecord)
update_owned job_id principal change [] = err (app_error not_found)
update_owned job_id principal change (r ∷ rs) =
    if owned_by job_id principal r
    then Results.◌>>=◌ (change r) (λ r'. ok (r', r' ∷ rs))
    else Results.◌>>=◌ (update_owned job_id principal change rs)
        (λ found. ok (found.0, r ∷ found.1))

-- The optional arguments of `update`.
pub record Outcome : Type 0 where
  pub exit_code : Option ℤ
  pub safe_to_retry : Option Bool
  pub error : Option Text

abbrev pub given {ℓ} : {A : Type ℓ} → Option A → A → A
given none old = old
given (some new) old = new

abbrev pub given_error : Option Text → Option Text → Option Text
given_error none old = old
given_error (some new) old = some (take max_remote_error_bytes new)

abbrev pub given_code : Option ℤ → Option ℤ → Option ℤ
given_code none old = old
given_code (some new) old = some new

unfoldable pub apply_update :
    RemoteJobState → Text → Outcome → RemoteJobRecord → Result RemoteJobRecord
unfolding transition
apply_update state now outcome r = Results.◌>>=◌ (transition state now r) (λ r'. ok (record r' {
  exit_code = given_code outcome.exit_code r'.exit_code;
  safe_to_retry = given outcome.safe_to_retry r'.safe_to_retry;
  error = given_error outcome.error r'.error;
}))

unfoldable pub apply_observation :
    Text → RemoteJobState → Text → RemoteJobRecord → Result RemoteJobRecord
unfolding transition
apply_observation server_id observed now r =
    if terminal r
    then ok r
    else if not (text_eq r.server_id server_id)
    then ok r
    else transition observed now r

-- The clock at one call, as a text and as a timestamp, and `datetime.fromisoformat(x).timestamp()`.
pub record Clock : Type 0 where
  pub now : ℕ
  pub now_text : Text
  pub timestamp_of : Text → Option ℕ

-- One turn of the loop of `expire_older_than`. `transition` does not raise here.
abbrev pub expire_stale : Clock → ℕ → RemoteJobRecord → Option ℕ → Result RemoteJobRecord
expire_stale clock max_age r none = ok r
expire_stale clock max_age r (some created) =
    if leb (created + max_age) clock.now then transition expired clock.now_text r else ok r

unfoldable pub expire_one : Clock → ℕ → RemoteJobRecord → Result RemoteJobRecord
unfolding transition
expire_one clock max_age r =
    if is_terminal r.state
    then ok r
    else expire_stale clock max_age r (clock.timestamp_of r.created_at)

unfoldable pub expire_all : Clock → ℕ → List RemoteJobRecord → Result (List RemoteJobRecord)
unfolding expire_one
expire_all clock max_age [] = ok []
expire_all clock max_age (r ∷ rs) =
    Results.◌>>=◌ (expire_one clock max_age r)
      (λ r'. Results.◌>>=◌ (expire_all clock max_age rs) (λ rs'. ok (r' ∷ rs')))

-- The body of the transaction of `expire_older_than`: the records after the loop, and how many of
-- them are expired.
abbrev pub expire_body : Clock → ℕ → List RemoteJobRecord → Result (ℕ × List RemoteJobRecord)
expire_body clock max_age records =
    Results.◌>>=◌ (expire_all clock max_age records)
      (λ records'. ok (length (filter (λ r. state_eq r.state expired) records'), records'))

-- What `create_or_reuse` makes of the record that the store returned.
abbrev pub reuse : JobRequest → RemoteJobRecord → RemoteJobRecord → Result (RemoteJobRecord × Bool)
reuse q candidate existing =
    if text_eq existing.job_id candidate.job_id
    then ok (existing, false)
    else if not (text_eq existing.request_digest q.request_digest)
        || not (text_eq existing.target_identity q.target_identity)
    then err (app_error conflict)
    else ok (existing, true)

module _ {C : Type 0} (json : JsonLib C) where
  unfoldable pub expire_older_than : Clock → ℕ → Exec (Store C) ℕ
  unfolding expire_all transaction
  expire_older_than clock max_age = transaction json (expire_body clock max_age)

  unfoldable pub prune_on_read : Clock → Exec (Store C) ℕ
  unfolding expire_older_than
  prune_on_read clock = expire_older_than clock remote_job_retention_seconds

  unfoldable pub create_or_reuse :
      Clock → Text → JobRequest → Text → Exec (Store C) (RemoteJobRecord × Bool)
  unfolding prune_on_read insert_or_existing
  create_or_reuse clock job_id q now = do
    prune_on_read clock
    existing ← insert_or_existing json (create job_id q now)
    lift (reuse q (create job_id q now) existing)

  unfoldable pub get : Clock → Text → Text → Exec (Store C) RemoteJobRecord
  unfolding prune_on_read load
  get clock job_id principal = do
    prune_on_read clock
    records ← load json
    lift (Results.or_raise (find_first (owned_by job_id principal) records) (app_error not_found))

  unfoldable pub update :
      Text → Text → RemoteJobState → Text → Outcome → Exec (Store C) RemoteJobRecord
  unfolding apply_update transaction
  update job_id principal state now outcome =
      transaction json (update_owned job_id principal (apply_update state now outcome))

  unfoldable pub reconcile_observed_state :
      Text → Text → Text → RemoteJobState → Text → Exec (Store C) RemoteJobRecord
  unfolding apply_observation transaction
  reconcile_observed_state principal server_id job_id observed now =
      transaction json (update_owned job_id principal (apply_observation server_id observed now))

  unfoldable pub mark_lost : Text → Text → Text → Exec (Store C) RemoteJobRecord
  unfolding update
  mark_lost job_id principal now =
      update job_id principal lost now
        (record { exit_code = none; safe_to_retry = some false; error = none })

  unfoldable pub expire : Text → Text → Text → Exec (Store C) RemoteJobRecord
  unfolding update
  expire job_id principal now =
      update job_id principal expired now
        (record { exit_code = none; safe_to_retry = some false; error = none })
