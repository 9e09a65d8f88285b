-- ===== src/RemoteJobs/Codec.antt =====
-- remote_jobs.py: `RemoteJobRecord.as_dict` and `from_dict`.
use mikrus_mcp.Prelude.{Text, text_eq, lit, Option, none, some, [], ◌∷◌, take, if◌then◌else◌}
use mikrus_mcp.Errors.{Result, ok, err, value_error}
use mikrus_mcp.Results.{◌>>=◌, or_raise}
use mikrus_mcp.Dict.{Dict}
use mikrus_mcp.Json.{
  ℤ, pos, Json, null, bool, int, str, obj, Fields, end, field, get, JsonLib, as_str, as_int, truthy,
  text_or_empty,
}
use mikrus_mcp.RemoteJobs.Record.{
  RemoteJobState, queued, running, succeeded, failed, cancelled, lost, expired, RemoteJobRecord,
  max_remote_error_bytes,
}

-- The literals of `RemoteJobState`.
unfoldable pub state_text : RemoteJobState → Text
unfolding lit
state_text queued = lit "queued"
state_text running = lit "running"
state_text succeeded = lit "succeeded"
state_text failed = lit "failed"
state_text cancelled = lit "cancelled"
state_text lost = lit "lost"
state_text expired = lit "expired"

unfoldable pub state_of : Text → Option RemoteJobState
unfolding text_eq lit
state_of t =
    if text_eq t (lit "queued")
    then some queued
    else if text_eq t (lit "running")
    then some running
    else if text_eq t (lit "succeeded")
    then some succeeded
    else if text_eq t (lit "failed")
    then some failed
    else if text_eq t (lit "cancelled")
    then some cancelled
    else if text_eq t (lit "lost")
    then some lost
    else if text_eq t (lit "expired")
    then some expired
    else none

abbrev pub opt_str : Option Text → Json
opt_str none = null
opt_str (some t) = str t

abbrev pub opt_int : Option ℤ → Json
opt_int none = null
opt_int (some n) = int n

-- `error[:MAX_REMOTE_ERROR_BYTES]`, which counts characters.
abbrev pub cut_error : Option Text → Option Text
cut_error none = none
cut_error (some t) = some (take max_remote_error_bytes t)

-- `dict(self.runtime_identity)`
abbrev pub str_fields : Dict Text → Fields
str_fields [] = end
str_fields ((k, v) ∷ d) = field k (str v) (str_fields d)

unfoldable pub as_dict : RemoteJobRecord → Fields
unfolding state_text
as_dict r = field (lit "jobId") (str r.job_id) (
    field (lit "serverId") (str r.server_id) (
      field (lit "state") (str (state_text r.state)) (
        field (lit "principal") (str r.principal) (
          field (lit "targetIdentity") (str r.target_identity) (
            field (lit "idempotencyKey") (str r.idempotency_key) (
              field (lit "requestDigest") (str r.request_digest) (
                field (lit "createdAt") (str r.created_at) (
                  field (lit "startedAt") (opt_str r.started_at) (
                    field (lit "lastProgressAt") (str r.last_progress_at) (
                      field (lit "exitCode") (opt_int r.exit_code) (
                        field (lit "stdout") (str r.stdout) (
                          field (lit "stderr") (str r.stderr) (
                            field (lit "stdoutOffset") (int r.stdout_offset) (
                              field (lit "stderrOffset") (int r.stderr_offset) (
                                field (lit "stdoutTruncated") (bool r.stdout_truncated) (
                                  field (lit "stderrTruncated") (bool r.stderr_truncated) (
                                    field (lit "safeToRetry") (bool r.safe_to_retry) (
                                      field (lit "runtimeIdentity")
                                        (obj (str_fields r.runtime_identity))
                                        (field (lit "error") (opt_str (cut_error r.error))
                                          end)))))))))))))))))))

-- A required text field.
abbrev pub required : Text → Fields → Result Text
required key payload = or_raise (as_str (get key payload)) value_error

abbrev pub str_values : Fields → Result (Dict Text)
str_values end = ok []
str_values (field k (str v) rest) = do d ← str_values rest; ok ((k, v) ∷ d)
str_values (field k _ rest) = err value_error

-- `payload.get("runtimeIdentity", {})`, checked to be a dict of texts.
abbrev pub identity_of : Option Json → Result (Dict Text)
identity_of none = ok []
identity_of (some (obj fields)) = str_values fields
identity_of (some _) = err value_error

abbrev pub int_or_zero : Option ℤ → ℤ
int_or_zero none = pos 0
int_or_zero (some n) = n

module _ {C : Type 0} (json : JsonLib C) where
  unfoldable pub from_dict : Fields → Result RemoteJobRecord
  unfolding state_of
  from_dict payload = do
    job_id ← required (lit "jobId") payload
    server_id ← required (lit "serverId") payload
    state_value ← required (lit "state") payload
    principal ← required (lit "principal") payload
    target_identity ← required (lit "targetIdentity") payload
    idempotency_key ← required (lit "idempotencyKey") payload
    request_digest ← required (lit "requestDigest") payload
    created_at ← required (lit "createdAt") payload
    last_progress_at ← required (lit "lastProgressAt") payload
    state ← or_raise (state_of state_value) value_error
    runtime_identity ← identity_of (get (lit "runtimeIdentity") payload)
    ok (record {
      job_id = job_id;
      principal = principal;
      server_id = server_id;
      target_identity = target_identity;
      idempotency_key = idempotency_key;
      request_digest = request_digest;
      created_at = created_at;
      last_progress_at = last_progress_at;
      state = state;
      started_at = as_str (get (lit "startedAt") payload);
      exit_code = as_int (get (lit "exitCode") payload);
      stdout = text_or_empty json (get (lit "stdout") payload);
      stderr = text_or_empty json (get (lit "stderr") payload);
      stdout_offset = int_or_zero (as_int (get (lit "stdoutOffset") payload));
      stderr_offset = int_or_zero (as_int (get (lit "stderrOffset") payload));
      stdout_truncated = truthy json (get (lit "stdoutTruncated") payload);
      stderr_truncated = truthy json (get (lit "stderrTruncated") payload);
      safe_to_retry = truthy json (get (lit "safeToRetry") payload);
      runtime_identity = runtime_identity;
      error = as_str (get (lit "error") payload);
    })
