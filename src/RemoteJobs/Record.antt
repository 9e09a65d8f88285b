-- ===== src/RemoteJobs/Record.antt =====
-- remote_jobs.py: `RemoteJobRecord`, its states and its transitions.
use mikrus_mcp.Prelude.{
  ℕ, Text, Bool, true, false, Option, none, some, List, [], ◌++◌, ◌&&◌, not, length, drop, ltb,
  is_some, ◌-◌, if◌then◌else◌,
}
use mikrus_mcp.Errors.{Result, ok, value_error}
use mikrus_mcp.Results.{◌>>◌, raise_if}
use mikrus_mcp.Dict.{Dict}
use mikrus_mcp.Json.{ℤ, pos}

pub data RemoteJobState : Type 0 where
  queued running succeeded failed cancelled lost expired : RemoteJobState

abbrev pub max_remote_output_bytes : ℕ
max_remote_output_bytes = 1_000_000

abbrev pub max_remote_error_bytes : ℕ
max_remote_error_bytes = 8_192

pub record RemoteJobRecord : Type 0 where
  pub job_id : Text
  pub principal : Text
  pub server_id : Text
  pub target_identity : Text
  pub idempotency_key : Text
  pub request_digest : Text
  pub created_at : Text
  pub last_progress_at : Text
  pub state : RemoteJobState
  pub started_at : Option Text
  pub exit_code : Option ℤ
  pub stdout : Text
  pub stderr : Text
  pub stdout_offset : ℤ
  pub stderr_offset : ℤ
  pub stdout_truncated : Bool
  pub stderr_truncated : Bool
  pub safe_to_retry : Bool
  pub runtime_identity : Dict Text
  pub error : Option Text

-- What an idempotency key binds, as `create` takes it.
pub record JobRequest : Type 0 where
  pub principal : Text
  pub server_id : Text
  pub target_identity : Text
  pub idempotency_key : Text
  pub request_digest : Text

-- `job_id` is what `secrets.token_urlsafe` returned.
unfoldable pub create : Text → JobRequest → Text → RemoteJobRecord
create job_id q now = record {
  job_id = job_id;
  principal = q.principal;
  server_id = q.server_id;
  target_identity = q.target_identity;
  idempotency_key = q.idempotency_key;
  request_digest = q.request_digest;
  created_at = now;
  last_progress_at = now;
  state = queued;
  started_at = none;
  exit_code = none;
  stdout = [];
  stderr = [];
  stdout_offset = pos 0;
  stderr_offset = pos 0;
  stdout_truncated = false;
  stderr_truncated = false;
  safe_to_retry = false;
  runtime_identity = [];
  error = none;
}

abbrev pub state_eq : RemoteJobState → RemoteJobState → Bool
state_eq queued queued = true
state_eq running running = true
state_eq succeeded succeeded = true
state_eq failed failed = true
state_eq cancelled cancelled = true
state_eq lost lost = true
state_eq expired expired = true
state_eq _ _ = false

-- `state in _TERMINAL_STATES`
abbrev pub is_terminal : RemoteJobState → Bool
is_terminal queued = false
is_terminal running = false
is_terminal _ = true

abbrev pub terminal : RemoteJobRecord → Bool
terminal r = is_terminal r.state

unfoldable pub transition : RemoteJobState → Text → RemoteJobRecord → Result RemoteJobRecord
transition state now r = do
  raise_if (terminal r && not (state_eq state r.state)) value_error
  raise_if (state_eq state queued && not (state_eq r.state queued)) value_error
  ok (record r {
    state = state;
    last_progress_at = now;
    started_at =
        if state_eq state running && not (is_some r.started_at) then some now else r.started_at;
  })

pub data Stream : Type 0 where
  to_stdout to_stderr : Stream

-- `str.encode("utf-8")`, `bytes.decode` and `bytes.decode(errors="replace")`.
pub record Utf8 : Type 0 where
  pub encode : Text → List ℕ
  pub decode : List ℕ → Text
  pub decode_replace : List ℕ → Text

-- `encoded[-n:]` of more than n bytes.
abbrev pub last_bytes : ℕ → List ℕ → List ℕ
last_bytes n encoded = drop (length encoded - n) encoded

module _ (utf8 : Utf8) where
  open utf8 use {encode, decode, decode_replace}

  -- The text and the flag of one stream after a chunk, from those before it.
  unfoldable pub append_to : Text → Bool → Text → Text × Bool
  append_to current truncated chunk =
      let encoded = encode (current ++ chunk) in
      if ltb max_remote_output_bytes (length encoded)
      then (decode_replace (last_bytes max_remote_output_bytes encoded), true)
      else (decode encoded, truncated)

  unfoldable pub append_output : Stream → Text → RemoteJobRecord → RemoteJobRecord
  append_output to_stdout chunk r =
      let (value, flag) = append_to r.stdout r.stdout_truncated chunk in
      record r { stdout = value; stdout_truncated = flag }
  append_output to_stderr chunk r =
      let (value, flag) = append_to r.stderr r.stderr_truncated chunk in
      record r { stderr = value; stderr_truncated = flag }
