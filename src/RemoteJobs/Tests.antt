-- ===== src/RemoteJobs/Tests.antt =====
-- Tests of the remote job records and their store, and the theorems about them at concrete stores.
use mikrus_mcp.Prelude.{
  ℕ, ◌≡◌, ◌≢◌, refl, Text, lit, text_eq, true, false, none, some, List, [], ◌∷◌, arith,
}
use mikrus_mcp.Errors.{ok}
use mikrus_mcp.Json.{Json}
use mikrus_mcp.Sample.{plain, plain-IsLossless}
use mikrus_mcp.RemoteJobs.Record.{RemoteJobRecord, JobRequest, RemoteJobState, create}
use mikrus_mcp.RemoteJobs.Codec.{as_dict, from_dict, cut_error}
use mikrus_mcp.RemoteJobs.RoundTrip.{from_dict-as_dict}
use mikrus_mcp.RemoteJobs.Store.{Store, Disk, load_disk}
use mikrus_mcp.RemoteJobs.Registry.{Clock, create_or_reuse, update}
use mikrus_mcp.RemoteJobs.Lifecycle.{Extends}
use mikrus_mcp.RemoteJobs.Stored.{stored}
use mikrus_mcp.RemoteJobs.History.{Step, Reach, Reach-Extends}
use mikrus_mcp.RemoteJobs.Idempotent.{idempotency_key_binds}

abbrev text : ℕ → Text
text c = c ∷ []

abbrev request : JobRequest
request = record {
  principal = text b'p';
  server_id = text b's';
  target_identity = text b't';
  idempotency_key = text b'k';
  request_digest = text b'd';
}

abbrev clock : Clock
clock = record { now = 1_000_000; now_text = text b'2'; timestamp_of = λ t. some 999_999 }

abbrev empty : Store Json
empty = record { disk = Disk.absent; max_records = 2; lockable = true; writable = true }

abbrev job : RemoteJobRecord
unfolding create
job = create (text b'a') request (text b'1')

abbrev one_job : Store Json
unfolding create_or_reuse
one_job = (create_or_reuse plain clock (text b'a') request (text b'1') empty).1

accepted :
    create_or_reuse plain clock (text b'a') request (text b'1') empty ≡ (ok (job, false), one_job)
unfolding create_or_reuse create text_eq lit load_disk
accepted = refl

reused :
    create_or_reuse plain clock (text b'b') request (text b'3') one_job ≡ (ok (job, true), one_job)
unfolding create_or_reuse create text_eq lit load_disk from_dict as_dict
reused = refl

b-ne-a : text b'b' ≢ text b'a'
b-ne-a e = ground arith

idempotency_key_binds_example :
    (job.job_id ≡ text b'a')
    × (true ≡ true)
    × (request.request_digest ≡ job.request_digest)
    × (request.target_identity ≡ job.target_identity)
unfolding create
idempotency_key_binds_example =
    idempotency_key_binds plain plain-IsLossless empty one_job one_job one_job [] clock clock
      (text b'a') (text b'b') (text b'1') (text b'3') request request job job false true
      (unfold load_disk in refl) accepted Reach.here refl refl refl b-ne-a reused

from_dict-as_dict_example :
    from_dict plain (as_dict job) ≡ ok (record job { error = cut_error job.error })
from_dict-as_dict_example = from_dict-as_dict plain plain-IsLossless job

abbrev finished : Store Json
finished =
    (update plain (text b'a') (text b'p') RemoteJobState.succeeded (text b'3')
      (record { exit_code = none; safe_to_retry = none; error = none }) one_job).1

Reach-Extends_example :
    (rs' : List RemoteJobRecord) × (stored plain finished ≡ ok rs') × Extends (job ∷ []) rs'
Reach-Extends_example =
    Reach-Extends plain plain-IsLossless (job ∷ [])
      (Reach.next Reach.here (
        Step.updated one_job (text b'a') (text b'p') RemoteJobState.succeeded (text b'3')
          (record { exit_code = none; safe_to_retry = none; error = none })))
      (unfold create_or_reuse load_disk from_dict as_dict create text_eq lit in refl)
