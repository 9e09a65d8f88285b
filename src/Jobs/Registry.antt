-- ===== src/Jobs/Registry.antt =====
-- jobs.py: `ProgramJobRegistry`. `V` is the type of what a program returns.
use mikrus_mcp.Errors.{AppError, conflict, not_found, internal, app_error, ErrorCode}
use mikrus_mcp.Prelude.{
  text_eq, true, some, leb, not, none, length, if◌then◌else◌, false, ℕ, Option, Bool, List, Text,
  [], ◌∷◌, ◌+◌, ◌++◌, ◌&&◌, ◌||◌,
}
use mikrus_mcp.Exec.{Exec, pure, raise, gets, modify, raise_when, ◌>>=◌, ◌>>◌}
use mikrus_mcp.Dict.{Dict, lookup, insert, erase, keep}

pub data JobState : Type 0 where
  queued running succeeded failed cancelled : JobState

-- `job.error`, without its message; the error that stands in for a missing one has no `retryable`.
pub record JobError : Type 0 where
  pub code : ErrorCode
  pub retryable : Option Bool

-- `_ProgramJob`; of its task it matters whether it is there and whether it is done.
pub record ProgramJob (V : Type 0) : Type 0 where
  pub job_id : Text
  pub principal : Text
  pub target : Text
  pub target_identity : Text
  pub created_at : ℕ
  pub expires_at : ℕ
  pub state : JobState
  pub result : Option V
  pub error : Option JobError
  pub task_done : Option Bool

-- The jobs, and the ids of the jobs whose tasks were asked to stop, the last one first.
pub record Registry (V : Type 0) : Type 0 where
  pub jobs : Dict (ProgramJob V)
  pub stopped : List Text

-- `_status`
pub record Status : Type 0 where
  pub job_id : Text
  pub status : JobState
  pub target : Text
  pub target_identity : Text
  pub result_available : Bool

pub record JobRequest : Type 0 where
  pub principal : Text
  pub target : Text
  pub target_identity : Text

abbrev pub max_program_jobs : ℕ
max_program_jobs = 64

abbrev pub program_job_ttl : ℕ
program_job_ttl = 300_000_000

abbrev pub is_final : JobState → Bool
is_final queued = false
is_final running = false
is_final succeeded = true
is_final failed = true
is_final cancelled = true

-- `task is not None and not task.done()`
abbrev pub is_pending : Option Bool → Bool
is_pending none = false
is_pending (some done) = not done

-- What `result` adds to the status: the program's result or an error.
pub data Extra (V : Type 0) : Type 0 where
  with_result : Option V → Extra V
  with_error : JobError → Extra V
  nothing : Extra V

abbrev pub or_internal : Option JobError → JobError
or_internal none = record { code = internal; retryable = none }
or_internal (some e) = e

-- How `_run` ends: with the program's result, an `AppError`, another exception, or cancelled.
pub data RunEnd (V : Type 0) : Type 0 where
  returned : V → RunEnd V
  raised : AppError → RunEnd V
  crashed : RunEnd V
  stopped_early : RunEnd V

module _ {V : Type 0} where
  unfoldable pub status_of : ProgramJob V → Status
  status_of job = record {
    job_id = job.job_id;
    status = job.state;
    target = job.target;
    target_identity = job.target_identity;
    result_available = is_final job.state;
  }

  -- The ids of the expired jobs whose tasks are cancelled.
  abbrev pub expired_pending : ℕ → Dict (ProgramJob V) → List Text
  expired_pending now [] = []
  expired_pending now ((k, job) ∷ jobs) =
      let rest = expired_pending now jobs in
      if leb job.expires_at now && is_pending job.task_done then k ∷ rest else rest

  unfoldable pub purge_expired : ℕ → Exec (Registry V) (Unit {0})
  purge_expired now = modify (λ (r : Registry V). record {
    jobs = keep (λ job. not (leb job.expires_at now)) r.jobs;
    stopped = expired_pending now r.jobs ++ r.stopped;
  })

  unfoldable pub new_job : Text → JobRequest → ℕ → ProgramJob V
  new_job job_id q now = record {
    job_id = job_id;
    principal = q.principal;
    target = q.target;
    target_identity = q.target_identity;
    created_at = now;
    expires_at = now + program_job_ttl;
    state = queued;
    result = none;
    error = none;
    task_done = some false;
  }

  abbrev pub put : Text → ProgramJob V → Exec (Registry V) (Unit {0})
  put job_id job = modify (λ (r : Registry V). record r { jobs = insert job_id job r.jobs })

  -- `purged_at` is the clock of the purge, and `now` that of the new job.
  unfoldable pub submit : ℕ → ℕ → Text → JobRequest → Exec (Registry V) Status
  unfolding purge_expired new_job status_of
  submit purged_at now job_id q = do
    purge_expired purged_at
    count ← gets (λ (r : Registry V). length r.jobs)
    raise_when (leb max_program_jobs count) (app_error conflict)
    put job_id (new_job job_id q now)
    pure (status_of (new_job job_id q now))

  abbrev pub owned_entry :
      Text → Text → ℕ → Option (ProgramJob V) → Exec (Registry V) (ProgramJob V)
  owned_entry job_id principal now none = raise (app_error not_found)
  owned_entry job_id principal now (some job) =
      if not (text_eq job.principal principal) || leb job.expires_at now
      then (if leb job.expires_at now
          then (do
            modify (λ (r : Registry V). record r { jobs = erase job_id r.jobs })
            raise (app_error not_found))
          else raise (app_error not_found))
      else pure job

  unfoldable pub owned_job : Text → Text → ℕ → Exec (Registry V) (ProgramJob V)
  owned_job job_id principal now s = owned_entry job_id principal now (lookup job_id s.jobs) s

  unfoldable pub status : Text → Text → ℕ → Exec (Registry V) Status
  unfolding owned_job status_of
  status job_id principal now = do job ← owned_job job_id principal now; pure (status_of job)

  unfoldable pub target_binding : Text → Text → ℕ → Exec (Registry V) (Text × Text)
  unfolding owned_job
  target_binding job_id principal now = do
    job ← owned_job job_id principal now
    pure (job.target, job.target_identity)

  abbrev pub extra_of : JobState → ProgramJob V → Extra V
  extra_of succeeded job = with_result job.result
  extra_of failed job = with_error (or_internal job.error)
  extra_of queued job = nothing
  extra_of running job = nothing
  extra_of cancelled job = nothing

  unfoldable pub result : Text → Text → ℕ → Exec (Registry V) (Status × Extra V)
  unfolding owned_job status_of
  result job_id principal now = do
    job ← owned_job job_id principal now
    pure (status_of job, extra_of job.state job)

  -- `_run`: what it sets when it begins, and when it ends.
  unfoldable pub run_begins : ProgramJob V → ProgramJob V
  run_begins job = record job { state = running }

  unfoldable pub run_ends : RunEnd V → ProgramJob V → ProgramJob V
  run_ends (returned v) job = record job {
    result = some v;
    state = succeeded;
    task_done = some true;
  }
  run_ends (raised e) job = record job {
    state = failed;
    error = some (record { code = e.code; retryable = some e.retryable });
    task_done = some true;
  }
  run_ends crashed job = record job {
    state = failed;
    error = some (record { code = internal; retryable = some false });
    task_done = some true;
  }
  run_ends stopped_early job = record job { state = cancelled; task_done = some true }

  -- A change of a job's object, which the registry sees while it holds the job.
  abbrev pub change_held :
      Text → (ProgramJob V → ProgramJob V) → Option (ProgramJob V) → Registry V → Registry V
  change_held job_id f none r = r
  change_held job_id f (some job) r = record r { jobs = insert job_id (f job) r.jobs }

  unfoldable pub change : Text → (ProgramJob V → ProgramJob V) → Exec (Registry V) (Unit {0})
  change job_id f = modify (λ (r : Registry V). change_held job_id f (lookup job_id r.jobs) r)

  -- The task after `task.cancel()`: one that has not begun never does.
  abbrev pub awaited : Option (RunEnd V) → ProgramJob V → ProgramJob V
  awaited none job = record job { task_done = some true }
  awaited (some end) job = run_ends end job

  abbrev pub mark_cancelled : ProgramJob V → ProgramJob V
  mark_cancelled job = record job { state = cancelled }

  abbrev pub stop_pending :
      Text → Text → ℕ → Option (RunEnd V) → ProgramJob V → Exec (Registry V) Status
  stop_pending job_id principal later end job =
      if is_pending job.task_done
      then (do
        modify (λ (r : Registry V). record r { stopped = job_id ∷ r.stopped })
        change job_id mark_cancelled
        change job_id (awaited end)
        status job_id principal later)
      else pure (status_of job)

  -- `cancel`: `later` is the clock after the task has ended as `end` tells.
  unfoldable pub cancel : Text → Text → ℕ → ℕ → Option (RunEnd V) → Exec (Registry V) Status
  unfolding owned_job
  cancel job_id principal now later end = do
    job ← owned_job job_id principal now
    stop_pending job_id principal later end job

  abbrev pub all_pending : Dict (ProgramJob V) → List Text
  all_pending [] = []
  all_pending ((k, job) ∷ jobs) =
      let rest = all_pending jobs in if is_pending job.task_done then k ∷ rest else rest

  unfoldable pub close : Exec (Registry V) (Unit {0})
  close =
      modify (λ (r : Registry V). record { jobs = []; stopped = all_pending r.jobs ++ r.stopped })
