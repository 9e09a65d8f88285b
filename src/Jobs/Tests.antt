-- ===== src/Jobs/Tests.antt =====
-- The theorems about program jobs at a concrete registry.
use mikrus_mcp.Jobs.Cancelled.{cancel-IsEnded, IsEnded}
use mikrus_mcp.Prelude.{true, false, ◌≡◌, ℕ, text_eq, arith, Text, [], ◌∷◌, none, some, refl}
use mikrus_mcp.Errors.{not_found, app_error, ok, err}
use mikrus_mcp.Jobs.Registry.{
  run_ends, returned, succeeded, change, Status, Registry, ProgramJob, JobRequest, submit, status,
  result, cancel, target_binding, queued,
}
use mikrus_mcp.Jobs.Capacity.{IsValid, submit-IsValid}
use mikrus_mcp.Jobs.Secrecy.{stranger-refused}

abbrev text : ℕ → Text
text c = c ∷ []

abbrev request : JobRequest
request = record { principal = text b'p'; target = text b't'; target_identity = text b'i' }

abbrev empty : Registry ℕ
empty = record { jobs = []; stopped = [] }

empty-IsValid : IsValid empty
empty-IsValid = record { keys = tt; bounded = omega arith }

abbrev job : ProgramJob ℕ
job = record {
  job_id = text b'a';
  principal = text b'p';
  target = text b't';
  target_identity = text b'i';
  created_at = 5;
  expires_at = 300_000_005;
  state = queued;
  result = none;
  error = none;
  task_done = some false;
}

abbrev one_job : Registry ℕ
one_job = record { jobs = (text b'a', job) ∷ []; stopped = [] }

submitted : submit 4 5 (text b'a') request empty ≡ (
  ok (record {
    job_id = text b'a';
    status = queued;
    target = text b't';
    target_identity = text b'i';
    result_available = false;
  }),
  one_job,
)
unfolding submit
submitted = refl

one_job-IsValid : IsValid one_job
one_job-IsValid = record { keys = (refl, tt); bounded = omega arith }

submit-IsValid_example : IsValid (submit 4 5 (text b'a') request empty).1
submit-IsValid_example = submit-IsValid 4 5 (text b'a') request empty empty-IsValid

-- The job of `one_job` whose task ended with a result while it was being cancelled.
abbrev answered : ProgramJob ℕ
answered = record job { state = succeeded; result = some 7; task_done = some true }

abbrev answer : Status
answer = record {
  job_id = text b'a';
  status = succeeded;
  target = text b't';
  target_identity = text b'i';
  result_available = true;
}

abbrev after_cancel : Registry ℕ
after_cancel = record { jobs = (text b'a', answered) ∷ []; stopped = text b'a' ∷ [] }

was_cancelled :
    cancel (text b'a') (text b'p') 6 7 (some (returned 7)) one_job ≡ (ok answer, after_cancel)
unfolding cancel status change run_ends text_eq
was_cancelled = refl

cancel-IsEnded_example :
    IsEnded (text b'a') (text b'p') 6 (some (returned 7)) one_job answer after_cancel
cancel-IsEnded_example =
    cancel-IsEnded (text b'a') (text b'p') 6 7 (some (returned 7)) one_job answer after_cancel
      was_cancelled

stranger-refused_example :
    (status (text b'a') (text b'x') 6 one_job ≡ (err (app_error not_found), one_job))
    × (target_binding (text b'a') (text b'x') 6 one_job ≡ (err (app_error not_found), one_job))
    × (result (text b'a') (text b'x') 6 one_job ≡ (err (app_error not_found), one_job))
    × (cancel (text b'a') (text b'x') 6 7 none one_job ≡ (err (app_error not_found), one_job))
unfolding text_eq
stranger-refused_example = stranger-refused (text b'a') (text b'x') 6 one_job job refl refl 7 none
