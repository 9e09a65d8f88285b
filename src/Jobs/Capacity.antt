-- ===== src/Jobs/Capacity.antt =====
-- The registry stays a dict within its capacity, and tells a stranger nothing.
use mikrus_mcp.Prelude.{
  none, some, ◌∷◌, Option, refl, inr, inl, Bool-cases, leb, text_eq, not, some, ℕ, length, ◌≤◌, ◌≡◌,
  Text, arith,
}
use mikrus_mcp.Exec.{Keeps, Keeps-bind, pure}
use mikrus_mcp.Dict.{
  length-insert_old, erase, keep, IsDict, lookup, keep-IsDict, length-keep, insert-IsDict,
  length-insert, erase-IsDict, length-erase,
}
use mikrus_mcp.Jobs.Registry.{
  Registry, mark_cancelled, awaited, is_pending, new_job, status_of, ProgramJob, JobRequest, RunEnd,
  submit, status, cancel, owned_job, owned_entry, purge_expired, change, change_held, stop_pending,
  max_program_jobs,
}

module _ {V : Type 0} where
  -- What every method keeps: each id once, and no more jobs than the capacity.
  pub record IsValid (r : Registry V) : Type 0 where
    pub keys : IsDict r.jobs
    pub bounded : length r.jobs ≤ max_program_jobs

  -- `submit` keeps each id once and the capacity, whether it returns or raises.
  pub submit-IsValid :
      (purged_at now : ℕ) (job_id : Text) (q : JobRequest)
      → Keeps IsValid (submit {V = V} purged_at now job_id q)
  unfolding submit purge_expired
  submit-IsValid purged_at now job_id q s h =
      let live = λ (job : ProgramJob V). not (leb job.expires_at purged_at) in
      let keys = keep-IsDict live s.jobs h.keys in
      elim (Bool-cases (leb max_program_jobs (length (keep live s.jobs)))) [
        | inl full ↦
            rw full
              (record { keys = keys; bounded = omega (arith, length-keep live s.jobs, h.bounded) })
        | inr room ↦ rw room (record {
          keys = insert-IsDict job_id (new_job job_id q now) (keep live s.jobs) keys;
          bounded =
              ground
                (arith, length-insert job_id (new_job {V = V} job_id q now) (keep live s.jobs));
        })
      ]

  erased-IsValid :
      (job_id : Text) (r : Registry V)
      → IsValid r
      → IsValid (record r { jobs = erase job_id r.jobs })
  erased-IsValid job_id r h = record {
    keys = erase-IsDict job_id r.jobs h.keys;
    bounded = omega (arith, length-erase job_id r.jobs, h.bounded);
  }

  owned_entry-IsValid :
      (job_id principal : Text) (now : ℕ) (o : Option (ProgramJob V))
      → Keeps IsValid (owned_entry job_id principal now o)
  owned_entry-IsValid job_id principal now none s h = h
  owned_entry-IsValid job_id principal now (some job) s h =
      elim (Bool-cases (leb job.expires_at now)) [
        | inl late ↦ elim (Bool-cases (text_eq job.principal principal)) [
          | inl own ↦ rw (own, late) (erased-IsValid job_id s h)
          | inr other ↦ rw (other, late) (erased-IsValid job_id s h)
        ]
        | inr live ↦ elim (Bool-cases (text_eq job.principal principal)) [
          | inl own ↦ rw (own, live) h
          | inr other ↦ rw (other, live) h
        ]
      ]

  -- Looking a job up keeps each id once and the capacity.
  owned_job-IsValid :
      (job_id principal : Text) (now : ℕ) → Keeps IsValid (owned_job {V = V} job_id principal now)
  unfolding owned_job
  owned_job-IsValid job_id principal now s h =
      owned_entry-IsValid job_id principal now (lookup job_id s.jobs) s h

  change-IsValid :
      (job_id : Text) (f : ProgramJob V → ProgramJob V) → Keeps IsValid (change job_id f)
  unfolding change
  change-IsValid job_id f s h = of (lookup job_id s.jobs) refl
    where
      of :
          (o : Option (ProgramJob V))
          → lookup job_id s.jobs ≡ o
          → IsValid (change_held job_id f o s)
      of none e = h
      of (some job) e = record {
        keys = insert-IsDict job_id (f job) s.jobs h.keys;
        bounded = omega (arith, length-insert_old job_id (f job) job s.jobs e, h.bounded);
      }

  status-IsValid :
      (job_id principal : Text) (now : ℕ) → Keeps IsValid (status {V = V} job_id principal now)
  unfolding status
  status-IsValid job_id principal now =
      Keeps-bind IsValid (owned_job job_id principal now) (λ job. pure (status_of job))
        (owned_job-IsValid job_id principal now) (λ job s h. h)

  stop_pending-IsValid :
      (job_id principal : Text) (later : ℕ) (end : Option (RunEnd V)) (job : ProgramJob V)
      → Keeps IsValid (stop_pending job_id principal later end job)
  unfolding change status
  stop_pending-IsValid job_id principal later end job s h =
      elim (Bool-cases (is_pending job.task_done)) [
        | inl busy ↦
            let s1 : Registry V = record s { stopped = job_id ∷ s.stopped } in
            let h1 : IsValid s1 = record { keys = h.keys; bounded = h.bounded } in
            rw busy (
              status-IsValid job_id principal later _ (
                change-IsValid job_id (awaited end) _ (change-IsValid job_id mark_cancelled s1 h1)))
        | inr idle ↦ rw idle h
      ]

  -- `cancel` keeps each id once and the capacity, whether it returns or raises.
  cancel-IsValid :
      (job_id principal : Text) (now later : ℕ) (end : Option (RunEnd V))
      → Keeps IsValid (cancel job_id principal now later end)
  unfolding cancel
  cancel-IsValid job_id principal now later end =
      Keeps-bind IsValid (owned_job job_id principal now) (stop_pending job_id principal later end)
        (owned_job-IsValid job_id principal now) (stop_pending-IsValid job_id principal later end)
