-- ===== src/Jobs/Cancelled.antt =====
-- What a cancellation that returns has done.
use mikrus_mcp.Exec.{pure, continue-eq-ok}
use mikrus_mcp.Dict.{lookup-insert, lookup, insert}
use mikrus_mcp.Errors.{Result, ok, err, app_error, not_found}
use mikrus_mcp.Results.{ok-inj}
use mikrus_mcp.Jobs.Registry.{
  mark_cancelled, stop_pending, status, cancel, awaited, Registry, ProgramJob, RunEnd, Status,
  JobState, returned, raised, crashed, stopped_early, succeeded, failed, cancelled, status_of,
  owned_job, owned_entry, change, run_ends, is_pending,
}
use mikrus_mcp.Prelude.{
  text_eq_refl, some-inj, text_eq_iff, arith, inl, inr, Bool-cases, refl, sym, ap, ◌∙◌, ◌≡◌, ◌<◌, ℕ,
  Text, Bool, Option, none, some, true, false, text_eq, if◌then◌else◌, ◌∷◌, leb,
}

-- How the state of a job tells the end of its task; one that had not begun is cancelled.
abbrev pub final_state : {V : Type 0} → Option (RunEnd V) → JobState
final_state none = cancelled
final_state (some (returned v)) = succeeded
final_state (some (raised e)) = failed
final_state (some crashed) = failed
final_state (some stopped_early) = cancelled

module _ {V : Type 0} where
  abbrev pub ended_job : Option (RunEnd V) → ProgramJob V → ProgramJob V
  ended_job none job = record job { state = cancelled; task_done = some true }
  ended_job (some end) job = run_ends end job

  -- The registry and the answer behind a cancellation of a job whose task was, or was not, pending.
  abbrev pub HasEnded :
      Bool → Text → Option (RunEnd V) → ProgramJob V → Registry V → Status → Registry V → Type 0
  HasEnded true job_id end job s st s' =
      (s'.stopped ≡ job_id ∷ s.stopped)
      × (st.status ≡ final_state end)
      × (st.result_available ≡ true)
      × ((k : Text)
          → lookup k s'.jobs
            ≡ (if text_eq job_id k then some (ended_job end job) else lookup k s.jobs))
  HasEnded false job_id end job s st s' = (s' ≡ s) × (st ≡ status_of job)

  pub record IsEnded (job_id principal : Text) (now : ℕ) (end : Option (RunEnd V)) (s : Registry V)
      (st : Status) (s' : Registry V) : Type 0 where
    pub job : ProgramJob V
    pub found : lookup job_id s.jobs ≡ some job
    pub owner : job.principal ≡ principal
    pub live : now < job.expires_at
    pub outcome : HasEnded (is_pending job.task_done) job_id end job s st s'

  -- What a caller who is given a job has shown.
  record IsOwned (job_id principal : Text) (now : ℕ) (s : Registry V) (job : ProgramJob V)
      (s' : Registry V) : Type 0 where
    kept : s' ≡ s
    found : lookup job_id s.jobs ≡ some job
    owner : text_eq job.principal principal ≡ true
    live : leb job.expires_at now ≡ false

  owned_job-IsOwned :
      (job_id principal : Text) (now : ℕ) (s : Registry V) (job : ProgramJob V) (s' : Registry V)
      → owned_job job_id principal now s ≡ (ok job, s')
      → IsOwned job_id principal now s job s'
  unfolding owned_job
  owned_job-IsOwned job_id principal now s job s' e = of (lookup job_id s.jobs) refl e
    where
      refused :
          (r : Registry V)
          → ◌≡◌ {A = Result (ProgramJob V) × Registry V} (err (app_error not_found), r) (ok job, s')
          → IsOwned job_id principal now s job s'
      refused r h = cc

      of :
          (o : Option (ProgramJob V))
          → lookup job_id s.jobs ≡ o
          → owned_entry job_id principal now o s ≡ (ok job, s')
          → IsOwned job_id principal now s job s'
      of none f h = refused s h
      of (some j) f h = elim (Bool-cases (leb j.expires_at now)) [
        | inl late ↦ elim (Bool-cases (text_eq j.principal principal)) [
          | inl own ↦ refused _ (rw (own, late) at h)
          | inr other ↦ refused _ (rw (other, late) at h)
        ]
        | inr live ↦ elim (Bool-cases (text_eq j.principal principal)) [
          | inl own ↦
              let h1 : ◌≡◌ {A = Result (ProgramJob V) × Registry V} (ok j, s) (ok job, s') =
                rw (own, live) at h in
              let same : j ≡ job =
                ok-inj (ap (λ (p : Result (ProgramJob V) × Registry V). p.0) h1) in
              record {
                kept = ap (λ (p : Result (ProgramJob V) × Registry V). p.1) (sym h1);
                found = f ∙ ap some same;
                owner = ap (λ (x : ProgramJob V). text_eq x.principal principal) (sym same) ∙ own;
                live = ap (λ (x : ProgramJob V). leb x.expires_at now) (sym same) ∙ live;
              }
          | inr other ↦ refused _ (rw (other, live) at h)
        ]
      ]

  change-held :
      (job_id : Text) (f : ProgramJob V → ProgramJob V) (s : Registry V) (job : ProgramJob V)
      → lookup job_id s.jobs ≡ some job
      → change job_id f s ≡ (ok tt, record s { jobs = insert job_id (f job) s.jobs })
  unfolding change
  change-held job_id f s job h = rw h refl

  awaited-eq-ended_job :
      (end : Option (RunEnd V)) (job : ProgramJob V)
      → awaited end (mark_cancelled job) ≡ ended_job end job
  unfolding run_ends
  awaited-eq-ended_job none job = refl
  awaited-eq-ended_job (some (returned v)) job = refl
  awaited-eq-ended_job (some (raised e)) job = refl
  awaited-eq-ended_job (some crashed) job = refl
  awaited-eq-ended_job (some stopped_early) job = refl

  ended_job-status :
      (end : Option (RunEnd V)) (job : ProgramJob V)
      → ((status_of (ended_job end job)).status ≡ final_state end)
        × ((status_of (ended_job end job)).result_available ≡ true)
  unfolding run_ends status_of
  ended_job-status none job = (refl, refl)
  ended_job-status (some (returned v)) job = (refl, refl)
  ended_job-status (some (raised e)) job = (refl, refl)
  ended_job-status (some crashed) job = (refl, refl)
  ended_job-status (some stopped_early) job = (refl, refl)

  -- The registry whose job has been stopped.
  abbrev stopped_registry : Text → Option (RunEnd V) → ProgramJob V → Registry V → Registry V
  stopped_registry job_id end job s = record {
    jobs =
        insert job_id (awaited end (mark_cancelled job))
          (insert job_id (mark_cancelled job) s.jobs);
    stopped = job_id ∷ s.stopped;
  }

  lookup-stopped :
      (job_id k : Text) (end : Option (RunEnd V)) (job : ProgramJob V) (s : Registry V)
      → lookup k (stopped_registry job_id end job s).jobs
        ≡ (if text_eq job_id k then some (ended_job end job) else lookup k s.jobs)
  lookup-stopped job_id k end job s =
      rw (lookup-insert, lookup-insert, awaited-eq-ended_job end job) (ground arith)

  stopped-HasEnded :
      (job_id principal : Text) (later : ℕ) (end : Option (RunEnd V)) (job : ProgramJob V)
      (s : Registry V) (st : Status) (s' : Registry V)
      → status job_id principal later (stopped_registry job_id end job s) ≡ (ok st, s')
      → HasEnded true job_id end job s st s'
  unfolding status
  stopped-HasEnded job_id principal later end job s st s' e =
      let s3 = stopped_registry job_id end job s in
      let (j, s4, e1, r) =
        continue-eq-ok (owned_job job_id principal later) (λ job. pure (status_of job)) s3 e in
      let own = owned_job-IsOwned job_id principal later s3 j s4 e1 in
      let is_s : s' ≡ s3 = ap (λ (p : Result Status × Registry V). p.1) (sym r) ∙ own.kept in
      let is_j : ended_job end job ≡ j =
        some-inj (sym (rw text_eq_refl at (lookup-stopped job_id job_id end job s)) ∙ own.found) in
      let told : st ≡ status_of (ended_job end job) =
        sym (ok-inj (ap (λ (p : Result Status × Registry V). p.0) r)) ∙ ap status_of (sym is_j) in
      let (state, available) = ended_job-status end job in
      (
        ap (λ (x : Registry V). x.stopped) is_s,
        ap (λ (x : Status). x.status) told ∙ state,
        ap (λ (x : Status). x.result_available) told ∙ available,
        λ k. ap (λ (x : Registry V). lookup k x.jobs) is_s ∙ lookup-stopped job_id k end job s,
      )

  stop_pending-HasEnded :
      (job_id principal : Text) (later : ℕ) (end : Option (RunEnd V)) (job : ProgramJob V)
      (s : Registry V) (st : Status) (s' : Registry V)
      → lookup job_id s.jobs ≡ some job
      → stop_pending job_id principal later end job s ≡ (ok st, s')
      → HasEnded (is_pending job.task_done) job_id end job s st s'
  stop_pending-HasEnded job_id principal later end job s st s' f e =
      elim (Bool-cases (is_pending job.task_done)) [
        | inl busy ↦
            let s1 : Registry V = record s { stopped = job_id ∷ s.stopped } in
            let s2 : Registry V = record s1 { jobs = insert job_id (mark_cancelled job) s.jobs } in
            let held : lookup job_id s2.jobs ≡ some (mark_cancelled job) =
              rw text_eq_refl at (lookup-insert job_id job_id (mark_cancelled job) s.jobs) in
            rw busy (
              stopped-HasEnded job_id principal later end job s st s' (
                rw
                  (
                    busy,
                    change-held job_id mark_cancelled s1 job f,
                    change-held job_id (awaited end) s2 (mark_cancelled job) held,
                  )
                  at e))
        | inr idle ↦
            let h : ◌≡◌ {A = Result Status × Registry V} (ok (status_of job), s) (ok st, s') =
              rw idle at e in
            rw idle (
              ap (λ (p : Result Status × Registry V). p.1) (sym h),
              sym (ok-inj (ap (λ (p : Result Status × Registry V). p.0) h)),
            )
      ]

  -- A cancellation that returns was asked for by the owner of an unexpired job. When the task of the
  -- job was pending, it was asked to stop, the job holds how its task ended, cancelled if it had not
  -- begun, the answer tells this final state, and no other job has changed; otherwise nothing was
  -- changed and the answer is the status of the job.
  pub cancel-IsEnded :
      (job_id principal : Text) (now later : ℕ) (end : Option (RunEnd V)) (s : Registry V)
      (st : Status) (s' : Registry V)
      → cancel job_id principal now later end s ≡ (ok st, s')
      → IsEnded job_id principal now end s st s'
  unfolding cancel
  cancel-IsEnded job_id principal now later end s st s' e =
      let (job, s1, e1, r) =
        continue-eq-ok (owned_job job_id principal now) (stop_pending job_id principal later end) s
          e in
      let own = owned_job-IsOwned job_id principal now s job s1 e1 in
      record {
        job = job;
        found = own.found;
        owner = (text_eq_iff job.principal principal).0 own.owner;
        live = let live = own.live in ground arith;
        outcome =
            stop_pending-HasEnded job_id principal later end job s st s' own.found
              (ap (stop_pending job_id principal later end job) (sym own.kept) ∙ r);
      }
