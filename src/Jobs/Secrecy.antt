-- ===== src/Jobs/Secrecy.antt =====
-- A caller learns nothing of another's job, and cannot stop it.
use mikrus_mcp.Prelude.{
  inr, inl, refl, Bool-cases, leb, if◌then◌else◌, Option, false, text_eq, ℕ, ◌≡◌, Text, some,
}
use mikrus_mcp.Errors.{app_error, err, not_found}
use mikrus_mcp.Dict.{erase, lookup}
use mikrus_mcp.Jobs.Registry.{
  Registry, ProgramJob, RunEnd, status, result, cancel, owned_job, target_binding,
}

module _ {V : Type 0} (job_id principal : Text) (now : ℕ) (r : Registry V) (job : ProgramJob V)
    (found : lookup job_id r.jobs ≡ some job)
    (other : text_eq job.principal principal ≡ false) where
  -- What the registry is afterwards: without the job when that had expired, and as it was otherwise.
  abbrev pub after_stranger : Registry V
  after_stranger = if leb job.expires_at now then record r { jobs = erase job_id r.jobs } else r

  owned_job-stranger :
      owned_job job_id principal now r ≡ (err (app_error not_found), after_stranger)
  unfolding owned_job
  owned_job-stranger = elim (Bool-cases (leb job.expires_at now)) [
    | inl late ↦ rw (found, other, late) refl
    | inr live ↦ rw (found, other, live) refl
  ]

  -- Whoever asks for another principal's job, by its status, its target, its result or to cancel it,
  -- is told that there is no such job, and nothing is changed but that an expired job goes.
  pub stranger-refused :
      (later : ℕ) (end : Option (RunEnd V))
      → (status job_id principal now r ≡ (err (app_error not_found), after_stranger))
        × (target_binding job_id principal now r ≡ (err (app_error not_found), after_stranger))
        × (result job_id principal now r ≡ (err (app_error not_found), after_stranger))
        × (cancel job_id principal now later end r ≡ (err (app_error not_found), after_stranger))
  unfolding status target_binding result cancel
  stranger-refused later end = (
    rw (owned_job-stranger, owned_job) refl,
    rw (owned_job-stranger, owned_job) refl,
    rw (owned_job-stranger, owned_job) refl,
    rw (owned_job-stranger, owned_job) refl,
  )
