-- ===== src/RemoteJobs/History.antt =====
-- Whatever is called, in whatever order: a job that has ended stays as it ended.
use mikrus_mcp.Results.{or_raise}
use mikrus_mcp.Prelude.{
  length-append, leb, find_first, Option-cases, inl, inr, Bool-cases, ℕ, Text, ◌≡◌, Bool, List, [],
  ◌∷◌, ◌++◌, arith, length,
}
use mikrus_mcp.Errors.{not_found, app_error, ok}
use mikrus_mcp.Exec.{◌>>=◌, Exec}
use mikrus_mcp.Json.{JsonLib, IsLossless}
use mikrus_mcp.RemoteJobs.Record.{RemoteJobRecord, JobRequest, create, RemoteJobState}
use mikrus_mcp.RemoteJobs.Store.{same_key, Store, load, insert_or_existing}
use mikrus_mcp.RemoteJobs.Registry.{
  owned_by, reuse, remote_job_retention_seconds, expire_body, update_owned, Clock, Outcome,
  expire_older_than, prune_on_read, create_or_reuse, get, update, reconcile_observed_state,
  apply_update, apply_observation,
}
use mikrus_mcp.RemoteJobs.Lifecycle.{
  Evolves-refl, Extends, Extends-refl, Extends-trans, update_owned-Extends, apply_update-Evolves,
  apply_observation-Evolves, expire_all_total,
}
use mikrus_mcp.RemoteJobs.Stored.{
  Extends-cuts, load_disk-written, cuts, stored, KeepsHistory, KeepsHistory-bind,
  transaction-KeepsHistory,
}

Extends-append : (xs ys : List RemoteJobRecord) → Extends xs (xs ++ ys)
Extends-append [] ys = tt
Extends-append (x ∷ xs) ys = (Evolves-refl x, Extends-append xs ys)

module _ {C : Type 0} (json : JsonLib C) (lib : IsLossless json) where
  pub update-KeepsHistory :
      (job_id principal : Text) (state : RemoteJobState) (now : Text) (o : Outcome)
      → KeepsHistory json lib (update json job_id principal state now o)
  unfolding update
  update-KeepsHistory job_id principal state now o =
      transaction-KeepsHistory json lib (update_owned job_id principal (apply_update state now o))
        (λ rs a rs' e.
          update_owned-Extends job_id principal (apply_update state now o)
            (apply_update-Evolves state now o) rs rs' a e)

  pub reconcile-KeepsHistory :
      (principal server_id job_id : Text) (observed : RemoteJobState) (now : Text)
      → KeepsHistory json lib
          (reconcile_observed_state json principal server_id job_id observed now)
  unfolding reconcile_observed_state
  reconcile-KeepsHistory principal server_id job_id observed now =
      transaction-KeepsHistory json lib
        (update_owned job_id principal (apply_observation server_id observed now))
        (λ rs a rs' e.
          update_owned-Extends job_id principal (apply_observation server_id observed now)
            (apply_observation-Evolves server_id observed now) rs rs' a e)

  expire_body-Extends :
      (clock : Clock) (max_age : ℕ) (rs : List RemoteJobRecord) (a : ℕ) (rs' : List RemoteJobRecord)
      → expire_body clock max_age rs ≡ ok (a, rs')
      → Extends rs rs' × (length rs' ≡ length rs)
  expire_body-Extends clock max_age rs a rs' e =
      let (rs1, t, x, n) = expire_all_total clock max_age rs in ground (arith, x, n, t)

  pub expire_older_than-KeepsHistory :
      (clock : Clock) (max_age : ℕ) → KeepsHistory json lib (expire_older_than json clock max_age)
  unfolding expire_older_than
  expire_older_than-KeepsHistory clock max_age =
      transaction-KeepsHistory json lib (expire_body clock max_age)
        (expire_body-Extends clock max_age)

  insert_or_existing-KeepsHistory :
      (r : RemoteJobRecord) → KeepsHistory json lib (insert_or_existing json r)
  unfolding insert_or_existing
  insert_or_existing-KeepsHistory r s rs h =
      let key = same_key r.principal r.server_id r.idempotency_key in
      elim (Bool-cases s.lockable) [
        | inr locked ↦ (rs, rw locked h, Extends-refl rs)
        | inl free ↦ elim (Option-cases (find_first key rs)) [
          | inr (x, e) ↦ (rs, rw (free, h, e) h, Extends-refl rs)
          | inl new ↦ elim (Bool-cases (leb s.max_records (length rs))) [
            | inl full ↦ (rs, rw (free, h, new, full) h, Extends-refl rs)
            | inr room ↦ elim (Bool-cases s.writable) [
              | inr stuck ↦ (rs, rw (free, h, new, room, stuck) h, Extends-refl rs)
              | inl writes ↦ (
                cuts (rs ++ r ∷ []),
                rw (free, h, new, room, writes)
                    (load_disk-written json lib (rs ++ r ∷ []) s.max_records
                      (ground (arith, length-append rs (r ∷ [])))),
                Extends-trans rs (rs ++ r ∷ []) (cuts (rs ++ r ∷ [])) (Extends-append rs (r ∷ []))
                    (Extends-cuts (rs ++ r ∷ [])),
              )
            ]
          ]
        ]
      ]

  pub prune-KeepsHistory : (clock : Clock) → KeepsHistory json lib (prune_on_read json clock)
  unfolding prune_on_read
  prune-KeepsHistory clock = expire_older_than-KeepsHistory clock remote_job_retention_seconds

  pub create_or_reuse-KeepsHistory :
      (clock : Clock) (job_id : Text) (q : JobRequest) (now : Text)
      → KeepsHistory json lib (create_or_reuse json clock job_id q now)
  unfolding create_or_reuse
  create_or_reuse-KeepsHistory clock job_id q now =
      let c = create job_id q now in
      let last : RemoteJobRecord → Exec (Store C) (RemoteJobRecord × Bool) =
        λ e s. (reuse q c e, s) in
      KeepsHistory-bind json lib (prune_on_read json clock)
        (λ _. insert_or_existing json c >>= last) (prune-KeepsHistory clock)
        (λ _.
          KeepsHistory-bind json lib (insert_or_existing json c) last
            (insert_or_existing-KeepsHistory c) (λ e s rs h. (rs, h, Extends-refl rs)))

  load-KeepsHistory : KeepsHistory json lib (load json)
  unfolding load
  load-KeepsHistory s rs h = elim (Bool-cases s.lockable) [
    | inr locked ↦ (rs, rw locked h, Extends-refl rs)
    | inl free ↦ (rs, rw free h, Extends-refl rs)
  ]

  pub get-KeepsHistory :
      (clock : Clock) (job_id principal : Text)
      → KeepsHistory json lib (get json clock job_id principal)
  unfolding get
  get-KeepsHistory clock job_id principal =
      let last : List RemoteJobRecord → Exec (Store C) RemoteJobRecord =
        λ rs s. (or_raise (find_first (owned_by job_id principal) rs) (app_error not_found), s) in
      KeepsHistory-bind json lib (prune_on_read json clock) (λ _. load json >>= last)
        (prune-KeepsHistory clock)
        (λ _.
          KeepsHistory-bind json lib (load json) last load-KeepsHistory
            (λ e s rs h. (rs, h, Extends-refl rs)))

  -- One call of the registry, by anybody, however it ends.
  pub data Step : Store C → Store C → Type 0 where
    created :
        (s : Store C) (clock : Clock) (job_id : Text) (q : JobRequest) (now : Text)
        → Step s (create_or_reuse json clock job_id q now s).1
    got :
        (s : Store C) (clock : Clock) (job_id principal : Text)
        → Step s (get json clock job_id principal s).1
    updated :
        (s : Store C) (job_id principal : Text) (state : RemoteJobState) (now : Text) (o : Outcome)
        → Step s (update json job_id principal state now o s).1
    reconciled :
        (s : Store C) (principal server_id job_id : Text) (observed : RemoteJobState) (now : Text)
        → Step s (reconcile_observed_state json principal server_id job_id observed now s).1
    pruned :
        (s : Store C) (clock : Clock) (max_age : ℕ)
        → Step s (expire_older_than json clock max_age s).1

  pub data Reach (s : Store C) : Store C → Type 0 where
    here : Reach s s
    next : {t u : Store C} → Reach s t → Step t u → Reach s u

  Step-Extends :
      {s s' : Store C} (rs : List RemoteJobRecord)
      → Step s s'
      → stored json s ≡ ok rs
      → (rs' : List RemoteJobRecord) × (stored json s' ≡ ok rs') × Extends rs rs'
  Step-Extends rs (created s clock job_id q now) h =
      create_or_reuse-KeepsHistory clock job_id q now s rs h
  Step-Extends rs (got s clock job_id principal) h = get-KeepsHistory clock job_id principal s rs h
  Step-Extends rs (updated s job_id principal state now o) h =
      update-KeepsHistory job_id principal state now o s rs h
  Step-Extends rs (reconciled s principal server_id job_id observed now) h =
      reconcile-KeepsHistory principal server_id job_id observed now s rs h
  Step-Extends rs (pruned s clock max_age) h = expire_older_than-KeepsHistory clock max_age s rs h

  -- Whatever the registry is asked, in any order and whether the calls succeed: a readable store
  -- stays readable, and each of its records is still at its place, with its identity, in the
  -- terminal state that it had reached, and not queued again.
  pub Reach-Extends :
      {s s' : Store C} (rs : List RemoteJobRecord)
      → Reach s s'
      → stored json s ≡ ok rs
      → (rs' : List RemoteJobRecord) × (stored json s' ≡ ok rs') × Extends rs rs'
  Reach-Extends rs here h = (rs, h, Extends-refl rs)
  Reach-Extends rs (next r st) h =
      let (rs1, h1, x1) = Reach-Extends rs r h in
      let (rs2, h2, x2) = Step-Extends rs1 st h1 in (rs2, h2, Extends-trans rs rs1 rs2 x1 x2)
