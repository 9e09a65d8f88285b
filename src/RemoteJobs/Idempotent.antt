-- ===== src/RemoteJobs/Idempotent.antt =====
-- An idempotency key stays bound to one job and one request.
use mikrus_mcp.Prelude.{
  ◌∙◌, text_eq_iff, ap, ◌<◌, length-append, Option-cases, inr, inl, Bool-cases, text_eq_refl,
  find_first, Text, ◌≡◌, ◌≢◌, refl, Bool, true, List, [], ◌∷◌, ◌++◌, arith, length, some, none,
}
use mikrus_mcp.Errors.{Result, ok}
use mikrus_mcp.Exec.{◌>>=◌, Exec, continue-eq-ok}
use mikrus_mcp.Json.{arr, JsonLib, IsLossless}
use mikrus_mcp.RemoteJobs.Record.{RemoteJobRecord, JobRequest, create}
use mikrus_mcp.RemoteJobs.Store.{encode_records, regular, Store, same_key, insert_or_existing}
use mikrus_mcp.RemoteJobs.Registry.{Clock, create_or_reuse, reuse, prune_on_read}
use mikrus_mcp.RemoteJobs.Lifecycle.{Extends-trans, Extends, Evolves, Evolves-refl}
use mikrus_mcp.RemoteJobs.Stored.{Extends-cuts, stored, cuts, load_disk-written}
use mikrus_mcp.RemoteJobs.History.{Reach, Reach-Extends, prune-KeepsHistory}

module _ (p i k : Text) where
  same_key-Evolves : (r r' : RemoteJobRecord) → Evolves r r' → same_key p i k r' ≡ same_key p i k r
  same_key-Evolves r r' e = rw (e.principal, e.server_id, e.idempotency_key) refl

  -- The record of a key is found again when the records have evolved.
  find_first-Extends :
      (rs rs' : List RemoteJobRecord) (x : RemoteJobRecord)
      → find_first (same_key p i k) rs ≡ some x
      → Extends rs rs'
      → (y : RemoteJobRecord) × (find_first (same_key p i k) rs' ≡ some y) × Evolves x y
  find_first-Extends [] rs' x f h = cc
  find_first-Extends (r ∷ rs) [] x f h = absurd h
  find_first-Extends (r ∷ rs) (r' ∷ rs') x f h = elim (Bool-cases (same_key p i k r)) [
    | inl same ↦ (r', rw (same_key-Evolves r r' h.0, same) refl, ground (arith, h.0))
    | inr other ↦
        let (y, g, e) = find_first-Extends rs rs' x (rw other at f) h.1 in
        (y, rw (same_key-Evolves r r' h.0, other) g, e)
  ]

  find_first-append :
      (rs : List RemoteJobRecord) (r : RemoteJobRecord)
      → find_first (same_key p i k) rs ≡ none
      → same_key p i k r ≡ true
      → find_first (same_key p i k) (rs ++ r ∷ []) ≡ some r
  find_first-append [] r f h = rw h refl
  find_first-append (x ∷ rs) r f h = ground (arith, find_first-append rs r)

reuse_returns :
    (q : JobRequest) (candidate x0 x : RemoteJobRecord) (b : Bool)
    → reuse q candidate x0 ≡ ok (x, b)
    → x0 ≡ x
reuse_returns q candidate x0 x b e = ground arith

reuse_same :
    {S : Type 0} (q : JobRequest) (candidate x0 x : RemoteJobRecord) (b : Bool) (s s1 : S)
    → ◌≡◌ {A = Result (RemoteJobRecord × Bool) × S} (reuse q candidate x0, s) (ok (x, b), s1)
    → (x0 ≡ x) × (s ≡ s1) × (reuse q candidate x ≡ ok (x, b))
reuse_same q candidate x0 x b s s1 e =
    let returned : reuse q candidate x0 ≡ ok (x, b) = ap (λ p. p.0) e in
    let same = reuse_returns q candidate x0 x b returned in
    (same, ap (λ p. p.1) e, rw same at returned)

reuse_fresh :
    (q : JobRequest) (candidate x : RemoteJobRecord) (b : Bool)
    → reuse q candidate x ≡ ok (x, b)
    → candidate.job_id ≢ x.job_id
    → (b ≡ true) × (q.request_digest ≡ x.request_digest) × (q.target_identity ≡ x.target_identity)
reuse_fresh q candidate x b e fresh = ground (
  arith,
  text_eq_iff x.job_id candidate.job_id,
  text_eq_iff x.request_digest q.request_digest,
  text_eq_iff x.target_identity q.target_identity,
)

key_of : RemoteJobRecord → RemoteJobRecord → Bool
key_of r = same_key r.principal r.server_id r.idempotency_key

key_of_self : (r : RemoteJobRecord) → key_of r r ≡ true
unfolding key_of
key_of_self r = simp text_eq_refl

key_of-create :
    (id : Text) (q : JobRequest) (now : Text)
    → key_of (create id q now) ≡ same_key q.principal q.server_id q.idempotency_key
unfolding key_of create
key_of-create id q now = refl

create-job_id : (id : Text) (q : JobRequest) (now : Text) → id ≡ (create id q now).job_id
unfolding create
create-job_id id q now = refl

module _ {C : Type 0} (json : JsonLib C) where
  insert_existing :
      (r y z : RemoteJobRecord) (s s' : Store C) (rs : List RemoteJobRecord)
      → stored json s ≡ ok rs
      → find_first (key_of r) rs ≡ some z
      → insert_or_existing json r s ≡ (ok y, s')
      → (y ≡ z) × (s' ≡ s)
  unfolding insert_or_existing key_of
  insert_existing r y z s s' rs h f e = elim (Bool-cases s.lockable) [
    | inr locked ↦ let bad = rw locked at e in cc
    | inl free ↦ let got = rw (free, h, f) at e in ground arith
  ]

  insert_new :
      (r y : RemoteJobRecord) (s s' : Store C) (rs : List RemoteJobRecord)
      → stored json s ≡ ok rs
      → find_first (key_of r) rs ≡ none
      → insert_or_existing json r s ≡ (ok y, s')
      → (y ≡ r)
        × (s'.disk ≡ regular (json.dumps (arr (encode_records (rs ++ r ∷ [])))))
        × (s'.max_records ≡ s.max_records)
        × (length rs < s.max_records)
  unfolding insert_or_existing key_of
  insert_new r y s s' rs h f e = elim (Bool-cases s.lockable) [
    | inr locked ↦ let bad = rw locked at e in cc
    | inl free ↦ let got = rw (free, h, f) at e in ground arith
  ]

  module _ (lib : IsLossless json) where
    -- After a call that returned, the file has the returned job under the key.
    insert_or_existing-found :
        (r x : RemoteJobRecord) (s s1 : Store C) (rs : List RemoteJobRecord)
        → stored json s ≡ ok rs
        → insert_or_existing json r s ≡ (ok x, s1)
        → (rs1 : List RemoteJobRecord) × (z : RemoteJobRecord) × (stored json s1 ≡ ok rs1)
          × (find_first (key_of r) rs1 ≡ some z)
          × Evolves x z
    unfolding key_of
    insert_or_existing-found r x s s1 rs h e = elim (Option-cases (find_first (key_of r) rs)) [
      | inr (z, f) ↦
          let (same, kept) = insert_existing r x z s s1 rs h f e in
          (rs, z, rw kept h, f, rw same (Evolves-refl z))
      | inl new ↦
          let (same, disk, cap, room) = insert_new r x s s1 rs h new e in
          let all = rs ++ r ∷ [] in
          let (z, f, v) =
            find_first-Extends r.principal r.server_id r.idempotency_key all (cuts all) r
              (find_first-append r.principal r.server_id r.idempotency_key rs r new (key_of_self r))
              (Extends-cuts all) in
          (
            cuts all,
            z,
            rw (disk, cap)
                (load_disk-written json lib all s.max_records
                  (omega (arith, length-append rs (r ∷ [])))),
            f,
            rw same v,
          )
    ]

    abbrev finish :
        Text → JobRequest → Text → RemoteJobRecord → Exec (Store C) (RemoteJobRecord × Bool)
    finish id q now existing t = (reuse q (create id q now) existing, t)

    -- A call that returned: what the insertion returned, on the pruned store.
    create_or_reuse-parts :
        (s s1 : Store C) (rs : List RemoteJobRecord) (clock : Clock) (id now : Text)
        (q : JobRequest) (x : RemoteJobRecord) (b : Bool)
        → stored json s ≡ ok rs
        → create_or_reuse json clock id q now s ≡ (ok (x, b), s1)
        → (s0 : Store C) × (rs0 : List RemoteJobRecord) × (stored json s0 ≡ ok rs0)
          × Extends rs rs0
          × (insert_or_existing json (create id q now) s0 ≡ (ok x, s1))
          × (reuse q (create id q now) x ≡ ok (x, b))
    unfolding create_or_reuse
    create_or_reuse-parts s s1 rs clock id now q x b h e =
        let insert = insert_or_existing json (create id q now) in
        let (n, s0, pruned, rest) =
          continue-eq-ok (prune_on_read json clock) (λ _. insert >>= finish id q now) s e in
        let (x0, s3, inserted, last) = continue-eq-ok insert (finish id q now) s0 rest in
        let (rs0, h0, v) = prune-KeepsHistory json lib clock s rs h in
        let (same, end, done) = reuse_same q (create id q now) x0 x b s3 s1 last in
        (s0, rs0, rw pruned at h0, v, rw (same, end) at inserted, done)

    -- Once a job has been accepted under a key, every later call with the key, whatever happened
    -- in between, either raises or returns that job, as reused; and it returns only if it asks for
    -- the same request on the same target. The later call's fresh job id is not the job's.
    pub idempotency_key_binds :
        (s s1 s' s2 : Store C) (rs : List RemoteJobRecord) (clock clock2 : Clock)
        (id id2 now now2 : Text) (q q2 : JobRequest) (x y : RemoteJobRecord) (b b2 : Bool)
        → stored json s ≡ ok rs
        → create_or_reuse json clock id q now s ≡ (ok (x, b), s1)
        → Reach json lib s1 s'
        → q2.principal ≡ q.principal
        → q2.server_id ≡ q.server_id
        → q2.idempotency_key ≡ q.idempotency_key
        → id2 ≢ x.job_id
        → create_or_reuse json clock2 id2 q2 now2 s' ≡ (ok (y, b2), s2)
        → (y.job_id ≡ x.job_id)
          × (b2 ≡ true)
          × (q2.request_digest ≡ x.request_digest)
          × (q2.target_identity ≡ x.target_identity)
    idempotency_key_binds s s1 s' s2 rs clock clock2 id id2 now now2 q q2 x y b b2 h first r kp ks
          kk fresh again =
        let (s0, rs0, h0, _, ins, _) = create_or_reuse-parts s s1 rs clock id now q x b h first in
        let (rs1, z, h1, f1, v1) = insert_or_existing-found (create id q now) x s0 s1 rs0 h0 ins in
        let (rs2, h2, v2) = Reach-Extends json lib rs1 r h1 in
        let (s3, rs3, h3, v3, ins2, re2) =
          create_or_reuse-parts s' s2 rs2 clock2 id2 now2 q2 y b2 h2 again in
        let (w, f3, v4) =
          find_first-Extends q.principal q.server_id q.idempotency_key rs1 rs3 z
            (rw (key_of-create id q now) at f1) (Extends-trans rs1 rs2 rs3 v2 v3) in
        let same =
          (insert_existing (create id2 q2 now2) y w s3 s2 rs3 h3
            (rw (key_of-create id2 q2 now2, kp, ks, kk) f3) ins2).0 in
        let id_same = ap (λ (t : RemoteJobRecord). t.job_id) same ∙ (v4.job_id ∙ v1.job_id) in
        let digest_same =
          ap (λ (t : RemoteJobRecord). t.request_digest) same
          ∙ (v4.request_digest ∙ v1.request_digest) in
        let target_same =
          ap (λ (t : RemoteJobRecord). t.target_identity) same
          ∙ (v4.target_identity ∙ v1.target_identity) in
        let (reused, d, t) =
          reuse_fresh q2 (create id2 q2 now2) y b2 re2
            (λ clash. fresh (create-job_id id2 q2 now2 ∙ (clash ∙ id_same))) in
        (id_same, reused, d ∙ digest_same, t ∙ target_same)
