-- ===== src/Manifests/Checked.antt =====
-- What a manifest is that has passed the checks.
use mikrus_mcp.Results.{>>=-eq-ok}
use mikrus_mcp.Prelude.{◌≤◌, ◌≡◌, List, [], ◌∷◌, All, arith, true, false, Text}
use mikrus_mcp.Errors.{ok}
use mikrus_mcp.Manifests.Record.{
  CapabilityManifest, is_read, is_unscoped, is_nonempty, check_manifest, check_manifests,
  validate_manifests,
}

-- A manifest that is consistent: mutations are never retried, reads need no approval, and what may
-- run at the same time takes no lock.
pub record IsConsistent (m : CapabilityManifest) : Type 0 where
  pub timed : 1 ≤ m.timeout_ms
  pub retries_idempotent : m.retryable ≡ true → m.idempotent ≡ true
  pub mutation : is_read m.side_effects ≡ false → m.retryable ≡ false
  pub approved : m.requires_approval ≡ true → is_read m.side_effects ≡ false
  pub conditions : is_nonempty m.retry_conditions ≡ m.retryable
  pub concurrency : m.concurrent_safe ≡ is_unscoped m.concurrency_scope

pub check_manifest-IsConsistent :
    (m : CapabilityManifest) → check_manifest m ≡ ok tt → IsConsistent m
unfolding check_manifest
check_manifest-IsConsistent m h = record {
  timed = ground arith;
  retries_idempotent = λ r. ground arith;
  mutation = λ r. ground arith;
  approved = λ r. ground arith;
  conditions = ground arith;
  concurrency = ground arith;
}

check_manifests-IsConsistent :
    (ms : List CapabilityManifest) → check_manifests ms ≡ ok tt → All IsConsistent ms
unfolding check_manifests
check_manifests-IsConsistent [] h = tt
check_manifests-IsConsistent (m ∷ ms) h =
    let (_, first, rest) = >>=-eq-ok (check_manifest m) (λ _. check_manifests ms) h in
    (check_manifest-IsConsistent m first, check_manifests-IsConsistent ms rest)

-- When `validate_manifests` returns, every manifest is consistent.
pub validate_manifests-IsConsistent :
    (registered expected : List Text) (ms : List CapabilityManifest)
    → validate_manifests registered expected ms ≡ ok tt
    → All IsConsistent ms
unfolding validate_manifests
validate_manifests-IsConsistent registered expected ms h =
    check_manifests-IsConsistent ms (ground arith)
