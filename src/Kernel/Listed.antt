-- ===== src/Kernel/Listed.antt =====
-- kernel.py over the table of manifests.py: what stands behind every mutation of the program.
use mikrus_mcp.Manifests.Listed.{manifests-IsListed}
use mikrus_mcp.Kernel.Approved.{invoke-Approved, Approved}
use mikrus_mcp.Kernel.Outcome.{mutation-Told, Told}
use mikrus_mcp.Kernel.Invoke.{invoke}
use mikrus_mcp.Approvals.Capacity.{IsValid}
use mikrus_mcp.Manifests.Table.{manifests}
use mikrus_mcp.Dict.{lookup}
use mikrus_mcp.Manifests.Record.{is_read, CapabilityManifest}
use mikrus_mcp.Policy.Scopes.{CallerContext}
use mikrus_mcp.Kernel.State.{Kernel, World, Settings, Catalog}
use mikrus_mcp.Json.{Fields, JsonLib}
use mikrus_mcp.Prelude.{◌∙◌, ◌≢◌, false, some, Option, Text, ℕ, ◌≡◌}

module _ {C V : Type 0} (json : JsonLib C) (uid : ℕ) (catalog : Catalog V) (settings : Settings)
    (world : World C V) (caller : CallerContext) where
  -- When the catalog is the table of the program, an invocation of any mutation that it lists calls
  -- no adapter, or exactly one. Then the client is told what the call brought, and one live approval
  -- was taken that is bound to the caller, the capability of this name, the digest of the validated
  -- arguments, the resource that they name, and the identity of the target, if the capability needs
  -- one, from those that the reload behind the lock found, the registry being well formed and kept
  -- so by others.
  pub mutation-Approved :
      (version name : Text) (arguments : Fields) (deadline_ms : Option ℕ) (k : Kernel C V)
      (m : CapabilityManifest)
      → ((n : Text) → catalog.manifest_of n ≡ lookup n (manifests version))
      → lookup name (manifests version) ≡ some m
      → is_read m.side_effects ≡ false
      → IsValid k.approvals
      → ((k : Kernel C V) → IsValid k.approvals → IsValid (world.meanwhile k).approvals)
      → (invoke json uid catalog settings world caller name arguments deadline_ms k).1.calls ≢ 0
      → ((invoke json uid catalog settings world caller name arguments deadline_ms k).1.calls ≡ 1)
        × (m.name ≡ name)
        × Told json uid catalog settings world caller m
            (world.attempts 0).outcome
            (invoke json uid catalog settings world caller name arguments deadline_ms k).0
        × Approved json uid catalog settings world caller name arguments deadline_ms m k
            (invoke json uid catalog settings world caller name arguments deadline_ms k).1.kernel
  mutation-Approved version name arguments deadline_ms k m table known w v others called =
      let listed = manifests-IsListed version name m known in
      let held = table name ∙ known in
      let (once, told) =
        mutation-Told json uid catalog settings world caller name arguments deadline_ms k m held
          listed.consistent w called in
      (
        once,
        listed.named,
        told,
        invoke-Approved json uid catalog settings world caller name arguments deadline_ms k m held
            (listed.approved w) v others called,
      )
