-- ===== src/Kernel/Began.antt =====
-- kernel.py: what stands behind an invocation that has called an adapter.
use mikrus_mcp.Policy.Scopes.{CallerContext}
use mikrus_mcp.Json.{Fields, JsonLib}
use mikrus_mcp.Prelude.{◌≢◌, refl, Option, ℕ, ◌≡◌, Text, false}
use mikrus_mcp.Errors.{Result, ok, err}
use mikrus_mcp.Exec.{continue}
use mikrus_mcp.Kernel.Admitted.{IsAdmitted, admit-IsAdmitted}
use mikrus_mcp.Kernel.State.{Response, set_kernel, Kernel, Progress, Settings, World, Catalog}
use mikrus_mcp.Kernel.Admission.{Admitted, admit}
use mikrus_mcp.Kernel.Invoke.{
  execute_once_locked, begin, perform, lock_and_perform, run, ready, wait_for_lock, answer,
}

module _ {C V : Type 0} (json : JsonLib C) (uid : ℕ) (catalog : Catalog V) (settings : Settings)
    (world : World C V) (caller : CallerContext) where
  -- Before an adapter was called, the call was admitted, it had its lock, and it was ready.
  pub record Began (name : Text) (arguments : Fields) (deadline_ms : Option ℕ) (k : Kernel C V)
      (a : Admitted) (k1 k2 k' : Kernel C V) : Type 0 where
    pub entered :
        admit json uid catalog settings world caller name arguments deadline_ms k ≡ (ok a, k1)
    pub admitted : IsAdmitted json uid catalog settings world caller name arguments a k k1
    pub locked : wait_for_lock json uid catalog settings world caller a.key k1 ≡ (ok tt, k2)
    pub readied : ready json uid catalog settings world caller a k2 ≡ (ok tt, k')

  module _ (name : Text) (arguments : Fields) (k : Kernel C V) where
    abbrev pub Start : Kernel C V → Progress C V
    Start k = record { kernel = k; calls = 0; mutation_started = false }

    -- The end of a call that has begun.
    abbrev pub ending : Admitted → Kernel C V → Result (Response V) × Progress C V
    ending a k3 =
        continue (begin json uid catalog settings world caller a.manifest (Start k3))
          (answer json uid catalog settings world caller a)

    abbrev pub Happened : Option ℕ → Result (Response V) × Progress C V → Type 0
    Happened deadline_ms x =
        x.1.calls ≢ 0
        → (a : Admitted) × (k1 : Kernel C V) × (k2 : Kernel C V) × (k3 : Kernel C V) × Began name
            arguments deadline_ms k a k1 k2 k3
          × (x ≡ ending a k3)

    ready-Happened :
        (deadline_ms : Option ℕ) (a : Admitted) (k1 k2 : Kernel C V)
        (r : Result (Unit {0}) × Kernel C V)
        → admit json uid catalog settings world caller name arguments deadline_ms k ≡ (ok a, k1)
        → IsAdmitted json uid catalog settings world caller name arguments a k k1
        → wait_for_lock json uid catalog settings world caller a.key k1 ≡ (ok tt, k2)
        → ready json uid catalog settings world caller a k2 ≡ r
        → Happened deadline_ms (
            continue
              (continue
                (set_kernel (Start k2) r)
                (λ _. begin json uid catalog settings world caller a.manifest))
              (answer json uid catalog settings world caller a))
    ready-Happened deadline_ms a k1 k2 (ok x, k3) entered adm locked readied h = (
      a,
      k1,
      k2,
      k3,
      record { entered = entered; admitted = adm; locked = locked; readied = readied },
      refl,
    )
    ready-Happened deadline_ms a k1 k2 (err x, k3) entered adm locked readied h = absurd (h refl)

    locked-Happened :
        (deadline_ms : Option ℕ) (a : Admitted) (k1 : Kernel C V)
        (r : Result (Unit {0}) × Kernel C V)
        → admit json uid catalog settings world caller name arguments deadline_ms k ≡ (ok a, k1)
        → IsAdmitted json uid catalog settings world caller name arguments a k k1
        → wait_for_lock json uid catalog settings world caller a.key k1 ≡ r
        → Happened deadline_ms (
            continue
              (set_kernel (Start k1) r)
              (λ _. perform json uid catalog settings world caller a))
    unfolding execute_once_locked
    locked-Happened deadline_ms a k1 (ok x, k2) entered adm locked h =
        ready-Happened deadline_ms a k1 k2 (ready json uid catalog settings world caller a k2)
          entered adm locked refl h
    locked-Happened deadline_ms a k1 (err x, k2) entered adm locked h = absurd (h refl)

    admit-Happened :
        (deadline_ms : Option ℕ) (r : Result Admitted × Kernel C V)
        → admit json uid catalog settings world caller name arguments deadline_ms k ≡ r
        → Happened deadline_ms (
            continue
              (set_kernel (Start k) r)
              (lock_and_perform json uid catalog settings world caller))
    admit-Happened deadline_ms (ok a, k1) e h =
        locked-Happened deadline_ms a k1
          (wait_for_lock json uid catalog settings world caller a.key k1) e
          (admit-IsAdmitted json uid catalog settings world caller name arguments deadline_ms k k1 a
            e)
          refl h
    admit-Happened deadline_ms (err x, k1) e h = absurd (h refl)

    -- A run that called an adapter went through all that comes before a call.
    pub run-Happened :
        (deadline_ms : Option ℕ)
        → Happened deadline_ms
            (run json uid catalog settings world caller name arguments deadline_ms (Start k))
    unfolding run
    run-Happened deadline_ms =
        admit-Happened deadline_ms
          (admit json uid catalog settings world caller name arguments deadline_ms k) refl
