-- ===== src/RemoteJobs/Lifecycle.antt =====
-- How one record may change: its identity stays, a terminal state is never left, and `queued` is
-- never entered again.
use mikrus_mcp.Results.{Result-cases}
use mikrus_mcp.RemoteJobs.Registry.{
  owned_by, update_owned, Outcome, expire_one, expire_all, apply_update, apply_observation, Clock,
}
use mikrus_mcp.RemoteJobs.Codec.{cut_error}
use mikrus_mcp.Prelude.{
  inr, refl, inl, suc, ap, Bool-cases, length, ℕ, ◌⊎◌, ◌≢◌, ◌↔◌, Text, ◌≡◌, true, List, [], ◌∷◌,
  arith, ◌∙◌,
}
use mikrus_mcp.Errors.{Result, value_error, ok, err}
use mikrus_mcp.RemoteJobs.Record.{
  RemoteJobState, queued, RemoteJobRecord, transition, terminal, is_terminal,
}

pub record Evolves (r r' : RemoteJobRecord) : Type 0 where
  pub job_id : r'.job_id ≡ r.job_id
  pub principal : r'.principal ≡ r.principal
  pub server_id : r'.server_id ≡ r.server_id
  pub target_identity : r'.target_identity ≡ r.target_identity
  pub idempotency_key : r'.idempotency_key ≡ r.idempotency_key
  pub request_digest : r'.request_digest ≡ r.request_digest
  pub created_at : r'.created_at ≡ r.created_at
  pub final : is_terminal r.state ≡ true → r'.state ≡ r.state
  pub started : r'.state ≡ queued → r.state ≡ queued

pub Evolves-refl : (r : RemoteJobRecord) → Evolves r r
Evolves-refl r = ground arith

pub Evolves-trans : (a b c : RemoteJobRecord) → Evolves a b → Evolves b c → Evolves a c
Evolves-trans a b c h k = record {
  job_id = k.job_id ∙ h.job_id;
  principal = k.principal ∙ h.principal;
  server_id = k.server_id ∙ h.server_id;
  target_identity = k.target_identity ∙ h.target_identity;
  idempotency_key = k.idempotency_key ∙ h.idempotency_key;
  request_digest = k.request_digest ∙ h.request_digest;
  created_at = k.created_at ∙ h.created_at;
  final = λ t. let e = h.final t in k.final (rw e t) ∙ e;
  started = λ q. h.started (k.started q);
}

-- Every record of the first list has become the record at its place in the second, which may have
-- more behind them.
abbrev pub Extends : List RemoteJobRecord → List RemoteJobRecord → Type 0
Extends [] ys = Unit
Extends (x ∷ xs) [] = ⊥
Extends (x ∷ xs) (y ∷ ys) = Evolves x y × Extends xs ys

pub Extends-refl : (xs : List RemoteJobRecord) → Extends xs xs
Extends-refl [] = tt
Extends-refl (x ∷ xs) = (Evolves-refl x, Extends-refl xs)

pub Extends-trans :
    (xs ys zs : List RemoteJobRecord) → Extends xs ys → Extends ys zs → Extends xs zs
Extends-trans [] ys zs h k = tt
Extends-trans (x ∷ xs) [] zs h k = absurd h
Extends-trans (x ∷ xs) (y ∷ ys) [] h k = absurd k
Extends-trans (x ∷ xs) (y ∷ ys) (z ∷ zs) h k =
    (Evolves-trans x y z h.0 k.0, Extends-trans xs ys zs h.1 k.1)

-- A transition that does not raise.
pub transition-Evolves :
    (state : RemoteJobState) (now : Text) (r r' : RemoteJobRecord)
    → transition state now r ≡ ok r'
    → Evolves r r'
unfolding transition
transition-Evolves state now r r' e = ground arith

-- The errors are exactly these: a terminal record asked into another state, and any other record
-- asked back into `queued`.
transition-err :
    (state : RemoteJobState) (now : Text) (r : RemoteJobRecord)
    → (transition state now r ≡ err value_error)
      ↔ ((terminal r ≡ true) × (state ≢ r.state) ⊎ (state ≡ queued) × (r.state ≢ queued))
unfolding transition
transition-err state now r = (λ e. ground arith, λ e. ground arith)

pub apply_update-Evolves :
    (state : RemoteJobState) (now : Text) (o : Outcome) (r r' : RemoteJobRecord)
    → apply_update state now o r ≡ ok r'
    → Evolves r r'
unfolding apply_update
apply_update-Evolves state now o r r' e = ground arith

pub apply_observation-Evolves :
    (server_id : Text) (observed : RemoteJobState) (now : Text) (r r' : RemoteJobRecord)
    → apply_observation server_id observed now r ≡ ok r'
    → Evolves r r'
unfolding apply_observation
apply_observation-Evolves server_id observed now r r' e = ground arith

expire_one-Evolves :
    (clock : Clock) (max_age : ℕ) (r r' : RemoteJobRecord)
    → expire_one clock max_age r ≡ ok r'
    → Evolves r r'
unfolding expire_one
expire_one-Evolves clock max_age r r' e = ground arith

-- Expiry raises for no record.
expire_one_total :
    (clock : Clock) (max_age : ℕ) (r : RemoteJobRecord)
    → (r' : RemoteJobRecord) × (expire_one clock max_age r ≡ ok r')
unfolding expire_one
expire_one_total clock max_age r = elim (Result-cases (expire_one clock max_age r)) [
  | inl done ↦ done
  | inr (x, e) ↦ absurd (ground arith)
]

pub expire_all_total :
    (clock : Clock) (max_age : ℕ) (rs : List RemoteJobRecord)
    → (rs' : List RemoteJobRecord) × (expire_all clock max_age rs ≡ ok rs')
      × Extends rs rs'
      × (length rs' ≡ length rs)
unfolding expire_all
expire_all_total clock max_age [] = ([], refl, tt, refl)
expire_all_total clock max_age (r ∷ rs) =
    let (r', e) = expire_one_total clock max_age r in
    let (rs', es, x, n) = expire_all_total clock max_age rs in
    (r' ∷ rs', rw (e, es) refl, (expire_one-Evolves clock max_age r r' e, x), ap suc n)

module _ (job_id principal : Text) (change : RemoteJobRecord → Result RemoteJobRecord)
    (keeps : (r r' : RemoteJobRecord) → change r ≡ ok r' → Evolves r r') where
  pub update_owned-Extends :
      (rs rs' : List RemoteJobRecord) (found : RemoteJobRecord)
      → update_owned job_id principal change rs ≡ ok (found, rs')
      → Extends rs rs' × (length rs' ≡ length rs)
  update_owned-Extends [] rs' found e = cc
  update_owned-Extends (r ∷ rs) rs' found e = elim (Bool-cases (owned_by job_id principal r)) [
    | inl mine ↦ elim (Result-cases (change r)) [
      | inl (r1, c) ↦ ground (arith, keeps r r1 c, Extends-refl rs)
      | inr (x, c) ↦ ground arith
    ]
    | inr other ↦ elim (Result-cases (update_owned job_id principal change rs)) [
      | inl ((f1, rs1), u) ↦ ground (arith, update_owned-Extends rs rs1 f1 u, Evolves-refl r)
      | inr (x, u) ↦ ground arith
    ]
  ]

pub Evolves-cut : (r : RemoteJobRecord) → Evolves r (record r { error = cut_error r.error })
Evolves-cut r = ground arith
