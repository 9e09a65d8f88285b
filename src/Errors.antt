-- ===== src/Errors.antt =====
-- errors.py, and how a Python call ends: a value, or an exception with the state it left.
use mikrus_mcp.Prelude.{ℕ, Bool, false, Option, none}

-- `ErrorCode`, in the order of the source.
pub data ErrorCode : Type 0 where
  validation authentication authorization not_found conflict rate_limited timeout : ErrorCode
  cancelled unavailable transient_upstream upstream_protocol upstream_rejected : ErrorCode
  upstream ambiguous recreate_config_drift internal : ErrorCode

-- `AppError`; its message is not modelled, and `retry_after_seconds` is in microseconds.
pub record AppError : Type 0 where
  pub code : ErrorCode
  pub retryable : Bool
  pub retry_after_seconds : Option ℕ

-- The policy codes that `ProgramPolicyError` of validators.py carries.
pub data PolicyCode : Type 0 where
  program_argument_not_permitted program_subcommand_not_permitted : PolicyCode

-- The exceptions that the modelled code raises or lets through, told apart by their class.
pub data Error : Type 0 where
  app : AppError → Error
  policy_error : PolicyCode → Error
  value_error runtime_error type_error key_error os_error validation_error timeout_error
        assertion_error :
      Error

abbrev pub app_error : ErrorCode → Error
app_error c = Error.app (record { code = c; retryable = false; retry_after_seconds = none })

pub data Result {ℓ} (A : Type ℓ) : Type ℓ where
  ok : A → Result A
  err : Error → Result A
