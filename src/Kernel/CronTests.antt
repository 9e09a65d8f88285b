-- ===== src/Kernel/CronTests.antt =====
-- The theorem about a refused installation at a concrete profile and a store without records.
use mikrus_mcp.Errors.{Error, Error, Result, conflict, err, AppError}
use mikrus_mcp.Kernel.Cron.{CronClient, UpsertArguments, cron_upsert}
use mikrus_mcp.Kernel.Refused.{cron_upsert-Restored}
use mikrus_mcp.Kernel.Restored.{Restored}
use mikrus_mcp.Sample.{plain-IsLossless, plain}
use mikrus_mcp.Profiles.Record.{is_schedule}
use mikrus_mcp.Profiles.Refines.{Refines}
use mikrus_mcp.Profiles.Spec.{ProfileMap}
use mikrus_mcp.RemoteJobs.Store.{Store, absent}
use mikrus_mcp.Crontab.Installed.{
  generate_cron_line, validate_installed_text, marker_count, scan_installed,
}
use mikrus_mcp.Crontab.Projection.{shell_quote_argument, match_marker, upsert_in_text}
use mikrus_mcp.Profiles.Store.{get, upsert, delete, key_eq}
use mikrus_mcp.Profiles.Record.{from_dict, as_dict}
use mikrus_mcp.Validators.Curl.{in_set}
use mikrus_mcp.Json.{Json}
use mikrus_mcp.Prelude.{Text, refl, arith, text_eq, lits, ◌∷◌, true, none, [], lit, ◌≡◌}

abbrev refusal : AppError
refusal = record { code = conflict; retryable = true; retry_after_seconds = none }

abbrev digest : Text
unfolding lit
digest = lit "0123456789abcdef0123456789abcdef0123456789abcdef0123456789abcdef"

abbrev refusing : CronClient
unfolding lit
refusing = record {
  stable_identity = lit "ssh:a";
  read_first = Result.ok (record { text = []; hash = lit "h" });
  install = λ text hash. err (Error.app refusal);
  read_again = Result.ok (record { text = []; hash = lit "h" });
}

abbrev arguments : UpsertArguments
unfolding lit
arguments = record {
  profile_id = lit "backup";
  schedule =
      (lit "minute", lit "5")
      ∷ (lit "hour", lit "1")
      ∷ (lit "day_of_month", lit "*")
      ∷ (lit "month", lit "*")
      ∷ (lit "day_of_week", lit "*")
      ∷ [];
  executable = lit "/usr/bin/df";
  argv = lits ("-h" ∷ []);
  environment = [];
}

abbrev empty : Store Json
empty = record { disk = absent; max_records = 1; lockable = true; writable = true }

abbrev empty_map : ProfileMap
empty_map = record { entry = λ k. none; count = 0; capacity = 1 }

empty-Refines : Refines plain plain-IsLossless empty empty_map
unfolding mikrus_mcp.Profiles.Store.load_disk
empty-Refines = record {
  records = [];
  loaded = refl;
  distinct = tt;
  stored = tt;
  fits = omega arith;
  lockable = refl;
  writable = refl;
  entries = λ k. refl;
  counted = refl;
  capacity = refl;
}

arguments_full : is_schedule arguments.schedule ≡ true
unfolding is_schedule in_set text_eq lit
arguments_full = refl

cron_upsert-Restored_example :
    Restored plain plain-IsLossless
      (λ t. digest)
      (λ t. 0)
      refusing
      empty_map
      (cron_upsert plain (λ t. digest) (λ t. 0) refusing (λ s. s) [] [] [] arguments empty)
unfolding refusing
cron_upsert-Restored_example =
    cron_upsert-Restored plain plain-IsLossless (λ t. digest) (λ t. 0) refusing (λ s. s) [] [] []
      arguments refusal empty empty_map empty-Refines (λ s m h. h) arguments_full
      (λ text hash. refl) refl

-- The run reaches the installation.
refused :
    (cron_upsert plain (λ t. digest) (λ t. 0) refusing (λ s. s) [] [] [] arguments empty).0
    ≡ err (Error.app refusal)
unfolding cron_upsert lit text_eq refusing arguments digest generate_cron_line shell_quote_argument
    validate_installed_text marker_count scan_installed match_marker upsert_in_text get
    mikrus_mcp.Profiles.Store.load_disk upsert from_dict as_dict is_schedule in_set key_eq delete
refused = refl
