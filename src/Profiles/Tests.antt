-- ===== src/Profiles/Tests.antt =====
-- The theorems about cron profiles at concrete profiles and stores.
use mikrus_mcp.Errors.{not_found, app_error, value_error, ok, err}
use mikrus_mcp.Profiles.Loaded.{IsStored}
use mikrus_mcp.Sample.{plain-IsLossless, plain}
use mikrus_mcp.Validators.Curl.{in_set}
use mikrus_mcp.Profiles.Store.{key_of, key_eq}
use mikrus_mcp.Profiles.Refines.{answers_refine, Refines}
use mikrus_mcp.Profiles.Spec.{
  delete_call, get_call, upsert_call, store_call, Call, map_call, answers, ProfileMap,
}
use mikrus_mcp.Profiles.Record.{is_schedule, CronProfileRecord}
use mikrus_mcp.Json.{Json}
use mikrus_mcp.Prelude.{refl, arith, text_eq, lits, ◌∷◌, true, none, [], lit, List, ◌≡◌}
use mikrus_mcp.RemoteJobs.Store.{Store, absent}

abbrev backup : CronProfileRecord
unfolding lit
backup = record {
  profile_id = lit "backup";
  principal = lit "agent";
  server_id = lit "a";
  target_identity = lit "ssh:a";
  schedule =
      (lit "minute", lit "5")
      ∷ (lit "hour", lit "1")
      ∷ (lit "day_of_month", lit "*")
      ∷ (lit "month", lit "*")
      ∷ (lit "day_of_week", lit "*")
      ∷ [];
  executable = lit "/usr/bin/df";
  argv = lits ("-h" ∷ []);
  environment = (lit "TZ", lit "UTC") ∷ [];
  created_at = lit "t";
  updated_at = lit "t";
  desired_digest = lit "d";
}

backup-IsStored : IsStored backup
unfolding is_schedule backup in_set text_eq lit
backup-IsStored = refl

abbrev empty : Store Json
empty = record { disk = absent; max_records = 1; lockable = true; writable = true }

abbrev empty_map : ProfileMap
empty_map = record { entry = λ k. none; count = 0; capacity = 1 }

empty-Refines : Refines plain plain-IsLossless empty empty_map
unfolding mikrus_mcp.Profiles.Store.load_disk
empty-Refines = record {
  records = [];
  loaded = refl;
  distinct = tt;
  stored = tt;
  fits = omega arith;
  lockable = refl;
  writable = refl;
  entries = λ k. refl;
  counted = refl;
  capacity = refl;
}

abbrev other : CronProfileRecord
other = record backup { profile_id = [] }

-- The second profile finds the store full, and the first one is gone behind its deletion.
abbrev calls : List Call
calls =
    upsert_call backup
    ∷ upsert_call other
    ∷ get_call (key_of backup)
    ∷ delete_call (key_of backup)
    ∷ get_call (key_of backup)
    ∷ []

calls_answered :
    answers map_call calls empty_map
    ≡ ok backup ∷ err value_error ∷ ok backup ∷ ok backup ∷ err (app_error not_found) ∷ []
unfolding map_call key_eq backup text_eq lit
calls_answered = refl

answers_refine_example : answers (store_call plain) calls empty ≡ answers map_call calls empty_map
answers_refine_example =
    answers_refine plain plain-IsLossless calls empty empty_map
      (backup-IsStored, (backup-IsStored, (tt, (tt, (tt, tt))))) empty-Refines
