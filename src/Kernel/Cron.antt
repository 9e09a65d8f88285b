-- ===== src/Kernel/Cron.antt =====
-- kernel_execution.py: the capabilities cron_upsert and cron_remove. What the client reads and how
-- an install ends are arguments, as are what others do to the store meanwhile, SHA-256 and the length of a text in bytes.
use mikrus_mcp.Crontab.Projection.{upsert_in_text, remove_from_text}
use mikrus_mcp.RemoteJobs.Store.{Store}
use mikrus_mcp.Dict.{Dict}
use mikrus_mcp.Profiles.Record.{CronProfileRecord}
use mikrus_mcp.Json.{JsonLib}
use mikrus_mcp.Errors.{
  app_error, app, err, ok, not_found, conflict, ambiguous, Error, Result, ErrorCode,
}
use mikrus_mcp.Crontab.Installed.{
  profile_state, validate_installed_text, marker_count, generate_cron_line, scan_installed, in_sync,
  ProfileState,
}
use mikrus_mcp.Prelude.{
  ◌==◌, ltb, ◌&&◌, if◌then◌else◌, text_eq, List, ℕ, Option, Bool, Text, none, some, true, false,
}
use mikrus_mcp.Profiles.Store.{upsert, key_of, delete, Key, get}
use mikrus_mcp.Exec.{modify, Exec, pure, lift, raise, raise_when, ◌>>=◌, ◌>>◌}

-- A crontab as it was read: its text and its hash.
pub record Installed : Type 0 where
  pub text : Text
  pub hash : Text

-- What the client of the target does: what it reads first, how an install of a text over a hash
-- ends, and what it reads behind that.
pub record CronClient : Type 0 where
  pub stable_identity : Text
  pub read_first : Result Installed
  pub install : Text → Text → Result (Unit {0})
  pub read_again : Result Installed

pub record UpsertArguments : Type 0 where
  pub profile_id : Text
  pub schedule : Dict Text
  pub executable : Text
  pub argv : List Text
  pub environment : Dict Text

pub data CronAnswer : Type 0 where
  upserted : Text → CronAnswer
  reconciled : Text → CronAnswer
  removed : CronAnswer

abbrev pub is_ambiguous : ErrorCode → Bool
is_ambiguous ambiguous = true
is_ambiguous _ = false

abbrev pub is_in_sync : ProfileState → Bool
is_in_sync in_sync = true
is_in_sync _ = false

-- `try: previous = store.get(...) except AppError: previous = None`
abbrev pub as_previous :
    {S : Type 0} → Result CronProfileRecord × S → Result (Option CronProfileRecord) × S
as_previous (ok r, s) = (ok (some r), s)
as_previous (err (app e), s) = (ok none, s)
as_previous (err x, s) = (err x, s)

-- `matches_candidate`
abbrev pub matches_candidate : CronProfileRecord → CronProfileRecord → Bool
matches_candidate profile r =
    text_eq r.updated_at profile.updated_at
    && (text_eq r.desired_digest profile.desired_digest
        && text_eq r.target_identity profile.target_identity)

module _ {C : Type 0} (json : JsonLib C) (sha256_hex : Text → Text) (byte_size : Text → ℕ)
    (client : CronClient) where
  abbrev pub previous_of : Key → Exec (Store C) (Option CronProfileRecord)
  previous_of k s = as_previous (get json k s)

  abbrev pub new_profile : Text → Text → Text → Text → UpsertArguments → CronProfileRecord
  new_profile principal server now generated a = record {
    profile_id = a.profile_id;
    principal = principal;
    server_id = server;
    target_identity = client.stable_identity;
    schedule = a.schedule;
    executable = a.executable;
    argv = a.argv;
    environment = a.environment;
    created_at = now;
    updated_at = now;
    desired_digest = sha256_hex generated;
  }

  abbrev pub undo : Key → Option CronProfileRecord → Exec (Store C) CronProfileRecord
  undo k none = delete json k
  undo k (some previous) = upsert json previous

  -- What `rollback_candidate` does with the record that it found, if any.
  abbrev pub rollback_found :
      CronProfileRecord
      → Option CronProfileRecord
      → Option CronProfileRecord
      → Exec (Store C) (Unit {0})
  rollback_found profile previous none = pure tt
  rollback_found profile previous (some r) =
      if matches_candidate profile r
      then (undo (key_of profile) previous >>= (λ _. pure tt))
      else pure tt

  unfoldable pub rollback_candidate :
      CronProfileRecord → Option CronProfileRecord → Exec (Store C) (Unit {0})
  rollback_candidate profile previous =
      previous_of (key_of profile) >>= rollback_found profile previous

  abbrev pub shows : Text → CronProfileRecord → Text → Bool
  shows text profile generated =
      let observed = scan_installed text in
      marker_count observed profile.profile_id == 1
      && is_in_sync (profile_state observed profile.profile_id generated profile.desired_digest)

  abbrev pub give_up :
      CronProfileRecord → Option CronProfileRecord → Error → Exec (Store C) CronAnswer
  give_up profile previous e = rollback_candidate profile previous >> raise e

  abbrev pub reconcile :
      CronProfileRecord → Option CronProfileRecord → Text → Error → Exec (Store C) CronAnswer
  reconcile profile previous generated e = do
    again ← lift client.read_again
    text ← lift (validate_installed_text byte_size again.text)
    if shows text profile generated
        then (do upsert json profile; pure (reconciled profile.desired_digest))
        else give_up profile previous e

  -- What follows the install.
  abbrev pub settle :
      CronProfileRecord
      → Option CronProfileRecord
      → Text
      → Result (Unit {0})
      → Exec (Store C) CronAnswer
  settle profile previous generated (ok u) = pure (upserted profile.desired_digest)
  settle profile previous generated (err (app e)) =
      if is_ambiguous e.code
      then reconcile profile previous generated (Error.app e)
      else give_up profile previous (Error.app e)
  settle profile previous generated (err x) = raise x

  -- The install, while which others may act on the store, and what follows it.
  abbrev pub install_and_settle :
      (Store C → Store C)
      → CronProfileRecord
      → Option CronProfileRecord
      → Text
      → Result (Unit {0})
      → Exec (Store C) CronAnswer
  install_and_settle others profile previous generated outcome =
      modify others >> settle profile previous generated outcome

  abbrev pub store_and_install :
      (Store C → Store C) → CronProfileRecord → Text → Result (Unit {0}) → Exec (Store C) CronAnswer
  store_and_install others profile generated outcome = previous_of (key_of profile) >>= λ previous.
      upsert json profile >>= λ _. install_and_settle others profile previous generated outcome

  unfoldable pub cron_upsert :
      (Store C → Store C) → Text → Text → Text → UpsertArguments → Exec (Store C) CronAnswer
  unfolding rollback_candidate
  cron_upsert others principal server now a = do
    generated ← lift (generate_cron_line a.schedule a.executable a.argv a.environment)
    installed ← lift client.read_first
    text ← lift (validate_installed_text byte_size installed.text)
    raise_when (ltb 1 (marker_count (scan_installed text) a.profile_id)) (app_error conflict)
    new_text ← lift (upsert_in_text text a.profile_id generated (sha256_hex generated))
    store_and_install others (new_profile principal server now generated a) generated
        (client.install new_text installed.hash)

  unfoldable pub cron_remove : (Store C → Store C) → Key → Exec (Store C) CronAnswer
  cron_remove others k = do
    get json k
    installed ← lift client.read_first
    text ← lift (validate_installed_text byte_size installed.text)
    raise_when (ltb 1 (marker_count (scan_installed text) k.profile_id)) (app_error conflict)
    raise_when (marker_count (scan_installed text) k.profile_id == 0) (app_error not_found)
    new_text ← lift (remove_from_text text k.profile_id)
    modify others
    lift (client.install new_text installed.hash)
    delete json k
    pure removed
