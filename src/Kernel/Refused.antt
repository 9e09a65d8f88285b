-- ===== src/Kernel/Refused.antt =====
-- A cron_upsert whose install is refused leaves the profiles as they were.
use mikrus_mcp.Crontab.Projection.{upsert_in_text}
use mikrus_mcp.Crontab.Installed.{
  scan_installed, marker_count, validate_installed_text, generate_cron_line,
}
use mikrus_mcp.Results.{ok-inj}
use mikrus_mcp.Keyed.{at_own}
use mikrus_mcp.Kernel.Restored.{checked, lifted, installed-Restored, Restored}
use mikrus_mcp.Profiles.Loaded.{key_eq_iff, IsStored}
use mikrus_mcp.Profiles.Refines.{call-Agree, found, Refines}
use mikrus_mcp.RemoteJobs.Store.{Store}
use mikrus_mcp.Profiles.Spec.{get_call, map_call, store_call, ProfileMap}
use mikrus_mcp.Kernel.Cron.{
  install_and_settle, new_profile, store_and_install, as_previous, is_ambiguous, UpsertArguments,
  cron_upsert, CronClient,
}
use mikrus_mcp.Profiles.Record.{is_schedule, CronProfileRecord}
use mikrus_mcp.Json.{IsLossless, JsonLib}
use std.Path.{subst}
use mikrus_mcp.Profiles.Store.{or_not_found, has_key, key_eq, key_of, Key, get, upsert}
use mikrus_mcp.Prelude.{
  [], ltb, Option-cases, ap, sym, inr, some-inj, inl, Bool-cases, ◌∷◌, find_first, ℕ, All, Text,
  List, Bool, none, some, true, false, ◌≡◌, ◌∙◌,
}
use mikrus_mcp.Errors.{conflict, Result, Error, AppError, ok, err, app_error, not_found}
use mikrus_mcp.Exec.{◌>>=◌, continue}

find_first-All :
    (P : CronProfileRecord → Type 0) (p : CronProfileRecord → Bool) (rs : List CronProfileRecord)
    (r : CronProfileRecord)
    → All P rs
    → find_first p rs ≡ some r
    → P r
find_first-All P p [] r h e = cc
find_first-All P p (x ∷ rs) r h e = elim (Bool-cases (p x)) [
  | inl here ↦ let e1 : some x ≡ some r = rw here at e in subst P (some-inj e1) h.0
  | inr later ↦ let e1 : find_first p rs ≡ some r = rw later at e in find_first-All P p rs r h.1 e1
]

module _ {C : Type 0} (json : JsonLib C) (lib : IsLossless json) (sha256_hex : Text → Text)
    (byte_size : Text → ℕ) (client : CronClient) where
  -- The entry of a key has that key, and it could be stored.
  entry_known :
      (k : Key) (s : Store C) (m : ProfileMap) (old : CronProfileRecord)
      → Refines json lib s m
      → m.entry k ≡ some old
      → (key_of old ≡ k) × IsStored old
  entry_known k s m old h e =
      let held : found json lib k h.records ≡ some old = sym (h.entries k) ∙ e in
      (
        at_own key_of key_eq key_eq_iff k h.records old held,
        find_first-All IsStored (has_key k) h.records old h.stored held,
      )

  module _ (others : Store C → Store C)
      (kept : (s : Store C) (m : ProfileMap) → Refines json lib s m → Refines json lib (others s) m)
      (profile : CronProfileRecord) (e : AppError) (generated : Text) (m : ProfileMap)
      (sure : is_ambiguous e.code ≡ false) (stored : IsStored profile) where
    abbrev Goes : Result CronProfileRecord × Store C → Type 0
    Goes x = Restored json lib sha256_hex byte_size client m (
        continue (as_previous x) (λ previous.
          (upsert json profile >>= λ _.
          install_and_settle json sha256_hex byte_size client others profile previous generated
            (err (Error.app e)))))

    unknown-Goes :
        (x : Result CronProfileRecord × Store C)
        → x.0 ≡ err (app_error not_found)
        → Refines json lib x.1 m
        → m.entry (key_of profile) ≡ none
        → Goes x
    unknown-Goes (ok r, s) is h was = cc
    unknown-Goes (err y, s) is h was =
        let same : app_error not_found ≡ y = cc in
        subst (λ y. Goes (err y, s)) same
          (installed-Restored json lib sha256_hex byte_size client m profile e others generated none
            s kept sure stored h was (λ old no. cc))

    known-Goes :
        (old : CronProfileRecord) (x : Result CronProfileRecord × Store C)
        → x.0 ≡ ok old
        → Refines json lib x.1 m
        → m.entry (key_of profile) ≡ some old
        → Goes x
    known-Goes old (err y, s) is h was = cc
    known-Goes old (ok r, s) is h was =
        let same : old ≡ r = sym (ok-inj is) in
        let was1 : m.entry (key_of profile) ≡ some r = was ∙ ap some same in
        installed-Restored json lib sha256_hex byte_size client m profile e others generated
          (some r) s kept sure stored h was1
          (λ old2 f. entry_known (key_of profile) s m old2 h (was1 ∙ f))

    store_and_install-Restored :
        (s : Store C)
        → Refines json lib s m
        → Restored json lib sha256_hex byte_size client m (
            store_and_install json sha256_hex byte_size client others profile generated
              (err (Error.app e))
              s)
    unfolding store_call map_call
    store_and_install-Restored s h =
        let (same, next) = call-Agree json lib (get_call (key_of profile)) s m tt h in
        elim (Option-cases (m.entry (key_of profile))) [
          | inl free ↦
              unknown-Goes (get json (key_of profile) s) (same ∙ ap or_not_found free) next free
          | inr (old, held) ↦
              known-Goes old (get json (key_of profile) s) (same ∙ ap or_not_found held) next held
        ]

  -- A cron_upsert of a full schedule whose install ends with an AppError that is not ambiguous raises,
  -- and the store holds the same profiles as before, the one that was to be replaced included, when
  -- the JSON library loses nothing and others leave the profiles as they are during the install.
  pub cron_upsert-Restored :
      (others : Store C → Store C) (principal server now : Text) (a : UpsertArguments)
      (e : AppError) (s : Store C) (m : ProfileMap)
      → Refines json lib s m
      → ((s : Store C) (m : ProfileMap) → Refines json lib s m → Refines json lib (others s) m)
      → is_schedule a.schedule ≡ true
      → ((text hash : Text) → client.install text hash ≡ err (Error.app e))
      → is_ambiguous e.code ≡ false
      → Restored json lib sha256_hex byte_size client m
          (cron_upsert json sha256_hex byte_size client others principal server now a s)
  unfolding cron_upsert
  cron_upsert-Restored others principal server now a e s m h kept full refused sure =
      lifted json lib sha256_hex byte_size client m s
        (generate_cron_line a.schedule a.executable a.argv a.environment) _ h
        (λ generated g.
          lifted json lib sha256_hex byte_size client m s client.read_first _ h (λ installed i.
            lifted json lib sha256_hex byte_size client m s
              (validate_installed_text byte_size installed.text) _ h
              (λ text t.
                checked json lib sha256_hex byte_size client m s
                  (ltb 1 (marker_count (scan_installed text) a.profile_id)) (app_error conflict) _ h
                  (lifted json lib sha256_hex byte_size client m s
                    (upsert_in_text text a.profile_id generated (sha256_hex generated)) _ h
                    (λ new_text n. rw (refused new_text installed.hash) (
                      store_and_install-Restored others kept
                        (new_profile json sha256_hex byte_size client principal server now generated
                          a)
                        e generated m sure full s h))))))
