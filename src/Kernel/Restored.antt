-- ===== src/Kernel/Restored.antt =====
-- A cron_upsert whose install is refused leaves the profiles as they were.
use std.Path.{subst}
use mikrus_mcp.Profiles.Store.{upsert, or_not_found, delete, key_eq, get}
use mikrus_mcp.Results.{ok-inj}
use mikrus_mcp.Errors.{value_error, ok, err}
use mikrus_mcp.Exec.{pure, raise, ◌>>◌}
use mikrus_mcp.Profiles.Loaded.{key_eq_iff, IsStored}
use mikrus_mcp.Profiles.Store.{key_of, Key}
use mikrus_mcp.Profiles.Refines.{call-Agree, Refines}
use mikrus_mcp.Exec.{raise, lift, ◌>>◌, continue, raise_when, Exec}
use mikrus_mcp.RemoteJobs.Store.{Store}
use mikrus_mcp.Profiles.Record.{CronProfileRecord}
use mikrus_mcp.Errors.{ok, err, Error, AppError, Result}
use mikrus_mcp.Profiles.Spec.{
  put_entry, upsert_call, drop_entry, get_call, delete_call, map_call, store_call, assign,
  ProfileMap,
}
use mikrus_mcp.Kernel.Cron.{
  install_and_settle, is_ambiguous, give_up, rollback_found, rollback_candidate, matches_candidate,
  as_previous, undo, CronClient,
}
use mikrus_mcp.Json.{IsLossless, JsonLib}
use mikrus_mcp.Prelude.{
  leb, inr, ap, sym, text_eq_refl, inl, ◌∙◌, refl, Bool-cases, ◌≢◌, Option, Bool, ℕ, Text, none,
  some, true, false, ◌≡◌,
}

module _ {C : Type 0} (json : JsonLib C) (lib : IsLossless json) (sha256_hex : Text → Text)
    (byte_size : Text → ℕ) (client : CronClient) where
  -- The call raised, and the store holds the entries of the map.
  abbrev pub Restored : {A : Type 0} → ProfileMap → Result A × Store C → Type 0
  Restored {A = A} m (r, s) =
      ((m' : ProfileMap) × Refines json lib s m' × ((k : Key) → m'.entry k ≡ m.entry k))
      × ((a : A) → r ≢ ok a)

  pub untouched :
      {A : Type 0} (m : ProfileMap) (s : Store C) (x : Error)
      → Refines json lib s m
      → Restored {A = A} m (err x, s)
  untouched m s x h = ((m, h, λ k. refl), λ a no. cc)

  pub lifted :
      {A B : Type 0} (m : ProfileMap) (s : Store C) (r : Result A) (f : A → Exec (Store C) B)
      → Refines json lib s m
      → ((a : A) → r ≡ ok a → Restored m (f a s))
      → Restored m (continue (lift r s) f)
  lifted m s (ok a) f h next = next a refl
  lifted m s (err x) f h next = untouched m s x h

  pub checked :
      {B : Type 0} (m : ProfileMap) (s : Store C) (b : Bool) (x : Error) (rest : Exec (Store C) B)
      → Refines json lib s m
      → Restored m (rest s)
      → Restored m ((raise_when b x >> rest) s)
  checked m s true x rest h next = untouched m s x h
  checked m s false x rest h next = next

  -- What a store call does, told by the map.
  module _ (m0 : ProfileMap) (profile : CronProfileRecord) (e : AppError) where
    abbrev Here : Key
    Here = key_of profile

    -- The map once more with the entry of the profile changed.
    abbrev Changed : ProfileMap → Option CronProfileRecord → Type 0
    Changed m v = (k : Key) → m.entry k ≡ assign Here v m0.entry k

    here_refl : key_eq Here Here ≡ true
    here_refl = (key_eq_iff Here Here).1 refl

    ended-Restored :
        {A B : Type 0} (x : Result A × Store C) (m : ProfileMap)
        → Refines json lib x.1 m
        → ((k : Key) → m.entry k ≡ m0.entry k)
        → Restored {A = B} m0
            (continue (continue {B = Unit {0}} x (λ _. pure tt)) (λ _. raise (Error.app e)))
    ended-Restored (ok a, s) m h same = ((m, h, same), λ a no. cc)
    ended-Restored (err x, s) m h same = ((m, h, same), λ a no. cc)

    held_here : (m : ProfileMap) → Changed m (some profile) → m.entry Here ≡ some profile
    held_here m c = c Here ∙ rw here_refl refl

    -- Putting the former entry back undoes the change.
    entry_back :
        (v : Option CronProfileRecord) (m : ProfileMap) (k : Key)
        → Changed m (some profile)
        → m0.entry Here ≡ v
        → assign Here v m.entry k ≡ m0.entry k
    entry_back v m k c was = elim (Bool-cases (key_eq Here k)) [
      | inl same ↦ rw same (sym was ∙ ap m0.entry ((key_eq_iff Here k).0 same))
      | inr other ↦
          let unchanged : m.entry k ≡ m0.entry k = c k ∙ rw other refl in rw other unchanged
    ]

    undone-Restored :
        {B : Type 0} (previous : Option CronProfileRecord) (m : ProfileMap) (s : Store C)
        → Refines json lib s m
        → Changed m (some profile)
        → m0.entry Here ≡ previous
        → ((old : CronProfileRecord) → previous ≡ some old → (key_of old ≡ Here) × IsStored old)
        → Restored {A = B} m0 (
            continue
              (continue {B = Unit {0}}
                (undo json sha256_hex byte_size client Here previous s)
                (λ _. pure tt))
              (λ _. raise (Error.app e)))
    unfolding store_call map_call
    undone-Restored none m s h c was known =
        let (same, next) = call-Agree json lib (delete_call Here) s m tt h in
        let left : Refines json lib (delete json Here s).1 (drop_entry Here (some profile) m).1 =
          subst (λ o. Refines json lib (delete json Here s).1 (drop_entry Here o m).1)
            (held_here m c) next in
        ended-Restored (delete json Here s) (drop_entry Here (some profile) m).1 left
          (λ k. entry_back none m k c was)
    undone-Restored (some old) m s h c was known =
        let (own, stored) = known old refl in
        let (same, next) = call-Agree json lib (upsert_call old) s m stored h in
        let entry : m.entry (key_of old) ≡ some profile = ap m.entry own ∙ held_here m c in
        let left : Refines json lib (upsert json old s).1 (put_entry old (some profile) m).1 =
          subst (λ o. Refines json lib (upsert json old s).1 (put_entry old o m).1) entry next in
        ended-Restored (upsert json old s) (put_entry old (some profile) m).1 left
          (λ k. ap (λ j. assign j (some old) m.entry k) own ∙ entry_back (some old) m k c was)

    matches_refl : matches_candidate profile profile ≡ true
    matches_refl =
        rw
          (
            text_eq_refl profile.updated_at,
            text_eq_refl profile.desired_digest,
            text_eq_refl profile.target_identity,
          )
          refl

    found-Restored :
        {B : Type 0} (previous : Option CronProfileRecord) (m : ProfileMap)
        (x : Result CronProfileRecord × Store C)
        → x.0 ≡ ok profile
        → Refines json lib x.1 m
        → Changed m (some profile)
        → m0.entry Here ≡ previous
        → ((old : CronProfileRecord) → previous ≡ some old → (key_of old ≡ Here) × IsStored old)
        → Restored {A = B} m0 (
            continue
              (continue
                (as_previous x)
                (rollback_found json sha256_hex byte_size client profile previous))
              (λ _. raise (Error.app e)))
    found-Restored previous m (err x, s) is h c was known = cc
    found-Restored {B} previous m (ok r, s) is h c was known =
        let same : profile ≡ r = sym (ok-inj is) in
        subst
          (λ r. Restored {A = B} m0 (
            continue (rollback_found json sha256_hex byte_size client profile previous (some r) s)
              (λ _. raise (Error.app e))))
          same (rw matches_refl (undone-Restored previous m s h c was known))

    give_up-Restored :
        (previous : Option CronProfileRecord) (m : ProfileMap) (s : Store C)
        → Refines json lib s m
        → Changed m (some profile)
        → m0.entry Here ≡ previous
        → ((old : CronProfileRecord) → previous ≡ some old → (key_of old ≡ Here) × IsStored old)
        → Restored m0 (give_up json sha256_hex byte_size client profile previous (Error.app e) s)
    unfolding rollback_candidate store_call map_call
    give_up-Restored previous m s h c was known =
        let (same, next) = call-Agree json lib (get_call Here) s m tt h in
        found-Restored previous m (get json Here s) (same ∙ ap or_not_found (held_here m c)) next c
          was known

    upserted-Restored :
        (others : Store C → Store C) (generated : Text) (previous : Option CronProfileRecord)
        (m : ProfileMap) (y : Result CronProfileRecord × Store C)
        → ((s : Store C) (m : ProfileMap) → Refines json lib s m → Refines json lib (others s) m)
        → is_ambiguous e.code ≡ false
        → y.0 ≡ ok profile
        → Refines json lib y.1 m
        → Changed m (some profile)
        → m0.entry Here ≡ previous
        → ((old : CronProfileRecord) → previous ≡ some old → (key_of old ≡ Here) × IsStored old)
        → Restored m0 (
            continue y (λ _.
              install_and_settle json sha256_hex byte_size client others profile previous generated
                (err (Error.app e))))
    upserted-Restored others generated previous m (err x, s) kept sure is h c was known = cc
    upserted-Restored others generated previous m (ok r, s) kept sure is h c was known =
        rw sure (give_up-Restored previous m (others s) (kept s m h) c was known)

    refused-Restored :
        (others : Store C → Store C) (generated : Text) (previous : Option CronProfileRecord)
        (m : ProfileMap) (y : Result CronProfileRecord × Store C)
        → y.0 ≡ err value_error
        → Refines json lib y.1 m0
        → Restored m0 (
            continue y (λ _.
              install_and_settle json sha256_hex byte_size client others profile previous generated
                (err (Error.app e))))
    refused-Restored others generated previous m (ok r, s) is h = cc
    refused-Restored others generated previous m (err x, s) is h = untouched m0 s x h

    -- The upsert of the profile and what follows it, from a store with the former entries.
    pub installed-Restored :
        (others : Store C → Store C) (generated : Text) (previous : Option CronProfileRecord)
        (s : Store C)
        → ((s : Store C) (m : ProfileMap) → Refines json lib s m → Refines json lib (others s) m)
        → is_ambiguous e.code ≡ false
        → IsStored profile
        → Refines json lib s m0
        → m0.entry Here ≡ previous
        → ((old : CronProfileRecord) → previous ≡ some old → (key_of old ≡ Here) × IsStored old)
        → Restored m0 (
            continue (upsert json profile s) (λ _.
              install_and_settle json sha256_hex byte_size client others profile previous generated
                (err (Error.app e))))
    unfolding store_call map_call
    installed-Restored others generated (some old) s kept sure stored h was known =
        let (same, next) = call-Agree json lib (upsert_call profile) s m0 stored h in
        upserted-Restored others generated (some old) (put_entry profile (some old) m0).1
          (upsert json profile s) kept sure (same ∙ rw was refl)
          (subst (λ o. Refines json lib (upsert json profile s).1 (put_entry profile o m0).1) was
            next)
          (λ k. refl) was known
    installed-Restored others generated none s kept sure stored h was known =
        let (same, next) = call-Agree json lib (upsert_call profile) s m0 stored h in
        let moved =
          subst (λ o. Refines json lib (upsert json profile s).1 (put_entry profile o m0).1) was
            next in
        elim (Bool-cases (leb m0.capacity m0.count)) [
          | inl full ↦
              refused-Restored others generated none m0 (upsert json profile s)
                (same ∙ rw (was, full) refl) (rw full at moved)
          | inr room ↦
              upserted-Restored others generated none _ (upsert json profile s) kept sure
                (same ∙ rw (was, room) refl) (rw room at moved) (λ k. refl) was known
        ]
