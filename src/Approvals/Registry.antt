-- ===== src/Approvals/Registry.antt =====
-- approvals.py: `ApprovalRegistry`. A method runs under the lock; what the operating system shows
-- it is an argument, one observation for each check of the path.
use mikrus_mcp.Prelude.{
  ℕ, ◌+◌, ◌*◌, Text, text_eq, Bool, true, false, ◌&&◌, not, List, [], ◌∷◌, length, any, Option,
  none, some, ltb, leb, if◌then◌else◌,
}
use mikrus_mcp.Errors.{Result, ok, err, value_error, runtime_error, os_error}
use mikrus_mcp.Exec.{Exec, pure, lift, gets, modify, raise_when, ◌>>=◌, ◌>>◌}
use mikrus_mcp.Dict.{Dict, lookup, insert, erase}
use mikrus_mcp.Json.{JsonLib}
use mikrus_mcp.Approvals.Record.{
  ApprovalRecord, Request, ticks_per_second, validate_arguments_digest, matches, without_expired,
  earliest, candidates,
}
use mikrus_mcp.Approvals.File.{FileIdentity, Entry, identity_eq, read_file, path_identity, payload}

-- The object. `source` is the path's last accepted identity, `none` for a registry in memory
-- (`_source_path is None`); `installed` holds what `os.replace` has put at the path, latest first.
pub record Registry (C : Type 0) : Type 0 where
  pub records : Dict ApprovalRecord
  pub max_records : ℕ
  pub source : Option FileIdentity
  pub installed : List C

-- What one method call sees of the file system: the entry at the path at each check, whether the
-- temporary file could be written, and whether the directory could be synced.
pub record Observed (C : Type 0) : Type 0 where
  pub at_reload : Entry C
  pub at_open : Entry C
  pub at_verify : Entry C
  pub at_persist : Entry C
  pub written : Bool
  pub at_swap : Entry C
  pub at_adopt : Entry C
  pub synced : Bool

-- `ApprovalRegistry(records, max_records)`
unfoldable pub create :
    {C : Type 0} → Dict ApprovalRecord → ℕ → Option FileIdentity → Result (Registry C)
create records max_records source =
    if not (leb 1 max_records && leb max_records 10_000)
    then err value_error
    else if ltb max_records (length records)
    then err value_error
    else ok
        (record { records = records; max_records = max_records; source = source; installed = [] })

-- `ApprovalRecord(...)` in `issue`.
abbrev pub issued : Request → ℕ → ApprovalRecord
issued q expires_at = record {
  capability = q.capability;
  principal = q.principal;
  target = q.target;
  resource = q.resource;
  arguments_digest = q.arguments_digest;
  expires_at = expires_at;
}

module _ {C : Type 0} (json : JsonLib C) (uid : ℕ) where
  -- The branch of `_reload_locked` for a changed file.
  abbrev pub adopt_file : Observed C → Exec (Registry C) Bool
  adopt_file seen s =
      (do
        found ← lift (read_file json uid s.max_records seen.at_open seen.at_verify)
        modify (λ (r : Registry C). record r { records = found.0; source = some found.1 })
        pure true)
        s

  abbrev pub reload_from : Option FileIdentity → Observed C → Exec (Registry C) Bool
  reload_from none seen = pure false
  reload_from (some known) seen = do
    current ← lift (path_identity uid seen.at_reload)
    if identity_eq current known then pure false else adopt_file seen

  -- `reload` and `_reload_locked`
  unfoldable pub reload : Observed C → Exec (Registry C) Bool
  reload seen s = reload_from s.source seen s

  -- The part of `_persist_records_locked` for a registry that has a source file.
  abbrev pub replace_file :
      Dict ApprovalRecord → FileIdentity → Observed C → Exec (Registry C) (Unit {0})
  replace_file records expected seen = do
    before ← lift (path_identity uid seen.at_persist)
    raise_when (not (identity_eq before expected)) runtime_error
    raise_when (not seen.written) os_error
    at_swap ← lift (path_identity uid seen.at_swap)
    raise_when (not (identity_eq at_swap expected)) runtime_error
    modify (λ (r : Registry C). record r { installed = payload json records ∷ r.installed })
    adopted ← lift (path_identity uid seen.at_adopt)
    modify (λ (r : Registry C). record r { records = records; source = some adopted })
    raise_when (not seen.synced) os_error

  abbrev pub persist_to :
      Option FileIdentity → Dict ApprovalRecord → Observed C → Exec (Registry C) (Unit {0})
  persist_to none records seen = modify (λ (r : Registry C). record r { records = records })
  persist_to (some expected) records seen = replace_file records expected seen

  unfoldable pub persist : Dict ApprovalRecord → Observed C → Exec (Registry C) (Unit {0})
  persist records seen s = persist_to s.source records seen s

  -- How a method begins: it tests the digest, takes the lock and reloads a changed file. The digest
  -- that the test returns is the one that it was given.
  unfoldable pub after_reload :
      {A : Type 0} → Request → Observed C → Exec (Registry C) A → Exec (Registry C) A
  after_reload q seen body = do
    lift (validate_arguments_digest q.arguments_digest)
    reload seen
    body

  unfoldable pub issue_live : Text → ℕ → ℕ → Request → Observed C → Exec (Registry C) Text
  issue_live token ttl now q seen s =
      (do
        let records = without_expired s.records now
        raise_when (leb s.max_records (length records)) runtime_error
        persist (insert token (issued q (now + ttl)) records) seen
        pure token)
        s

  -- `token` is what `secrets.token_urlsafe` returned, `now` what `time.time` did.
  unfoldable pub issue : Text → ℕ → ℕ → Request → Observed C → Exec (Registry C) Text
  issue token ttl now q seen = do
    raise_when (not (ltb 0 ttl && leb ttl (300 * ticks_per_second))) value_error
    after_reload q seen (issue_live token ttl now q seen)

  unfoldable pub has_matching : ℕ → Request → Observed C → Exec (Registry C) Bool
  has_matching now q seen =
      after_reload q seen (gets (λ (r : Registry C). any (λ e. matches e.1 q now) r.records))

  abbrev pub consume_first :
      List (Text × ApprovalRecord) → Dict ApprovalRecord → Observed C → Exec (Registry C) Bool
  consume_first [] active seen = pure false
  consume_first (c ∷ cs) active seen = do persist (erase (earliest c cs).0 active) seen; pure true

  abbrev pub consume_live : ℕ → Request → Observed C → Exec (Registry C) Bool
  consume_live now q seen s =
      let active = without_expired s.records now in
      consume_first (candidates q now active) active seen s

  unfoldable pub consume_matching : ℕ → Request → Observed C → Exec (Registry C) Bool
  consume_matching now q seen = after_reload q seen (consume_live now q seen)

  abbrev pub consume_found :
      Text
      → Option ApprovalRecord
      → ℕ
      → Request
      → Dict ApprovalRecord
      → Observed C
      → Exec (Registry C) Bool
  consume_found token none now q active seen = pure false
  consume_found token (some found) now q active seen =
      if matches found q now then (do persist (erase token active) seen; pure true) else pure false

  abbrev pub consume_token : Text → ℕ → Request → Observed C → Exec (Registry C) Bool
  consume_token token now q seen s =
      let active = without_expired s.records now in
      consume_found token (lookup token active) now q active seen s

  -- `token` is `none` for an argument that is no text.
  unfoldable pub consume : Option Text → ℕ → Request → Observed C → Exec (Registry C) Bool
  consume none now q seen = pure false
  consume (some token) now q seen =
      if text_eq token [] then pure false else after_reload q seen (consume_token token now q seen)
