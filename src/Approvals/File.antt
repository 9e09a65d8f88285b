-- ===== src/Approvals/File.antt =====
-- approvals.py: the approval file. `Entry` is what the path shows at one system call, so that
-- another process may replace the file between two of them.
use mikrus_mcp.Prelude.{
  ℕ, ◌+◌, ◌/◌, ◌%◌, Text, text_eq, text_le, lit, Bool, ◌&&◌, ◌||◌, not, [], ◌∷◌, length, Option,
  none, some, ltb, ◌==◌, if◌then◌else◌,
}
use mikrus_mcp.Errors.{Result, ok, err, value_error, runtime_error, key_error, os_error}
use mikrus_mcp.Results.{◌>>=◌, ◌>>◌, or_raise, raise_if, reraise}
use mikrus_mcp.Dict.{Dict, insert}
use mikrus_mcp.Json.{Json, obj, str, Fields, end, field, get, JsonLib}
use mikrus_mcp.Approvals.Record.{ApprovalRecord, validate_arguments_digest}

abbrev pub max_approval_file_bytes : ℕ
max_approval_file_bytes = 1_048_576

-- `os.stat_result`, the fields that are read.
pub record Stat : Type 0 where
  pub st_mode : ℕ
  pub st_uid : ℕ
  pub st_dev : ℕ
  pub st_ino : ℕ
  pub st_mtime_ns : ℕ
  pub st_size : ℕ

pub record FileIdentity : Type 0 where
  pub device : ℕ
  pub inode : ℕ
  pub modified_ns : ℕ
  pub size : ℕ

-- What stands at a path: nothing, a symbolic link, or a node with its metadata and content.
pub data Entry (C : Type 0) : Type 0 where
  missing : Entry C
  symlink : Entry C
  node : Stat → C → Entry C

unfoldable pub identity : Stat → FileIdentity
identity metadata = record {
  device = metadata.st_dev;
  inode = metadata.st_ino;
  modified_ns = metadata.st_mtime_ns;
  size = metadata.st_size;
}

unfoldable pub identity_eq : FileIdentity → FileIdentity → Bool
identity_eq a b =
    a.device == b.device
    && (a.inode == b.inode && (a.modified_ns == b.modified_ns && a.size == b.size))

-- `stat.S_ISREG` reads the four bits above the low twelve; the mask `S_IRWXG | S_IRWXO` is the low
-- six bits. `uid` is `os.getuid()`.
unfoldable pub validate_metadata : ℕ → Stat → Result (Unit {0})
validate_metadata uid metadata = do
  raise_if (not (metadata.st_mode / 4096 % 16 == 8)) value_error
  raise_if (not (metadata.st_mode % 64 == 0)) value_error
  raise_if (not (metadata.st_uid == uid)) value_error
  raise_if (ltb max_approval_file_bytes metadata.st_size) value_error

-- `len(tokens)`
abbrev pub field_count : Fields → ℕ
field_count end = 0
field_count (field k v rest) = field_count rest + 1

-- `not all((record.capability, ...))`
abbrev pub has_empty_field : ApprovalRecord → Bool
has_empty_field r =
    text_eq r.capability []
    || (text_eq r.principal [] || (text_eq r.target [] || text_eq r.resource []))

-- `raw.get("tokens", {})`, where `raw` and the result have to be objects.
abbrev pub tokens_of : Option Json → Result Fields
tokens_of none = err value_error
tokens_of (some (obj raw)) = elim (get (lit "tokens") raw) [
  | none ↦ ok end
  | some (obj tokens) ↦ ok tokens
  | some _ ↦ err value_error
]
tokens_of (some _) = err value_error

-- `sorted(records.items())`, by the token.
abbrev pub insert_sorted : Text × ApprovalRecord → Dict ApprovalRecord → Dict ApprovalRecord
insert_sorted e [] = e ∷ []
insert_sorted e (f ∷ rest) = if text_le e.0 f.0 then e ∷ f ∷ rest else f ∷ insert_sorted e rest

abbrev pub sorted_items : Dict ApprovalRecord → Dict ApprovalRecord
sorted_items [] = []
sorted_items (e ∷ d) = insert_sorted e (sorted_items d)

module _ {C : Type 0} where
  abbrev pub opened : Entry C → Result (Stat × C)
  opened (node metadata content) = ok (metadata, content)
  opened _ = err value_error

  -- `path.stat(follow_symlinks=False)`
  abbrev pub lstat : Entry C → Result (ℕ × ℕ)
  lstat missing = err os_error
  lstat symlink = ok (0, 0)
  lstat (node metadata _) = ok (metadata.st_dev, metadata.st_ino)

  -- `_path_identity_locked`, for a registry that has a source file.
  unfoldable pub path_identity : ℕ → Entry C → Result FileIdentity
  unfolding validate_metadata identity
  path_identity uid (node metadata _) = do
    reraise (validate_metadata uid metadata) runtime_error
    ok (identity metadata)
  path_identity uid _ = err runtime_error

module _ {C : Type 0} (json : JsonLib C) where
  open json use {loads, dumps, size, str_of, float_of, float_repr}

  -- `str(value[key])`
  unfoldable pub text_at : Text → Fields → Result Text
  text_at key value = do v ← or_raise (get key value) key_error; ok (str_of v)

  -- The construction of one record, with the exceptions that its `try` turns into `ValueError`.
  unfoldable pub parse_record : Fields → Result ApprovalRecord
  unfolding text_at
  parse_record value =
      reraise
        (do
          capability ← text_at (lit "capability") value
          principal ← text_at (lit "principal") value
          target ← text_at (lit "target") value
          resource ← text_at (lit "resource") value
          digest_text ← text_at (lit "arguments_digest") value
          digest ← validate_arguments_digest digest_text
          expiry ← or_raise (get (lit "expires_at") value) key_error
          expires_at ← or_raise (float_of expiry) value_error
          ok (record {
            capability = capability;
            principal = principal;
            target = target;
            resource = resource;
            arguments_digest = digest;
            expires_at = expires_at;
          }))
        value_error

  -- One turn of the loop over `tokens.items()`.
  unfoldable pub parse_entry : Text → Json → Result ApprovalRecord
  unfolding parse_record
  parse_entry token (obj value) = do
    raise_if (ltb (length token) 32) value_error
    parsed ← parse_record value
    raise_if (has_empty_field parsed) value_error
    ok parsed
  parse_entry token _ = err value_error

  unfoldable pub parse_tokens : Fields → Dict ApprovalRecord → Result (Dict ApprovalRecord)
  unfolding parse_entry
  parse_tokens end records = ok records
  parse_tokens (field token value rest) records = do
    parsed ← parse_entry token value
    parse_tokens rest (insert token parsed records)

  unfoldable pub parse_records : C → ℕ → Result (Dict ApprovalRecord)
  unfolding parse_tokens
  parse_records encoded max_records = do
    tokens ← tokens_of (loads encoded)
    raise_if (ltb max_records (field_count tokens)) value_error
    parse_tokens tokens []

  -- `at_open` is what `os.open` with `O_NOFOLLOW` met, `at_verify` what the path showed after it. A
  -- content past one MiB is refused whole; the loop reads at most one byte more than that.
  unfoldable pub read_file : ℕ → ℕ → Entry C → Entry C → Result (Dict ApprovalRecord × FileIdentity)
  unfolding validate_metadata identity
  read_file uid max_records at_open at_verify = do
    found ← opened at_open
    validate_metadata uid found.0
    now_at_path ← lstat at_verify
    raise_if (not (found.0.st_dev == now_at_path.0 && found.0.st_ino == now_at_path.1)) value_error
    raise_if (ltb max_approval_file_bytes (size found.1)) value_error
    records ← parse_records found.1 max_records
    ok (records, identity found.0)

  -- The keys stand in the order that `sort_keys=True` gives them.
  unfoldable pub record_payload : ApprovalRecord → Fields
  record_payload r = field (lit "arguments_digest") (str r.arguments_digest) (
      field (lit "capability") (str r.capability) (
        field (lit "expires_at") (float_repr r.expires_at) (
          field (lit "principal") (str r.principal)
            (field (lit "resource") (str r.resource) (field (lit "target") (str r.target) end)))))

  abbrev pub token_fields : Dict ApprovalRecord → Fields
  token_fields [] = end
  token_fields ((token, r) ∷ d) = field token (obj (record_payload r)) (token_fields d)

  unfoldable pub payload : Dict ApprovalRecord → C
  unfolding record_payload
  payload records =
      dumps (obj (field (lit "tokens") (obj (token_fields (sorted_items records))) end))
