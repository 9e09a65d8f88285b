-- ===== src/Validators/Paths.antt =====
-- validators.py: `validate_path`, with the `PurePosixPath` operations that it uses.
use mikrus_mcp.Prelude.{
  ℕ, Text, text_eq, lits, Bool, true, false, List, [], ◌∷◌, ◌&&◌, ◌||◌, not, any, filter, split,
  join, starts_with, ltb, ◌==◌, if◌then◌else◌,
}
use mikrus_mcp.Errors.{Result, ok, validation_error}
use mikrus_mcp.Results.{◌>>◌, raise_if}

-- An absolute `PurePosixPath`. Its root is one slash or exactly two: POSIX leaves the meaning of a
-- path that begins with exactly two slashes open, and `pathlib` keeps the two apart.
pub record PosixPath : Type 0 where
  pub double_root : Bool
  pub parts : List Text

abbrev pub is_double_root : Text → Bool
is_double_root path =
    starts_with (b'/' ∷ b'/' ∷ []) path && not (starts_with (b'/' ∷ b'/' ∷ b'/' ∷ []) path)

-- A component that `pathlib` keeps.
abbrev pub is_part : Text → Bool
is_part t = not (text_eq t [] || text_eq t (b'.' ∷ []))

-- `PurePosixPath(path)` of an absolute path.
unfoldable pub of_text : Text → PosixPath
of_text path = record {
  double_root = is_double_root path;
  parts = filter is_part (split b'/' path);
}

-- `str(path)`
unfoldable pub to_text : PosixPath → Text
to_text p = if p.double_root then b'/' ∷ b'/' ∷ join b'/' p.parts else b'/' ∷ join b'/' p.parts

abbrev pub is_prefix : List Text → List Text → Bool
is_prefix [] ys = true
is_prefix (x ∷ xs) [] = false
is_prefix (x ∷ xs) (y ∷ ys) = text_eq x y && is_prefix xs ys

-- `path == parent or parent in path.parents`, for a parent whose root is one slash.
unfoldable pub within : PosixPath → List Text → Bool
within path parent = not path.double_root && is_prefix parent path.parts

abbrev pub read_denied : List (List Text)
read_denied =
    lits ("etc" ∷ "shadow" ∷ [])
    ∷ lits ("etc" ∷ "gshadow" ∷ [])
    ∷ lits ("root" ∷ ".ssh" ∷ [])
    ∷ lits ("proc" ∷ "kcore" ∷ [])
    ∷ []

abbrev pub write_denied : List (List Text)
write_denied =
    lits ("etc" ∷ [])
    ∷ lits ("boot" ∷ [])
    ∷ lits ("dev" ∷ [])
    ∷ lits ("proc" ∷ [])
    ∷ lits ("root" ∷ [])
    ∷ lits ("sys" ∷ [])
    ∷ []

abbrev pub write_roots : List (List Text)
write_roots =
    lits ("home" ∷ [])
    ∷ lits ("opt" ∷ [])
    ∷ lits ("srv" ∷ [])
    ∷ lits ("tmp" ∷ [])
    ∷ lits ("var" ∷ "log" ∷ [])
    ∷ lits ("var" ∷ "www" ∷ [])
    ∷ []

-- `[\x00-\x1f\x7f]`
abbrev pub is_control : ℕ → Bool
is_control c = ltb c 32 || c == 127

abbrev pub is_traversal : Text → Bool
is_traversal t = text_eq t (b'.' ∷ b'.' ∷ []) || text_eq t (b'~' ∷ [])

-- The tests on the path that was read. The path that the source builds of its parts is the same
-- path: its parts hold no `/` and no `.`, and a root of two slashes is joined as a root again.
unfoldable pub check_path : Bool → PosixPath → Result Text
unfolding within to_text
check_path for_write normalized = do
  raise_if (any is_traversal normalized.parts) validation_error
  raise_if (any (within normalized) (if for_write then write_denied else read_denied))
      validation_error
  raise_if (for_write && not (any (within normalized) write_roots)) validation_error
  ok (to_text normalized)

-- The path is a text; the tests for other values are in its type.
unfoldable pub validate_path : Bool → Text → Result Text
validate_path for_write path = do
  raise_if (text_eq path []) validation_error
  raise_if (not (starts_with (b'/' ∷ []) path) || any is_control path) validation_error
  check_path for_write (of_text path)
