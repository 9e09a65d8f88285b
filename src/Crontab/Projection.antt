-- ===== src/Crontab/Projection.antt =====
-- cron_profiles.py: quoting, the generated lines, and the edits of a crontab text.
use mikrus_mcp.Validators.Paths.{is_control}
use mikrus_mcp.Errors.{conflict, validation, not_found, app_error, ok, err, Result}
use mikrus_mcp.Prelude.{
  join, ltb, after, length, before, ◌+◌, ◌&&◌, text_eq, split, none, has, ◌||◌, ◌==◌, true, some,
  leb, false, any, all, ℕ, if◌then◌else◌, Option, Bool, List, Text, lit, [], ◌∷◌, ◌++◌,
}
use mikrus_mcp.Results.{◌>>=◌, ◌>>◌, raise_if}

-- `[\x00-\x1f\x7f%]`
abbrev pub is_unsafe : ℕ → Bool
is_unsafe c = is_control c || c == b'%'

abbrev pub escape : Text → Text
escape [] = []
escape (c ∷ s) =
    let rest = escape s in if c == b'\'' then b'\'' ∷ b'\\' ∷ b'\'' ∷ b'\'' ∷ rest else c ∷ rest

unfoldable pub shell_quote_argument : Text → Result Text
shell_quote_argument value =
    if any is_unsafe value
    then err (app_error validation)
    else ok (b'\'' ∷ escape value ++ b'\'' ∷ [])

unfoldable pub marker_line : Text → Text → Text
marker_line profile_id digest =
    lit "# mikrus-mcp:" ++ (profile_id ++ b':' ∷ (lit "sha256=" ++ digest))

-- What `_MARKER.fullmatch(line)` finds: the profile and the digest.
pub record Marker : Type 0 where
  pub profile_id : Text
  pub digest : Text

abbrev pub is_lower_or_digit : ℕ → Bool
is_lower_or_digit c = (leb b'a' c && leb c b'z') || (leb b'0' c && leb c b'9')

abbrev pub is_profile_char : ℕ → Bool
is_profile_char c = is_lower_or_digit c || (c == b'_' || c == b'-')

abbrev pub is_hex : ℕ → Bool
is_hex c = (leb b'0' c && leb c b'9') || (leb b'a' c && leb c b'f')

-- `[a-z0-9][a-z0-9_-]{0,63}`
abbrev pub is_profile_id : Text → Bool
is_profile_id [] = false
is_profile_id (c ∷ s) = is_lower_or_digit c && (all is_profile_char s && leb (length s) 63)

-- `[0-9a-f]{64}`
abbrev pub is_digest : Text → Bool
is_digest s = all is_hex s && length s == 64

-- What is behind a prefix.
abbrev pub strip_prefix : Text → Text → Option Text
strip_prefix [] s = some s
strip_prefix (x ∷ p) [] = none
strip_prefix (x ∷ p) (y ∷ s) = let rest = strip_prefix p s in if x == y then rest else none

-- The profile has no `:`, so that the first one ends it.
abbrev pub match_tail : Text → Option Text → Option Marker
match_tail profile_id none = none
match_tail profile_id (some digest) =
    if is_profile_id profile_id && is_digest digest
    then some (record { profile_id = profile_id; digest = digest })
    else none

abbrev pub match_body : Option Text → Option Marker
match_body none = none
match_body (some body) =
    if has b':' body
    then match_tail (before b':' body) (strip_prefix (lit "sha256=") (after b':' body))
    else none

unfoldable pub match_marker : Text → Option Marker
match_marker line = match_body (strip_prefix (lit "# mikrus-mcp:") line)

abbrev pub is_marker_of : Text → Option Marker → Bool
is_marker_of profile_id none = false
is_marker_of profile_id (some m) = text_eq m.profile_id profile_id

-- The loop of `_remove_pair_unlocked`: the lines that stay and the number of markers met. The flag
-- tells that the line is behind a marker that was dropped.
unfoldable pub remove_pairs : Text → Bool → List Text → List Text × ℕ
unfolding match_marker
remove_pairs profile_id skip [] = ([], 0)
remove_pairs profile_id true (line ∷ lines) = remove_pairs profile_id false lines
remove_pairs profile_id false (line ∷ lines) =
    let dropped = remove_pairs profile_id true lines in
    let kept = remove_pairs profile_id false lines in
    if is_marker_of profile_id (match_marker line)
    then (dropped.0, 1 + dropped.1)
    else (line ∷ kept.0, kept.1)

unfoldable pub remove_pair : Text → Text → Bool → Result Text
unfolding remove_pairs
remove_pair text profile_id expected = do
  raise_if ((remove_pairs profile_id false (split b'\n' text)).1 == 0 && expected)
      (app_error not_found)
  raise_if (ltb 1 (remove_pairs profile_id false (split b'\n' text)).1) (app_error conflict)
  ok (join b'\n' (remove_pairs profile_id false (split b'\n' text)).0)

-- `text.endswith("\n")`
abbrev pub ends_line : Text → Bool
ends_line [] = false
ends_line (c ∷ []) = c == b'\n'
ends_line (c ∷ d ∷ s) = ends_line (d ∷ s)

-- The text before the new pair, its last line ended.
abbrev pub terminated : Text → Text
terminated [] = []
terminated (c ∷ s) = if ends_line (c ∷ s) then c ∷ s else c ∷ s ++ b'\n' ∷ []

abbrev pub pair_text : Text → Text → Text → Text
pair_text profile_id generated digest =
    marker_line profile_id digest ++ b'\n' ∷ (generated ++ b'\n' ∷ [])

unfoldable pub upsert_in_text : Text → Text → Text → Text → Result Text
unfolding remove_pair
upsert_in_text text profile_id generated digest = do
  without ← remove_pair text profile_id false
  ok (terminated without ++ pair_text profile_id generated digest)

unfoldable pub remove_from_text : Text → Text → Result Text
unfolding remove_pair
remove_from_text text profile_id = remove_pair text profile_id true
