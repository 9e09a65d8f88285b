-- ===== src/Crontab/Installed.antt =====
-- cron_profiles.py: the generated line, and what is read of an installed crontab.
use mikrus_mcp.Profiles.Record.{cron_fields}
use mikrus_mcp.Errors.{upstream, key_error, app_error, ok, Result}
use mikrus_mcp.Crontab.Projection.{shell_quote_argument, match_marker, Marker}
use mikrus_mcp.Dict.{lookup, insert, Dict}
use mikrus_mcp.Prelude.{
  ◌||◌, has, not, ◌==◌, text_eq, text_le, ltb, lit, false, ◌++◌, split, length, join, if◌then◌else◌,
  Bool, ℕ, Text, Option, List, none, some, [], ◌∷◌,
}
use mikrus_mcp.Results.{or_raise, ◌>>=◌, ◌>>◌, raise_if}

-- `sorted(environment.items())`: by name, since the names of a dict differ.
abbrev pub place_entry : Text × Text → Dict Text → Dict Text
place_entry e [] = e ∷ []
place_entry e (f ∷ fs) = if text_le e.0 f.0 then e ∷ f ∷ fs else f ∷ place_entry e fs

abbrev pub sorted_entries : Dict Text → Dict Text
sorted_entries [] = []
sorted_entries (e ∷ es) = place_entry e (sorted_entries es)

abbrev pub quote_all : List Text → Result (List Text)
quote_all [] = ok []
quote_all (t ∷ ts) = do q ← shell_quote_argument t; qs ← quote_all ts; ok (q ∷ qs)

abbrev pub quote_environment : Dict Text → Result (List Text)
quote_environment [] = ok []
quote_environment ((k, v) ∷ es) = do
  q ← shell_quote_argument v
  qs ← quote_environment es
  ok ((k ++ b'=' ∷ q) ∷ qs)

-- `schedule[name]`
abbrev pub field_of : Dict Text → Text → Result Text
field_of schedule name = or_raise (lookup name schedule) key_error

abbrev pub fields_of : Dict Text → List Text → Result (List Text)
fields_of schedule [] = ok []
fields_of schedule (n ∷ ns) = do t ← field_of schedule n; ts ← fields_of schedule ns; ok (t ∷ ts)

-- `f"{quoted_environment} {quoted_argv}".strip()`: the arguments are quoted, so that only the space
-- behind an empty environment goes.
abbrev pub command_of : List Text → List Text → Text
command_of [] argv = join b' ' argv
command_of (e ∷ es) argv = join b' ' (e ∷ es) ++ b' ' ∷ join b' ' argv

unfoldable pub generate_cron_line : Dict Text → Text → List Text → Dict Text → Result Text
generate_cron_line schedule executable argv environment = do
  fields ← fields_of schedule cron_fields
  quoted_environment ← quote_environment (sorted_entries environment)
  quoted_argv ← quote_all (executable ∷ argv)
  ok (join b' ' fields ++ b' ' ∷ command_of quoted_environment quoted_argv)

abbrev pub Observed : Type 0
Observed = Dict (List (Option Text))

-- `observed.get(k, [])`
abbrev pub or_empty : Option (List (Option Text)) → List (Option Text)
or_empty none = []
or_empty (some vs) = vs

abbrev pub values : Text → Observed → List (Option Text)
values k observed = or_empty (lookup k observed)

-- `observed.setdefault(k, []).append(v)`
abbrev pub push : Text → Option Text → Observed → Observed
push k v observed = insert k (values k observed ++ v ∷ []) observed

unfoldable pub line_key : Text → Text
line_key profile_id = profile_id ++ lit ":line"

abbrev pub adjacent : List Text → Option Text
adjacent [] = none
adjacent (line ∷ lines) = some line

abbrev pub note_marker : Option Marker → Option Text → Observed → Observed
note_marker none next observed = observed
note_marker (some m) next observed =
    push (line_key m.profile_id) next (push m.profile_id (some m.digest) observed)

abbrev pub scan_lines : List Text → Observed → Observed
scan_lines [] observed = observed
scan_lines (line ∷ lines) observed =
    scan_lines lines (note_marker (match_marker line) (adjacent lines) observed)

unfoldable pub scan_installed : Text → Observed
unfolding line_key
scan_installed text = scan_lines (split b'\n' text) []

unfoldable pub marker_count : Observed → Text → ℕ
marker_count observed profile_id = length (values profile_id observed)

abbrev pub first_of : List (Option Text) → Option Text
first_of [] = none
first_of (v ∷ vs) = v

unfoldable pub adjacent_line : Observed → Text → Option Text
unfolding line_key
adjacent_line observed profile_id = first_of (values (line_key profile_id) observed)

pub data ProfileState : Type 0 where
  duplicated missing modified in_sync : ProfileState

abbrev pub is_value : Option Text → Text → Bool
is_value none t = false
is_value (some u) t = text_eq u t

unfoldable pub profile_state : Observed → Text → Text → Text → ProfileState
unfolding marker_count adjacent_line
profile_state observed profile_id generated digest =
    if ltb 1 (marker_count observed profile_id)
    then duplicated
    else if marker_count observed profile_id == 0
    then missing
    else if not (is_value (adjacent_line observed profile_id) generated)
        || not (is_value (first_of (values profile_id observed)) digest)
    then modified
    else in_sync

abbrev pub max_crontab_text_bytes : ℕ
max_crontab_text_bytes = 1_048_576

-- `byte_size` is the length of the text's UTF-8 form.
unfoldable pub validate_installed_text : (Text → ℕ) → Text → Result Text
validate_installed_text byte_size text = do
  raise_if (ltb max_crontab_text_bytes (byte_size text)) (app_error upstream)
  raise_if (has 0 text) (app_error upstream)
  ok text
