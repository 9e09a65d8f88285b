-- ===== src/Validators/Programs.antt =====
-- validators.py: which typed programs may run, and with which arguments.
use mikrus_mcp.Prelude.{
  ℕ, ◌+◌, Text, text_eq, lit, lits, Option, List, [], ◌∷◌, ◌++◌, ◌||◌, not, any, has, length, ltb,
  if◌then◌else◌,
}
use mikrus_mcp.Errors.{
  Result, ok, err, validation_error, policy_error, program_subcommand_not_permitted,
}
use mikrus_mcp.Results.{◌>>=◌, ◌>>◌, raise_if, or_raise}
use mikrus_mcp.Validators.Paths.{is_control}
use mikrus_mcp.Validators.Curl.{in_set, CurlLib, enforce_curl}

abbrev pub program_executables : List Text
program_executables = lits (
    "cat" ∷ "grep" ∷ "ip" ∷ "journalctl" ∷ "ss" ∷ "sort" ∷ "tail" ∷ "docker" ∷ "curl" ∷ "systemctl"
    ∷ [])

abbrev pub docker_read_subcommands : List Text
docker_read_subcommands =
    lits ("inspect" ∷ "ps" ∷ "images" ∷ "logs" ∷ "version" ∷ "info" ∷ "stats" ∷ "top" ∷ [])

abbrev pub docker_read_phrases : List Text
docker_read_phrases = lits ("network inspect" ∷ "volume ls" ∷ "volume inspect" ∷ [])

abbrev pub docker_global_flags : List Text
docker_global_flags = lits ("--debug" ∷ "-D" ∷ "--help" ∷ "--version" ∷ "-v" ∷ [])

abbrev pub systemctl_read_subcommands : List Text
systemctl_read_subcommands = lits (
    "status" ∷ "list-units" ∷ "list-unit-files" ∷ "is-active" ∷ "is-enabled" ∷ "show" ∷ "cat"
    ∷ "list-timers" ∷ "is-failed" ∷ [])

abbrev pub systemctl_global_flags : List Text
systemctl_global_flags = lits (
    "--no-pager" ∷ "-l" ∷ "--full" ∷ "-a" ∷ "--all" ∷ "-q" ∷ "--quiet" ∷ "--no-legend" ∷ "--plain"
    ∷ [])

abbrev pub max_program_argv_entries : ℕ
max_program_argv_entries = 128

abbrev pub max_program_argv_element : ℕ
max_program_argv_element = 4_096

abbrev pub max_program_argv_total : ℕ
max_program_argv_total = 100_000

unfoldable pub validate_program_executable : Text → Result Text
validate_program_executable executable = do
  raise_if (text_eq executable [] || (ltb 255 (length executable) || any is_control executable))
      validation_error
  raise_if (has b'/' executable || not (in_set executable program_executables)) validation_error
  ok executable

-- One entry of argv, and the total of bytes with it. `utf8_length` is `len(value.encode("utf-8"))`,
-- `none` where a lone surrogate makes it raise.
unfoldable pub check_argument : (Text → Option ℕ) → Text → ℕ → Result ℕ
check_argument utf8_length value total = do
  raise_if
      (text_eq value [] || (ltb max_program_argv_element (length value) || any is_control value))
      validation_error
  bytes ← or_raise (utf8_length value) validation_error
  raise_if (ltb max_program_argv_total (total + bytes)) validation_error
  ok (total + bytes)

unfoldable pub check_arguments : (Text → Option ℕ) → List Text → ℕ → Result (List Text)
unfolding check_argument
check_arguments utf8_length [] total = ok []
check_arguments utf8_length (value ∷ argv) total = do
  total' ← check_argument utf8_length value total
  result ← check_arguments utf8_length argv total'
  ok (value ∷ result)

unfoldable pub validate_program_arguments : (Text → Option ℕ) → List Text → Result (List Text)
validate_program_arguments utf8_length argv =
    if ltb max_program_argv_entries (length argv)
    then err validation_error
    else check_arguments utf8_length argv 0

-- The `while` loop that skips global flags.
unfoldable pub skip_flags : List Text → List Text → List Text
skip_flags flags [] = []
skip_flags flags (t ∷ argv) =
    let rest = skip_flags flags argv in if in_set t flags then rest else t ∷ argv

-- `" ".join(argv[index : index + 2])`
abbrev pub phrase : Text → List Text → Text
phrase t [] = t
phrase t (u ∷ rest) = t ++ b' ' ∷ u

abbrev pub refused : Result (Unit {0})
refused = err (policy_error program_subcommand_not_permitted)

abbrev pub docker_subcommand : List Text → Result (Unit {0})
docker_subcommand [] = refused
docker_subcommand (t ∷ rest) =
    if in_set (phrase t rest) docker_read_phrases || in_set t docker_read_subcommands
    then ok tt
    else refused

unfoldable pub enforce_docker : List Text → Result (Unit {0})
enforce_docker argv = docker_subcommand (skip_flags docker_global_flags argv)

abbrev pub systemctl_subcommand : List Text → Result (Unit {0})
systemctl_subcommand [] = refused
systemctl_subcommand (t ∷ rest) = if in_set t systemctl_read_subcommands then ok tt else refused

unfoldable pub enforce_systemctl : List Text → Result (Unit {0})
enforce_systemctl argv = systemctl_subcommand (skip_flags systemctl_global_flags argv)

-- The policy of an executable; most have none.
unfoldable pub enforce_policy : CurlLib → List Text → Text → List Text → Result (Unit {0})
enforce_policy lib destinations executable arguments =
    if text_eq executable (lit "curl")
    then enforce_curl lib destinations arguments
    else if text_eq executable (lit "docker")
    then enforce_docker arguments
    else if text_eq executable (lit "systemctl")
    then enforce_systemctl arguments
    else ok tt

unfoldable pub validate_program_invocation :
    CurlLib → (Text → Option ℕ) → List Text → Text → List Text → Result (List Text)
validate_program_invocation lib utf8_length destinations executable argv = do
  executable ← validate_program_executable executable
  arguments ← validate_program_arguments utf8_length argv
  enforce_policy lib destinations executable arguments
  ok arguments
