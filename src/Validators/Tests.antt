-- ===== src/Validators/Tests.antt =====
-- Tests of the path rules and the program policies, and the theorems about them at concrete input.
use mikrus_mcp.Validators.Programs.{
  docker_read_phrases, phrase, docker_read_subcommands, docker_global_flags, skip_flags,
  enforce_docker,
}
use mikrus_mcp.Validators.Paths.{
  is_control, PosixPath, within, to_text, of_text, is_part, check_path, validate_path,
}
use mikrus_mcp.Validators.Curl.{url_admitted, in_set, enforce_curl, classify, CurlLib}
use mikrus_mcp.Prelude.{
  ◌||◌, refl, ◌+◌, any, [], All, ◌∷◌, ◌++◌, ◌&&◌, true, ◌≡◌, none, lits, leb, map, if◌then◌else◌,
  false, List, Lacks, ℕ, text_eq, lit, Text,
}
use mikrus_mcp.Prelude.{List, Text, ◌-◌, true}
use mikrus_mcp.Errors.{program_argument_not_permitted, policy_error, ok, err}
use mikrus_mcp.Validators.SafePaths.{
  IsSafeWrite, IsPart, validate_path-IsSafeWrite, validate_path_idempotent, double_slash_read,
}
use mikrus_mcp.Validators.Admitted.{url_option_unchecked, enforce_docker-reads}

-- ASCII case mapping, and no host that is an address.
abbrev lower_byte : ℕ → ℕ
lower_byte c = if leb 65 c && leb c 90 then c + 32 else c

abbrev upper_byte : ℕ → ℕ
upper_byte c = if leb 97 c && leb c 122 then c - 32 else c

abbrev ascii : CurlLib
ascii = record { lower = map lower_byte; upper = map upper_byte; ip_address = λ t. none }

abbrev log_path : Text
unfolding lit
log_path = lit "/var//log/./app"

abbrev log_normal : Text
unfolding lit
log_normal = lit "/var/log/app"

abbrev curl_line : List Text
unfolding lit
curl_line = lits ("-q" ∷ "-o" ∷ "/dev/null" ∷ "http://example.com/" ∷ [])

abbrev hosts : List Text
unfolding lit
hosts = lits ("example.com" ∷ [])

abbrev local_url : Text
unfolding lit
local_url = lit "http://localhost/"

abbrev docker_line : List Text
unfolding lit
docker_line = lits ("-D" ∷ "volume" ∷ "ls" ∷ [])

validate_path_test : validate_path true log_path ≡ ok log_normal
unfolding validate_path check_path of_text to_text within text_eq lit
validate_path_test = refl

validate_path-IsSafeWrite_example : (p : PosixPath) × (log_normal ≡ to_text p) × IsSafeWrite p
unfolding validate_path check_path of_text to_text within text_eq lit
validate_path-IsSafeWrite_example = validate_path-IsSafeWrite log_path log_normal refl

validate_path_idempotent_example : validate_path true log_normal ≡ ok log_normal
unfolding validate_path check_path of_text to_text within text_eq lit
validate_path_idempotent_example = validate_path_idempotent true log_path log_normal refl

enforce_docker-reads_example :
    (skipped : List Text) × (sub : Text) × (rest : List Text) × (docker_line
      ≡ skipped ++ sub ∷ rest)
    × All (λ t. in_set t docker_global_flags ≡ true) skipped
    × ((in_set sub docker_read_subcommands || in_set (phrase sub rest) docker_read_phrases) ≡ true)
unfolding enforce_docker skip_flags in_set text_eq lit
enforce_docker-reads_example = enforce_docker-reads docker_line refl

abbrev etc : Text
unfolding lit
etc = lit "etc"

abbrev shadow : Text
unfolding lit
shadow = lit "shadow"

abbrev shadow_path : Text
unfolding lit
shadow_path = lit "//etc/shadow"

abbrev part_facts :
    (t : Text) → Lacks b'/' t → is_part t ≡ true → any is_control t ≡ false → IsPart t
part_facts t s k p = record { slash = s; kept = k; printable = p }

double_slash_read_example : validate_path false shadow_path ≡ ok shadow_path
unfolding text_eq lit
double_slash_read_example =
    double_slash_read etc (shadow ∷ [])
      (part_facts etc refl refl refl, (part_facts shadow refl refl refl, tt)) refl

url_option_unchecked_example :
    (enforce_curl ascii hosts (lit "-q" ∷ local_url ∷ [])
      ≡ err (policy_error program_argument_not_permitted))
    × (enforce_curl ascii hosts (lit "-q" ∷ lit "--url" ∷ local_url ∷ []) ≡ ok tt)
unfolding classify in_set text_eq lit url_admitted
url_option_unchecked_example = url_option_unchecked ascii hosts local_url refl refl
