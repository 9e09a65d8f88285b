-- ===== src/Validators/Curl.antt =====
-- validators.py: the diagnostic curl policy.
use mikrus_mcp.Prelude.{
  ◌==◌, ℕ, Text, text_eq, lit, lits, Bool, false, Option, none, some, List, [], ◌∷◌, ◌&&◌, ◌||◌,
  not, any, all, has, before, after, starts_with, length, drop, ltb, if◌then◌else◌,
}
use mikrus_mcp.Errors.{Result, ok, err, policy_error, program_argument_not_permitted}
use mikrus_mcp.Results.{◌>>◌, raise_if}
use mathlib.Core.List.{reverse}

-- An address that `ipaddress.ip_address` read, by `is_global` of itself and of the IPv4 address that
-- it maps, if any.
pub record IpAddress : Type 0 where
  pub is_global : Bool
  pub ipv4_mapped : Option Bool

-- What the policy calls of the standard library: `str.lower`, `str.upper` and the address parser.
pub record CurlLib : Type 0 where
  pub lower : Text → Text
  pub upper : Text → Text
  pub ip_address : Text → Option IpAddress

-- `value in {...}`
unfoldable pub in_set : Text → List Text → Bool
in_set t xs = any (text_eq t) xs

abbrev pub flags_with_value : List Text
flags_with_value = lits (
    "-o" ∷ "-w" ∷ "-H" ∷ "-m" ∷ "--max-time" ∷ "--connect-timeout" ∷ "--url" ∷ "-X" ∷ "--request"
    ∷ "-A" ∷ "--user-agent" ∷ [])

abbrev pub flag_value_prefixes : List Text
flag_value_prefixes = lits ("--write-out=" ∷ "--header=" ∷ "--url=" ∷ [])

abbrev pub flags_no_value : List Text
flags_no_value = lits (
    "-q" ∷ "--disable" ∷ "-s" ∷ "--silent" ∷ "-S" ∷ "--show-error" ∷ "-I" ∷ "--head" ∷ "-v"
    ∷ "--verbose" ∷ "-i" ∷ "--include" ∷ "--compressed" ∷ [])

abbrev pub methods_allowed : List Text
methods_allowed = lits ("GET" ∷ "HEAD" ∷ [])

abbrev pub disabled_config_flags : List Text
disabled_config_flags = lits ("-q" ∷ "--disable" ∷ [])

abbrev pub local_host_names : List Text
local_host_names = lits ("localhost" ∷ "metadata" ∷ [])

abbrev pub local_host_suffixes : List Text
local_host_suffixes = lits (".localhost" ∷ ".local" ∷ ".internal" ∷ ".home.arpa" ∷ [])

abbrev pub schemes_allowed : List Text
schemes_allowed = lits ("http" ∷ "https" ∷ [])

-- `s.endswith(p)`
abbrev pub ends_with : Text → Text → Bool
ends_with p s = starts_with (reverse p) (reverse s)

-- `s.partition("://")`: the text before it and the text behind it, if it is there.
abbrev pub partition_scheme : Text → Option (Text × Text)
partition_scheme [] = none
partition_scheme (x ∷ xs) =
    let rest = partition_scheme xs in
    if starts_with (b':' ∷ b'/' ∷ b'/' ∷ []) (x ∷ xs)
    then some ([], drop 2 xs)
    else elim rest [ none ↦ none | some (a, b) ↦ some (x ∷ a, b) ]

-- `s.rsplit(":", 1)[0]`
abbrev pub before_last_colon : Text → Text
before_last_colon s = if has b':' s then reverse (after b':' (reverse s)) else s

-- `authority` up to the bracket, or up to the port.
abbrev pub host_of : Text → Text
host_of [] = before_last_colon []
host_of (c ∷ rest) = if c == b'[' then before b']' rest else before_last_colon (c ∷ rest)

-- `host[1:-1]` of a host in brackets, and `host.split("%", 1)[0]`.
abbrev pub unbracket : Text → Text
unbracket host =
    if starts_with (b'[' ∷ []) host && ends_with (b']' ∷ []) host
    then reverse (drop 1 (reverse (drop 1 host)))
    else host

abbrev pub global_of : IpAddress → Bool
global_of a = elim (a.ipv4_mapped) [ none ↦ a.is_global | some mapped ↦ mapped ]

abbrev pub is_private_address : Option IpAddress → Bool
is_private_address none = false
is_private_address (some a) = not (global_of a)

-- `value or ""`
abbrev pub or_empty : Option Text → Text
or_empty none = []
or_empty (some v) = v

-- `value is not None and value.startswith("@")`
abbrev pub from_file : Option Text → Bool
from_file none = false
from_file (some v) = starts_with (b'@' ∷ []) v

abbrev pub is_null_output : Option Text → Bool
is_null_output none = false
is_null_output (some v) = text_eq v (lit "/dev/null")

-- What a token is: a flag alone, an option with its value in the token, an option whose value is the
-- next token, a destination, or an option that is not on the list.
pub data Token : Type 0 where
  plain_flag : Token
  joined_option : Text → Text → Token
  next_option : Text → Token
  destination : Token
  unlisted : Token

-- The last character and those before it.
abbrev pub last_of : ℕ → Text → ℕ
last_of c [] = c
last_of c (d ∷ rest) = last_of d rest

abbrev pub but_last : ℕ → Text → Text
but_last c [] = []
but_last c (d ∷ rest) = c ∷ but_last d rest

abbrev pub short : ℕ → Text
short c = b'-' ∷ c ∷ []

abbrev pub all_short_flags : Text → Bool
all_short_flags cs = all (λ c. in_set (short c) flags_no_value) cs

-- `_curl_option_value`: a value in the token itself, or the next token.
unfoldable pub option_value : Text → Text → Token
option_value flag token =
    if starts_with (b'-' ∷ b'-' ∷ []) token
    then (if has b'=' token then joined_option flag (after b'=' token) else next_option flag)
    else (if ltb 2 (length token) then joined_option flag (drop 2 token) else next_option flag)

abbrev pub listed_option : Text → Token
listed_option token =
    if in_set token flags_with_value || any (λ p. starts_with p token) flag_value_prefixes
    then option_value (before b'=' token) token
    else unlisted

-- Several short flags in one token, the last of which may take a value.
abbrev pub bundle : ℕ → Text → Text → Token
bundle c cs token =
    if all_short_flags (c ∷ cs)
    then plain_flag
    else if all_short_flags (but_last c cs) && in_set (short (last_of c cs)) flags_with_value
    then option_value (short (last_of c cs)) token
    else listed_option token

abbrev pub classify_short : Text → Text → Token
classify_short [] token = listed_option token
classify_short (c ∷ cs) token = bundle c cs token

unfoldable pub classify : Text → Token
unfolding option_value
classify token =
    if not (starts_with (b'-' ∷ []) token)
    then destination
    else if in_set token flags_no_value
    then plain_flag
    else if ltb 2 (length token) && not (starts_with (b'-' ∷ b'-' ∷ []) token)
    then classify_short (drop 1 token) token
    else listed_option token

module _ (lib : CurlLib) where
  open lib use {lower, upper, ip_address}

  unfoldable pub host_is_private_literal : Text → Bool
  host_is_private_literal host = is_private_address (ip_address (before b'%' (unbracket host)))

  abbrev pub host_admitted : List Text → Text → Bool
  host_admitted destinations host =
      not (in_set host local_host_names || any (λ p. ends_with p host) local_host_suffixes)
      && (not (host_is_private_literal host)
          && (length destinations == 0
              || any (λ entry. text_eq (lower host) entry || ends_with (b'.' ∷ entry) (lower host))
                  destinations))

  abbrev pub authority_admitted : List Text → Text → Bool
  authority_admitted destinations authority =
      not (has b'@' authority) && host_admitted destinations (host_of authority)

  -- `_curl_url_violation(url, destinations) is None`
  abbrev pub partition_admitted : List Text → Option (Text × Text) → Bool
  partition_admitted destinations none = false
  partition_admitted destinations (some (scheme, remainder)) =
      in_set scheme schemes_allowed
      && authority_admitted destinations (before b'?' (before b'/' remainder))

  unfoldable pub url_admitted : List Text → Text → Bool
  unfolding host_is_private_literal
  url_admitted destinations url = partition_admitted destinations (partition_scheme (lower url))

  unfoldable pub constrain_value : Text → Option Text → Result (Unit {0})
  constrain_value flag value = do
    raise_if
        (in_set flag (lits ("-X" ∷ "--request" ∷ []))
          && not (in_set (upper (or_empty value)) methods_allowed))
        (policy_error program_argument_not_permitted)
    raise_if (in_set flag (lits ("-w" ∷ "--write-out" ∷ [])) && from_file value)
        (policy_error program_argument_not_permitted)
    raise_if (in_set flag (lits ("-H" ∷ "--header" ∷ [])) && from_file value)
        (policy_error program_argument_not_permitted)
    raise_if (text_eq flag (lit "-o") && not (is_null_output value))
        (policy_error program_argument_not_permitted)

  -- The loop over argv; the first argument is the option that waits for its value.
  unfoldable pub scan : List Text → Option Text → List Text → Result (Unit {0})
  scan destinations none [] = ok tt
  scan destinations (some flag) [] = constrain_value flag none
  scan destinations (some flag) (value ∷ argv) = do
    constrain_value flag (some value)
    scan destinations none argv
  scan destinations none (token ∷ argv) = elim (classify token) [
    | plain_flag ↦ scan destinations none argv
    | joined_option flag value ↦ (do constrain_value flag (some value); scan destinations none argv)
    | next_option flag ↦ scan destinations (some flag) argv
    | destination ↦ (do
      raise_if (not (url_admitted destinations token)) (policy_error program_argument_not_permitted)
      scan destinations none argv)
    | unlisted ↦ err (policy_error program_argument_not_permitted)
  ]

  unfoldable pub enforce_curl : List Text → List Text → Result (Unit {0})
  enforce_curl destinations [] = err (policy_error program_argument_not_permitted)
  enforce_curl destinations (first ∷ argv) =
      if in_set first disabled_config_flags
      then scan destinations none argv
      else err (policy_error program_argument_not_permitted)
