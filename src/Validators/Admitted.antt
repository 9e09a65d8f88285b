-- ===== src/Validators/Admitted.antt =====
-- What the program policies let through.
use mikrus_mcp.Prelude.{
  starts_with, ◌||◌, inr, inl, ap, Bool-cases, lits, ◌≡◌, refl, Text, text_eq, lit, true, false,
  Option, none, some, List, [], ◌∷◌, ◌++◌, arith, All,
}
use mikrus_mcp.Validators.Listed.{IsFlag, IsJoined, IsSpaced}
use mikrus_mcp.Validators.Destination.{IsDestination}
use mikrus_mcp.Errors.{program_argument_not_permitted, policy_error, ok, err}
use mikrus_mcp.Validators.Curl.{
  CurlLib, next_option, destination, classify, constrain_value, url_admitted, scan, enforce_curl,
  in_set, methods_allowed, or_empty, from_file,
}
use mikrus_mcp.Validators.Programs.{
  docker_subcommand, docker_read_phrases, phrase, docker_read_subcommands, docker_global_flags,
  enforce_docker, skip_flags,
}

-- How an admitted command line reads: flags, options with their values, and destinations.
pub data Item : Type 0 where
  flag_item : Text → Item
  joined_item : Text → Text → Text → Item
  spaced_item : Text → Text → Text → Item
  last_item : Text → Text → Item
  url_item : Text → Item

abbrev pub spell : List Item → List Text
spell [] = []
spell (flag_item t ∷ is) = t ∷ spell is
spell (joined_item t f v ∷ is) = t ∷ spell is
spell (spaced_item t f v ∷ is) = t ∷ v ∷ spell is
spell (last_item t f ∷ is) = t ∷ spell is
spell (url_item t ∷ is) = t ∷ spell is

module _ (lib : CurlLib) (destinations : List Text) where
  -- What the policy promises of an option and its value.
  pub record IsHarmless (flag : Text) (value : Option Text) : Type 0 where
    pub method :
        in_set flag (lits ("-X" ∷ "--request" ∷ [])) ≡ true
        → in_set (lib.upper (or_empty value)) methods_allowed ≡ true
    pub format : in_set flag (lits ("-w" ∷ "--write-out" ∷ [])) ≡ true → from_file value ≡ false
    pub header : in_set flag (lits ("-H" ∷ "--header" ∷ [])) ≡ true → from_file value ≡ false
    pub output : flag ≡ lit "-o" → value ≡ some (lit "/dev/null")

  abbrev pub IsAdmitted : Item → Type 0
  IsAdmitted (flag_item t) = IsFlag t
  IsAdmitted (joined_item t f v) = IsJoined t f v × IsHarmless f (some v)
  IsAdmitted (spaced_item t f v) = IsSpaced t f × IsHarmless f (some v)
  IsAdmitted (last_item t f) = IsSpaced t f × IsHarmless f none
  IsAdmitted (url_item t) = (starts_with (b'-' ∷ []) t ≡ false) × IsDestination lib destinations t

  abbrev Reading : List Text → Type 0
  Reading argv = (is : List Item) × (spell is ≡ argv) × All IsAdmitted is

  abbrev ReadsAs : Option Text → List Text → Type 0
  ReadsAs none argv = Reading argv
  ReadsAs (some flag) argv = (t : Text) → classify t ≡ next_option flag → Reading (t ∷ argv)

  -- A destination that the policy refuses when it stands alone is admitted as the value of `--url`.
  pub url_option_unchecked :
      (url : Text)
      → classify url ≡ destination
      → url_admitted lib destinations url ≡ false
      → (enforce_curl lib destinations (lit "-q" ∷ url ∷ [])
          ≡ err (policy_error program_argument_not_permitted))
        × (enforce_curl lib destinations (lit "-q" ∷ lit "--url" ∷ url ∷ []) ≡ ok tt)
  unfolding enforce_curl scan classify constrain_value lit text_eq in_set
  url_option_unchecked url e h = (rw (e, h, scan) refl, refl)

module _ (flags : List Text) where
  -- What is left after the global flags is a suffix behind flags only.
  skip_flags-split :
      (argv : List Text)
      → (skipped : List Text) × (argv ≡ skipped ++ skip_flags flags argv)
        × All (λ t. in_set t flags ≡ true) skipped
  unfolding skip_flags
  skip_flags-split [] = ([], refl, tt)
  skip_flags-split (t ∷ argv) = elim (Bool-cases (in_set t flags)) [
    | inl m ↦ let (sk, e, a) = skip_flags-split argv in (t ∷ sk, rw m (ap (λ ts. t ∷ ts) e), (m, a))
    | inr m ↦ ([], rw m refl, tt)
  ]

-- An admitted docker command is global flags and then a listed subcommand, or a listed pair.
pub enforce_docker-reads :
    (argv : List Text)
    → enforce_docker argv ≡ ok tt
    → (skipped : List Text) × (sub : Text) × (rest : List Text) × (argv ≡ skipped ++ sub ∷ rest)
      × All (λ t. in_set t docker_global_flags ≡ true) skipped
      × ((in_set sub docker_read_subcommands || in_set (phrase sub rest) docker_read_phrases)
          ≡ true)
unfolding enforce_docker
enforce_docker-reads argv h = go (skip_flags docker_global_flags argv) refl h
  where
    go :
        (left : List Text)
        → skip_flags docker_global_flags argv ≡ left
        → docker_subcommand left ≡ ok tt
        → (skipped : List Text) × (sub : Text) × (rest : List Text) × (argv ≡ skipped ++ sub ∷ rest)
          × All (λ t. in_set t docker_global_flags ≡ true) skipped
          × ((in_set sub docker_read_subcommands || in_set (phrase sub rest) docker_read_phrases)
              ≡ true)
    go [] e k = cc
    go (sub ∷ rest) e k =
        let (sk, s, a) = skip_flags-split docker_global_flags argv in
        (sk, sub, rest, rw e at s, a, ground arith)
