-- ===== src/Validators/Destination.antt =====
-- What the curl policy admits as a destination.
use mikrus_mcp.Validators.Curl.{
  in_set, CurlLib, partition_scheme, partition_admitted, schemes_allowed, host_of, local_host_names,
  local_host_suffixes, ends_with, host_is_private_literal, url_admitted,
}
use std.Path.{ap₂}
use mikrus_mcp.Validators.Listed.{prefix-split}
use mikrus_mcp.Prelude.{
  ℕ, Bool, ◌||◌, ◌||◌, Bool, ◌==◌, length, any, has, before, starts_with, drop, inl, inr,
  Bool-cases, Option, none, some, some-inj, Text, List, [], ◌∷◌, ◌++◌, ◌≡◌, ◌⊎◌, true, false,
  text_eq, ap, sym, refl, ◌∙◌, arith,
}

abbrev joined_at : Text → Text → Text
joined_at a b = a ++ b':' ∷ b'/' ∷ b'/' ∷ b

-- The text behind a separator that is found at once.
found_here :
    (x : ℕ) (xs a b : Text)
    → starts_with (b':' ∷ b'/' ∷ b'/' ∷ []) (x ∷ xs) ≡ true
    → ◌≡◌ {A = Option (Text × Text)} (some ([], drop 2 xs)) (some (a, b))
    → x ∷ xs ≡ joined_at a b
found_here x xs a b here h =
    let (v, e) = prefix-split (b':' ∷ b'/' ∷ b'/' ∷ []) (x ∷ xs) here in
    let rest : drop 2 xs ≡ v = ap (drop 3) e in
    let pair = some-inj h in
    e
    ∙ ap₂ joined_at (ap (λ (p : Text × Text). p.0) pair)
        (sym rest ∙ ap (λ (p : Text × Text). p.1) pair)

found_later :
    (x : ℕ) (xs a b : Text) (o : Option (Text × Text))
    → ((a b : Text) → o ≡ some (a, b) → xs ≡ joined_at a b)
    → ◌≡◌ {A = Option (Text × Text)}
        (elim o [ none ↦ none | some (a, b) ↦ some (x ∷ a, b) ])
        (some (a, b))
    → x ∷ xs ≡ joined_at a b
found_later x xs a b none h e = cc
found_later x xs a b (some (c, d)) h e =
    let pair = some-inj e in
    ap (λ t. x ∷ t) (h c d refl)
    ∙ ap₂ joined_at (ap (λ (p : Text × Text). p.0) pair) (ap (λ (p : Text × Text). p.1) pair)

partition_scheme-split : (s a b : Text) → partition_scheme s ≡ some (a, b) → s ≡ joined_at a b
partition_scheme-split [] a b h = cc
partition_scheme-split (x ∷ xs) a b h =
    elim (Bool-cases (starts_with (b':' ∷ b'/' ∷ b'/' ∷ []) (x ∷ xs))) [
      | inl here ↦ found_here x xs a b here (rw here at h)
      | inr later ↦
          found_later x xs a b (partition_scheme xs) (partition_scheme-split xs) (rw later at h)
    ]

configured-cases :
    (p : Text → Bool) (entries : List Text)
    → (length entries == 0 || any p entries) ≡ true
    → (entries ≡ []) ⊎ (any p entries ≡ true)
configured-cases p [] h = inl refl
configured-cases p (x ∷ entries) h = inr (ground arith)

module _ (lib : CurlLib) (destinations : List Text) where
  -- The part of a lowered URL that names its host.
  abbrev pub host_in : Text → Text
  host_in remainder = host_of (before b'?' (before b'/' remainder))

  -- A URL with a listed scheme, no user, and a host that is not local, is not the literal of a
  -- private address, and stands below a configured destination, if there are any.
  pub record IsDestination (url : Text) : Type 0 where
    pub scheme : Text
    pub remainder : Text
    pub spelt : lib.lower url ≡ scheme ++ b':' ∷ b'/' ∷ b'/' ∷ remainder
    pub listed : in_set scheme schemes_allowed ≡ true
    pub no_user : has b'@' (before b'?' (before b'/' remainder)) ≡ false
    pub not_local : in_set (host_in remainder) local_host_names ≡ false
    pub not_below_local : any (λ p. ends_with p (host_in remainder)) local_host_suffixes ≡ false
    pub not_private : host_is_private_literal lib (host_in remainder) ≡ false
    pub configured :
        (destinations ≡ [])
        ⊎ (any
              (λ entry.
                text_eq (lib.lower (host_in remainder)) entry
                || ends_with (b'.' ∷ entry) (lib.lower (host_in remainder)))
              destinations
            ≡ true)

  pub url_admitted-IsDestination :
      (url : Text) → url_admitted lib destinations url ≡ true → IsDestination url
  unfolding url_admitted
  url_admitted-IsDestination url h = of (partition_scheme (lib.lower url)) refl h
    where
      of :
          (o : Option (Text × Text))
          → partition_scheme (lib.lower url) ≡ o
          → partition_admitted lib destinations o ≡ true
          → IsDestination url
      of none e h = cc
      of (some (scheme, remainder)) e h = record {
        scheme = scheme;
        remainder = remainder;
        spelt = partition_scheme-split (lib.lower url) scheme remainder e;
        listed = ground arith;
        no_user = ground arith;
        not_local = ground arith;
        not_below_local = ground arith;
        not_private = ground arith;
        configured = configured-cases _ destinations (ground arith);
      }
