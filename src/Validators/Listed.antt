-- ===== src/Validators/Listed.antt =====
-- What the curl policy takes a token for, told by the lists alone.
use mathlib.Core.List.{append_assoc}
use std.Path.{subst, ap₂}
use mikrus_mcp.Validators.Curl.{
  in_set, flags_no_value, flags_with_value, flag_value_prefixes, short, all_short_flags, last_of,
  but_last, bundle, classify_short, listed_option, option_value, classify, Token, plain_flag,
  joined_option, next_option, destination, unlisted,
}
use mikrus_mcp.Prelude.{
  ◌==◌, All, Bool, Bool-cases, inl, inr, ◌⊎◌, ◌≡◌, ◌∙◌, ap, sym, refl, ℕ, Text, List, [], ◌∷◌, ◌++◌,
  lit, lits, true, false, not, ◌&&◌, ◌||◌, all, any, has, before, after, starts_with, ltb, length,
  drop, text_eq, text_eq_iff, arith,
}

-- Every one of these letters is a listed flag.
abbrev pub AreFlags : Text → Type 0
AreFlags cs = All (λ c. in_set (short c) flags_no_value ≡ true) cs

-- A listed flag, or a dash and letters that are listed flags.
abbrev pub IsFlag : Text → Type 0
IsFlag t = (in_set t flags_no_value ≡ true) ⊎ ((cs : Text) × (t ≡ b'-' ∷ cs) × AreFlags cs)

abbrev pub joined_names : List Text
joined_names = lits ("--write-out" ∷ "--header" ∷ "--url" ∷ [])

-- A listed long option with its value behind an equals sign, or letters of listed flags and then
-- one of a listed option, whose value is then all that stands behind the first letter.
abbrev pub IsJoined : Text → Text → Text → Type 0
IsJoined t f v =
    ((t ≡ f ++ b'=' ∷ v) × (in_set f joined_names ≡ true))
    ⊎ ((cs : Text) × (c : ℕ) × (t ≡ b'-' ∷ (cs ++ c ∷ []))
        × AreFlags cs
        × (f ≡ short c)
        × (in_set f flags_with_value ≡ true)
        × (v ≡ drop 2 t))

-- A listed option that stands alone.
abbrev pub IsSpaced : Text → Text → Type 0
IsSpaced t f = (t ≡ f) × (in_set f flags_with_value ≡ true)

abbrev pub Reads : Text → Token → Type 0
Reads t plain_flag = IsFlag t
Reads t (joined_option f v) = IsJoined t f v
Reads t (next_option f) = IsSpaced t f
Reads t destination = starts_with (b'-' ∷ []) t ≡ false
Reads t unlisted = Unit {0}

in_set-all :
    (p : Text → Bool) (t : Text) (xs : List Text)
    → in_set t xs ≡ true
    → all p xs ≡ true
    → p t ≡ true
unfolding in_set
in_set-all p t [] h a = cc
in_set-all p t (x ∷ xs) h a = elim (Bool-cases (text_eq t x)) [
  | inl same ↦ let here : p x ≡ true = ground arith in ap p ((text_eq_iff t x).0 same) ∙ here
  | inr other ↦ in_set-all p t xs (rw other at h) (ground arith)
]

all-AreFlags : (cs : Text) → all_short_flags cs ≡ true → AreFlags cs
all-AreFlags [] h = tt
all-AreFlags (c ∷ cs) h = (ground arith, all-AreFlags cs (ground arith))

but_last-last_of : (c : ℕ) (cs : Text) → but_last c cs ++ last_of c cs ∷ [] ≡ c ∷ cs
but_last-last_of c [] = refl
but_last-last_of c (d ∷ cs) = ap (λ x. c ∷ x) (but_last-last_of d cs)

before-none : (c : ℕ) (t : Text) → has c t ≡ false → before c t ≡ t
before-none c [] h = refl
before-none c (x ∷ t) h = ground (arith, before-none c t)

pub prefix-split : (p t : Text) → starts_with p t ≡ true → (v : Text) × (t ≡ p ++ v)
prefix-split [] t h = (t, refl)
prefix-split (x ∷ p) [] h = cc
prefix-split (x ∷ p) (y ∷ t) h =
    let (v, e) = prefix-split p t (ground arith) in
    let same : y ≡ x = ground arith in (v, ap₂ (λ (a : ℕ) (b : Text). a ∷ b) same e)

-- Where a text without equals sign stands before one.
equals-found :
    (f v : Text)
    → has b'=' f ≡ false
    → (has b'=' (f ++ b'=' ∷ v) ≡ true)
      × (before b'=' (f ++ b'=' ∷ v) ≡ f)
      × (after b'=' (f ++ b'=' ∷ v) ≡ v)
equals-found [] v n = (refl, refl, refl)
equals-found (y ∷ f) v n = elim (Bool-cases (y == b'=')) [
  | inl same ↦ let bad : true ≡ false = rw same at n in cc
  | inr other ↦
      let (h, b, a) = equals-found f v (rw other at n) in rw other (h, ap (λ x. y ∷ x) b, a)
]

-- An option that is listed with its equals sign.
joined-Reads :
    (f t : Text)
    → has b'=' f ≡ false
    → starts_with (b'-' ∷ b'-' ∷ []) t ≡ true
    → in_set f joined_names ≡ true
    → starts_with (f ++ b'=' ∷ []) t ≡ true
    → Reads t (option_value (before b'=' t) t)
unfolding option_value
joined-Reads f t n long listed h =
    let (v, e) = prefix-split (f ++ b'=' ∷ []) t h in
    let e1 : t ≡ f ++ b'=' ∷ v = e ∙ append_assoc f (b'=' ∷ []) v in
    let (has_it, name, value) = equals-found f v n in
    rw (long, ap (has b'=') e1 ∙ has_it, ap (before b'=') e1 ∙ name, ap (after b'=') e1 ∙ value)
      (inl (e1, listed))

-- The listed options have no equals sign, and the short ones are a dash and a letter.
abbrev spaced_name : Text → Bool
spaced_name t = not (has b'=' t) && (starts_with (b'-' ∷ b'-' ∷ []) t || not (ltb 2 (length t)))

spaced_names : all spaced_name flags_with_value ≡ true
unfolding lit
spaced_names = refl

spaced-Reads :
    (t : Text) → in_set t flags_with_value ≡ true → Reads t (option_value (before b'=' t) t)
unfolding option_value
spaced-Reads t h =
    let named : spaced_name t ≡ true = in_set-all spaced_name t flags_with_value h spaced_names in
    let plain : has b'=' t ≡ false = ground arith in
    let name : before b'=' t ≡ t = before-none b'=' t plain in
    elim (Bool-cases (starts_with (b'-' ∷ b'-' ∷ []) t)) [
      | inl long ↦ rw (long, plain, name) (refl, h)
      | inr dash ↦
          let brief : ltb 2 (length t) ≡ false = ground arith in rw (dash, brief, name) (refl, h)
    ]

first_two :
    (x y : ℕ) (p t : Text) → starts_with (x ∷ y ∷ p) t ≡ true → starts_with (x ∷ y ∷ []) t ≡ true
first_two x y p [] h = cc
first_two x y p (a ∷ []) h = ground arith
first_two x y p (a ∷ b ∷ t) h = ground arith

prefix-Reads :
    (t : Text)
    → any (λ p. starts_with p t) flag_value_prefixes ≡ true
    → Reads t (option_value (before b'=' t) t)
unfolding lit in_set text_eq
prefix-Reads t h = elim (Bool-cases (starts_with (lit "--write-out=") t)) [
  | inl format ↦
      joined-Reads (lit "--write-out") t refl (first_two b'-' b'-' (lit "write-out=") t format) refl
        format
  | inr a ↦ elim (Bool-cases (starts_with (lit "--header=") t)) [
    | inl header ↦
        joined-Reads (lit "--header") t refl (first_two b'-' b'-' (lit "header=") t header) refl
          header
    | inr b ↦ elim (Bool-cases (starts_with (lit "--url=") t)) [
      | inl url ↦
          joined-Reads (lit "--url") t refl (first_two b'-' b'-' (lit "url=") t url) refl url
      | inr c ↦ let bad : false ≡ true = rw (a, b, c) at h in cc
    ]
  ]
]

listed_option-Reads : (t : Text) → Reads t (listed_option t)
listed_option-Reads t = elim (Bool-cases (in_set t flags_with_value)) [
  | inl spaced ↦ rw spaced (spaced-Reads t spaced)
  | inr other ↦ elim (Bool-cases (any (λ p. starts_with p t) flag_value_prefixes)) [
    | inl joined ↦ rw (other, joined) (prefix-Reads t joined)
    | inr unknown ↦ rw (other, unknown) tt
  ]
]

bundle-Reads :
    (c : ℕ) (cs : Text)
    → ltb 2 (length (b'-' ∷ c ∷ cs)) ≡ true
    → starts_with (b'-' ∷ b'-' ∷ []) (b'-' ∷ c ∷ cs) ≡ false
    → Reads (b'-' ∷ c ∷ cs) (bundle c cs (b'-' ∷ c ∷ cs))
unfolding option_value
bundle-Reads c cs long dash = elim (Bool-cases (all_short_flags (c ∷ cs))) [
  | inl flags ↦ rw flags (inr (c ∷ cs, refl, all-AreFlags (c ∷ cs) flags))
  | inr mixed ↦ elim (Bool-cases (all_short_flags (but_last c cs))) [
    | inl firsts ↦ elim (Bool-cases (in_set (short (last_of c cs)) flags_with_value)) [
      | inl takes ↦
          rw (mixed, firsts, takes, dash, long)
            (inr (
              but_last c cs,
              last_of c cs,
              ap (λ x. b'-' ∷ x) (sym (but_last-last_of c cs)),
              all-AreFlags (but_last c cs) firsts,
              refl,
              takes,
              refl,
            ))
      | inr other ↦ rw (mixed, firsts, other) (listed_option-Reads (b'-' ∷ c ∷ cs))
    ]
    | inr others ↦ rw (mixed, others) (listed_option-Reads (b'-' ∷ c ∷ cs))
  ]
]

-- What the policy takes a token for is what the token is.
pub classify-Reads : (t : Text) → Reads t (classify t)
unfolding classify
classify-Reads t = elim (Bool-cases (starts_with (b'-' ∷ []) t)) [
  | inr bare ↦ rw bare bare
  | inl dashed ↦ elim (Bool-cases (in_set t flags_no_value)) [
    | inl flag ↦ rw (dashed, flag) (inl flag)
    | inr other ↦ elim (Bool-cases (ltb 2 (length t) && not (starts_with (b'-' ∷ b'-' ∷ []) t))) [
      | inl letters ↦ rw (dashed, other, letters) (of t dashed (ground arith) (ground arith))
      | inr option ↦ rw (dashed, other, option) (listed_option-Reads t)
    ]
  ]
]
  where
    of :
        (t : Text)
        → starts_with (b'-' ∷ []) t ≡ true
        → ltb 2 (length t) ≡ true
        → starts_with (b'-' ∷ b'-' ∷ []) t ≡ false
        → Reads t (classify_short (drop 1 t) t)
    of [] d l s = cc
    of (x ∷ []) d l s = listed_option-Reads (x ∷ [])
    of (x ∷ c ∷ cs) d l s =
        let dash : x ≡ b'-' = ground arith in
        subst (λ y. Reads (y ∷ c ∷ cs) (bundle c cs (y ∷ c ∷ cs))) (sym dash)
          (bundle-Reads c cs l (rw dash at s))
