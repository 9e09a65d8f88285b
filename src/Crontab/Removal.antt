-- ===== src/Crontab/Removal.antt =====
-- What a removal does to the other lines of a crontab.
use mikrus_mcp.Prelude.{
  ◌∙◌, ap, text_eq_refl, lit, all, inr, inl, before, after, has, Lacks, Bool-cases, ℕ, some, Bool,
  All, ◌++◌, ◌≡◌, List, Text, arith, true, false, refl, [], ◌∷◌,
}
use mikrus_mcp.Crontab.Projection.{
  match_tail, match_body, marker_line, is_profile_id, is_digest, is_profile_char, strip_prefix,
  remove_pairs, is_marker_of, match_marker,
}

-- No line that stays is a marker of the profile.
pub remove_pairs-unmarked :
    (profile_id : Text) (skip : Bool) (lines : List Text)
    → All
        (λ line. is_marker_of profile_id (match_marker line) ≡ false)
        (remove_pairs profile_id skip lines).0
unfolding remove_pairs
remove_pairs-unmarked profile_id skip [] = tt
remove_pairs-unmarked profile_id true (line ∷ lines) = remove_pairs-unmarked profile_id false lines
remove_pairs-unmarked profile_id false (line ∷ lines) =
    elim (Bool-cases (is_marker_of profile_id (match_marker line))) [
      | inl marked ↦ rw marked (remove_pairs-unmarked profile_id true lines)
      | inr plain ↦ rw plain (plain, remove_pairs-unmarked profile_id false lines)
    ]

-- Lines without a marker of the profile all stay, and none is counted.
pub remove_pairs-plain :
    (profile_id : Text) (lines : List Text)
    → All (λ line. is_marker_of profile_id (match_marker line) ≡ false) lines
    → remove_pairs profile_id false lines ≡ (lines, 0)
unfolding remove_pairs
remove_pairs-plain profile_id [] h = refl
remove_pairs-plain profile_id (line ∷ lines) h =
    rw (h.0, remove_pairs-plain profile_id lines h.1) refl

-- A second removal changes nothing and counts nothing.
pub remove_pairs-idempotent :
    (profile_id : Text) (lines : List Text)
    → remove_pairs profile_id false (remove_pairs profile_id false lines).0
      ≡ ((remove_pairs profile_id false lines).0, 0)
remove_pairs-idempotent profile_id lines =
    remove_pairs-plain profile_id (remove_pairs profile_id false lines).0
      (remove_pairs-unmarked profile_id false lines)

-- The pair alone goes: lines before it and behind it stay, when no other line is a marker of the
-- profile.
pub remove_pairs-pair :
    (profile_id marker generated : Text) (above below : List Text)
    → All (λ line. is_marker_of profile_id (match_marker line) ≡ false) above
    → All (λ line. is_marker_of profile_id (match_marker line) ≡ false) below
    → is_marker_of profile_id (match_marker marker) ≡ true
    → remove_pairs profile_id false (above ++ marker ∷ generated ∷ below) ≡ (above ++ below, 1)
unfolding remove_pairs
remove_pairs-pair profile_id marker generated [] below a b m =
    rw (m, remove_pairs-plain profile_id below b) refl
remove_pairs-pair profile_id marker generated (line ∷ above) below a b m =
    rw (a.0, remove_pairs-pair profile_id marker generated above below a.1 b m) refl

strip_prefix-append : (p s : Text) → strip_prefix p (p ++ s) ≡ some s
strip_prefix-append [] s = refl
strip_prefix-append (x ∷ p) s = ground (arith, strip_prefix-append p s)

pub before-append : (c : ℕ) (t s : Text) → Lacks c t → before c (t ++ c ∷ s) ≡ t
before-append c [] s h = ground arith
before-append c (x ∷ t) s h = ground (arith, before-append c t s)

pub after-append : (c : ℕ) (t s : Text) → Lacks c t → after c (t ++ c ∷ s) ≡ s
after-append c [] s h = ground arith
after-append c (x ∷ t) s h = ground (arith, after-append c t s)

pub has-append : (c : ℕ) (t s : Text) → has c (t ++ c ∷ s) ≡ true
has-append c [] s = ground arith
has-append c (x ∷ t) s = ground (arith, has-append c t s)

profile_chars-Lacks : (s : Text) → all is_profile_char s ≡ true → Lacks b':' s
profile_chars-Lacks [] h = refl
profile_chars-Lacks (c ∷ s) h = ground (arith, profile_chars-Lacks s)

pub profile_id-Lacks : (s : Text) → is_profile_id s ≡ true → Lacks b':' s
profile_id-Lacks [] h = refl
profile_id-Lacks (c ∷ s) h = ground (arith, profile_chars-Lacks s)

match_body-split :
    (t s : Text)
    → Lacks b':' t
    → match_body (some (t ++ b':' ∷ s)) ≡ match_tail t (strip_prefix (lit "sha256=") s)
match_body-split t s h =
    ground (arith, has-append b':' t s, before-append b':' t s h, after-append b':' t s h)

match_body-marker :
    (profile_id digest : Text)
    → is_profile_id profile_id ≡ true
    → is_digest digest ≡ true
    → match_body (some (profile_id ++ b':' ∷ (lit "sha256=" ++ digest)))
      ≡ some (record { profile_id = profile_id; digest = digest })
match_body-marker profile_id digest p d =
    match_body-split profile_id (lit "sha256=" ++ digest) (profile_id-Lacks profile_id p)
    ∙ (ap (match_tail profile_id) (strip_prefix-append (lit "sha256=") digest) ∙ rw (p, d) refl)

-- The marker that is written for a profile is recognized as that profile's, with its digest.
pub match_marker-marker_line :
    (profile_id digest : Text)
    → is_profile_id profile_id ≡ true
    → is_digest digest ≡ true
    → match_marker (marker_line profile_id digest)
      ≡ some (record { profile_id = profile_id; digest = digest })
unfolding match_marker marker_line
match_marker-marker_line profile_id digest p d =
    ap match_body
      (strip_prefix-append (lit "# mikrus-mcp:") (profile_id ++ b':' ∷ (lit "sha256=" ++ digest)))
    ∙ match_body-marker profile_id digest p d

-- A pair that was written for a well-formed profile and digest is removed from wherever it stands,
-- its marker is the only one counted, and all other lines stay, when none of them is a marker of
-- the profile.
pub written_pair-removed :
    (profile_id digest generated : Text) (above below : List Text)
    → is_profile_id profile_id ≡ true
    → is_digest digest ≡ true
    → All (λ line. is_marker_of profile_id (match_marker line) ≡ false) above
    → All (λ line. is_marker_of profile_id (match_marker line) ≡ false) below
    → remove_pairs profile_id false (above ++ marker_line profile_id digest ∷ generated ∷ below)
      ≡ (above ++ below, 1)
written_pair-removed profile_id digest generated above below p d a b =
    remove_pairs-pair profile_id (marker_line profile_id digest) generated above below a b
      (rw (match_marker-marker_line profile_id digest p d, text_eq_refl) refl)
