-- ===== src/Crontab/Sees.antt =====
-- What is observed of one profile in the lines of a crontab.
use std.Path.{subst}
use mikrus_mcp.Crontab.Removal.{before-append, has-append, profile_id-Lacks}
use mikrus_mcp.Dict.{lookup-insert}
use mikrus_mcp.Crontab.Projection.{
  is_digest, strip_prefix, is_profile_id, is_marker_of, match_tail, match_marker, match_body,
  Marker,
}
use mikrus_mcp.Crontab.Installed.{
  adjacent, scan_lines, push, values, note_marker, Observed, line_key,
}
use mikrus_mcp.Prelude.{
  text_eq_iff, arith, text_eq_refl, some-inj, inr, ◌∙◌, refl, after, ◌++◌, ◌&&◌, sym, before, ap,
  text_eq-false, inl, if◌then◌else◌, false, Bool-cases, All, true, text_eq, List, lit, has, Lacks,
  Text, Option, none, some, [], ◌∷◌, ◌≡◌,
}

line_key-has : (q : Text) → has b':' (line_key q) ≡ true
unfolding line_key lit
line_key-has q = has-append b':' q (b'l' ∷ b'i' ∷ b'n' ∷ b'e' ∷ [])

-- Another profile has another key.
line_key-apart :
    (q p : Text)
    → Lacks b':' q
    → Lacks b':' p
    → text_eq q p ≡ false
    → text_eq (line_key q) (line_key p) ≡ false
unfolding line_key lit
line_key-apart q p a b h = text_eq-false (line_key q) (line_key p) (λ e.
    let tail : Text = b'l' ∷ b'i' ∷ b'n' ∷ b'e' ∷ [] in
    let same : q ≡ p =
      sym (before-append b':' q tail a) ∙ (ap (before b':') e ∙ before-append b':' p tail b) in
    let bad = (text_eq_iff q p).1 same in cc)

-- A key that has a `:` is not one that lacks it.
key-apart : (k p : Text) → has b':' k ≡ true → Lacks b':' p → text_eq k p ≡ false
key-apart k p a b = text_eq-false k p (λ e. let bad = ap (has b':') e in cc)

match_tail-Lacks :
    (t : Text) (o : Option Text) (m : Marker) → match_tail t o ≡ some m → Lacks b':' m.profile_id
match_tail-Lacks t none m h = cc
match_tail-Lacks t (some d) m h = elim (Bool-cases (is_profile_id t && is_digest d)) [
  | inl good ↦
      let e : ◌≡◌ {A = Option Marker} (some (record { profile_id = t; digest = d })) (some m) =
        rw good at h in
      let named = ap (λ (m : Marker). m.profile_id) (some-inj e) in
      subst (λ t. Lacks b':' t) named (profile_id-Lacks t (ground (arith, good)))
  | inr bad ↦ let e : ◌≡◌ {A = Option Marker} none (some m) = rw bad at h in cc
]

match_body-Lacks : (o : Option Text) (m : Marker) → match_body o ≡ some m → Lacks b':' m.profile_id
match_body-Lacks none m h = cc
match_body-Lacks (some body) m h = elim (Bool-cases (has b':' body)) [
  | inl colon ↦
      let e : match_tail (before b':' body) (strip_prefix (lit "sha256=") (after b':' body))
          ≡ some m =
        rw colon at h in
      match_tail-Lacks (before b':' body) (strip_prefix (lit "sha256=") (after b':' body)) m e
  | inr none_there ↦ let e : ◌≡◌ {A = Option Marker} none (some m) = rw none_there at h in cc
]

values-push :
    (k j : Text) (v : Option Text) (o : Observed)
    → values j (push k v o) ≡ (if text_eq k j then values k o ++ v ∷ [] else values j o)
values-push k j v o = elim (Bool-cases (text_eq k j)) [
  | inl same ↦ rw (lookup-insert k j (values k o ++ v ∷ []) o, same) refl
  | inr other ↦ rw (lookup-insert k j (values k o ++ v ∷ []) o, other) refl
]

module _ (p : Text) (plain : Lacks b':' p) where
  -- What is observed of the profile: its digests and the lines behind its markers.
  abbrev pub Sees : Observed → List (Option Text) → List (Option Text) → Type 0
  Sees o digests lines = (values p o ≡ digests) × (values (line_key p) o ≡ lines)

  note_marker-other :
      (line : Text) (m : Option Marker) (next : Option Text) (o : Observed)
      (ds ls : List (Option Text))
      → match_marker line ≡ m
      → is_marker_of p m ≡ false
      → Sees o ds ls
      → Sees (note_marker m next o) ds ls
  unfolding match_marker
  note_marker-other line none next o ds ls e h s = s
  note_marker-other line (some m) next o ds ls e h s =
      let lacks = match_body-Lacks (strip_prefix (lit "# mikrus-mcp:") line) m e in
      let q = m.profile_id in
      let q_line : text_eq q (line_key p) ≡ false =
        text_eq-false q (line_key p)
          (λ same. let bad = ap (has b':') (sym same) ∙ lacks in let good = line_key-has p in cc) in
      (
        values-push (line_key q) p next (push q (some m.digest) o)
            ∙ rw (key-apart (line_key q) p (line_key-has q) plain)
                (values-push q p (some m.digest) o ∙ rw h s.0),
        values-push (line_key q) (line_key p) next (push q (some m.digest) o)
            ∙ rw (line_key-apart q p lacks plain h)
                (values-push q (line_key p) (some m.digest) o ∙ rw q_line s.1),
      )

  scan_lines-other :
      (lines : List Text) (o : Observed) (ds ls : List (Option Text))
      → All (λ line. is_marker_of p (match_marker line) ≡ false) lines
      → Sees o ds ls
      → Sees (scan_lines lines o) ds ls
  scan_lines-other [] o ds ls h s = s
  scan_lines-other (line ∷ lines) o ds ls h s =
      scan_lines-other lines (note_marker (match_marker line) (adjacent lines) o) ds ls h.1
        (note_marker-other line (match_marker line) (adjacent lines) o ds ls refl h.0 s)

  note_marker-own :
      (d : Text) (next : Option Text) (o : Observed)
      → Sees o [] []
      → Sees
          (note_marker (some (record { profile_id = p; digest = d })) next o)
          (some d ∷ [])
          (next ∷ [])
  note_marker-own d next o s =
      let p_line : text_eq p (line_key p) ≡ false =
        text_eq-false p (line_key p)
          (λ same. let bad = ap (has b':') (sym same) ∙ plain in let good = line_key-has p in cc) in
      let seen : values (line_key p) (push p (some d) o) ≡ [] =
        values-push p (line_key p) (some d) o ∙ rw p_line s.1 in
      (
        values-push (line_key p) p next (push p (some d) o)
            ∙ rw (key-apart (line_key p) p (line_key-has p) plain)
                (values-push p p (some d) o ∙ rw (text_eq_refl p, s.0) refl),
        values-push (line_key p) (line_key p) next (push p (some d) o)
            ∙ rw (text_eq_refl (line_key p)) (ap (λ vs. vs ++ next ∷ []) seen),
      )

  pub scan_lines-pair :
      (marker d g : Text) (above below : List Text) (o : Observed)
      → match_marker marker ≡ some (record { profile_id = p; digest = d })
      → All (λ line. is_marker_of p (match_marker line) ≡ false) above
      → All (λ line. is_marker_of p (match_marker line) ≡ false) (g ∷ below)
      → Sees o [] []
      → Sees (scan_lines (above ++ marker ∷ g ∷ below) o) (some d ∷ []) (some g ∷ [])
  scan_lines-pair marker d g [] below o m a b s =
      scan_lines-other (g ∷ below) (note_marker (match_marker marker) (some g) o) (some d ∷ [])
        (some g ∷ []) b
        (subst (λ k. Sees (note_marker k (some g) o) (some d ∷ []) (some g ∷ [])) (sym m)
          (note_marker-own d (some g) o s))
  scan_lines-pair marker d g (line ∷ above) below o m a b s =
      scan_lines-pair marker d g above below
        (note_marker (match_marker line) (adjacent (above ++ marker ∷ g ∷ below)) o) m a.1 b
        (note_marker-other line (match_marker line) (adjacent (above ++ marker ∷ g ∷ below)) o [] []
          refl a.0 s)
