-- ===== src/Crontab/Insync.antt =====
-- What is read of a crontab behind an upsert: the profile is in sync.
use mikrus_mcp.Crontab.Removal.{written_pair-removed}
use mikrus_mcp.Crontab.Lines.{join-split, append_empty}
use mikrus_mcp.Crontab.Removal.{match_marker-marker_line, remove_pairs-unmarked, profile_id-Lacks}
use mikrus_mcp.Crontab.Sees.{scan_lines-pair}
use mikrus_mcp.Crontab.Lines.{split-terminated}
use mikrus_mcp.Crontab.Installed.{
  in_sync, adjacent_line, marker_count, scan_installed, profile_state,
}
use mikrus_mcp.Crontab.Projection.{
  remove_from_text, terminated, upsert_in_text, pair_text, is_profile_char, is_hex, is_marker_of,
  is_digest, is_profile_id, remove_pairs, remove_pair, match_marker, marker_line,
}
use mikrus_mcp.Prelude.{
  split-append, text_eq_refl, split-Lacks, sym, ap, ltb, ◌&&◌, split-join, join, inr, split, refl,
  inl, arith, ◌||◌, all, Lacks, Bool-cases, ◌==◌, ◌++◌, All, true, has, false, List, lit, Text,
  Bool, ℕ, [], ◌∷◌, ◌≡◌, ◌∙◌,
}
use mikrus_mcp.Results.{>>=-eq-ok, ok-inj, ◌>>◌, raise_if}
use mikrus_mcp.Errors.{conflict, not_found, app_error, Error, ok}
use std.Path.{subst}

remove_pairs-All :
    (P : Text → Type 0) (p : Text) (skip : Bool) (lines : List Text)
    → All P lines
    → All P (remove_pairs p skip lines).0
unfolding remove_pairs
remove_pairs-All P p skip [] h = tt
remove_pairs-All P p true (line ∷ lines) h = remove_pairs-All P p false lines h.1
remove_pairs-All P p false (line ∷ lines) h =
    elim (Bool-cases (is_marker_of p (match_marker line))) [
      | inl marked ↦ rw marked (remove_pairs-All P p true lines h.1)
      | inr plain ↦ rw plain (h.0, remove_pairs-All P p false lines h.1)
    ]

-- The lines that a removal leaves are unmarked, also when they are read again.
rejoined-unmarked :
    (p : Text) (lines : List Text)
    → All (Lacks b'\n') lines
    → All (λ line. is_marker_of p (match_marker line) ≡ false) lines
    → All (λ line. is_marker_of p (match_marker line) ≡ false) (split b'\n' (join b'\n' lines))
unfolding match_marker lit
rejoined-unmarked p [] l h = (refl, tt)
rejoined-unmarked p (line ∷ lines) l h = rw (split-join b'\n' line lines l) h

after_checks :
    (a b : Bool) (x y : Error) (t w : Text)
    → (raise_if a x >> (raise_if b y >> ok t)) ≡ ok w
    → t ≡ w
after_checks true b x y t w h = cc
after_checks false true x y t w h = cc
after_checks false false x y t w h = ok-inj h

removed-unmarked :
    (text p without : Text)
    → remove_pair text p false ≡ ok without
    → All (λ line. is_marker_of p (match_marker line) ≡ false) (split b'\n' without)
unfolding remove_pair
removed-unmarked text p without h =
    let left = remove_pairs p false (split b'\n' text) in
    let joined =
      after_checks (left.1 == 0 && false) (ltb 1 left.1) (app_error not_found) (app_error conflict)
        (join b'\n' left.0) without h in
    subst (λ t. All (λ line. is_marker_of p (match_marker line) ≡ false) (split b'\n' t)) joined
      (rejoined-unmarked p left.0
        (remove_pairs-All (Lacks b'\n') p false (split b'\n' text) (split-Lacks b'\n' text))
        (remove_pairs-unmarked p false (split b'\n' text)))

has-joined : (c : ℕ) (s t : Text) → has c (s ++ t) ≡ (has c s || has c t)
has-joined c [] t = refl
has-joined c (x ∷ s) t = ground (arith, has-joined c s t)

all-Lacks :
    (c : ℕ) (q : ℕ → Bool) (s : Text)
    → ((x : ℕ) → q x ≡ true → (x == c) ≡ false)
    → all q s ≡ true
    → Lacks c s
all-Lacks c q [] apart h = refl
all-Lacks c q (x ∷ s) apart h = ground (arith, apart x, all-Lacks c q s apart)

profile_chars-Lacks_newline : (p : Text) → is_profile_id p ≡ true → Lacks b'\n' p
profile_chars-Lacks_newline [] h = refl
profile_chars-Lacks_newline (c ∷ s) h =
    ground (arith, all-Lacks b'\n' is_profile_char s (λ x good. ground arith))

marker_line-Lacks :
    (p d : Text) → is_profile_id p ≡ true → is_digest d ≡ true → Lacks b'\n' (marker_line p d)
unfolding marker_line lit
marker_line-Lacks p d h k =
    let digest = all-Lacks b'\n' is_hex d (λ x good. ground arith) ground (arith, k) in
    rw (has-joined b'\n' p, profile_chars-Lacks_newline p h) digest

unmarked_empty : (p : Text) → is_marker_of p (match_marker []) ≡ false
unfolding match_marker lit
unmarked_empty p = refl

-- The lines of a pair that was written.
pair_lines :
    (p d g : Text)
    → is_profile_id p ≡ true
    → is_digest d ≡ true
    → Lacks b'\n' g
    → split b'\n' (pair_text p g d) ≡ marker_line p d ∷ g ∷ [] ∷ []
pair_lines p d g h k l =
    split-append b'\n' (marker_line p d) (g ++ b'\n' ∷ []) (marker_line-Lacks p d h k)
    ∙ ap (λ ls. marker_line p d ∷ ls) (split-append b'\n' g [] l)

-- What an upsert writes: the lines that the removal left, then the pair.
record Upserted (text p d g new : Text) : Type 0 where
  without : Text
  removed : remove_pair text p false ≡ ok without
  above : List Text
  unmarked : All (λ line. is_marker_of p (match_marker line) ≡ false) above
  lines : split b'\n' new ≡ above ++ marker_line p d ∷ g ∷ [] ∷ []
  left : join b'\n' (above ++ [] ∷ []) ≡ terminated without

upsert_in_text-Upserted :
    (text p d g new : Text)
    → is_profile_id p ≡ true
    → is_digest d ≡ true
    → Lacks b'\n' g
    → upsert_in_text text p g d ≡ ok new
    → Upserted text p d g new
unfolding upsert_in_text
upsert_in_text-Upserted text p d g new h k l e =
    let (without, removed, written) =
      >>=-eq-ok (remove_pair text p false) (λ without. ok (terminated without ++ pair_text p g d))
        e in
    let (above, unmarked, lines) =
      split-terminated (λ line. is_marker_of p (match_marker line) ≡ false) without
        (removed-unmarked text p without removed) in
    record {
      without = without;
      removed = removed;
      above = above;
      unmarked = unmarked;
      lines =
          ap (split b'\n') (sym (ok-inj written))
          ∙ (lines (pair_text p g d) ∙ ap (λ ls. above ++ ls) (pair_lines p d g h k l));
      left =
          ap (join b'\n') (sym (lines []))
          ∙ (join-split b'\n' (terminated without ++ []) ∙ append_empty (terminated without));
    }

-- Behind an upsert of a well-formed profile and digest, with a generated line that is one line and
-- no marker of the profile, the profile is read as being in sync.
pub upsert-in_sync :
    (text p d g new : Text)
    → is_profile_id p ≡ true
    → is_digest d ≡ true
    → Lacks b'\n' g
    → is_marker_of p (match_marker g) ≡ false
    → upsert_in_text text p g d ≡ ok new
    → profile_state (scan_installed new) p g d ≡ in_sync
unfolding profile_state scan_installed marker_count adjacent_line
upsert-in_sync text p d g new h k l m e =
    let u = upsert_in_text-Upserted text p d g new h k l e in
    let (digests, next) =
      scan_lines-pair p (profile_id-Lacks p h) (marker_line p d) d g u.above ([] ∷ []) []
        (match_marker-marker_line p d h k) u.unmarked (m, (unmarked_empty p, tt)) (refl, refl) in
    rw (u.lines, digests, next, text_eq_refl g, text_eq_refl d) refl

removed-alone :
    (text p : Text) (lines : List Text)
    → remove_pairs p false (split b'\n' text) ≡ (lines ++ [] ∷ [], 1)
    → remove_pair text p true ≡ ok (join b'\n' (lines ++ [] ∷ []))
unfolding remove_pair
removed-alone text p lines h = rw h refl

-- A removal right behind an upsert of a well-formed profile and digest, with a generated line that
-- is one line, leaves the text that the upsert had left without an older pair, its last line ended.
pub upsert-removed :
    (text p d g new : Text)
    → is_profile_id p ≡ true
    → is_digest d ≡ true
    → Lacks b'\n' g
    → upsert_in_text text p g d ≡ ok new
    → (without : Text) × (remove_pair text p false ≡ ok without)
      × (remove_from_text new p ≡ ok (terminated without))
unfolding remove_from_text
upsert-removed text p d g new h k l e =
    let u = upsert_in_text-Upserted text p d g new h k l e in
    (
      u.without,
      u.removed,
      removed-alone new p u.above (
            ap (remove_pairs p false) u.lines
            ∙ written_pair-removed p d g u.above ([] ∷ []) h k u.unmarked (unmarked_empty p, tt))
          ∙ ap ok u.left,
    )
