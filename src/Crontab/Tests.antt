-- ===== src/Crontab/Tests.antt =====
-- The theorems about the crontab projection at concrete lines.
use mikrus_mcp.Errors.{ok}
use mikrus_mcp.Crontab.Insync.{upsert-removed, upsert-in_sync}
use mikrus_mcp.Crontab.Installed.{in_sync, scan_installed, profile_state}
use mikrus_mcp.Prelude.{text_eq, join, ◌≡◌, List, Text, lit, lits, refl, [], ◌∷◌, ◌++◌, false}
use mikrus_mcp.Crontab.Projection.{
  terminated, remove_from_text, remove_pair, upsert_in_text, remove_pairs, marker_line,
  match_marker,
}
use mikrus_mcp.Crontab.Removal.{remove_pairs-idempotent, written_pair-removed}

abbrev digest : Text
unfolding lit
digest = lit "0123456789abcdef0123456789abcdef0123456789abcdef0123456789abcdef"

abbrev profile : Text
unfolding lit
profile = lit "nightly"

abbrev job_line : Text
unfolding lit
job_line = lit "0 3 * * * 'tail'"

abbrev other : List Text
unfolding lit
other = lits ("MAILTO=root" ∷ [])

abbrev installed : List Text
installed = other ++ marker_line profile digest ∷ job_line ∷ [] ∷ []

written_pair-removed_example : remove_pairs profile false installed ≡ (other ++ [] ∷ [], 1)
unfolding match_marker lit
written_pair-removed_example =
    written_pair-removed profile digest job_line other ([] ∷ []) refl refl (refl, tt) (refl, tt)

remove_pairs-idempotent_example :
    remove_pairs profile false (remove_pairs profile false installed).0
    ≡ ((remove_pairs profile false installed).0, 0)
remove_pairs-idempotent_example = remove_pairs-idempotent profile installed

-- The crontab has another line and an older pair of the profile, and no newline at its end.
abbrev before_upsert : Text
before_upsert = join b'\n' (other ++ marker_line profile digest ∷ other)

abbrev after_upsert : Text
after_upsert = join b'\n' (other ++ marker_line profile digest ∷ job_line ∷ [] ∷ [])

upserted : upsert_in_text before_upsert profile job_line digest ≡ ok after_upsert
unfolding upsert_in_text remove_pair remove_pairs match_marker marker_line lit text_eq digest
    profile job_line other
upserted = refl

upsert-in_sync_example :
    profile_state (scan_installed after_upsert) profile job_line digest ≡ in_sync
unfolding match_marker lit digest profile job_line
upsert-in_sync_example =
    upsert-in_sync before_upsert profile digest job_line after_upsert refl refl refl refl upserted

upsert-removed_example :
    (without : Text) × (remove_pair before_upsert profile false ≡ ok without)
    × (remove_from_text after_upsert profile ≡ ok (terminated without))
unfolding match_marker lit digest profile job_line
upsert-removed_example =
    upsert-removed before_upsert profile digest job_line after_upsert refl refl refl upserted
