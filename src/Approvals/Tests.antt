-- ===== src/Approvals/Tests.antt =====
-- Tests of the approval registry, and the theorems about it at concrete registries.
use mikrus_mcp.Prelude.{
  ℕ, ◌≡◌, ◌≢◌, refl, Text, lit, text_eq, true, false, none, some, [], ◌∷◌, arith,
}
use mikrus_mcp.Errors.{ok}
use mikrus_mcp.Dict.{Dict, lookup}
use mikrus_mcp.Json.{Json, null}
use mikrus_mcp.Sample.{plain, plain-IsLossless}
use mikrus_mcp.Approvals.Record.{
  ApprovalRecord, Request, validate_arguments_digest, matches, without_expired, earliest,
  candidates,
}
use mikrus_mcp.Approvals.File.{
  Entry, Stat, node, identity, payload, parse_records, path_identity, identity_eq,
  validate_metadata, record_payload,
}
use mikrus_mcp.Approvals.Registry.{
  Registry, Observed, after_reload, reload, persist, issue, consume, consume_matching, has_matching,
}
use mikrus_mcp.Approvals.OneTime.{Takes, consume_matching-Takes, consume_once}
use mikrus_mcp.Approvals.Matching.{consume_matching-eq-has_matching}
use mikrus_mcp.Approvals.Capacity.{IsValid, issue-IsValid}
use mikrus_mcp.Approvals.Durable.{consume_durable}
use mikrus_mcp.Approvals.RoundTrip.{IsStorable, parse_records-payload}

abbrev digest : Text
unfolding lit
digest = lit "0123456789abcdef0123456789abcdef0123456789abcdef0123456789abcdef"

abbrev token_a : Text
unfolding lit
token_a = lit "aaaaaaaaaaaaaaaaaaaaaaaaaaaaaaaa"

abbrev token_b : Text
unfolding lit
token_b = lit "bbbbbbbbbbbbbbbbbbbbbbbbbbbbbbbb"

abbrev request : Request
request = record {
  capability = b'c' ∷ [];
  principal = b'p' ∷ [];
  target = b't' ∷ [];
  resource = b'r' ∷ [];
  arguments_digest = digest;
}

abbrev approval : ℕ → ApprovalRecord
approval expires_at = record {
  capability = b'c' ∷ [];
  principal = b'p' ∷ [];
  target = b't' ∷ [];
  resource = b'r' ∷ [];
  arguments_digest = digest;
  expires_at = expires_at;
}

abbrev stat : Stat
stat = record {
  st_mode = 0o100600;
  st_uid = 1000;
  st_dev = 1;
  st_ino = 2;
  st_mtime_ns = 3;
  st_size = 4;
}

abbrev file : Entry Json
file = node stat null

-- The path shows the same file at every check.
abbrev quiet : Observed Json
quiet = record {
  at_reload = file;
  at_open = file;
  at_verify = file;
  at_persist = file;
  written = true;
  at_swap = file;
  at_adopt = file;
  synced = true;
}

abbrev records : Dict ApprovalRecord
records = (token_a, approval 900) ∷ (token_b, approval 500) ∷ []

abbrev in_memory : Registry Json
in_memory = record { records = records; max_records = 2; source = none; installed = [] }

abbrev on_file : Registry Json
on_file = record {
  records = records;
  max_records = 2;
  source = some (record { device = 1; inode = 2; modified_ns = 3; size = 4 });
  installed = [];
}

-- Of two matches the one that expires first is taken.
takes_earliest :
    (consume_matching plain 1000 400 request quiet in_memory).1.records
    ≡ (token_a, approval 900) ∷ []
unfolding consume_matching after_reload validate_arguments_digest reload without_expired candidates
    matches earliest persist text_eq lit
takes_earliest = refl

abbrev after_a : Registry Json
after_a = record in_memory { records = (token_b, approval 500) ∷ [] }

consumed_a : consume plain 1000 (some token_a) 400 request quiet in_memory ≡ (ok true, after_a)
unfolding consume after_reload validate_arguments_digest reload without_expired matches persist
    text_eq lit
consumed_a = refl

abbrev after_match : Registry Json
after_match = record in_memory { records = (token_a, approval 900) ∷ [] }

consumed_match : consume_matching plain 1000 400 request quiet in_memory ≡ (ok true, after_match)
unfolding consume_matching after_reload validate_arguments_digest reload without_expired candidates
    matches earliest persist text_eq lit
consumed_match = refl

in_memory-IsValid : IsValid in_memory
unfolding text_eq lit
in_memory-IsValid = record { keys = (refl, (refl, tt)); bounded = omega arith }

consume_matching-Takes_example :
    (t : Text) × Takes plain 1000 400 request quiet t
      (reload plain 1000 quiet in_memory).1.records
      after_match.records
consume_matching-Takes_example =
    consume_matching-Takes plain 1000 400 request quiet in_memory after_match in_memory-IsValid.keys
      consumed_match

unchanged : reload plain 1000 quiet after_a ≡ (ok false, after_a)
unfolding reload
unchanged = refl

consume_once_example :
    consume plain 1000 (some token_a) 401 request quiet after_a ≢ (ok true, after_a)
consume_once_example =
    consume_once plain 1000 400 401 request request quiet quiet token_a in_memory after_a after_a
      in_memory-IsValid.keys consumed_a unchanged

consume_matching-eq-has_matching_example :
    (consume_matching plain 1000 400 request quiet in_memory).0
    ≡ (has_matching plain 1000 400 request quiet in_memory).0
consume_matching-eq-has_matching_example =
    consume_matching-eq-has_matching plain 1000 400 request quiet quiet in_memory refl

issue-IsValid_example : IsValid (issue plain 1000 token_a 5 600 request quiet in_memory).1
issue-IsValid_example =
    issue-IsValid plain 1000 quiet 600 request token_a 5 in_memory in_memory-IsValid

abbrev installed_b : Json
unfolding payload record_payload lit
installed_b = payload plain ((token_b, approval 500) ∷ [])

abbrev file_after_a : Registry Json
file_after_a = record on_file {
  records = (token_b, approval 500) ∷ [];
  installed = installed_b ∷ [];
}

consumed_on_file :
    consume plain 1000 (some token_a) 400 request quiet on_file ≡ (ok true, file_after_a)
unfolding consume after_reload validate_arguments_digest reload without_expired matches persist
    text_eq lit path_identity validate_metadata identity identity_eq payload
consumed_on_file = refl

on_file-IsValid : IsValid on_file
unfolding text_eq lit
on_file-IsValid = record { keys = (refl, (refl, tt)); bounded = omega arith }

b-IsStorable : IsStorable (token_b, approval 500)
unfolding validate_arguments_digest text_eq lit
b-IsStorable = record { token_length = omega arith; digest = refl; filled = refl }

consume_durable_example :
    (content : Json) × (d : Dict ApprovalRecord) × (file_after_a.installed ≡ content ∷ [])
    × (parse_records plain content 2 ≡ ok d)
    × (lookup token_a d ≡ none)
    × ((k : Text) → lookup k d ≡ lookup k file_after_a.records)
consume_durable_example =
    consume_durable plain 1000 400 request quiet plain-IsLossless token_a on_file file_after_a
      (record { device = 1; inode = 2; modified_ns = 3; size = 4 }) on_file-IsValid refl
      consumed_on_file (b-IsStorable, tt)

a-IsStorable : IsStorable (token_a, approval 900)
unfolding validate_arguments_digest text_eq lit
a-IsStorable = record { token_length = omega arith; digest = refl; filled = refl }

parse_records-payload_example :
    (d' : Dict ApprovalRecord) × (parse_records plain (payload plain records) 2 ≡ ok d')
    × ((k : Text) → lookup k d' ≡ lookup k records)
parse_records-payload_example =
    parse_records-payload plain plain-IsLossless records 2 in_memory-IsValid.keys
      (a-IsStorable, (b-IsStorable, tt)) (omega arith)
