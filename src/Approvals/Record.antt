-- ===== src/Approvals/Record.antt =====
-- approvals.py: `ApprovalRecord`, the digest test, and which records match a request.
use mikrus_mcp.Prelude.{
  ℕ, Text, text_eq, text_le, Bool, ◌&&◌, ◌||◌, not, List, [], ◌∷◌, length, all, filter, leb, ltb,
  ◌==◌, if◌then◌else◌,
}
use mikrus_mcp.Errors.{Result, ok, err, value_error}
use mikrus_mcp.Dict.{Dict, keep}

-- A point in time or a duration is a whole number of ticks of the clock, a microsecond each.
abbrev pub ticks_per_second : ℕ
ticks_per_second = 1_000_000

abbrev pub argument_digest_length : ℕ
argument_digest_length = 64

pub record ApprovalRecord : Type 0 where
  pub capability : Text
  pub principal : Text
  pub target : Text
  pub resource : Text
  pub arguments_digest : Text
  pub expires_at : ℕ

-- `character in "0123456789abcdef"`
abbrev pub is_hex : ℕ → Bool
is_hex c = (leb b'0' c && leb c b'9') || (leb b'a' c && leb c b'f')

-- The test `value.casefold() != value` is left out: it holds of no text of these characters.
unfoldable pub validate_arguments_digest : Text → Result Text
validate_arguments_digest value =
    if not (length value == argument_digest_length) || not (all is_hex value)
    then err value_error
    else ok value

-- What a caller asks an approval for: the arguments that the lookups share.
pub record Request : Type 0 where
  pub capability : Text
  pub principal : Text
  pub target : Text
  pub resource : Text
  pub arguments_digest : Text

unfoldable pub matches : ApprovalRecord → Request → ℕ → Bool
matches record_ q now =
    text_eq record_.capability q.capability
    && (text_eq record_.principal q.principal
        && (text_eq record_.target q.target
            && (text_eq record_.resource q.resource
                && (text_eq record_.arguments_digest q.arguments_digest
                    && leb now record_.expires_at))))

-- `record.expires_at >= now`
abbrev pub is_live : ℕ → ApprovalRecord → Bool
is_live now r = leb now r.expires_at

unfoldable pub without_expired : Dict ApprovalRecord → ℕ → Dict ApprovalRecord
without_expired records now = keep (is_live now) records

-- The key of `min`: the earliest expiry first, then the token.
abbrev pub before : Text × ApprovalRecord → Text × ApprovalRecord → Bool
before a b =
    ltb a.1.expires_at b.1.expires_at || (a.1.expires_at == b.1.expires_at && not (text_le b.0 a.0))

-- `min(candidates, key=...)`, which keeps the first of equals.
unfoldable pub earliest :
    Text × ApprovalRecord → List (Text × ApprovalRecord) → Text × ApprovalRecord
earliest best [] = best
earliest best (c ∷ cs) = earliest (if before c best then c else best) cs

unfoldable pub candidates : Request → ℕ → Dict ApprovalRecord → List (Text × ApprovalRecord)
candidates q now active = filter (λ e. matches e.1 q now) active
