-- ===== src/Approvals/Capacity.antt =====
-- The registry's own invariant: its records form a dict, no longer than the capacity.
use mikrus_mcp.Results.{raise_if, >>=-eq-ok, Result-cases}
use mikrus_mcp.Exec.{gets, raise_when, lift, state-then_pure, Keeps-bind, pure, Keeps, Exec}
use mikrus_mcp.Approvals.Persist.{persist_atomic, reload-IsDict}
use mikrus_mcp.Dict.{
  lookup, length-keep, length-erase, keep-IsDict, insert-IsDict, erase-IsDict, erase, length-insert,
  insert, keep, IsDict, Dict,
}
use mikrus_mcp.Approvals.Record.{
  candidates, ticks_per_second, matches, earliest, validate_arguments_digest, is_live,
  without_expired, ApprovalRecord, Request,
}
use mikrus_mcp.Approvals.File.{
  parse_entry, tokens_of, field_count, node, FileIdentity, Entry, read_file, parse_tokens,
  parse_records,
}
use mikrus_mcp.Prelude.{
  any, ◌*◌, leb, ◌&&◌, not, ltb, text_eq, Bool-cases, ◌+◌, Option, inr, inl, ℕ, ◌≡◌, ◌≤◌, Bool,
  true, false, some, none, List, [], ◌∷◌, arith, Text, length,
}
use mikrus_mcp.Errors.{value_error, ok}
use mikrus_mcp.Exec.{◌>>◌}
use mikrus_mcp.Approvals.File.{missing, symlink, node}
use mikrus_mcp.Json.{JsonLib, Fields, end, field}
use mikrus_mcp.Approvals.Registry.{
  has_matching, issued, consume_found, consume_first, persist, consume_token, consume_live,
  issue_live, after_reload, reload, Registry, Observed, issue, consume, consume_matching,
}

pub record IsValid {C : Type 0} (s : Registry C) : Type 0 where
  pub keys : IsDict s.records
  pub bounded : length s.records ≤ s.max_records

module _ {C : Type 0} (json : JsonLib C) (uid : ℕ) where
  parse_tokens-length :
      (fields : Fields) (d d' : Dict ApprovalRecord)
      → parse_tokens json fields d ≡ ok d'
      → length d' ≤ length d + field_count fields
  unfolding parse_tokens
  parse_tokens-length end d d' e = ground arith
  parse_tokens-length (field token value rest) d d' e =
      elim (Result-cases (parse_entry json token value)) [
        | inl (p, parsed) ↦ omega (
          arith,
          parse_tokens-length rest (insert token p d) d' (rw parsed at e),
          length-insert token p d,
        )
        | inr (x, failed) ↦ cc
      ]

  parse_records-length :
      (encoded : C) (max_records : ℕ) (d : Dict ApprovalRecord)
      → parse_records json encoded max_records ≡ ok d
      → length d ≤ max_records
  unfolding parse_records
  parse_records-length encoded max_records d e =
      let (tokens, _, rest) = >>=-eq-ok (tokens_of (json.loads encoded)) _ e in
      let (_, fits, parsed) =
        >>=-eq-ok (raise_if (ltb max_records (field_count tokens)) value_error) _ rest in
      ground (arith, parse_tokens-length tokens [] d parsed)

  read_file-length :
      (max_records : ℕ) (a b : Entry C) (r : Dict ApprovalRecord × FileIdentity)
      → read_file json uid max_records a b ≡ ok r
      → length r.0 ≤ max_records
  unfolding read_file
  read_file-length max_records missing b r e = cc
  read_file-length max_records symlink b r e = cc
  read_file-length max_records (node m c) b r e =
      elim (Result-cases (parse_records json c max_records)) [
        | inl (d, parsed) ↦ ground (arith, parse_records-length c max_records d)
        | inr (x, failed) ↦ ground arith
      ]

  module _ (seen : Observed C) where
    pub reload-IsValid : (s : Registry C) → IsValid s → IsValid (reload json uid seen s).1
    unfolding reload
    reload-IsValid s h = record {
      keys = reload-IsDict json uid seen s h.keys;
      bounded = elim (Result-cases (read_file json uid s.max_records seen.at_open seen.at_verify)) [
        | inl (r, found) ↦
            let d = read_file-length s.max_records seen.at_open seen.at_verify r found in
            ground (arith, d)
        | inr (x, failed) ↦ ground arith
      ];
    }

    persist-IsValid :
        (records : Dict ApprovalRecord) (s : Registry C)
        → IsValid s
        → IsDict records
        → length records ≤ s.max_records
        → IsValid (persist json uid records seen s).1
    persist-IsValid records s h d l = ground (arith, persist_atomic json uid seen s records)

    module _ (now : ℕ) (q : Request) where
      after_reload-IsValid :
          {A : Type 0} (body : Exec (Registry C) A)
          → Keeps IsValid body
          → Keeps IsValid (after_reload json uid q seen body)
      unfolding after_reload
      after_reload-IsValid body keeps =
          Keeps-bind IsValid (lift (validate_arguments_digest q.arguments_digest))
            (λ _. reload json uid seen >> body) (λ s h. h)
            (λ _. Keeps-bind IsValid (reload json uid seen) (λ _. body) reload-IsValid (λ _. keeps))

      -- What a method persists is a dict within the capacity, so its registry stays valid.
      persist_then-IsValid :
          {A : Type 0} (a : A) (records : Dict ApprovalRecord) (s : Registry C)
          → IsValid s
          → IsDict records
          → length records ≤ s.max_records
          → IsValid ((persist json uid records seen >> pure a) s).1
      persist_then-IsValid a records s h d l =
          rw (state-then_pure (persist json uid records seen) a s) (persist-IsValid records s h d l)

      issue_live-IsValid :
          (token : Text) (ttl : ℕ) → Keeps IsValid (issue_live json uid token ttl now q seen)
      unfolding issue_live without_expired
      issue_live-IsValid token ttl s h =
          let live = keep (is_live now) s.records in
          let records = insert token (issued q (now + ttl)) live in
          elim (Bool-cases (leb s.max_records (length live))) [
            | inl full ↦ rw full h
            | inr room ↦ rw room (
                persist_then-IsValid token records s h
                  (insert-IsDict token (issued q (now + ttl)) live
                    (keep-IsDict (is_live now) s.records h.keys))
                  (ground (arith, length-insert token (issued q (now + ttl)) live)))
          ]

      consume_live-IsValid : Keeps IsValid (consume_live json uid now q seen)
      unfolding without_expired
      consume_live-IsValid s h = go (candidates q now live)
        where
          live : Dict ApprovalRecord
          live = keep (is_live now) s.records

          go :
              (cs : List (Text × ApprovalRecord))
              → IsValid (consume_first json uid cs live seen s).1
          go [] = h
          go (c ∷ cs) =
              let t = (earliest c cs).0 in
              persist_then-IsValid true (erase t live) s h
                (erase-IsDict t live (keep-IsDict (is_live now) s.records h.keys))
                (omega (
                  arith,
                  h.bounded,
                  length-erase {0} t live,
                  length-keep {0} (is_live now) s.records,
                ))

      consume_token-IsValid :
          (token : Text) → Keeps IsValid (consume_token json uid token now q seen)
      unfolding without_expired
      consume_token-IsValid t s h = go (lookup t live)
        where
          live : Dict ApprovalRecord
          live = keep (is_live now) s.records

          go :
              (o : Option ApprovalRecord) → IsValid (consume_found json uid t o now q live seen s).1
          go none = h
          go (some r) = elim (Bool-cases (matches r q now)) [
            | inl m ↦ rw m (
                persist_then-IsValid true (erase t live) s h
                  (erase-IsDict t live (keep-IsDict (is_live now) s.records h.keys))
                  (omega (
                    arith,
                    h.bounded,
                    length-erase {0} t live,
                    length-keep {0} (is_live now) s.records,
                  )))
            | inr m ↦ rw m h
          ]

      raise_when-Keeps : (b : Bool) → Keeps {S = Registry C} IsValid (raise_when b value_error)
      raise_when-Keeps true s h = h
      raise_when-Keeps false s h = h

      -- `issue` keeps the records a dict within the capacity, whether it returns or raises.
      pub issue-IsValid :
          (token : Text) (ttl : ℕ) → Keeps IsValid (issue json uid token ttl now q seen)
      unfolding issue
      issue-IsValid token ttl =
          Keeps-bind IsValid
            (raise_when (not (ltb 0 ttl && leb ttl (300 * ticks_per_second))) value_error)
            (λ _. after_reload json uid q seen (issue_live json uid token ttl now q seen))
            (λ s h. raise_when-Keeps (not (ltb 0 ttl && leb ttl (300 * ticks_per_second))) s h)
            (λ _.
              after_reload-IsValid (issue_live json uid token ttl now q seen)
                (issue_live-IsValid token ttl))

      -- `consume_matching` keeps the records a dict within the capacity, whether it returns or raises.
      pub consume_matching-IsValid : Keeps IsValid (consume_matching json uid now q seen)
      unfolding consume_matching
      consume_matching-IsValid =
          after_reload-IsValid (consume_live json uid now q seen) consume_live-IsValid

      -- `consume` keeps the records a dict within the capacity, whether it returns or raises.
      pub consume-IsValid :
          (token : Option Text) → Keeps IsValid (consume json uid token now q seen)
      unfolding consume
      consume-IsValid none s h = h
      consume-IsValid (some t) s h = elim (Bool-cases (text_eq t [])) [
        | inl e ↦ rw e h
        | inr e ↦ rw e (
            after_reload-IsValid (consume_token json uid t now q seen) (consume_token-IsValid t) s
              h)
      ]

      -- `has_matching` keeps the records a dict within the capacity, whether it returns or raises.
      pub has_matching-IsValid : Keeps IsValid (has_matching json uid now q seen)
      unfolding has_matching
      has_matching-IsValid =
          after_reload-IsValid (gets (λ (r : Registry C). any (λ e. matches e.1 q now) r.records))
            (λ s h. h)
