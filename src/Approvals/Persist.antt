-- ===== src/Approvals/Persist.antt =====
-- What `reload` and `persist` do to the registry, on every way that they can end.
use mikrus_mcp.Exec.{continue-eq-ok, lift, ◌>>◌}
use mikrus_mcp.Exec.{Exec}
use mikrus_mcp.Results.{raise_if, >>=-eq-ok, Result-cases}
use mikrus_mcp.Prelude.{is_some, ◌⊎◌, ap, Text, [], ltb, ℕ, ◌≡◌, inl, inr, some, ◌∷◌, arith}
use mikrus_mcp.Errors.{Result, value_error, ok}
use mikrus_mcp.Dict.{Dict, IsDict, insert, insert-IsDict}
use mikrus_mcp.Json.{Fields, end, field, JsonLib}
use mikrus_mcp.Approvals.Record.{validate_arguments_digest, Request, ApprovalRecord}
use mikrus_mcp.Approvals.File.{
  missing, symlink, node, field_count, tokens_of, FileIdentity, Entry, payload, read_file,
  parse_records, parse_tokens, parse_entry,
}
use mikrus_mcp.Approvals.Registry.{after_reload, Registry, Observed, reload, persist}

module _ {C : Type 0} (json : JsonLib C) (uid : ℕ) where
  parse_tokens-IsDict :
      (fields : Fields) (d d' : Dict ApprovalRecord)
      → IsDict d
      → parse_tokens json fields d ≡ ok d'
      → IsDict d'
  unfolding parse_tokens
  parse_tokens-IsDict end d d' h e = ground arith
  parse_tokens-IsDict (field token value rest) d d' h e =
      elim (Result-cases (parse_entry json token value)) [
        | inl (p, parsed) ↦
            parse_tokens-IsDict rest (insert token p d) d' (insert-IsDict token p d h)
              (rw parsed at e)
        | inr (x, failed) ↦ cc
      ]

  parse_records-IsDict :
      (encoded : C) (max_records : ℕ) (d : Dict ApprovalRecord)
      → parse_records json encoded max_records ≡ ok d
      → IsDict d
  unfolding parse_records
  parse_records-IsDict encoded max_records d e =
      let (tokens, _, rest) = >>=-eq-ok (tokens_of (json.loads encoded)) _ e in
      let (_, _, parsed) =
        >>=-eq-ok (raise_if (ltb max_records (field_count tokens)) value_error) _ rest in
      parse_tokens-IsDict tokens [] d tt parsed

  read_file-IsDict :
      (max_records : ℕ) (a b : Entry C) (r : Dict ApprovalRecord × FileIdentity)
      → read_file json uid max_records a b ≡ ok r
      → IsDict r.0
  unfolding read_file
  read_file-IsDict max_records missing b r e = cc
  read_file-IsDict max_records symlink b r e = cc
  read_file-IsDict max_records (node m c) b r e =
      elim (Result-cases (parse_records json c max_records)) [
        | inl (d, parsed) ↦ ground (arith, parse_records-IsDict c max_records d)
        | inr (x, failed) ↦ ground arith
      ]

  module _ (seen : Observed C) (s : Registry C) where
    pub reload-IsDict : IsDict s.records → IsDict (reload json uid seen s).1.records
    unfolding reload
    reload-IsDict h =
        elim (Result-cases (read_file json uid s.max_records seen.at_open seen.at_verify)) [
          | inl (r, found) ↦
              let d = read_file-IsDict s.max_records seen.at_open seen.at_verify r found in
              ground (arith, d)
          | inr (x, failed) ↦ ground arith
        ]

    pub reload-installed : (reload json uid seen s).1.installed ≡ s.installed
    unfolding reload
    reload-installed = ground arith

    pub reload-source : is_some (reload json uid seen s).1.source ≡ is_some s.source
    unfolding reload
    reload-source = ground arith

    pub reload-max_records : (reload json uid seen s).1.max_records ≡ s.max_records
    unfolding reload
    reload-max_records = ground arith

    module _ (records : Dict ApprovalRecord) (s' : Registry C) where
      pub persist-records :
          persist json uid records seen s ≡ (ok tt, s')
          → (s'.records ≡ records) × (s'.max_records ≡ s.max_records)
      unfolding persist
      persist-records e = ground arith

      pub persist-installed :
          (f : FileIdentity)
          → s.source ≡ some f
          → persist json uid records seen s ≡ (ok tt, s')
          → s'.installed ≡ payload json records ∷ s.installed
      unfolding persist
      persist-installed f h e = ground arith

    -- However a call of `persist` ends, the registry holds the old records or the new ones, and
    -- its capacity is the old one.
    pub persist_atomic :
        (records : Dict ApprovalRecord)
        → let s' = (persist json uid records seen s).1 in
          (s'.max_records ≡ s.max_records) × ((s'.records ≡ records) ⊎ (s'.records ≡ s.records))
    unfolding persist
    persist_atomic records = ground arith

module _ {C : Type 0} (json : JsonLib C) (uid : ℕ) {A : Type 0} (q : Request)
    (seen : Observed C) where
  -- The body of a method that returned ran on the reloaded registry.
  pub after_reload-eq-ok :
      (body : Exec (Registry C) A) (s s' : Registry C) (a : A)
      → after_reload json uid q seen body s ≡ (ok a, s')
      → body (reload json uid seen s).1 ≡ (ok a, s')
  unfolding after_reload
  after_reload-eq-ok body s s' a e =
      let rest = λ (_ : Text). reload json uid seen >> body in
      let (_, s0, valid, e1) =
        continue-eq-ok (lift {S = Registry C} (validate_arguments_digest q.arguments_digest)) rest s
          e in
      let (_, s1, done, e2) = continue-eq-ok (reload json uid seen) (λ _. body) s0 e1 in
      let same : s ≡ s0 = ap (λ (p : Result Text × Registry C). p.1) valid in rw (same, done) e2
