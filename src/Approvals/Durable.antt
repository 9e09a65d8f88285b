-- ===== src/Approvals/Durable.antt =====
-- A consumption is on disk before it is reported: whoever reads the file next does not have it.
use mikrus_mcp.Approvals.Persist.{
  reload-installed, persist-installed, after_reload-eq-ok, reload-source, persist-records,
}
use mikrus_mcp.Prelude.{
  text_eq_refl, inr, text_eq, inl, Option-cases, Option, Bool-cases, All, ℕ, ◌≡◌, refl, Bool, true,
  some, none, [], ◌∷◌, arith, Text, ◌∙◌, ap,
}
use mikrus_mcp.Errors.{Result, ok}
use mikrus_mcp.Exec.{pure, continue-eq-ok}
use mikrus_mcp.Dict.{Dict, lookup, erase, lookup-erase}
use mikrus_mcp.Json.{JsonLib, IsLossless}
use mikrus_mcp.Approvals.Record.{ApprovalRecord, Request, matches, without_expired}
use mikrus_mcp.Approvals.File.{FileIdentity, payload, parse_records}
use mikrus_mcp.Approvals.Registry.{
  Registry, Observed, reload, persist, consume, consume_found, consume_token,
}
use mikrus_mcp.Approvals.RoundTrip.{IsStorable, parse_records-payload}
use mikrus_mcp.Approvals.Capacity.{IsValid, consume-IsValid}

module _ {C : Type 0} (json : JsonLib C) (uid : ℕ) (now : ℕ) (q : Request) (seen : Observed C) where
  consume_found-persists :
      (t : Text) (o : Option ApprovalRecord) (active : Dict ApprovalRecord) (s s' : Registry C)
      → consume_found json uid t o now q active seen s ≡ (ok true, s')
      → persist json uid (erase t active) seen s ≡ (ok tt, s')
  consume_found-persists t none active s s' e = cc
  consume_found-persists t (some r) active s s' e = elim (Bool-cases (matches r q now)) [
    | inl m ↦
        let (_, _, p, done) =
          continue-eq-ok (persist json uid (erase t active) seen) (λ _. pure true) s (rw m at e) in
        cc
    | inr m ↦ cc
  ]

  consume-persists :
      (t : Text) (s s' : Registry C)
      → consume json uid (some t) now q seen s ≡ (ok true, s')
      → let s1 = (reload json uid seen s).1 in
        persist json uid (erase t (without_expired s1.records now)) seen s1 ≡ (ok tt, s')
  unfolding consume
  consume-persists t s s' e = elim (Bool-cases (text_eq t [])) [
    | inl empty ↦ cc
    | inr proper ↦
        let s1 = (reload json uid seen s).1 in
        let live = without_expired s1.records now in
        consume_found-persists t (lookup t live) live s1 s' (
          after_reload-eq-ok json uid q seen (consume_token json uid t now q seen) s s' true
            (rw proper at e))
  ]

  installs :
      (s s' : Registry C) (d : Dict ApprovalRecord) (f : FileIdentity)
      → s.source ≡ some f
      → (let s1 = (reload json uid seen s).1 in persist json uid d seen s1 ≡ (ok tt, s'))
      → s'.installed ≡ payload json d ∷ s.installed
  installs s s' d f h p =
      let s1 = (reload json uid seen s).1 in
      elim (Option-cases s1.source) [
        | inl gone ↦ ground (arith, reload-source json uid seen s)
        | inr (g, e) ↦
            persist-installed json uid seen s1 d s' g e p
            ∙ ap (λ xs. payload json d ∷ xs) (reload-installed json uid seen s)
      ]

  -- For a registry with a file: a token that was consumed is not in the content that was installed
  -- last, and every other record of the registry is.
  pub consume_durable :
      (lib : IsLossless json) (t : Text) (s s' : Registry C) (f : FileIdentity)
      → IsValid s
      → s.source ≡ some f
      → consume json uid (some t) now q seen s ≡ (ok true, s')
      → All IsStorable s'.records
      → (content : C) × (d : Dict ApprovalRecord) × (s'.installed ≡ content ∷ s.installed)
        × (parse_records json content s'.max_records ≡ ok d)
        × (lookup t d ≡ none)
        × ((k : Text) → lookup k d ≡ lookup k s'.records)
  consume_durable lib t s s' f v h e a =
      let s1 = (reload json uid seen s).1 in
      let live = without_expired s1.records now in
      let p = consume-persists t s s' e in
      let kept = (persist-records json uid seen s1 (erase t live) s' p).0 in
      let v' : IsValid s' =
        rw (ap (λ (r : Result Bool × Registry C). r.1) e) at
          (consume-IsValid json uid seen now q (some t) s v) in
      let (d, parsed, same) =
        parse_records-payload json lib s'.records s'.max_records v'.keys a v'.bounded in
      (
        payload json s'.records,
        d,
        rw kept (installs s s' (erase t live) f h p),
        parsed,
        same t ∙ rw (kept, lookup-erase, text_eq_refl) refl,
        same,
      )
