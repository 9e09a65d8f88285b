-- ===== src/Approvals/OneTime.antt =====
-- A consumption takes exactly one live, fully bound record, and no record is taken twice.
use mikrus_mcp.Prelude.{
  ◌≤◌, text_eq_iff, text_eq_refl, Bool, ap, ◌≢◌, false, inl, inr, Bool-cases, Option, text_eq,
  if◌then◌else◌, ℕ, ◌≡◌, refl, true, some, none, List, [], ◌∷◌, arith, Text,
}
use mikrus_mcp.Errors.{Result, ok}
use mikrus_mcp.Exec.{continue-eq-ok, ◌>>◌, pure}
use mikrus_mcp.Dict.{
  lookup-keep-none, Dict, lookup, erase, only, IsDict, lookup-erase, lookup-keep, keep-IsDict,
}
use mikrus_mcp.Json.{JsonLib}
use mikrus_mcp.Approvals.Record.{
  ApprovalRecord, Request, matches, is_live, without_expired, candidates, earliest,
}
use mikrus_mcp.Approvals.Registry.{
  consume_token, consume_live, Registry, Observed, reload, persist, consume, consume_matching,
  consume_first, consume_found,
}
use mikrus_mcp.Approvals.Chosen.{chosen_lem}
use mikrus_mcp.Approvals.Persist.{after_reload-eq-ok, reload-IsDict, persist-records}

-- An approval that is for this request and that has not expired.
pub record IsBound (r : ApprovalRecord) (q : Request) (now : ℕ) : Type 0 where
  pub capability : r.capability ≡ q.capability
  pub principal : r.principal ≡ q.principal
  pub target : r.target ≡ q.target
  pub resource : r.resource ≡ q.resource
  pub arguments_digest : r.arguments_digest ≡ q.arguments_digest
  pub live : now ≤ r.expires_at

matches-IsBound :
    (r : ApprovalRecord) (q : Request) (now : ℕ) → matches r q now ≡ true → IsBound r q now
unfolding matches
matches-IsBound r q now h = record {
  capability = ground (arith, text_eq_iff r.capability q.capability);
  principal = ground (arith, text_eq_iff r.principal q.principal);
  target = ground (arith, text_eq_iff r.target q.target);
  resource = ground (arith, text_eq_iff r.resource q.resource);
  arguments_digest = ground (arith, text_eq_iff r.arguments_digest q.arguments_digest);
  live = ground arith;
}

module _ {C : Type 0} (json : JsonLib C) (uid : ℕ) (now : ℕ) (q : Request) (seen : Observed C) where
  -- What a consumption that returned true has done to the records, from those `start` that it
  -- found after the reload: one of them is gone, with all that had expired, and no other.
  pub record Takes (token : Text) (start left : Dict ApprovalRecord) : Type 0 where
    pub taken : ApprovalRecord
    pub found : lookup token start ≡ some taken
    pub bound : IsBound taken q now
    pub left_lem :
        (k : Text)
        → lookup k left ≡ (if text_eq token k then none else only (is_live now) (lookup k start))

  only-found :
      (start : Dict ApprovalRecord) (t : Text) (r : ApprovalRecord)
      → IsDict start
      → lookup t (without_expired start now) ≡ some r
      → lookup t start ≡ some r
  unfolding without_expired
  only-found start t r d e = grind (arith, lookup-keep (is_live now) t start d)

  erase-Takes :
      (start : Dict ApprovalRecord) (t : Text) (r : ApprovalRecord)
      → IsDict start
      → lookup t (without_expired start now) ≡ some r
      → matches r q now ≡ true
      → Takes t start (erase t (without_expired start now))
  unfolding without_expired
  erase-Takes start t r d e m = record {
    taken = r;
    found = only-found start t r d e;
    bound = matches-IsBound r q now m;
    left_lem = λ k. rw (lookup-erase, lookup-keep (is_live now) k start d);
  }

  live-IsDict : (d : Dict ApprovalRecord) → IsDict d → IsDict (without_expired d now)
  unfolding without_expired
  live-IsDict d h = keep-IsDict (is_live now) d h

  persisted-Takes :
      (s1 s' : Registry C) (t : Text) (r : ApprovalRecord)
      → IsDict s1.records
      → lookup t (without_expired s1.records now) ≡ some r
      → matches r q now ≡ true
      → persist json uid (erase t (without_expired s1.records now)) seen s1 ≡ (ok tt, s')
      → Takes t s1.records s'.records
  persisted-Takes s1 s' t r d e m p =
      rw (persist-records json uid seen s1 (erase t (without_expired s1.records now)) s' p).0
        (erase-Takes s1.records t r d e m)

  after_persist :
      (records : Dict ApprovalRecord) (s1 s' : Registry C)
      → (persist json uid records seen >> pure true) s1 ≡ (ok true, s')
      → persist json uid records seen s1 ≡ (ok tt, s')
  after_persist records s1 s' e =
      let (_, _, p, done) = continue-eq-ok (persist json uid records seen) (λ _. pure true) s1 e in
      cc

  consume_first-Takes :
      (cs : List (Text × ApprovalRecord)) (s1 s' : Registry C)
      → IsDict s1.records
      → candidates q now (without_expired s1.records now) ≡ cs
      → consume_first json uid cs (without_expired s1.records now) seen s1 ≡ (ok true, s')
      → (t : Text) × Takes t s1.records s'.records
  consume_first-Takes [] s1 s' d c e = cc
  consume_first-Takes (x ∷ cs) s1 s' d c e =
      let live = without_expired s1.records now in
      let (found, bound) = chosen_lem q now live x cs (live-IsDict s1.records d) c in
      (
        (earliest x cs).0,
        persisted-Takes s1 s' (earliest x cs).0 (earliest x cs).1 d found bound
            (after_persist (erase (earliest x cs).0 live) s1 s' e),
      )

  consume_found-Takes :
      (t : Text) (o : Option ApprovalRecord) (s1 s' : Registry C)
      → IsDict s1.records
      → lookup t (without_expired s1.records now) ≡ o
      → consume_found json uid t o now q (without_expired s1.records now) seen s1 ≡ (ok true, s')
      → Takes t s1.records s'.records
  consume_found-Takes t none s1 s' d f e = cc
  consume_found-Takes t (some r) s1 s' d f e = elim (Bool-cases (matches r q now)) [
    | inl bound ↦
        persisted-Takes s1 s' t r d f bound
          (after_persist (erase t (without_expired s1.records now)) s1 s' (rw bound at e))
    | inr differs ↦ cc
  ]

  module _ (s s' : Registry C) (d : IsDict s.records) where
    -- `consume_matching` that returns true has taken one record, live and bound to the request, and
    -- nothing else that was live after the reload, from a registry whose records form a dict.
    pub consume_matching-Takes :
        consume_matching json uid now q seen s ≡ (ok true, s')
        → (t : Text) × Takes t (reload json uid seen s).1.records s'.records
    unfolding consume_matching
    consume_matching-Takes e =
        let s1 = (reload json uid seen s).1 in
        consume_first-Takes (candidates q now (without_expired s1.records now)) s1 s'
          (reload-IsDict json uid seen s d) refl
          (after_reload-eq-ok json uid q seen (consume_live json uid now q seen) s s' true e)

    -- `consume` of a token that returns true has taken that token's record, and nothing else that was
    -- live after the reload, from a registry whose records form a dict.
    pub consume-Takes :
        (token : Text)
        → consume json uid (some token) now q seen s ≡ (ok true, s')
        → Takes token (reload json uid seen s).1.records s'.records
    unfolding consume
    consume-Takes token e = elim (Bool-cases (text_eq token [])) [
      | inl empty ↦ cc
      | inr proper ↦
          let s1 = (reload json uid seen s).1 in
          consume_found-Takes token (lookup token (without_expired s1.records now)) s1 s'
            (reload-IsDict json uid seen s d) refl
            (after_reload-eq-ok json uid q seen (consume_token json uid token now q seen) s s' true
              (rw proper at e))
    ]

module _ {C : Type 0} (json : JsonLib C) (uid : ℕ) (now now' : ℕ) (q q' : Request)
    (seen seen' : Observed C) where
  gone_live :
      (d : Dict ApprovalRecord) (t : Text)
      → lookup t d ≡ none
      → lookup t (without_expired d now') ≡ none
  unfolding without_expired
  gone_live d t h = lookup-keep-none (is_live now') t d h

  -- A call by a token that the reloaded records do not have returns no true.
  consume_gone :
      (t : Text) (s s' : Registry C)
      → lookup t (reload json uid seen' s).1.records ≡ none
      → consume json uid (some t) now' q' seen' s ≢ (ok true, s')
  unfolding consume
  consume_gone t s s' gone e = elim (Bool-cases (text_eq t [])) [
    | inl empty ↦ cc
    | inr proper ↦
        let ran =
          after_reload-eq-ok json uid q' seen' (consume_token json uid t now' q' seen') s s' true
            (rw proper at e) in
        let s1 = (reload json uid seen' s).1 in
        let stuck : consume_found json uid t none now' q' (without_expired s1.records now') seen' s1
            ≡ (ok true, s') =
          rw (gone_live s1.records t gone) at ran in
        cc
  ]

  -- A token that was consumed cannot be consumed again, whatever is asked for and whenever, as long
  -- as nobody else has replaced the approval file in between.
  pub consume_once :
      (t : Text) (s s' s'' : Registry C)
      → IsDict s.records
      → consume json uid (some t) now q seen s ≡ (ok true, s')
      → reload json uid seen' s' ≡ (ok false, s')
      → consume json uid (some t) now' q' seen' s' ≢ (ok true, s'')
  consume_once t s s' s'' d e quiet again =
      let gone = (consume-Takes json uid now q seen s s' d t e).left_lem t in
      consume_gone t s' s''
        (rw (ap (λ (r : Result Bool × Registry C). r.1) quiet, gone, text_eq_refl) refl) again
