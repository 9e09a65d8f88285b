-- ===== src/Approvals/Matching.antt =====
-- `has_matching` promises what `consume_matching` then does.
use mikrus_mcp.Results.{Result-cases}
use mikrus_mcp.Prelude.{
  ap, ◌∙◌, inr, inl, ℕ, ◌≡◌, refl, Bool, true, false, none, List, [], ◌∷◌, arith, Text, any,
}
use mikrus_mcp.Errors.{ok}
use mikrus_mcp.Dict.{Dict}
use mikrus_mcp.Json.{JsonLib}
use mikrus_mcp.Approvals.Record.{
  validate_arguments_digest, ApprovalRecord, Request, matches, candidates, without_expired,
}
use mikrus_mcp.Approvals.Registry.{
  Registry, Observed, after_reload, reload, persist, consume_matching, has_matching, consume_first,
}

abbrev is_nonempty : {A : Type 0} → List A → Bool
is_nonempty [] = false
is_nonempty (x ∷ xs) = true

module _ (q : Request) (now : ℕ) where
  -- A match is live, so dropping the expired records first loses none.
  any-candidates :
      (d : Dict ApprovalRecord)
      → is_nonempty (candidates q now (without_expired d now)) ≡ any (λ e. matches e.1 q now) d
  unfolding candidates without_expired matches
  any-candidates [] = refl
  any-candidates (e ∷ d) = ground (arith, any-candidates d)

module _ {C : Type 0} (json : JsonLib C) (uid : ℕ) (now : ℕ) (q : Request) where
  consume_first-result :
      (cs : List (Text × ApprovalRecord)) (active : Dict ApprovalRecord) (seen : Observed C)
      (s : Registry C)
      → s.source ≡ none
      → (consume_first json uid cs active seen s).0 ≡ ok (is_nonempty cs)
  unfolding persist
  consume_first-result [] active seen s h = refl
  consume_first-result (c ∷ cs) active seen s h = rw h refl

  -- For a registry in memory the two calls give the same answer at the same time, the refusal of a
  -- malformed digest included.
  pub consume_matching-eq-has_matching :
      (seen seen' : Observed C) (s : Registry C)
      → s.source ≡ none
      → (consume_matching json uid now q seen s).0 ≡ (has_matching json uid now q seen' s).0
  unfolding consume_matching has_matching after_reload reload
  consume_matching-eq-has_matching seen seen' s h =
      elim (Result-cases (validate_arguments_digest q.arguments_digest)) [
        | inl (digest, valid) ↦
            rw (valid, h)
              (consume_first-result (candidates q now (without_expired s.records now))
                  (without_expired s.records now) seen (record s { source = none }) refl
                ∙ ap ok (any-candidates q now s.records))
        | inr (x, failed) ↦ rw failed refl
      ]
