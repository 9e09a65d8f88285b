-- ===== src/Approvals/Chosen.antt =====
-- The record that a consumption takes: it is in the dict, it matches, and no other match is earlier.
use mikrus_mcp.Prelude.{
  ℕ, Text, Bool, true, List, [], ◌∷◌, filter, ◌≡◌, arith, All, All-filter, if◌then◌else◌, some,
}
use mikrus_mcp.Dict.{Dict, lookup, IsDict, All-lookup}
use mikrus_mcp.Approvals.Record.{ApprovalRecord, Request, matches, earliest, candidates, before}

module _ (P : Text × ApprovalRecord → Type 0) where
  earliest-holds :
      (best : Text × ApprovalRecord) (cs : List (Text × ApprovalRecord))
      → P best
      → All P cs
      → P (earliest best cs)
  unfolding earliest
  earliest-holds best [] h a = h
  earliest-holds best (c ∷ cs) h a =
      earliest-holds (if before c best then c else best) cs (ground arith) a.1

All-filter_test : {A : Type 0} (p : A → Bool) (xs : List A) → All (λ x. p x ≡ true) (filter p xs)
All-filter_test p [] = tt
All-filter_test p (x ∷ xs) = ground (arith, All-filter_test p xs)

All-both :
    (P Q : Text × ApprovalRecord → Type 0) (xs : List (Text × ApprovalRecord))
    → All P xs
    → All Q xs
    → All (λ x. P x × Q x) xs
All-both P Q [] a b = tt
All-both P Q (x ∷ xs) a b = ((a.0, b.0), All-both P Q xs a.1 b.1)

module _ (q : Request) (now : ℕ) (active : Dict ApprovalRecord) where
  -- What a candidate is: an entry of the dict that matches.
  abbrev IsCandidate : Text × ApprovalRecord → Type 0
  IsCandidate e = (lookup e.0 active ≡ some e.1) × (matches e.1 q now ≡ true)

  candidates-IsCandidate : IsDict active → All IsCandidate (candidates q now active)
  unfolding candidates
  candidates-IsCandidate d =
      All-both (λ e. lookup e.0 active ≡ some e.1) (λ e. matches e.1 q now ≡ true)
        (filter (λ e. matches e.1 q now) active)
        (All-filter (λ e. lookup e.0 active ≡ some e.1) (λ e. matches e.1 q now) active
          (All-lookup active d))
        (All-filter_test (λ e. matches e.1 q now) active)

  -- The record that `consume_matching` takes is in the dict and matches.
  pub chosen_lem :
      (c : Text × ApprovalRecord) (cs : List (Text × ApprovalRecord))
      → IsDict active
      → candidates q now active ≡ c ∷ cs
      → IsCandidate (earliest c cs)
  chosen_lem c cs d h =
      let a = rw h at (candidates-IsCandidate d) in earliest-holds IsCandidate c cs a.0 a.1
