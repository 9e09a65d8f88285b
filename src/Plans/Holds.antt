-- ===== src/Plans/Holds.antt =====
-- Where a plan stands among the records, and what the steps of a save do to that.
use mikrus_mcp.Plans.Record.{PlanRecord}
use mikrus_mcp.Prelude.{
  length-filter, ◌∙◌, ltb, ◌&&◌, refl, not, ap, Bool-cases, ltb-false, length-append, inr,
  find_first, filter, ◌⊎◌, ◌++◌, true, inl, false, arith, ◌≤◌, ◌+◌, length, Bool, All, ℕ, List,
  Text, some, [], ◌∷◌, ◌≡◌,
}
use mikrus_mcp.Plans.Store.{trim, has_digest}

module _ (digest : Text) (r : PlanRecord) where
  -- The plan is the first of its digest, with at most `n` plans behind it.
  abbrev pub Holds : ℕ → List PlanRecord → Type 0
  Holds n [] = ⊥
  Holds n (x ∷ xs) = ((x ≡ r) × (length xs ≤ n)) ⊎ ((has_digest digest x ≡ false) × Holds n xs)

  pub Holds-weaken : (n m : ℕ) (xs : List PlanRecord) → n ≤ m → Holds n xs → Holds m xs
  Holds-weaken n m [] le h = absurd h
  Holds-weaken n m (x ∷ xs) le (inl (e, l)) = inl (e, omega arith)
  Holds-weaken n m (x ∷ xs) le (inr (d, h)) = inr (d, Holds-weaken n m xs le h)

  pub filter-Holds :
      (n : ℕ) (p : PlanRecord → Bool) (xs : List PlanRecord)
      → p r ≡ true
      → Holds n xs
      → Holds n (filter p xs)
  filter-Holds n p [] keep h = absurd h
  filter-Holds n p (x ∷ xs) keep (inl (e, l)) =
      let kept : p x ≡ true = ap p e ∙ keep in
      rw kept (inl (e, omega (arith, l, length-filter p xs)))
  filter-Holds n p (x ∷ xs) keep (inr (d, h)) = elim (Bool-cases (p x)) [
    | inl kept ↦ rw kept (inr (d, filter-Holds n p xs keep h))
    | inr gone ↦ rw gone (filter-Holds n p xs keep h)
  ]

  pub append-Holds :
      (n : ℕ) (y : PlanRecord) (xs : List PlanRecord) → Holds n xs → Holds (n + 1) (xs ++ y ∷ [])
  append-Holds n y [] h = absurd h
  append-Holds n y (x ∷ xs) (inl (e, l)) = inl (e, omega (arith, l, length-append xs (y ∷ [])))
  append-Holds n y (x ∷ xs) (inr (d, h)) = inr (d, append-Holds n y xs h)

  pub trim-Holds :
      (max_records n : ℕ) (xs : List PlanRecord)
      → n + 1 ≤ max_records
      → Holds n xs
      → Holds n (trim max_records xs)
  unfolding trim
  trim-Holds max_records n [] le h = absurd h
  trim-Holds max_records n (x ∷ xs) le (inl (e, l)) =
      rw (ltb-false max_records (length xs + 1) (omega arith)) (inl (e, l))
  trim-Holds max_records n (x ∷ xs) le (inr (d, h)) =
      elim (Bool-cases (ltb max_records (length xs + 1))) [
        | inl long ↦ rw long (trim-Holds max_records n xs le h)
        | inr short ↦ rw short (inr (d, h))
      ]

  pub find_first-Holds :
      (n : ℕ) (p : PlanRecord → Bool) (xs : List PlanRecord)
      → has_digest digest r ≡ true
      → p r ≡ true
      → Holds n xs
      → find_first (λ x. has_digest digest x && p x) xs ≡ some r
  find_first-Holds n p [] own alive h = absurd h
  find_first-Holds n p (x ∷ xs) own alive (inl (e, l)) =
      let here : has_digest digest x ≡ true = ap (has_digest digest) e ∙ own in
      let kept : p x ≡ true = ap p e ∙ alive in rw (here, kept) (ap some e)
  find_first-Holds n p (x ∷ xs) own alive (inr (d, h)) = rw d (find_first-Holds n p xs own alive h)

  -- Without a plan of the digest, one that is appended is the first.
  pub fresh-Holds :
      (xs : List PlanRecord) → All (λ x. has_digest digest x ≡ false) xs → Holds 0 (xs ++ r ∷ [])
  fresh-Holds [] h = inl (refl, omega arith)
  fresh-Holds (x ∷ xs) h = inr (h.0, fresh-Holds xs h.1)

pub filtered-without :
    (digest : Text) (xs : List PlanRecord)
    → All
        (λ x. has_digest digest x ≡ false)
        (filter (λ (r : PlanRecord). not (has_digest digest r)) xs)
filtered-without digest [] = tt
filtered-without digest (x ∷ xs) = elim (Bool-cases (has_digest digest x)) [
  | inl same ↦ rw same (filtered-without digest xs)
  | inr other ↦ rw other (other, filtered-without digest xs)
]

pub length-trim :
    (max_records : ℕ) (xs : List PlanRecord) → length (trim max_records xs) ≤ max_records
unfolding trim
length-trim max_records [] = omega arith
length-trim max_records (x ∷ xs) = ground (arith, length-trim max_records xs)
