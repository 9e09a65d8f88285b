-- ===== src/Plans/Entries.antt =====
-- What an empty part of the differences says of two environments or two sets of labels.
use std.Path.{subst, ap₂}
use mikrus_mcp.Plans.Diff.{
  mismatch, is_changed, unless_empty, place, keys_changed, keys, texts_eq, sorted, mismatched,
  keys_added,
}
use mikrus_mcp.Dict.{contains, lookup, Dict}
use mikrus_mcp.Prelude.{
  sym, arith, ap, ◌++◌, ◌∙◌, text_eq_iff, Option, inr, inl, Option-cases, text_le, text_eq, false,
  not, filter, Bool-cases, true, refl, is_some, Bool, All, Text, List, none, some, [], ◌∷◌, ◌≡◌,
}

pub texts_eq-same : (ts us : List Text) → texts_eq ts us ≡ true → ts ≡ us
unfolding texts_eq
texts_eq-same [] [] h = refl
texts_eq-same [] (u ∷ us) h = cc
texts_eq-same (t ∷ ts) [] h = cc
texts_eq-same (t ∷ ts) (u ∷ us) h = elim (Bool-cases (text_eq t u)) [
  | inl same ↦
      let rest : texts_eq ts us ≡ true = rw same at h in
      ap₂ (λ x xs. x ∷ xs) ((text_eq_iff t u).0 same) (texts_eq-same ts us rest)
  | inr other ↦ let bad : false ≡ true = rw other at h in cc
]

module _ (P : Text → Type 0) where
  place-All : (t : Text) (us : List Text) → All P (place t us) → P t × All P us
  place-All t [] h = h
  place-All t (u ∷ us) h = elim (Bool-cases (text_le t u)) [
    | inl le ↦ rw le at h
    | inr gt ↦
        let moved : All P (u ∷ place t us) = rw gt at h in
        let (first, rest) = place-All t us moved.1 in (first, (moved.0, rest))
  ]

  -- What holds of a sorted list holds of the list.
  sorted-All : (ts : List Text) → All P (sorted ts) → All P ts
  unfolding sorted
  sorted-All [] h = tt
  sorted-All (t ∷ ts) h =
      let (first, rest) = place-All t (sorted ts) h in (first, sorted-All ts rest)

  keys-All : (k v : Text) (d : Dict Text) → All P (keys d) → lookup k d ≡ some v → P k
  keys-All k v [] h e = cc
  keys-All k v ((j, w) ∷ d) h e = elim (Bool-cases (text_eq j k)) [
    | inl same ↦ subst P ((text_eq_iff j k).0 same) h.0
    | inr other ↦ let e1 : lookup k d ≡ some v = rw other at e in keys-All k v d h.1 e1
  ]

place-empty : (t : Text) (us : List Text) → ¬ (place t us ≡ [])
place-empty t [] h = cc
place-empty t (u ∷ us) h = elim (Bool-cases (text_le t u)) [
  | inl le ↦ let bad : ◌≡◌ {A = List Text} (t ∷ u ∷ us) [] = rw le at h in cc
  | inr gt ↦ let bad : ◌≡◌ {A = List Text} (u ∷ place t us) [] = rw gt at h in cc
]

sorted-empty : (ts : List Text) → sorted ts ≡ [] → ts ≡ []
unfolding sorted
sorted-empty [] h = refl
sorted-empty (t ∷ ts) h = absurd (place-empty t (sorted ts) h)

filter-empty : (p : Text → Bool) (ts : List Text) → filter p ts ≡ [] → All (λ t. p t ≡ false) ts
filter-empty p [] h = tt
filter-empty p (t ∷ ts) h = elim (Bool-cases (p t)) [
  | inl kept ↦ let bad : ◌≡◌ {A = List Text} (t ∷ filter p ts) [] = rw kept at h in cc
  | inr dropped ↦ let rest : filter p ts ≡ [] = rw dropped at h in (dropped, filter-empty p ts rest)
]

-- Every entry of one dict stands in the other.
abbrev pub Contains : Dict Text → Dict Text → Type 0
Contains live desired = (k v : Text) → lookup k desired ≡ some v → lookup k live ≡ some v

pub unless_empty-none :
    (ts us : List Text) → is_some (unless_empty ts us) ≡ false → (ts ≡ []) × (us ≡ [])
unless_empty-none [] [] h = (refl, refl)
unless_empty-none (t ∷ ts) us h = cc
unless_empty-none [] (u ∷ us) h = cc

pub env-Contains :
    (live desired : Dict Text)
    → keys_added live desired ≡ []
    → keys_changed live desired ≡ []
    → Contains live desired
unfolding keys_added keys_changed
env-Contains live desired a c k v e =
    let held =
      keys-All (λ k. not (contains k live) ≡ false) k v desired
        (filter-empty (λ k. not (contains k live)) (keys desired) (sorted-empty _ a)) e in
    elim (Option-cases (lookup k live)) [
      | inl missing ↦ let bad : not false ≡ false = rw missing at held in cc
      | inr (w, here) ↦
          let same =
            keys-All (λ k. is_changed (lookup k live) (lookup k desired) ≡ false) k w live
              (filter-empty (λ k. is_changed (lookup k live) (lookup k desired)) (keys live)
                (sorted-empty _ c))
              here in
          let same1 : not (text_eq w v) ≡ false = rw (here, e) at same in
          here ∙ ap some ((text_eq_iff w v).0 ground (arith, same1))
    ]

empty-parts : {A : Type 0} (xs ys : List A) → (xs ++ ys) ≡ [] → (xs ≡ []) × (ys ≡ [])
empty-parts [] ys h = (refl, h)
empty-parts (x ∷ xs) ys h = cc

mismatched-empty :
    (live desired : Dict Text) (ks : List Text)
    → mismatched live desired ks ≡ []
    → All (λ k. mismatch k (lookup k live) (lookup k desired) ≡ []) ks
unfolding mismatched
mismatched-empty live desired [] h = tt
mismatched-empty live desired (k ∷ ks) h =
    let (first, rest) =
      empty-parts (mismatch k (lookup k live) (lookup k desired)) (mismatched live desired ks) h in
    (first, mismatched-empty live desired ks rest)

mismatch-none : (k v : Text) (live : Option Text) → mismatch k live (some v) ≡ [] → live ≡ some v
mismatch-none k v none h = cc
mismatch-none k v (some w) h = elim (Bool-cases (text_eq w v)) [
  | inl same ↦ ap some ((text_eq_iff w v).0 same)
  | inr other ↦
      let bad : ◌≡◌ {A = List (Text × Option Text × Text)} ((k, some w, v) ∷ []) [] =
        rw other at h in
      cc
]

pub labels-Contains :
    (live desired : Dict Text)
    → mismatched live desired (sorted (keys desired)) ≡ []
    → Contains live desired
labels-Contains live desired h k v e =
    let at_k =
      keys-All (λ k. mismatch k (lookup k live) (lookup k desired) ≡ []) k v desired
        (sorted-All (λ k. mismatch k (lookup k live) (lookup k desired) ≡ []) (keys desired)
          (mismatched-empty live desired (sorted (keys desired)) h))
        e in
    mismatch-none k v (lookup k live) (ap (λ o. mismatch k (lookup k live) o) (sym e) ∙ at_k)
