-- ===== src/Crontab/Lines.antt =====
-- The lines of a text that ends where a further text begins.
use mikrus_mcp.Crontab.Projection.{terminated, ends_line}
use std.Path.{subst}
use mikrus_mcp.Prelude.{
  sym, join, split-nonempty, ◌∙◌, inr, ◌==◌, inl, refl, Bool-cases, true, arith, ap, ◌++◌, split,
  All, ℕ, Text, List, [], ◌∷◌, ◌≡◌,
}

pub split-joined : (c : ℕ) (w rest : Text) → split c (w ++ c ∷ rest) ≡ split c w ++ split c rest
split-joined c [] rest = ground arith
split-joined c (x ∷ w) rest = elim (Bool-cases (x == c)) [
  | inl sep ↦ rw (sep, split-joined c w rest) refl
  | inr char ↦ let (t, ts, e) = split-nonempty c w in rw (char, split-joined c w rest, e) refl
]

ends_line-cut : (w : Text) → ends_line w ≡ true → (v : Text) × (w ≡ v ++ b'\n' ∷ [])
ends_line-cut [] h = cc
ends_line-cut (c ∷ []) h = ([], ground arith)
ends_line-cut (c ∷ d ∷ w) h = let (v, e) = ends_line-cut (d ∷ w) h in (c ∷ v, ap (λ t. c ∷ t) e)

All-above : {A : Type 0} (P : A → Type 0) (xs ys : List A) → All P (xs ++ ys) → All P xs
All-above P [] ys h = tt
All-above P (x ∷ xs) ys h = (h.0, All-above P xs ys h.1)

append_assoc : {A : Type 0} (xs ys zs : List A) → ((xs ++ ys) ++ zs) ≡ (xs ++ (ys ++ zs))
append_assoc [] ys zs = refl
append_assoc (x ∷ xs) ys zs = ap (λ t. x ∷ t) (append_assoc xs ys zs)

module _ (P : Text → Type 0) where
  -- Behind a text with its last line ended, the lines are those of the text and then the others.
  pub split-terminated :
      (w : Text)
      → All P (split b'\n' w)
      → (above : List Text) × All P above
        × ((rest : Text) → split b'\n' (terminated w ++ rest) ≡ above ++ split b'\n' rest)
  split-terminated [] h = ([], tt, λ rest. refl)
  split-terminated (x ∷ w) h = elim (Bool-cases (ends_line (x ∷ w))) [
    | inl ended ↦
        let (v, e) = ends_line-cut (x ∷ w) ended in
        let cut : split b'\n' (x ∷ w) ≡ split b'\n' v ++ [] ∷ [] =
          ap (split b'\n') e ∙ split-joined b'\n' v [] in
        let lines : (rest : Text)
            → split b'\n' ((x ∷ w) ++ rest) ≡ split b'\n' v ++ split b'\n' rest =
          λ rest.
            ap (λ t. split b'\n' (t ++ rest)) e
            ∙ (ap (split b'\n') (append_assoc v (b'\n' ∷ []) rest) ∙ split-joined b'\n' v rest) in
        rw ended (split b'\n' v, All-above P (split b'\n' v) ([] ∷ []) (subst (All P) cut h), lines)
    | inr unended ↦ rw unended (
      split b'\n' (x ∷ w),
      h,
      λ rest.
          ap (split b'\n') (append_assoc (x ∷ w) (b'\n' ∷ []) rest)
          ∙ split-joined b'\n' (x ∷ w) rest,
    )
  ]

join-cons_head : (c x : ℕ) (t : Text) (ts : List Text) → join c ((x ∷ t) ∷ ts) ≡ x ∷ join c (t ∷ ts)
join-cons_head c x t [] = refl
join-cons_head c x t (u ∷ ts) = refl

-- Joining the parts of a split gives the text back.
pub join-split : (c : ℕ) (s : Text) → join c (split c s) ≡ s
join-split c [] = refl
join-split c (x ∷ s) =
    let (t, ts, e) = split-nonempty c s in
    let rest : join c (t ∷ ts) ≡ s = ap (join c) (sym e) ∙ join-split c s in
    elim (Bool-cases (x == c)) [
      | inl sep ↦
          let same : x ≡ c = ground (arith, sep) in
          rw (sep, e) (ap (λ y. y ∷ join c (t ∷ ts)) (sym same) ∙ ap (λ r. x ∷ r) rest)
      | inr char ↦ rw (char, e) (join-cons_head c x t ts ∙ ap (λ r. x ∷ r) rest)
    ]

pub append_empty : {A : Type 0} (xs : List A) → (xs ++ []) ≡ xs
append_empty [] = refl
append_empty (x ∷ xs) = ap (λ t. x ∷ t) (append_empty xs)
