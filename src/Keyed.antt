-- ===== src/Keyed.antt =====
-- Lists of records under a key, as the JSON stores keep them: replace the first record of a key,
-- append one, and drop a key, each with what it does to a lookup.
use std.Path.{subst}
use mikrus_mcp.Prelude.{
  All, Option-cases, some-inj, ◌∙◌, sym, inr, inl, suc, false, arith, ap, Bool-cases, [], ◌++◌, not,
  length, if◌then◌else◌, find_first-holds, ◌∷◌, some, refl, none, find_first, filter, ◌↔◌, Option,
  true, List, Bool, ◌≡◌,
}

module _ {ℓ} {A : Type ℓ} where
  -- `for index, current in enumerate(records): if ...: records[index] = record; break`
  abbrev pub replace_first : (A → Bool) → A → List A → Option (List A)
  replace_first p r [] = none
  replace_first p r (x ∷ xs) =
      if p x
      then some (r ∷ xs)
      else elim (replace_first p r xs) [ none ↦ none | some ys ↦ some (x ∷ ys) ]

  -- The record that the loop of a deletion found last.
  abbrev pub find_last : (A → Bool) → List A → Option A
  find_last p [] = none
  find_last p (x ∷ xs) = elim (find_last p xs) [
    | none ↦ if p x then some x else none
    | some y ↦ some y
  ]

  pub All-replaced {κ} :
      (P : A → Type κ) (p : A → Bool) (r : A) (xs ys : List A)
      → replace_first p r xs ≡ some ys
      → P r
      → All P xs
      → All P ys
  All-replaced P p r [] ys e h k = cc
  All-replaced P p r (x ∷ xs) ys e h k = elim (Bool-cases (p x)) [
    | inl here ↦
        let e1 : some (r ∷ xs) ≡ some ys = rw here at e in subst (All P) (some-inj e1) (h, k.1)
    | inr later ↦ elim (Option-cases (replace_first p r xs)) [
      | inl none_there ↦
          let bad : ◌≡◌ {A = Option (List A)} none (some ys) = rw (later, none_there) at e in cc
      | inr (zs, there) ↦
          let e1 : some (x ∷ zs) ≡ some ys = rw (later, there) at e in
          subst (All P) (some-inj e1) (k.0, All-replaced P p r xs zs there h k.1)
    ]
  ]

module _ {A K : Type 0} (key : A → K) (same : K → K → Bool)
    (same_iff : (x y : K) → (same x y ≡ true) ↔ (x ≡ y)) where
  abbrev pub is_at : K → A → Bool
  is_at k a = same (key a) k

  -- The record of a key.
  abbrev pub at : K → List A → Option A
  at k xs = find_first (is_at k) xs

  abbrev pub IsDistinct : List A → Type 0
  IsDistinct [] = Unit
  IsDistinct (x ∷ xs) = (at (key x) xs ≡ none) × IsDistinct xs

  same_refl : (k : K) → same k k ≡ true
  same_refl k = (same_iff k k).1 refl

  same-left : (x y k : K) → same x y ≡ true → same x k ≡ same y k
  same-left x y k h = ap (λ z. same z k) ((same_iff x y).0 h)

  same_swap : (x y k : K) → same x y ≡ false → same x k ≡ true → same y k ≡ false
  same_swap x y k h e = elim (Bool-cases (same y k)) [
    | inl both ↦
        let joined = (same_iff x k).0 e ∙ sym ((same_iff y k).0 both) in
        let bad = (same_iff x y).1 joined in cc
    | inr apart ↦ apart
  ]

  unlike : (x y : K) → same x y ≡ false → same y x ≡ false
  unlike x y h = elim (Bool-cases (same y x)) [
    | inl both ↦ let bad = (same_iff x y).1 (sym ((same_iff y x).0 both)) in cc
    | inr apart ↦ apart
  ]

  pub at_own : (k : K) (xs : List A) (a : A) → at k xs ≡ some a → key a ≡ k
  at_own k xs a e = (same_iff (key a) k).0 (find_first-holds (is_at k) xs a e)

  pub at-replaced :
      (k : K) (r : A) (xs ys : List A)
      → replace_first (is_at (key r)) r xs ≡ some ys
      → at k ys ≡ (if same (key r) k then some r else at k xs)
  at-replaced k r [] ys e = cc
  at-replaced k r (x ∷ xs) ys e = elim (Bool-cases (same (key x) (key r))) [
    | inl here ↦
        let e1 : some (r ∷ xs) ≡ some ys = rw here at e in
        let own = same-left (key x) (key r) k here in rw (sym (some-inj e1), own) ground arith
    | inr later ↦ elim (Option-cases (replace_first (is_at (key r)) r xs)) [
      | inl none_there ↦
          let bad : ◌≡◌ {A = Option (List A)} none (some ys) = rw (later, none_there) at e in cc
      | inr (zs, there) ↦
          let e1 : some (x ∷ zs) ≡ some ys = rw (later, there) at e in
          let rest = at-replaced k r xs zs there in
          let swapped = same_swap (key x) (key r) k in
          rw (sym (some-inj e1), rest) ground (arith, later, swapped)
    ]
  ]

  pub at-unreplaced :
      (k : K) (r : A) (xs : List A) → replace_first (is_at k) r xs ≡ none → at k xs ≡ none
  at-unreplaced k r [] e = refl
  at-unreplaced k r (x ∷ xs) e = ground (arith, at-unreplaced k r xs)

  -- A key that is not held is not replaced.
  pub unheld-unreplaced :
      (k : K) (r : A) (xs : List A) → at k xs ≡ none → replace_first (is_at k) r xs ≡ none
  unheld-unreplaced k r [] e = refl
  unheld-unreplaced k r (x ∷ xs) e = elim (Bool-cases (same (key x) k)) [
    | inl here ↦ let bad : ◌≡◌ {A = Option A} (some x) none = rw here at e in cc
    | inr later ↦
        let e1 : at k xs ≡ none = rw later at e in rw (later, unheld-unreplaced k r xs e1) refl
  ]

  pub length-replaced :
      (p : A → Bool) (r : A) (xs ys : List A)
      → replace_first p r xs ≡ some ys
      → length ys ≡ length xs
  length-replaced p r [] ys e = cc
  length-replaced p r (x ∷ xs) ys e = elim (Bool-cases (p x)) [
    | inl here ↦ let e1 : some (r ∷ xs) ≡ some ys = rw here at e in rw (sym (some-inj e1)) refl
    | inr later ↦ elim (Option-cases (replace_first p r xs)) [
      | inl none_there ↦
          let bad : ◌≡◌ {A = Option (List A)} none (some ys) = rw (later, none_there) at e in cc
      | inr (zs, there) ↦
          let e1 : some (x ∷ zs) ≡ some ys = rw (later, there) at e in
          rw (sym (some-inj e1), length-replaced p r xs zs there) refl
    ]
  ]

  pub at-append :
      (k : K) (r : A) (xs : List A)
      → at (key r) xs ≡ none
      → at k (xs ++ r ∷ []) ≡ (if same (key r) k then some r else at k xs)
  at-append k r [] e = refl
  at-append k r (x ∷ xs) e = elim (Bool-cases (same (key x) (key r))) [
    | inl here ↦ let bad : ◌≡◌ {A = Option A} (some x) none = rw here at e in cc
    | inr later ↦
        let e1 : at (key r) xs ≡ none = rw later at e in
        let rest = at-append k r xs e1 in
        let swapped = same_swap (key x) (key r) k in rw rest ground (arith, later, swapped)
  ]

  pub at-dropped :
      (k j : K) (xs : List A)
      → at j (filter (λ a. not (is_at k a)) xs) ≡ (if same k j then none else at j xs)
  at-dropped k j [] = ground arith
  at-dropped k j (x ∷ xs) =
      let rest = at-dropped k j xs in
      let swapped = same_swap (key x) k j in
      elim (Bool-cases (same (key x) k)) [
        | inl here ↦ let own = same-left (key x) k j here in rw (here, rest, own) ground arith
        | inr there ↦ rw (there, rest) ground (arith, there, swapped)
      ]

  dropped-none : (k : K) (xs : List A) → at k xs ≡ none → filter (λ a. not (is_at k a)) xs ≡ xs
  dropped-none k [] e = refl
  dropped-none k (x ∷ xs) e = elim (Bool-cases (same (key x) k)) [
    | inl here ↦ let bad : ◌≡◌ {A = Option A} (some x) none = rw here at e in cc
    | inr later ↦ let e1 : at k xs ≡ none = rw later at e in rw (later, dropped-none k xs e1) refl
  ]

  -- Behind a record of the key there is no other.
  behind :
      (k : K) (x : A) (xs : List A) → IsDistinct (x ∷ xs) → same (key x) k ≡ true → at k xs ≡ none
  behind k x xs d here = ap (λ j. at j xs) (sym ((same_iff (key x) k).0 here)) ∙ d.0

  -- Dropping a key that a distinct list holds drops one record.
  pub length-dropped :
      (k : K) (a : A) (xs : List A)
      → IsDistinct xs
      → at k xs ≡ some a
      → suc (length (filter (λ a. not (is_at k a)) xs)) ≡ length xs
  length-dropped k a [] d e = cc
  length-dropped k a (x ∷ xs) d e = elim (Bool-cases (same (key x) k)) [
    | inl here ↦ rw (here, dropped-none k xs (behind k x xs d here)) refl
    | inr later ↦
        let e1 : at k xs ≡ some a = rw later at e in
        let rest = length-dropped k a xs d.1 e1 in rw (later, rest) refl
  ]

  -- In a distinct list the last record of a key is its only one.
  pub find_last-at : (k : K) (xs : List A) → IsDistinct xs → find_last (is_at k) xs ≡ at k xs
  find_last-at k [] d = refl
  find_last-at k (x ∷ xs) d = elim (Bool-cases (same (key x) k)) [
    | inl here ↦ rw (find_last-at k xs d.1, behind k x xs d here, here) refl
    | inr later ↦ rw (find_last-at k xs d.1) (no_head (same (key x) k) x (at k xs) later)
  ]
    where
      no_head :
          (b : Bool) (x : A) (o : Option A)
          → b ≡ false
          → (elim o [ none ↦ if b then some x else none | some y ↦ some y ])
            ≡ (if b then some x else o)
      no_head b x none h = rw h refl
      no_head b x (some y) h = rw h refl

  pub replaced-IsDistinct :
      (r : A) (xs ys : List A)
      → replace_first (is_at (key r)) r xs ≡ some ys
      → IsDistinct xs
      → IsDistinct ys
  replaced-IsDistinct r [] ys e d = cc
  replaced-IsDistinct r (x ∷ xs) ys e d = elim (Bool-cases (same (key x) (key r))) [
    | inl here ↦
        let e1 : some (r ∷ xs) ≡ some ys = rw here at e in
        subst IsDistinct (some-inj e1) (behind (key r) x xs d here, d.1)
    | inr later ↦ elim (Option-cases (replace_first (is_at (key r)) r xs)) [
      | inl none_there ↦
          let bad : ◌≡◌ {A = Option (List A)} none (some ys) = rw (later, none_there) at e in cc
      | inr (zs, there) ↦
          let e1 : some (x ∷ zs) ≡ some ys = rw (later, there) at e in
          subst IsDistinct (some-inj e1) (
            at-replaced (key x) r xs zs there ∙ rw (unlike (key x) (key r) later) d.0,
            replaced-IsDistinct r xs zs there d.1,
          )
    ]
  ]

  pub append-IsDistinct :
      (r : A) (xs : List A) → at (key r) xs ≡ none → IsDistinct xs → IsDistinct (xs ++ r ∷ [])
  append-IsDistinct r [] e d = (refl, tt)
  append-IsDistinct r (x ∷ xs) e d = elim (Bool-cases (same (key x) (key r))) [
    | inl here ↦ let bad : ◌≡◌ {A = Option A} (some x) none = rw here at e in cc
    | inr later ↦
        let e1 : at (key r) xs ≡ none = rw later at e in
        (
          at-append (key x) r xs e1 ∙ rw (unlike (key x) (key r) later) d.0,
          append-IsDistinct r xs e1 d.1,
        )
  ]

  pub dropped-IsDistinct :
      (k : K) (xs : List A) → IsDistinct xs → IsDistinct (filter (λ a. not (is_at k a)) xs)
  dropped-IsDistinct k [] d = tt
  dropped-IsDistinct k (x ∷ xs) d = elim (Bool-cases (same (key x) k)) [
    | inl here ↦ rw here (dropped-IsDistinct k xs d.1)
    | inr later ↦
        rw later
          (at-dropped k (key x) xs ∙ rw (unlike (key x) k later) d.0, dropped-IsDistinct k xs d.1)
  ]
