-- ===== src/Prelude/Split.antt =====
-- `str.split`, `str.join` and `str.partition` on one separating character.
use Prim.Native.Nat.{ℕ}
use mathlib.Core.Path.{◌≡◌, refl}
use mathlib.Core.Bool.{Bool, true, false, ◌&&◌, ◌||◌}
use mathlib.Core.List.{List, [], ◌∷◌, ◌++◌}
use native.Mathlib.Omega.{arith}
use mikrus_mcp.Prelude.Tests.{◌==◌, if◌then◌else◌}
use mikrus_mcp.Prelude.Lists.{any, All}
use mikrus_mcp.Prelude.Strings.{Text}

abbrev pub cons_head : ℕ → List Text → List Text
cons_head x [] = (x ∷ []) ∷ []
cons_head x (t ∷ ts) = (x ∷ t) ∷ ts

-- `s.split(c)`
abbrev pub split : ℕ → Text → List Text
split c [] = [] ∷ []
split c (x ∷ xs) = let rest = split c xs in if x == c then [] ∷ rest else cons_head x rest

-- `c.join(ts)`
abbrev pub join : ℕ → List Text → Text
join c [] = []
join c (t ∷ []) = t
join c (t ∷ u ∷ ts) = t ++ c ∷ join c (u ∷ ts)

-- `s.startswith(p)`
abbrev pub starts_with : Text → Text → Bool
starts_with [] s = true
starts_with (x ∷ p) [] = false
starts_with (x ∷ p) (y ∷ s) = x == y && starts_with p s

-- `s.partition(c)[0]` and `s.partition(c)[2]`; whether `c` stands in `s` is `has`.
abbrev pub before : ℕ → Text → Text
before c [] = []
before c (x ∷ xs) = if x == c then [] else x ∷ before c xs

abbrev pub after : ℕ → Text → Text
after c [] = []
after c (x ∷ xs) = if x == c then xs else after c xs

abbrev pub has : ℕ → Text → Bool
has c [] = false
has c (x ∷ xs) = if x == c then true else has c xs

-- A text in which the separator does not occur.
abbrev pub Lacks : ℕ → Text → Type 0
Lacks c t = has c t ≡ false

pub split-nonempty : (c : ℕ) (s : Text) → (t : Text) × (ts : List Text) × (split c s ≡ t ∷ ts)
split-nonempty c [] = ([], [], refl)
split-nonempty c (x ∷ xs) = go (split c xs) (x == c)
  where
    go :
        (r : List Text) (b : Bool)
        → (t : Text) × (ts : List Text) × ((if b then [] ∷ r else cons_head x r) ≡ t ∷ ts)
    go r true = ([], r, refl)
    go [] false = (x ∷ [], [], refl)
    go (t ∷ ts) false = (x ∷ t, ts, refl)

split_no_sep : (c : ℕ) (t : Text) → Lacks c t → split c t ≡ t ∷ []
split_no_sep c [] h = refl
split_no_sep c (x ∷ xs) h = ground (arith, split_no_sep c xs)

pub split-append : (c : ℕ) (t s : Text) → Lacks c t → split c (t ++ c ∷ s) ≡ t ∷ split c s
split-append c [] s h = ground arith
split-append c (x ∷ xs) s h = ground (arith, split-append c xs s)

-- Splitting a text that was joined gives its parts back.
pub split-join :
    (c : ℕ) (t : Text) (ts : List Text)
    → All (Lacks c) (t ∷ ts)
    → split c (join c (t ∷ ts)) ≡ t ∷ ts
split-join c t [] h = split_no_sep c t h.0
split-join c t (u ∷ ts) h = rw (split-append c t (join c (u ∷ ts)) h.0, split-join c u ts h.1) refl

-- The parts of a split lack the separator.
pub split-Lacks : (c : ℕ) (s : Text) → All (Lacks c) (split c s)
split-Lacks c [] = (refl, tt)
split-Lacks c (x ∷ xs) = go (split c xs) (split-Lacks c xs) (x == c) refl
  where
    go :
        (r : List Text)
        → All (Lacks c) r
        → (b : Bool) → (x == c) ≡ b
        → All (Lacks c) (if b then [] ∷ r else cons_head x r)
    go r h true e = (refl, h)
    go [] h false e = (ground arith, tt)
    go (t ∷ ts) h false e = (ground (arith, h.0), h.1)

-- A test that no character of a text passes is passed by none of its parts, nor by the joined text.
pub split-any :
    (p : ℕ → Bool) (c : ℕ) (s : Text) → any p s ≡ false → All (λ t. any p t ≡ false) (split c s)
split-any p c [] h = (refl, tt)
split-any p c (x ∷ xs) h = go (split c xs) (split-any p c xs (ground arith)) (x == c)
  where
    go :
        (r : List Text)
        → All (λ t. any p t ≡ false) r
        → (b : Bool) → All (λ t. any p t ≡ false) (if b then [] ∷ r else cons_head x r)
    go r k true = (refl, k)
    go [] k false = (ground arith, tt)
    go (t ∷ ts) k false = (ground (arith, k.0), k.1)

any-append : (p : ℕ → Bool) (s t : Text) → any p (s ++ t) ≡ (any p s || any p t)
any-append p [] t = refl
any-append p (x ∷ s) t = ground (arith, any-append p s t)

pub join-any :
    (p : ℕ → Bool) (c : ℕ) (ts : List Text)
    → p c ≡ false
    → All (λ t. any p t ≡ false) ts
    → any p (join c ts) ≡ false
join-any p c [] h k = refl
join-any p c (t ∷ []) h k = k.0
join-any p c (t ∷ u ∷ ts) h k =
    ground (arith, any-append p t (c ∷ join c (u ∷ ts)), join-any p c (u ∷ ts) h k.1)
