-- ===== src/Exec.antt =====
-- A method that changes its object and may raise: what was written before a raise stays written,
-- so the state comes back beside the exception too.
use mikrus_mcp.Prelude.{refl, ◌≡◌, Bool, true, false}
use mikrus_mcp.Errors.{Error, Result, ok, err}

abbrev pub Exec {ℓ} : Type ℓ → Type ℓ → Type ℓ
Exec S A = S → Result A × S

module _ {ℓ} {S A : Type ℓ} where
  abbrev pub pure : A → Exec S A
  pure a s = (ok a, s)

  abbrev pub raise : Error → Exec S A
  raise e s = (err e, s)

  -- A pure call inside a method.
  abbrev pub lift : Result A → Exec S A
  lift r s = (r, s)

  abbrev pub gets : (S → A) → Exec S A
  gets f s = (ok (f s), s)

abbrev pub modify : {S : Type 0} → (S → S) → Exec S (Unit {0})
modify f s = (ok tt, f s)

abbrev pub raise_when : {S : Type 0} → Bool → Error → Exec S (Unit {0})
raise_when true e s = (err e, s)
raise_when false e s = (ok tt, s)

-- What follows a call: the rest runs on the value and the state that it left.
abbrev pub continue {ℓ} : {S A B : Type ℓ} → Result A × S → (A → Exec S B) → Result B × S
continue (ok a, s) f = f a s
continue (err e, s) f = (err e, s)

infixl 5 ◌>>=◌ ◌>>◌
abbrev pub ◌>>=◌ {ℓ} : {S A B : Type ℓ} → Exec S A → (A → Exec S B) → Exec S B
◌>>=◌ m f s = continue (m s) f

abbrev pub ◌>>◌ {ℓ} : {S A B : Type ℓ} → Exec S A → Exec S B → Exec S B
m >> k = m >>= λ _. k

-- Inversion of a bind that succeeded: what its first part returned, and the state in between.
pub continue-eq-ok {ℓ} :
    {S A B : Type ℓ} (m : Exec S A) (f : A → Exec S B) (s : S) {b : B} {s' : S}
    → (m >>= f) s ≡ (ok b, s')
    → (a : A) × (s1 : S) × (m s ≡ (ok a, s1)) × (f a s1 ≡ (ok b, s'))
continue-eq-ok {S = S} {A = A} {B = B} m f s {b} {s'} h = split (m s) refl
  where
    split :
        (r : Result A × S)
        → m s ≡ r
        → (a : A) × (s1 : S) × (m s ≡ (ok a, s1)) × (f a s1 ≡ (ok b, s'))
    split (ok a, s1) e = (a, s1, e, rw e at h)
    split (err x, s1) e = let bad : ◌≡◌ {A = Result B × S} (err x, s1) (ok b, s') = rw e at h in cc

-- A method that ends by returning a value leaves the state of the call before it.
pub state-then_pure {ℓ} :
    {S A B : Type ℓ} (m : Exec S A) (b : B) (s : S) → ((m >>= λ _. pure b) s).1 ≡ (m s).1
state-then_pure {S = S} {A = A} {B = B} m b s = of (m s)
  where
    of : (r : Result A × S) → (continue {B = B} r (λ _. pure b)).1 ≡ r.1
    of (ok a, s1) = refl
    of (err e, s1) = refl

-- `m` keeps `P`, whether it returns or raises.
abbrev pub Keeps {ℓ} : {S A : Type ℓ} → (S → Type ℓ) → Exec S A → Type ℓ
Keeps {S = S} P m = (s : S) → P s → P (m s).1

pub Keeps-bind {ℓ} :
    {S A B : Type ℓ} (P : S → Type ℓ) (m : Exec S A) (f : A → Exec S B)
    → Keeps P m
    → ((a : A) → Keeps P (f a))
    → Keeps P (m >>= f)
Keeps-bind {S = S} {A = A} P m f km kf s h = next (m s) (km s h)
  where
    next : (r : Result A × S) → P r.1 → P (continue r f).1
    next (ok a, s1) k = kf a s1 k
    next (err e, s1) k = k
