-- ===== src/Results.antt =====
-- A pure call that may raise: how a `do` block chains such calls.
use mikrus_mcp.Prelude.{◌≡◌, refl, ◌⊎◌, inl, inr, Bool, true, false, Option, none, some}
use mikrus_mcp.Errors.{Error, Result, ok, err}

infixl 5 ◌>>=◌ ◌>>◌
abbrev pub ◌>>=◌ {ℓ κ} : {A : Type ℓ} {B : Type κ} → (Result A) → (A → Result B) → Result B
err x >>= rest = err x
ok value >>= rest = rest value

abbrev pub ◌>>◌ {ℓ} : {A : Type ℓ} → Result (Unit {0}) → Result A → Result A
call >> next = call >>= λ done. next

-- `if test: raise e`
abbrev pub raise_if : Bool → Error → Result (Unit {0})
raise_if true e = err e
raise_if false e = ok tt

-- The value of an optional result, or an exception where there is none.
abbrev pub or_raise {ℓ} : {A : Type ℓ} → Option A → Error → Result A
or_raise none e = err e
or_raise (some a) e = ok a

-- `try: ... except (...): raise e`
abbrev pub reraise {ℓ} : {A : Type ℓ} → Result A → Error → Result A
reraise (ok a) e = ok a
reraise (err _) e = err e

pub >>=-eq-ok {ℓ κ} :
    {A : Type ℓ} {B : Type κ} (call : Result A) (rest : A → Result B) {value : B}
    → (call >>= rest) ≡ ok value
    → (a : A) × (call ≡ ok a) × (rest a ≡ ok value)
>>=-eq-ok (err x) rest failed = cc
>>=-eq-ok (ok a) rest done = (a, refl, done)

pub Result-cases {ℓ} :
    {A : Type ℓ} (r : Result A) → ((a : A) × (r ≡ ok a)) ⊎ ((e : Error) × (r ≡ err e))
Result-cases (ok a) = inl (a, refl)
Result-cases (err e) = inr (e, refl)

-- A result that was returned is one value.
pub ok-inj {ℓ} : {A : Type ℓ} {x y : A} → ◌≡◌ {A = Result A} (ok x) (ok y) → x ≡ y
ok-inj h = cc
