-- ===== src/Json.antt =====
-- JSON values as the `json` module hands them over, and the parts of Python's standard library that
-- the stores use on them. Those are parameters: the code under src/ only calls them.
use mikrus_mcp.Prelude.{
  zero, true, false, [], ℕ, Text, text_eq, Bool, Option, none, some, ◌≡◌, if◌then◌else◌,
}

-- Python's `int`; `negsuc n` is -(n + 1).
pub data ℤ : Type 0 where
  pos : ℕ → ℤ
  negsuc : ℕ → ℤ

-- `real` is a float, by its literal.
mutual
  pub data Json : Type 0 where
    null : Json
    bool : Bool → Json
    int : ℤ → Json
    real : Text → Json
    str : Text → Json
    arr : Items → Json
    obj : Fields → Json

  pub data Items : Type 0 where
    nil : Items
    cons : Json → Items → Items

  pub data Fields : Type 0 where
    end : Fields
    field : Text → Json → Fields → Fields

-- `payload.get(key)` on an object.
abbrev pub get : Text → Fields → Option Json
get k end = none
get k (field j v rest) = if text_eq j k then some v else get k rest

-- `isinstance(value, str)` and the like, with the value; a bool counts as an int.
abbrev pub as_str : Option Json → Option Text
as_str (some (str t)) = some t
as_str _ = none

abbrev pub as_int : Option Json → Option ℤ
as_int (some (int n)) = some n
as_int (some (bool true)) = some (pos 1)
as_int (some (bool false)) = some (pos 0)
as_int _ = none

-- `json.loads` and `json.dumps` between a file's content and a value, the content's length in
-- bytes, and the conversions `str(x)` and `float(x)` (in clock ticks).
pub record JsonLib (C : Type 0) : Type 0 where
  pub loads : C → Option Json
  pub dumps : Json → C
  pub size : C → ℕ
  pub str_of : Json → Text
  pub float_of : Json → Option ℕ
  pub float_repr : ℕ → Json
  pub truthy_real : Text → Bool

-- What the standard library documents of these functions: `loads` reads back what `dumps` wrote,
-- `str` leaves a text alone, and `float` reads back a number that was written.
pub record IsLossless {C : Type 0} (j : JsonLib C) : Type 0 where
  pub loads-dumps : (v : Json) → j.loads (j.dumps v) ≡ some v
  pub str_of-str : (t : Text) → j.str_of (str t) ≡ t
  pub float_of-float_repr : (n : ℕ) → j.float_of (j.float_repr n) ≡ some n

module _ {C : Type 0} (json : JsonLib C) where
  -- `bool(payload.get(key, False))`
  abbrev pub truthy : Option Json → Bool
  truthy none = false
  truthy (some null) = false
  truthy (some (bool b)) = b
  truthy (some (int (pos zero))) = false
  truthy (some (int _)) = true
  truthy (some (real t)) = json.truthy_real t
  truthy (some (str [])) = false
  truthy (some (str _)) = true
  truthy (some (arr nil)) = false
  truthy (some (arr _)) = true
  truthy (some (obj end)) = false
  truthy (some (obj _)) = true

  -- `str(payload.get(key, ""))`
  abbrev pub text_or_empty : Option Json → Text
  text_or_empty none = []
  text_or_empty (some v) = json.str_of v
