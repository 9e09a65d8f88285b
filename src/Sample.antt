-- ===== src/Sample.antt =====
-- A concrete `json` module for the tests: a file's content is the value itself.
use mikrus_mcp.Prelude.{[], ℕ, refl, Text, true, Option, none, some}
use mikrus_mcp.Json.{Json, int, str, pos, JsonLib, IsLossless}

abbrev pub plain_str : Json → Text
plain_str (str t) = t
plain_str _ = []

abbrev pub plain_float : Json → Option ℕ
plain_float (int (pos n)) = some n
plain_float _ = none

abbrev pub plain : JsonLib Json
plain = record {
  loads = λ v. some v;
  dumps = λ v. v;
  size = λ v. 100;
  str_of = plain_str;
  float_of = plain_float;
  float_repr = λ n. int (pos n);
  truthy_real = λ t. true;
}

pub plain-IsLossless : IsLossless plain
plain-IsLossless = record {
  loads-dumps = λ v. refl;
  str_of-str = λ t. refl;
  float_of-float_repr = λ n. refl;
}
